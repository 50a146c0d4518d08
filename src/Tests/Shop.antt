-- ===== src/Tests/Shop.antt =====
-- The test data: a deployment with the provider "mock", four ledger accounts, and a payment that
-- is captured.
use Prim.Native.String.{◌++◌}
use resilient_settlement_orc.Base.{
  true, ◌≡◌, refl, ℕ, zero, suc, String, true, false, none, some, List, [], ◌∷◌, str_eq,
  if◌then◌else◌,
}
use resilient_settlement_orc.Base.Int.{pos}
use resilient_settlement_orc.Payment.Status.{captured}
use resilient_settlement_orc.CircuitBreaker.{CircuitBreaker, closed, default_config, zero_time}
use resilient_settlement_orc.Router.{RoutingRule}
use resilient_settlement_orc.Store.Rows.{
  Payment, LedgerAccount, AccountType, asset, liability, revenue, expense,
}
use resilient_settlement_orc.Store.Tables.{Tables}
use resilient_settlement_orc.Store.Action.{PspAdapter, answer, Env, World}
use resilient_settlement_orc.PaymentService.Creation.{CreatePaymentRequest}
use resilient_settlement_orc.Webhook.Reception.{is_accepted, is_storable}
use resilient_settlement_orc.Webhook.Json.{get_field}
use resilient_settlement_orc.Base.Text.{is_within}
use resilient_settlement_orc.Webhook.{extract_psp_payment_id, idempotency_key, Outside}
use resilient_settlement_orc.Webhook.Json.{number, string, Fields, end, field}

abbrev numbered : ℕ → String
numbered zero = "id"
numbered (suc n) = "+" ++ numbered n

abbrev pub environment : Env
environment = record {
  db_fails = λ n. false;
  is_uuid = λ id. true;
  uuid = numbered;
  clock = λ n. pos 1_700_000_000_000_000_000;
  ctx_done = λ n. none;
  visit_order = λ n. "mock" ∷ [];
}

-- It accepts everything, and reports every payment as captured for 1000.
abbrev pub mock : PspAdapter
mock = record {
  create_payment = λ n req. answer "psp_1";
  capture_payment = λ n pid amount currency. none;
  refund_payment = λ n pid amount. none;
  cancel_payment = λ n pid. none;
  get_payment_status = λ n pid. answer (record { status = "captured"; amount = pos 1000 });
  verify_webhook_signature = λ payload signature. none;
}

abbrev account : String → String → AccountType → LedgerAccount
account id code type = record {
  id = id;
  account_code = code;
  account_name = code;
  account_type = type;
  currency = "INR";
  current_balance = pos 0;
}

abbrev pub accounts : List LedgerAccount
accounts =
    account "a1" "PSP_SETTLEMENT" asset
    ∷ account "a2" "MERCHANT_PAY" liability
    ∷ account "a3" "PSP_FEES" revenue
    ∷ account "a4" "REFUND_EXP" expense
    ∷ []

abbrev no_rows : Tables
no_rows = record {
  payments = [];
  transitions = [];
  accounts = accounts;
  ledger_transactions = [];
  ledger_entries = [];
  webhook_events = [];
  reconciliation_records = [];
  discrepancies = [];
}

abbrev pub rule : RoutingRule
rule = record {
  name = "inr";
  conditions = record {
    min_amount = none;
    max_amount = some (pos 100000);
    currency = "INR";
    country = "";
    country_ne = "";
  };
  primary_psp = "mock";
  fallback_psp = "";
  priority = pos 1;
}

abbrev breaker : CircuitBreaker
breaker = record {
  name = "mock";
  state = closed;
  cfg = default_config;
  consecutive_fails = pos 0;
  consecutive_ok = pos 0;
  total_requests = pos 0;
  total_failures = pos 0;
  last_failure_at = zero_time;
  opened_at = zero_time;
}

abbrev pub shop : World
shop = record {
  env = environment;
  tick = 0;
  tables = no_rows;
  router = record {
    adapters = ("mock", mock) ∷ [];
    breakers = ("mock", breaker) ∷ [];
    rules = rule ∷ [];
  };
  pubsub = true;
  psp_calls = [];
  published = [];
}

abbrev pub order : CreatePaymentRequest
order = record {
  merchant_id = "m1";
  order_id = "o1";
  amount = pos 1000;
  currency = "INR";
  customer_email = "c@example.com";
  customer_name = "C";
  customer_phone = "1";
  preferred_psp = none;
}

abbrev pub payment : Payment
payment = record {
  id = "p1";
  merchant_id = "m1";
  order_id = "o1";
  amount = pos 1000;
  currency = "INR";
  status = captured;
  psp = "mock";
  psp_payment_id = some "psp_1";
  customer_email = "c@example.com";
  customer_name = "C";
  customer_phone = "1";
  total_refunded = pos 300;
  created_at = pos 5;
  updated_at = pos 5;
}

abbrev pub busy_shop : World
busy_shop = record shop { tables = record no_rows { payments = payment ∷ [] } }

abbrev webhook_body : Fields
webhook_body =
    field "payment_id" (string "psp_1") (field "created" (number (pos 1_700_000_000)) end)

abbrev pub outside : Outside
outside = record {
  parse = λ payload. if str_eq payload "{...}" then some webhook_body else none;
  payload_uuid = λ payload. payload;
  parse_time = λ s. none;
  is_jsonb = λ payload. true;
}

-- The webhook of the tests fits the columns of its event.
pub webhook-is_accepted : is_accepted outside "mock" "payment.captured" "{...}" ≡ true
unfolding is_storable is_within extract_psp_payment_id get_field idempotency_key
webhook-is_accepted = refl
