-- ===== src/Tests/Doors.antt =====
-- The theorems on the handlers and the dead letter queue at concrete inputs.
use resilient_settlement_orc.Base.{
  ℕ, suc, ◌≤◌, String, true, false, ◌≡◌, ◌≢◌, ◌⊎◌, refl, Option, none, some, List, [], ◌∷◌, ◌++◌,
  map, length, take, remove_elem, get_elem?, set_elem, zero, arith, if◌then◌else◌, str_eq, eq_iff,
}
use resilient_settlement_orc.Base.Int.{ℤ, pos, negsuc}
use resilient_settlement_orc.Retry.{plain}
use resilient_settlement_orc.Router
use resilient_settlement_orc.Store.Rows.{WebhookEvent, WebhookStatus}
use resilient_settlement_orc.Store.Tables.{find_payment}
use resilient_settlement_orc.Store.Action.{World, PspAdapter}
use resilient_settlement_orc.PaymentService.Creation as Creating
use resilient_settlement_orc.PaymentService.Creation.{CreatePaymentRequest}
use resilient_settlement_orc.Webhook.{idempotency_key}
use resilient_settlement_orc.Webhook.Reception.{
  find_event, ingest_webhook_retry, ingest_webhook_internal, ingest_once,
}
use resilient_settlement_orc.DeadLetters.{
  DlqEntry, Redis, IsDocumented, remove_first, DlqService, done, enqueue, retry,
}
use resilient_settlement_orc.DeadLetters.Queue.{enqueue_all, enqueue_all-queue}
use resilient_settlement_orc.DeadLetters.Retry.{
  is_done, IsUnmarked, retry-exact, retry-shifted, retry-discards,
}
use resilient_settlement_orc.Handlers.{error, status}
use resilient_settlement_orc.Handlers.Payments.{answer, create_payment}
use resilient_settlement_orc.Handlers.Payments.Tenants.{refund, handle, handle-IsRefused}
use resilient_settlement_orc.Handlers.Payments.Creation.{IsAcceptable, create_payment-IsAcceptable}
use resilient_settlement_orc.Handlers.Webhooks.{handle_webhook}
use resilient_settlement_orc.Handlers.Webhooks.Signatures.{handle_webhook-unsigned}
use resilient_settlement_orc.Tests.Shop.{shop, busy_shop, mock, order, payment, outside}

-- A Redis server that never fails, and a JSON encoder with one text for every entry.
abbrev entry : String → DlqEntry
entry payload = record {
  id = "d1";
  psp = "mock";
  event_type = "payment.captured";
  payload = payload;
  error = "";
  timestamp = pos 5;
}

abbrev text_of : DlqEntry → String
text_of e = "{}"

abbrev range : ℤ → ℤ → List String → List String
range (pos zero) (pos n) l = take (suc n) l
range _ _ l = l

abbrev index_of : ℤ → List String → Option String
index_of (pos i) l = get_elem? l i
index_of (negsuc i) l = none

abbrev set_at : ℤ → String → List String → List String
set_at (pos i) y l = set_elem i y l
set_at (negsuc i) y l = l

abbrev server : Redis
server = record {
  marshal = λ e. some (text_of e);
  unmarshal = λ s. some (entry "{...}");
  down = λ n. false;
  lpush = λ x l. x ∷ l;
  ltrim = range;
  llen = λ l. pos (length l);
  lrange = range;
  lindex = index_of;
  lset = set_at;
  lrem = λ n x l. remove_first x l;
}

server-IsDocumented : IsDocumented server
server-IsDocumented = record {
  lpush_lem = λ x l. refl;
  ltrim_lem = λ n l. refl;
  lrange_lem = λ n l. refl;
  llen_lem = λ l. refl;
  lindex_lem = λ i l. refl;
  lset_lem = λ i y l. refl;
  lrem_lem = λ x l. refl;
}

-- The event has been received before, and its processing has failed.
abbrev failed_event : WebhookEvent
failed_event = record {
  id = "e1";
  psp = "mock";
  event_type = "payment.captured";
  raw_payload = "{...}";
  signature = "verified";
  psp_payment_id = "psp_1";
  internal_payment_id = none;
  status = WebhookStatus.failed;
  idempotency_key = idempotency_key outside "mock" "payment.captured" "{...}";
  has_error = true;
  processed_at = some (pos 5);
  created_at = pos 5;
}

abbrev dead_letters : DlqService
dead_letters = record {
  connected = true;
  queue = "{0}" ∷ "{1}" ∷ "{2}" ∷ [];
  commands = 0;
  world = record shop { tables = record shop.tables { webhook_events = failed_event ∷ [] } };
}

dead_letters-IsUnmarked : IsUnmarked dead_letters.queue
dead_letters-IsUnmarked = (refl, (refl, (refl, tt)))

retry_seen :
    (retry server outside (λ t. (enqueue server (entry "a") t).0) (pos 1) dead_letters).1 ≡ done
unfolding retry ingest_webhook_retry ingest_webhook_internal ingest_once Router.get_adapter
    idempotency_key
retry_seen = refl

retry-shifted_example :
    (retry server outside (λ t. (enqueue server (entry "a") t).0) (pos 1) dead_letters).0.queue
    ≡ "{}" ∷ "{1}" ∷ "{2}" ∷ []
retry-shifted_example =
    retry-shifted server outside server-IsDocumented (λ n. refl) text_of (entry "a") 1 dead_letters
      (λ f. refl) (refl, dead_letters-IsUnmarked) refl (omega arith) retry_seen

enqueue_all-queue_example :
    (enqueue_all server dead_letters (entry "a" ∷ entry "b" ∷ [])).queue
    ≡ take 10_000 (map text_of (entry "a" ∷ entry "b" ∷ []) ++ dead_letters.queue)
enqueue_all-queue_example =
    enqueue_all-queue server text_of server-IsDocumented (λ n. refl) (λ e. refl) dead_letters
      (entry "a" ∷ entry "b" ∷ []) refl (omega arith)

retry-exact_example :
    let x = retry server outside (λ t. t) (pos 1) dead_letters in
    x.0.queue ≡ (if is_done x.1 then remove_elem 1 dead_letters.queue else dead_letters.queue)
retry-exact_example =
    retry-exact server outside server-IsDocumented (λ n. refl) (λ t. t) 1 dead_letters
      dead_letters-IsUnmarked (λ t. refl)

adapter_lem : Router.get_adapter "mock" shop.router ≡ some mock
unfolding Router.get_adapter
adapter_lem = refl

event_lem :
    find_event (idempotency_key outside "mock" "payment.captured" "{...}") dead_letters.world.tables
    ≡ some failed_event
unfolding idempotency_key
event_lem = refl

retry-discards_example : retry server outside (λ t. t) (pos 1) dead_letters ≡ (
  record dead_letters {
    queue = "{0}" ∷ "{2}" ∷ [];
    commands = 3;
    world = record dead_letters.world { tick = 1 };
  },
  done,
)
retry-discards_example =
    retry-discards server outside server-IsDocumented (λ n. refl) 1 dead_letters "{1}"
      (entry "{...}") failed_event mock dead_letters-IsUnmarked refl refl refl adapter_lem event_lem
      refl

ne-str_eq : (s t : String) → str_eq s t ≡ false → s ≢ t
ne-str_eq s t h e = ground (arith, h, e, eq_iff s t)

stranger_lem : find_payment "p1" busy_shop.tables ≡ some payment
stranger_lem = refl

handle-IsRefused_example :
    let x = handle (refund (some (pos 100))) "m2" "p1" busy_shop in
    (n : ℕ) × (x.1 ≡ record busy_shop { tick = n }) × (400 ≤ status x.0)
handle-IsRefused_example =
    handle-IsRefused (refund (some (pos 100))) "m2" "p1" busy_shop payment refl
      (ne-str_eq "m1" "m2" refl) stranger_lem

create_payment-IsAcceptable_example :
    let x = create_payment (λ w. w) "m1" "k" (some order) shop in
    ((n : ℕ) × (code : String) × (x ≡ (error n code, shop)) × (400 ≤ n))
    ⊎ (◌≢◌ {A = String} "k" "")
      × ((req : CreatePaymentRequest) × (some order ≡ some req)
          × IsAcceptable "m1" req
          × (x ≡ answer 201 (Creating.create_payment (λ w. w) req shop)))
create_payment-IsAcceptable_example =
    create_payment-IsAcceptable (λ w. w) "m1" "k" (some order) shop

-- An adapter that refuses every signature.
abbrev strict : PspAdapter
strict = record mock {
  verify_webhook_signature = λ payload signature. some (plain "bad signature");
}

abbrev strict_shop : World
strict_shop = record shop { router = record shop.router { adapters = ("mock", strict) ∷ [] } }

strict_lem : Router.get_adapter "mock" strict_shop.router ≡ some strict
unfolding Router.get_adapter
strict_lem = refl

handle_webhook-unsigned_example :
    let x =
      handle_webhook outside none "mock" (λ name. "payment.captured") (some "{...}") strict_shop in
    (400 ≤ status x.0) × (x.1 ≡ strict_shop)
handle_webhook-unsigned_example =
    handle_webhook-unsigned outside "mock" "{...}" (λ name. "payment.captured") strict_shop strict
      (plain "bad signature") strict_lem refl
