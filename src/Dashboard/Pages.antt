-- ===== src/Dashboard/Pages.antt =====
-- The pages of internal/service/dashboard.go and internal/service/ledger.go: the newest rows, from an
-- offset on. An offset or a limit that is negative is an error of the database.
use resilient_settlement_orc.Base.{
  ℕ, String, Bool, ◌||◌, Option, some, List, [], ◌∷◌, map, length, take, drop,
}
use resilient_settlement_orc.Base.Int.{ℤ, pos, negsuc, ltb_ℤ}
use resilient_settlement_orc.Base.Sorting.{newest_first}
use resilient_settlement_orc.Payment.Status.{status_string}
use resilient_settlement_orc.Store.Rows.{Payment, LedgerAccount, LedgerEntry, LedgerTransaction}
use resilient_settlement_orc.Store.Tables.{Tables, find_by}
use resilient_settlement_orc.Store.Action.{
  World, Action, database, pure, raise_if, query, ◌>>=◌, ◌>>◌,
}
use resilient_settlement_orc.PaymentService.{interfere}

abbrev to_ℕ : ℤ → ℕ
to_ℕ (pos n) = n
to_ℕ (negsuc n) = 0

-- `LIMIT limit OFFSET offset`
abbrev pub page : {A : Type 0} → ℤ → ℤ → List A → List A
page limit offset rows = take (to_ℕ limit) (drop (to_ℕ offset) rows)

abbrev pub is_negative : ℤ → Bool
is_negative n = ltb_ℤ n (pos 0)

-- A statement with a limit and an offset.
abbrev paged : {A : Type 0} → ℤ → ℤ → (Tables → List A) → Action (List A)
paged limit offset rows = do
  raise_if (is_negative limit || is_negative offset) database
  query (λ t. page limit offset (rows t))

-- `RecentPayment`
pub record RecentPayment : Type 0 where
  pub id : String
  pub merchant_id : String
  pub order_id : String
  pub amount : ℤ
  pub currency : String
  pub status : String
  pub psp : String
  pub customer_email : String
  pub created_at : ℤ

abbrev recent : Payment → RecentPayment
recent p = record {
  id = p.id;
  merchant_id = p.merchant_id;
  order_id = p.order_id;
  amount = p.amount;
  currency = p.currency;
  status = status_string p.status;
  psp = p.psp;
  customer_email = p.customer_email;
  created_at = p.created_at;
}

abbrev pub payment_time : Payment → ℤ
payment_time p = p.created_at

-- `GetRecentPayments`: a page, and the number of all payments.
unfoldable pub get_recent_payments : (World → World) → ℤ → ℤ → Action (List RecentPayment × ℕ)
get_recent_payments others offset limit = do
  total ← query (λ t. length t.payments)
  interfere others
  rows ← paged limit offset (λ t. newest_first payment_time t.payments)
  pure (map recent rows, total)

-- `LedgerEntryRow`
pub record LedgerEntryRow : Type 0 where
  pub id : String
  pub transaction_id : String
  pub account_code : String
  pub account_name : String
  pub debit : ℤ
  pub credit : ℤ
  pub running_balance : ℤ
  pub description : String
  pub tx_type : String
  pub created_at : ℤ

abbrev account_id : LedgerAccount → String
account_id a = a.id

abbrev transaction_id : LedgerTransaction → String
transaction_id t = t.id

abbrev with_both :
    LedgerEntry
    → Option LedgerAccount
    → Option LedgerTransaction
    → List LedgerEntryRow
    → List LedgerEntryRow
with_both e (some a) (some t) rest =
    record {
      id = e.id;
      transaction_id = e.transaction_id;
      account_code = a.account_code;
      account_name = a.account_name;
      debit = e.debit;
      credit = e.credit;
      running_balance = e.running_balance;
      description = e.description;
      tx_type = t.transaction_type;
      created_at = e.created_at;
    }
    ∷ rest
with_both e _ _ rest = rest

-- The two joins.
abbrev pub entry_rows : Tables → List LedgerEntry → List LedgerEntryRow
entry_rows t [] = []
entry_rows t (e ∷ es) =
    with_both e (find_by account_id e.account_id t.accounts)
      (find_by transaction_id e.transaction_id t.ledger_transactions) (entry_rows t es)

abbrev pub row_time : LedgerEntryRow → ℤ
row_time r = r.created_at

-- `GetRecentEntries`
unfoldable pub get_recent_entries : ℤ → ℤ → Action (List LedgerEntryRow)
get_recent_entries limit offset =
    paged limit offset (λ t. newest_first row_time (entry_rows t t.ledger_entries))
