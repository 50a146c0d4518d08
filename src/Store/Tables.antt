-- ===== src/Store/Tables.antt =====
-- The tables, and what the statements of SQL do to them. A table lists its newest row first.
use resilient_settlement_orc.Base.{
  refl, String, Bool, true, false, ◌≡◌, Option, none, some, List, [], ◌∷◌, ◌&&◌, arith, is_some,
  if◌then◌else◌, str_eq, eq_iff,
}
use resilient_settlement_orc.Base.Int.{pos, leb_ℤ}
use resilient_settlement_orc.Payment.Status.{PaymentStatus, status_eq}
use resilient_settlement_orc.Store.Rows.{
  Payment, StateTransition, LedgerAccount, LedgerTransaction, LedgerEntry, WebhookEvent,
  ReconciliationRecord, Discrepancy,
}

pub record Tables : Type 0 where
  pub payments : List Payment
  pub transitions : List StateTransition
  pub accounts : List LedgerAccount
  pub ledger_transactions : List LedgerTransaction
  pub ledger_entries : List LedgerEntry
  pub webhook_events : List WebhookEvent
  pub reconciliation_records : List ReconciliationRecord
  pub discrepancies : List Discrepancy

module _ {ℓ} {A : Type ℓ} where
  -- `SELECT ... WHERE key = k` of a row that is unique
  abbrev pub find_by : (A → String) → String → List A → Option A
  find_by key k [] = none
  find_by key k (x ∷ xs) = if str_eq (key x) k then some x else find_by key k xs

  -- `UPDATE ... WHERE key = k`
  abbrev pub update_by : (A → String) → String → (A → A) → List A → List A
  update_by key k f [] = []
  update_by key k f (x ∷ xs) =
      let rest = update_by key k f xs in if str_eq (key x) k then f x ∷ rest else x ∷ rest

  abbrev pub map_option : (A → A) → Option A → Option A
  map_option f none = none
  map_option f (some x) = some (f x)

  pub find_by-update_by :
      (key : A → String) (k j : String) (f : A → A) (xs : List A)
      → ((x : A) → key (f x) ≡ key x)
      → find_by key j (update_by key k f xs)
        ≡ (if str_eq k j then map_option f (find_by key j xs) else find_by key j xs)
  find_by-update_by key k j f [] h = ground arith
  find_by-update_by key k j f (x ∷ xs) h =
      ground (
        arith,
        h x,
        eq_iff (key x) k,
        eq_iff (key x) j,
        eq_iff k j,
        find_by-update_by key k j f xs h,
      )

abbrev pub payment_id : Payment → String
payment_id p = p.id

abbrev pub find_payment : String → Tables → Option Payment
find_payment id t = find_by payment_id id t.payments

-- The constraint `chk_refund_cap` of migrations/000006.
abbrev pub cap_holds : Payment → Bool
cap_holds p = leb_ℤ (pos 0) p.total_refunded && leb_ℤ p.total_refunded p.amount

abbrev pub caps_hold : List Payment → Bool
caps_hold [] = true
caps_hold (p ∷ ps) = cap_holds p && caps_hold ps

abbrev checked_payments : List Payment → Tables → Option Tables
checked_payments ps t = if caps_hold ps then some (record t { payments = ps }) else none

-- `UPDATE payments ... WHERE id = $`
unfoldable pub update_payment : String → (Payment → Payment) → Tables → Option Tables
update_payment id f t = checked_payments (update_by payment_id id f t.payments) t

caps_hold-update :
    (id : String) (f : Payment → Payment) (ps : List Payment)
    → ((p : Payment) → cap_holds (f p) ≡ cap_holds p)
    → caps_hold (update_by payment_id id f ps) ≡ caps_hold ps
caps_hold-update id f [] k = refl
caps_hold-update id f (p ∷ ps) k = ground (arith, k p, caps_hold-update id f ps k)

-- An update that keeps the amounts meets the constraint if the rows did.
pub update_payment_lem :
    (id : String) (f : Payment → Payment) (t : Tables)
    → ((p : Payment) → cap_holds (f p) ≡ cap_holds p)
    → caps_hold t.payments ≡ true
    → update_payment id f t ≡ some (record t { payments = update_by payment_id id f t.payments })
unfolding update_payment
update_payment_lem id f t k h = rw (caps_hold-update id f t.payments k, h) refl

-- `INSERT INTO payments`, with the primary key.
unfoldable pub insert_payment : Payment → Tables → Option Tables
insert_payment p t =
    if is_some (find_payment p.id t) then none else checked_payments (p ∷ t.payments) t

-- The row has a new UUID for its primary key, which is taken not to be there yet.
unfoldable pub insert_transition : StateTransition → Tables → Option Tables
insert_transition s t = some (record t { transitions = s ∷ t.transitions })

abbrev pub has_status : PaymentStatus → Option Payment → Bool
has_status s none = false
has_status s (some p) = status_eq p.status s

abbrev rows_of : String → List StateTransition → List StateTransition
rows_of id [] = []
rows_of id (s ∷ ss) = let rest = rows_of id ss in if str_eq s.payment_id id then s ∷ rest else rest

-- The transitions of a payment, newest first.
abbrev pub history : String → Tables → List StateTransition
history id t = rows_of id t.transitions

abbrev insert_by_time : StateTransition → List StateTransition → List StateTransition
insert_by_time s [] = s ∷ []
insert_by_time s (u ∷ us) =
    if leb_ℤ u.created_at s.created_at then u ∷ insert_by_time s us else s ∷ u ∷ us

-- `ORDER BY created_at ASC`
abbrev pub order_by_time : List StateTransition → List StateTransition
order_by_time [] = []
order_by_time (s ∷ ss) = insert_by_time s (order_by_time ss)

-- What a status change leaves: the payment's row rewritten, and one more transition.
abbrev pub apply_change : String → (Payment → Payment) → StateTransition → Tables → Tables
apply_change id f row t = record t {
  payments = update_by payment_id id f t.payments;
  transitions = row ∷ t.transitions;
}
