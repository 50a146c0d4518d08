-- ===== src/PaymentService/Refund.antt =====
-- The transaction of `RefundPayment` of internal/service/payment.go.
use resilient_settlement_orc.Base.{
  ◌+◌, String, true, ◌≡◌, ◌≢◌, refl, none, some, ◌∷◌, arith, inl, inr, Option-cases, if◌then◌else◌,
  ap, ◌∙◌,
}
use resilient_settlement_orc.Base.Int.{ℤ, ◌≤ℤ◌, leb_ℤ}
use resilient_settlement_orc.Base.Int64.{add64, sub64}
use resilient_settlement_orc.Router
use resilient_settlement_orc.PaymentService.Capture.{change_row}
use resilient_settlement_orc.Payment.Status.{PaymentStatus, refunded, partially_refunded}
use resilient_settlement_orc.Store.Rows.{Payment, StateTransition, refund_text}
use resilient_settlement_orc.Store.Tables.{
  find_payment, update_payment, insert_transition, apply_change,
}
use resilient_settlement_orc.Store.Action.{
  Result, ok, err, transaction-atomic, transaction-ok, rollback, begun, PspCall, End, World,
  refund_call, commit, PspAdapter,
}
use resilient_settlement_orc.PaymentService.{
  refund_in_tx, refund_body, refund_write, record_change, is_refundable,
}

-- The status after a refund that brings the total to `total`.
abbrev pub status_after : ℤ → ℤ → PaymentStatus
status_after amount total = if leb_ℤ amount total then refunded else partially_refunded

-- The row's change, and the transition.
abbrev pub refund_change : Payment → ℤ → ℤ → Payment → Payment
refund_change p amount time q =
    let total = add64 p.total_refunded amount in
    record q { total_refunded = total; status = status_after p.amount total; updated_at = time }

abbrev pub refund_row : Payment → ℤ → String → String → ℤ → StateTransition
refund_row p amount id row time =
    let total = add64 p.total_refunded amount in
    change_row row id p.status (status_after p.amount total) (refund_text amount total p.amount)
      "api" time

-- The world after the query and the call of the provider.
abbrev called : World → PspCall → World
called w c = record w { tick = w.tick + 1 + 1; psp_calls = c ∷ w.psp_calls }

-- What a refund of `amount` that ended with `r` has done to the world.
abbrev pub Refunded : String → ℤ → World → Result (PaymentStatus × PaymentStatus) × World → Type 0
Refunded id amount w (err e, w') = w'.tables ≡ w.tables
Refunded id amount w (ok (from, to), w') =
    (p : Payment) × (pid : String) × (a : PspAdapter) × (time : ℤ) × (row : String) × (find_payment
        id w.tables
      ≡ some p)
    × (is_refundable p.status ≡ true)
    × (p.psp_payment_id ≡ some pid)
    × (amount ≤ℤ sub64 p.amount p.total_refunded)
    × (Router.get_adapter p.psp w.router ≡ some a)
    × (a.refund_payment (w.tick + 1 + 1) pid amount ≡ none)
    × (w'.psp_calls ≡ refund_call p.psp pid amount ∷ w.psp_calls)
    × (w'.tables
        ≡ apply_change id (refund_change p amount time) (refund_row p amount id row time) w.tables)
    × (from ≡ p.status)
    × (to ≡ status_after p.amount (add64 p.total_refunded amount))

module _ (id : String) (p : Payment) (amount : ℤ) (w : World)
    (c : PaymentStatus × PaymentStatus) where
  refund_write-no_rollback : (refund_write id p amount w).0 ≢ ok (rollback c)
  unfolding refund_write record_change
  refund_write-no_rollback h = ground arith

  module _ (done : (refund_write id p amount w).0 ≡ ok (commit c)) where
    refund_write-result :
        (c.0 ≡ p.status) × (c.1 ≡ status_after p.amount (add64 p.total_refunded amount))
    unfolding refund_write record_change
    refund_write-result = ground arith

    refund_write-tables :
        (refund_write id p amount w).1.tables
        ≡ apply_change id
            (refund_change p amount (w.env.clock w.tick))
            (refund_row p amount id (w.env.uuid (w.tick + 1)) (w.env.clock w.tick))
            w.tables
    unfolding refund_write record_change update_payment insert_transition
    refund_write-tables = ground arith

    refund_write-calls : (refund_write id p amount w).1.psp_calls ≡ w.psp_calls
    unfolding refund_write record_change
    refund_write-calls = ground arith

module _ (id : String) (amount : ℤ) (w : World) where
  refund_body-missing :
      (e : End (PaymentStatus × PaymentStatus))
      → find_payment id w.tables ≡ none
      → (refund_body id amount w).0 ≢ ok e
  unfolding refund_body
  refund_body-missing e n h = ground arith

  module _ (p : Payment) (found : find_payment id w.tables ≡ some p)
      (e : End (PaymentStatus × PaymentStatus)) (done : (refund_body id amount w).0 ≡ ok e) where
    refund_body-id : p.psp_payment_id ≢ none
    unfolding refund_body
    refund_body-id n = ground arith

    refund_body-guards :
        (is_refundable p.status ≡ true) × (amount ≤ℤ sub64 p.amount p.total_refunded)
    unfolding refund_body
    refund_body-guards = ground arith

    refund_body-adapter : Router.get_adapter p.psp w.router ≢ none
    unfolding refund_body
    refund_body-adapter n = ground arith

    -- The provider's answer to the call is not an error.
    refund_body-accepted :
        (pid : String) (a : PspAdapter)
        → p.psp_payment_id ≡ some pid
        → Router.get_adapter p.psp w.router ≡ some a
        → a.refund_payment (w.tick + 1) pid amount ≡ none
    unfolding refund_body
    refund_body-accepted pid a f g = ground arith

    refund_body-reach :
        (pid : String)
        → p.psp_payment_id ≡ some pid
        → refund_body id amount w
          ≡ refund_write id p amount (called w (refund_call p.psp pid amount))
    unfolding refund_body
    refund_body-reach pid f = ground arith

Refunded-by_body :
    (id : String) (amount : ℤ) (w after : World) (c : PaymentStatus × PaymentStatus)
    → (refund_body id amount (begun w)).0 ≡ ok (commit c)
    → (after ≡ record (refund_body id amount (begun w)).1 {
      tick = (refund_body id amount (begun w)).1.tick + 1;
    })
    → Refunded id amount w (ok c, after)
Refunded-by_body id amount w after c h same = elim (Option-cases (find_payment id w.tables)) [
  | inl n ↦ absurd (refund_body-missing id amount (begun w) (commit c) n h)
  | inr (p, e) ↦ elim (Option-cases p.psp_payment_id) [
    | inl n ↦ absurd (refund_body-id id amount (begun w) p e (commit c) h n)
    | inr (pid, f) ↦ elim (Option-cases (Router.get_adapter p.psp w.router)) [
      | inl n ↦ absurd (refund_body-adapter id amount (begun w) p e (commit c) h n)
      | inr (a, g) ↦
          let (able, enough) = refund_body-guards id amount (begun w) p e (commit c) h in
          let reach = refund_body-reach id amount (begun w) p e (commit c) h pid f in
          let v = called (begun w) (refund_call p.psp pid amount) in
          let done : (refund_write id p amount v).0 ≡ ok (commit c) = rw reach at h in
          let (from, to) = refund_write-result id p amount v c done in
          (
            p,
            pid,
            a,
            _,
            _,
            e,
            able,
            f,
            enough,
            g,
            refund_body-accepted id amount (begun w) p e (commit c) h pid a f g,
            ap (λ (x : World). x.psp_calls) same
                ∙ ap (λ (x : Result (End (PaymentStatus × PaymentStatus)) × World). x.1.psp_calls)
                    reach
                ∙ refund_write-calls id p amount v c done,
            ap (λ (x : World). x.tables) same
                ∙ ap (λ (x : Result (End (PaymentStatus × PaymentStatus)) × World). x.1.tables)
                    reach
                ∙ refund_write-tables id p amount v c done,
            from,
            to,
          )
    ]
  ]
]

refund_body-no_rollback :
    (id : String) (amount : ℤ) (w : World) (c : PaymentStatus × PaymentStatus)
    → (refund_body id amount w).0 ≢ ok (rollback c)
refund_body-no_rollback id amount w c h = elim (Option-cases (find_payment id w.tables)) [
  | inl n ↦ refund_body-missing id amount w (rollback c) n h
  | inr (p, e) ↦ elim (Option-cases p.psp_payment_id) [
    | inl n ↦ refund_body-id id amount w p e (rollback c) h n
    | inr (pid, f) ↦
        refund_write-no_rollback id p amount (called w (refund_call p.psp pid amount)) c
          (rw (refund_body-reach id amount w p e (rollback c) h pid f) at h)
  ]
]

pub Refunded-by_result :
    (id : String) (amount : ℤ) (w : World) (r : Result (PaymentStatus × PaymentStatus))
    → (refund_in_tx id amount w).0 ≡ r
    → Refunded id amount w (r, (refund_in_tx id amount w).1)
unfolding refund_in_tx
Refunded-by_result id amount w (err e) h = transaction-atomic (refund_body id amount) w e h
Refunded-by_result id amount w (ok c) h = elim (transaction-ok (refund_body id amount) w c h) [
  | inl (done, same) ↦ Refunded-by_body id amount w _ c done same
  | inr (undone, same) ↦ absurd (refund_body-no_rollback id amount (begun w) c undone)
]

-- A refund succeeds only for a payment that is captured or partially refunded and has that much
-- left, after one call to its registered provider for the amount, which that answers without an
-- error; it then adds the amount to the payment's
-- total, sets the status by it, and records one transition with those statuses. If it fails, at
-- any step, the tables are as before.
pub refund_in_tx-Refunded :
    (id : String) (amount : ℤ) (w : World) → Refunded id amount w (refund_in_tx id amount w)
refund_in_tx-Refunded id amount w = Refunded-by_result id amount w (refund_in_tx id amount w).0 refl
