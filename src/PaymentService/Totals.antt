-- ===== src/PaymentService/Totals.antt =====
-- The amounts of `RefundPayment` of internal/service/payment.go, whose arithmetic is that of int64.
use resilient_settlement_orc.Base.{
  String, ◌≡◌, ◌⊎◌, ◌↔◌, ◌∙◌, refl, ap, sym, subst, some, eq_refl, arith,
}
use resilient_settlement_orc.Base.Int.{ℤ, pos, ◌+ℤ◌, ◌-ℤ◌, ◌≤ℤ◌}
use resilient_settlement_orc.Base.Int64.{add64, sub64, InRange}
use resilient_settlement_orc.Payment.Status.{PaymentStatus, refunded, partially_refunded}
use resilient_settlement_orc.Store.Rows.{Payment}
use resilient_settlement_orc.Store.Tables.{
  Tables, find_by, update_by, find_payment, payment_id, find_by-update_by,
}
use resilient_settlement_orc.Store.Action.{World, ok}
use resilient_settlement_orc.PaymentService.{refund_in_tx}
use resilient_settlement_orc.PaymentService.Refund.{
  Refunded, Refunded-by_result, refund_change, status_after,
}

-- A payment of which some part has been refunded, with amounts that the columns hold.
abbrev pub IsCapped : Payment → Type 0
IsCapped p = (pos 0 ≤ℤ p.total_refunded) × (p.total_refunded ≤ℤ p.amount) × InRange p.amount

-- For a positive amount that passes the over-refund test the sum is exact.
add64_refund :
    (p : Payment) (amount : ℤ)
    → IsCapped p
    → pos 1 ≤ℤ amount
    → amount ≤ℤ sub64 p.amount p.total_refunded
    → (add64 p.total_refunded amount ≡ p.total_refunded +ℤ amount)
      × (p.total_refunded +ℤ amount ≤ℤ p.amount)
unfolding add64 sub64 ◌+ℤ◌ ◌-ℤ◌
add64_refund p amount c h k = ground arith

status_after-refunded_iff :
    (amount total : ℤ) → total ≤ℤ amount → (status_after amount total ≡ refunded) ↔ (total ≡ amount)
status_after-refunded_iff amount total h = ground arith

status_after-cases :
    (amount total : ℤ)
    → (status_after amount total ≡ refunded) ⊎ (status_after amount total ≡ partially_refunded)
status_after-cases amount total = ground arith

find_payment-apply_change :
    (id : String) (p : Payment) (amount time : ℤ) (t : Tables)
    → find_payment id t ≡ some p
    → find_by payment_id id (update_by payment_id id (refund_change p amount time) t.payments)
      ≡ some (refund_change p amount time p)
find_payment-apply_change id p amount time t found =
    rw
      (
        find_by-update_by payment_id id id (refund_change p amount time) t.payments (λ q. refl),
        eq_refl id,
        found,
      )
      refl

-- What a refund of `amount` leaves of the payment `p`: the row, with the new status.
abbrev pub Left : String → ℤ → Payment → PaymentStatus → Tables → Type 0
Left id amount p to t =
    (q : Payment) × (find_payment id t ≡ some q)
    × (q.amount ≡ p.amount)
    × (q.total_refunded ≡ p.total_refunded +ℤ amount)
    × (q.total_refunded ≤ℤ q.amount)
    × (q.status ≡ to)
    × ((to ≡ refunded) ⊎ (to ≡ partially_refunded))
    × ((to ≡ refunded) ↔ (q.total_refunded ≡ q.amount))

Left-of_Refunded :
    (id : String) (amount : ℤ) (w : World) (p : Payment) (from to : PaymentStatus) (v : World)
    → find_payment id w.tables ≡ some p
    → IsCapped p
    → pos 1 ≤ℤ amount
    → Refunded id amount w (ok (from, to), v)
    → Left id amount p to v.tables
Left-of_Refunded id amount w p from to v found c positive
      (p', pid, a, time, row, found', able, f, enough, g, accepted, calls, same, was, is) =
    let e : p' ≡ p = cc (found, found') in
    let (exact, most) =
      add64_refund p' amount (subst (λ x. IsCapped x) (sym e) c) positive enough in
    let total = add64 p'.total_refunded amount in
    let left : Left id amount p' to v.tables = (
      refund_change p' amount time p',
      ap (find_payment id) same ∙ find_payment-apply_change id p' amount time w.tables found',
      refl,
      exact,
      rw exact most,
      sym is,
      rw is (status_after-cases p'.amount total),
      rw is (status_after-refunded_iff p'.amount total (rw exact most)),
    ) in
    subst (λ x. Left id amount x to v.tables) e left

-- A payment is there, of which a part between nothing and its whole amount has been refunded, and
-- the amount to refund is positive. If its refund succeeds, the payment is there with the same
-- amount; its refunded total has grown by exactly the amount to refund, without wrapping around, and
-- is within its amount; its status is the one that the transaction reports, refunded or partially
-- refunded, and refunded exactly when nothing is left.
pub refund_in_tx-exact :
    (id : String) (amount : ℤ) (w : World) (p : Payment) (from to : PaymentStatus)
    → find_payment id w.tables ≡ some p
    → IsCapped p
    → pos 1 ≤ℤ amount
    → (refund_in_tx id amount w).0 ≡ ok (from, to)
    → Left id amount p to (refund_in_tx id amount w).1.tables
refund_in_tx-exact id amount w p from to found c positive done =
    Left-of_Refunded id amount w p from to (refund_in_tx id amount w).1 found c positive
      (Refunded-by_result id amount w (ok (from, to)) done)
