-- ===== src/Handlers/Payments/Tenants.antt =====
-- What a merchant can do to another merchant's payment through internal/handler/payment.go.
use resilient_settlement_orc.Base.{
  ℕ, ◌+◌, ◌≤◌, String, false, ◌≡◌, ◌≢◌, refl, Option, none, some, arith, str_eq, eq_iff, Bool-cases,
  Option-cases, inl, inr,
}
use resilient_settlement_orc.Base.Int.{ℤ, pos, leb_ℤ, ltb_ℤ}
use resilient_settlement_orc.Store.Rows.{Payment}
use resilient_settlement_orc.Store.Tables.{find_payment}
use resilient_settlement_orc.Store.Action.{Error, World, Result, ok, err}
use resilient_settlement_orc.PaymentService as Service
use resilient_settlement_orc.PaymentService.{PaymentResponse}
use resilient_settlement_orc.Middleware.Auth.{is_admin}
use resilient_settlement_orc.Handlers.{status}
use resilient_settlement_orc.Handlers.Payments.{
  Answer, get_payment, capture_payment, cancel_payment, refund_payment, refund_decoded, with_own,
  owned, error_answer, max_amount,
}

-- A request about one payment: the four handlers that look at its owner.
pub data Operation : Type 0 where
  view capture : Operation
  cancel : (World → World) → Operation
  refund : Option ℤ → Operation

unfoldable pub handle : Operation → String → String → World → Answer
handle view merchant id w = get_payment merchant id w
handle capture merchant id w = capture_payment merchant id w
handle (cancel others) merchant id w = cancel_payment others merchant id w
handle (refund body) merchant id w = refund_payment merchant id body w

-- A result that is an error or a payment of the merchant.
abbrev IsOwned : String → Result PaymentResponse → Type 0
IsOwned merchant (err e) = Unit {0}
IsOwned merchant (ok r) = r.payment.merchant_id ≡ merchant

-- `GetPayment` of the service only reads.
abbrev IsRead : World → Payment → Result PaymentResponse × World → Type 0
IsRead w p (r, v) = (n : ℕ) × (v ≡ record w { tick = n }) × IsOwned p.merchant_id r

get_payment-IsRead :
    (id : String) (w : World) (p : Payment)
    → find_payment id w.tables ≡ some p
    → IsRead w p (Service.get_payment id w)
unfolding Service.get_payment
get_payment-IsRead id w p h = elim (Bool-cases (w.env.db_fails w.tick)) [
  | inl down ↦ rw down (_, refl, tt)
  | inr up ↦
      rw (up, h)
        (elim (Bool-cases (w.env.is_uuid id)) [
          | inr unreadable ↦ rw unreadable (_, refl, tt)
          | inl readable ↦ rw readable (elim (Option-cases p.psp_payment_id) [
            | inl n ↦ rw n (_, refl, tt)
            | inr (pid, e) ↦ rw e (elim (Bool-cases (w.env.db_fails (w.tick + 1))) [
              | inl down ↦ rw down (_, refl, tt)
              | inr up ↦ rw up (_, refl, refl)
            ])
          ])
        ])
]

-- Nothing but the number of calls to the outside has changed, and the answer is an error.
abbrev IsRefused : World → Answer → Type 0
IsRefused w (a, v) = (n : ℕ) × (v ≡ record w { tick = n }) × (400 ≤ status a)

error_answer-le : (e : Error) → 400 ≤ status (error_answer e)
error_answer-le e = ground arith

owned-IsRefused :
    (merchant : String) (next : PaymentResponse → World → Answer) (w : World) (p : Payment)
    → is_admin merchant ≡ false
    → str_eq p.merchant_id merchant ≡ false
    → (x : Result PaymentResponse × World) → IsRead w p x
    → IsRefused w (owned merchant next x)
owned-IsRefused merchant next w p user other (err e, v) (n, same, _) = (n, same, error_answer-le e)
owned-IsRefused merchant next w p user other (ok r, v) (n, same, own) =
    rw (user, own, other) (n, same, omega arith)

with_own-IsRefused :
    (merchant id : String) (next : PaymentResponse → World → Answer) (w : World) (p : Payment)
    → is_admin merchant ≡ false
    → str_eq p.merchant_id merchant ≡ false
    → find_payment id w.tables ≡ some p
    → IsRefused w (with_own merchant id next w)
with_own-IsRefused merchant id next w p user other found = elim (Bool-cases (str_eq id "")) [
  | inl empty ↦ rw empty (w.tick, refl, omega arith)
  | inr some_id ↦
      rw some_id (owned-IsRefused merchant next w p user other _ (get_payment-IsRead id w p found))
]

refund-IsRefused :
    (merchant id : String) (body : Option ℤ) (w : World) (p : Payment)
    → is_admin merchant ≡ false
    → str_eq p.merchant_id merchant ≡ false
    → find_payment id w.tables ≡ some p
    → IsRefused w (refund_decoded merchant id body w)
refund-IsRefused merchant id none w p user other found = (w.tick, refl, omega arith)
refund-IsRefused merchant id (some amount) w p user other found =
    elim (Bool-cases (leb_ℤ amount (pos 0))) [
      | inl low ↦ rw low (w.tick, refl, omega arith)
      | inr positive ↦ rw positive (elim (Bool-cases (ltb_ℤ max_amount amount)) [
        | inl high ↦ rw high (w.tick, refl, omega arith)
        | inr fits ↦ rw fits (with_own-IsRefused merchant id _ w p user other found)
      ])
    ]

-- The payment is another merchant's, and the caller is not the administrator. Then a request to see,
-- capture, cancel or refund it, whatever its body, is answered with an error, and changes nothing:
-- the tables, the calls of PSPs, the events, the breakers and the routing rules stay as they are.
pub handle-IsRefused :
    (op : Operation) (merchant id : String) (w : World) (p : Payment)
    → is_admin merchant ≡ false
    → p.merchant_id ≢ merchant
    → find_payment id w.tables ≡ some p
    → let x = handle op merchant id w in
      (n : ℕ) × (x.1 ≡ record w { tick = n }) × (400 ≤ status x.0)
unfolding handle get_payment capture_payment cancel_payment refund_payment
handle-IsRefused op merchant id w p user foreign found = by_operation op
  where
    other : str_eq p.merchant_id merchant ≡ false
    other = ground (arith, eq_iff p.merchant_id merchant, foreign)

    by_operation : (o : Operation) → IsRefused w (handle o merchant id w)
    by_operation view = with_own-IsRefused merchant id _ w p user other found
    by_operation capture = with_own-IsRefused merchant id _ w p user other found
    by_operation (cancel others) = with_own-IsRefused merchant id _ w p user other found
    by_operation (refund body) = elim (Bool-cases (str_eq id "")) [
      | inl empty ↦ rw empty (w.tick, refl, omega arith)
      | inr some_id ↦ rw some_id (refund-IsRefused merchant id body w p user other found)
    ]
