-- ===== src/Handlers/Payments/Creation.antt =====
-- Which requests of internal/handler/payment.go to create a payment reach the payment service.
use resilient_settlement_orc.Base.{
  ℕ, ◌≤◌, String, true, false, ◌≡◌, ◌≢◌, ◌⊎◌, refl, ap, Option, none, some, List, [], ◌∷◌, arith,
  str_eq, eq_iff, Bool-cases, Option-cases, inl, inr,
}
use resilient_settlement_orc.Base.Int.{pos, ◌≤ℤ◌}
use resilient_settlement_orc.Store.Action.{World}
use resilient_settlement_orc.PaymentService.Creation as Creating
use resilient_settlement_orc.PaymentService.Creation.{CreatePaymentRequest}
use resilient_settlement_orc.Middleware.Auth.{is_admin}
use resilient_settlement_orc.Handlers.{error}
use resilient_settlement_orc.Handlers.Payments.{
  Answer, answer, create_payment, create_decoded, create_unless, refusal, is_valid_currency,
  is_one_of, supported_currencies,
}

-- A text of a list.
pub data Member (s : String) : List String → Type 0 where
  first : {t : String} {ts : List String} → s ≡ t → Member s (t ∷ ts)
  later : {t : String} {ts : List String} → Member s ts → Member s (t ∷ ts)

-- What a merchant may ask for: from 1 to 999,999,999,999 minor units of a supported currency, with
-- an order, for itself unless it is the administrator.
pub record IsAcceptable (merchant : String) (req : CreatePaymentRequest) : Type 0 where
  pub low : pos 1 ≤ℤ req.amount
  pub high : req.amount ≤ℤ pos 999_999_999_999
  pub currency : Member req.currency supported_currencies
  pub order : req.order_id ≢ ""
  pub merchant_given : req.merchant_id ≢ ""
  pub own : (merchant ≡ "__admin__") ⊎ (req.merchant_id ≡ merchant)

is_one_of-Member : (s : String) (ts : List String) → is_one_of s ts ≡ true → Member s ts
is_one_of-Member s [] h = cc h
is_one_of-Member s (t ∷ ts) h = elim (Bool-cases (str_eq s t)) [
  | inl e ↦ first ((eq_iff s t).0 e)
  | inr n ↦ later (is_one_of-Member s ts (rw n at h))
]

is_valid_currency-Member : (s : String) → is_valid_currency s ≡ true → Member s supported_currencies
unfolding is_valid_currency
is_valid_currency-Member s h = is_one_of-Member s supported_currencies h

refusal-IsAcceptable :
    (merchant : String) (req : CreatePaymentRequest)
    → refusal merchant req ≡ none
    → IsAcceptable merchant req
refusal-IsAcceptable merchant req h = record {
  low = ground (arith, h);
  high = ground (arith, h);
  currency = is_valid_currency-Member req.currency (ground (arith, h));
  order = λ e. ground (arith, h, e, eq_iff req.order_id "");
  merchant_given = λ e. ground (arith, h, e, eq_iff req.merchant_id "");
  own = elim (Bool-cases (is_admin merchant)) [
    | inl user ↦ inl ((eq_iff merchant "__admin__").0 user)
    | inr other ↦ inr ((eq_iff req.merchant_id merchant).0 (ground (arith, h, other)))
  ];
}

Member-is_one_of : {s : String} {ts : List String} → Member s ts → is_one_of s ts ≡ true
Member-is_one_of {s} (first {t} e) = rw ((eq_iff s t).1 e) refl
Member-is_one_of {s} (later {t} m) = ground (arith, Member-is_one_of m)

is_valid_currency-known : (s : String) → Member s supported_currencies → is_valid_currency s ≡ true
unfolding is_valid_currency
is_valid_currency-known s m = Member-is_one_of m

known-nonempty : (s : String) → is_valid_currency s ≡ true → str_eq s "" ≡ false
unfolding is_valid_currency
known-nonempty s h = elim (Bool-cases (str_eq s "")) [
  | inl e ↦ cc (rw ((eq_iff s "").0 e) at h)
  | inr n ↦ n
]

refusal-none :
    (merchant : String) (req : CreatePaymentRequest)
    → IsAcceptable merchant req
    → refusal merchant req ≡ none
refusal-none merchant req a =
    let known = known-nonempty req.currency (is_valid_currency-known req.currency a.currency) in
    ground (
      arith,
      a.low,
      a.high,
      is_valid_currency-known req.currency a.currency,
      known,
      a.order,
      eq_iff req.order_id "",
      a.merchant_given,
      eq_iff req.merchant_id "",
      a.own,
      eq_iff merchant "__admin__",
      eq_iff req.merchant_id merchant,
    )

-- What a handler that is sent a body does, as the theorem below says.
abbrev IsGuarded : (World → World) → String → Option CreatePaymentRequest → World → Answer → Type 0
IsGuarded others merchant body w x =
    ((n : ℕ) × (code : String) × (x ≡ (error n code, w)) × (400 ≤ n))
    ⊎ ((req : CreatePaymentRequest) × (body ≡ some req)
        × IsAcceptable merchant req
        × (x ≡ answer 201 (Creating.create_payment others req w)))

refusal-le :
    (merchant code : String) (req : CreatePaymentRequest) (n : ℕ)
    → refusal merchant req ≡ some (n, code)
    → 400 ≤ n
refusal-le merchant code req n h = ground (arith, h)

create_decoded-IsGuarded :
    (others : World → World) (merchant : String) (body : Option CreatePaymentRequest) (w : World)
    → IsGuarded others merchant body w (create_decoded others merchant body w)
create_decoded-IsGuarded others merchant none w = inl (400, "INVALID_REQUEST", refl, omega arith)
create_decoded-IsGuarded others merchant (some req) w = elim (Option-cases (refusal merchant req)) [
  | inl free ↦ inr (
    req,
    refl,
    refusal-IsAcceptable merchant req free,
    ap (λ o. create_unless others req o w) free,
  )
  | inr ((n, code), e) ↦
      inl (n, code, ap (λ o. create_unless others req o w) e, refusal-le merchant code req n e)
]

-- A request to create a payment is either answered with an error and no effect at all, or it has an
-- idempotency key, it is acceptable (its amount from 1 to 999,999,999,999 in a supported currency,
-- its merchant the caller unless that is the administrator, its order given), and it is answered
-- with what the service's `CreatePayment` makes of it.
pub create_payment-IsAcceptable :
    (others : World → World) (merchant key : String) (body : Option CreatePaymentRequest)
    (w : World)
    → let x = create_payment others merchant key body w in
      ((n : ℕ) × (code : String) × (x ≡ (error n code, w)) × (400 ≤ n))
      ⊎ (key ≢ "")
        × ((req : CreatePaymentRequest) × (body ≡ some req)
            × IsAcceptable merchant req
            × (x ≡ answer 201 (Creating.create_payment others req w)))
unfolding create_payment
create_payment-IsAcceptable others merchant key body w = elim (Bool-cases (str_eq key "")) [
  | inl empty ↦ rw empty (inl (400, "MISSING_IDEMPOTENCY_KEY", refl, omega arith))
  | inr given ↦ rw given (elim (create_decoded-IsGuarded others merchant body w) [
    | inl refused ↦ inl refused
    | inr guarded ↦ inr (λ e. ground (arith, given, e, eq_iff key ""), guarded)
  ])
]

-- An acceptable request with an idempotency key is not turned away.
create_payment-accepted :
    (others : World → World) (merchant key : String) (req : CreatePaymentRequest) (w : World)
    → key ≢ ""
    → IsAcceptable merchant req
    → create_payment others merchant key (some req) w
      ≡ answer 201 (Creating.create_payment others req w)
unfolding create_payment
create_payment-accepted others merchant key req w given a =
    let s : str_eq key "" ≡ false = ground (arith, eq_iff key "", given) in
    rw s (ap (λ o. create_unless others req o w) (refusal-none merchant req a))
