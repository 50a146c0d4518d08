-- ===== src/Payment/Lifecycle.antt =====
-- The life cycle of a payment: the paths through the transition table of
-- internal/service/statemachine.go.
use resilient_settlement_orc.Base.{
  String, Bool, true, false, ◌≡◌, ◌≢◌, ◌↔◌, ◌⊎◌, inl, inr, refl, none, arith, eq_iff, str_eq, ◌||◌,
  sym, subst,
}
use resilient_settlement_orc.Payment.Status.{
  PaymentStatus, created, pending, authorized, captured, failed, cancelled, refunded,
  partially_refunded, status_string, is_valid, is_terminal, validate_transition, can_transition,
}

-- A legal status change, as the life cycle is meant.
pub data Step : PaymentStatus → PaymentStatus → Type 0 where
  accept : Step created pending
  authorize : Step created authorized
  reject : Step created failed
  clear : Step pending authorized
  settle : Step pending captured
  abort : Step pending failed
  capture : Step authorized captured
  cancel : Step authorized cancelled
  expire : Step authorized failed
  refund : Step captured refunded
  refund_part : Step captured partially_refunded
  refund_rest : Step partially_refunded refunded
  refund_more : Step partially_refunded partially_refunded

pub data Reach (s : PaymentStatus) : PaymentStatus → Type 0 where
  here : Reach s s
  next : {t u : PaymentStatus} → Reach s t → validate_transition t u ≡ none → Reach s u

ruleset steps = (
  accept, authorize, reject, clear, settle, abort, capture, cancel, expire, refund, refund_part,
  refund_rest, refund_more,
)

Step-validate : {s t : PaymentStatus} → Step s t → validate_transition s t ≡ none
unfolding validate_transition
Step-validate accept = refl
Step-validate authorize = refl
Step-validate reject = refl
Step-validate clear = refl
Step-validate settle = refl
Step-validate abort = refl
Step-validate capture = refl
Step-validate cancel = refl
Step-validate expire = refl
Step-validate refund = refl
Step-validate refund_part = refl
Step-validate refund_rest = refl
Step-validate refund_more = refl

validate-Step : (s t : PaymentStatus) → validate_transition s t ≡ none → Step s t
unfolding validate_transition
validate-Step s t h = grind (arith, steps)

-- `ValidateTransition` accepts exactly the steps of the life cycle.
validate-eq-none_iff : (s t : PaymentStatus) → (validate_transition s t ≡ none) ↔ Step s t
validate-eq-none_iff s t = (validate-Step s t, λ st. Step-validate st)

-- A status is terminal, by `IsTerminal`, exactly when the table lets it change to no status.
is_terminal_iff :
    (s : PaymentStatus)
    → (is_terminal s ≡ true) ↔ ((t : PaymentStatus) → can_transition s t ≡ false)
unfolding is_terminal can_transition
is_terminal_iff created = (λ h. cc, λ h. cc (h pending))
is_terminal_iff pending = (λ h. cc, λ h. cc (h captured))
is_terminal_iff authorized = (λ h. cc, λ h. cc (h captured))
is_terminal_iff captured = (λ h. cc, λ h. cc (h refunded))
is_terminal_iff partially_refunded = (λ h. cc, λ h. cc (h refunded))
is_terminal_iff failed = (λ h t. refl, λ h. refl)
is_terminal_iff cancelled = (λ h t. refl, λ h. refl)
is_terminal_iff refunded = (λ h t. refl, λ h. refl)

stuck_or_not :
    (s : PaymentStatus)
    → (is_terminal s ≡ false) ⊎ ((t : PaymentStatus) → validate_transition s t ≢ none)
unfolding is_terminal validate_transition
stuck_or_not created = inl refl
stuck_or_not pending = inl refl
stuck_or_not authorized = inl refl
stuck_or_not captured = inl refl
stuck_or_not partially_refunded = inl refl
stuck_or_not failed = inr (λ t h. cc)
stuck_or_not cancelled = inr (λ t h. cc)
stuck_or_not refunded = inr (λ t h. cc)

-- No path leads on from a terminal status.
pub Reach-is_terminal : {s t : PaymentStatus} → Reach s t → (is_terminal s ≡ false) ⊎ (t ≡ s)
Reach-is_terminal here = inr refl
Reach-is_terminal {s} (next {t} {u} r h) = elim (Reach-is_terminal r) [
  | inl open_ ↦ inl open_
  | inr same ↦ elim (stuck_or_not s) [
    | inl open_ ↦ inl open_
    | inr stuck ↦ absurd (stuck u (subst (λ x. validate_transition x u ≡ none) same h))
  ]
]

-- The statuses of money that has been taken.
abbrev pub is_taken : PaymentStatus → Bool
is_taken captured = true
is_taken refunded = true
is_taken partially_refunded = true
is_taken _ = false

step-is_taken :
    (s t : PaymentStatus) → validate_transition s t ≡ none → is_taken s ≡ true → is_taken t ≡ true
unfolding validate_transition
step-is_taken s t h k = ground arith

-- Once captured, a payment never fails, is never cancelled and is never authorized again: every
-- status on any path from there is captured, refunded or partially refunded.
pub Reach-is_taken : {s t : PaymentStatus} → Reach s t → is_taken s ≡ true → is_taken t ≡ true
Reach-is_taken here k = k
Reach-is_taken (next {t} {u} r h) k = step-is_taken t u h (Reach-is_taken r k)

step_into_taken :
    (s t : PaymentStatus)
    → validate_transition s t ≡ none
    → is_taken t ≡ true
    → (is_taken s ≡ true) ⊎ (t ≡ captured)
unfolding validate_transition
step_into_taken s t h k = ground arith

-- A payment is refunded only through captured: a path from a status where no money has been
-- taken to one where it has passes captured.
pub Reach-through_captured :
    {s t : PaymentStatus}
    → Reach s t
    → is_taken s ≡ false
    → is_taken t ≡ true
    → Reach s captured × Reach captured t
Reach-through_captured here k l = cc
Reach-through_captured {s} (next {t} {u} r h) k l = elim (step_into_taken t u h l) [
  | inl taken ↦ let (a, b) = Reach-through_captured r k taken in (a, next b h)
  | inr e ↦ (subst (λ x. Reach s x) e (next r h), subst (λ x. Reach captured x) (sym e) here)
]

-- A test by `||` of which one side must hold.
one_of_or : (a b : Bool) {P : Type 0} → (a ≡ true → P) → (b ≡ true → P) → (a || b) ≡ true → P
one_of_or true b f g h = f refl
one_of_or false b f g h = g h

is_valid-status : (x : String) → is_valid x ≡ true → (s : PaymentStatus) × (status_string s ≡ x)
unfolding is_valid
is_valid-status x =
    one_of_or (str_eq x "created") _ (λ e. (created, sym ((eq_iff x "created").0 e)))
      (one_of_or (str_eq x "pending") _ (λ e. (pending, sym ((eq_iff x "pending").0 e)))
        (one_of_or (str_eq x "authorized") _ (λ e. (authorized, sym ((eq_iff x "authorized").0 e)))
          (one_of_or (str_eq x "captured") _ (λ e. (captured, sym ((eq_iff x "captured").0 e)))
            (one_of_or (str_eq x "failed") _ (λ e. (failed, sym ((eq_iff x "failed").0 e)))
              (one_of_or (str_eq x "cancelled") _
                (λ e. (cancelled, sym ((eq_iff x "cancelled").0 e)))
                (one_of_or (str_eq x "refunded") _
                  (λ e. (refunded, sym ((eq_iff x "refunded").0 e)))
                  (λ e. (partially_refunded, sym ((eq_iff x "partially_refunded").0 e)))))))))

status-is_valid : (s : PaymentStatus) → is_valid (status_string s) ≡ true
unfolding is_valid
status-is_valid created = refl
status-is_valid pending = refl
status-is_valid authorized = refl
status-is_valid captured = refl
status-is_valid failed = refl
status-is_valid cancelled = refl
status-is_valid refunded = refl
status-is_valid partially_refunded = refl

-- `IsValid` accepts exactly the strings of the eight statuses.
is_valid_iff : (x : String) → (is_valid x ≡ true) ↔ ((s : PaymentStatus) × (status_string s ≡ x))
is_valid_iff x = (is_valid-status x, λ (s, e). subst (λ y. is_valid y ≡ true) e (status-is_valid s))
