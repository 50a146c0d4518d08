-- ===== src/Payment/Status.antt =====
-- internal/models/payment.go (the statuses) and internal/service/statemachine.go.
use resilient_settlement_orc.Base.{
  String, Bool, true, false, ◌||◌, Option, none, some, List, [], ◌∷◌, if◌then◌else◌, str_eq,
}

-- The statuses of `models.PaymentStatus`. The database column holds their strings.
pub data PaymentStatus : Type 0 where
  created pending authorized captured failed cancelled refunded partially_refunded : PaymentStatus

-- The constants' values.
abbrev pub status_string : PaymentStatus → String
status_string created = "created"
status_string pending = "pending"
status_string authorized = "authorized"
status_string captured = "captured"
status_string failed = "failed"
status_string cancelled = "cancelled"
status_string refunded = "refunded"
status_string partially_refunded = "partially_refunded"

-- `PaymentStatus.IsValid`, which is asked of any string.
unfoldable pub is_valid : String → Bool
is_valid s =
    str_eq s "created"
    || (str_eq s "pending"
        || (str_eq s "authorized"
            || (str_eq s "captured"
                || (str_eq s "failed"
                    || (str_eq s "cancelled"
                        || (str_eq s "refunded" || str_eq s "partially_refunded"))))))

-- `PaymentStatus.IsTerminal`
unfoldable pub is_terminal : PaymentStatus → Bool
is_terminal failed = true
is_terminal cancelled = true
is_terminal refunded = true
is_terminal _ = false

abbrev pub status_eq : PaymentStatus → PaymentStatus → Bool
status_eq created created = true
status_eq pending pending = true
status_eq authorized authorized = true
status_eq captured captured = true
status_eq failed failed = true
status_eq cancelled cancelled = true
status_eq refunded refunded = true
status_eq partially_refunded partially_refunded = true
status_eq _ _ = false

-- The map `validTransitions`; `none` is a missing key.
unfoldable pub valid_transitions : PaymentStatus → Option (List PaymentStatus)
valid_transitions created = some (pending ∷ authorized ∷ failed ∷ [])
valid_transitions pending = some (authorized ∷ captured ∷ failed ∷ [])
valid_transitions authorized = some (captured ∷ cancelled ∷ failed ∷ [])
valid_transitions captured = some (refunded ∷ partially_refunded ∷ [])
valid_transitions partially_refunded = some (refunded ∷ partially_refunded ∷ [])
valid_transitions _ = none

-- The two errors that `ValidateTransition` formats.
pub data TransitionError : Type 0 where
  no_transitions : PaymentStatus → TransitionError
  invalid_transition : PaymentStatus → PaymentStatus → TransitionError

abbrev status_mem : PaymentStatus → List PaymentStatus → Bool
status_mem to [] = false
status_mem to (s ∷ rest) = if status_eq s to then true else status_mem to rest

abbrev check_allowed :
    PaymentStatus → PaymentStatus → Option (List PaymentStatus) → Option TransitionError
check_allowed from to none = some (no_transitions from)
check_allowed from to (some allowed) =
    if status_mem to allowed then none else some (invalid_transition from to)

-- `ValidateTransition`; `none` is Go's nil error.
unfoldable pub validate_transition : PaymentStatus → PaymentStatus → Option TransitionError
unfolding valid_transitions
validate_transition from to = check_allowed from to (valid_transitions from)

abbrev is_nil : Option TransitionError → Bool
is_nil none = true
is_nil (some _) = false

unfoldable pub can_transition : PaymentStatus → PaymentStatus → Bool
unfolding validate_transition
can_transition from to = is_nil (validate_transition from to)

abbrev or_empty : Option (List PaymentStatus) → List PaymentStatus
or_empty none = []
or_empty (some l) = l

-- A missing key reads as a nil slice.
unfoldable pub allowed_transitions : PaymentStatus → List PaymentStatus
unfolding valid_transitions
allowed_transitions current = or_empty (valid_transitions current)
