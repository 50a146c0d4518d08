-- ===== src/Router/Candidates.antt =====
-- A search for a PSP without side effects, which internal/service/router.go is measured by.
use resilient_settlement_orc.Base.{
  String, Bool, true, false, ◌≡◌, Option, none, some, List, [], ◌∷◌, ◌++◌, if◌then◌else◌, str_eq,
  ◌⊎◌,
}
use resilient_settlement_orc.Base.Int.{ℤ}
use resilient_settlement_orc.Base.Dict.{Dict, lookup}
use resilient_settlement_orc.CircuitBreaker.{CircuitBreaker, allow}
use resilient_settlement_orc.Router.{
  RoutingRule, RoutingDecision, RouteRequest, matches, preference, primary, fallback, resort,
}

abbrev allowed : ℤ → Option CircuitBreaker → Bool
allowed now none = true
allowed now (some cb) = (allow now cb).1

-- Whether a request to a PSP would be let through now.
unfoldable pub available : ℤ → Dict CircuitBreaker → String → Bool
available now breakers psp = allowed now (lookup psp breakers)

-- The PSPs that a request is meant for, best first: the merchant's preference, the primary and
-- the fallback of each rule that matches, and every registered one.
abbrev pub from_preference : Option String → List RoutingDecision
from_preference none = []
from_preference (some pref) = if str_eq pref "" then [] else preference pref ∷ []

abbrev pub from_fallback : RoutingRule → List RoutingDecision
from_fallback rule = if str_eq rule.fallback_psp "" then [] else fallback rule ∷ []

abbrev pub from_rules : RouteRequest → List RoutingRule → List RoutingDecision
from_rules req [] = []
from_rules req (rule ∷ rules) =
    (if matches rule.conditions req then primary rule ∷ from_fallback rule else [])
    ++ from_rules req rules

abbrev pub from_order : List String → List RoutingDecision
from_order [] = []
from_order (name ∷ names) = resort name ∷ from_order names

unfoldable pub candidates : List String → RouteRequest → List RoutingRule → List RoutingDecision
candidates order req rules =
    from_preference req.preferred_psp ++ (from_rules req rules ++ from_order order)

abbrev pub Has : String → List String → Type 0
Has psp [] = ⊥
Has psp (name ∷ names) = (name ≡ psp) ⊎ Has psp names

module _ {A : Type 0} where
  abbrev choose_in :
      Option A
      → Bool
      → RoutingDecision
      → Option (RoutingDecision × A)
      → Option (RoutingDecision × A)
  choose_in (some a) true d rest = some (d, a)
  choose_in (some a) false d rest = rest
  choose_in none ok d rest = rest

  -- The first candidate that is registered and whose breaker lets requests through.
  unfoldable pub choose :
      ℤ → Dict A → Dict CircuitBreaker → List RoutingDecision → Option (RoutingDecision × A)
  choose now adapters breakers [] = none
  choose now adapters breakers (d ∷ ds) =
      choose_in (lookup d.selected_psp adapters) (available now breakers d.selected_psp) d
        (choose now adapters breakers ds)
