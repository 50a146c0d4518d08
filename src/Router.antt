-- ===== src/Router.antt =====
-- internal/service/router.go with internal/models/routing.go. `A` is the type of PSP adapters,
-- which the router only hands out. A Go map is an association list; the order in which a `range`
-- over the adapters visits the keys is an argument, since Go leaves it open. All the clock
-- readings of one call of `Route` are one instant, and no other call changes a breaker meanwhile:
-- its lock is a read lock, and each breaker has a mutex of its own.
pub mod Candidates
pub mod Search
pub mod Choice
use resilient_settlement_orc.Base.{
  String, Bool, true, false, ◌&&◌, not, Option, none, some, List, [], ◌∷◌, if◌then◌else◌, str_eq,
}
use resilient_settlement_orc.Base.Int.{ℤ, ltb_ℤ}
use resilient_settlement_orc.Base.Dict.{Dict, lookup, insert}
use resilient_settlement_orc.CircuitBreaker
use resilient_settlement_orc.CircuitBreaker.{CircuitBreaker, default_config}

pub record RoutingConditions : Type 0 where
  pub min_amount : Option ℤ
  pub max_amount : Option ℤ
  pub currency : String
  pub country : String
  pub country_ne : String

pub record RoutingRule : Type 0 where
  pub name : String
  pub conditions : RoutingConditions
  pub primary_psp : String
  pub fallback_psp : String
  pub priority : ℤ

pub record RoutingDecision : Type 0 where
  pub selected_psp : String
  pub fallback_psp : String
  pub reason : String
  pub rule_name : String

-- What the router reads of a `CreatePaymentRequest`; a nil `RoutingPreferences` is `none`.
pub record RouteRequest : Type 0 where
  pub amount : ℤ
  pub currency : String
  pub preferred_psp : Option String

pub record PaymentRouter (A : Type 0) : Type 0 where
  pub adapters : Dict A
  pub breakers : Dict CircuitBreaker
  pub rules : List RoutingRule

abbrev below_min : Option ℤ → ℤ → Bool
below_min none amount = false
below_min (some low) amount = ltb_ℤ amount low

abbrev above_max : Option ℤ → ℤ → Bool
above_max none amount = false
above_max (some high) amount = ltb_ℤ high amount

-- `matches`; the two country conditions are not read.
unfoldable pub matches : RoutingConditions → RouteRequest → Bool
matches cond req =
    if below_min cond.min_amount req.amount
    then false
    else if above_max cond.max_amount req.amount
    then false
    else if not (str_eq cond.currency "") && not (str_eq req.currency cond.currency)
    then false
    else true

-- The decisions that the branches of `Route` return.
abbrev pub preference : String → RoutingDecision
preference pref = record {
  selected_psp = pref;
  fallback_psp = "";
  reason = "merchant_preference";
  rule_name = "explicit_override";
}

abbrev pub primary : RoutingRule → RoutingDecision
primary rule = record {
  selected_psp = rule.primary_psp;
  fallback_psp = rule.fallback_psp;
  reason = "rule_match";
  rule_name = rule.name;
}

abbrev pub fallback : RoutingRule → RoutingDecision
fallback rule = record {
  selected_psp = rule.fallback_psp;
  fallback_psp = "";
  reason = "circuit_breaker_fallback";
  rule_name = rule.name;
}

abbrev pub resort : String → RoutingDecision
resort name = record {
  selected_psp = name;
  fallback_psp = "";
  reason = "last_resort_fallback";
  rule_name = "no_rule_matched";
}

-- The router after a call, with the decision and the adapter if there is one.
abbrev pub Outcome : Type 0 → Type 0
Outcome A = PaymentRouter A × Option (RoutingDecision × A)

module _ {A : Type 0} where
  unfoldable pub new_payment_router : PaymentRouter A
  new_payment_router = record { adapters = []; breakers = []; rules = [] }

  unfoldable pub register_adapter : String → A → PaymentRouter A → PaymentRouter A
  register_adapter name a r = record r {
    adapters = insert name a r.adapters;
    breakers = insert name (CircuitBreaker.new name default_config) r.breakers;
  }

  unfoldable pub load_rules : List RoutingRule → PaymentRouter A → PaymentRouter A
  load_rules rules r = record r { rules = rules }

  unfoldable pub get_adapter : String → PaymentRouter A → Option A
  get_adapter name r = lookup name r.adapters

  abbrev update_breaker :
      (CircuitBreaker → CircuitBreaker)
      → String
      → Option CircuitBreaker
      → PaymentRouter A
      → PaymentRouter A
  update_breaker f psp none r = r
  update_breaker f psp (some cb) r = record r { breakers = insert psp (f cb) r.breakers }

  unfoldable pub record_success : String → PaymentRouter A → PaymentRouter A
  record_success psp r = update_breaker CircuitBreaker.record_success psp (lookup psp r.breakers) r

  unfoldable pub record_failure : ℤ → ℤ → String → PaymentRouter A → PaymentRouter A
  record_failure now opened psp r =
      update_breaker (CircuitBreaker.record_failure now opened) psp (lookup psp r.breakers) r

  abbrev ask_breaker : ℤ → String → Option CircuitBreaker → PaymentRouter A → PaymentRouter A × Bool
  ask_breaker now psp none r = (r, true)
  ask_breaker now psp (some cb) r =
      let (cb', ok) = CircuitBreaker.allow now cb in
      (record r { breakers = insert psp cb' r.breakers }, ok)

  -- `isAvailable`, which moves a breaker whose timeout is over to half-open.
  unfoldable pub is_available : ℤ → String → PaymentRouter A → PaymentRouter A × Bool
  is_available now psp r = ask_breaker now psp (lookup psp r.breakers) r

  -- Go on with what follows unless a branch has returned.
  abbrev or_else : Outcome A → (PaymentRouter A → Outcome A) → Outcome A
  or_else (r, some d) k = (r, some d)
  or_else (r, none) k = k r

  abbrev with_adapter : RoutingDecision → Option A → PaymentRouter A → Outcome A
  with_adapter d none r = (r, none)
  with_adapter d (some a) r = (r, some (d, a))

  -- The breaker is asked first, then the adapter is looked up.
  pub try_available : ℤ → RoutingDecision → PaymentRouter A → Outcome A
  unfolding is_available
  try_available now d r =
      let (r', ok) = is_available now d.selected_psp r in
      if ok then with_adapter d (lookup d.selected_psp r'.adapters) r' else (r', none)

  abbrev if_available : RoutingDecision → A → PaymentRouter A × Bool → Outcome A
  if_available d a (r, true) = (r, some (d, a))
  if_available d a (r, false) = (r, none)

  abbrev try_adapter : ℤ → RoutingDecision → Option A → PaymentRouter A → Outcome A
  try_adapter now d none r = (r, none)
  try_adapter now d (some a) r = if_available d a (is_available now d.selected_psp r)

  -- The adapter is looked up first, then the breaker is asked.
  pub try_registered : ℤ → RoutingDecision → PaymentRouter A → Outcome A
  unfolding is_available
  try_registered now d r = try_adapter now d (lookup d.selected_psp r.adapters) r

  abbrev try_preference : ℤ → Option String → PaymentRouter A → Outcome A
  try_preference now none r = (r, none)
  try_preference now (some pref) r =
      if str_eq pref "" then (r, none) else try_registered now (preference pref) r

  -- One rule that matches: its primary PSP, then its fallback.
  try_rule : ℤ → RoutingRule → PaymentRouter A → Outcome A
  unfolding try_available
  try_rule now rule r =
      or_else (try_available now (primary rule) r) λ r'.
        if str_eq rule.fallback_psp "" then (r', none) else try_available now (fallback rule) r'

  evaluate_rules : ℤ → RouteRequest → List RoutingRule → PaymentRouter A → Outcome A
  unfolding try_rule
  evaluate_rules now req [] r = (r, none)
  evaluate_rules now req (rule ∷ rules) r =
      or_else (if matches rule.conditions req then try_rule now rule r else (r, none))
        (evaluate_rules now req rules)

  last_resort : ℤ → List String → PaymentRouter A → Outcome A
  unfolding try_registered
  last_resort now [] r = (r, none)
  last_resort now (name ∷ names) r =
      or_else (try_registered now (resort name) r) (last_resort now names)

  -- `Route`; `none` is the error "all PSPs are unavailable". `order` lists the adapters' names as
  -- the last loop visits them.
  unfoldable pub route : ℤ → List String → RouteRequest → PaymentRouter A → Outcome A
  unfolding try_registered evaluate_rules last_resort
  route now order req r =
      or_else (try_preference now req.preferred_psp r)
        λ r'. or_else (evaluate_rules now req r'.rules r') (last_resort now order)
