-- ===== src/Router/Choice.antt =====
-- `Route` of internal/service/router.go, which changes breakers while it looks for a PSP, and a
-- search without side effects.
use resilient_settlement_orc.Base.{
  String, false, ◌≡◌, ◌↔◌, ◌∙◌, refl, sym, Option, none, some, List, [], ◌∷◌, ◌++◌, arith,
  if◌then◌else◌, str_eq, Bool-cases, inl, inr, subst, ◌⊎◌,
}
use resilient_settlement_orc.Base.Int.{ℤ}
use resilient_settlement_orc.Base.Dict.{Dict, lookup}
use resilient_settlement_orc.CircuitBreaker.{CircuitBreaker}
use resilient_settlement_orc.Router.{
  RoutingRule, RoutingDecision, RouteRequest, PaymentRouter, matches, preference, primary, fallback,
  resort, try_available, try_rule, evaluate_rules, last_resort, route, try_preference,
}
use resilient_settlement_orc.Router.Candidates.{
  available, from_preference, from_fallback, from_rules, from_order, candidates, Has, choose,
}
use resilient_settlement_orc.Router.Search.{
  Finds, Finds-none, try_available-Finds, try_registered-Finds, or_else-Finds, choose-append,
}

module _ {A : Type 0} where
  try_rule-Finds :
      (now : ℤ) (rule : RoutingRule) (r : PaymentRouter A)
      → Finds now r (try_rule now rule r) (primary rule ∷ from_fallback rule)
  unfolding try_rule
  try_rule-Finds now rule r =
      or_else-Finds (try_available now (primary rule) r) _ (primary rule ∷ []) (from_fallback rule)
        (try_available-Finds now (primary rule) r)
        λ r' g. elim (Bool-cases (str_eq rule.fallback_psp "")) [
          | inl e ↦ rw e (Finds-none now r')
          | inr e ↦ rw e (try_available-Finds now (fallback rule) r')
        ]

  matched-Finds :
      (now : ℤ) (req : RouteRequest) (rule : RoutingRule) (r : PaymentRouter A)
      → Finds now r
          (if matches rule.conditions req then try_rule now rule r else (r, none))
          (if matches rule.conditions req then primary rule ∷ from_fallback rule else [])
  matched-Finds now req rule r = elim (Bool-cases (matches rule.conditions req)) [
    | inl e ↦ rw e (try_rule-Finds now rule r)
    | inr e ↦ rw e (Finds-none now r)
  ]

  evaluate_rules-Finds :
      (now : ℤ) (req : RouteRequest) (rules : List RoutingRule) (r : PaymentRouter A)
      → Finds now r (evaluate_rules now req rules r) (from_rules req rules)
  unfolding evaluate_rules
  evaluate_rules-Finds now req [] r = Finds-none now r
  evaluate_rules-Finds now req (rule ∷ rules) r =
      or_else-Finds _ _ _ _ (matched-Finds now req rule r)
        λ r' g. evaluate_rules-Finds now req rules r'

  last_resort-Finds :
      (now : ℤ) (order : List String) (r : PaymentRouter A)
      → Finds now r (last_resort now order r) (from_order order)
  unfolding last_resort
  last_resort-Finds now [] r = Finds-none now r
  last_resort-Finds now (name ∷ names) r =
      or_else-Finds _ _ (resort name ∷ []) _ (try_registered-Finds now (resort name) r)
        λ r' g. last_resort-Finds now names r'

  try_preference-Finds :
      (now : ℤ) (pref : Option String) (r : PaymentRouter A)
      → Finds now r (try_preference now pref r) (from_preference pref)
  try_preference-Finds now none r = Finds-none now r
  try_preference-Finds now (some pref) r = elim (Bool-cases (str_eq pref "")) [
    | inl e ↦ rw e (Finds-none now r)
    | inr e ↦ rw e (try_registered-Finds now (preference pref) r)
  ]

  route-Finds :
      (now : ℤ) (order : List String) (req : RouteRequest) (r : PaymentRouter A)
      → Finds now r (route now order req r) (candidates order req r.rules)
  unfolding route candidates
  route-Finds now order req r =
      or_else-Finds _ _ _ _ (try_preference-Finds now req.preferred_psp r) λ r' g.
        or_else-Finds (evaluate_rules now req r'.rules r') (last_resort now order)
          (from_rules req r.rules) (from_order order)
          (subst (λ l. Finds now r' (evaluate_rules now req r'.rules r') (from_rules req l))
            g.same_rules (evaluate_rules-Finds now req r'.rules r'))
          λ r'' h. last_resort-Finds now order r''

  -- `Route` returns the first candidate that is registered and whose breaker lets requests through
  -- at that instant, with its adapter, and fails if there is none: preference first, then each
  -- matching rule's primary and fallback, then any PSP. Its side effects on the breakers change no
  -- answer at that instant, and it leaves the adapters and the rules alone.
  pub route-choose :
      (now : ℤ) (order : List String) (req : RouteRequest) (r : PaymentRouter A)
      → let (r', outcome) = route now order req r in
        (outcome ≡ choose now r.adapters r.breakers (candidates order req r.rules))
        × (r'.adapters ≡ r.adapters)
        × (r'.rules ≡ r.rules)
        × ((psp : String) → available now r'.breakers psp ≡ available now r.breakers psp)
  route-choose now order req r =
      let f = route-Finds now order req r in
      (f.found, f.agrees.same_adapters, f.agrees.same_rules, f.agrees.same_answers)

  abbrev pub IsUnusable : ℤ → PaymentRouter A → String → Type 0
  IsUnusable now r psp = (lookup psp r.adapters ≡ none) ⊎ (available now r.breakers psp ≡ false)

  choose-none :
      (now : ℤ) (r : PaymentRouter A) (ds : List RoutingDecision)
      → ((psp : String) → IsUnusable now r psp)
      → choose now r.adapters r.breakers ds ≡ none
  unfolding choose
  choose-none now r [] h = refl
  choose-none now r (d ∷ ds) h = ground (arith, h d.selected_psp, choose-none now r ds h)

  -- The last loop visits every registered adapter.
  abbrev pub Visits : List String → Dict A → Type 0
  Visits order adapters = (psp : String) → (lookup psp adapters ≡ none) ⊎ Has psp order

  IsUnusable-of_none :
      (now : ℤ) (r : PaymentRouter A) (order : List String) (psp : String)
      → choose now r.adapters r.breakers (from_order order) ≡ none
      → Has psp order
      → IsUnusable now r psp
  unfolding choose
  IsUnusable-of_none now r [] psp h m = absurd m
  IsUnusable-of_none now r (name ∷ names) psp h m =
      ground (arith, IsUnusable-of_none now r names psp)

  choose_append_none :
      (now : ℤ) (m : Dict A) (bs : Dict CircuitBreaker) (ds es : List RoutingDecision)
      → choose now m bs (ds ++ es) ≡ none
      → choose now m bs es ≡ none
  choose_append_none now m bs ds es h = ground (arith, choose-append now m bs ds es)

  -- If the last loop visits every registered adapter, `Route` fails exactly when each PSP is
  -- without an adapter or has a breaker that lets no request through.
  pub route-none_iff :
      (now : ℤ) (order : List String) (req : RouteRequest) (r : PaymentRouter A)
      → Visits order r.adapters
      → ((route now order req r).1 ≡ none) ↔ ((psp : String) → IsUnusable now r psp)
  unfolding candidates
  route-none_iff now order req r v =
      let e = (route-choose now order req r).0 in
      let ps = from_preference req.preferred_psp in
      (
        λ h psp. elim (v psp) [
          | inl missing ↦ inl missing
          | inr m ↦
              IsUnusable-of_none now r order psp
                (choose_append_none now r.adapters r.breakers (from_rules req r.rules) _
                  (choose_append_none now r.adapters r.breakers ps _ (sym e ∙ h)))
                m
        ],
        λ h. e ∙ choose-none now r (candidates order req r.rules) h,
      )
