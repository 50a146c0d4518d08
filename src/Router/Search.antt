-- ===== src/Router/Search.antt =====
-- The side effects of a search for a PSP (internal/service/router.go): asking a breaker changes no
-- answer at that instant, so a branch finds what a search without side effects finds.
use resilient_settlement_orc.Base.{
  String, ◌≡◌, ◌∙◌, refl, sym, Option, none, some, List, [], ◌∷◌, ◌++◌, arith, eq_iff, Option-cases,
  inl, inr, subst, ◌⊎◌,
}
use resilient_settlement_orc.Base.Int.{ℤ}
use resilient_settlement_orc.Base.Dict.{Dict, lookup, insert, lookup-insert}
use resilient_settlement_orc.CircuitBreaker.{CircuitBreaker, allow}
use resilient_settlement_orc.Router.{
  RoutingDecision, PaymentRouter, Outcome, is_available, try_available, try_registered, or_else,
}
use resilient_settlement_orc.Router.Candidates.{available, choose}

-- Asking a breaker does not change what it answers at that instant.
allow_again : (now : ℤ) (cb : CircuitBreaker) → (allow now (allow now cb).0).1 ≡ (allow now cb).1
unfolding allow
allow_again now cb = ground arith

answers-insert :
    (now : ℤ) (psp q : String) (cb : CircuitBreaker) (m : Dict CircuitBreaker)
    → lookup psp m ≡ some cb
    → available now (insert psp (allow now cb).0 m) q ≡ available now m q
unfolding available
answers-insert now psp q cb m e =
    ground (arith, lookup-insert psp q (allow now cb).0 m, eq_iff psp q, allow_again now cb)

module _ {A : Type 0} where
  -- Two routers that answer alike at an instant.
  pub record Agrees (now : ℤ) (r s : PaymentRouter A) : Type 0 where
    pub same_adapters : s.adapters ≡ r.adapters
    pub same_rules : s.rules ≡ r.rules
    pub same_answers : (psp : String) → available now s.breakers psp ≡ available now r.breakers psp

  Agrees-refl : (now : ℤ) (r : PaymentRouter A) → Agrees now r r
  Agrees-refl now r = record { same_adapters = refl; same_rules = refl; same_answers = λ psp. refl }

  Agrees-trans :
      {now : ℤ} {r s t : PaymentRouter A} → Agrees now r s → Agrees now s t → Agrees now r t
  Agrees-trans f g = record {
    same_adapters = g.same_adapters ∙ f.same_adapters;
    same_rules = g.same_rules ∙ f.same_rules;
    same_answers = λ psp. g.same_answers psp ∙ f.same_answers psp;
  }

  -- `isAvailable` answers as `available`, and leaves a router that answers alike.
  is_available-answer :
      (now : ℤ) (psp : String) (r : PaymentRouter A)
      → (is_available now psp r).1 ≡ available now r.breakers psp
  unfolding is_available available
  is_available-answer now psp r = ground arith

  is_available-Agrees :
      (now : ℤ) (psp : String) (r : PaymentRouter A) → Agrees now r (is_available now psp r).0
  unfolding is_available available
  is_available-Agrees now psp r = elim (Option-cases (lookup psp r.breakers)) [
    | inl e ↦ rw e (Agrees-refl now r)
    | inr (cb, e) ↦ rw e (record {
      same_adapters = refl;
      same_rules = refl;
      same_answers = λ q. answers-insert now psp q cb r.breakers e;
    })
  ]

  choose-Agrees :
      {now : ℤ} {r s : PaymentRouter A} (ds : List RoutingDecision)
      → Agrees now r s
      → choose now s.adapters s.breakers ds ≡ choose now r.adapters r.breakers ds
  unfolding choose
  choose-Agrees [] g = refl
  choose-Agrees (d ∷ ds) g = rw (g.same_adapters, g.same_answers d.selected_psp, choose-Agrees ds g)

  abbrev pub first :
      Option (RoutingDecision × A) → Option (RoutingDecision × A) → Option (RoutingDecision × A)
  first (some x) y = some x
  first none y = y

  pub choose-append :
      (now : ℤ) (m : Dict A) (bs : Dict CircuitBreaker) (ds es : List RoutingDecision)
      → choose now m bs (ds ++ es) ≡ first (choose now m bs ds) (choose now m bs es)
  unfolding choose
  choose-append now m bs [] es = refl
  choose-append now m bs (d ∷ ds) es = ground (arith, choose-append now m bs ds es)

  -- A branch returns what the search over its candidates finds.
  pub record Finds (now : ℤ) (r : PaymentRouter A) (o : Outcome A) (ds : List RoutingDecision)
      : Type 0 where
    pub found : o.1 ≡ choose now r.adapters r.breakers ds
    pub agrees : Agrees now r o.0

  pub Finds-none : (now : ℤ) (r : PaymentRouter A) → Finds now r (r, none) []
  unfolding choose
  Finds-none now r = record { found = refl; agrees = Agrees-refl now r }

  try_available-router :
      (now : ℤ) (d : RoutingDecision) (r : PaymentRouter A)
      → (try_available now d r).0 ≡ (is_available now d.selected_psp r).0
  unfolding try_available
  try_available-router now d r = ground arith

  try_registered-router :
      (now : ℤ) (d : RoutingDecision) (r : PaymentRouter A)
      → ((try_registered now d r).0 ≡ r)
        ⊎ ((try_registered now d r).0 ≡ (is_available now d.selected_psp r).0)
  unfolding try_registered
  try_registered-router now d r = ground arith

  Agrees-subst : {now : ℤ} {r s t : PaymentRouter A} → t ≡ s → Agrees now r s → Agrees now r t
  Agrees-subst {now} {r} e g = subst (λ x. Agrees now r x) (sym e) g

  pub try_available-Finds :
      (now : ℤ) (d : RoutingDecision) (r : PaymentRouter A)
      → Finds now r (try_available now d r) (d ∷ [])
  unfolding try_available choose
  try_available-Finds now d r = record {
    found = ground (
      arith,
      is_available-answer now d.selected_psp r,
      (is_available-Agrees now d.selected_psp r).same_adapters,
    );
    agrees = Agrees-subst (try_available-router now d r) (is_available-Agrees now d.selected_psp r);
  }

  pub try_registered-Finds :
      (now : ℤ) (d : RoutingDecision) (r : PaymentRouter A)
      → Finds now r (try_registered now d r) (d ∷ [])
  unfolding try_registered choose
  try_registered-Finds now d r = record {
    found = ground (arith, is_available-answer now d.selected_psp r);
    agrees = elim (try_registered-router now d r) [
      | inl e ↦ Agrees-subst e (Agrees-refl now r)
      | inr e ↦ Agrees-subst e (is_available-Agrees now d.selected_psp r)
    ];
  }

  pub or_else-Finds :
      {now : ℤ} {r : PaymentRouter A} (o : Outcome A) (k : PaymentRouter A → Outcome A)
      (ds es : List RoutingDecision)
      → Finds now r o ds
      → ((r' : PaymentRouter A) → Agrees now r r' → Finds now r' (k r') es)
      → Finds now r (or_else o k) (ds ++ es)
  or_else-Finds {now} {r} (r', some d) k ds es f g = record {
    found = rw (choose-append, ← f.found);
    agrees = f.agrees;
  }
  or_else-Finds {now} {r} (r', none) k ds es f g =
      let h = g r' f.agrees in
      record {
        found = rw (choose-append, ← f.found) (h.found ∙ choose-Agrees es f.agrees);
        agrees = Agrees-trans f.agrees h.agrees;
      }
