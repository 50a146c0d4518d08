-- ===== src/Startup/Production.antt =====
-- The server that cmd/server/main.go starts in production.
use resilient_settlement_orc.Base.{
  ◌+◌, String, ◌≡◌, ◌≢◌, ap, sym, ◌∙◌, Option, none, List, [], arith, refl, eq_iff, inl,
}
use resilient_settlement_orc.Base.Int.{ℤ}
use resilient_settlement_orc.Router
use resilient_settlement_orc.Router.{
  PaymentRouter, RouteRequest, RoutingDecision, new_payment_router,
}
use resilient_settlement_orc.Router.Choice.{route-none_iff}
use resilient_settlement_orc.Store.Action.{
  PspAdapter, World, Action, Error, Result, continue, or_raise, ok, err, unavailable, unknown_psp,
}
use resilient_settlement_orc.PaymentService.Creation.{
  CreatePaymentRequest, create_payment, select_psp, route_request,
}
use resilient_settlement_orc.Webhook.{Outside}
use resilient_settlement_orc.Webhook.Reception.{ingest_webhook, ingest_webhook_internal}
use resilient_settlement_orc.Middleware.Auth.{parse_merchant_keys}
use resilient_settlement_orc.Config.{Config, Lookup, loaded, load, missing_secrets}
use resilient_settlement_orc.Startup.{Connections, Server, serving, start, serve_with, first_router}
use resilient_settlement_orc.Startup.Keys.{serve_with-serving, load-loaded}

missing_secrets-none :
    {F : Type 0} (cfg : Config F) → missing_secrets cfg ≡ [] → cfg.database.password ≢ ""
unfolding missing_secrets
missing_secrets-none cfg h e = ground (arith, eq_iff cfg.database.password "", h, e)

serve_with-keys :
    {F : Type 0} (mock : PspAdapter) (reached : Connections) (cfg : Config F) (s : Server F)
    → serve_with mock reached (loaded cfg) ≡ serving s
    → cfg.server.env ≡ "production"
    → parse_merchant_keys cfg.auth.api_keys ≢ []
unfolding serve_with
serve_with-keys mock reached cfg s h e none_there =
    ground (arith, eq_iff cfg.server.env "production", e, none_there, h)

module _ {F : Type 0} (mock : PspAdapter) (reached : Connections) (parse_float : String → Option F)
    (one : F) (env : Lookup) (s : Server F) (h : start mock reached parse_float one env ≡ serving s)
    (prod : s.config.server.env ≡ "production") where
  -- A server that runs in production has a database password and an API key.
  pub start-secrets : (s.config.database.password ≢ "") × (s.merchant_keys ≢ [])
  unfolding start
  start-secrets =
      let (cfg, l, same) = serve_with-serving mock reached (load parse_float one env) s h in
      let same_config : s.config ≡ cfg = ap (λ (x : Server _). x.config) same in
      let env_is : cfg.server.env ≡ "production" =
        ap (λ (c : Config _). c.server.env) (sym same_config) ∙ prod in
      (
        λ e.
            missing_secrets-none cfg ((load-loaded parse_float one env cfg l).1 env_is)
              (ap (λ (c : Config _). c.database.password) (sym same_config) ∙ e),
        λ e.
            serve_with-keys mock reached cfg s (ap (serve_with mock reached) (sym l) ∙ h) env_is
              (ap (λ (x : Server _). x.merchant_keys) (sym same) ∙ e),
      )

  first_router-production : s.router ≡ new_payment_router
  unfolding first_router start
  first_router-production =
      let (cfg, l, same) = serve_with-serving mock reached (load parse_float one env) s h in
      let env_is : cfg.server.env ≡ "production" =
        ap (λ (x : Server _). x.config.server.env) (sym same) ∙ prod in
      ap (λ (x : Server _). x.router) same ∙ rw env_is refl

no_provider :
    (psp : String) (r : PaymentRouter PspAdapter)
    → r ≡ new_payment_router
    → Router.get_adapter psp r ≡ none
unfolding Router.get_adapter new_payment_router
no_provider psp r e = rw e refl

no_route :
    (now : ℤ) (order : List String) (req : RouteRequest) (r : PaymentRouter PspAdapter)
    → r ≡ new_payment_router
    → (Router.route now order req r).1 ≡ none
unfolding new_payment_router
no_route now order req r e =
    rw e ((route-none_iff now order req new_payment_router (λ psp. inl refl)).1 (λ psp. inl refl))

raised-none :
    (w : World) (o : Option (RoutingDecision × PspAdapter))
    → o ≡ none
    → or_raise o unavailable w ≡ (err unavailable, w)
raised-none w o e = rw e refl

select_psp-none :
    (req : CreatePaymentRequest) (w : World)
    → w.router ≡ new_payment_router
    → ((select_psp req w).0 ≡ err unavailable)
      × ((select_psp req w).1.tables ≡ w.tables)
      × ((select_psp req w).1.psp_calls ≡ w.psp_calls)
unfolding select_psp
select_psp-none req w e =
    let n =
      no_route (w.env.clock w.tick) (w.env.visit_order w.tick) (route_request req) w.router e in
    let stopped =
      raised-none
        (record w {
          router =
              (Router.route (w.env.clock w.tick) (w.env.visit_order w.tick) (route_request req)
                w.router).0;
          tick = w.tick + 1;
        })
        _ n in
    (
      ap (λ (x : Result _ × World). x.0) stopped,
      ap (λ (x : Result _ × World). x.1.tables) stopped,
      ap (λ (x : Result _ × World). x.1.psp_calls) stopped,
    )

stops :
    {A B : Type 0} (x : Result A × World) (f : A → Action B) (e : Error)
    → x.0 ≡ err e
    → continue x f ≡ (err e, x.1)
stops (ok a, w) f e h = cc
stops (err d, w) f e h = cc

-- A server that runs in production has no provider, since only the mock is ever registered, and only
-- elsewhere. With its router every creation of a payment fails as unavailable, writes nothing and
-- calls no provider, and every webhook is refused without any effect.
pub create_payment-unavailable :
    {F : Type 0} (mock : PspAdapter) (reached : Connections) (parse_float : String → Option F)
    (one : F) (env : Lookup) (s : Server F) (others : World → World) (req : CreatePaymentRequest)
    (outside : Outside) (psp event_type payload signature : String) (w : World)
    → start mock reached parse_float one env ≡ serving s
    → s.config.server.env ≡ "production"
    → w.router ≡ s.router
    → ((create_payment others req w).0 ≡ err unavailable)
      × ((create_payment others req w).1.tables ≡ w.tables)
      × ((create_payment others req w).1.psp_calls ≡ w.psp_calls)
      × (ingest_webhook outside psp event_type payload signature w ≡ (err unknown_psp, w))
unfolding create_payment ingest_webhook ingest_webhook_internal
create_payment-unavailable mock reached parse_float one env s others req outside psp event_type
      payload signature w h prod same =
    let none_there : w.router ≡ new_payment_router =
      same ∙ first_router-production mock reached parse_float one env s h prod in
    let u = record w { tick = w.tick + 1 } in
    let chosen = select_psp-none req u none_there in
    let stopped = stops (select_psp req u) _ unavailable chosen.0 in
    (
      ap (λ (x : Result _ × World). x.0) stopped,
      ap (λ (x : Result _ × World). x.1.tables) stopped ∙ chosen.1,
      ap (λ (x : Result _ × World). x.1.psp_calls) stopped ∙ chosen.2,
      rw (no_provider psp w.router none_there) refl,
    )
