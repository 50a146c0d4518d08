-- ===== src/Startup.antt =====
-- cmd/server/main.go: what the server is started with. Whether the migrations, the database and
-- Pub/Sub can be reached is an argument.
pub mod Keys
pub mod Production
use resilient_settlement_orc.Base.{
  String, Bool, true, false, not, ◌&&◌, Option, none, some, List, [], ◌∷◌, if◌then◌else◌, str_eq,
}
use resilient_settlement_orc.Base.Int.{pos}
use resilient_settlement_orc.Router.{
  PaymentRouter, RoutingRule, new_payment_router, register_adapter, load_rules,
}
use resilient_settlement_orc.Store.Action.{PspAdapter}
use resilient_settlement_orc.Middleware.Auth.{MerchantKey, parse_merchant_keys}
use resilient_settlement_orc.Config.{Config, Lookup, Loaded, loaded, panicked, load}

pub record Connections : Type 0 where
  pub migrations : Bool
  pub database : Bool
  pub pubsub : Bool

-- The ways in which `main` ends before it serves.
pub data Exit : Type 0 where
  panic : List String → Exit
  no_migrations no_database no_pubsub no_api_keys : Exit

-- What the handlers of a server that runs have. `pubsub` is whether there is a client.
pub record Server (F : Type 0) : Type 0 where
  pub config : Config F
  pub router : PaymentRouter PspAdapter
  pub pubsub : Bool
  pub merchant_keys : List MerchantKey

pub data Started (F : Type 0) : Type 0 where
  exited : Exit → Started F
  serving : Server F → Started F

abbrev is_production : String → Bool
is_production env = str_eq env "production"

-- The rule `default_mock_rule`
abbrev default_mock_rule : RoutingRule
default_mock_rule = record {
  name = "default_mock_rule";
  conditions = record {
    min_amount = none;
    max_amount = none;
    currency = "";
    country = "";
    country_ne = "";
  };
  primary_psp = "mock";
  fallback_psp = "";
  priority = pos 100;
}

-- The providers: only the mock is ever registered, and not in production.
unfoldable pub first_router : PspAdapter → String → PaymentRouter PspAdapter
first_router mock env =
    if not (is_production env)
    then load_rules (default_mock_rule ∷ []) (register_adapter "mock" mock new_payment_router)
    else new_payment_router

abbrev is_empty : List MerchantKey → Bool
is_empty [] = true
is_empty (k ∷ ks) = false

module _ {F : Type 0} (mock : PspAdapter) (reached : Connections) where
  abbrev pub server : Config F → Server F
  server cfg = record {
    config = cfg;
    router = first_router mock cfg.server.env;
    pubsub = cfg.pubsub.enabled;
    merchant_keys = parse_merchant_keys cfg.auth.api_keys;
  }

  unfoldable pub serve_with : Loaded F → Started F
  serve_with (panicked missing) = exited (panic missing)
  serve_with (loaded cfg) =
      if not reached.migrations
      then exited no_migrations
      else if not reached.database
      then exited no_database
      else if cfg.pubsub.enabled && not reached.pubsub
      then exited no_pubsub
      else if is_empty (parse_merchant_keys cfg.auth.api_keys) && is_production cfg.server.env
      then exited no_api_keys
      else serving (server cfg)

  -- `main`, up to its serving
  unfoldable pub start : (String → Option F) → F → Lookup → Started F
  start parse_float one env = serve_with (load parse_float one env)
