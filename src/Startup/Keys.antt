-- ===== src/Startup/Keys.antt =====
-- The API keys, from the environment (internal/config/config.go) to the middleware
-- (internal/middleware/auth.go) of the server that cmd/server/main.go starts.
use Prim.Native.String.{◌++◌}
use resilient_settlement_orc.Base.{
  String, false, ◌≡◌, ◌≢◌, ap, ◌∙◌, Option, some, List, [], ◌∷◌, All, map, arith, refl, Bool-cases,
  str_eq, eq_iff, inl, inr,
}
use resilient_settlement_orc.Base.Text.{contains}
use resilient_settlement_orc.Store.Action.{PspAdapter}
use resilient_settlement_orc.Middleware.Auth.{MerchantKey, parse_merchant_keys}
use resilient_settlement_orc.Middleware.Auth.Keys.{parse_merchant_keys-joined}
use resilient_settlement_orc.Config.{
  Config, Lookup, load, read, unless_missing, missing_secrets, Loaded, loaded, panicked,
}
use resilient_settlement_orc.Config.Slices.{joined, IsEntry, get_env_slice-joined}
use resilient_settlement_orc.Startup.{Connections, Server, serving, start, serve_with, server}

-- "merchant:key"
abbrev pub printed : MerchantKey → String
printed k = k.merchant_id ++ (":" ++ k.api_key)

-- The merchant is named without a colon, and the two together are an entry of a list.
abbrev pub IsPrintable : MerchantKey → Type 0
IsPrintable k = (k.merchant_id ≢ "") × (contains 58 k.merchant_id ≡ false) × IsEntry (printed k)

entries : (ks : List MerchantKey) → All IsPrintable ks → All IsEntry (map printed ks)
entries [] h = tt
entries (k ∷ ks) h = (h.0.2, entries ks h.1)

parse-printed :
    (ks : List MerchantKey) → All IsPrintable ks → parse_merchant_keys (map printed ks) ≡ ks
unfolding parse_merchant_keys
parse-printed [] h = refl
parse-printed (k ∷ ks) ((named, plain, (full, whole, trimmed)), rest) =
    parse_merchant_keys-joined k.merchant_id k.api_key (map printed ks) named plain trimmed
    ∙ ap (λ l. k ∷ l) (parse-printed ks rest)

-- Where a server runs, its parts are those of the configuration.
pub serve_with-serving :
    {F : Type 0} (mock : PspAdapter) (reached : Connections) (l : Loaded F) (s : Server F)
    → serve_with mock reached l ≡ serving s
    → (cfg : Config F) × (l ≡ loaded cfg) × (s ≡ server mock reached cfg)
unfolding serve_with
serve_with-serving mock reached (panicked missing) s h = cc
serve_with-serving mock reached (loaded cfg) s h = (cfg, refl, ground arith)

unless_missing-loaded :
    {F : Type 0} (cfg got : Config F) (missing : List String)
    → unless_missing cfg missing ≡ loaded got
    → (got ≡ cfg) × (missing ≡ [])
unless_missing-loaded cfg got [] h = (cc, refl)
unless_missing-loaded cfg got (k ∷ ks) h = cc

-- A configuration that is loaded is as it was read, and in production no secret is missing.
pub load-loaded :
    {F : Type 0} (parse_float : String → Option F) (one : F) (env : Lookup) (cfg : Config F)
    → load parse_float one env ≡ loaded cfg
    → (cfg ≡ read parse_float one env)
      × ((cfg.server.env ≡ "production") → missing_secrets cfg ≡ [])
unfolding load
load-loaded parse_float one env cfg h =
    elim (Bool-cases (str_eq (read parse_float one env).server.env "production")) [
      | inl prod ↦
          let (same, none_missing) =
            unless_missing-loaded (read parse_float one env) cfg _ (rw prod at h) in
          (same, λ e. ap missing_secrets same ∙ none_missing)
      | inr other ↦
          let same : cfg ≡ read parse_float one env = cc (rw other at h) in
          (
            same,
            λ e. absurd (
                ground (
                  arith,
                  other,
                  eq_iff (read parse_float one env).server.env "production",
                  ap (λ (c : Config _). c.server.env) same,
                  e,
                )),
          )
    ]

-- The variable API_KEYS holds entries "merchant:key", with a comma after each but the last. No
-- merchant is empty or has a colon, and no entry has a comma, or space around it. Then a server that
-- runs has exactly these keys.
pub start-keys :
    {F : Type 0} (mock : PspAdapter) (reached : Connections) (parse_float : String → Option F)
    (one : F) (env : Lookup) (ks : List MerchantKey) (s : Server F)
    → All IsPrintable ks
    → env "API_KEYS" ≡ some (joined (map printed ks))
    → start mock reached parse_float one env ≡ serving s
    → s.merchant_keys ≡ ks
unfolding start read
start-keys mock reached parse_float one env ks s ok set h =
    let (cfg, l, same) = serve_with-serving mock reached (load parse_float one env) s h in
    let got = (load-loaded parse_float one env cfg l).0 in
    ap (λ (x : Server _). x.merchant_keys) same
    ∙ ap (λ (c : Config _). parse_merchant_keys c.auth.api_keys) got
    ∙ ap parse_merchant_keys
        (get_env_slice-joined env "API_KEYS" (map printed ks) (entries ks ok) set)
    ∙ parse-printed ks ok
