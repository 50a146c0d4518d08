-- ===== src/Middleware/Headers.antt =====
-- The middleware of internal/middleware that sets headers: cors.go and security.go. The headers of an
-- answer are a map; a handler that comes next is an argument.
use Prim.Native.String.{◌++◌}
use resilient_settlement_orc.Base.{ℕ, suc, String, List, [], ◌∷◌, if◌then◌else◌, str_eq}
use resilient_settlement_orc.Base.Dict.{Dict, insert}
use resilient_settlement_orc.Base.Int.{ℤ, pos, negsuc}
use resilient_settlement_orc.Base.Decimal.{itoa}

abbrev pub Headers : Type 0
Headers = Dict String

-- `strings.Join(xs, ", ")`
abbrev join_comma : List String → String
join_comma [] = ""
join_comma (x ∷ []) = x
join_comma (x ∷ y ∷ xs) = x ++ (", " ++ join_comma (y ∷ xs))

-- `CORSConfig`
pub record CorsConfig : Type 0 where
  pub allowed_origins : List String
  pub allowed_methods : List String
  pub allowed_headers : List String
  pub max_age : ℤ

-- `DefaultCORSConfig`
abbrev pub default_cors_config : CorsConfig
default_cors_config = record {
  allowed_origins = [];
  allowed_methods = "GET" ∷ "POST" ∷ "PUT" ∷ "DELETE" ∷ "OPTIONS" ∷ [];
  allowed_headers = "Authorization" ∷ "Content-Type" ∷ "X-Idempotency-Key" ∷ "X-Request-ID" ∷ [];
  max_age = pos 3600;
}

abbrev decimal : ℤ → String
decimal (pos n) = itoa n
decimal (negsuc n) = "-" ++ itoa (suc n)

abbrev with_origins : String → Headers → Headers
with_origins origins h =
    if str_eq origins "" then h else insert "Access-Control-Allow-Origin" origins h

unfoldable pub cors_headers : CorsConfig → Headers → Headers
cors_headers cfg h = insert "Access-Control-Max-Age" (decimal cfg.max_age) (
    insert "Access-Control-Allow-Headers" (join_comma cfg.allowed_headers) (
      insert "Access-Control-Allow-Methods" (join_comma cfg.allowed_methods)
        (with_origins (join_comma cfg.allowed_origins) h)))

-- `CORS`: the status 204 for a preflight, or what the next handler makes of the headers.
unfoldable pub cors :
    {A : Type 0} → CorsConfig → (ℕ → Headers → A) → (Headers → A) → String → Headers → A
cors cfg write_header next method h =
    if str_eq method "OPTIONS"
    then write_header 204 (cors_headers cfg h)
    else next (cors_headers cfg h)

-- `SecurityHeaders`
unfoldable pub security_headers : {A : Type 0} → (Headers → A) → Headers → A
security_headers next h = next (
    insert "Pragma" "no-cache" (
      insert "Cache-Control" "no-store, no-cache, must-revalidate" (
        insert "Permissions-Policy" "camera=(), microphone=(), geolocation=(), payment=()" (
          insert "Referrer-Policy" "strict-origin-when-cross-origin" (
            insert "Content-Security-Policy"
              "default-src 'self'; script-src 'self'; style-src 'self' 'unsafe-inline'; img-src 'self' data:; font-src 'self'"
              (insert "X-Frame-Options" "DENY" (
                insert "X-Content-Type-Options" "nosniff" (
                  insert "Strict-Transport-Security" "max-age=31536000; includeSubDomains" h))))))))
