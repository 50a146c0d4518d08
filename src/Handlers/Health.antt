-- ===== src/Handlers/Health.antt =====
-- internal/handler/health.go: the probes. Whether the database and Redis are set up, and answer a
-- ping, is an argument.
use resilient_settlement_orc.Base.{
  String, Bool, true, false, ◌&&◌, Option, none, some, if◌then◌else◌,
}
use resilient_settlement_orc.Handlers.{HttpResponse, json}

-- `Health`
abbrev pub health : HttpResponse String
health = json 200 "healthy"

abbrev check : Option Bool → String
check none = "not_configured"
check (some true) = "up"
check (some false) = "down"

pub record Readiness : Type 0 where
  pub status : String
  pub database : String
  pub redis : String

abbrev pub database_healthy : Option Bool → Bool
database_healthy none = false
database_healthy (some answers) = answers

-- A server without Redis is healthy.
abbrev pub redis_healthy : Option Bool → Bool
redis_healthy none = true
redis_healthy (some answers) = answers

-- `Ready`
unfoldable pub ready : Option Bool → Option Bool → HttpResponse Readiness
ready database redis =
    let checks : String → Readiness =
      λ status. record { status = status; database = check database; redis = check redis } in
    if database_healthy database && redis_healthy redis
    then json 200 (checks "ready")
    else json 503 (checks "not_ready")
