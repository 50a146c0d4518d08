-- ===== src/Config.antt =====
-- internal/config/config.go: the configuration from the environment. `os.LookupEnv` is a function of
-- the name of a variable, and `strconv.ParseFloat` a parameter, with the type of the floats.
pub mod Slices
use Prim.Native.String.{◌++◌}
use Prim.Native.Char.{Char, code}
use resilient_settlement_orc.Base.{
  ℕ, suc, String, Bool, true, false, Option, none, some, List, [], ◌∷◌, if◌then◌else◌, str_eq, ◌==◌,
}
use resilient_settlement_orc.Base.Int.{ℤ, pos, negsuc}
use resilient_settlement_orc.Base.Decimal.{itoa, atoi}
use resilient_settlement_orc.Base.Text.{trim_space}

pub record ServerConfig : Type 0 where
  pub port : ℤ
  pub env : String

pub record DatabaseConfig : Type 0 where
  pub host : String
  pub port : ℤ
  pub user : String
  pub password : String
  pub db_name : String
  pub ssl_mode : String
  pub max_conns : ℤ
  pub min_conns : ℤ

pub record RedisConfig : Type 0 where
  pub host : String
  pub port : ℤ
  pub password : String
  pub db : ℤ

pub record LogConfig : Type 0 where
  pub level : String
  pub format : String

pub record AuthConfig : Type 0 where
  pub api_keys : List String

pub record PubSubConfig : Type 0 where
  pub project_id : String
  pub webhook_topic_id : String
  pub event_topic_id : String
  pub subscription_id : String
  pub dlq_topic_id : String
  pub dlq_sub_id : String
  pub max_retries : ℤ
  pub enabled : Bool

pub record TracingConfig (F : Type 0) : Type 0 where
  pub enabled : Bool
  pub endpoint : String
  pub sample_rate : F

pub record Config (F : Type 0) : Type 0 where
  pub server : ServerConfig
  pub database : DatabaseConfig
  pub redis : RedisConfig
  pub pubsub : PubSubConfig
  pub tracing : TracingConfig F
  pub log : LogConfig
  pub auth : AuthConfig

-- `%d`
abbrev decimal : ℤ → String
decimal (pos n) = itoa n
decimal (negsuc n) = "-" ++ itoa (suc n)

-- `DSN`
unfoldable pub dsn : DatabaseConfig → String
dsn d =
    "postgres://"
    ++ (d.user
        ++ (":"
            ++ (d.password
                ++ ("@"
                    ++ (d.host
                        ++ (":"
                            ++ (decimal d.port
                                ++ ("/" ++ (d.db_name ++ ("?sslmode=" ++ d.ssl_mode))))))))))

abbrev pub Lookup : Type 0
Lookup = String → Option String

abbrev pub value_or : {A : Type 0} → A → Option A → A
value_or default none = default
value_or default (some value) = value

-- `getEnv`
abbrev pub get_env : Lookup → String → String → String
get_env env key default = value_or default (env key)

-- The value of a variable as it is parsed, or a default where it is missing or no number.
abbrev parsed : {A : Type 0} → (String → Option A) → Option String → A → A
parsed parse none default = default
parsed parse (some value) default = value_or default (parse value)

-- `getEnvInt`
abbrev pub get_env_int : Lookup → String → ℤ → ℤ
get_env_int env key default = parsed atoi (env key) default

-- `getEnvFloat`
abbrev pub get_env_float : {F : Type 0} → (String → Option F) → Lookup → String → F → F
get_env_float parse_float env key default = parsed parse_float (env key) default

abbrev before_first : Char → List String → List String
before_first c [] = []
before_first c (s ∷ ss) = String.◌∷◌ c s ∷ ss

-- `strings.Split`, at one character
unfoldable pub split : ℕ → String → List String
split sep String.[] = "" ∷ []
split sep (String.◌∷◌ c s) =
    let rest = split sep s in if code c == sep then "" ∷ rest else before_first c rest

-- The loop of `getEnvSlice`
unfoldable pub trimmed_parts : List String → List String
trimmed_parts [] = []
trimmed_parts (k ∷ ks) =
    let rest = trimmed_parts ks in if str_eq (trim_space k) "" then rest else trim_space k ∷ rest

abbrev pub slice_of : Option String → List String
slice_of none = []
slice_of (some value) = if str_eq value "" then [] else trimmed_parts (split 44 value)

-- `getEnvSlice`
unfoldable pub get_env_slice : Lookup → String → List String
get_env_slice env key = slice_of (env key)

-- What `Load` does: it returns, or it panics with the names of what is missing.
pub data Loaded (F : Type 0) : Type 0 where
  loaded : Config F → Loaded F
  panicked : List String → Loaded F

abbrev is_empty : List String → Bool
is_empty [] = true
is_empty (k ∷ ks) = false

-- The critical secrets that are not set.
unfoldable pub missing_secrets : {F : Type 0} → Config F → List String
missing_secrets cfg =
    let keys = if is_empty cfg.auth.api_keys then "API_KEYS" ∷ [] else [] in
    if str_eq cfg.database.password "" then "DB_PASSWORD" ∷ keys else keys

abbrev pub unless_missing : {F : Type 0} → Config F → List String → Loaded F
unless_missing cfg [] = loaded cfg
unless_missing cfg (k ∷ ks) = panicked (k ∷ ks)

module _ {F : Type 0} (parse_float : String → Option F) (one : F) (env : Lookup) where
  unfoldable pub read : Config F
  read = record {
    server = record {
      port = get_env_int env "SERVER_PORT" (pos 8080);
      env = get_env env "SERVER_ENV" "development";
    };
    database = record {
      host = get_env env "DB_HOST" "localhost";
      port = get_env_int env "DB_PORT" (pos 5432);
      user = get_env env "DB_USER" "payment_user";
      password = get_env env "DB_PASSWORD" "";
      db_name = get_env env "DB_NAME" "payment_orchestrator";
      ssl_mode = get_env env "DB_SSL_MODE" "disable";
      max_conns = get_env_int env "DB_MAX_CONNS" (pos 25);
      min_conns = get_env_int env "DB_MIN_CONNS" (pos 5);
    };
    redis = record {
      host = get_env env "REDIS_HOST" "localhost";
      port = get_env_int env "REDIS_PORT" (pos 6379);
      password = get_env env "REDIS_PASSWORD" "";
      db = get_env_int env "REDIS_DB" (pos 0);
    };
    log = record {
      level = get_env env "LOG_LEVEL" "debug";
      format = get_env env "LOG_FORMAT" "json";
    };
    auth = record { api_keys = get_env_slice env "API_KEYS" };
    pubsub = record {
      project_id = get_env env "PUBSUB_PROJECT_ID" "local-dev";
      webhook_topic_id = get_env env "PUBSUB_WEBHOOK_TOPIC" "webhook-events";
      event_topic_id = get_env env "PUBSUB_EVENT_TOPIC" "payment-state-changes";
      subscription_id = get_env env "PUBSUB_SUBSCRIPTION" "webhook-processor";
      dlq_topic_id = get_env env "PUBSUB_DLQ_TOPIC" "webhook-events-dlq";
      dlq_sub_id = get_env env "PUBSUB_DLQ_SUBSCRIPTION" "webhook-dlq-reader";
      max_retries = get_env_int env "PUBSUB_MAX_RETRIES" (pos 5);
      enabled = str_eq (get_env env "PUBSUB_ENABLED" "false") "true";
    };
    tracing = record {
      enabled = str_eq (get_env env "TRACING_ENABLED" "false") "true";
      endpoint = get_env env "TRACING_ENDPOINT" "http://localhost:4318";
      sample_rate = get_env_float parse_float env "TRACING_SAMPLE_RATE" one;
    };
  }

  -- `Load`
  unfoldable pub load : Loaded F
  load =
      if str_eq read.server.env "production"
      then unless_missing read (missing_secrets read)
      else loaded read
