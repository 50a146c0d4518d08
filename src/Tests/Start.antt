-- ===== src/Tests/Start.antt =====
-- The theorems on the start of the server, on queued webhooks and on signatures at concrete inputs.

use resilient_settlement_orc.Base.{
  String, Bool, true, false, ◌≡◌, ◌≢◌, ◌⊎◌, refl, some, none, Option, List, [], ◌∷◌, All, str_eq,
  eq_iff, if◌then◌else◌, arith,
}
use resilient_settlement_orc.Base.Text.{contains, trim_space, trim_left, trim_right}
use resilient_settlement_orc.Base.Hex.{encode_to_string, IsByte}
use resilient_settlement_orc.Middleware.Auth.{MerchantKey, parse_merchant_key, parse_merchant_keys}
use resilient_settlement_orc.Config.{
  Lookup, load, read, missing_secrets, get_env_slice, split, trimmed_parts,
}
use resilient_settlement_orc.Startup.{Connections, Server, serving, start, serve_with, server}
use resilient_settlement_orc.Startup.Keys.{IsPrintable, start-keys}
use resilient_settlement_orc.Startup.Production.{start-secrets, create_payment-unavailable}
use resilient_settlement_orc.Store.Action.{World, err, unavailable, unknown_psp}
use resilient_settlement_orc.PaymentService.Creation.{create_payment}
use resilient_settlement_orc.Webhook.Reception.{ingest_webhook}
use resilient_settlement_orc.Adapters.{Mac, verify_with}
use resilient_settlement_orc.Adapters.Signatures.{verify_with-binds}
use resilient_settlement_orc.Handlers.{status}
use resilient_settlement_orc.Handlers.Webhooks.{queued, handle_webhook}
use resilient_settlement_orc.Subscriber.{publish_webhook, receive}
use resilient_settlement_orc.Subscriber.Queueing.{SameOutcome, message, handle_webhook-queued}
use resilient_settlement_orc.Tests.Shop.{shop, mock, order, outside}

ne-str_eq : (s t : String) → str_eq s t ≡ false → s ≢ t
ne-str_eq s t h e = ground (arith, h, e, eq_iff s t)

-- An environment for production, with one merchant's key. Floats are left out.
abbrev environment : Lookup
environment s =
    if str_eq s "SERVER_ENV"
    then some "production"
    else if str_eq s "DB_PASSWORD"
    then some "secret"
    else if str_eq s "API_KEYS"
    then some "shop:sk"
    else none

abbrev no_float : String → Option (Unit {0})
no_float s = none

abbrev reached : Connections
reached = record { migrations = true; database = true; pubsub = true }

abbrev keys : List MerchantKey
keys = record { merchant_id = "shop"; api_key = "sk" } ∷ []

abbrev running : Server (Unit {0})
running = server mock reached (read no_float tt environment)

running-serving : start mock reached no_float tt environment ≡ serving running
unfolding start serve_with load read missing_secrets get_env_slice split trimmed_parts trim_space
    trim_left trim_right parse_merchant_keys parse_merchant_key
running-serving = refl

shop_colon : contains 58 "shop" ≡ false
unfolding contains
shop_colon = refl

entry_comma : contains 44 "shop:sk" ≡ false
unfolding contains
entry_comma = refl

entry_space : trim_space "shop:sk" ≡ "shop:sk"
unfolding trim_space trim_left trim_right
entry_space = refl

keys-IsPrintable : All IsPrintable keys
keys-IsPrintable = (
  (ne-str_eq "shop" "" refl, shop_colon, (ne-str_eq "shop:sk" "" refl, entry_comma, entry_space)),
  tt,
)

start-keys_example : running.merchant_keys ≡ keys
start-keys_example =
    start-keys mock reached no_float tt environment keys running keys-IsPrintable refl
      running-serving

in_production : running.config.server.env ≡ "production"
unfolding read
in_production = refl

start-secrets_example : (running.config.database.password ≢ "") × (running.merchant_keys ≢ [])
start-secrets_example =
    start-secrets mock reached no_float tt environment running running-serving in_production

abbrev deployed : World
deployed = record shop { router = running.router }

create_payment-unavailable_example :
    ((create_payment (λ w. w) order deployed).0 ≡ err unavailable)
    × ((create_payment (λ w. w) order deployed).1.tables ≡ shop.tables)
    × ((create_payment (λ w. w) order deployed).1.psp_calls ≡ [])
    × (ingest_webhook outside "mock" "payment.captured" "{}" "s" deployed
        ≡ (err unknown_psp, deployed))
create_payment-unavailable_example =
    create_payment-unavailable mock reached no_float tt environment running (λ w. w) order outside
      "mock" "payment.captured" "{}" "s" deployed running-serving in_production refl

abbrev unsent : String → World → Bool × World
unsent text w = (true, w)

handle_webhook-queued_example :
    let header : String → String = λ name. "s" in
    (let x =
        handle_webhook outside
          (some (publish_webhook (λ m. "{}") unsent))
          "mock"
          header
          (some "{...}")
          shop in
      (x ≡ handle_webhook outside none "mock" header (some "{...}") shop)
      × (x.1 ≡ shop)
      × (status x.0 ≡ 400))
    ⊎ ((text : String) × (handle_webhook outside
            (some (publish_webhook (λ m. "{}") unsent))
            "mock"
            header
            (some "{...}")
            shop
          ≡ queued (unsent text shop))
        × SameOutcome
            (receive (λ s. some (message outside "mock" "{...}" header)) outside text shop)
            (handle_webhook outside none "mock" header (some "{...}") shop))
handle_webhook-queued_example =
    handle_webhook-queued (λ m. "{}") (λ s. some (message outside "mock" "{...}" (λ name. "s")))
      unsent outside "mock" "{...}" (λ name. "s") refl shop shop

-- A MAC of one byte: the length of the text, or 2 for a longer one.
abbrev short_mac : Mac
short_mac secret String.[] = 0 ∷ []
short_mac secret (String.◌∷◌ c String.[]) = 1 ∷ []
short_mac secret (String.◌∷◌ c (String.◌∷◌ d s)) = 2 ∷ []

short_mac-bytes : (s text : String) → All IsByte (short_mac s text)
short_mac-bytes s String.[] = (omega arith, tt)
short_mac-bytes s (String.◌∷◌ c String.[]) = (omega arith, tt)
short_mac-bytes s (String.◌∷◌ c (String.◌∷◌ d t)) = (omega arith, tt)

verified :
    (text : String)
    → encode_to_string (short_mac "k" text) ≡ "02"
    → verify_with short_mac "k" "bad" text "02" ≡ none
unfolding verify_with
verified text e = ground (arith, eq_iff (encode_to_string (short_mac "k" text)) "02", e)

two_chars : encode_to_string (2 ∷ []) ≡ "02"
unfolding encode_to_string
two_chars = refl

verify_with-binds_example : short_mac "k" "ab" ≡ short_mac "k" "cde"
verify_with-binds_example =
    verify_with-binds short_mac "k" "bad" "ab" "cde" "02" short_mac-bytes (verified "ab" two_chars)
      (verified "cde" two_chars)
