-- ===== src/Tests/Network.antt =====
-- The theorems on addresses behind proxies and on messages that come again at concrete inputs.
use resilient_settlement_orc.Base.{
  String, true, false, ◌≡◌, ◌≢◌, refl, some, none, if◌then◌else◌, str_eq, eq_iff, arith,
}
use resilient_settlement_orc.Base.Int.{◌-ℤ◌}
use resilient_settlement_orc.Base.Text.{contains, trim_space, trim_left, trim_right}
use resilient_settlement_orc.CircuitBreaker.{since}
use resilient_settlement_orc.Router
use resilient_settlement_orc.Store.Action.{World}
use resilient_settlement_orc.Ledger.Balance.{DistinctIds}
use resilient_settlement_orc.Webhook.{is_fresh, event_time}
use resilient_settlement_orc.Webhook.Json.{get_field}
use resilient_settlement_orc.Middleware.RealIp.{
  Net, default_trusted_proxies, extract_ip, is_trusted_proxy, trusted_nets, real_ip,
}
use resilient_settlement_orc.Middleware.RealIp.Forwarded.{real_ip-claimed}
use resilient_settlement_orc.Subscriber.{WebhookMessage, ack, receive}
use resilient_settlement_orc.Subscriber.Redelivery.{IsAccepted, receive-again}
use resilient_settlement_orc.Tests.Shop.{webhook-is_accepted, shop, mock, outside}

ne-str_eq : (s t : String) → str_eq s t ≡ false → s ≢ t
ne-str_eq s t h e = ground (arith, h, e, eq_iff s t)

-- Package net where the only address is 1.2.3.4, the only peer is the proxy 10.0.0.1, and every
-- network has every address.
abbrev one_net : Net String String
one_net = record {
  parse_ip =
      λ s. if str_eq s "1.2.3.4" then some s else if str_eq s "10.0.0.1" then some s else none;
  parse_cidr = λ s. some s;
  split_host_port = λ s. none;
  has_ip = λ n ip. true;
}

proxy_peer : extract_ip one_net "10.0.0.1" ≡ "10.0.0.1"
unfolding extract_ip
proxy_peer = refl

proxy_trusted :
    is_trusted_proxy one_net
      (extract_ip one_net "10.0.0.1")
      (trusted_nets one_net default_trusted_proxies)
    ≡ true
unfolding extract_ip is_trusted_proxy trusted_nets
proxy_trusted = refl

no_comma : contains 44 "1.2.3.4" ≡ false
unfolding contains
no_comma = refl

no_space : trim_space "1.2.3.4" ≡ "1.2.3.4"
unfolding trim_space trim_left trim_right
no_space = refl

real_ip-claimed_example : real_ip one_net "10.0.0.1" "1.2.3.4, 5.6.7.8" "" ≡ "1.2.3.4"
real_ip-claimed_example =
    real_ip-claimed one_net "10.0.0.1" "1.2.3.4" " 5.6.7.8" "" proxy_trusted
      (rw proxy_peer (ne-str_eq "10.0.0.1" "" refl)) no_comma no_space (ne-str_eq "1.2.3.4" "" refl)
      refl

abbrev message : WebhookMessage
message = record {
  psp = "mock";
  event_type = "payment.captured";
  payload = "{...}";
  signature = "s";
}

distinct : DistinctIds shop.tables.accounts
distinct = (refl, (refl, (refl, (refl, tt))))

shop-IsAccepted : IsAccepted outside message mock shop
unfolding Router.get_adapter is_fresh event_time get_field ◌-ℤ◌ since
shop-IsAccepted = record { registered = refl; verified = refl; fresh = refl }

-- What the first delivery has left.
abbrev notified : World
notified = record shop { tables = (receive (λ s. some message) outside "{}" shop).1.tables }

notified-IsAccepted : IsAccepted outside message mock notified
unfolding Router.get_adapter is_fresh event_time get_field ◌-ℤ◌ since
notified-IsAccepted = record { registered = refl; verified = refl; fresh = refl }

receive-again_example :
    receive (λ s. some message) outside "{}" notified ≡ (ack, record notified { tick = 1 })
receive-again_example =
    receive-again (λ s. some message) outside "{}" message mock mock shop notified refl
      shop-IsAccepted notified-IsAccepted distinct (λ n. refl) webhook-is_accepted refl refl
