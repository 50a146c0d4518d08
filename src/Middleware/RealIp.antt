-- ===== src/Middleware/RealIp.antt =====
-- internal/middleware/realip.go: which address a request counts for. The parsers of package net, for
-- addresses, networks and `host:port`, and whether a network has an address, are parameters.
pub mod Forwarded
use resilient_settlement_orc.Base.{
  String, Bool, true, false, not, ◌||◌, ◌&&◌, Option, none, some, List, [], ◌∷◌, is_some,
  if◌then◌else◌, str_eq,
}
use resilient_settlement_orc.Base.Text.{cut, trim_space}

pub record Net (Ip Network : Type 0) : Type 0 where
  pub parse_ip : String → Option Ip
  pub parse_cidr : String → Option Network
  pub split_host_port : String → Option String
  pub has_ip : Network → Ip → Bool

abbrev pub default_trusted_proxies : List String
default_trusted_proxies =
    "10.0.0.0/8" ∷ "172.16.0.0/12" ∷ "192.168.0.0/16" ∷ "127.0.0.0/8" ∷ "::1/128" ∷ "35.191.0.0/16"
    ∷ "130.211.0.0/22" ∷ []

module _ {Ip Network : Type 0} (net : Net Ip Network) where
  abbrev add_net : Option Network → List Network → List Network
  add_net none ns = ns
  add_net (some n) ns = n ∷ ns

  unfoldable pub trusted_nets : List String → List Network
  trusted_nets [] = []
  trusted_nets (cidr ∷ cidrs) = add_net (net.parse_cidr cidr) (trusted_nets cidrs)

  abbrev any_has : Ip → List Network → Bool
  any_has ip [] = false
  any_has ip (n ∷ ns) = net.has_ip n ip || any_has ip ns

  abbrev trusts : List Network → Option Ip → Bool
  trusts ns none = false
  trusts ns (some ip) = any_has ip ns

  -- `isTrustedProxy`
  unfoldable pub is_trusted_proxy : String → List Network → Bool
  is_trusted_proxy ip ns = trusts ns (net.parse_ip ip)

  abbrev host_or_ip : String → Option String → String
  host_or_ip addr (some host) = host
  host_or_ip addr none = if is_some (net.parse_ip addr) then addr else ""

  -- `extractIP`
  unfoldable pub extract_ip : String → String
  extract_ip addr = host_or_ip addr (net.split_host_port addr)

  abbrev before_comma : String → Option (String × String) → String
  before_comma xff none = xff
  before_comma xff (some (front, back)) = front

  -- The leftmost entry of the header.
  abbrev pub leftmost : String → String
  leftmost xff = trim_space (before_comma xff (cut 44 xff))

  abbrev forwarded : String → String → String → String
  forwarded addr xff xri =
      if not (str_eq xff "")
      then (if not (str_eq (leftmost xff) "") && is_some (net.parse_ip (leftmost xff))
          then leftmost xff
          else addr)
      else if not (str_eq xri "") && is_some (net.parse_ip xri)
      then xri
      else addr

  -- `RealIPFromTrustedProxy`: the new `RemoteAddr`, from the old one and the headers
  -- `X-Forwarded-For` and `X-Real-IP`.
  unfoldable pub real_ip : String → String → String → String
  real_ip addr xff xri =
      if str_eq (extract_ip addr) ""
      then addr
      else if not (is_trusted_proxy (extract_ip addr) (trusted_nets default_trusted_proxies))
      then addr
      else forwarded addr xff xri
