-- ===== src/Middleware/RealIp/Forwarded.antt =====
-- What a client behind a proxy can make of its address in internal/middleware/realip.go.
use Prim.Native.String.{◌++◌}
use resilient_settlement_orc.Base.{
  String, true, false, ◌≡◌, ◌≢◌, refl, some, arith, eq_iff, is_some,
}
use resilient_settlement_orc.Base.Text.{cut, contains, cut-append_text, cut-nonempty, trim_space}
use resilient_settlement_orc.Middleware.RealIp.{
  Net, default_trusted_proxies, is_trusted_proxy, extract_ip, trusted_nets, real_ip, leftmost,
}

module _ {Ip Network : Type 0} (net : Net Ip Network) where
  leftmost-cut :
      (xff claimed rest : String)
      → cut 44 xff ≡ some (claimed, rest)
      → trim_space claimed ≡ claimed
      → leftmost net xff ≡ claimed
  leftmost-cut xff claimed rest c trimmed = rw c trimmed

  -- The peer is a trusted proxy, which adds the address it sees to the `X-Forwarded-For` that the
  -- client has sent. Whatever address the client has written there, the request counts for it.
  pub real_ip-claimed :
      (addr claimed rest xri : String)
      → is_trusted_proxy net (extract_ip net addr) (trusted_nets net default_trusted_proxies) ≡ true
      → extract_ip net addr ≢ ""
      → contains 44 claimed ≡ false
      → trim_space claimed ≡ claimed
      → claimed ≢ ""
      → is_some (net.parse_ip claimed) ≡ true
      → real_ip net addr (claimed ++ ("," ++ rest)) xri ≡ claimed
  unfolding real_ip
  real_ip-claimed addr claimed rest xri trusted peer no_comma trimmed given valid =
      let xff = claimed ++ ("," ++ rest) in
      let c : cut 44 xff ≡ some (claimed, rest) = cut-append_text 44 claimed _ rest refl no_comma in
      forwarded-cut xff xri c
    where
      forwarded-cut :
          (xff xri : String)
          → cut 44 xff ≡ some (claimed, rest)
          → real_ip net addr xff xri ≡ claimed
      forwarded-cut xff xri c = ground (
        arith,
        trusted,
        leftmost-cut xff claimed rest c trimmed,
        valid,
        eq_iff (extract_ip net addr) "",
        peer,
        eq_iff claimed "",
        given,
        eq_iff xff "",
        cut-nonempty 44 xff claimed rest c,
      )

  -- The peer is no trusted proxy. Then the request counts for the peer, whatever its headers say.
  pub real_ip-untrusted :
      (addr xff xri : String)
      → is_trusted_proxy net (extract_ip net addr) (trusted_nets net default_trusted_proxies)
        ≡ false
      → real_ip net addr xff xri ≡ addr
  unfolding real_ip
  real_ip-untrusted addr xff xri h = ground (arith, h)
