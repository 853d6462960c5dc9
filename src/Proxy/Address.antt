-- ===== src/Proxy/Address.antt =====
-- internal/proxy/proxy.go: which addresses a proxy may listen on, and RegisterPortsWithBind with the
-- check of its address.
use anito.Prelude.{
  String, Bool, false, ◌||◌, Option, none, some, List, [], ◌∷◌, ◌==◌, text_comparable,
  if◌then◌else◌,
}
use anito.Text.Trim.{trim_space, trim_prefix_char, trim_suffix_char}
use anito.Registry.Types.{Ports}
use anito.Registry.Ports.{default_proxy_bind_address}
use anito.Proxy.Types.{
  Proxies, Error, AddressError, not_an_address, wildcard, not_tailscale, no_interfaces, not_local,
  bad_address,
}
use anito.Proxy.Listeners.{register_ports}

-- What net and net/netip say of an address that is parsed and unmapped. `text` tells addresses apart.
pub record IpAddress : Type 0 where
  pub text : String
  pub loopback : Bool
  pub unspecified : Bool
  pub in_prefix : String → Bool

-- The packages: the parser, and the addresses of the interfaces, which may not be readable.
pub record Net : Type 0 where
  pub parse : String → Option IpAddress
  pub interfaces : Option (List IpAddress)

unfoldable pub is_tailscale_address : IpAddress → Bool
is_tailscale_address a = a.in_prefix "100.64.0.0/10" || a.in_prefix "fd7a:115c:a1e0::/48"

unfoldable pub among : IpAddress → List IpAddress → Bool
among a [] = false
among a (b ∷ bs) = b.text == a.text || among a bs

unfoldable pub check_local : String → IpAddress → Option (List IpAddress) → Option AddressError
check_local address a none = some (no_interfaces address)
check_local address a (some bs) = if among a bs then none else some (not_local address)

unfoldable pub check_parsed : Net → String → Option IpAddress → Option AddressError
check_parsed net address none = some (not_an_address address)
check_parsed net address (some a) =
    if a.loopback
    then none
    else if a.unspecified
    then some (wildcard address)
    else if is_tailscale_address a
    then check_local address a net.interfaces
    else some (not_tailscale address)

-- `[` and `]` round an IPv6 address go.
abbrev pub bare : String → String
bare address = trim_prefix_char "[" (trim_suffix_char "]" address)

unfoldable pub validate_proxy_bind_address : Net → String → Option AddressError
unfolding check_parsed check_local
validate_proxy_bind_address net given =
    let address = trim_space given in
    if address == "" || address == default_proxy_bind_address
    then none
    else check_parsed net address (net.parse (bare address))

abbrev pub address_or_default : String → String
address_or_default address = if address == "" then default_proxy_bind_address else address

unfoldable pub register_valid :
    (String → Bool)
    → String
    → String
    → Ports
    → Proxies
    → Option AddressError
    → Proxies × Option Error
register_valid binds name address ports m (some e) = (m, some (bad_address e))
register_valid binds name address ports m none = register_ports binds name address ports m

unfoldable pub register_ports_with_bind :
    Net → (String → Bool) → String → Ports → String → Proxies → Proxies × Option Error
unfolding register_valid
register_ports_with_bind net binds name ports given m =
    let address = address_or_default (trim_space given) in
    register_valid binds name address ports m (validate_proxy_bind_address net address)
