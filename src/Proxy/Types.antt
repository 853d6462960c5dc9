-- ===== src/Proxy/Types.antt =====
-- internal/proxy/proxy.go: entries, routes and their generations.
-- A `*serviceRoute` is an address in `generations`, which every entry of the service shares. A
-- listener is a number; the IPv4 and the IPv6 socket of one entry are opened and closed together and
-- are one listener here. `listening` holds the listeners that accept connections.
use anito.Prelude.{ℕ, String, List}

pub data Handler : Type 0 where
  starting unavailable : Handler
  upstream : ℕ → Handler
  static_files : String → Handler

-- `entry`.
pub record Entry : Type 0 where
  pub stable_port : ℕ
  pub bind_address : String
  pub port_name : String
  pub listener : ℕ
  pub route : ℕ

abbrev pub Handlers : Type 0
Handlers = List (String × Handler)

pub record Proxies : Type 0 where
  pub entries : List (String × Entry)
  pub routes : List (String × ℕ)
  pub generations : List (ℕ × Handlers)
  pub listening : List ℕ
  pub next : ℕ

-- Why a bind address is refused.
pub data AddressError : Type 0 where
  not_an_address wildcard not_tailscale no_interfaces not_local : String → AddressError

pub data Error : Type 0 where
  bad_address : AddressError → Error
  cannot_bind : ℕ → String → String → Error
  not_registered : String → Error
  port_not_registered : String → String → Error
