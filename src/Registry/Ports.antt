-- ===== src/Registry/Ports.antt =====
-- internal/registry/registry.go: the ports of a service, and the address that it answers at.
use anito.Prelude.{
  ℕ, String, Bool, true, false, ◌||◌, none, some, List, [], ◌∷◌, ◌==◌, text_comparable,
  ℕ_comparable, if◌then◌else◌, str_lt, not, ◌&&◌, ltb, length,
}
use anito.Assoc.{lookup}
use anito.Registry.Types.{Ports, Service}

abbrev pub default_proxy_bind_address : String
default_proxy_bind_address = "localhost"

abbrev pub is_empty {ℓ} : {A : Type ℓ} → List A → Bool
is_empty [] = true
is_empty (x ∷ xs) = false

-- A read of a Go map: a missing key gives the zero value.
abbrev pub port_at : String → Ports → ℕ
port_at k m = elim (lookup k m) [ none ↦ 0 | some p ↦ p ]

-- The loop over the keys in `PickPort`, with `first` as its variable.
unfoldable pub first_key : String → Ports → String
first_key first [] = first
first_key first ((k, p) ∷ m) = first_key (if first == "" || str_lt k first then k else first) m

-- The part of `PickPort` after the health-check port.
unfoldable pub default_or_first : Ports → ℕ
default_or_first ports = elim (lookup "default" ports) [
  | some p ↦ p
  | none ↦ port_at (first_key "" ports) ports
]

unfoldable pub pick_port : Ports → String → ℕ
pick_port ports hc =
    if is_empty ports
    then 0
    else if hc == ""
    then default_or_first ports
    else elim (lookup hc ports) [ some p ↦ p | none ↦ default_or_first ports ]

unfoldable pub primary_stable_port : Service → ℕ
primary_stable_port s = pick_port s.stable_ports s.health_check_port

unfoldable pub primary_internal_port : Service → ℕ
primary_internal_port s = pick_port s.internal_ports s.health_check_port

unfoldable pub sync_singular_from_map : Service → Service
sync_singular_from_map s = record s {
  stable_port = primary_stable_port s;
  internal_port = primary_internal_port s;
}

-- The singular ports of an old registry file become one-entry maps.
unfoldable pub upgrade_ports : Service → Service
upgrade_ports s = record s {
  stable_ports =
      if is_empty s.stable_ports && not (s.stable_port == 0)
      then ("default", s.stable_port) ∷ []
      else s.stable_ports;
  internal_ports =
      if is_empty s.internal_ports && not (s.internal_port == 0)
      then ("default", s.internal_port) ∷ []
      else s.internal_ports;
}

abbrev pub bind_or_default : String → String
bind_or_default a = if a == "" then default_proxy_bind_address else a

unfoldable pub normalize_ports : Service → Service
normalize_ports s =
    let t = sync_singular_from_map (upgrade_ports s) in
    record t { proxy_bind_address = bind_or_default t.proxy_bind_address }

unfoldable pub is_multi_port : Service → Bool
is_multi_port s = ltb 1 (length s.stable_ports)
