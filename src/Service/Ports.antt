-- ===== src/Service/Ports.antt =====
-- internal/service/service.go: allocateOnePort and allocatePorts.
use anito.Prelude.{
  ℕ, zero, suc, ◌-◌, String, Bool, true, false, ◌||◌, Option, none, some, List, [], ◌∷◌, ◌==◌,
  ℕ_comparable, text_comparable, if◌then◌else◌,
}
use anito.Assoc.{lookup, insert}
use anito.Registry.Types.{Ports, Service}
use anito.Registry.Ports.{is_empty}
use anito.Registry.Store.{Registry}
use anito.Registry.Methods.{used_ports}
use anito.Proxy.Types.{Proxies, Error}
use anito.Proxy.Address.{Net, register_ports_with_bind}
use anito.Proxy.Routes.{remove_ports}

unfoldable pub port_range_start : ℕ
port_range_start = 8100

unfoldable pub port_range_end : ℕ
port_range_end = 8200

abbrev pub is_reserved : ℕ → Bool
is_reserved p = p == 7700 || p == 7701

-- `used[port]`.
unfoldable pub is_used : ℕ → List (ℕ × Bool) → Bool
is_used p used = elim (lookup p used) [ none ↦ false | some b ↦ b ]

pub data PortError : Type 0 where
  reserved : ℕ → PortError
  no_available_ports : String → String → PortError

pub data Allocation {ℓ} (A : Type ℓ) : Type ℓ where
  ok : A → Allocation A
  err : PortError → Allocation A

-- `listens` says whether a port can be listened on.
module _ (net : Net) (listens : ℕ → Bool) (name : String) (address : String) where
  unfoldable pub register_one : String → ℕ → Proxies → Proxies × Option Error
  register_one port_name port m =
      register_ports_with_bind net (λ n. listens port) name ((port_name, port) ∷ []) address m

  -- The loop over `n` ports from `port` on.
  unfoldable pub scan : String → ℕ → ℕ → List (ℕ × Bool) → Proxies → Proxies × Allocation ℕ
  unfolding register_one
  scan port_name zero port used m = (m, err (no_available_ports name port_name))
  scan port_name (suc n) port used m =
      let (m', failed) = register_one port_name port m in
      elim (is_used port used) [
        | true ↦ scan port_name n (suc port) used m
        | false ↦ elim failed [
          | none ↦ (m', ok port)
          | some e ↦ scan port_name n (suc port) used m'
        ]
      ]

  unfoldable pub scan_range : String → List (ℕ × Bool) → Proxies → Proxies × Allocation ℕ
  unfolding scan
  scan_range port_name used m =
      scan port_name (suc port_range_end - port_range_start) port_range_start used m

  -- The preferred port, where it is not in use.
  unfoldable pub try_preferred :
      String → ℕ → List (ℕ × Bool) → Proxies × Option Error → Proxies × Allocation ℕ
  unfolding scan_range
  try_preferred port_name preferred used (m, none) = (m, ok preferred)
  try_preferred port_name preferred used (m, some e) = scan_range port_name used m

  unfoldable pub allocate_one_port : String → ℕ → List (ℕ × Bool) → Proxies → Proxies × Allocation ℕ
  unfolding try_preferred
  allocate_one_port port_name preferred used m =
      if preferred == 0
      then scan_range port_name used m
      else if is_reserved preferred
      then (m, err (reserved preferred))
      else if is_used preferred used
      then scan_range port_name used m
      else try_preferred port_name preferred used (register_one port_name preferred m)

  unfoldable pub with_port : String → ℕ → Proxies × Allocation Ports → Proxies × Allocation Ports
  with_port port_name port (m, ok ports) = (m, ok ((port_name, port) ∷ ports))
  with_port port_name port (m, err e) = (m, err e)

  -- A failure removes the ports that have been registered, and all others of the service.
  unfoldable pub allocate_each : Ports → List (ℕ × Bool) → Proxies → Proxies × Allocation Ports
  unfolding with_port allocate_one_port
  allocate_each [] used m = (m, ok [])
  allocate_each ((port_name, preferred) ∷ rest) used m =
      let (m', allocated) = allocate_one_port port_name preferred used m in
      elim allocated [
        | ok port ↦ with_port port_name port (allocate_each rest (insert port true used) m')
        | err e ↦ (remove_ports name m', err e)
      ]

  -- An existing service keeps its ports.
  unfoldable pub allocate_for :
      Ports → Registry → Proxies → Option Service → Proxies × Allocation Ports
  unfolding allocate_each
  allocate_for preferred r m none = allocate_each preferred (used_ports r) m
  allocate_for preferred r m (some existing) =
      if is_empty existing.stable_ports then allocate_each preferred (used_ports r) m else (
        (register_ports_with_bind net
            (λ n. elim (lookup n existing.stable_ports) [ none ↦ true | some p ↦ listens p ]) name
            existing.stable_ports existing.proxy_bind_address m).0,
        ok existing.stable_ports,
      )

  unfoldable pub allocate_ports : Ports → Registry → Proxies → Proxies × Allocation Ports
  unfolding allocate_for
  allocate_ports preferred r m = allocate_for preferred r m (lookup name r.services)
