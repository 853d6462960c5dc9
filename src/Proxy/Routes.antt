-- ===== src/Proxy/Routes.antt =====
-- internal/proxy/proxy.go: what the stable ports of a service lead to.
use anito.Prelude.{
  ℕ, String, Option, none, some, List, [], ◌∷◌, ℕ_comparable, text_comparable, if◌then◌else◌,
}
use anito.Assoc.{lookup, insert, delete}
use anito.Registry.Types.{Ports}
use anito.Proxy.Types.{
  Handler, unavailable, upstream, static_files, Entry, Handlers, Proxies, Error, not_registered,
  port_not_registered,
}
use anito.Proxy.Keys.{entry_key, service_prefix, has_prefix}
use anito.Proxy.Listeners.{current_handlers, publish, close}

-- The handler that a request to an entry's listener gets.
unfoldable pub handler_or_unavailable : Option Handler → Handler
handler_or_unavailable none = unavailable
handler_or_unavailable (some h) = h

unfoldable pub served : Entry → Proxies → Handler
served e m = handler_or_unavailable (lookup e.port_name (current_handlers e.route m))

-- The first of the ports that the service does not have.
unfoldable pub missing_port : String → Ports → List (String × Entry) → Option Error
missing_port name [] entries = none
missing_port name ((port_name, port) ∷ ports) entries =
    elim (lookup (entry_key name port_name) entries) [
      | none ↦ some (port_not_registered name port_name)
      | some e ↦ missing_port name ports entries
    ]

-- `http://localhost:port` parses for every port, so the loop has no other error.
unfoldable pub upstream_handlers : Ports → Handlers → Handlers
upstream_handlers [] handlers = handlers
upstream_handlers ((port_name, port) ∷ ports) handlers =
    upstream_handlers ports (insert port_name (upstream port) handlers)

unfoldable pub swap_route : Ports → ℕ → Proxies → Option Error → Proxies × Option Error
swap_route internal route m (some e) = (m, some e)
swap_route internal route m none =
    (publish route (upstream_handlers internal (current_handlers route m)) m, none)

unfoldable pub swap_ports : String → Ports → Proxies → Proxies × Option Error
swap_ports name internal m = elim (lookup name m.routes) [
  | none ↦ (m, some (not_registered name))
  | some route ↦ swap_route internal route m (missing_port name internal m.entries)
]

unfoldable pub swap_static : String → String → Proxies → Proxies × Option Error
swap_static name dir m = elim (lookup (entry_key name "default") m.entries) [
  | none ↦ (m, some (not_registered name))
  | some e ↦
      (publish e.route (insert "default" (static_files dir) (current_handlers e.route m)) m, none)
]

unfoldable pub unavailable_handlers : String → List (String × Entry) → Handlers → Handlers
unavailable_handlers prefix [] handlers = handlers
unavailable_handlers prefix ((key, e) ∷ entries) handlers =
    let rest = unavailable_handlers prefix entries handlers in
    if has_prefix key prefix then insert e.port_name unavailable rest else rest

unfoldable pub unswap_ports : String → Proxies → Proxies
unswap_ports name m = elim (lookup name m.routes) [
  | none ↦ m
  | some route ↦
      publish route
        (unavailable_handlers (service_prefix name) m.entries (current_handlers route m)) m
]

unfoldable pub close_prefix : String → List (String × Entry) → List ℕ → List ℕ
close_prefix prefix [] listening = listening
close_prefix prefix ((key, e) ∷ entries) listening =
    let rest = close_prefix prefix entries listening in
    if has_prefix key prefix then close e.listener rest else rest

unfoldable pub without_prefix : String → List (String × Entry) → List (String × Entry)
without_prefix prefix [] = []
without_prefix prefix ((key, e) ∷ entries) =
    let rest = without_prefix prefix entries in
    if has_prefix key prefix then rest else (key, e) ∷ rest

unfoldable pub remove_ports : String → Proxies → Proxies
remove_ports name m = record m {
  entries = without_prefix (service_prefix name) m.entries;
  listening = close_prefix (service_prefix name) m.entries m.listening;
  routes = delete name m.routes;
}

unfoldable pub first_port : String → List (String × Entry) → ℕ
first_port prefix [] = 0
first_port prefix ((key, e) ∷ entries) =
    let rest = first_port prefix entries in if has_prefix key prefix then e.stable_port else rest

unfoldable pub stable_port : String → Proxies → ℕ
stable_port name m = elim (lookup (entry_key name "default") m.entries) [
  | some e ↦ e.stable_port
  | none ↦ first_port (service_prefix name) m.entries
]
