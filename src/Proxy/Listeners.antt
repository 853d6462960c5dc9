-- ===== src/Proxy/Listeners.antt =====
-- internal/proxy/proxy.go: the registration of a service's stable ports.
use anito.Prelude.{
  ℕ, suc, String, Bool, ◌&&◌, Option, none, some, List, [], ◌∷◌, ◌++◌, ◌==◌, ℕ_comparable,
  text_comparable, if◌then◌else◌,
}
use anito.Assoc.{lookup, insert}
use anito.Registry.Types.{Ports}
use anito.Proxy.Types.{starting, Entry, Handlers, Proxies, Error, cannot_bind}
use anito.Proxy.Keys.{entry_key}

unfoldable pub new : Proxies
new = record { entries = []; routes = []; generations = []; listening = []; next = 0 }

-- `listen`, once it has succeeded: a fresh listener.
abbrev pub listened : Proxies → Proxies
listened m = record m { listening = m.next ∷ m.listening; next = suc m.next }

unfoldable pub close : ℕ → List ℕ → List ℕ
close l [] = []
close l (k ∷ listening) = if k == l then close l listening else k ∷ close l listening

unfoldable pub close_all : List (String × Entry) → List ℕ → List ℕ
close_all [] listening = listening
close_all ((key, e) ∷ pending) listening = close_all pending (close e.listener listening)

-- One pass of the loop goes on with the entries that are pending, or ends the call.
pub data Pass : Type 0 where
  goes_on : Proxies → List (String × Entry) → Pass
  fails : Proxies → Error → Pass

-- A port that the service has: nothing to do, or a new listener in place of the old one.
unfoldable pub rebind :
    Bool → String → String → String → ℕ → Entry → Proxies → List (String × Entry) → Pass
rebind bound name address port_name port e m pending =
    if e.stable_port == port && e.bind_address == address
    then goes_on m pending
    else if bound
    then goes_on
        (record m {
          entries =
              insert (entry_key name port_name)
                (record e { stable_port = port; bind_address = address; listener = m.next })
                m.entries;
          listening = m.next ∷ close e.listener m.listening;
          next = suc m.next;
        })
        pending
    else fails m (cannot_bind port name port_name)

-- A port that it does not have. The route is set when the entry is published.
unfoldable pub bind : Bool → String → String → String → ℕ → Proxies → List (String × Entry) → Pass
bind bound name address port_name port m pending =
    if bound
    then goes_on (listened m) (
        pending
        ++ (
          entry_key name port_name,
          record {
            stable_port = port;
            bind_address = address;
            port_name = port_name;
            listener = m.next;
            route = 0;
          },
        )
          ∷ [])
    else fails (record m { listening = close_all pending m.listening })
        (cannot_bind port name port_name)

unfoldable pub pass :
    (String → Bool) → String → String → String → ℕ → Proxies → List (String × Entry) → Pass
pass binds name address port_name port m pending =
    elim (lookup (entry_key name port_name) m.entries) [
      | some e ↦ rebind (binds port_name) name address port_name port e m pending
      | none ↦ bind (binds port_name) name address port_name port m pending
    ]

unfoldable pub bind_each :
    (String → Bool) → String → String → Ports → Proxies → List (String × Entry) → Pass
bind_each binds name address [] m pending = goes_on m pending
bind_each binds name address ((port_name, port) ∷ ports) m pending =
    elim (pass binds name address port_name port m pending) [
      | goes_on m' pending' ↦ bind_each binds name address ports m' pending'
      | fails m' e ↦ fails m' e
    ]

abbrev pub handlers_or_none : Option Handlers → Handlers
handlers_or_none none = []
handlers_or_none (some handlers) = handlers

unfoldable pub current_handlers : ℕ → Proxies → Handlers
current_handlers route m = handlers_or_none (lookup route m.generations)

-- `publishRouteGeneration`.
abbrev pub publish : ℕ → Handlers → Proxies → Proxies
publish route handlers m = record m { generations = insert route handlers m.generations }

unfoldable pub starting_handlers : List (String × Entry) → Handlers → Handlers
starting_handlers [] handlers = handlers
starting_handlers ((key, e) ∷ pending) handlers =
    starting_handlers pending (insert e.port_name starting handlers)

unfoldable pub add_entries :
    ℕ → List (String × Entry) → List (String × Entry) → List (String × Entry)
add_entries route [] entries = entries
add_entries route ((key, e) ∷ pending) entries =
    add_entries route pending (insert key (record e { route = route }) entries)

-- The service's route, or a new one.
unfoldable pub route_for : String → Proxies → ℕ × Proxies
route_for name m = elim (lookup name m.routes) [
  | some route ↦ (route, m)
  | none ↦ (m.next, record m { routes = insert name m.next m.routes; next = suc m.next })
]

unfoldable pub publish_pending : String → List (String × Entry) → Proxies → Proxies
publish_pending name [] m = m
publish_pending name (p ∷ pending) m =
    let (route, m') = route_for name m in
    record (publish route (starting_handlers (p ∷ pending) (current_handlers route m')) m') {
      entries = add_entries route (p ∷ pending) m'.entries;
    }

-- `RegisterPortsWithBind` after the address is validated; `binds` says which of the ports the
-- operating system lets the proxy listen on.
unfoldable pub register_ports :
    (String → Bool) → String → String → Ports → Proxies → Proxies × Option Error
register_ports binds name address ports m = elim (bind_each binds name address ports m []) [
  | goes_on m' pending ↦ (publish_pending name pending m', none)
  | fails m' e ↦ (m', some e)
]
