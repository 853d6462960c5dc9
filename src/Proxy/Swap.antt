-- ===== src/Proxy/Swap.antt =====
-- A swap moves every named port of a service at once, or none.
use anito.Prelude.{
  ℕ, String, ◌≡◌, refl, sym, ◌≢◌, inl, inr, Option, none, some, [], ◌∷◌, arith, ◌==◌, ℕ_comparable,
  text_comparable, if◌then◌else◌, Bool-cases, Option-cases, ==_refl, ==_of_ne,
}
use anito.Assoc.{lookup, insert, lookup-insert}
use anito.Assoc.Keys.{IsUnique}
use anito.Registry.Types.{Ports}
use anito.Proxy.Types.{Handler, upstream, Entry, Handlers, Proxies, Error}
use anito.Proxy.Listeners.{current_handlers, publish}
use anito.Proxy.Routes.{
  served, handler_or_unavailable, missing_port, upstream_handlers, swap_route, swap_ports,
}

-- The handler of a port after the swap.
abbrev pub swapped : Option ℕ → Handler → Handler
swapped none h = h
swapped (some port) h = upstream port

abbrev upstream_or : Option ℕ → Option Handler → Option Handler
upstream_or none h = h
upstream_or (some port) h = some (upstream port)

lookup-upstream_handlers :
    (k : String) (internal : Ports) (handlers : Handlers)
    → IsUnique internal
    → lookup k (upstream_handlers internal handlers)
      ≡ upstream_or (lookup k internal) (lookup k handlers)
unfolding upstream_handlers lookup
lookup-upstream_handlers k [] handlers u = refl
lookup-upstream_handlers k ((name, port) ∷ internal) handlers (n, u) =
    elim (Bool-cases (name == k)) [
      | inl p ↦
          rw
            (
              p,
              lookup-upstream_handlers k internal (insert name (upstream port) handlers) u,
              lookup-insert name k (upstream port) handlers,
              rw ((text_comparable.same_iff name k).0 p) at n,
              p,
            )
            refl
      | inr p ↦
          rw
            (
              p,
              lookup-upstream_handlers k internal (insert name (upstream port) handlers) u,
              lookup-insert name k (upstream port) handlers,
              p,
            )
            refl
    ]

handler-upstream_or :
    (port : Option ℕ) (h : Option Handler)
    → handler_or_unavailable (upstream_or port h) ≡ swapped port (handler_or_unavailable h)
unfolding handler_or_unavailable
handler-upstream_or none h = refl
handler-upstream_or (some port) h = refl

pub current-publish :
    (route other : ℕ) (handlers : Handlers) (m : Proxies)
    → current_handlers other (publish route handlers m)
      ≡ (if route == other then handlers else current_handlers other m)
unfolding current_handlers
current-publish route other handlers m = elim (Bool-cases (route == other)) [
  | inl p ↦ rw (lookup-insert route other handlers m.generations, p) refl
  | inr p ↦ rw (lookup-insert route other handlers m.generations, p) refl
]

-- A swap that took place on the service's route.
pub record IsSwapped (name : String) (internal : Ports) (m after : Proxies) : Type 0 where
  pub route : ℕ
  pub registered : lookup name m.routes ≡ some route
  pub complete : missing_port name internal m.entries ≡ none
  pub ports :
      (e : Entry)
      → e.route ≡ route
      → served e after ≡ swapped (lookup e.port_name internal) (served e m)
  pub others : (e : Entry) → e.route ≢ route → served e after ≡ served e m
  pub entries : after.entries ≡ m.entries
  pub listening : after.listening ≡ m.listening

swap_ports-cases :
    (name : String) (internal : Ports) (m : Proxies)
    → (swap_ports name internal m).1 ≡ none
    → (route : ℕ) × (lookup name m.routes ≡ some route)
      × (missing_port name internal m.entries ≡ none)
      × ((swap_ports name internal m).0
          ≡ publish route (upstream_handlers internal (current_handlers route m)) m)
unfolding swap_ports swap_route
swap_ports-cases name internal m h = elim (Option-cases (lookup name m.routes)) [
  | inl p ↦ cc (rw (swap_ports, p) at h)
  | inr (route, p) ↦ elim (Option-cases (missing_port name internal m.entries)) [
    | inl q ↦ (route, p, q, rw (swap_ports, p, q) refl)
    | inr (e, q) ↦ cc (rw (swap_ports, p, q) at h)
  ]
]

-- A swap that returns no error, for ports with different names, found the service and all its
-- ports; every entry on the route of the service leads to its new upstream if it is named and as
-- before if not, every entry on another route leads where it did, and entries and listeners stand.
pub swap_ports_lem :
    (name : String) (internal : Ports) (m : Proxies)
    → IsUnique internal
    → (swap_ports name internal m).1 ≡ none
    → IsSwapped name internal m (swap_ports name internal m).0
unfolding served
swap_ports_lem name internal m u h =
    let (route, registered, complete, q) = swap_ports-cases name internal m h in
    rw q (record {
      route = route;
      registered = registered;
      complete = complete;
      ports = λ e p.
          rw
            (
              p,
              current-publish route route (upstream_handlers internal (current_handlers route m)) m,
              ==_refl route,
              lookup-upstream_handlers e.port_name internal (current_handlers route m) u,
            )
            (handler-upstream_or (lookup e.port_name internal)
              (lookup e.port_name (current_handlers route m)));
      others = λ e n.
          rw
            (
              current-publish route e.route (upstream_handlers internal (current_handlers route m))
                  m,
              ==_of_ne route e.route (λ p. n (sym p)),
            )
            refl;
      entries = refl;
      listening = refl;
    })

-- A swap that returns an error changes nothing.
pub swap_ports-err :
    (name : String) (internal : Ports) (m : Proxies) (e : Error)
    → (swap_ports name internal m).1 ≡ some e
    → (swap_ports name internal m).0 ≡ m
unfolding swap_ports swap_route
swap_ports-err name internal m e h = ground arith
