-- ===== src/Proxy/Unswap.antt =====
-- A service that is unswapped answers 503 on all its ports.
use anito.Prelude.{
  ℕ, String, ◌≡◌, refl, sym, ◌≢◌, inl, inr, true, some, List, [], ◌∷◌, ◌==◌, ℕ_comparable,
  text_comparable, Bool-cases, ==_refl, ==_of_ne,
}
use anito.Assoc.{lookup, insert, lookup-insert}
use anito.Proxy.Types.{unavailable, Entry, Handlers, Proxies}
use anito.Proxy.Keys.{service_prefix, has_prefix, entry_key, has_prefix-append}
use anito.Proxy.Listeners.{current_handlers, publish}
use anito.Proxy.Routes.{served, handler_or_unavailable, unavailable_handlers, unswap_ports}
use anito.Proxy.Swap.{current-publish}

insert-unavailable :
    (k l : String) (handlers : Handlers)
    → lookup l handlers ≡ some unavailable
    → lookup l (insert k unavailable handlers) ≡ some unavailable
insert-unavailable k l handlers h = elim (Bool-cases (k == l)) [
  | inl p ↦ rw (lookup-insert k l unavailable handlers, p) refl
  | inr p ↦ rw (lookup-insert k l unavailable handlers, p) h
]

lookup-unavailable_handlers :
    (prefix key : String) (e : Entry) (entries : List (String × Entry)) (handlers : Handlers)
    → has_prefix key prefix ≡ true
    → lookup key entries ≡ some e
    → lookup e.port_name (unavailable_handlers prefix entries handlers) ≡ some unavailable
unfolding lookup unavailable_handlers
lookup-unavailable_handlers prefix key e [] handlers h g = cc g
lookup-unavailable_handlers prefix key e ((k, d) ∷ entries) handlers h g =
    elim (Bool-cases (k == key)) [
      | inl p ↦
          let s : d ≡ e = cc (rw (lookup, p) at g) in
          rw
            (
              (text_comparable.same_iff k key).0 p,
              h,
              s,
              lookup-insert e.port_name e.port_name unavailable
                  (unavailable_handlers prefix entries handlers),
              ==_refl e.port_name,
            )
            refl
      | inr p ↦
          let rest =
            lookup-unavailable_handlers prefix key e entries handlers h (rw (lookup, p) at g) in
          elim (Bool-cases (has_prefix k prefix)) [
            | inl q ↦ rw q (
                insert-unavailable d.port_name e.port_name
                  (unavailable_handlers prefix entries handlers) rest)
            | inr q ↦ rw q rest
          ]
    ]

unswapped :
    (name : String) (m : Proxies) (route : ℕ)
    → lookup name m.routes ≡ some route
    → unswap_ports name m
      ≡ publish route
          (unavailable_handlers (service_prefix name) m.entries (current_handlers route m))
          m
unfolding unswap_ports
unswapped name m route h = rw (unswap_ports, h) refl

-- After `UnswapPorts` of a service with a route, an entry of the service on that route answers 503,
-- and every entry on another route leads where it did.
pub unswap_ports_lem :
    (name port_name : String) (m : Proxies) (route : ℕ) (e other : Entry)
    → lookup name m.routes ≡ some route
    → lookup (entry_key name port_name) m.entries ≡ some e
    → e.route ≡ route
    → other.route ≢ route
    → (served e (unswap_ports name m) ≡ unavailable)
      × (served other (unswap_ports name m) ≡ served other m)
unfolding served entry_key service_prefix handler_or_unavailable
unswap_ports_lem name port_name m route e other h g r n =
    let handlers : Handlers =
      unavailable_handlers (service_prefix name) m.entries (current_handlers route m) in
    (
      rw
          (
            unswapped name m route h,
            r,
            current-publish route route handlers m,
            ==_refl route,
            lookup-unavailable_handlers (service_prefix name) (entry_key name port_name) e m.entries
                (current_handlers route m) (has_prefix-append (service_prefix name) port_name) g,
          )
          refl,
      rw
          (
            unswapped name m route h,
            current-publish route other.route handlers m,
            ==_of_ne route other.route (λ p. n (sym p)),
          )
          refl,
    )
