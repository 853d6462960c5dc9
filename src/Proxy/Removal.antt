-- ===== src/Proxy/Removal.antt =====
-- Removing a service takes its ports and no other service's.
use anito.Prelude.{
  ℕ, String, ◌≡◌, refl, ◌∙◌, ◌≢◌, inl, inr, true, false, none, some, List, [], ◌∷◌, arith, ◌==◌,
  ℕ_comparable, text_comparable, if◌then◌else◌, Bool-cases, All, ==_refl,
}
use anito.Assoc.{lookup, lookup-delete}
use anito.Proxy.Types.{Entry, Proxies}
use anito.Proxy.Keys.{entry_key, service_prefix, has_prefix, has_colon, has_prefix-entry_key}
use anito.Proxy.Closing.{close-ne, close-All}
use anito.Proxy.Routes.{without_prefix, close_prefix, remove_ports}

lookup-without_prefix :
    (prefix key : String) (entries : List (String × Entry))
    → lookup key (without_prefix prefix entries)
      ≡ (if has_prefix key prefix then none else lookup key entries)
unfolding without_prefix lookup
lookup-without_prefix prefix key [] = ground arith
lookup-without_prefix prefix key ((k, e) ∷ entries) = elim (Bool-cases (k == key)) [
  | inl p ↦ elim (Bool-cases (has_prefix key prefix)) [
    | inl q ↦
        rw ((text_comparable.same_iff k key).0 p, q)
          (rw (lookup-without_prefix prefix key entries, q) refl)
    | inr q ↦ rw ((text_comparable.same_iff k key).0 p, q, ==_refl key) refl
  ]
  | inr p ↦ elim (Bool-cases (has_prefix k prefix)) [
    | inl q ↦ rw (q, p) (lookup-without_prefix prefix key entries)
    | inr q ↦ rw (q, p) (lookup-without_prefix prefix key entries)
  ]
]

-- Nothing that is removed is still listened on.
close_prefix-ne :
    (prefix key : String) (e : Entry) (entries : List (String × Entry)) (listening : List ℕ)
    → has_prefix key prefix ≡ true
    → lookup key entries ≡ some e
    → All (λ k. k ≢ e.listener) (close_prefix prefix entries listening)
unfolding close_prefix lookup
close_prefix-ne prefix key e [] listening h g = cc g
close_prefix-ne prefix key e ((k, d) ∷ entries) listening h g = elim (Bool-cases (k == key)) [
  | inl p ↦
      let s : d ≡ e = cc (rw (lookup, p) at g) in
      rw ((text_comparable.same_iff k key).0 p, h, s)
        (close-ne e.listener (close_prefix prefix entries listening))
  | inr p ↦
      let rest = close_prefix-ne prefix key e entries listening h (rw (lookup, p) at g) in
      elim (Bool-cases (has_prefix k prefix)) [
        | inl q ↦
            rw q (close-All d.listener e.listener (close_prefix prefix entries listening) rest)
        | inr q ↦ rw q rest
      ]
]

-- What `RemovePorts` leaves: none of the service's entries, and those of the others.
pub record IsRemoved (name : String) (m after : Proxies) : Type 0 where
  pub entries :
      (service port_name : String)
      → has_colon service ≡ false
      → lookup (entry_key service port_name) after.entries
        ≡ (if service == name then none else lookup (entry_key service port_name) m.entries)
  pub routes :
      (service : String)
      → lookup service after.routes ≡ (if name == service then none else lookup service m.routes)
  pub closed :
      (port_name : String) (e : Entry)
      → lookup (entry_key name port_name) m.entries ≡ some e
      → All (λ l. l ≢ e.listener) after.listening
  pub generations : after.generations ≡ m.generations

-- For a name without a colon, `RemovePorts` leaves no entry of the service and closes the listeners
-- of those that it had; the entries of every other name without a colon stand, and so do the routes
-- of every other name and all the generations.
pub remove_ports_lem :
    (name : String) (m : Proxies) → has_colon name ≡ false → IsRemoved name m (remove_ports name m)
unfolding remove_ports
remove_ports_lem name m h = record {
  entries = λ service port_name c.
      rw
        (
          lookup-without_prefix (service_prefix name) (entry_key service port_name) m.entries,
          has_prefix-entry_key service port_name name c h,
        )
        refl;
  routes = λ service. lookup-delete name service m.routes;
  closed = λ port_name e g.
      close_prefix-ne (service_prefix name) (entry_key name port_name) e m.entries m.listening
        (has_prefix-entry_key name port_name name h h ∙ ==_refl name) g;
  generations = refl;
}
