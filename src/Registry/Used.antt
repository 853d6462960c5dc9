-- ===== src/Registry/Used.antt =====
-- The set of ports that new services must stay away from.
use anito.Prelude.{
  ℕ, String, ◌≡◌, refl, ◌≢◌, ◌↔◌, ◌⊎◌, inl, inr, Bool, true, some, none, List, [], ◌∷◌, arith,
  ℕ_comparable,
}
use anito.Assoc.{lookup, lookup-insert}
use anito.Registry.Types.{Ports, Service}
use anito.Registry.Store.{Registry}
use anito.Registry.Methods.{add_port, add_ports, used_from, used_ports}

abbrev pub Named : ℕ → Ports → Type 0
Named p [] = ⊥
Named p ((n, q) ∷ m) = (q ≡ p) ⊎ Named p m

-- Some entry has the port as its singular stable port or as one of its named ones.
abbrev pub Claimed : ℕ → List (String × Service) → Type 0
Claimed p [] = ⊥
Claimed p ((k, s) ∷ m) = ((s.stable_port ≡ p) ⊎ Named p s.stable_ports) ⊎ Claimed p m

abbrev IsUsed : ℕ → List (ℕ × Bool) → Type 0
IsUsed p used = lookup p used ≡ some true

add_port-IsUsed :
    (p q : ℕ) (used : List (ℕ × Bool))
    → IsUsed p (add_port q used) ↔ (((p ≢ 0) × (q ≡ p)) ⊎ IsUsed p used)
add_port-IsUsed p q used = (
  λ h. ground (arith, lookup-insert q p true used),
  λ h. ground (arith, lookup-insert q p true used),
)

add_ports-IsUsed :
    (p : ℕ) (ports : Ports) (used : List (ℕ × Bool))
    → IsUsed p (add_ports ports used) ↔ (((p ≢ 0) × Named p ports) ⊎ IsUsed p used)
unfolding add_ports
add_ports-IsUsed p [] used = (λ h. inr h, elim [ inl h ↦ absurd h.1 | inr h ↦ h ])
add_ports-IsUsed p ((n, q) ∷ ports) used =
    let rest = add_ports-IsUsed p ports (add_port q used) in
    let here = add_port-IsUsed p q used in
    (
      λ h. elim (rest.0 h) [
        | inl g ↦ inl (g.0, inr g.1)
        | inr g ↦ elim (here.0 g) [ inl f ↦ inl (f.0, inl f.1) | inr f ↦ inr f ]
      ],
      elim [
        | inl (a, inl b) ↦ rest.1 (inr (here.1 (inl (a, b))))
        | inl (a, inr b) ↦ rest.1 (inl (a, b))
        | inr h ↦ rest.1 (inr (here.1 (inr h)))
      ],
    )

used_from-IsUsed :
    (p : ℕ) (m : List (String × Service)) (used : List (ℕ × Bool))
    → IsUsed p (used_from m used) ↔ (((p ≢ 0) × Claimed p m) ⊎ IsUsed p used)
unfolding used_from
used_from-IsUsed p [] used = (λ h. inr h, elim [ inl h ↦ absurd h.1 | inr h ↦ h ])
used_from-IsUsed p ((k, s) ∷ m) used =
    let rest = used_from-IsUsed p m (add_port s.stable_port (add_ports s.stable_ports used)) in
    let one = add_port-IsUsed p s.stable_port (add_ports s.stable_ports used) in
    let many = add_ports-IsUsed p s.stable_ports used in
    (
      λ h. elim (rest.0 h) [
        | inl g ↦ inl (g.0, inr g.1)
        | inr g ↦ elim (one.0 g) [
          | inl f ↦ inl (f.0, inl (inl f.1))
          | inr f ↦ elim (many.0 f) [ inl e ↦ inl (e.0, inl (inr e.1)) | inr e ↦ inr e ]
        ]
      ],
      elim [
        | inl (a, inl (inl b)) ↦ rest.1 (inr (one.1 (inl (a, b))))
        | inl (a, inl (inr b)) ↦ rest.1 (inr (one.1 (inr (many.1 (inl (a, b))))))
        | inl (a, inr b) ↦ rest.1 (inl (a, b))
        | inr h ↦ rest.1 (inr (one.1 (inr (many.1 (inr h)))))
      ],
    )

lookup-nil : (p : ℕ) → lookup {V = Bool} p [] ≡ none
unfolding lookup
lookup-nil p = refl

-- A port is in the set exactly when it is not 0 and some entry, archived or not, has it as its
-- singular stable port or among its named ones.
pub used_ports_iff :
    (p : ℕ) (r : Registry)
    → (lookup p (used_ports r) ≡ some true) ↔ ((p ≢ 0) × Claimed p r.services)
unfolding used_ports
used_ports_iff p r =
    let all = used_from-IsUsed p r.services [] in
    (λ h. elim (all.0 h) [ inl g ↦ g | inr g ↦ cc (g, lookup-nil p) ], λ h. all.1 (inl h))
