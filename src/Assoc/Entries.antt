-- ===== src/Assoc/Entries.antt =====
-- A predicate on every entry of a map, and what keeps it.
use anito.Prelude.{◌≡◌, refl, inl, inr, some, List, [], ◌∷◌, Comparable, ◌==◌, Bool-cases}
use anito.Assoc.Lookup.{lookup, insert, delete, map_values}

module _ {ℓ κ μ} {K : Type ℓ} {V : Type κ} where
  abbrev pub Entries : (K → V → Type μ) → List (K × V) → Type μ
  Entries P [] = Unit
  Entries P ((k, v) ∷ m) = P k v × Entries P m

module _ {ℓ κ μ} {K : Type ℓ} {V : Type κ} ⦃e : Comparable K⦄ (P : K → V → Type μ) where
  pub Entries-lookup :
      (m : List (K × V)) (k : K) (v : V) → Entries P m → lookup k m ≡ some v → P k v
  unfolding lookup
  Entries-lookup [] k v h q = cc
  Entries-lookup ((j, w) ∷ m) k v h q = elim (Bool-cases (j == k)) [
    | inl p ↦ subst_entry ((e.same_iff j k).0 p) (cc (rw p at q))
    | inr p ↦ Entries-lookup m k v h.1 (rw p at q)
  ]
    where
      subst_entry : j ≡ k → w ≡ v → P k v
      subst_entry a b = rw (← a, ← b) h.0

  pub Entries-insert :
      (k : K) (v : V) (m : List (K × V)) → P k v → Entries P m → Entries P (insert k v m)
  unfolding insert
  Entries-insert k v [] p h = (p, tt)
  Entries-insert k v ((j, w) ∷ m) p h = elim (Bool-cases (j == k)) [
    | inl q ↦ rw q (p, h.1)
    | inr q ↦ rw q (h.0, Entries-insert k v m p h.1)
  ]

  pub Entries-delete : (k : K) (m : List (K × V)) → Entries P m → Entries P (delete k m)
  unfolding delete
  Entries-delete k [] h = tt
  Entries-delete k ((j, w) ∷ m) h = elim (Bool-cases (j == k)) [
    | inl q ↦ rw q (Entries-delete k m h.1)
    | inr q ↦ rw q (h.0, Entries-delete k m h.1)
  ]

module _ {ℓ κ λ' μ ν} {K : Type ℓ} {V : Type κ} {W : Type λ'} where
  pub Entries-map_values :
      (P : K → V → Type μ) (Q : K → W → Type ν) (f : V → W) (m : List (K × V))
      → ((k : K) (v : V) → P k v → Q k (f v))
      → Entries P m
      → Entries Q (map_values f m)
  unfolding map_values
  Entries-map_values P Q f [] g h = tt
  Entries-map_values P Q f ((k, v) ∷ m) g h = (g k v h.0, Entries-map_values P Q f m g h.1)

module _ {ℓ κ μ} {K : Type ℓ} {V : Type κ} where
  pub Entries-mono :
      (P Q : K → V → Type μ) (m : List (K × V))
      → ((k : K) (v : V) → P k v → Q k v)
      → Entries P m
      → Entries Q m
  Entries-mono P Q [] g h = tt
  Entries-mono P Q ((k, v) ∷ m) g h = (g k v h.0, Entries-mono P Q m g h.1)

  -- A write that changes no entry changes nothing.
  pub map_values_id :
      (P : K → V → Type μ) (f : V → V) (m : List (K × V))
      → ((k : K) (v : V) → P k v → f v ≡ v)
      → Entries P m
      → map_values f m ≡ m
  unfolding map_values
  map_values_id P f [] g h = refl
  map_values_id P f ((k, v) ∷ m) g h = rw (g k v h.0, map_values_id P f m g h.1)
