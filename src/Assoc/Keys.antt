-- ===== src/Assoc/Keys.antt =====
-- The keys of a Go map are distinct, and two maps are the same when they answer every key alike.
use anito.Prelude.{
  ◌≡◌, refl, sym, ◌∙◌, none, some, List, [], ◌∷◌, inl, inr, Comparable, ◌==◌, Bool-cases, ==_of_ne,
  ne_of_==, if◌then◌else◌,
}
use anito.Assoc.Lookup.{
  lookup, insert, delete, map_values, lookup-insert, lookup-delete, lookup-map_values,
}

module _ {ℓ κ} {K : Type ℓ} {V : Type κ} ⦃e : Comparable K⦄ where
  abbrev pub IsUnique : List (K × V) → Type κ
  IsUnique [] = Unit
  IsUnique ((k, v) ∷ m) = (lookup k m ≡ none) × IsUnique m

  -- Maps are compared by what they answer: the iteration order is not part of a map.
  abbrev pub SameMap : List (K × V) → List (K × V) → Type (ℓ ⊔ κ)
  SameMap m m' = (k : K) → lookup k m ≡ lookup k m'

  pub insert-IsUnique : (k : K) (v : V) (m : List (K × V)) → IsUnique m → IsUnique (insert k v m)
  unfolding insert
  insert-IsUnique k v [] u = (unfold lookup in refl, tt)
  insert-IsUnique k v ((j, w) ∷ m) u = elim (Bool-cases (j == k)) [
    | inl p ↦ rw p (subst_key ((e.same_iff j k).0 p) u.0, u.1)
    | inr p ↦ rw p (
      lookup-insert k j v m ∙ absent (λ q. ne_of_== j k p (sym q)) u.0,
      insert-IsUnique k v m u.1,
    )
  ]
    where
      subst_key : j ≡ k → lookup j m ≡ none → lookup k m ≡ none
      subst_key q h = rw (q) at h

      absent : (k ≡ j → ⊥) → lookup j m ≡ none → (if k == j then some v else lookup j m) ≡ none
      absent h q = rw (==_of_ne k j h) q

  pub lookup-delete-none :
      (k j : K) (m : List (K × V)) → lookup j m ≡ none → lookup j (delete k m) ≡ none
  lookup-delete-none k j m h = elim (Bool-cases (k == j)) [
    | inl p ↦ lookup-delete k j m ∙ rw p
    | inr p ↦ lookup-delete k j m ∙ rw p h
  ]

  pub delete-IsUnique : (k : K) (m : List (K × V)) → IsUnique m → IsUnique (delete k m)
  unfolding delete
  delete-IsUnique k [] u = tt
  delete-IsUnique k ((j, w) ∷ m) u = elim (Bool-cases (j == k)) [
    | inl p ↦ rw p (delete-IsUnique k m u.1)
    | inr p ↦ rw p (lookup-delete-none k j m u.0, delete-IsUnique k m u.1)
  ]

module _ {ℓ κ μ} {K : Type ℓ} {V : Type κ} {W : Type μ} ⦃e : Comparable K⦄ where
  pub map_values-IsUnique : (f : V → W) (m : List (K × V)) → IsUnique m → IsUnique (map_values f m)
  unfolding map_values
  map_values-IsUnique f [] u = tt
  map_values-IsUnique f ((k, v) ∷ m) u =
      (rw (lookup-map_values f k m, u.0), map_values-IsUnique f m u.1)
