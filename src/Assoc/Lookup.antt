-- ===== src/Assoc/Lookup.antt =====
-- Reading, writing and deleting a key: `m[k]`, `m[k] = v`, `delete(m, k)`, and a write to every value.
use mathlib.Core.Option
use anito.Prelude.{
  ◌≡◌, refl, ◌≢◌, inl, inr, Option, none, some, List, [], ◌∷◌, arith, Comparable, ◌==◌,
  if◌then◌else◌, Bool-cases, ==_of_ne, ==_refl,
}

module _ {ℓ κ} {K : Type ℓ} {V : Type κ} ⦃e : Comparable K⦄ where
  unfoldable pub delete : K → List (K × V) → List (K × V)
  delete a [] = []
  delete a ((b, y) ∷ rest) = if b == a then delete a rest else (b, y) ∷ delete a rest

  unfoldable pub insert : K → V → List (K × V) → List (K × V)
  insert a x [] = (a, x) ∷ []
  insert a x ((b, y) ∷ rest) = if b == a then (a, x) ∷ rest else (b, y) ∷ insert a x rest

  unfoldable pub lookup : K → List (K × V) → Option V
  lookup a [] = none
  lookup a ((b, y) ∷ rest) = if b == a then some y else lookup a rest

  -- A write is read back under its key, and no other key sees it.
  pub lookup-insert :
      (a c : K) (x : V) (m : List (K × V))
      → lookup c (insert a x m) ≡ (if a == c then some x else lookup c m)
  unfolding lookup insert
  lookup-insert a c x [] = refl
  lookup-insert a c x ((b, y) ∷ rest) =
      ground (arith, lookup-insert a c x rest, e.same_iff b c, e.same_iff a c, e.same_iff b a)

  pub lookup-delete :
      (k j : K) (m : List (K × V)) → lookup j (delete k m) ≡ (if k == j then none else lookup j m)
  unfolding lookup delete
  lookup-delete k j [] = ground arith
  lookup-delete k j ((i, w) ∷ m) =
      ground (arith, e.same_iff k j, e.same_iff i k, e.same_iff i j, lookup-delete k j m)

  pub lookup-insert_self : (k : K) (v : V) (m : List (K × V)) → lookup k (insert k v m) ≡ some v
  lookup-insert_self k v m = simp (lookup-insert, ==_refl k)

  pub lookup-insert_ne :
      (k j : K) (v : V) (m : List (K × V)) → k ≢ j → lookup j (insert k v m) ≡ lookup j m
  lookup-insert_ne k j v m h = simp (lookup-insert, ==_of_ne k j h)

  pub lookup-delete_self : (k : K) (m : List (K × V)) → lookup k (delete k m) ≡ none
  lookup-delete_self k m = simp (lookup-delete, ==_refl k)

  pub lookup-delete_ne : (k j : K) (m : List (K × V)) → k ≢ j → lookup j (delete k m) ≡ lookup j m
  lookup-delete_ne k j m h = simp (lookup-delete, ==_of_ne k j h)

-- `for k := range m { m[k] = f(m[k]) }`.
module _ {ℓ κ μ} {K : Type ℓ} {V : Type κ} {W : Type μ} where
  unfoldable pub map_values : (V → W) → List (K × V) → List (K × W)
  map_values f [] = []
  map_values f ((k, v) ∷ m) = (k, f v) ∷ map_values f m

module _ {ℓ κ μ} {K : Type ℓ} {V : Type κ} {W : Type μ} ⦃e : Comparable K⦄ where
  pub lookup-map_values :
      (f : V → W) (k : K) (m : List (K × V)) → lookup k (map_values f m) ≡ Option.map f (lookup k m)
  unfolding lookup map_values
  lookup-map_values f k [] = refl
  lookup-map_values f k ((j, v) ∷ m) = elim (Bool-cases (j == k)) [
    | inl p ↦ rw p
    | inr p ↦ rw p (lookup-map_values f k m)
  ]
