-- ===== src/Prelude/Texts.antt =====
-- Go's `<` on strings: the lexicographic order, and that it is a strict total order.
use Prim.Native.Nat.{ℕ, Ordering, compare as compare_ℕ}
use Prim.Native.Char.{code}
use Prim.Native.String.compare
use Prim.Native.String.{String, [], ◌∷◌, compare, then}
use mathlib.Core.Path.{◌≡◌, refl}
use mathlib.Core.Bool.{Bool, true, false}
use native.Mathlib.Omega.{arith}
use text.Mathlib.Text.{is_lt}
use text.Mathlib.TextEquality.{path_by_compare}
use text.Mathlib.TextPositions.{compare_refl}

abbrev pub str_lt : String → String → Bool
str_lt s t = is_lt (compare s t)

flip : Ordering → Ordering
flip Ordering.lt = Ordering.gt
flip Ordering.eq = Ordering.eq
flip Ordering.gt = Ordering.lt

flip-then : (o p : Ordering) → flip (then o p) ≡ then (flip o) (flip p)
unfolding flip
flip-then Ordering.lt p = refl
flip-then Ordering.eq p = refl
flip-then Ordering.gt p = refl

flip-compare_ℕ : (m n : ℕ) → flip (compare_ℕ m n) ≡ compare_ℕ n m
unfolding flip
flip-compare_ℕ m n = ground arith

flip-compare : (s t : String) → flip (compare s t) ≡ compare t s
flip-compare [] [] = rw compare.nil-nil (unfold flip in refl)
flip-compare [] (d ∷ t) = rw (compare.nil-cons, compare.cons-nil) (unfold flip in refl)
flip-compare (c ∷ s) [] = rw (compare.nil-cons, compare.cons-nil) (unfold flip in refl)
flip-compare (c ∷ s) (d ∷ t) = rw (
  compare.cons-cons c d s t,
  compare.cons-cons d c t s,
  flip-then,
  flip-compare_ℕ,
  flip-compare s t,
)

-- Two strings neither of which is below the other are equal.
pub str_lt_total : (s t : String) → str_lt s t ≡ false → str_lt t s ≡ false → s ≡ t
str_lt_total s t p q = path_by_compare s t (both (compare s t) (compare t s) (flip-compare s t) p q)
  where
    both : (o r : Ordering) → flip o ≡ r → is_lt o ≡ false → is_lt r ≡ false → o ≡ Ordering.eq
    both o r f p q = unfold flip in ground arith

then_lt_trans :
    (m n k : ℕ) (p q r : Ordering)
    → (is_lt p ≡ true → is_lt q ≡ true → is_lt r ≡ true)
    → is_lt (then (compare_ℕ m n) p) ≡ true
    → is_lt (then (compare_ℕ n k) q) ≡ true
    → is_lt (then (compare_ℕ m k) r) ≡ true
then_lt_trans m n k p q r h a b = ground arith

pub str_lt-nil : (s : String) → ¬ (str_lt s [] ≡ true)
str_lt-nil [] h = cc
str_lt-nil (c ∷ s) h = cc (rw compare.cons-nil at h)

pub str_lt_trans : (s t u : String) → str_lt s t ≡ true → str_lt t u ≡ true → str_lt s u ≡ true
str_lt_trans [] [] u p q = q
str_lt_trans [] (d ∷ t) [] p q = absurd (str_lt-nil (d ∷ t) q)
str_lt_trans [] (d ∷ t) (f ∷ u) p q = rw compare.nil-cons
str_lt_trans (c ∷ s) [] u p q = absurd (str_lt-nil (c ∷ s) p)
str_lt_trans (c ∷ s) (d ∷ t) [] p q = absurd (str_lt-nil (d ∷ t) q)
str_lt_trans (c ∷ s) (d ∷ t) (f ∷ u) p q = rw (compare.cons-cons c f s u) (
    then_lt_trans (code c) (code d) (code f) (compare s t) (compare t u) (compare s u)
      (str_lt_trans s t u) (rw (compare.cons-cons c d s t) at p)
      (rw (compare.cons-cons d f t u) at q))

pub str_lt_irrefl : (s : String) → str_lt s s ≡ false
str_lt_irrefl s = rw (compare_refl s)

pub nil-str_lt : (s : String) → ¬ (s ≡ []) → str_lt [] s ≡ true
nil-str_lt [] h = absurd (h refl)
nil-str_lt (c ∷ s) h = rw compare.nil-cons
