-- ===== src/Sessions/Order.antt =====
-- The list that sort.Slice is called with: sorting it loses and adds nothing, and puts it in order.
use anito.Prelude.{
  ℕ, zero, suc, String, ◌≡◌, refl, sym, ◌≢◌, inl, inr, Bool, true, false, List, [], ◌∷◌, Bool-cases,
  All, length, drop, take, arith, text_comparable, ℕ_comparable, ◌≤◌,
}
use anito.Sessions.Store.{Session, put_in, sort_slice, goes_before}

module _ {ℓ} (P : Session → Type ℓ) where
  pub All-take : (n : ℕ) (ss : List Session) → All P ss → All P (take n ss)
  All-take zero ss h = tt
  All-take (suc n) [] h = tt
  All-take (suc n) (s ∷ ss) h = (h.0, All-take n ss h.1)

  pub All-drop : (n : ℕ) (ss : List Session) → All P ss → All P (drop n ss)
  All-drop zero ss h = h
  All-drop (suc n) [] h = tt
  All-drop (suc n) (s ∷ ss) h = All-drop n ss h.1

  pub All-parts : (n : ℕ) (ss : List Session) → All P (take n ss) → All P (drop n ss) → All P ss
  All-parts zero ss h g = g
  All-parts (suc n) [] h g = tt
  All-parts (suc n) (s ∷ ss) h g = (h.0, All-parts n ss h.1 g)

pub All-mono {ℓ κ} :
    (P : Session → Type ℓ) (Q : Session → Type κ) (ss : List Session)
    → ((s : Session) → P s → Q s)
    → All P ss
    → All Q ss
All-mono P Q [] f h = tt
All-mono P Q (s ∷ ss) f h = (f s h.0, All-mono P Q ss f h.1)

module _ {ℓ} (P : Session → Type ℓ) (less : Session → Session → Bool) where
  All-put_in : (s : Session) (ss : List Session) → P s → All P ss → All P (put_in less s ss)
  unfolding put_in
  All-put_in s [] p h = (p, tt)
  All-put_in s (t ∷ ts) p h = elim (Bool-cases (less t s)) [
    | inl q ↦ rw q (h.0, All-put_in s ts p h.1)
    | inr q ↦ rw q (p, h)
  ]

  put_in-All : (s : Session) (ss : List Session) → All P (put_in less s ss) → P s × All P ss
  unfolding put_in
  put_in-All s [] h = h
  put_in-All s (t ∷ ts) h = elim (Bool-cases (less t s)) [
    | inl q ↦ let g = rw q at h in let (p, rest) = put_in-All s ts g.1 in (p, (g.0, rest))
    | inr q ↦ rw q at h
  ]

  pub All-sort_slice : (ss : List Session) → All P ss → All P (sort_slice less ss)
  unfolding sort_slice
  All-sort_slice [] h = tt
  All-sort_slice (s ∷ ss) h = All-put_in s (sort_slice less ss) h.0 (All-sort_slice ss h.1)

  pub sort_slice-All : (ss : List Session) → All P (sort_slice less ss) → All P ss
  unfolding sort_slice
  sort_slice-All [] h = tt
  sort_slice-All (s ∷ ss) h =
      let (p, rest) = put_in-All s (sort_slice less ss) h in (p, sort_slice-All ss rest)

module _ (less : Session → Session → Bool) where
  length-put_in : (s : Session) (ss : List Session) → length (put_in less s ss) ≡ suc (length ss)
  unfolding put_in
  length-put_in s [] = refl
  length-put_in s (t ∷ ts) = elim (Bool-cases (less t s)) [
    | inl q ↦ rw q (omega (arith, length-put_in s ts))
    | inr q ↦ rw q refl
  ]

  pub length-sort_slice : (ss : List Session) → length (sort_slice less ss) ≡ length ss
  unfolding sort_slice
  length-sort_slice [] = refl
  length-sort_slice (s ∷ ss) = rw (length-put_in s (sort_slice less ss), length-sort_slice ss) refl

-- No two sessions of the list have the same identifier.
abbrev pub Lacks : String → List Session → Type 0
Lacks id ss = All (λ s. s.id ≢ id) ss

abbrev pub IsDistinct : List Session → Type 0
IsDistinct [] = Unit
IsDistinct (s ∷ ss) = Lacks s.id ss × IsDistinct ss

put_in-IsDistinct :
    (less : Session → Session → Bool) (s : Session) (ss : List Session)
    → Lacks s.id ss
    → IsDistinct ss
    → IsDistinct (put_in less s ss)
unfolding put_in
put_in-IsDistinct less s [] h d = (tt, tt)
put_in-IsDistinct less s (t ∷ ts) h d = elim (Bool-cases (less t s)) [
  | inl q ↦ rw q (
    All-put_in (λ u. u.id ≢ t.id) less s ts (λ e. h.0 (sym e)) d.0,
    put_in-IsDistinct less s ts h.1 d.1,
  )
  | inr q ↦ rw q (h, d)
]

pub sort_slice-IsDistinct :
    (less : Session → Session → Bool) (ss : List Session)
    → IsDistinct ss
    → IsDistinct (sort_slice less ss)
unfolding sort_slice
sort_slice-IsDistinct less [] d = tt
sort_slice-IsDistinct less (s ∷ ss) d =
    put_in-IsDistinct less s (sort_slice less ss) (All-sort_slice (λ t. t.id ≢ s.id) less ss d.0)
      (sort_slice-IsDistinct less ss d.1)

pub drop-IsDistinct : (n : ℕ) (ss : List Session) → IsDistinct ss → IsDistinct (drop n ss)
drop-IsDistinct zero ss d = d
drop-IsDistinct (suc n) [] d = tt
drop-IsDistinct (suc n) (s ∷ ss) d = drop-IsDistinct n ss d.1

-- Every later session of the list is seen no later.
abbrev pub IsNewestFirst : List Session → Type 0
IsNewestFirst [] = Unit
IsNewestFirst (s ∷ ss) = All (λ t. t.last_seen_at ≤ s.last_seen_at) ss × IsNewestFirst ss

before→le : (s t : Session) → goes_before t s ≡ true → s.last_seen_at ≤ t.last_seen_at
unfolding goes_before
before→le s t h = ground arith

not_before→le : (s t : Session) → goes_before t s ≡ false → t.last_seen_at ≤ s.last_seen_at
unfolding goes_before
not_before→le s t h = ground arith

put_in-IsNewestFirst :
    (s : Session) (ss : List Session) → IsNewestFirst ss → IsNewestFirst (put_in goes_before s ss)
unfolding put_in
put_in-IsNewestFirst s [] h = (tt, tt)
put_in-IsNewestFirst s (t ∷ ts) h = elim (Bool-cases (goes_before t s)) [
  | inl q ↦ rw q (
    All-put_in (λ u. u.last_seen_at ≤ t.last_seen_at) goes_before s ts (before→le s t q) h.0,
    put_in-IsNewestFirst s ts h.1,
  )
  | inr q ↦ rw q (
    (
      not_before→le s t q,
      All-mono (λ u. u.last_seen_at ≤ t.last_seen_at) (λ u. u.last_seen_at ≤ s.last_seen_at) ts
          (λ u g. let k = not_before→le s t q in omega arith) h.0,
    ),
    h,
  )
]

pub sort_slice-IsNewestFirst : (ss : List Session) → IsNewestFirst (sort_slice goes_before ss)
unfolding sort_slice
sort_slice-IsNewestFirst [] = tt
sort_slice-IsNewestFirst (s ∷ ss) =
    put_in-IsNewestFirst s (sort_slice goes_before ss) (sort_slice-IsNewestFirst ss)

-- What `drop` leaves is seen no later than what `take` takes.
pub take-drop-le :
    (n : ℕ) (ss : List Session)
    → IsNewestFirst ss
    → All (λ t. All (λ s. s.last_seen_at ≤ t.last_seen_at) (drop n ss)) (take n ss)
take-drop-le zero ss h = tt
take-drop-le (suc n) [] h = tt
take-drop-le (suc n) (s ∷ ss) h =
    (All-drop (λ t. t.last_seen_at ≤ s.last_seen_at) n ss h.0, take-drop-le n ss h.1)
