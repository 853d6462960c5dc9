-- ===== src/Auth/Trimmed.antt =====
-- Trimming a string that is trimmed, and a line of characters that are no spaces.
use Prim.Native.Char.{Char}
use Prim.Native.String.{[] as nil, ◌∷◌ as cons, ◌++◌ as append}
use Prim.Native.String.append as appends
use anito.Prelude.{
  String, ◌≡◌, refl, ap, ◌∙◌, inl, inr, false, ◌&&◌, ◌==◌, ℕ_comparable, text_comparable,
  Bool-cases,
}
use anito.Text.Trim.{is_space, trim_left, trim_right, trim_space}

trim_right_idem : (s : String) → trim_right (trim_right s) ≡ trim_right s
unfolding trim_right
trim_right_idem nil = refl
trim_right_idem (cons c s) = elim (Bool-cases (is_space c && trim_right s == "")) [
  | inl e ↦ rw e refl
  | inr e ↦ rw (e, trim_right_idem s, e) refl
]

trim_right-keeps :
    (c : Char) (s : String) → is_space c ≡ false → trim_right (cons c s) ≡ cons c (trim_right s)
unfolding trim_right
trim_right-keeps c s h = rw h refl

-- What `trim_left` leaves begins with no space.
trim_left-trim_right :
    (s : String) → trim_left (trim_right (trim_left s)) ≡ trim_right (trim_left s)
unfolding trim_left trim_right
trim_left-trim_right nil = refl
trim_left-trim_right (cons c s) = elim (Bool-cases (is_space c)) [
  | inl e ↦ rw e (trim_left-trim_right s)
  | inr e ↦ rw (e, e, e) refl
]

pub trim_space_idem : (s : String) → trim_space (trim_space s) ≡ trim_space s
unfolding trim_space
trim_space_idem s = ap trim_right (trim_left-trim_right s) ∙ trim_right_idem (trim_left s)

-- No character is a space, and there is one.
abbrev pub HasNoSpace : String → Type 0
HasNoSpace nil = Unit
HasNoSpace (cons c s) = (is_space c ≡ false) × HasNoSpace s

line_is_trimmed : (s : String) → HasNoSpace s → trim_right (append s "\n") ≡ s
unfolding trim_right is_space
line_is_trimmed nil h = refl
line_is_trimmed (cons c s) (a, b) =
    rw (appends.cons c s "\n")
      (trim_right-keeps c (append s "\n") a ∙ ap (cons c) (line_is_trimmed s b))

pub trim_space-line : (s : String) → HasNoSpace s → trim_space (append s "\n") ≡ s
unfolding trim_space trim_left is_space trim_right
trim_space-line nil h = refl
trim_space-line (cons c s) (a, b) =
    rw (appends.cons c s "\n", a)
      (trim_right-keeps c (append s "\n") a ∙ ap (cons c) (line_is_trimmed s b))
