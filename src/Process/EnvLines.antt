-- ===== src/Process/EnvLines.antt =====
-- internal/process/process.go: the lines of an environment file before the first that is invalid.
use Prim.Native.Char.{Char, code}
use Prim.Native.String.{[] as nil, ◌∷◌ as cons, ◌++◌ as append}
use Prim.Native.String.append as appends
use text.Mathlib.TextLemmas.{cons≢nil}
use anito.Prelude.{
  ℕ, suc, ◌+◌, String, true, false, List, [], ◌∷◌, ◌==◌, ℕ_comparable, ◌≡◌, ◌≢◌, refl, subst, ap,
  ◌∙◌, arith, length,
}
use anito.Text.Trim.{trim_space}
use anito.Process.EnvFile.{
  EnvLine, skipped, invalid_entry, invalid_key, entry, EnvFile, vars, bad_line, parse_env_line,
  on_line, split_lines, load_lines, load_env_text,
}

abbrev pub IsOneLine : String → Type 0
IsOneLine nil = Unit
IsOneLine (cons c s) = ((code c == 10) ≡ false) × IsOneLine s

abbrev pub IsInvalid : EnvLine → Type 0
IsInvalid skipped = ⊥
IsInvalid (entry v) = ⊥
IsInvalid invalid_entry = Unit
IsInvalid invalid_key = Unit

abbrev pub IsRead : EnvLine → Type 0
IsRead skipped = Unit
IsRead (entry v) = Unit
IsRead invalid_entry = ⊥
IsRead invalid_key = ⊥

-- What a valid line adds.
abbrev pub entry_of : EnvLine → List String → List String
entry_of skipped vs = vs
entry_of (entry v) vs = v ∷ vs
entry_of invalid_entry vs = vs
entry_of invalid_key vs = vs

abbrev pub entries : List String → List String
entries [] = []
entries (l ∷ ls) = entry_of (parse_env_line l) (entries ls)

-- Each is one line, and none is invalid.
abbrev pub AreRead : List String → Type 0
AreRead [] = Unit
AreRead (l ∷ ls) = IsOneLine l × IsRead (parse_env_line l) × AreRead ls

-- The text that begins with these lines and goes on with `rest`.
abbrev pub written : List String → String → String
written [] rest = rest
written (l ∷ ls) rest = append l (cons "\n" (written ls rest))

pub split_lines-written :
    (l rest : String) → IsOneLine l → split_lines (append l (cons "\n" rest)) ≡ l ∷ split_lines rest
unfolding split_lines
split_lines-written nil rest h = rw (appends.nil (cons "\n" rest)) refl
split_lines-written (cons c s) rest (a, b) =
    rw (appends.cons c s (cons "\n" rest), a, split_lines-written s rest b) refl

on_line-bad :
    (i : ℕ) (x : EnvLine) (k : ℕ) (y : EnvLine)
    → IsRead x
    → on_line i x (bad_line k y) ≡ bad_line k y
on_line-bad i skipped k y h = refl
on_line-bad i (entry v) k y h = refl
on_line-bad i invalid_entry k y h = absurd h
on_line-bad i invalid_key k y h = absurd h

on_line-invalid :
    (i : ℕ) (x : EnvLine) (rest : EnvFile) → IsInvalid x → on_line i x rest ≡ bad_line i x
on_line-invalid i skipped rest h = absurd h
on_line-invalid i (entry v) rest h = absurd h
on_line-invalid i invalid_entry rest h = refl
on_line-invalid i invalid_key rest h = refl

on_line-vars :
    (i : ℕ) (x : EnvLine) (vs : List String)
    → IsRead x
    → on_line i x (vars vs) ≡ vars (entry_of x vs)
on_line-vars i skipped vs h = refl
on_line-vars i (entry v) vs h = refl
on_line-vars i invalid_entry vs h = absurd h
on_line-vars i invalid_key vs h = absurd h

-- The end of the text, or a newline and what follows.
abbrev pub EndsLine : String → Type 0
EndsLine nil = Unit
EndsLine (cons c s) = (code c == 10) ≡ true

-- What follows a line that `rest` ends.
abbrev pub after : String → String
after nil = nil
after (cons c s) = s

-- A last line that no newline ends is a line too.
split_lines-last :
    (c : Char) (l : String)
    → (code c == 10) ≡ false
    → IsOneLine l
    → split_lines (cons c l) ≡ cons c l ∷ []
unfolding split_lines
split_lines-last c nil a b = rw a refl
split_lines-last c (cons d l) a (b, h) = rw (a, split_lines-last d l b h) refl

append-nil : (s : String) → append s nil ≡ s
append-nil nil = appends.nil nil
append-nil (cons c s) = appends.cons c s nil ∙ ap (cons c) (append-nil s)

split_lines-ended :
    (l rest : String)
    → IsOneLine l
    → l ≢ nil
    → EndsLine rest
    → split_lines (append l rest) ≡ l ∷ split_lines (after rest)
unfolding split_lines
split_lines-ended nil rest a n e = absurd (n refl)
split_lines-ended (cons c l) nil (a, b) n e = rw (append-nil (cons c l)) (split_lines-last c l a b)
split_lines-ended (cons c nil) (cons d rest) (a, b) n e =
    rw (appends.cons c nil (cons d rest), appends.nil (cons d rest), a, e) refl
split_lines-ended (cons c (cons k l)) (cons d rest) (a, b) n e =
    rw
      (
        appends.cons c (cons k l) (cons d rest),
        a,
        split_lines-ended (cons k l) (cons d rest) b (cons≢nil) e,
      )
      refl

not_empty : (l : String) → IsInvalid (parse_env_line l) → l ≢ nil
unfolding parse_env_line trim_space
not_empty l h e = subst (λ (s : String). IsInvalid (parse_env_line s)) e h

module _ (l rest : String) (one : IsOneLine l) (h : IsInvalid (parse_env_line l))
    (e : EndsLine rest) where
  load_lines-bad_line :
      (i : ℕ) (ls : List String)
      → AreRead ls
      → load_lines i (split_lines (written ls (append l rest)))
        ≡ bad_line (i + length ls) (parse_env_line l)
  unfolding load_lines
  load_lines-bad_line i [] r =
      rw
        (
          split_lines-ended l rest one (not_empty l h) e,
          on_line-invalid i (parse_env_line l) (load_lines (suc i) (split_lines (after rest))) h,
        )
        (ap (λ (k : ℕ). bad_line k (parse_env_line l)) (omega arith))
  load_lines-bad_line i (v ∷ ls) (a, b, c) =
      rw
        (
          split_lines-written v (written ls (append l rest)) a,
          load_lines-bad_line (suc i) ls c,
          on_line-bad i (parse_env_line v) (suc i + length ls) (parse_env_line l) b,
        )
        (ap (λ (k : ℕ). bad_line k (parse_env_line l)) (omega arith))

  -- A file whose first invalid line comes after the lines `ls`, each ended by a newline, is refused
  -- with what is wrong with that line and its number, counted from 1. The invalid line may be the
  -- last one with no newline after it, or be ended by a newline, whatever follows that.
  pub load_env_text-bad_line :
      (ls : List String)
      → AreRead ls
      → load_env_text (written ls (append l rest)) ≡ bad_line (1 + length ls) (parse_env_line l)
  unfolding load_env_text
  load_env_text-bad_line ls r = load_lines-bad_line 1 ls r

load_lines-entries :
    (i : ℕ) (ls : List String)
    → AreRead ls
    → load_lines i (split_lines (written ls nil)) ≡ vars (entries ls)
unfolding load_lines split_lines
load_lines-entries i [] r = refl
load_lines-entries i (v ∷ ls) (a, b, c) =
    rw (split_lines-written v (written ls nil) a, load_lines-entries (suc i) ls c)
      (on_line-vars i (parse_env_line v) (entries ls) b)

-- A file of valid lines, each ended by a newline, gives their entries in order, and nothing for a
-- blank line or a comment.
load_env_text-entries :
    (ls : List String) → AreRead ls → load_env_text (written ls nil) ≡ vars (entries ls)
unfolding load_env_text
load_env_text-entries ls r = load_lines-entries 1 ls r
