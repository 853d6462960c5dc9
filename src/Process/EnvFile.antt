-- ===== src/Process/EnvFile.antt =====
-- internal/process/process.go: parseEnvLine, splitLines and loadEnvFile without the reading of the file.
use Prim.Native.Char.{Char, code}
use Prim.Native.String.{[] as nil, ◌∷◌ as cons, ◌++◌ as append}
use mathlib.Core.Option
use anito.Prelude.{
  ℕ, suc, String, Bool, false, ◌||◌, Option, none, some, List, [], ◌∷◌, ◌==◌, ℕ_comparable,
  text_comparable, if◌then◌else◌,
}
use anito.Proxy.Keys.{has_prefix}
use anito.Text.Trim.{trim_space}

-- `strings.TrimPrefix`, for the two prefixes of seven characters.
unfoldable pub drop_seven : String → String
drop_seven (cons a (cons b (cons c (cons d (cons e (cons f (cons g s))))))) = s
drop_seven s = s

abbrev pub trim_export : String → String → String
trim_export prefix s = if has_prefix s prefix then drop_seven s else s

-- What stands before and after the first `=`.
unfoldable pub cut_at_equals : String → Option (String × String)
cut_at_equals nil = none
cut_at_equals (cons c s) =
    let rest = cut_at_equals s in
    if code c == 61
    then some ("", s)
    else Option.map (λ (p : String × String). (cons c p.0, p.1)) rest

-- Space, tab, carriage return, newline and `=`.
unfoldable pub has_blank : String → Bool
has_blank nil = false
has_blank (cons c s) =
    code c == 32 || code c == 9 || code c == 13 || code c == 10 || code c == 61 || has_blank s

-- The string without its last character, if that is `q`.
unfoldable pub without_last : ℕ → String → Option String
without_last q nil = none
without_last q (cons c nil) = if code c == q then some "" else none
without_last q (cons c (cons d s)) =
    Option.map (λ (r : String). cons c r) (without_last q (cons d s))

abbrev pub or_whole : String → Option String → String
or_whole s none = s
or_whole s (some r) = r

-- The quotes go, double or single, if there is one at either end.
unfoldable pub unquote : String → String
unfolding without_last
unquote nil = ""
unquote (cons c s) =
    if code c == 34 || code c == 39 then or_whole (cons c s) (without_last (code c) s) else cons c s

pub data EnvLine : Type 0 where
  skipped invalid_entry invalid_key : EnvLine
  entry : String → EnvLine

unfoldable pub check_key : String → String → EnvLine
check_key key value =
    if key == "" || has_blank key
    then invalid_key
    else entry (append (append key "=") (unquote value))

-- `=` is not found, or it stands first.
unfoldable pub parse_cut : Option (String × String) → EnvLine
unfolding check_key
parse_cut none = invalid_entry
parse_cut (some (before, after)) =
    if before == "" then invalid_entry else check_key (trim_space before) (trim_space after)

unfoldable pub without_export : String → String
without_export s =
    if has_prefix s "export " || has_prefix s "export\t"
    then trim_space (trim_export "export\t" (trim_export "export " s))
    else s

unfoldable pub parse_env_line : String → EnvLine
unfolding parse_cut without_export cut_at_equals
parse_env_line line =
    let trimmed = trim_space line in
    if trimmed == "" || has_prefix trimmed "#"
    then skipped
    else parse_cut (cut_at_equals (without_export trimmed))

-- The first line, and the lines after it.
abbrev pub onto_first : Char → List String → List String
onto_first c [] = cons c nil ∷ []
onto_first c (l ∷ ls) = cons c l ∷ ls

-- A text that ends in a newline has no line after it.
unfoldable pub split_lines : String → List String
split_lines nil = []
split_lines (cons c s) =
    let rest = split_lines s in if code c == 10 then "" ∷ rest else onto_first c rest

pub data EnvFile : Type 0 where
  vars : List String → EnvFile
  bad_line : ℕ → EnvLine → EnvFile

abbrev pub with_var : String → EnvFile → EnvFile
with_var v (vars vs) = vars (v ∷ vs)
with_var v (bad_line i e) = bad_line i e

-- Line `i`, with what the lines after it give.
abbrev pub on_line : ℕ → EnvLine → EnvFile → EnvFile
on_line i skipped rest = rest
on_line i (entry v) rest = with_var v rest
on_line i invalid_entry rest = bad_line i invalid_entry
on_line i invalid_key rest = bad_line i invalid_key

-- The first line that is invalid, with its number, or all variables in order.
unfoldable pub load_lines : ℕ → List String → EnvFile
unfolding parse_env_line
load_lines i [] = vars []
load_lines i (line ∷ lines) =
    let rest = load_lines (suc i) lines in on_line i (parse_env_line line) rest

unfoldable pub load_env_text : String → EnvFile
unfolding load_lines split_lines
load_env_text text = load_lines 1 (split_lines text)
