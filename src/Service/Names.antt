-- ===== src/Service/Names.antt =====
-- internal/service/service.go: ValidateServiceName.
-- A character above 127 is several bytes in Go's string, none of which the loop allows: a loop over
-- characters refuses the same names.
use Prim.Native.Char.{Char, code}
use Prim.Native.String.{[] as nil, ◌∷◌ as cons, len}
use anito.Prelude.{
  ℕ, String, not, Bool, true, false, ◌&&◌, ◌||◌, Option, none, some, leb, ltb, ◌==◌, ℕ_comparable,
  text_comparable, if◌then◌else◌,
}
use anito.Proxy.Keys.{has_prefix}

abbrev pub daemon_log_name : String
daemon_log_name = "~daemon"

abbrev pub within : ℕ → ℕ → Char → Bool
within low high c = leb low (code c) && leb (code c) high

-- `a`-`z`, `A`-`Z` and `0`-`9`.
unfoldable pub is_service_name_alpha_num : Char → Bool
is_service_name_alpha_num c = within 97 122 c || within 65 90 c || within 48 57 c

-- Those and `.`, `_` and `-`.
unfoldable pub is_service_name_char : Char → Bool
is_service_name_char c = is_service_name_alpha_num c || code c == 46 || code c == 95 || code c == 45

unfoldable pub all_chars : (Char → Bool) → String → Bool
all_chars test nil = true
all_chars test (cons c s) = test c && all_chars test s

-- `strings.Contains`.
unfoldable pub contains : String → String → Bool
contains nil t = has_prefix nil t
contains (cons c s) t = has_prefix (cons c s) t || contains s t

pub data NameError : Type 0 where
  required reserved too_long has_dots bad_start bad_character : NameError

unfoldable pub starts_well : String → Bool
starts_well nil = false
starts_well (cons c s) = is_service_name_alpha_num c

unfoldable pub tail : String → String
tail nil = nil
tail (cons c s) = s

-- `none` is the nil error.
unfoldable pub validate_service_name : String → Option NameError
validate_service_name name =
    if name == ""
    then some required
    else if has_prefix name daemon_log_name
    then some reserved
    else if ltb 64 (len name)
    then some too_long
    else if contains name ".."
    then some has_dots
    else if not (starts_well name)
    then some bad_start
    else if all_chars is_service_name_char (tail name)
    then none
    else some bad_character
