-- ===== src/Text/Trim.antt =====
-- `strings.TrimSpace`, `strings.TrimPrefix` and `strings.TrimSuffix` with a suffix of one character.
use Prim.Native.Char.{Char, code}
use Prim.Native.String.{[] as nil, ◌∷◌ as cons}
use anito.Prelude.{
  String, ◌≡◌, refl, Bool, ◌&&◌, ◌||◌, leb, ◌==◌, ℕ_comparable, text_comparable, if◌then◌else◌,
}

-- `unicode.IsSpace`: the code points with the property White_Space.
unfoldable pub is_space : Char → Bool
is_space c =
    leb 9 (code c) && leb (code c) 13
    || code c == 32
    || code c == 0x85
    || code c == 0xA0
    || code c == 0x1680
    || leb 0x2000 (code c) && leb (code c) 0x200A
    || code c == 0x2028
    || code c == 0x2029
    || code c == 0x202F
    || code c == 0x205F
    || code c == 0x3000

unfoldable pub trim_left : String → String
trim_left nil = nil
trim_left (cons c s) = if is_space c then trim_left s else cons c s

-- A character stays if it is no space or anything after it stays.
unfoldable pub trim_right : String → String
trim_right nil = nil
trim_right (cons c s) =
    let rest = trim_right s in if is_space c && rest == "" then nil else cons c rest

unfoldable pub trim_space : String → String
unfolding trim_left trim_right
trim_space s = trim_right (trim_left s)

unfoldable pub trim_prefix_char : Char → String → String
trim_prefix_char p nil = nil
trim_prefix_char p (cons c s) = if code c == code p then s else cons c s

unfoldable pub trim_suffix_char : Char → String → String
trim_suffix_char p nil = nil
trim_suffix_char p (cons c nil) = if code c == code p then nil else cons c nil
trim_suffix_char p (cons c (cons d s)) = cons c (trim_suffix_char p (cons d s))

trims : trim_space "  a b\t\n" ≡ "a b"
unfolding trim_space is_space
trims = refl
