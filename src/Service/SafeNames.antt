-- ===== src/Service/SafeNames.antt =====
-- What a valid name is safe for: it is one segment of a path, and its keys are its own.
use Prim.Native.Char.{Char, code}
use Prim.Native.String.{[] as nil, ◌∷◌ as cons, ◌++◌ as append, len}
use anito.Prelude.{
  ℕ, ◌≤◌, ◌≡◌, refl, sym, ap, ◌∙◌, ==_refl, ltb→le, ◌≢◌, inl, inr, String, Bool, true, false, ◌||◌,
  none, arith, ltb, ◌==◌, ℕ_comparable, text_comparable, Bool-cases, ==_of_ne, ne_of_==,
}
use text.Mathlib.TextLemmas.{append_cancel_left}
use anito.Proxy.Keys.{has_colon, has_prefix, entry_key, service_prefix, has_prefix-entry_key}
use anito.Service.Names.{
  validate_service_name, is_service_name_char, is_service_name_alpha_num, all_chars, contains,
  starts_well, tail,
}

-- No character of the text has the code.
unfoldable pub has_code : ℕ → String → Bool
has_code n nil = false
has_code n (cons c s) = code c == n || has_code n s

first_code : String → ℕ
first_code nil = 0
first_code (cons c s) = code c

code-colon : (c : Char) → cons c nil ≡ ":" → code c ≡ 58
unfolding first_code
code-colon c h = ap first_code h

name_char-code : (c : Char) → is_service_name_char c ≡ true → (code c ≢ 58) × (code c ≢ 47)
unfolding is_service_name_char is_service_name_alpha_num
name_char-code c h = (λ e. ground arith, λ e. ground arith)

alpha_num-name_char :
    (c : Char) → is_service_name_alpha_num c ≡ true → is_service_name_char c ≡ true
unfolding is_service_name_char
alpha_num-name_char c h = rw h refl

-- Neither a colon nor a slash.
abbrev pub IsSegment : String → Type 0
IsSegment s = (has_colon s ≡ false) × (has_code 47 s ≡ false)

cons-IsSegment :
    (c : Char) (s : String) → is_service_name_char c ≡ true → IsSegment s → IsSegment (cons c s)
unfolding has_colon has_code
cons-IsSegment c s h (p, q) =
    let (a, b) = name_char-code c h in
    (rw (==_of_ne (cons c nil) ":" (λ e. a (code-colon c e))) p, rw (==_of_ne (code c) 47 b) q)

all_chars-IsSegment : (s : String) → all_chars is_service_name_char s ≡ true → IsSegment s
unfolding all_chars
all_chars-IsSegment nil h = (unfold has_colon in refl, unfold has_code in refl)
all_chars-IsSegment (cons c s) h = elim (Bool-cases (is_service_name_char c)) [
  | inl p ↦ cons-IsSegment c s p (all_chars-IsSegment s (rw p at h))
  | inr p ↦ cc (rw p at h)
]

starts_well-IsSegment :
    (s : String)
    → starts_well s ≡ true
    → all_chars is_service_name_char (tail s) ≡ true
    → IsSegment s
unfolding starts_well tail
starts_well-IsSegment nil h t = cc h
starts_well-IsSegment (cons c s) h t =
    cons-IsSegment c s (alpha_num-name_char c h) (all_chars-IsSegment s t)

-- The tests that a valid name has passed.
validated :
    (name : String)
    → validate_service_name name ≡ none
    → (name == "" ≡ false)
      × (has_prefix name "~daemon" ≡ false)
      × (ltb 64 (len name) ≡ false)
      × (contains name ".." ≡ false)
      × (starts_well name ≡ true)
      × (all_chars is_service_name_char (tail name) ≡ true)
unfolding validate_service_name
validated name h = ground arith

-- A name that `ValidateServiceName` accepts.
pub record IsSafeName (name : String) : Type 0 where
  pub present : name ≢ ""
  pub own : has_prefix name "~daemon" ≡ false
  pub short : len name ≤ 64
  pub stays : contains name ".." ≡ false
  pub segment : IsSegment name

-- A name that is accepted is not empty, does not begin with the reserved name, has at most 64
-- bytes, and holds no "..", no colon and no slash.
pub validate_service_name-IsSafeName :
    (name : String) → validate_service_name name ≡ none → IsSafeName name
validate_service_name-IsSafeName name h =
    let (a, b, c, d, e, f) = validated name h in
    record {
      present = ne_of_== name "" a;
      own = b;
      short = ltb→le 64 (len name) c;
      stays = d;
      segment = starts_well-IsSegment name e f;
    }

-- Two entries of services with valid names that have the same key are of one service and one port.
pub entry_key_injective :
    (s t p q : String)
    → validate_service_name s ≡ none
    → validate_service_name t ≡ none
    → entry_key s p ≡ entry_key t q
    → (s ≡ t) × (p ≡ q)
unfolding entry_key
entry_key_injective s t p q a b h =
    let same : s ≡ t = (text_comparable.same_iff s t).0 (
      sym (has_prefix-entry_key s p t (colon_free s a) (colon_free t b))
      ∙ ap (λ k. has_prefix k (service_prefix t)) h
      ∙ has_prefix-entry_key t q t (colon_free t b) (colon_free t b)
      ∙ ==_refl t) in
    (same, append_cancel_left (append t ":") p q (rw same at h))
  where
    colon_free : (name : String) → validate_service_name name ≡ none → has_colon name ≡ false
    colon_free name v = (validate_service_name-IsSafeName name v).segment.0
