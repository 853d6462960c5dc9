-- ===== src/Proxy/Keys.antt =====
-- internal/proxy/proxy.go: the keys "service:port" and the prefix that finds a service's entries.
use Prim.Native.String.{◌++◌ as append, [] as nil, ◌∷◌ as cons}
use Prim.Native.Char.{Char}
use Prim.Native.String.append as appends
use anito.Prelude.{
  String, Bool, true, false, ◌≡◌, refl, ◌&&◌, ◌||◌, ◌==◌, text_comparable, ==_refl, Bool-cases, inl,
  inr, ne_of_==, sym, ap, ◌≢◌,
}

-- `strings.HasPrefix`.
unfoldable pub has_prefix : String → String → Bool
has_prefix s nil = true
has_prefix nil (cons d p) = false
has_prefix (cons c s) (cons d p) = cons c nil == cons d nil && has_prefix s p

unfoldable pub entry_key : String → String → String
entry_key service port_name = append (append service ":") port_name

unfoldable pub service_prefix : String → String
service_prefix service = append service ":"

-- What a service's name may not hold, so that keys do not collide.
unfoldable pub has_colon : String → Bool
has_colon nil = false
has_colon (cons c s) = cons c nil == ":" || has_colon s

pub has_prefix-append : (s t : String) → has_prefix (append s t) s ≡ true
unfolding has_prefix
has_prefix-append nil t = refl
has_prefix-append (cons c s) t =
    rw (appends.cons c s t, ==_refl (cons c nil)) (has_prefix-append s t)

has_prefix-cons :
    (c d : Char) (s p : String)
    → has_prefix (cons c s) (cons d p) ≡ true
    → (cons c nil ≡ cons d nil) × (has_prefix s p ≡ true)
unfolding has_prefix
has_prefix-cons c d s p h = elim (Bool-cases (cons c nil == cons d nil)) [
  | inl q ↦ ((text_comparable.same_iff (cons c nil) (cons d nil)).0 q, rw q at h)
  | inr q ↦ cc (rw q at h)
]

has_colon-cons :
    (c : Char) (s : String)
    → has_colon (cons c s) ≡ false
    → (cons c nil ≢ ":") × (has_colon s ≡ false)
unfolding has_colon
has_colon-cons c s h = elim (Bool-cases (cons c nil == ":")) [
  | inl q ↦ cc (rw q at h)
  | inr q ↦ (ne_of_== (cons c nil) ":" q, rw q at h)
]

cons_same : (c d : Char) (s n : String) → cons c nil ≡ cons d nil → s ≡ n → cons c s ≡ cons d n
cons_same c d s n p q =
    let r : append (cons c nil) s ≡ append (cons d nil) s = ap (λ t. append t s) p in
    cc (r, q, appends.cons c nil s, appends.cons d nil s, appends.nil s)

append-colon : (p : String) → append ":" p ≡ cons ":" p
append-colon p = cc (appends.cons ":" nil p, appends.nil p)

key-cons :
    (c : Char) (s p : String) → append (append (cons c s) ":") p ≡ cons c (append (append s ":") p)
key-cons c s p = cc (appends.cons c s ":", appends.cons c (append s ":") p)

-- Before the first colon stands the service's name.
has_prefix-same :
    (s n p : String)
    → has_colon s ≡ false
    → has_colon n ≡ false
    → has_prefix (append (append s ":") p) (append n ":") ≡ true
    → s ≡ n
unfolding has_prefix has_colon
has_prefix-same nil nil p a b h = refl
has_prefix-same nil (cons d n) p a b h = absurd (
    (has_colon-cons d n b).0 (
      sym
        (has_prefix-cons ":" d p (append n ":")
          (rw (append-colon p, appends.cons d n ":") at h)).0))
has_prefix-same (cons c s) nil p a b h = absurd (
    (has_colon-cons c s a).0
      (has_prefix-cons c ":" (append (append s ":") p) nil (rw (key-cons c s p) at h)).0)
has_prefix-same (cons c s) (cons d n) p a b h =
    let (q, r) =
      has_prefix-cons c d (append (append s ":") p) (append n ":")
        (rw (key-cons c s p, appends.cons d n ":") at h) in
    cons_same c d s n q (has_prefix-same s n p (has_colon-cons c s a).1 (has_colon-cons d n b).1 r)

-- An entry's key has a service's prefix exactly if it is the service's.
pub has_prefix-entry_key :
    (service port_name other : String)
    → has_colon service ≡ false
    → has_colon other ≡ false
    → has_prefix (entry_key service port_name) (service_prefix other) ≡ (service == other)
unfolding entry_key service_prefix
has_prefix-entry_key service port_name other a b = elim (Bool-cases (service == other)) [
  | inl p ↦
      rw (p, (text_comparable.same_iff service other).0 p)
        (has_prefix-append (append other ":") port_name)
  | inr p ↦
      elim (Bool-cases (has_prefix (append (append service ":") port_name) (append other ":"))) [
        | inl q ↦ absurd (ne_of_== service other p (has_prefix-same service other port_name a b q))
        | inr q ↦ rw (p, q) refl
      ]
]
