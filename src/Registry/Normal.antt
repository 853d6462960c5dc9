-- ===== src/Registry/Normal.antt =====
-- `PickPort` does not depend on the order in which Go iterates over the map.
use anito.Prelude.{
  ℕ, String, ◌≡◌, refl, sym, ◌∙◌, ◌≢◌, ◌⊎◌, inl, inr, Bool, true, false, none, some, [], ◌∷◌, arith,
  ◌==◌, text_comparable, str_lt, str_lt_total, str_lt_trans, str_lt_irrefl, nil-str_lt, Bool-cases,
  ==_of_ne, ==_refl, if◌then◌else◌,
}
use text.Mathlib.TextEquality.{eq_iff}
use anito.Assoc.{lookup}
use anito.Assoc.Keys.{SameMap}
use anito.Registry.Types.{Ports}
use anito.Registry.Ports.{first_key, default_or_first, pick_port, port_at}

abbrev HasKey : String → Ports → Type 0
HasKey k m = lookup k m ≢ none

-- The least key of a map.
pub record IsFirst (k : String) (m : Ports) : Type 0 where
  pub present : HasKey k m
  pub least : (j : String) → HasKey j m → str_lt j k ≡ false

not_lt : (b : Bool) → ¬ (b ≡ true) → b ≡ false
not_lt true h = absurd (h refl)
not_lt false h = refl

str_lt_of_not-lt : (k r f : String) → str_lt k r ≡ true → str_lt f r ≡ false → str_lt k f ≡ true
str_lt_of_not-lt k r f p q = elim (Bool-cases (str_lt r f)) [
  | inl h ↦ str_lt_trans k r f p h
  | inr h ↦ subst_right (str_lt_total r f h q)
]
  where
    subst_right : r ≡ f → str_lt k f ≡ true
    subst_right e = rw e at p

record Smallest (f r : String) (m : Ports) : Type 0 where
  found : (r ≡ f) ⊎ HasKey r m
  start : str_lt f r ≡ false
  below : (j : String) → HasKey j m → str_lt j r ≡ false

HasKey-cons : (k j : String) (p : ℕ) (m : Ports) → HasKey j m → HasKey j ((k, p) ∷ m)
unfolding lookup
HasKey-cons k j p m h e = elim (Bool-cases (k == j)) [
  | inl q ↦ cc (rw q at e)
  | inr q ↦ h (rw q at e)
]

HasKey-cons_self : (k : String) (p : ℕ) (m : Ports) → HasKey k ((k, p) ∷ m)
unfolding lookup
HasKey-cons_self k p m e = cc (rw (==_refl k) at e)

HasKey-inv : (k j : String) (p : ℕ) (m : Ports) → HasKey j ((k, p) ∷ m) → (k ≡ j) ⊎ HasKey j m
unfolding lookup
HasKey-inv k j p m h = elim (Bool-cases (k == j)) [
  | inl q ↦ inl ((eq_iff k j).0 q)
  | inr q ↦ inr (λ e. h (rw q e))
]

Smallest-cons :
    (f r k : String) (p : ℕ) (m : Ports)
    → Smallest (if str_lt k f then k else f) r m
    → Smallest f r ((k, p) ∷ m)
Smallest-cons f r k p m s = elim (Bool-cases (str_lt k f)) [
  | inl q ↦
      let t : Smallest k r m = rw q at s in
      record {
        found = elim t.found [
          | inl e ↦ inr (rw e (HasKey-cons_self k p m))
          | inr h ↦ inr (HasKey-cons k r p m h)
        ];
        start = not_lt _ (λ h. cc (str_lt_trans k f r q h, t.start));
        below =
            λ j h. elim (HasKey-inv k j p m h) [ inl e ↦ rw (← e) t.start | inr g ↦ t.below j g ];
      }
  | inr q ↦
      let t : Smallest f r m = rw q at s in
      record {
        found = elim t.found [ inl e ↦ inl e | inr h ↦ inr (HasKey-cons k r p m h) ];
        start = t.start;
        below = λ j h. elim (HasKey-inv k j p m h) [
          | inl e ↦ rw (← e) (not_lt _ (λ g. cc (str_lt_of_not-lt k r f g t.start, q)))
          | inr g ↦ t.below j g
        ];
      }
]

first_key-cons :
    (f k : String) (p : ℕ) (m : Ports)
    → f ≢ ""
    → first_key f ((k, p) ∷ m) ≡ first_key (if str_lt k f then k else f) m
unfolding first_key
first_key-cons f k p m h = rw (==_of_ne f "" h)

no_empty-cons :
    (k : String) (p : ℕ) (m : Ports)
    → lookup "" ((k, p) ∷ m) ≡ none
    → (k ≢ "") × (lookup "" m ≡ none)
unfolding lookup
no_empty-cons k p m u = ground (arith, eq_iff k "")

choice_ne : (b : Bool) (k f : String) → k ≢ "" → f ≢ "" → (if b then k else f) ≢ ""
choice_ne true k f h g = h
choice_ne false k f h g = g

-- With no empty key, the loop ends at the least of its start and the keys.
first_key-Smallest :
    (f : String) (m : Ports) → f ≢ "" → lookup "" m ≡ none → Smallest f (first_key f m) m
first_key-Smallest f [] h u =
    unfold first_key lookup in
    record { found = inl refl; start = str_lt_irrefl f; below = λ j g. absurd (g refl) }
first_key-Smallest f ((k, p) ∷ m) h u =
    let (g, v) = no_empty-cons k p m u in
    rw (first_key-cons f k p m h) (
      Smallest-cons f (first_key (if str_lt k f then k else f) m) k p m
        (first_key-Smallest (if str_lt k f then k else f) m (choice_ne (str_lt k f) k f g h) v))

-- With no empty key, the loop of `PickPort` finds the least key of a map that is not empty.
pub first_key-IsFirst :
    (k : String) (p : ℕ) (m : Ports)
    → lookup "" ((k, p) ∷ m) ≡ none
    → IsFirst (first_key "" ((k, p) ∷ m)) ((k, p) ∷ m)
first_key-IsFirst k p m u =
    let (g, v) = no_empty-cons k p m u in
    let s = first_key-Smallest k m g v in
    unfold first_key in
    record {
      present = elim s.found [
        | inl e ↦ rw e (HasKey-cons_self k p m)
        | inr h ↦ HasKey-cons k (first_key k m) p m h
      ];
      least = λ j h. elim (HasKey-inv k j p m h) [ inl e ↦ rw (← e) s.start | inr i ↦ s.below j i ];
    }

pub IsFirst-unique :
    (m m' : Ports) (k k' : String) → SameMap m m' → IsFirst k m → IsFirst k' m' → k ≡ k'
IsFirst-unique m m' k k' h a b =
    str_lt_total k k' (b.least k (λ e. a.present (h k ∙ e)))
      (a.least k' (λ e. b.present (sym (h k') ∙ e)))

SameMap-nil : (k : String) (p : ℕ) (m : Ports) → ¬ SameMap [] ((k, p) ∷ m)
SameMap-nil k p m h = HasKey-cons_self k p m (sym (h k) ∙ (unfold lookup in refl))

SameMap-nil' : (k : String) (p : ℕ) (m : Ports) → ¬ SameMap ((k, p) ∷ m) []
SameMap-nil' k p m h = HasKey-cons_self k p m (h k ∙ (unfold lookup in refl))

default_or_first-same :
    (k k' : String) (p p' : ℕ) (m m' : Ports)
    → SameMap ((k, p) ∷ m) ((k', p') ∷ m')
    → lookup "" ((k, p) ∷ m) ≡ none
    → default_or_first ((k, p) ∷ m) ≡ default_or_first ((k', p') ∷ m')
unfolding default_or_first
default_or_first-same k k' p p' m m' h u = ground (
  arith,
  h "default",
  h (first_key "" ((k, p) ∷ m)),
  IsFirst-unique _ _ _ _ h (first_key-IsFirst k p m u)
      (first_key-IsFirst k' p' m' (sym (h "") ∙ u)),
)

-- Two maps with the same entries, in any iteration orders, give the same primary port, whatever
-- the health-check port is called, provided that no port has the empty name.
pub pick_port-SameMap :
    (m m' : Ports) (hc : String)
    → SameMap m m'
    → lookup "" m ≡ none
    → pick_port m hc ≡ pick_port m' hc
unfolding pick_port
pick_port-SameMap [] [] hc h u = refl
pick_port-SameMap [] ((k, p) ∷ m) hc h u = absurd (SameMap-nil k p m h)
pick_port-SameMap ((k, p) ∷ m) [] hc h u = absurd (SameMap-nil' k p m h)
pick_port-SameMap ((k, p) ∷ m) ((k', p') ∷ m') hc h u =
    ground (arith, h hc, default_or_first-same k k' p p' m m' h u)

default_or_first-absent :
    (m : Ports) (k : String) (p : ℕ)
    → lookup "default" m ≡ none
    → first_key "" m ≡ k
    → lookup k m ≡ some p
    → default_or_first m ≡ p
unfolding default_or_first
default_or_first-absent m k p d f e = rw (d, default_or_first) (rw (f, e, port_at) refl)

-- Where a port does have the empty name and another has a name that is neither empty nor "default",
-- the primary port is the one that Go's iteration happens to reach last.
pub pick_port_order :
    (k : String) (p q : ℕ)
    → k ≢ ""
    → k ≢ "default"
    → (pick_port (("", p) ∷ (k, q) ∷ []) "" ≡ q) × (pick_port ((k, q) ∷ ("", p) ∷ []) "" ≡ p)
unfolding pick_port first_key lookup
pick_port_order k p q h g = (
  default_or_first-absent (("", p) ∷ (k, q) ∷ []) k q (rw (==_of_ne k "default" g)) refl
      (rw (==_of_ne "" k (λ e. h (sym e)), ==_refl k)),
  default_or_first-absent ((k, q) ∷ ("", p) ∷ []) "" p (rw (==_of_ne k "default" g))
      (rw (==_of_ne k "" h, nil-str_lt k h)) (rw (==_of_ne k "" h)),
)
