-- ===== src/Sessions/Keyed.antt =====
-- A map of sessions, each under its identifier, and what deleting some of them does.
use anito.Prelude.{
  suc, ◌+◌, String, ◌≡◌, refl, sym, ◌∙◌, ◌≢◌, inl, inr, true, none, some, List, [], ◌∷◌, Bool-cases,
  All, length, arith, ◌==◌, text_comparable, ℕ_comparable, ne_of_==, ==_of_ne,
}
use anito.Assoc.{lookup, delete, lookup-delete, lookup-delete_self, lookup-delete_ne}
use anito.Assoc.Keys.{IsUnique, lookup-delete-none, delete-IsUnique}
use anito.Assoc.Entries.{Entries, Entries-delete}
use anito.Sessions.Store.{Session, Sessions, sessions_of, delete_each}
use anito.Sessions.Order.{Lacks, IsDistinct}

-- A map of sessions, each under its identifier.
abbrev pub IsKeyed : Sessions → Type 0
IsKeyed m = IsUnique m × Entries (λ k s. s.id ≡ k) m

abbrev pub IsIn : Sessions → Session → Type 0
IsIn m s = lookup s.id m ≡ some s

lookup-cons_ne :
    (j k : String) (s : Session) (m : Sessions) → j ≢ k → lookup k ((j, s) ∷ m) ≡ lookup k m
unfolding lookup
lookup-cons_ne j k s m h = rw (==_of_ne j k h) refl

lookup-cons_self :
    (j k : String) (s : Session) (m : Sessions) → j ≡ k → lookup j ((k, s) ∷ m) ≡ some s
unfolding lookup
lookup-cons_self j k s m e = rw ((text_comparable.same_iff k j).1 (sym e)) refl

-- A key that is not in the map is no session's identifier.
sessions_of-Lacks :
    (k : String) (m : Sessions) → IsKeyed m → lookup k m ≡ none → Lacks k (sessions_of m)
unfolding sessions_of lookup
sessions_of-Lacks k [] v h = tt
sessions_of-Lacks k ((j, s) ∷ m) (u, e) h = elim (Bool-cases (j == k)) [
  | inl p ↦ cc (rw p at h)
  | inr p ↦ (λ q. ne_of_== j k p (sym e.0 ∙ q), sessions_of-Lacks k m (u.1, e.1) (rw p at h))
]

pub sessions_of-IsDistinct : (m : Sessions) → IsKeyed m → IsDistinct (sessions_of m)
unfolding sessions_of
sessions_of-IsDistinct [] v = tt
sessions_of-IsDistinct ((k, s) ∷ m) (u, e) =
    (rw e.0 (sessions_of-Lacks k m (u.1, e.1) u.0), sessions_of-IsDistinct m (u.1, e.1))

pub sessions_of-IsIn : (m : Sessions) → IsKeyed m → All (IsIn m) (sessions_of m)
unfolding sessions_of
sessions_of-IsIn [] v = tt
sessions_of-IsIn ((k, s) ∷ m) (u, e) = (
  lookup-cons_self s.id k s m e.0,
  kept (sessions_of m) (sessions_of-Lacks k m (u.1, e.1) u.0) (sessions_of-IsIn m (u.1, e.1)),
)
  where
    kept : (ss : List Session) → Lacks k ss → All (IsIn m) ss → All (IsIn ((k, s) ∷ m)) ss
    kept [] l h = tt
    kept (t ∷ ts) l h = (lookup-cons_ne k t.id s m (λ q. l.0 (sym q)) ∙ h.0, kept ts l.1 h.1)

delete-IsIn :
    (m : Sessions) (s : Session) (ss : List Session)
    → Lacks s.id ss
    → All (IsIn m) ss
    → All (IsIn (delete s.id m)) ss
delete-IsIn m s [] l h = tt
delete-IsIn m s (t ∷ ts) l h =
    (lookup-delete_ne s.id t.id m (λ q. l.0 (sym q)) ∙ h.0, delete-IsIn m s ts l.1 h.1)

-- A key that is there goes, and nothing else.
delete-none : (k : String) (m : Sessions) → lookup k m ≡ none → delete k m ≡ m
unfolding delete lookup
delete-none k [] h = refl
delete-none k ((j, s) ∷ m) h = elim (Bool-cases (j == k)) [
  | inl p ↦ cc (rw p at h)
  | inr p ↦ rw (p, delete-none k m (rw p at h)) refl
]

length-delete :
    (k : String) (s : Session) (m : Sessions)
    → IsUnique m
    → lookup k m ≡ some s
    → suc (length (delete k m)) ≡ length m
unfolding delete lookup
length-delete k s [] u h = cc
length-delete k s ((j, t) ∷ m) u h = elim (Bool-cases (j == k)) [
  | inl p ↦ rw (p, delete-none k m (rw (same j k p) at u.0)) refl
  | inr p ↦ rw p (omega (arith, length-delete k s m u.1 (rw p at h)))
]
  where
    same : (i l : String) → (i == l) ≡ true → i ≡ l
    same i l p = (text_comparable.same_iff i l).0 p

-- Deleting sessions that are there, no two of them the same.
pub length-delete_each :
    (ss : List Session) (m : Sessions)
    → IsUnique m
    → IsDistinct ss
    → All (IsIn m) ss
    → length (delete_each ss m) + length ss ≡ length m
unfolding delete_each
length-delete_each [] m u d h = omega arith
length-delete_each (s ∷ ss) m u d h = omega (
  arith,
  length-delete s.id s m u h.0,
  length-delete_each ss (delete s.id m) (delete-IsUnique s.id m u) d.1 (delete-IsIn m s ss d.0 h.1),
)

delete_each-none :
    (ss : List Session) (k : String) (m : Sessions)
    → lookup k m ≡ none
    → lookup k (delete_each ss m) ≡ none
unfolding delete_each
delete_each-none [] k m h = h
delete_each-none (s ∷ ss) k m h =
    delete_each-none ss k (delete s.id m) (lookup-delete-none s.id k m h)

lookup-delete_each :
    (ss : List Session) (k : String) (m : Sessions)
    → Lacks k ss
    → lookup k (delete_each ss m) ≡ lookup k m
unfolding delete_each
lookup-delete_each [] k m l = refl
lookup-delete_each (s ∷ ss) k m l =
    lookup-delete_each ss k (delete s.id m) l.1 ∙ lookup-delete_ne s.id k m l.0

pub delete_each-Gone :
    (ss : List Session) (m : Sessions) → All (λ s. lookup s.id (delete_each ss m) ≡ none) ss
unfolding delete_each
delete_each-Gone [] m = tt
delete_each-Gone (s ∷ ss) m = (
  delete_each-none ss s.id (delete s.id m) (lookup-delete_self s.id m),
  delete_each-Gone ss (delete s.id m),
)

-- What holds of every deleted session holds of a session that is no longer there.
pub deleted :
    (P : Session → Type 0) (ss : List Session) (j : String) (t : Session) (m : Sessions)
    → lookup j m ≡ some t
    → lookup j (delete_each ss m) ≡ none
    → All (IsIn m) ss
    → IsDistinct ss
    → All P ss
    → P t
unfolding delete_each
deleted P [] j t m h g i d p = cc
deleted P (s ∷ ss) j t m h g i d p = elim (Bool-cases (s.id == j)) [
  | inl q ↦ rw (← same ((text_comparable.same_iff s.id j).0 q)) p.0
  | inr q ↦
      deleted P ss j t (delete s.id m) (lookup-delete_ne s.id j m (ne_of_== s.id j q) ∙ h) g
        (delete-IsIn m s ss d.0 i.1) d.1 p.1
]
  where
    same : s.id ≡ j → s ≡ t
    same e = cc (h, i.0, e)

pub delete_each-IsKeyed :
    (ss : List Session) (m : Sessions) → IsKeyed m → IsKeyed (delete_each ss m)
unfolding delete_each
delete_each-IsKeyed [] m v = v
delete_each-IsKeyed (s ∷ ss) m (u, e) =
    delete_each-IsKeyed ss (delete s.id m)
      (delete-IsUnique s.id m u, Entries-delete (λ k t. t.id ≡ k) s.id m e)

lookup-delete-some :
    (j k : String) (s : Session) (m : Sessions)
    → lookup k (delete j m) ≡ some s
    → lookup k m ≡ some s
lookup-delete-some j k s m e = elim (Bool-cases (j == k)) [
  | inl p ↦ cc (rw (lookup-delete, p) at e)
  | inr p ↦ rw (lookup-delete, p) at e
]

pub delete_each-some :
    (ss : List Session) (k : String) (s : Session) (m : Sessions)
    → lookup k (delete_each ss m) ≡ some s
    → lookup k m ≡ some s
unfolding delete_each
delete_each-some [] k s m e = e
delete_each-some (t ∷ ts) k s m e =
    lookup-delete-some t.id k s m (delete_each-some ts k s (delete t.id m) e)

pub sessions_of-All :
    (P : Session → Type 0) (k : String) (s : Session) (m : Sessions)
    → lookup k m ≡ some s
    → All P (sessions_of m)
    → P s
unfolding sessions_of lookup
sessions_of-All P k s [] e p = cc
sessions_of-All P k s ((j, t) ∷ m) e p = elim (Bool-cases (j == k)) [
  | inl q ↦ rw (← (some_same (rw q at e))) p.0
  | inr q ↦ sessions_of-All P k s m (rw q at e) p.1
]
  where
    some_same : some t ≡ some s → t ≡ s
    some_same q = cc
