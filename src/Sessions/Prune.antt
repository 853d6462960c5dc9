-- ===== src/Sessions/Prune.antt =====
-- What pruneOldest leaves of a map whose keys are the sessions' identifiers.
use anito.Prelude.{
  ℕ, ◌-◌, ◌+◌, String, ◌≡◌, refl, ◌∙◌, inl, inr, ◌⊎◌, ◌||◌, true, false, none, some, List, [], ◌∷◌,
  Bool-cases, All, length, drop, take, arith, ◌==◌, text_comparable, ℕ_comparable, ◌≤◌, length-drop,
  leb,
}
use anito.Assoc.{lookup}
use anito.Assoc.Entries.{Entries-lookup}
use anito.Sessions.Store.{
  Session, Sessions, sessions_of, delete_each, prune_oldest, sort_slice, goes_before,
}
use anito.Sessions.Order.{
  IsDistinct, All-mono, All-drop, All-parts, All-sort_slice, sort_slice-All, length-sort_slice,
  sort_slice-IsDistinct, drop-IsDistinct, sort_slice-IsNewestFirst, take-drop-le,
}
use anito.Sessions.Keyed.{
  IsKeyed, IsIn, sessions_of-IsDistinct, sessions_of-IsIn, length-delete_each, delete_each-Gone,
  deleted, delete_each-IsKeyed, delete_each-some, sessions_of-All,
}

length-sessions_of : (m : Sessions) → length (sessions_of m) ≡ length m
unfolding sessions_of
length-sessions_of [] = refl
length-sessions_of ((k, s) ∷ m) = rw (length-sessions_of m) refl

-- The oldest sessions, which go.
abbrev oldest : Sessions → ℕ → List Session
oldest m limit = drop limit (sort_slice goes_before (sessions_of m))

abbrev newest : Sessions → ℕ → List Session
newest m limit = take limit (sort_slice goes_before (sessions_of m))

module _ (m : Sessions) (limit : ℕ) (v : IsKeyed m) where
  oldest-IsIn : All (IsIn m) (oldest m limit)
  oldest-IsIn =
      All-drop (IsIn m) limit (sort_slice goes_before (sessions_of m))
        (All-sort_slice (IsIn m) goes_before (sessions_of m) (sessions_of-IsIn m v))

  oldest-IsDistinct : IsDistinct (oldest m limit)
  oldest-IsDistinct =
      drop-IsDistinct limit (sort_slice goes_before (sessions_of m))
        (sort_slice-IsDistinct goes_before (sessions_of m) (sessions_of-IsDistinct m v))

  length-oldest : length (oldest m limit) ≡ length m - limit
  length-oldest =
      length-drop limit (sort_slice goes_before (sessions_of m))
      ∙ rw (length-sort_slice goes_before (sessions_of m), length-sessions_of m) refl

  length-left : length (delete_each (oldest m limit) m) + (length m - limit) ≡ length m
  length-left =
      rw (← length-oldest) (length-delete_each (oldest m limit) m v.0 oldest-IsDistinct oldest-IsIn)

prune_oldest-cases :
    (m : Sessions) (limit : ℕ)
    → 1 ≤ limit
    → ((length m ≤ limit) × (prune_oldest m limit ≡ (m, 0)))
      ⊎ ((limit ≤ length m)
          × (prune_oldest m limit ≡ (delete_each (oldest m limit) m, length m - limit)))
unfolding prune_oldest
prune_oldest-cases m limit h = elim (Bool-cases (limit == 0 || leb (length m) limit)) [
  | inl p ↦ inl (small p, rw p refl)
  | inr p ↦ inr (large p, rw (p, length-sort_slice, length-sessions_of) refl)
]
  where
    small : (limit == 0 || leb (length m) limit) ≡ true → length m ≤ limit
    small p = ground arith

    large : (limit == 0 || leb (length m) limit) ≡ false → limit ≤ length m
    large p = ground arith

module _ (m : Sessions) (limit : ℕ) (v : IsKeyed m) (h : 1 ≤ limit) where
  pub prune_oldest-IsKeyed : IsKeyed (prune_oldest m limit).0
  prune_oldest-IsKeyed = elim (prune_oldest-cases m limit h) [
    | inl (l, e) ↦ rw e v
    | inr (l, e) ↦ rw e (delete_each-IsKeyed (oldest m limit) m v)
  ]

  pub length-prune_oldest : length (prune_oldest m limit).0 ≤ limit
  length-prune_oldest = elim (prune_oldest-cases m limit h) [
    | inl (l, e) ↦ rw e l
    | inr (l, e) ↦ rw e (let q = length-left m limit v in omega arith)
  ]

  prune_oldest-count : (prune_oldest m limit).1 + length (prune_oldest m limit).0 ≡ length m
  prune_oldest-count = elim (prune_oldest-cases m limit h) [
    | inl (l, e) ↦ rw e (omega arith)
    | inr (l, e) ↦ rw e (let q = length-left m limit v in omega arith)
  ]

  -- A session that stays is one of the newest.
  left-newest :
      (P : Session → Type 0) (k : String) (s : Session)
      → lookup k (delete_each (oldest m limit) m) ≡ some s
      → lookup k m ≡ some s
      → All P (newest m limit)
      → P s
  left-newest P k s e g p = elim (sessions_of-All Either k s m g both) [
    | inl q ↦ absurd (gone q)
    | inr q ↦ q
  ]
    where
      Either : Session → Type 0
      Either t = (lookup t.id (delete_each (oldest m limit) m) ≡ none) ⊎ P t

      both : All Either (sessions_of m)
      both = sort_slice-All Either goes_before (sessions_of m) (
          All-parts Either limit (sort_slice goes_before (sessions_of m))
            (All-mono P Either (newest m limit) (λ t q. inr q) p)
            (All-mono (λ t. lookup t.id (delete_each (oldest m limit) m) ≡ none) Either
              (oldest m limit) (λ t q. inl q) (delete_each-Gone (oldest m limit) m)))

      gone : lookup s.id (delete_each (oldest m limit) m) ≡ none → ⊥
      gone q = cc (Entries-lookup (λ k t. t.id ≡ k) m k s v.1 g, e, q)

  seen_before :
      (k j : String) (s t : Session)
      → lookup k (delete_each (oldest m limit) m) ≡ some s
      → lookup j m ≡ some t
      → lookup j (delete_each (oldest m limit) m) ≡ none
      → t.last_seen_at ≤ s.last_seen_at
  seen_before k j s t e g n =
      left-newest (λ u. t.last_seen_at ≤ u.last_seen_at) k s e
        (delete_each-some (oldest m limit) k s m e)
        (All-mono (λ u. All (λ w. w.last_seen_at ≤ u.last_seen_at) (oldest m limit))
          (λ u. t.last_seen_at ≤ u.last_seen_at) (newest m limit)
          (λ u.
            deleted (λ w. w.last_seen_at ≤ u.last_seen_at) (oldest m limit) j t m g n
              (oldest-IsIn m limit v) (oldest-IsDistinct m limit v))
          (take-drop-le limit (sort_slice goes_before (sessions_of m))
            (sort_slice-IsNewestFirst (sessions_of m))))

-- Of a map whose keys are the sessions' identifiers and a limit that is not 0: what `pruneOldest`
-- leaves has at most `limit` entries, it returns the number of those that are gone, every entry that
-- is left stood in the map, and none of those gone has been seen later than one that is left.
pub prune_oldest-newest :
    (m : Sessions) (limit : ℕ)
    → IsKeyed m
    → 1 ≤ limit
    → (length (prune_oldest m limit).0 ≤ limit)
      × ((prune_oldest m limit).1 + length (prune_oldest m limit).0 ≡ length m)
      × ((k : String) (s : Session)
          → lookup k (prune_oldest m limit).0 ≡ some s
          → (lookup k m ≡ some s)
            × ((j : String) (t : Session)
                → lookup j m ≡ some t
                → lookup j (prune_oldest m limit).0 ≡ none
                → t.last_seen_at ≤ s.last_seen_at))
prune_oldest-newest m limit v h =
    (length-prune_oldest m limit v h, prune_oldest-count m limit v h, entries)
  where
    entries :
        (k : String) (s : Session)
        → lookup k (prune_oldest m limit).0 ≡ some s
        → (lookup k m ≡ some s)
          × ((j : String) (t : Session)
              → lookup j m ≡ some t
              → lookup j (prune_oldest m limit).0 ≡ none
              → t.last_seen_at ≤ s.last_seen_at)
    entries k s e = elim (prune_oldest-cases m limit h) [
      | inl (l, p) ↦ (rw p at e, λ j t g n. cc (p, g, n))
      | inr (l, p) ↦ (
        delete_each-some (oldest m limit) k s m (rw p at e),
        λ j t g n. seen_before m limit v h k j s t (rw p at e) g (rw p at n),
      )
    ]
