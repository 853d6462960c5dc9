-- ===== src/Process/Descent.antt =====
-- The process tree: who descends from a process, and that the walk finds exactly those.
use anito.Prelude.{
  ℕ, zero, suc, ◌≡◌, refl, subst, ◌⊎◌, ◌↔◌, inl, inr, true, Option, some, List, [], ◌∷◌, ◌++◌, ◌==◌,
  ℕ_comparable, Bool-cases, Option-cases,
}
use anito.Process.Tree.{is_allowed, add_children, pids, visit, process_tree_pids}

abbrev pub IsIn : ℕ → List ℕ → Type 0
IsIn p [] = ⊥
IsIn p (q ∷ qs) = (q ≡ p) ⊎ IsIn p qs

-- A process and what it has started, directly or not.
pub data Descends (children_of : ℕ → Option (List ℕ)) (root : ℕ) : ℕ → Type 0 where
  itself : Descends children_of root root
  child :
      (p : ℕ) (cs : List ℕ) (c : ℕ)
      → Descends children_of root p
      → children_of p ≡ some cs
      → IsIn c cs
      → Descends children_of root c

pub is_allowed→IsIn : (p : ℕ) (a : List ℕ) → is_allowed p a ≡ true → IsIn p a
unfolding is_allowed
is_allowed→IsIn p [] h = cc
is_allowed→IsIn p (q ∷ a) h = elim (Bool-cases (q == p)) [
  | inl e ↦ inl ((ℕ_comparable.same_iff q p).0 e)
  | inr e ↦ inr (is_allowed→IsIn p a (rw e at h))
]

IsIn-append : (p : ℕ) (xs : List ℕ) (c : ℕ) → IsIn p xs → IsIn p (xs ++ c ∷ [])
IsIn-append p [] c h = absurd h
IsIn-append p (x ∷ xs) c (inl e) = inl e
IsIn-append p (x ∷ xs) c (inr h) = inr (IsIn-append p xs c h)

IsIn-last : (xs : List ℕ) (c : ℕ) → IsIn c (xs ++ c ∷ [])
IsIn-last [] c = inl refl
IsIn-last (x ∷ xs) c = inr (IsIn-last xs c)

append-cases : (p : ℕ) (xs : List ℕ) (c : ℕ) → IsIn p (xs ++ c ∷ []) → IsIn p xs ⊎ (c ≡ p)
append-cases p [] c (inl e) = inr e
append-cases p [] c (inr h) = absurd h
append-cases p (x ∷ xs) c (inl e) = inl (inl e)
append-cases p (x ∷ xs) c (inr h) = elim (append-cases p xs c h) [
  | inl g ↦ inl (inr g)
  | inr e ↦ inr e
]

-- What the inner loop leaves.
pub record IsExtended (cs a q a' q' : List ℕ) : Type 0 where
  pub keeps : (p : ℕ) → IsIn p a → IsIn p a'
  pub waits : (p : ℕ) → IsIn p q → IsIn p q'
  pub takes : (p : ℕ) → IsIn p cs → IsIn p a'
  pub origin : (p : ℕ) → IsIn p a' → IsIn p a ⊎ (IsIn p cs × IsIn p q')
  pub queued : (p : ℕ) → IsIn p q' → IsIn p q ⊎ IsIn p cs

pub add_children-IsExtended :
    (cs a q : List ℕ) → IsExtended cs a q (add_children cs a q).0 (add_children cs a q).1
unfolding add_children
add_children-IsExtended [] a q = record {
  keeps = λ p h. h;
  waits = λ p h. h;
  takes = λ p h. absurd h;
  origin = λ p h. inl h;
  queued = λ p h. inl h;
}
add_children-IsExtended (c ∷ cs) a q = elim (Bool-cases (is_allowed c a)) [
  | inl e ↦
      let r = add_children-IsExtended cs a q in
      rw e (record {
        keeps = r.keeps;
        waits = r.waits;
        takes =
            λ p. elim [ inl g ↦ r.keeps p (is_allowed→IsIn p a (rw g at e)) | inr g ↦ r.takes p g ];
        origin = λ p h. elim (r.origin p h) [ inl g ↦ inl g | inr (g, k) ↦ inr (inr g, k) ];
        queued = λ p h. elim (r.queued p h) [ inl g ↦ inl g | inr g ↦ inr (inr g) ];
      })
  | inr e ↦
      let r = add_children-IsExtended cs (c ∷ a) (q ++ c ∷ []) in
      rw e (record {
        keeps = λ p h. r.keeps p (inr h);
        waits = λ p h. r.waits p (IsIn-append p q c h);
        takes = λ p. elim [ inl g ↦ r.keeps p (inl g) | inr g ↦ r.takes p g ];
        origin = λ p h. elim (r.origin p h) [
          | inl (inl g) ↦
              inr (inl g, r.waits p (subst (λ x. IsIn x (q ++ c ∷ [])) g (IsIn-last q c)))
          | inl (inr g) ↦ inl g
          | inr (g, k) ↦ inr (inr g, k)
        ];
        queued = λ p h. elim (r.queued p h) [
          | inl g ↦ elim (append-cases p q c g) [ inl k ↦ inl k | inr k ↦ inr (inl k) ]
          | inr g ↦ inr (inr g)
        ];
      })
]

module _ (children_of : ℕ → Option (List ℕ)) (root : ℕ) where
  -- Between two rounds: what is allowed descends from the root, the queue is allowed, and the
  -- children of what is allowed are allowed or their parent is in the queue.
  pub record IsWalk (a q : List ℕ) : Type 0 where
    pub sound : (p : ℕ) → IsIn p a → Descends children_of root p
    pub listed : (p : ℕ) → IsIn p q → IsIn p a
    pub begun : IsIn root a
    pub closed :
        (p : ℕ)
        → IsIn p a
        → IsIn p q ⊎ ((cs : List ℕ) → children_of p ≡ some cs → (c : ℕ) → IsIn c cs → IsIn c a)

  visit-IsWalk :
      (pid : ℕ) (a q cs : List ℕ)
      → children_of pid ≡ some cs
      → IsWalk a (pid ∷ q)
      → IsWalk (add_children cs a q).0 (add_children cs a q).1
  visit-IsWalk pid a q cs e w =
      let r = add_children-IsExtended cs a q in
      let parent = w.sound pid (w.listed pid (inl refl)) in
      record {
        sound = λ p h. elim (r.origin p h) [
          | inl g ↦ w.sound p g
          | inr (g, k) ↦ child pid cs p parent e g
        ];
        listed = λ p h. elim (r.queued p h) [
          | inl g ↦ r.keeps p (w.listed p (inr g))
          | inr g ↦ r.takes p g
        ];
        begun = r.keeps root w.begun;
        closed = λ p h. elim (r.origin p h) [
          | inr (g, k) ↦ inl k
          | inl g ↦ elim (w.closed p g) [
            | inl (inl k) ↦ inr (λ ds f c i. r.takes c (same k ds f c i))
            | inl (inr k) ↦ inl (r.waits p k)
            | inr k ↦ inr (λ ds f c i. r.keeps c (k ds f c i))
          ]
        ];
      }
    where
      same :
          {p : ℕ}
          → pid ≡ p
          → (ds : List ℕ) → children_of p ≡ some ds
          → (c : ℕ) → IsIn c ds
          → IsIn c cs
      same k ds f c i = let eq : ds ≡ cs = cc (k, f, e) in rw (← eq) i

  complete : (a : List ℕ) → IsWalk a [] → (p : ℕ) → Descends children_of root p → IsIn p a
  complete a w _ itself = w.begun
  complete a w _ (child p cs c d e i) = elim (w.closed p (complete a w p d)) [
    | inl h ↦ absurd h
    | inr h ↦ h cs e c i
  ]

  start-IsWalk : IsWalk (root ∷ []) (root ∷ [])
  start-IsWalk = record {
    sound = λ p. elim [ inl h ↦ rw (← h) itself | inr h ↦ absurd h ];
    listed = λ p h. h;
    begun = inl refl;
    closed = λ p h. inl h;
  }

  walk :
      (fuel : ℕ) (a q found : List ℕ)
      → IsWalk a q
      → visit children_of fuel a q ≡ pids found
      → IsWalk found []
  unfolding visit
  walk zero a [] found w h = let e : a ≡ found = cc in rw (← e) w
  walk (suc fuel) a [] found w h = let e : a ≡ found = cc in rw (← e) w
  walk zero a (p ∷ q) found w h = cc
  walk (suc fuel) a (p ∷ q) found w h = elim (Option-cases (children_of p)) [
    | inl e ↦ cc (rw (visit, e) at h)
    | inr (cs, e) ↦ walk fuel _ _ found (visit-IsWalk p a q cs e w) (rw (visit, e) at h)
  ]

-- Where the walk ends with a set of processes, it has the root and its descendants, and no other.
pub process_tree_pids-Descends :
    (children_of : ℕ → Option (List ℕ)) (fuel root : ℕ) (found : List ℕ)
    → process_tree_pids children_of fuel root ≡ pids found
    → (p : ℕ) → IsIn p found ↔ Descends children_of root p
unfolding process_tree_pids
process_tree_pids-Descends children_of fuel root found h p =
    let w =
      walk children_of root fuel (root ∷ []) (root ∷ []) found (start-IsWalk children_of root) h in
    (w.sound p, complete children_of root found w p)
