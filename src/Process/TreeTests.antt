-- ===== src/Process/TreeTests.antt =====
-- A service that has started a worker, which listens for it.
use anito.Prelude.{
  ℕ, ◌≡◌, refl, ◌↔◌, inl, inr, Option, none, some, List, [], ◌∷◌, ◌==◌, ℕ_comparable, Bool-cases,
  arith, if◌then◌else◌,
}
use anito.Process.Tree.{pids, process_tree_pids, verify_ports_owned, not_owned, is_allowed, visit}
use anito.Process.Descent.{IsIn, Descends}
use anito.Process.Owned.{IsKnown, AreOwned, process_tree_pids-ends, verify_ports_owned-AreOwned}

children : ℕ → Option (List ℕ)
children p = if p == 10 then some (11 ∷ 12 ∷ []) else if p == 12 then some (13 ∷ []) else some []

listeners : ℕ → Option (List ℕ)
listeners port = if port == 50300 then some (99 ∷ 13 ∷ []) else some (99 ∷ [])

abbrev machine : List ℕ
machine = 11 ∷ 12 ∷ 13 ∷ []

worker_is_found : verify_ports_owned children listeners 5 (("http", 50300) ∷ []) 10 ≡ none
unfolding verify_ports_owned visit is_allowed children listeners process_tree_pids
worker_is_found = refl

stranger_is_refused :
    verify_ports_owned children listeners 5 (("http", 50301) ∷ []) 10
    ≡ some (not_owned "http" 50301)
unfolding verify_ports_owned visit is_allowed children listeners process_tree_pids
stranger_is_refused = refl

verify_ports_owned-AreOwned_example : AreOwned children listeners 10 (("http", 50300) ∷ [])
verify_ports_owned-AreOwned_example =
    verify_ports_owned-AreOwned children listeners 5 (("http", 50300) ∷ []) 10 worker_is_found

of_root : (p : ℕ) (c : ℕ) → IsIn c (11 ∷ 12 ∷ []) → IsIn c machine
of_root p c (inl e) = inl e
of_root p c (inr (inl e)) = inr (inl e)
of_root p c (inr (inr h)) = absurd h

of_worker : (c : ℕ) → IsIn c (13 ∷ []) → IsIn c machine
of_worker c (inl e) = inr (inr (inl e))
of_worker c (inr h) = absurd h

children-IsKnown : IsKnown children machine
unfolding children
children-IsKnown p = elim (Bool-cases (p == 10)) [
  | inl e ↦ (11 ∷ 12 ∷ [], rw (children, e) refl, of_root p)
  | inr e ↦ elim (Bool-cases (p == 12)) [
    | inl f ↦ (13 ∷ [], rw (children, e, f) refl, of_worker)
    | inr f ↦ ([], rw (children, e, f) refl, λ c h. absurd h)
  ]
]

process_tree_pids-ends_example :
    (found : List ℕ) × (process_tree_pids children 4 10 ≡ pids found)
    × ((p : ℕ) → IsIn p found ↔ Descends children 10 p)
process_tree_pids-ends_example =
    process_tree_pids-ends children machine 4 10 children-IsKnown (omega arith)
