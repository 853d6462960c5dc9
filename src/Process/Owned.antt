-- ===== src/Process/Owned.antt =====
-- The walk ends, and what a verification of the ports says.
use anito.Prelude.{
  ℕ, zero, suc, ◌+◌, ◌≤◌, String, ◌≡◌, refl, ◌↔◌, inl, inr, true, false, Option, none, some, List,
  [], ◌∷◌, ◌++◌, ◌==◌, ℕ_comparable, Bool-cases, Option-cases, if◌then◌else◌, arith, length,
  length-append, ==_refl,
}
use anito.Registry.Types.{Ports}
use anito.Process.Tree.{
  is_allowed, add_children, Tree, pids, children_unknown, out_of_fuel, visit, process_tree_pids,
  any_allowed, verify_port, verify_each, verify_in, verify_ports_owned,
}
use anito.Process.Descent.{IsIn, Descends, is_allowed→IsIn, process_tree_pids-Descends}

-- How many processes of the machine are not yet allowed.
left : List ℕ → List ℕ → ℕ
left a [] = 0
left a (u ∷ us) = (if is_allowed u a then 0 else 1) + left a us

left-cons : (c : ℕ) (a us : List ℕ) → left (c ∷ a) us ≤ left a us
unfolding left is_allowed
left-cons c a [] = omega arith
left-cons c a (u ∷ us) = let r = left-cons c a us in ground arith

left-new :
    (c : ℕ) (a us : List ℕ) → is_allowed c a ≡ false → IsIn c us → suc (left (c ∷ a) us) ≤ left a us
unfolding left is_allowed
left-new c a [] n h = absurd h
left-new c a (u ∷ us) n (inl e) = let r = left-cons c a us in rw (e, ==_refl c, n) (omega arith)
left-new c a (u ∷ us) n (inr h) = let r = left-new c a us n h in ground arith

-- A round costs one: a child that is queued is a process that was not yet allowed.
add_children-left :
    (us cs a q : List ℕ)
    → ((c : ℕ) → IsIn c cs → IsIn c us)
    → length (add_children cs a q).1 + left (add_children cs a q).0 us ≤ length q + left a us
unfolding add_children
add_children-left us [] a q h = omega arith
add_children-left us (c ∷ cs) a q h = elim (Bool-cases (is_allowed c a)) [
  | inl e ↦ rw e (add_children-left us cs a q (λ d i. h d (inr i)))
  | inr e ↦
      let r = add_children-left us cs (c ∷ a) (q ++ c ∷ []) (λ d i. h d (inr i)) in
      let n = left-new c a us e (h c (inl refl)) in
      let k = length-append q (c ∷ []) in rw e (omega arith)
]

-- Every process has known children, all of which are among `us`.
abbrev pub IsKnown : (ℕ → Option (List ℕ)) → List ℕ → Type 0
IsKnown children_of us =
    (p : ℕ) → (cs : List ℕ) × (children_of p ≡ some cs) × ((c : ℕ) → IsIn c cs → IsIn c us)

some_left : (n m : ℕ) → suc n + m ≤ 0 → ⊥
some_left n m h = omega arith

visit-ends :
    (children_of : ℕ → Option (List ℕ)) (us : List ℕ) (fuel : ℕ) (a q : List ℕ)
    → IsKnown children_of us
    → length q + left a us ≤ fuel
    → (found : List ℕ) × (visit children_of fuel a q ≡ pids found)
unfolding visit
visit-ends children_of us zero a [] k h = (a, refl)
visit-ends children_of us (suc fuel) a [] k h = (a, refl)
visit-ends children_of us zero a (p ∷ q) k h = absurd (some_left (length q) (left a us) h)
visit-ends children_of us (suc fuel) a (p ∷ q) k h =
    let (cs, e, among) = k p in
    let r = add_children-left us cs a q among in
    rw (visit, e) (visit-ends children_of us fuel _ _ k (omega arith))

left-le : (a us : List ℕ) → left a us ≤ length us
unfolding left
left-le a [] = omega arith
left-le a (u ∷ us) = let r = left-le a us in ground arith

-- Where the children of every process are known and are among finitely many processes, the walk ends
-- within one round more than their number, with exactly the root and its descendants.
pub process_tree_pids-ends :
    (children_of : ℕ → Option (List ℕ)) (us : List ℕ) (fuel root : ℕ)
    → IsKnown children_of us
    → suc (length us) ≤ fuel
    → (found : List ℕ) × (process_tree_pids children_of fuel root ≡ pids found)
      × ((p : ℕ) → IsIn p found ↔ Descends children_of root p)
unfolding process_tree_pids
process_tree_pids-ends children_of us fuel root k h =
    let bound = left-le (root ∷ []) us in
    let (found, e) = visit-ends children_of us fuel (root ∷ []) (root ∷ []) k (omega arith) in
    (found, e, process_tree_pids-Descends children_of fuel root found e)

-- Some listener on the port descends from the root.
pub record IsOwned (children_of listeners_on : ℕ → Option (List ℕ)) (root port : ℕ) : Type 0 where
  pub listeners : List ℕ
  pub listen : listeners_on port ≡ some listeners
  pub owner : ℕ
  pub is_listener : IsIn owner listeners
  pub descends : Descends children_of root owner

abbrev pub AreOwned : (ℕ → Option (List ℕ)) → (ℕ → Option (List ℕ)) → ℕ → Ports → Type 0
AreOwned children_of listeners_on root [] = Unit
AreOwned children_of listeners_on root ((name, port) ∷ ports) =
    IsOwned children_of listeners_on root port × AreOwned children_of listeners_on root ports

any_allowed-IsIn :
    (found allowed : List ℕ)
    → any_allowed found allowed ≡ true
    → (p : ℕ) × IsIn p found × IsIn p allowed
unfolding any_allowed
any_allowed-IsIn [] allowed h = cc
any_allowed-IsIn (p ∷ found) allowed h = elim (Bool-cases (is_allowed p allowed)) [
  | inl e ↦ (p, inl refl, is_allowed→IsIn p allowed e)
  | inr e ↦ let (o, i, k) = any_allowed-IsIn found allowed (rw e at h) in (o, inr i, k)
]

verify_port-IsIn :
    (allowed : List ℕ) (name : String) (port : ℕ) (o : Option (List ℕ))
    → verify_port allowed name port o ≡ none
    → (ls : List ℕ) × (o ≡ some ls) × ((p : ℕ) × IsIn p ls × IsIn p allowed)
unfolding verify_port
verify_port-IsIn allowed name port none h = cc
verify_port-IsIn allowed name port (some []) h = cc
verify_port-IsIn allowed name port (some (p ∷ ps)) h =
    elim (Bool-cases (any_allowed (p ∷ ps) allowed)) [
      | inl e ↦ (p ∷ ps, refl, any_allowed-IsIn (p ∷ ps) allowed e)
      | inr e ↦ cc (rw e at h)
    ]

verify_each-AreOwned :
    (children_of listeners_on : ℕ → Option (List ℕ)) (root : ℕ) (allowed : List ℕ) (ports : Ports)
    → ((p : ℕ) → IsIn p allowed → Descends children_of root p)
    → verify_each listeners_on allowed ports ≡ none
    → AreOwned children_of listeners_on root ports
unfolding verify_each
verify_each-AreOwned children_of listeners_on root allowed [] d h = tt
verify_each-AreOwned children_of listeners_on root allowed ((name, port) ∷ ports) d h =
    elim (Option-cases (verify_port allowed name port (listeners_on port))) [
      | inr (e, q) ↦ cc (rw (verify_each, q) at h)
      | inl q ↦
          let (ls, l, (p, i, k)) = verify_port-IsIn allowed name port (listeners_on port) q in
          (
            record { listeners = ls; listen = l; owner = p; is_listener = i; descends = d p k },
            verify_each-AreOwned children_of listeners_on root allowed ports d
                (rw (verify_each, q) at h),
          )
    ]

-- Where the verification returns no error, each port has a listener that is the root or descends from
-- it.
pub verify_ports_owned-AreOwned :
    (children_of listeners_on : ℕ → Option (List ℕ)) (fuel : ℕ) (ports : Ports) (root : ℕ)
    → verify_ports_owned children_of listeners_on fuel ports root ≡ none
    → AreOwned children_of listeners_on root ports
unfolding verify_ports_owned
verify_ports_owned-AreOwned children_of listeners_on fuel ports root h =
    elim (Bool-cases (root == 0)) [
      | inl e ↦ cc (rw (verify_ports_owned, e) at h)
      | inr e ↦ by (process_tree_pids children_of fuel root) refl (rw (verify_ports_owned, e) at h)
    ]
  where
    by :
        (t : Tree)
        → process_tree_pids children_of fuel root ≡ t
        → verify_in listeners_on ports t ≡ none
        → AreOwned children_of listeners_on root ports
    by (pids allowed) e g =
        verify_each-AreOwned children_of listeners_on root allowed ports
          (λ p i. (process_tree_pids-Descends children_of fuel root allowed e p).0 i)
          (unfold verify_in in g)
    by children_unknown e g = unfold verify_in in cc
    by out_of_fuel e g = unfold verify_in in cc
