-- ===== src/Process/Tree.antt =====
-- internal/process/process.go: VerifyPortsOwnedByProcessTree and processTreePIDs. What pgrep and lsof
-- say is a parameter: the children of a process and the listeners on a port, if the command works.
use anito.Prelude.{
  ℕ, zero, suc, String, Bool, true, false, Option, none, some, List, [], ◌∷◌, ◌++◌, ◌==◌,
  ℕ_comparable, if◌then◌else◌,
}
use anito.Registry.Types.{Ports}

-- `allowed[pid]`. The map is the list of its keys, each of which has the value true.
unfoldable pub is_allowed : ℕ → List ℕ → Bool
is_allowed pid [] = false
is_allowed pid (p ∷ allowed) = if p == pid then true else is_allowed pid allowed

-- The inner loop: the children that are new are allowed and stand at the end of the queue.
unfoldable pub add_children : List ℕ → List ℕ → List ℕ → List ℕ × List ℕ
unfolding is_allowed
add_children [] allowed queue = (allowed, queue)
add_children (c ∷ children) allowed queue =
    if is_allowed c allowed
    then add_children children allowed queue
    else add_children children (c ∷ allowed) (queue ++ c ∷ [])

pub data Tree : Type 0 where
  pids : List ℕ → Tree
  children_unknown out_of_fuel : Tree

-- The outer loop. The fuel counts its rounds.
unfoldable pub visit : (ℕ → Option (List ℕ)) → ℕ → List ℕ → List ℕ → Tree
unfolding add_children
visit children_of fuel allowed [] = pids allowed
visit children_of zero allowed (pid ∷ queue) = out_of_fuel
visit children_of (suc fuel) allowed (pid ∷ queue) = elim (children_of pid) [
  | none ↦ children_unknown
  | some children ↦
      let (allowed', queue') = add_children children allowed queue in
      visit children_of fuel allowed' queue'
]

unfoldable pub process_tree_pids : (ℕ → Option (List ℕ)) → ℕ → ℕ → Tree
unfolding visit
process_tree_pids children_of fuel root = visit children_of fuel (root ∷ []) (root ∷ [])

pub data OwnershipError : Type 0 where
  missing_process_pid tree_failed : OwnershipError
  unknown_listeners no_listener not_owned : String → ℕ → OwnershipError

unfoldable pub any_allowed : List ℕ → List ℕ → Bool
any_allowed [] allowed = false
any_allowed (pid ∷ found) allowed =
    if is_allowed pid allowed then true else any_allowed found allowed

-- The check of one port.
unfoldable pub verify_port : List ℕ → String → ℕ → Option (List ℕ) → Option OwnershipError
unfolding any_allowed
verify_port allowed name port none = some (unknown_listeners name port)
verify_port allowed name port (some []) = some (no_listener name port)
verify_port allowed name port (some (pid ∷ found)) =
    if any_allowed (pid ∷ found) allowed then none else some (not_owned name port)

unfoldable pub verify_each : (ℕ → Option (List ℕ)) → List ℕ → Ports → Option OwnershipError
unfolding verify_port
verify_each listeners_on allowed [] = none
verify_each listeners_on allowed ((name, port) ∷ ports) =
    elim (verify_port allowed name port (listeners_on port)) [
      | some e ↦ some e
      | none ↦ verify_each listeners_on allowed ports
    ]

unfoldable pub verify_in : (ℕ → Option (List ℕ)) → Ports → Tree → Option OwnershipError
unfolding verify_each
verify_in listeners_on ports (pids allowed) = verify_each listeners_on allowed ports
verify_in listeners_on ports _ = some tree_failed

unfoldable pub verify_ports_owned :
    (ℕ → Option (List ℕ)) → (ℕ → Option (List ℕ)) → ℕ → Ports → ℕ → Option OwnershipError
unfolding verify_in
verify_ports_owned children_of listeners_on fuel ports root =
    if root == 0
    then some missing_process_pid
    else verify_in listeners_on ports (process_tree_pids children_of fuel root)
