-- ===== src/Service/Failing.antt =====
-- Deploy and Rollback of a service that runs, from the gate on, where they fail.
use anito.Prelude.{
  ◌≤◌, String, ◌≡◌, refl, ap, ◌∙◌, ◌≢◌, inl, inr, false, Option, none, some, [], ℕ_comparable,
  text_comparable, arith, Option-cases, length,
}
use anito.Assoc.{lookup}
use anito.Registry.Types.{Ports, Service, DeploymentSnapshot}
use anito.Registry.Types
use anito.Registry.Ports.{normalize_ports, upgrade_ports, sync_singular_from_map}
use anito.Registry.Invariant.{IsValid, step-IsValid}
use anito.Registry.Calls.{registers, step}
use anito.Registry.Store.{Result, ok, err}
use anito.Registry.Lifecycle.{IsRedeploy, register-IsRedeploy}
use anito.Process.Types.{RunningProc}
use anito.Process.Manager.{tracked}
use anito.Service.World.{Daemon, World, bind_ports}
use anito.Service.Undo.{is_static, with_history}
use anito.Service.Replace.{Failure, restart_locked}
use anito.Service.Restored.{SeesOld}
use anito.Service.Outcomes.{IsServing, restart_locked-IsRestored}
use anito.Service.Deploy.{because_of, failed_with, register_draft}
use anito.Service.Rollback.{
  rolled_back, rollback_restarted, rollback_bound, rollback_found, rollback_saved, rollback_to,
  rollback_locked,
}

-- What stands in the registry once the draft of a redeploy has been registered.
pub register_draft-IsRedeploy :
    (w : World) (s existing : Service) (d : Daemon)
    → IsValid d.registry
    → length s.start_history ≤ 10
    → lookup s.name d.registry.services ≡ some existing
    → existing.stable_ports ≢ []
    → IsValid (register_draft w s d).0.registry
      × ((t : Service) × (lookup s.name (register_draft w s d).0.registry.services ≡ some t)
          × IsRedeploy w.now existing s t)
unfolding register_draft step
register_draft-IsRedeploy w s existing d v l e p = (
  step-IsValid w.codec (w.saves (registers w.now w.now s)) (registers w.now w.now s) d.registry l v,
  register-IsRedeploy w.codec (w.saves (registers w.now w.now s)) w.now w.now existing s d.registry
      v e p,
)

pub because_of-failure :
    (o : Daemon × Option Failure) (f : Failure)
    → (because_of o).1 ≡ some (failed_with f)
    → (o.1 ≡ some f) × ((because_of o).0 ≡ o.0)
because_of-failure (d, none) f h = cc
because_of-failure (d, some g) f h = (ap some cc, refl)

-- The process is tracked, and the entry is the one of the deployment `target`.
pub record IsHalfDone (name : String) (target : DeploymentSnapshot) (rp : RunningProc) (d : Daemon)
    : Type 0 where
  pub process : tracked name d.manager ≡ some rp
  pub entry : Service
  pub found : lookup name d.registry.services ≡ some entry
  pub version : entry.version ≡ target.version
  pub binary_path : entry.binary_path ≡ target.binary_path

restarted-failure :
    (w : World) (name : String) (o : Daemon × Option Failure) (f : Failure)
    → (rollback_restarted w name (because_of o)).1 ≡ some (failed_with f)
    → (o.1 ≡ some f) × ((rollback_restarted w name (because_of o)).0 ≡ o.0)
unfolding rollback_restarted
restarted-failure w name (d, none) f h = cc
restarted-failure w name (d, some g) f h = (cc, refl)

with_history-kept :
    (current : Option Service) (s : Service)
    → ((with_history current s).version ≡ s.version)
      × ((with_history current s).binary_path ≡ s.binary_path)
unfolding with_history
with_history-kept none s = (refl, refl)
with_history-kept (some c) s = (refl, refl)

module _ (w : World) (name : String) (target : DeploymentSnapshot) (rp : RunningProc) (f : Failure)
    (o : SeesOld w) (z : w.os.started ≢ some 0) where
  abbrev HalfDone : Daemon → Type 0
  HalfDone d = IsHalfDone name target (record rp { candidate = false; exited = false }) d

  found-IsHalfDone :
      (d : Daemon) (t : Service)
      → IsValid d.registry
      → IsServing name rp d.manager
      → lookup name d.registry.services ≡ some t
      → t.service_type ≡ Types.binary
      → t.version ≡ target.version
      → t.binary_path ≡ target.binary_path
      → (rollback_found w name d (some t)).1 ≡ some (failed_with f)
      → HalfDone (rollback_found w name d (some t)).0
  unfolding rollback_found rollback_bound
  found-IsHalfDone d t v s l b ve bi h =
      let bound = bind_ports w w.binds t.name t.stable_ports t.proxy_bind_address d in
      elim (Option-cases bound.1) [
        | inr (e, q) ↦ cc (rw (rollback_found, q) at h)
        | inl q ↦
            let h' = rw (rollback_found, q, rollback_bound, ap is_static b) at h in
            let (failed, same) = restarted-failure w name (restart_locked w name bound.0) f h' in
            let r = restart_locked-IsRestored w name t bound.0 rp f o v l b s z failed in
            let (kv, kb) = with_history-kept r.current t in
            rw (rollback_found, q, rollback_bound, ap is_static b, same)
              (record {
                process = r.process;
                entry = with_history r.current t;
                found = r.entry;
                version = kv ∙ ve;
                binary_path = kb ∙ bi;
              })
      ]

  saved-IsHalfDone :
      (r : Daemon × Result (Unit {0})) (t : Service)
      → IsValid r.0.registry
      → IsServing name rp r.0.manager
      → lookup name r.0.registry.services ≡ some t
      → t.service_type ≡ Types.binary
      → t.version ≡ target.version
      → t.binary_path ≡ target.binary_path
      → (rollback_saved w name r).1 ≡ some (failed_with f)
      → HalfDone (rollback_saved w name r).0
  unfolding rollback_saved
  saved-IsHalfDone (d, err e) t v s l b ve bi h = cc
  saved-IsHalfDone (d, ok u) t v s l b ve bi h =
      rw l (found-IsHalfDone d t v s l b ve bi (rw l at h))

-- Where a binary service is registered with stable ports, it runs and its process is seen to be
-- alive, and a rollback to its previous deployment, one of a binary, fails in its restart: the old
-- process is tracked again, but the entry keeps the version and the binary of the previous
-- deployment, to which the rollback has failed.
pub rollback_locked-IsHalfDone :
    (w : World) (name : String) (current : Service) (target : DeploymentSnapshot) (d : Daemon)
    (rp : RunningProc) (f : Failure)
    → SeesOld w
    → IsValid d.registry
    → lookup name d.registry.services ≡ some current
    → current.stable_ports ≢ []
    → current.previous_deployment ≡ some target
    → target.service_type ≡ Types.binary
    → IsServing name rp d.manager
    → w.os.started ≢ some 0
    → (rollback_locked w name d).1 ≡ some (failed_with f)
    → IsHalfDone name target
        (record rp { candidate = false; exited = false })
        (rollback_locked w name d).0
unfolding rollback_locked rollback_to rolled_back normalize_ports upgrade_ports
    sync_singular_from_map register_draft
rollback_locked-IsHalfDone w name current target d rp f o v l p q b s z h =
    let draft = rolled_back name current target in
    let (valid, (t, at, kept)) = register_draft-IsRedeploy w draft current d v (omega arith) l p in
    rw (rollback_locked, l, rollback_to, q)
      (saved-IsHalfDone w name target rp f o z (register_draft w draft d) t valid s at
        (kept.service_type ∙ b) kept.version kept.binary_path
        (rw (rollback_locked, l, rollback_to, q) at h))
