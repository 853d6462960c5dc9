-- ===== src/Service/Outcomes.antt =====
-- Restart and Deploy of a service that runs: what stands afterwards if they fail.
use anito.Prelude.{
  inl, ℕ, String, ◌≡◌, refl, sym, ap, subst, ◌≢◌, true, false, Option, none, some, ℕ_comparable,
  text_comparable,
}
use anito.Assoc.{lookup, delete, lookup-delete_self}
use anito.Assoc.Entries.{Entries-lookup}
use anito.Registry.Types.{Ports, Service}
use anito.Registry.Types
use anito.Registry.Ports.{sync_singular_from_map}
use anito.Registry.Drafts.{IsEntry}
use anito.Registry.Invariant.{IsValid}
use anito.Registry.Saved.{sync_id}
use anito.Process.Types.{RunningProc, Manager, DetachedProcess, Result, ok, err}
use anito.Process.Types as ProcessTypes
use anito.Process.Manager.{launched, tracked, exited_at}
use anito.Process.Table.{tracked-cases}
use anito.Service.World.{Daemon, World, start_candidate}
use anito.Service.Undo.{is_binary}
use anito.Service.Replace.{
  Failure, restart_started, restart_found, restart_locked, deploy_started, deploy_binary,
  not_started, undone,
}
use anito.Service.Detached.{IsFree}
use anito.Service.Restored.{IsRestored, IsUndone, SeesOld, undone-IsUndone}
use anito.Service.Promoted.{Ends}
use anito.Service.Survives.{
  Starts, fails, runs, start_candidate-Starts, restart_started-Ends, deploy_started-Ends, detached,
  detach_lem,
}

-- A process that is tracked under the name and has not exited. The address of the next object is not
-- in use.
pub record IsServing (name : String) (rp : RunningProc) (m : Manager) : Type 0 where
  pub object : tracked name m ≡ some rp
  pub lives : rp.exited ≡ false
  pub fresh : lookup m.next m.heap ≡ none

module _ (w : World) (svc previous : Service) (d : Daemon) (a : ℕ) (rp : RunningProc)
    (o : SeesOld w) (e : sync_singular_from_map previous ≡ previous)
    (same : previous.name ≡ svc.name) (p : lookup svc.name d.manager.procs ≡ some a)
    (q : lookup a d.manager.heap ≡ some rp) (v : IsServing svc.name rp d.manager)
    (started : w.os.started ≢ some 0) where
  abbrev dp : DetachedProcess
  dp = detached svc.name a rp

  abbrev left : Manager
  left = record d.manager { procs = delete svc.name d.manager.procs }

  left-IsFree : IsFree svc.name a left
  unfolding exited_at
  left-IsFree = (lookup-delete_self svc.name d.manager.procs, rw q v.lives)

  own_object : left.next ≢ a
  own_object h = cc (v.fresh, q, h)

  abbrev Undone : Daemon × Option Failure → Type 0
  Undone r = IsUndone svc.name previous dp r

  ends : Ends w svc.name (some previous) (some dp) a Undone
  ends = record {
    undo = undone-IsUndone w svc previous dp o e same;
    live = λ d' pid deployed f u. cc;
  }

  -- Whichever way the start of the candidate goes.
  from_start :
      (after : Daemon → Result Ports → Daemon × Option Failure) (r : Daemon × Result Ports)
      → Starts w svc left r
      → ((d' : Daemon) (x : ProcessTypes.Error)
          → IsFree svc.name a d'.manager
          → Undone (after d' (err x)))
      → ((d' : Daemon) (ports : Ports) (pid : ℕ)
          → pid ≢ 0
          → d'.manager ≡ launched svc true w.now ports pid left
          → Undone (after d' (ok ports)))
      → Undone (after r.0 r.1)
  from_start after r (fails x h k) f g =
      rw h (f r.0 x (subst (IsFree svc.name a) (sym k) left-IsFree))
  from_start after r (runs ports pid h s k) f g =
      rw h (g r.0 ports pid (λ z. started (rw z at s)) k)

  abbrev candidate : Daemon × Result Ports
  candidate = start_candidate w svc (record d { manager = left })

  deploy_binary-IsUndone : Undone (deploy_binary w svc (some previous) d)
  unfolding deploy_binary deploy_started
  deploy_binary-IsUndone =
      rw (deploy_binary, detach_lem svc.name d.manager a rp p v.object)
        (from_start (deploy_started w svc (some previous) (some dp)) candidate
          (start_candidate-Starts w svc (record d { manager = left }))
          (λ d' x f. undone-IsUndone w svc previous dp o e same (not_started x) d' f)
          (λ d' ports pid z k.
            deploy_started-Ends w svc (some previous) (some dp) a ports pid left Undone ends
              own_object left-IsFree.1 z d' (inl k)))

  restart_found-IsUndone :
      svc ≡ previous → svc.service_type ≡ Types.binary → Undone (restart_found w svc.name svc d)
  unfolding restart_found restart_started
  restart_found-IsUndone s b =
      rw (restart_found, ap is_binary b, detach_lem svc.name d.manager a rp p v.object)
        (from_start (restart_started w svc.name svc (some dp)) candidate
          (start_candidate-Starts w svc (record d { manager = left }))
          (λ d' x f.
            subst
              (λ (u : Service). Undone (undone w svc.name (some u) (some dp) (not_started x) d'))
              (sym s) (undone-IsUndone w svc previous dp o e same (not_started x) d' f))
          (λ d' ports pid z k.
            restart_started-Ends w svc (some previous) (some dp) a ports pid left Undone ends
              own_object left-IsFree.1 z d' (ap (λ (u : Service). some u) (sym s)) (inl k)))

-- Where a service runs and its process is seen to be alive, and the deployment of another binary of it
-- fails after it has been registered, at whatever step: the old process is tracked again with its
-- command, its PID and its ports, and the entry is the previous one, but for the starts that it
-- remembers.
pub deploy_binary-IsRestored :
    (w : World) (svc previous : Service) (d : Daemon) (rp : RunningProc) (f : Failure)
    → SeesOld w
    → IsEntry svc.name previous
    → IsServing svc.name rp d.manager
    → w.os.started ≢ some 0
    → (deploy_binary w svc (some previous) d).1 ≡ some f
    → IsRestored svc.name previous
        (record rp { candidate = false; exited = false })
        (deploy_binary w svc (some previous) d).0
deploy_binary-IsRestored w svc previous d rp f o e v s h =
    let (a, p, q) = tracked-cases svc.name d.manager rp v.object in
    deploy_binary-IsUndone w svc previous d a rp o (sync_id svc.name previous e) e.draft.named p q v
      s f h

restarts :
    (w : World) (name : String) (svc : Service) (d : Daemon) (rp : RunningProc) (f : Failure)
    → SeesOld w
    → svc.name ≡ name
    → sync_singular_from_map svc ≡ svc
    → svc.service_type ≡ Types.binary
    → IsServing name rp d.manager
    → w.os.started ≢ some 0
    → (restart_found w name svc d).1 ≡ some f
    → IsRestored name svc
        (record rp { candidate = false; exited = false })
        (restart_found w name svc d).0
restarts w name svc d rp f o n e b v s h =
    subst
      (λ (k : String).
        IsServing k rp d.manager
        → (restart_found w k svc d).1 ≡ some f
        → IsRestored k svc (record rp { candidate = false; exited = false })
            (restart_found w k svc d).0)
      n
      (λ v' h'.
        let (a, p, q) = tracked-cases svc.name d.manager rp v'.object in
        restart_found-IsUndone w svc svc d a rp o e refl p q v' s refl b f h')
      v h

-- Where a binary service is registered and runs and its process is seen to be alive, and a restart of
-- it fails, at whatever step: the old process is tracked again with its command, its PID and its
-- ports, and the entry is what it was, but for the starts that it remembers.
pub restart_locked-IsRestored :
    (w : World) (name : String) (svc : Service) (d : Daemon) (rp : RunningProc) (f : Failure)
    → SeesOld w
    → IsValid d.registry
    → lookup name d.registry.services ≡ some svc
    → svc.service_type ≡ Types.binary
    → IsServing name rp d.manager
    → w.os.started ≢ some 0
    → (restart_locked w name d).1 ≡ some f
    → IsRestored name svc
        (record rp { candidate = false; exited = false })
        (restart_locked w name d).0
unfolding restart_locked
restart_locked-IsRestored w name svc d rp f o r l b v s h =
    let e : IsEntry name svc = Entries-lookup IsEntry d.registry.services name svc r.entries l in
    rw (restart_locked, l)
      (restarts w name svc d rp f o e.draft.named (sync_id name svc e) b v s
        (rw (restart_locked, l) at h))
