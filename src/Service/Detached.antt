-- ===== src/Service/Detached.antt =====
-- The process that a restart or a deployment has detached, while its candidate comes and goes.
use anito.Prelude.{
  ℕ, String, ◌≡◌, refl, ap, ◌≢◌, true, false, Option, none, some, List, [], ◌∷◌, ℕ_comparable,
  text_comparable, ==_refl, if_both,
}
use anito.Assoc.{lookup, insert, delete, lookup-insert_self, lookup-insert_ne, lookup-delete_self}
use anito.Assoc.Keys.{lookup-delete-none}
use anito.Registry.Types.{Ports, Service}
use anito.Registry.Calls.{Call}
use anito.Process.Types.{RunningProc, Waiter, Manager, DetachedProcess}
use anito.Process.Manager.{restore, tracked, is_running, launched, exited_at, stop_failed, stop}
use anito.Process.Exit.{ProcessState, exit, unregister, is_own}
use anito.Process.Table.{tracked-launched, started_proc, tracked-address, lookup-mark_exited}
use anito.Process.Candidate.{waiter_of}
use anito.Service.World.{
  Daemon, World, tell, tell_all, goroutine, ended, waiter_for, stopped_by, stop_failed_candidate,
  stop_candidate,
}

-- The name is free, and the object at the address `a` has not exited.
abbrev pub IsFree : String → ℕ → Manager → Type 0
IsFree name a m = (lookup name m.procs ≡ none) × (exited_at (lookup a m.heap) ≡ false)

-- What `Restore` tracks.
abbrev pub reattached : DetachedProcess → RunningProc
reattached dp = record {
  cmd = dp.cmd;
  pid = dp.pid;
  internal_port = dp.internal_port;
  internal_ports = dp.internal_ports;
  candidate = false;
  exited = false;
}

pub restore-IsFree :
    (name : String) (dp : DetachedProcess) (m : Manager)
    → IsFree name dp.proc m
    → tracked name (restore false true name (some dp) m).0 ≡ some (reattached dp)
unfolding restore is_running
restore-IsFree name dp m (f, x) =
    rw (x, is_running, f)
      (tracked-address name _ (reattached dp) m.next (lookup-insert_self name m.next m.procs)
        (lookup-insert_self m.next (reattached dp) m.heap))

unregister-IsFree :
    (name : String) (a : ℕ) (w : Waiter) (m : Manager)
    → w.proc ≢ a
    → IsFree name a m
    → IsFree name a (unregister w m)
unfolding unregister
unregister-IsFree name a w m n (f, x) = (
  if_both (λ procs. lookup name procs ≡ none) (is_own w.cmd (tracked w.service m))
      (delete w.service m.procs) m.procs (λ e. lookup-delete-none w.service name m.procs f)
      (λ e. f),
  rw (lookup-mark_exited w.proc a (lookup w.proc m.heap) m.heap n) x,
)

-- The calls of the registry are no business of the process manager's.
pub tell_all-manager :
    (w : World) (calls : List Call) (d : Daemon) → (tell_all w calls d).manager ≡ d.manager
unfolding tell_all
tell_all-manager w [] d = refl
tell_all-manager w (call ∷ calls) d = tell_all-manager w calls (tell w call d)

pub goroutine-manager :
    (w : World) (d : Daemon) (waiter : Waiter) (state : ProcessState)
    → (goroutine w d (some waiter) (some state)).manager ≡ unregister waiter d.manager
unfolding goroutine exit
goroutine-manager w d waiter state = tell_all-manager w _ _

goroutine-IsFree :
    (name : String) (a : ℕ) (w : World) (d : Daemon) (waiter : Waiter) (state : Option ProcessState)
    → waiter.proc ≢ a
    → IsFree name a d.manager
    → IsFree name a (goroutine w d (some waiter) state).manager
unfolding goroutine
goroutine-IsFree name a w d waiter none n f = f
goroutine-IsFree name a w d waiter (some state) n f =
    rw (goroutine-manager w d waiter state) (unregister-IsFree name a waiter d.manager n f)

module _ (svc : Service) (now : ℕ) (ports : Ports) (pid : ℕ) (m : Manager) where
  abbrev candidate : Manager
  candidate = launched svc true now ports pid m

  pub waiter_for-launched : waiter_for m.next candidate.waiting ≡ some (waiter_of svc now pid m)
  unfolding waiter_for launched
  waiter_for-launched = rw (==_refl m.next) refl

  -- The old process has its own object.
  pub lookup-launched_old : (a : ℕ) → m.next ≢ a → lookup a candidate.heap ≡ lookup a m.heap
  unfolding launched
  lookup-launched_old a n = lookup-insert_ne m.next a (started_proc svc true ports pid m) m.heap n

  -- A candidate that has exited leaves the name free.
  pub unregister-candidate :
      (a : ℕ)
      → m.next ≢ a
      → exited_at (lookup a m.heap) ≡ false
      → IsFree svc.name a (unregister (waiter_of svc now pid m) candidate)
  unfolding unregister
  unregister-candidate a n x = (
    rw (tracked-launched svc true now ports pid m, ==_refl m.next)
        (lookup-delete_self svc.name candidate.procs),
    rw
        (
          lookup-mark_exited m.next a (lookup m.next candidate.heap) candidate.heap n,
          lookup-launched_old a n,
        )
        x,
  )

  module _ (w : World) (a : ℕ) (n : m.next ≢ a) (x : exited_at (lookup a m.heap) ≡ false) where
    stopped-IsFree :
        (exit_code : ℕ) (d : Daemon)
        → d.manager ≡ record candidate {
          procs = delete svc.name candidate.procs;
          draining = insert pid exit_code candidate.draining;
        }
        → IsFree svc.name a (ended w m.next w.ends d).manager
    stopped-IsFree exit_code d e =
        rw (ap (λ (q : Manager). waiter_for m.next q.waiting) e, waiter_for-launched)
          (goroutine-IsFree svc.name a w d (waiter_of svc now pid m) w.ends n
            (rw (e) (lookup-delete_self svc.name candidate.procs, rw (lookup-launched_old a n) x)))

    pub stop_failed-IsFree :
        (d : Daemon)
        → d.manager ≡ candidate
        → IsFree svc.name a (stop_failed_candidate w svc.name d).manager
    unfolding stop_failed stopped_by
    stop_failed-IsFree d e =
        rw (e, tracked-launched svc true now ports pid m) (stopped-IsFree 1 _ refl)

    pub stop-IsFree :
        (d : Daemon)
        → d.manager ≡ candidate
        → IsFree svc.name a (stop_candidate w svc.name d).manager
    unfolding stop stopped_by
    stop-IsFree d e = rw (e, tracked-launched svc true now ports pid m) (stopped-IsFree 0 _ refl)
