-- ===== src/Process/Candidate.antt =====
-- The exit of a process that a start has left: when it is reported as a crash, and what it leaves.
use anito.Prelude.{
  ℕ, String, ◌≡◌, refl, ap, ◌≢◌, Bool, true, false, none, some, List, [], ◌∷◌, arith, ℕ_comparable,
  text_comparable, ==_of_ne, ==_refl,
}
use anito.Assoc.{lookup-delete_self, lookup, insert, lookup-insert_self}
use anito.Registry.Types.{Ports, Service, code}
use anito.Registry.Types
use anito.Registry.Calls.{Call, sets_status, completes_start}
use anito.Process.Types.{RunningProc, Waiter, Manager, ok}
use anito.Process.Manager.{is_running, start, launched, activate, Launch, mark_draining}
use anito.Process.Exit.{unregister, ProcessState, exit, process_exit_code}
use anito.Process.Table.{tracked-launched, start-cases, started_proc}
use anito.Process.Quiet.{IsExpected, IsQuiet, exit-IsQuiet, of_insert, start_draining}

-- What the goroutine of a start has captured.
abbrev pub waiter_of : Service → ℕ → ℕ → Manager → Waiter
waiter_of svc now pid m = record {
  service = svc.name;
  proc = m.next;
  cmd = m.next;
  pid = pid;
  started_at = now;
}

-- The two calls that report a crash.
abbrev pub crash_calls : Service → ℕ → ProcessState → ℕ → ℕ → List Call
crash_calls svc now state d at =
    completes_start svc.name now (code (process_exit_code state)) d at
    ∷ sets_status svc.name Types.failed 0 at
    ∷ []

started_as :
    (os : Launch) (svc : Service) (candidate : Bool) (now later : ℕ) (m : Manager) (ports : Ports)
    (pid : ℕ)
    → (start os svc candidate now later m).2 ≡ ok ports
    → os.started ≡ some pid
    → (start os svc candidate now later m).0 ≡ launched svc candidate now ports pid m
started_as os svc candidate now later m ports pid h s =
    let (free, reserved, binary, (q, spawned, e)) =
      start-cases os svc candidate now later m ports h in
    let same : q ≡ pid = cc (spawned, s) in
    rw e (ap (λ r. launched svc candidate now ports r m) same)

lookup-launched :
    (svc : Service) (candidate : Bool) (now : ℕ) (ports : Ports) (pid : ℕ) (m : Manager)
    → lookup m.next (launched svc candidate now ports pid m).heap
      ≡ some (started_proc svc candidate ports pid m)
unfolding launched
lookup-launched svc candidate now ports pid m =
    lookup-insert_self m.next (started_proc svc candidate ports pid m) m.heap

-- The manager after the candidate is promoted.
abbrev pub promoted : Service → ℕ → Ports → ℕ → Manager → Manager
promoted svc now ports pid m = record (launched svc true now ports pid m) {
  heap =
      insert m.next (started_proc svc false ports pid m) (launched svc true now ports pid m).heap;
}

activate_lem :
    (name : String) (m : Manager) (a : ℕ) (rp : RunningProc)
    → lookup name m.procs ≡ some a
    → lookup a m.heap ≡ some rp
    → activate name m
      ≡ (record m { heap = insert a (record rp { candidate = false }) m.heap }, ok tt)
unfolding activate
activate_lem name m a rp h g = ground arith

lookup-launched_procs :
    (svc : Service) (candidate : Bool) (now : ℕ) (ports : Ports) (pid : ℕ) (m : Manager)
    → lookup svc.name (launched svc candidate now ports pid m).procs ≡ some m.next
unfolding launched
lookup-launched_procs svc candidate now ports pid m = lookup-insert_self svc.name m.next m.procs

pub activate-launched :
    (svc : Service) (now : ℕ) (ports : Ports) (pid : ℕ) (m : Manager)
    → activate svc.name (launched svc true now ports pid m) ≡ (promoted svc now ports pid m, ok tt)
activate-launched svc now ports pid m =
    activate_lem svc.name (launched svc true now ports pid m) m.next
      (started_proc svc true ports pid m) (lookup-launched_procs svc true now ports pid m)
      (lookup-launched svc true now ports pid m)

exit_candidate :
    (w : Waiter) (state : ProcessState) (d at : ℕ) (m : Manager) (rp : RunningProc)
    → lookup w.pid m.draining ≡ none
    → lookup w.proc m.heap ≡ some rp
    → rp.candidate ≡ true
    → (exit w state d at m).2 ≡ none
unfolding exit
exit_candidate w state d at m rp h g c = rw (h, g, c) refl

exit_active :
    (w : Waiter) (state : ProcessState) (d at : ℕ) (m : Manager) (rp : RunningProc)
    → lookup w.pid m.draining ≡ none
    → lookup w.proc m.heap ≡ some rp
    → rp.candidate ≡ false
    → ((exit w state d at m).1
        ≡ completes_start w.service w.started_at (code (process_exit_code state)) d at
          ∷ sets_status w.service Types.failed 0 at
          ∷ [])
      × ((exit w state d at m).2 ≡ some w.service)
unfolding exit
exit_active w state d at m rp h g c = rw (h, g, c) (refl, refl)

-- Of a candidate that has been started with a PID that is not marked as draining: its exit calls no
-- `OnCrash`; `Activate` succeeds, and the exit after it completes the start, marks the service
-- failed and calls `OnCrash` with its name.
pub exit-activate :
    (os : Launch) (svc : Service) (now later : ℕ) (m : Manager) (ports : Ports) (pid : ℕ)
    (state : ProcessState) (d at : ℕ)
    → (start os svc true now later m).2 ≡ ok ports
    → os.started ≡ some pid
    → lookup pid m.draining ≡ none
    → ((exit (waiter_of svc now pid m) state d at (start os svc true now later m).0).2 ≡ none)
      × ((activate svc.name (start os svc true now later m).0).1 ≡ ok tt)
      × ((exit
            (waiter_of svc now pid m)
            state
            d
            at
            (activate svc.name (start os svc true now later m).0).0).1
          ≡ crash_calls svc now state d at)
      × ((exit
            (waiter_of svc now pid m)
            state
            d
            at
            (activate svc.name (start os svc true now later m).0).0).2
          ≡ some svc.name)
unfolding launched
exit-activate os svc now later m ports pid state d at h s g =
    let (crashed, told) =
      exit_active (waiter_of svc now pid m) state d at (promoted svc now ports pid m)
        (started_proc svc false ports pid m) g
        (lookup-insert_self m.next (started_proc svc false ports pid m)
          (launched svc true now ports pid m).heap)
        refl in
    rw (started_as os svc true now later m ports pid h s, activate-launched svc now ports pid m)
      (
        exit_candidate (waiter_of svc now pid m) state d at (launched svc true now ports pid m)
            (started_proc svc true ports pid m) g (lookup-launched svc true now ports pid m) refl,
        refl,
        crashed,
        told,
      )

marked : (pid : ℕ) (m : Manager) → pid ≢ 0 → IsExpected pid (mark_draining pid m)
unfolding mark_draining
marked pid m n = rw (==_of_ne pid 0 n) (of_insert pid 0 m.draining)

-- Where a PID is marked as draining and a service is then started with that PID, the exit of that
-- service only completes the start, and `OnCrash` is not called.
pub exit-mark_draining :
    (os : Launch) (svc : Service) (now later : ℕ) (m : Manager) (ports : Ports) (pid : ℕ)
    (state : ProcessState) (d at : ℕ)
    → (start os svc false now later (mark_draining pid m)).2 ≡ ok ports
    → os.started ≡ some pid
    → pid ≢ 0
    → IsQuiet (waiter_of svc now pid m) d at (
        exit
          (waiter_of svc now pid m)
          state
          d
          at
          (start os svc false now later (mark_draining pid m)).0)
exit-mark_draining os svc now later m ports pid state d at h s n =
    exit-IsQuiet (waiter_of svc now pid m) state d at
      (start os svc false now later (mark_draining pid m)).0
      (rw (start_draining os svc false now later (mark_draining pid m)) (marked pid m n))

pub unregister-launched :
    (svc : Service) (candidate : Bool) (now : ℕ) (ports : Ports) (pid : ℕ) (m : Manager)
    → is_running svc.name
        (unregister (waiter_of svc now pid m) (launched svc candidate now ports pid m))
      ≡ false
unfolding unregister is_running
unregister-launched svc candidate now ports pid m =
    rw
      (
        tracked-launched svc candidate now ports pid m,
        ==_refl m.next,
        is_running,
        lookup-delete_self svc.name (launched svc candidate now ports pid m).procs,
      )
      refl

-- After a start that returned ports and the exit of its process, with nothing between them, the name
-- is free and the PID has no draining mark, so that a restart is not refused as already running.
pub start-exit :
    (os : Launch) (svc : Service) (candidate : Bool) (now later : ℕ) (m : Manager) (ports : Ports)
    (pid : ℕ) (state : ProcessState) (d at : ℕ)
    → (start os svc candidate now later m).2 ≡ ok ports
    → os.started ≡ some pid
    → (is_running svc.name
          (exit (waiter_of svc now pid m) state d at (start os svc candidate now later m).0).0
        ≡ false)
      × (lookup pid
            (exit
              (waiter_of svc now pid m)
              state
              d
              at
              (start os svc candidate now later m).0).0.draining
          ≡ none)
unfolding exit unregister
start-exit os svc candidate now later m ports pid state d at h s =
    rw (started_as os svc candidate now later m ports pid h s) (
      unregister-launched svc candidate now ports pid m,
      lookup-delete_self pid (launched svc candidate now ports pid m).draining,
    )
