-- ===== src/Process/Table.antt =====
-- One process in the table: what a start tracks, and that the exit of an older process does not
-- remove it; a process that is detached and restored.

use anito.Prelude.{
  ℕ, String, ◌≡◌, refl, sym, ◌≢◌, inl, inr, Bool, true, false, Option, none, some, List, [], ◌∷◌,
  arith, ◌==◌, ℕ_comparable, text_comparable, Bool-cases, Option-cases, ==_of_ne, ne_of_==,
}
use anito.Assoc.{
  lookup, delete, lookup-insert_self, lookup-insert_ne, lookup-delete_self, lookup-delete_ne,
}
use anito.Registry.Types.{Ports, Service, code}
use anito.Registry.Types
use anito.Registry.Ports.{pick_port}
use anito.Registry.Calls.{starts}
use anito.Process.Types.{RunningProc, Waiter, Manager, ok, err, Error}
use anito.Process.Manager.{
  start, launched, reserve_internal_ports, detach, restore, tracked, Launch, is_running, Outcome,
}
use anito.Process.Exit.{ProcessState, exit, unregister, is_own, mark_exited}

-- The object of the process that a start tracks.
abbrev pub started_proc : Service → Bool → Ports → ℕ → Manager → RunningProc
started_proc svc candidate ports pid m = record {
  cmd = m.next;
  pid = pid;
  internal_port = pick_port ports svc.health_check_port;
  internal_ports = ports;
  candidate = candidate;
  exited = false;
}

-- A start that took place.
pub record IsStarted (os : Launch) (svc : Service) (candidate : Bool) (now later : ℕ) (m : Manager)
    (ports : Ports) (result : Outcome Ports) : Type 0 where
  pub pid : ℕ
  pub spawned : os.started ≡ some pid
  pub free : is_running svc.name m ≡ false
  pub reserved : reserve_internal_ports os.free_port svc.stable_ports ≡ some ports
  pub binary : svc.service_type ≡ Types.binary
  pub object : tracked svc.name result.0 ≡ some (started_proc svc candidate ports pid m)
  pub others : (j : String) → svc.name ≢ j → lookup j result.0.procs ≡ lookup j m.procs
  pub draining : result.0.draining ≡ m.draining
  pub calls : result.1 ≡ starts svc.name ports now later ∷ []

-- What the branches of `start` leave.
pub start-cases :
    (os : Launch) (svc : Service) (candidate : Bool) (now later : ℕ) (m : Manager) (ports : Ports)
    → (start os svc candidate now later m).2 ≡ ok ports
    → (is_running svc.name m ≡ false)
      × (reserve_internal_ports os.free_port svc.stable_ports ≡ some ports)
      × (svc.service_type ≡ Types.binary)
      × ((pid : ℕ) × (os.started ≡ some pid)
          × (start os svc candidate now later m ≡ (
            launched svc candidate now ports pid m,
            starts svc.name ports now later ∷ [],
            ok ports,
          )))
unfolding start
start-cases os svc candidate now later m ports h = ground arith

pub tracked-launched :
    (svc : Service) (candidate : Bool) (now : ℕ) (ports : Ports) (pid : ℕ) (m : Manager)
    → tracked svc.name (launched svc candidate now ports pid m)
      ≡ some (started_proc svc candidate ports pid m)
unfolding tracked launched
tracked-launched svc candidate now ports pid m =
    rw (tracked, lookup-insert_self svc.name m.next m.procs)
      (lookup-insert_self m.next (started_proc svc candidate ports pid m) m.heap)

-- A start that returns ports found the name free, reserved those ports for a binary service and
-- started a process; the table has exactly that process under the name, unexited and with its PID
-- and ports, every other name has the address that it had, the draining marks stand, and the
-- registry gets one call, with the ports.
pub start_lem :
    (os : Launch) (svc : Service) (candidate : Bool) (now later : ℕ) (m : Manager) (ports : Ports)
    → (start os svc candidate now later m).2 ≡ ok ports
    → IsStarted os svc candidate now later m ports (start os svc candidate now later m)
unfolding launched
start_lem os svc candidate now later m ports h =
    let (free, reserved, binary, (pid, spawned, e)) =
      start-cases os svc candidate now later m ports h in
    rw e (record {
      pid = pid;
      spawned = spawned;
      free = free;
      reserved = reserved;
      binary = binary;
      object = tracked-launched svc candidate now ports pid m;
      others = λ j n. lookup-insert_ne svc.name j m.next m.procs n;
      draining = refl;
      calls = refl;
    })

-- A start that returns an error leaves the manager as it was.
pub start-err :
    (os : Launch) (svc : Service) (candidate : Bool) (now later : ℕ) (m : Manager) (e : Error)
    → (start os svc candidate now later m).2 ≡ err e
    → (start os svc candidate now later m).0 ≡ m
unfolding start
start-err os svc candidate now later m e h = ground arith

pub lookup-mark_exited :
    (b a : ℕ) (o : Option RunningProc) (heap : List (ℕ × RunningProc))
    → b ≢ a
    → lookup a (mark_exited b o heap) ≡ lookup a heap
lookup-mark_exited b a none heap k = refl
lookup-mark_exited b a (some rp) heap k = lookup-insert_ne b a (record rp { exited = true }) heap k

pub tracked-address :
    (name : String) (m : Manager) (rp : RunningProc) (a : ℕ)
    → lookup name m.procs ≡ some a
    → lookup a m.heap ≡ some rp
    → tracked name m ≡ some rp
unfolding tracked
tracked-address name m rp a h g = rw (tracked, h) g

-- "Only delete our own entry".
exit-procs :
    (name : String) (m : Manager) (rp : RunningProc) (a : ℕ) (w : Waiter)
    → lookup name m.procs ≡ some a
    → lookup a m.heap ≡ some rp
    → w.cmd ≢ rp.cmd
    → lookup name (unregister w m).procs ≡ some a
unfolding unregister
exit-procs name m rp a w h g n = elim (Bool-cases (w.service == name)) [
  | inl p ↦
      rw
        (
          (text_comparable.same_iff w.service name).0 p,
          tracked-address name m rp a h g,
          ==_of_ne rp.cmd w.cmd (λ e. n (sym e)),
        )
        h
  | inr p ↦ elim (Bool-cases (is_own w.cmd (tracked w.service m))) [
    | inl q ↦ rw (q, lookup-delete_ne w.service name m.procs (ne_of_== w.service name p)) h
    | inr q ↦ rw q h
  ]
]

-- A process in the table stays as it is when another process exits, one with another command and
-- another object, be it of the same service or not.
pub exit-tracked :
    (name : String) (m : Manager) (rp : RunningProc) (a : ℕ) (w : Waiter) (state : ProcessState)
    (d now : ℕ)
    → lookup name m.procs ≡ some a
    → lookup a m.heap ≡ some rp
    → w.cmd ≢ rp.cmd
    → w.proc ≢ a
    → tracked name (exit w state d now m).0 ≡ some rp
unfolding exit unregister
exit-tracked name m rp a w state d now h g n k =
    tracked-address name (unregister w m) rp a (exit-procs name m rp a w h g n)
      (rw (lookup-mark_exited w.proc a (lookup w.proc m.heap) m.heap k) g)

pub tracked-cases :
    (name : String) (m : Manager) (rp : RunningProc)
    → tracked name m ≡ some rp
    → (a : ℕ) × (lookup name m.procs ≡ some a) × (lookup a m.heap ≡ some rp)
unfolding tracked
tracked-cases name m rp h = elim (Option-cases (lookup name m.procs)) [
  | inl p ↦ cc (rw (tracked, p) at h)
  | inr (a, p) ↦ (a, p, rw (tracked, p) at h)
]

is_running-delete :
    (name : String) (m : Manager)
    → is_running name (record m { procs = delete name m.procs }) ≡ false
unfolding is_running
is_running-delete name m = rw (is_running, lookup-delete_self name m.procs) refl

-- A process in the table that has not exited is not running under its name after `Detach`;
-- `Restore` of what `Detach` returned then succeeds, if the operating system still knows the PID
-- and the goroutine has not ended, and the name has the same command, PID and ports, no longer as a
-- candidate.
pub restore-detach :
    (name : String) (m : Manager) (rp : RunningProc)
    → tracked name m ≡ some rp
    → rp.exited ≡ false
    → (is_running name (detach name m).0 ≡ false)
      × ((restore false true name (detach name m).1 (detach name m).0).1 ≡ ok true)
      × (tracked name (restore false true name (detach name m).1 (detach name m).0).0
          ≡ some (record rp { candidate = false }))
unfolding detach restore
restore-detach name m rp h x =
    let (a, p, q) = tracked-cases name m rp h in
    rw (p, h, q, x)
      (rw (is_running-delete name m) (
        refl,
        refl,
        tracked-address name _ (record rp { candidate = false; exited = false }) m.next
            (lookup-insert_self name m.next (delete name m.procs))
            (lookup-insert_self m.next (record rp { candidate = false; exited = false }) m.heap),
      ))
