-- ===== src/Process/Quiet.antt =====
-- An intentional termination is not taken for a crash, whatever happens before the process is gone.
use anito.Prelude.{
  ℕ, String, ◌≡◌, refl, ◌≢◌, inl, inr, Bool, Option, none, some, List, [], ◌∷◌, arith, ◌==◌,
  ℕ_comparable, text_comparable, Bool-cases, Option-cases, All,
}
use anito.Assoc.{lookup, insert, lookup-insert, lookup-insert_self, lookup-delete_ne}
use anito.Registry.Types.{Service, code}
use anito.Registry.Calls.{Call, completes_start}
use anito.Process.Types.{RunningProc, Waiter, Manager}
use anito.Process.Manager.{
  start, activate, stop, stop_failed, detach, restore, mark_draining, tracked, Launch,
}
use anito.Process.Exit.{ProcessState, exit, unregister}
use anito.Process.Events.{
  Event, starts_one, activates, stops, stops_failed, detaches, restores_one, drains, exits, after,
  run_events,
}

-- The exit of this waiter's process is expected.
abbrev pub IsExpected : ℕ → Manager → Type 0
IsExpected pid m = lookup pid m.draining ≢ none

-- The event is not the exit of a process with that PID.
abbrev pub IsNotExit : ℕ → Event → Type 0
IsNotExit pid (exits w state d now) = w.pid ≢ pid
IsNotExit pid _ = Unit

insert-IsExpected :
    (pid p exit : ℕ) (draining : List (ℕ × ℕ))
    → lookup pid draining ≢ none
    → lookup pid (insert p exit draining) ≢ none
insert-IsExpected pid p exit draining h e = ground (arith, lookup-insert p pid exit draining)

pub of_insert :
    (pid exit : ℕ) (draining : List (ℕ × ℕ)) → lookup pid (insert pid exit draining) ≢ none
of_insert pid exit draining e = cc (e, lookup-insert_self pid exit draining)

pub start_draining :
    (os : Launch) (svc : Service) (candidate : Bool) (now later : ℕ) (m : Manager)
    → (start os svc candidate now later m).0.draining ≡ m.draining
unfolding start
start_draining os svc candidate now later m = ground arith

stop-IsExpected :
    (pid : ℕ) (name : String) (m : Manager) → IsExpected pid m → IsExpected pid (stop name m).0
unfolding stop
stop-IsExpected pid name m h = elim (Option-cases (tracked name m)) [
  | inl p ↦ rw p h
  | inr (rp, p) ↦ rw p (insert-IsExpected pid rp.pid 0 m.draining h)
]

stop_failed-IsExpected :
    (pid : ℕ) (name : String) (m : Manager)
    → IsExpected pid m
    → IsExpected pid (stop_failed name m).0
unfolding stop_failed
stop_failed-IsExpected pid name m h = elim (Option-cases (tracked name m)) [
  | inl p ↦ rw p h
  | inr (rp, p) ↦ rw p (insert-IsExpected pid rp.pid 1 m.draining h)
]

pub mark_draining-IsExpected :
    (pid p : ℕ) (m : Manager) → IsExpected pid m → IsExpected pid (mark_draining p m)
unfolding mark_draining
mark_draining-IsExpected pid p m h = elim (Bool-cases (p == 0)) [
  | inl q ↦ rw q h
  | inr q ↦ rw q (insert-IsExpected pid p 0 m.draining h)
]

exit-IsExpected :
    (pid : ℕ) (w : Waiter) (state : ProcessState) (d now : ℕ) (m : Manager)
    → w.pid ≢ pid
    → IsExpected pid m
    → IsExpected pid (exit w state d now m).0
unfolding exit unregister
exit-IsExpected pid w state d now m n h = rw (lookup-delete_ne w.pid pid m.draining n) h

after-IsExpected :
    (pid : ℕ) (e : Event) (m : Manager)
    → IsNotExit pid e
    → IsExpected pid m
    → IsExpected pid (after e m)
unfolding after
after-IsExpected pid (starts_one os svc candidate now later) m n h =
    rw (start_draining os svc candidate now later m) h
after-IsExpected pid (activates name) m n h = unfold activate in ground arith
after-IsExpected pid (stops name) m n h = stop-IsExpected pid name m h
after-IsExpected pid (stops_failed name) m n h = stop_failed-IsExpected pid name m h
after-IsExpected pid (detaches name) m n h = unfold detach in ground arith
after-IsExpected pid (restores_one finished alive name none) m n h = unfold restore in h
after-IsExpected pid (restores_one finished alive name (some dp)) m n h =
    unfold restore in ground arith
after-IsExpected pid (drains p) m n h = mark_draining-IsExpected pid p m h
after-IsExpected pid (exits w state d now) m n h = exit-IsExpected pid w state d now m n h

run_events-IsExpected :
    (pid : ℕ) (es : List Event) (m : Manager)
    → All (IsNotExit pid) es
    → IsExpected pid m
    → IsExpected pid (run_events m es)
unfolding run_events
run_events-IsExpected pid [] m n h = h
run_events-IsExpected pid (e ∷ es) m (n, ns) h =
    run_events-IsExpected pid es (after e m) ns (after-IsExpected pid e m n h)

-- An exit that is expected: `OnCrash` is not called and the status is not touched.
abbrev pub IsQuiet : Waiter → ℕ → ℕ → Manager × List Call × Option String → Type 0
IsQuiet w d now result =
    (c : ℕ) × (result.1 ≡ completes_start w.service w.started_at (code c) d now ∷ [])
    × (result.2 ≡ none)

pub exit-IsQuiet :
    (w : Waiter) (state : ProcessState) (d now : ℕ) (m : Manager)
    → IsExpected w.pid m
    → IsQuiet w d now (exit w state d now m)
unfolding exit
exit-IsQuiet w state d now m h = elim (Option-cases (lookup w.pid m.draining)) [
  | inl p ↦ absurd (h p)
  | inr (c, p) ↦ rw p (c, refl, refl)
]

-- After `Stop` or `StopFailed` of a tracked process, whatever else happens to the manager before
-- that process is gone (starts, restores, exits of processes with another PID), its exit calls only
-- `CompleteStart`, and `OnCrash` is not called.
pub exit-stop :
    (name : String) (m : Manager) (rp : RunningProc) (es : List Event) (w : Waiter)
    (state : ProcessState) (d now : ℕ)
    → tracked name m ≡ some rp
    → w.pid ≡ rp.pid
    → All (IsNotExit w.pid) es
    → IsQuiet w d now (exit w state d now (run_events (stop name m).0 es))
      × IsQuiet w d now (exit w state d now (run_events (stop_failed name m).0 es))
unfolding stop stop_failed
exit-stop name m rp es w state d now h p n = (
  exit-IsQuiet w state d now (run_events (stop name m).0 es) (
      run_events-IsExpected w.pid es (stop name m).0 n (rw (h, p) (of_insert rp.pid 0 m.draining))),
  exit-IsQuiet w state d now (run_events (stop_failed name m).0 es) (
      run_events-IsExpected w.pid es (stop_failed name m).0 n
        (rw (h, p) (of_insert rp.pid 1 m.draining))),
)
