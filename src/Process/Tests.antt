-- ===== src/Process/Tests.antt =====
-- Runs of the manager on a concrete service, and the theorems at inputs that meet their hypotheses.
use anito.Prelude.{
  ℕ, ◌≡◌, refl, ◌≢◌, true, false, none, some, List, [], ◌∷◌, arith, text_comparable, ℕ_comparable,
}
use anito.Assoc.{lookup, insert}
use anito.Registry.Tests.{api}
use anito.Registry.Types.{Ports}
use anito.Process.Types.{Manager, ok, err, already_running}
use anito.Process.Manager.{
  new, start, activate, detach, restore, tracked, Launch, is_running, stop, stop_failed,
  mark_draining, launched, reserve_internal_ports,
}
use anito.Process.Exit.{exited, signaled, exit, process_exit_code}
use anito.Process.Events.{Event, starts_one, exits, activates, run_events}
use anito.Process.Quiet.{IsQuiet, exit-stop}
use anito.Process.Table.{exit-tracked, restore-detach, started_proc}
use anito.Process.Candidate.{start-exit, waiter_of, crash_calls, exit-activate, exit-mark_draining}

-- The port 50300 is free, and the process gets the PID 4242.
abbrev pub os : Launch
os = record { free_port = λ name. some 50300; setup = true; started = some 4242 }

abbrev pub fresh_ports : Ports
fresh_ports = ("http", 50300) ∷ ("ws", 50300) ∷ []

starts_api : (start os api false 30 31 new).2 ≡ ok fresh_ports
unfolding start lookup is_running new reserve_internal_ports
starts_api = refl

api_started : (start os api false 30 31 new).0 ≡ launched api false 30 fresh_ports 4242 new
unfolding start lookup is_running new reserve_internal_ports
api_started = refl

exit_of_signal : process_exit_code (signaled 9) ≡ 137
unfolding process_exit_code
exit_of_signal = refl

-- The manager that runs `api`.
abbrev pub busy : Manager
busy = launched api false 30 fresh_ports 4242 new

api_object : tracked "api" busy ≡ some (started_proc api false fresh_ports 4242 new)
unfolding tracked launched lookup insert new
api_object = refl

refused : (start os api false 40 41 busy).2 ≡ err (already_running "api")
unfolding start lookup launched insert is_running new
refused = refl

other_pid : ◌≢◌ {A = ℕ} 4300 4242
other_pid e = absurd (omega arith)

-- The same name is started again while the old process drains, and a third process exits.
abbrev meanwhile : List Event
meanwhile =
    starts_one (record os { started = some 4243 }) api true 33 34
    ∷ activates "api"
    ∷ exits (record { service = "web"; proc = 9; cmd = 9; pid = 4300; started_at = 1 }) (exited 0) 5
        35
    ∷ []

exit-stop_example :
    IsQuiet (waiter_of api 30 4242 new) 12 42 (
      exit
        (waiter_of api 30 4242 new)
        (signaled 15)
        12
        42
        (run_events (stop "api" busy).0 meanwhile))
    × IsQuiet (waiter_of api 30 4242 new) 12 42 (
        exit
          (waiter_of api 30 4242 new)
          (signaled 15)
          12
          42
          (run_events (stop_failed "api" busy).0 meanwhile))
exit-stop_example =
    exit-stop "api" busy (started_proc api false fresh_ports 4242 new) meanwhile
      (waiter_of api 30 4242 new) (signaled 15) 12 42 api_object refl (tt, (tt, (other_pid, tt)))

new_cmd : ◌≢◌ {A = ℕ} 7 0
new_cmd e = absurd (omega arith)

api_address : lookup "api" busy.procs ≡ some 0
unfolding launched insert lookup new
api_address = refl

api_heap : lookup 0 busy.heap ≡ some (started_proc api false fresh_ports 4242 new)
unfolding launched insert lookup new
api_heap = refl

exit-tracked_example :
    tracked "api"
      (exit
        (record { service = "api"; proc = 7; cmd = 7; pid = 4100; started_at = 1 })
        (exited 1)
        3
        50
        busy).0
    ≡ some (started_proc api false fresh_ports 4242 new)
unfolding new
exit-tracked_example =
    exit-tracked "api" busy (started_proc api false fresh_ports 4242 new) 0
      (record { service = "api"; proc = 7; cmd = 7; pid = 4100; started_at = 1 }) (exited 1) 3 50
      api_address api_heap new_cmd new_cmd

restore-detach_example :
    (is_running "api" (detach "api" busy).0 ≡ false)
    × ((restore false true "api" (detach "api" busy).1 (detach "api" busy).0).1 ≡ ok true)
    × (tracked "api" (restore false true "api" (detach "api" busy).1 (detach "api" busy).0).0
        ≡ some (record (started_proc api false fresh_ports 4242 new) { candidate = false }))
restore-detach_example =
    restore-detach "api" busy (started_proc api false fresh_ports 4242 new) api_object refl

starts_candidate : (start os api true 30 31 new).2 ≡ ok fresh_ports
unfolding start lookup is_running new reserve_internal_ports
starts_candidate = refl

exit-activate_example :
    ((exit (waiter_of api 30 4242 new) (exited 1) 2 33 (start os api true 30 31 new).0).2 ≡ none)
    × ((activate "api" (start os api true 30 31 new).0).1 ≡ ok tt)
    × ((exit
          (waiter_of api 30 4242 new)
          (exited 1)
          2
          33
          (activate "api" (start os api true 30 31 new).0).0).1
        ≡ crash_calls api 30 (exited 1) 2 33)
    × ((exit
          (waiter_of api 30 4242 new)
          (exited 1)
          2
          33
          (activate "api" (start os api true 30 31 new).0).0).2
        ≡ some "api")
unfolding lookup new
exit-activate_example =
    exit-activate os api 30 31 new fresh_ports 4242 (exited 1) 2 33 starts_candidate refl refl

starts_marked : (start os api false 30 31 (mark_draining 4242 new)).2 ≡ ok fresh_ports
unfolding start lookup is_running new reserve_internal_ports mark_draining
starts_marked = refl

some_pid : ◌≢◌ {A = ℕ} 4242 0
some_pid e = absurd (omega arith)

exit-mark_draining_example : IsQuiet (waiter_of api 30 4242 new) 2 33 (
    exit
      (waiter_of api 30 4242 new)
      (exited 1)
      2
      33
      (start os api false 30 31 (mark_draining 4242 new)).0)
exit-mark_draining_example =
    exit-mark_draining os api 30 31 new fresh_ports 4242 (exited 1) 2 33 starts_marked refl some_pid

start-exit_example :
    (is_running "api"
        (exit (waiter_of api 30 4242 new) (exited 1) 2 33 (start os api false 30 31 new).0).0
      ≡ false)
    × (lookup 4242
          (exit
            (waiter_of api 30 4242 new)
            (exited 1)
            2
            33
            (start os api false 30 31 new).0).0.draining
        ≡ none)
start-exit_example =
    start-exit os api false 30 31 new fresh_ports 4242 (exited 1) 2 33 starts_api refl
