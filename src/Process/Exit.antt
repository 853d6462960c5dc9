-- ===== src/Process/Exit.antt =====
-- internal/process/process.go: the goroutine that `start` leaves behind, which waits for the process
-- and takes the lock once it has exited.
use anito.Prelude.{
  ℕ, ◌+◌, String, Bool, true, false, Option, none, some, List, [], ◌∷◌, ◌==◌, ℕ_comparable,
  text_comparable, if◌then◌else◌,
}
use anito.Assoc.{lookup, insert, delete}
use anito.Registry.Types.{code}
use anito.Registry.Types
use anito.Registry.Calls.{Call, sets_status, completes_start}
use anito.Process.Types.{RunningProc, Waiter, Manager}
use anito.Process.Manager.{tracked}

-- `os.ProcessState`: absent, ended with a code, killed by a signal, or neither.
pub data ProcessState : Type 0 where
  absent neither : ProcessState
  exited signaled : ℕ → ProcessState

unfoldable pub process_exit_code : ProcessState → ℕ
process_exit_code absent = 1
process_exit_code (exited n) = n
process_exit_code (signaled sig) = 128 + sig
process_exit_code neither = 1

unfoldable pub without : ℕ → List Waiter → List Waiter
without cmd [] = []
without cmd (w ∷ ws) = if w.cmd == cmd then without cmd ws else w ∷ without cmd ws

-- "Only delete our own entry": the table's process under the name runs the same command.
abbrev pub is_own : ℕ → Option RunningProc → Bool
is_own cmd none = false
is_own cmd (some rp) = rp.cmd == cmd

abbrev pub is_candidate : Option RunningProc → Bool
is_candidate none = false
is_candidate (some rp) = rp.candidate

abbrev pub mark_exited : ℕ → Option RunningProc → List (ℕ × RunningProc) → List (ℕ × RunningProc)
mark_exited a none heap = heap
mark_exited a (some rp) heap = insert a (record rp { exited = true }) heap

-- The part under the lock.
unfoldable pub unregister : Waiter → Manager → Manager
unregister w m = record m {
  heap = mark_exited w.proc (lookup w.proc m.heap) m.heap;
  procs = if is_own w.cmd (tracked w.service m) then delete w.service m.procs else m.procs;
  draining = delete w.pid m.draining;
  waiting = without w.cmd m.waiting;
}

-- The calls of the registry after the lock is released, and the name that `OnCrash` is called with.
unfoldable pub reported : Waiter → Option ℕ → Bool → ℕ → ℕ → ℕ → List Call × Option String
reported w (some recorded) candidate exit d now =
    (completes_start w.service w.started_at (code recorded) d now ∷ [], none)
reported w none true exit d now =
    (completes_start w.service w.started_at (code exit) d now ∷ [], none)
reported w none false exit d now = (
  completes_start w.service w.started_at (code exit) d now
      ∷ sets_status w.service Types.failed 0 now
      ∷ [],
  some w.service,
)

-- The goroutine from the end of `cmd.Wait()` on; `d` is the time since the start.
unfoldable pub exit : Waiter → ProcessState → ℕ → ℕ → Manager → Manager × List Call × Option String
unfolding reported
exit w state d now m =
    let (calls, crashed) =
      reported w (lookup w.pid m.draining) (is_candidate (lookup w.proc m.heap))
        (process_exit_code state) d now in
    (unregister w m, calls, crashed)
