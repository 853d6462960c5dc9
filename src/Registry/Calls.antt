-- ===== src/Registry/Calls.antt =====
-- The calls that change the registry, and the registry after a history of calls.
use anito.Prelude.{ℕ, String, Bool, Option, List, [], ◌∷◌}
use anito.Registry.Types.{Ports, Service, StartEvent, ServiceStatus, ExitCode}
use anito.Registry.Store.{Codec, Io, Registry}
use anito.Registry.Methods.{
  register, restore, archive, restore_archived, prune, update_status, update_last_deployed,
  update_start_history, update_process_started, mark_running, record_start, complete_start,
  update_last_started, update_crash_state, update_internal_ports, remove,
}

pub data Call : Type 0 where
  registers : ℕ → ℕ → Service → Call
  restores : Option Service → Call
  archives : String → ℕ → ℕ → Call
  unarchives : String → ℕ → Call
  prunes : String → ℕ → Call
  sets_status : String → ServiceStatus → ℕ → ℕ → Call
  sets_last_deployed : String → ℕ → ℕ → Call
  adds_event : String → StartEvent → ℕ → Call
  starts : String → Ports → ℕ → ℕ → Call
  marks_running : String → ℕ → ℕ → ℕ → Call
  records_start : String → ℕ → ℕ → Call
  completes_start : String → ℕ → ExitCode → ℕ → ℕ → Call
  sets_last_started : String → ℕ → ℕ → Call
  sets_crash_state : String → ℕ → Bool → ℕ → Call
  sets_internal_ports : String → Ports → ℕ → Call
  removes : String → Call

unfoldable pub step : Codec → Io → Call → Registry → Registry
step c io (registers now later s) r = (register c io now later s r).0
step c io (restores s) r = (restore c io s r).0
step c io (archives name now later) r = (archive c io name now later r).0
step c io (unarchives name now) r = (restore_archived c io name now r).0
step c io (prunes name now) r = (prune c io name now r).0
step c io (sets_status name status pid now) r = (update_status c io name status pid now r).0
step c io (sets_last_deployed name t now) r = (update_last_deployed c io name t now r).0
step c io (adds_event name e now) r = (update_start_history c io name e now r).0
step c io (starts name ports t now) r = (update_process_started c io name ports t now r).0
step c io (marks_running name pid t now) r = (mark_running c io name pid t now r).0
step c io (records_start name t now) r = (record_start c io name t now r).0
step c io (completes_start name t exit d now) r = (complete_start c io name t exit d now r).0
step c io (sets_last_started name t now) r = (update_last_started c io name t now r).0
step c io (sets_crash_state name n gave_up now) r = (update_crash_state c io name n gave_up now r).0
step c io (sets_internal_ports name ports now) r = (update_internal_ports c io name ports now r).0
step c io (removes name) r = (remove c io name r).0

-- Each call comes with how its file operations end.
unfoldable pub run : Codec → Registry → List (Call × Io) → Registry
run c r [] = r
run c r ((call, io) ∷ calls) = run c (step c io call r) calls
