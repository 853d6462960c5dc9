-- ===== src/Registry/Edits.antt =====
-- internal/registry/registry.go: what each method writes into the service that it is called for.
-- Each takes the clock's readings as arguments. Records are values here, so `cloneService`, `Clone`,
-- `copyPorts` and `copyPortMap`, which copy what the caller could share, change nothing.
use anito.Prelude.{
  ℕ, ◌-◌, String, false, Option, none, some, List, [], ◌∷◌, ◌++◌, length, drop, ltb, if◌then◌else◌,
  ◌==◌, ℕ_comparable, text_comparable,
}
use anito.Registry.Types.{
  Ports, Service, StartEvent, DeploymentSnapshot, running, stopped, archived, blank, ExitCode,
  still_running, status_beq,
}
use anito.Registry.Ports.{sync_singular_from_map, normalize_ports, is_empty}
use anito.Registry.Store.{
  Result, ok, err, not_archived, is_running, already_archived, start_record_not_found,
}

unfoldable pub snapshot : Service → DeploymentSnapshot
snapshot s = record {
  version = s.version;
  service_type = s.service_type;
  config_path = s.config_path;
  binary_path = s.binary_path;
  args = s.args;
  proxy_bind_address = s.proxy_bind_address;
  env_file = s.env_file;
  health_check = s.health_check;
  stable_ports = s.stable_ports;
  health_check_port = s.health_check_port;
  watch_paths = s.watch_paths;
  drain_window = s.drain_window;
  health_check_timeout = s.health_check_timeout;
  restart_policy = s.restart_policy;
  deployed_at = s.deployed_at;
}

abbrev pub previous_or : Option DeploymentSnapshot → DeploymentSnapshot → DeploymentSnapshot
previous_or none d = d
previous_or (some p) d = p

-- A redeploy: the stable ports and the runtime state of the entry stay.
unfoldable pub carry_over : Service → Service → Service
carry_over existing s = record s {
  stable_ports = if is_empty existing.stable_ports then s.stable_ports else existing.stable_ports;
  stable_port = existing.stable_port;
  internal_ports = existing.internal_ports;
  internal_port = existing.internal_port;
  status = existing.status;
  pid = existing.pid;
  last_started_at = existing.last_started_at;
  start_history = existing.start_history;
  crash_attempts = existing.crash_attempts;
  gave_up = existing.gave_up;
  last_deployed_at = existing.last_deployed_at;
  proxy_bind_address =
      if s.proxy_bind_address == "" then existing.proxy_bind_address else s.proxy_bind_address;
  deployed_at = existing.deployed_at;
  previous_deployment = some (previous_or s.previous_deployment (snapshot existing));
}

-- The entry that `Register` makes of `s` beside the entry that it finds. `now` is the time of a
-- first deploy, `later` the time of the update.
unfoldable pub registered : ℕ → ℕ → Option Service → Service → Service
unfolding carry_over
registered now later none s = record (normalize_ports (record s { deployed_at = now })) {
  updated_at = later;
}
registered now later (some existing) s = record (normalize_ports (carry_over existing s)) {
  updated_at = later;
}

unfoldable pub archive_edit : String → ℕ → ℕ → Service → Result Service
archive_edit name now later s =
    if status_beq s.status archived
    then err (already_archived name)
    else if status_beq s.status running
    then err (is_running name)
    else ok (record s {
      archived_from = s.status;
      status = archived;
      archived_at = now;
      pid = 0;
      updated_at = later;
    })

unfoldable pub restore_archived_edit : String → ℕ → Service → Result Service
restore_archived_edit name now s =
    if status_beq s.status archived
    then ok
        (record s { status = stopped; archived_from = blank; archived_at = 0; updated_at = now })
    else err (not_archived name)

-- The ring buffer of start events keeps the last ten.
abbrev pub history_limit : ℕ
history_limit = 10

unfoldable pub push_event : StartEvent → List StartEvent → List StartEvent
push_event e h =
    let h' = h ++ e ∷ [] in
    if ltb history_limit (length h') then drop (length h' - history_limit) h' else h'

abbrev pub starting : ℕ → StartEvent
starting t = record { started_at = t; exit_code = still_running; duration = 0 }

-- The loop of `CompleteStart` runs from the newest event to the oldest, and stops at the first hit.
unfoldable pub complete_newest : ℕ → ExitCode → ℕ → List StartEvent → Option (List StartEvent)
complete_newest t exit d [] = none
complete_newest t exit d (e ∷ es) = elim (complete_newest t exit d es) [
  | some es' ↦ some (e ∷ es')
  | none ↦
      if e.started_at == t then some (record e { exit_code = exit; duration = d } ∷ es) else none
]

unfoldable pub complete_start_edit : String → ℕ → ExitCode → ℕ → ℕ → Service → Result Service
complete_start_edit name t exit d now s = elim (complete_newest t exit d s.start_history) [
  | none ↦ err (start_record_not_found name)
  | some h ↦ ok (record s { start_history = h; updated_at = now })
]

unfoldable pub process_started_edit : Ports → ℕ → ℕ → Service → Service
process_started_edit ports t now s =
    let s' = sync_singular_from_map (record s { internal_ports = ports }) in
    record s' {
      last_started_at = t;
      start_history = push_event (starting t) s.start_history;
      updated_at = now;
    }

unfoldable pub mark_running_edit : ℕ → ℕ → ℕ → Service → Service
mark_running_edit pid deployed now s = record s {
  status = running;
  pid = pid;
  last_deployed_at = if deployed == 0 then s.last_deployed_at else deployed;
  crash_attempts = 0;
  gave_up = false;
  updated_at = now;
}

unfoldable pub record_start_edit : ℕ → ℕ → Service → Service
record_start_edit t now s = record s {
  last_started_at = t;
  start_history = push_event (starting t) s.start_history;
  updated_at = now;
}

unfoldable pub internal_ports_edit : Ports → ℕ → Service → Service
internal_ports_edit ports now s =
    record (sync_singular_from_map (record s { internal_ports = ports })) { updated_at = now }
