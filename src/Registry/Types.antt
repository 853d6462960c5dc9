-- ===== src/Registry/Types.antt =====
-- internal/registry/registry.go: the records of the service registry.
-- A time is a number of nanoseconds, and 0 is Go's zero time; a duration is a number of nanoseconds.
-- A nil map or slice and an empty one are the same list: the code tells them apart nowhere.
use anito.Prelude.{
  ℕ, String, List, Option, Bool, true, false, ◌≡◌, ◌↔◌, ap, ◌==◌, text_comparable, arith,
}
use text.Mathlib.TextEquality.{eq_iff}

-- A Go string: the two constants, the empty string, or any other text that a file may hold.
pub data ServiceType : Type 0 where
  binary static unset : ServiceType
  other : String → ServiceType

-- The five constants, the empty string, or any other text that a file may hold.
pub data ServiceStatus : Type 0 where
  running stopped failed orphaned archived blank : ServiceStatus
  unknown : String → ServiceStatus

-- An exit code: `code n`, or -1 while the process runs.
pub data ExitCode : Type 0 where
  code : ℕ → ExitCode
  still_running : ExitCode

pub record StartEvent : Type 0 where
  pub started_at : ℕ
  pub exit_code : ExitCode
  pub duration : ℕ

-- `map[string]int`, from a port's name to its number.
abbrev pub Ports : Type 0
Ports = List (String × ℕ)

pub record DeploymentSnapshot : Type 0 where
  pub version : String
  pub service_type : ServiceType
  pub config_path : String
  pub binary_path : String
  pub args : List String
  pub proxy_bind_address : String
  pub env_file : String
  pub health_check : String
  pub stable_ports : Ports
  pub health_check_port : String
  pub watch_paths : List String
  pub drain_window : ℕ
  pub health_check_timeout : ℕ
  pub restart_policy : String
  pub deployed_at : ℕ

pub record Service : Type 0 where
  pub name : String
  pub service_type : ServiceType
  pub version : String
  pub config_path : String
  pub binary_path : String
  pub args : List String
  pub stable_port : ℕ
  pub internal_port : ℕ
  pub proxy_bind_address : String
  pub env_file : String
  pub health_check : String
  pub stable_ports : Ports
  pub internal_ports : Ports
  pub health_check_port : String
  pub watch_paths : List String
  pub drain_window : ℕ
  pub health_check_timeout : ℕ
  pub restart_policy : String
  pub status : ServiceStatus
  pub pid : ℕ
  pub deployed_at : ℕ
  pub updated_at : ℕ
  pub last_deployed_at : ℕ
  pub last_started_at : ℕ
  pub crash_attempts : ℕ
  pub gave_up : Bool
  pub start_history : List StartEvent
  pub previous_deployment : Option DeploymentSnapshot
  pub archived_at : ℕ
  pub archived_from : ServiceStatus

pub record Tombstone : Type 0 where
  pub name : String
  pub archived_at : ℕ
  pub pruned_at : ℕ
  pub stable_ports : Ports

abbrev pub status_beq : ServiceStatus → ServiceStatus → Bool
status_beq running running = true
status_beq stopped stopped = true
status_beq failed failed = true
status_beq orphaned orphaned = true
status_beq archived archived = true
status_beq blank blank = true
status_beq (unknown s) (unknown t) = s == t
status_beq _ _ = false

abbrev unknown_text : ServiceStatus → String
unknown_text (unknown s) = s
unknown_text _ = ""

pub status_beq_iff : (a b : ServiceStatus) → (status_beq a b ≡ true) ↔ (a ≡ b)
status_beq_iff (unknown s) (unknown t) =
    (λ h. ap unknown ((eq_iff s t).0 h), λ h. (eq_iff s t).1 (ap unknown_text h))
status_beq_iff a b = ground arith
