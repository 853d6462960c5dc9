-- ===== src/Service/Startup.antt =====
-- internal/service/startup_state.go: the progress of the restore at startup, and the gate that the
-- mutating operations pass.
use anito.Prelude.{ℕ, suc, Bool, true, false, Option, none, some, if◌then◌else◌}

pub data StartupPhase : Type 0 where
  idle binding_listeners reconciling ready : StartupPhase

-- `result` is what `RestoreAll` returned, of any type.
pub record StartupTracker {ℓ} (R : Type ℓ) : Type ℓ where
  pub phase : StartupPhase
  pub started_at : ℕ
  pub completed_at : ℕ
  pub total : ℕ
  pub completed : ℕ
  pub max_parallel : ℕ
  pub last_result : Option R

pub record StartupGateError : Type 0 where
  pub phase : StartupPhase
  pub completed : ℕ
  pub total : ℕ

abbrev pub mutations_blocked : StartupPhase → Bool
mutations_blocked binding_listeners = true
mutations_blocked reconciling = true
mutations_blocked _ = false

module _ {ℓ} {R : Type ℓ} where
  unfoldable pub new_startup_tracker : StartupTracker R
  new_startup_tracker = record {
    phase = ready;
    started_at = 0;
    completed_at = 0;
    total = 0;
    completed = 0;
    max_parallel = 0;
    last_result = none;
  }

  -- `begin`.
  unfoldable pub begin_startup : ℕ → ℕ → ℕ → StartupTracker R → StartupTracker R
  begin_startup started_at total max_parallel t = record {
    phase = binding_listeners;
    started_at = started_at;
    completed_at = 0;
    total = total;
    completed = 0;
    max_parallel = max_parallel;
    last_result = none;
  }

  unfoldable pub set_phase : StartupPhase → StartupTracker R → StartupTracker R
  set_phase phase t = record t { phase = phase }

  unfoldable pub increment_completed : StartupTracker R → StartupTracker R
  increment_completed t = record t { completed = suc t.completed }

  -- `finish`.
  unfoldable pub finish_startup : ℕ → R → StartupTracker R → StartupTracker R
  finish_startup completed_at result t = record t {
    phase = ready;
    completed_at = completed_at;
    completed = t.total;
    last_result = some result;
  }

  unfoldable pub ensure_mutable : StartupTracker R → Option StartupGateError
  ensure_mutable t =
      if mutations_blocked t.phase
      then some (record { phase = t.phase; completed = t.completed; total = t.total })
      else none
