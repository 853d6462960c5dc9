-- ===== src/Process/Types.antt =====
-- internal/process/process.go: the table of running processes.
-- A `*runningProc` is an address in `heap`: the table, a detached process and the goroutine that
-- waits for the process share the object, and see one another's writes to it.
use anito.Prelude.{ℕ, String, Bool, List}
use anito.Registry.Types.{Ports}

-- `cmd` is the identity of the `*exec.Cmd`.
pub record RunningProc : Type 0 where
  pub cmd : ℕ
  pub pid : ℕ
  pub internal_port : ℕ
  pub internal_ports : Ports
  pub candidate : Bool
  pub exited : Bool

-- What the goroutine of one `start` has captured. It stands in `waiting` until it takes the lock.
pub record Waiter : Type 0 where
  pub service : String
  pub proc : ℕ
  pub cmd : ℕ
  pub pid : ℕ
  pub started_at : ℕ

pub record Manager : Type 0 where
  pub procs : List (String × ℕ)
  pub heap : List (ℕ × RunningProc)
  pub draining : List (ℕ × ℕ)
  pub waiting : List Waiter
  pub next : ℕ

pub record DetachedProcess : Type 0 where
  pub name : String
  pub proc : ℕ
  pub cmd : ℕ
  pub pid : ℕ
  pub internal_port : ℕ
  pub internal_ports : Ports

pub data Error : Type 0 where
  already_running no_free_port cannot_build failed_to_start not_running : String → Error
  exited_before_activation already_exited : String → Error

pub data Result {ℓ} (A : Type ℓ) : Type ℓ where
  ok : A → Result A
  err : Error → Result A
