-- ===== src/Process/Manager.antt =====
-- internal/process/process.go: the methods of the manager. Each runs whole under the manager's lock.
use mathlib.Core.Option
use anito.Prelude.{
  ℕ, suc, String, Bool, true, false, ◌&&◌, not, Option, none, some, List, [], ◌∷◌, ◌==◌,
  ℕ_comparable, text_comparable, if◌then◌else◌,
}
use anito.Assoc.{lookup, insert, delete}
use anito.Registry.Types.{Ports, Service, ServiceType, ServiceStatus, ExitCode, code}
use anito.Registry.Types
use anito.Registry.Ports.{pick_port, is_empty}
use anito.Registry.Calls.{Call, starts, sets_status}
use anito.Process.Types.{
  RunningProc, Manager, DetachedProcess, already_running, no_free_port, cannot_build,
  failed_to_start, not_running, exited_before_activation, already_exited, Result, ok, err,
}

unfoldable pub new : Manager
new = record { procs = []; heap = []; draining = []; waiting = []; next = 0 }

-- The process that the table has under a name.
unfoldable pub tracked : String → Manager → Option RunningProc
tracked name m = elim (lookup name m.procs) [ none ↦ none | some a ↦ lookup a m.heap ]

unfoldable pub is_running : String → Manager → Bool
is_running name m = elim (lookup name m.procs) [ none ↦ false | some a ↦ true ]

unfoldable pub pid_of : String → Manager → ℕ
pid_of name m = elim (tracked name m) [ none ↦ 0 | some rp ↦ rp.pid ]

unfoldable pub internal_port : String → Manager → ℕ
internal_port name m = elim (tracked name m) [ none ↦ 0 | some rp ↦ rp.internal_port ]

unfoldable pub internal_ports : String → Manager → Ports
internal_ports name m = elim (tracked name m) [ none ↦ [] | some rp ↦ rp.internal_ports ]

unfoldable pub mark_draining : ℕ → Manager → Manager
mark_draining pid m = if pid == 0 then m else record m { draining = insert pid 0 m.draining }

-- The operating system's part in one `start`: a free port for each name, whether the command can be
-- set up (its environment file and its log file), and the process that it starts, if it does.
pub record Launch : Type 0 where
  pub free_port : String → Option ℕ
  pub setup : Bool
  pub started : Option ℕ

reserve_each : (String → Option ℕ) → Ports → Option Ports
reserve_each free [] = some []
reserve_each free ((name, p) ∷ ports) = elim (free name) [
  | none ↦ none
  | some q ↦ Option.map (λ rest. (name, q) ∷ rest) (reserve_each free ports)
]

-- A port for each stable port's name, or one under "default".
unfoldable pub reserve_internal_ports : (String → Option ℕ) → Ports → Option Ports
unfolding reserve_each
reserve_internal_ports free stable =
    if is_empty stable then reserve_each free (("default", 0) ∷ []) else reserve_each free stable

-- `buildCmd` refuses a static service.
unfoldable pub is_binary : ServiceType → Bool
is_binary Types.binary = true
is_binary _ = false

unfoldable pub launched : Service → Bool → ℕ → Ports → ℕ → Manager → Manager
launched svc candidate now ports pid m = record m {
  procs = insert svc.name m.next m.procs;
  heap =
      insert m.next
        (record {
          cmd = m.next;
          pid = pid;
          internal_port = pick_port ports svc.health_check_port;
          internal_ports = ports;
          candidate = candidate;
          exited = false;
        })
        m.heap;
  waiting =
      record { service = svc.name; proc = m.next; cmd = m.next; pid = pid; started_at = now }
      ∷ m.waiting;
  next = suc m.next;
}

-- The new manager, the calls that it makes of the registry, and what it returns.
abbrev pub Outcome {ℓ} : Type ℓ → Type ℓ
Outcome A = Manager × List Call × Result A

start_with : Service → Bool → ℕ → ℕ → Manager → Ports → Option ℕ → Outcome Ports
unfolding launched
start_with svc candidate now later m ports none =
    (m, sets_status svc.name Types.failed 0 later ∷ [], err (failed_to_start svc.name))
start_with svc candidate now later m ports (some pid) =
    (launched svc candidate now ports pid m, starts svc.name ports now later ∷ [], ok ports)

start_reserved : Launch → Service → Bool → ℕ → ℕ → Manager → Option Ports → Outcome Ports
unfolding start_with is_binary
start_reserved os svc candidate now later m none = (m, [], err (no_free_port svc.name))
start_reserved os svc candidate now later m (some ports) =
    if is_binary svc.service_type && os.setup
    then start_with svc candidate now later m ports os.started
    else (m, [], err (cannot_build svc.name))

-- `start`; `now` is the start time and `later` the time of the registry's update. The identity of the
-- new command is fresh, as a pointer's is.
unfoldable pub start : Launch → Service → Bool → ℕ → ℕ → Manager → Outcome Ports
unfolding start_reserved
start os svc candidate now later m =
    if is_running svc.name m
    then (m, [], err (already_running svc.name))
    else start_reserved os svc candidate now later m
        (reserve_internal_ports os.free_port svc.stable_ports)

-- Promotes the candidate under a name.
activate_at : String → Manager → Option ℕ → Manager × Result (Unit {0})
activate_at name m none = (m, err (exited_before_activation name))
activate_at name m (some a) = elim (lookup a m.heap) [
  | none ↦ (m, ok tt)
  | some rp ↦ (record m { heap = insert a (record rp { candidate = false }) m.heap }, ok tt)
]

unfoldable pub activate : String → Manager → Manager × Result (Unit {0})
unfolding activate_at
activate name m = activate_at name m (lookup name m.procs)

-- What `Stop` and `StopFailed` do under the lock; the process to be drained is returned.
stop_with : ℕ → String → Manager → Option RunningProc → Manager × Result RunningProc
stop_with exit name m none = (m, err (not_running name))
stop_with exit name m (some rp) =
    (record m { procs = delete name m.procs; draining = insert rp.pid exit m.draining }, ok rp)

unfoldable pub stop : String → Manager → Manager × Result RunningProc
unfolding stop_with
stop name m = stop_with 0 name m (tracked name m)

unfoldable pub stop_failed : String → Manager → Manager × Result RunningProc
unfolding stop_with
stop_failed name m = stop_with 1 name m (tracked name m)

detach_at : String → Manager → Option ℕ → Option RunningProc → Manager × Option DetachedProcess
detach_at name m (some a) (some rp) = (
  record m { procs = delete name m.procs },
  some (record {
    name = name;
    proc = a;
    cmd = rp.cmd;
    pid = rp.pid;
    internal_port = rp.internal_port;
    internal_ports = rp.internal_ports;
  }),
)
detach_at name m _ _ = (m, none)

-- `Detach`: the process keeps running, and no signal is sent.
unfoldable pub detach : String → Manager → Manager × Option DetachedProcess
unfolding detach_at
detach name m = detach_at name m (lookup name m.procs) (tracked name m)

deregister : String → Manager → Manager × ℕ
deregister name m = let (left, dp) = detach name m in (left, elim dp [ none ↦ 0 | some d ↦ d.pid ])

unfoldable pub exited_at : Option RunningProc → Bool
exited_at none = false
exited_at (some rp) = rp.exited

reattach : String → DetachedProcess → Manager → Manager
reattach name dp m = record m {
  procs = insert name m.next m.procs;
  heap =
      insert m.next
        (record {
          cmd = dp.cmd;
          pid = dp.pid;
          internal_port = dp.internal_port;
          internal_ports = dp.internal_ports;
          candidate = false;
          exited = false;
        })
        m.heap;
  next = suc m.next;
}

-- `Restore`; `finished` says whether the goroutine's channel is closed and `alive` whether the
-- operating system knows the PID, each as seen before the lock is taken. The channel is closed after the
-- goroutine has marked the process as exited, so under the lock that mark is all there is to see.
restore_with : Bool → Bool → String → Manager → DetachedProcess → Manager × Result Bool
unfolding exited_at reattach
restore_with finished alive name m dp =
    if finished
    then (m, err (already_exited name))
    else if not alive
    then (m, ok false)
    else if exited_at (lookup dp.proc m.heap)
    then (m, err (already_exited name))
    else if is_running name m
    then (m, err (already_running name))
    else (reattach name dp m, ok true)

unfoldable pub restore :
    Bool → Bool → String → Option DetachedProcess → Manager → Manager × Result Bool
unfolding restore_with
restore finished alive name none m = (m, ok false)
restore finished alive name (some dp) m = restore_with finished alive name m dp
