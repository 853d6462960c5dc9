-- ===== src/Service/World.antt =====
-- internal/service/service.go: the daemon's state, and what lies outside it in one operation.
use anito.Prelude.{
  ℕ, String, Bool, true, Option, none, some, List, [], ◌∷◌, ◌==◌, ℕ_comparable, if◌then◌else◌,
}
use anito.Registry.Types.{Ports, Service}
use anito.Registry.Store.{Codec, Io, Registry}
use anito.Registry.Calls.{Call, step}
use anito.Process.Types.{Manager, Waiter, RunningProc, Result, ok, err}
use anito.Process.Manager.{Launch, start, stop, stop_failed}
use anito.Process.Exit.{ProcessState, exit}
use anito.Proxy.Types.{Proxies, Error}
use anito.Proxy.Address.{Net, register_ports_with_bind}
use anito.Service.Crash.{Attempts}

-- The registry, the process manager, the proxy manager and the crash counters of one `Service`.
pub record Daemon : Type 0 where
  pub registry : Registry
  pub manager : Manager
  pub proxies : Proxies
  pub attempts : Attempts

-- What one operation meets: how each registry call's save ends, the time, what the operating system
-- does for the new process, whether it answers its health check in time and owns its ports, whether
-- each port can be listened on, at first and when a failure is undone, how the new process ends when
-- it is told to (`none` if it has not ended when the drain gives up), whether it is gone by itself while
-- its health and its ports are checked, or later, before the operation looks for its PID, and what the operation sees of the old process if it restores it.
pub record World : Type 0 where
  pub codec : Codec
  pub saves : Call → Io
  pub now : ℕ
  pub net : Net
  pub os : Launch
  pub healthy : Bool
  pub owns_ports : Bool
  pub binds : String → Bool
  pub binds_again : String → Bool
  pub ends : Option ProcessState
  pub early : Option ProcessState
  pub gone : Option ProcessState
  pub took : ℕ
  pub old_finished : Bool
  pub old_alive : Bool

-- The registry takes a call; its error is dropped, as the callers drop it.
abbrev pub tell : World → Call → Daemon → Daemon
tell w call d = record d { registry = step w.codec (w.saves call) call d.registry }

unfoldable pub tell_all : World → List Call → Daemon → Daemon
tell_all w [] d = d
tell_all w (call ∷ calls) d = tell_all w calls (tell w call d)

abbrev pub manager_result : World → Daemon → Manager → List Call → Daemon
manager_result w d m calls = tell_all w calls (record d { manager = m })

-- The goroutine that waits for a command.
unfoldable pub waiter_for : ℕ → List Waiter → Option Waiter
waiter_for cmd [] = none
waiter_for cmd (w ∷ ws) = if w.cmd == cmd then some w else waiter_for cmd ws

unfoldable pub goroutine : World → Daemon → Option Waiter → Option ProcessState → Daemon
goroutine w d (some waiter) (some state) =
    let (m, calls, crashed) = exit waiter state w.took w.now d.manager in manager_result w d m calls
goroutine w d _ _ = d

-- The process has ended, and its goroutine has run.
abbrev pub ended : World → ℕ → Option ProcessState → Daemon → Daemon
ended w cmd state d = goroutine w d (waiter_for cmd d.manager.waiting) state

-- `Stop` and `StopFailed` wait for the goroutine; their errors are dropped.
unfoldable pub stopped_by : World → Manager × Result RunningProc → Daemon → Daemon
stopped_by w (m, err e) d = record d { manager = m }
stopped_by w (m, ok rp) d = ended w rp.cmd w.ends (record d { manager = m })

abbrev pub stop_candidate : World → String → Daemon → Daemon
stop_candidate w name d = stopped_by w (stop name d.manager) d

abbrev pub stop_failed_candidate : World → String → Daemon → Daemon
stop_failed_candidate w name d = stopped_by w (stop_failed name d.manager) d

abbrev pub start_candidate : World → Service → Daemon → Daemon × Result Ports
start_candidate w svc d =
    let (m, calls, started) = start w.os svc true w.now w.now d.manager in
    (manager_result w d m calls, started)

abbrev pub bind_ports :
    World → (String → Bool) → String → Ports → String → Daemon → Daemon × Option Error
bind_ports w binds name ports address d =
    let (m, failed) = register_ports_with_bind w.net binds name ports address d.proxies in
    (record d { proxies = m }, failed)
