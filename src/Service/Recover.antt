-- ===== src/Service/Recover.antt =====
-- internal/service/service.go: handleCrash with the Restart at its end, after the exit that calls it.
use anito.Prelude.{String, Option, none, some, text_comparable}
use anito.Assoc.{lookup}
use anito.Process.Types.{Waiter}
use anito.Process.Exit.{ProcessState, exit}
use anito.Service.Startup.{StartupTracker}
use anito.Service.Crash.{Reaction, ignores, leaves_down, gives_up, restarts, handle_crash}
use anito.Service.World.{Daemon, World, tell_all, manager_result}
use anito.Service.Deploy.{Host, restart}

module _ {ℓ} {R : Type ℓ} (startup : StartupTracker R) (w later : World) (h : Host) where
  -- The wait, and then Restart, whose error is logged. It meets the world that is `later`; no other
  -- operation on the service comes in between.
  unfoldable pub reacted : String → Reaction → Daemon → Daemon
  reacted name ignores d = d
  reacted name leaves_down d = d
  reacted name (gives_up n) d = d
  reacted name (restarts n wait) d = (restart startup later h name d).0

  unfoldable pub on_crash : String → Daemon → Daemon × Reaction
  unfolding reacted
  on_crash name d =
      let c = handle_crash name (lookup name d.registry.services) w.now d.attempts d.proxies in
      (
        reacted name c.reaction
            (tell_all w c.calls (record d { attempts = c.attempts; proxies = c.proxies })),
        c.reaction,
      )

  -- The name that OnCrash is called with, if it is called.
  unfoldable pub when_crashed : Option String → Daemon → Daemon × Option Reaction
  unfolding on_crash
  when_crashed none d = (d, none)
  when_crashed (some name) d = let (d', reaction) = on_crash name d in (d', some reaction)

  -- The goroutine that waits for a process, from the end of the process on.
  unfoldable pub process_ends : Waiter → ProcessState → Daemon → Daemon × Option Reaction
  unfolding when_crashed
  process_ends waiter state d =
      let (m, calls, crashed) = exit waiter state w.took w.now d.manager in
      when_crashed crashed (manager_result w d m calls)
