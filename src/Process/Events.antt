-- ===== src/Process/Events.antt =====
-- What happens to the manager, one critical section at a time, in any order.
use anito.Prelude.{ℕ, String, Bool, Option, List, [], ◌∷◌}
use anito.Registry.Types.{Service}
use anito.Process.Types.{Waiter, Manager, DetachedProcess}
use anito.Process.Manager.{
  Launch, start, activate, stop, stop_failed, detach, restore, mark_draining,
}
use anito.Process.Exit.{ProcessState, exit}

pub data Event : Type 0 where
  starts_one : Launch → Service → Bool → ℕ → ℕ → Event
  activates stops stops_failed detaches : String → Event
  restores_one : Bool → Bool → String → Option DetachedProcess → Event
  drains : ℕ → Event
  exits : Waiter → ProcessState → ℕ → ℕ → Event

unfoldable pub after : Event → Manager → Manager
after (starts_one os svc candidate now later) m = (start os svc candidate now later m).0
after (activates name) m = (activate name m).0
after (stops name) m = (stop name m).0
after (stops_failed name) m = (stop_failed name m).0
after (detaches name) m = (detach name m).0
after (restores_one finished alive name dp) m = (restore finished alive name dp m).0
after (drains pid) m = mark_draining pid m
after (exits w state d now) m = (exit w state d now m).0

unfoldable pub run_events : Manager → List Event → Manager
run_events m [] = m
run_events m (e ∷ es) = run_events (after e m) es
