-- ===== src/Service/Allowed.antt =====
-- The registry calls of a start and of an exit are calls that a valid registry takes.
use anito.Prelude.{
  ℕ, Bool, inl, inr, true, false, ◌&&◌, Option, none, some, List, [], ◌∷◌, text_comparable,
  Option-cases, All, Bool-cases, ℕ_comparable,
}
use anito.Assoc.{lookup}
use anito.Registry.Types.{Service}
use anito.Registry.Calls.{Call}
use anito.Registry.Invariant.{IsValid, IsAllowed, step-IsValid}
use anito.Process.Types.{Waiter, Manager}
use anito.Process.Manager.{
  start, Launch, Outcome, tracked, activate, stop_failed, detach, is_running,
  reserve_internal_ports, pid_of,
}
use anito.Process.Manager
use anito.Process.Exit.{ProcessState, exit, reported, is_candidate}
use anito.Service.World.{Daemon, World, tell, tell_all}

pub tell_all-IsValid :
    (w : World) (calls : List Call) (d : Daemon)
    → All IsAllowed calls
    → IsValid d.registry
    → IsValid (tell_all w calls d).registry
unfolding tell_all
tell_all-IsValid w [] d a v = v
tell_all-IsValid w (call ∷ calls) d a v =
    tell_all-IsValid w calls (tell w call d) a.1
      (step-IsValid w.codec (w.saves call) call d.registry a.0 v)

reported-IsAllowed :
    (w : Waiter) (recorded : Option ℕ) (candidate : Bool) (exit d now : ℕ)
    → All IsAllowed (reported w recorded candidate exit d now).0
unfolding reported
reported-IsAllowed w (some r) candidate exit d now = (tt, tt)
reported-IsAllowed w none true exit d now = (tt, tt)
reported-IsAllowed w none false exit d now = (tt, (tt, tt))

pub exit-IsAllowed :
    (w : Waiter) (state : ProcessState) (d now : ℕ) (m : Manager)
    → All IsAllowed (exit w state d now m).1
unfolding exit
exit-IsAllowed w state d now m =
    reported-IsAllowed w (lookup w.pid m.draining) (is_candidate (lookup w.proc m.heap)) _ d now

pub start-IsAllowed :
    (os : Launch) (svc : Service) (candidate : Bool) (now later : ℕ) (m : Manager)
    → All IsAllowed (start os svc candidate now later m).1
unfolding start
start-IsAllowed os svc candidate now later m = elim (Bool-cases (is_running svc.name m)) [
  | inl e ↦ rw e tt
  | inr e ↦ elim (Option-cases (reserve_internal_ports os.free_port svc.stable_ports)) [
    | inl f ↦ rw (e, f) tt
    | inr (ports, f) ↦ elim (Bool-cases (Manager.is_binary svc.service_type && os.setup)) [
      | inl g ↦ elim (Option-cases os.started) [
        | inl k ↦ rw (e, f, g, k) (tt, tt)
        | inr (pid, k) ↦ rw (e, f, g, k) (tt, tt)
      ]
      | inr g ↦ rw (e, f, g) tt
    ]
  ]
]
