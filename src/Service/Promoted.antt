-- ===== src/Service/Promoted.antt =====
-- internal/service/service.go: a candidate that is promoted, or gone before it is.

use anito.Prelude.{
  String, Option, ℕ, ◌≡◌, refl, sym, ap, ◌∙◌, subst, ◌≢◌, ◌⊎◌, inl, inr, true, false, none, some,
  ℕ_comparable, text_comparable, ==_of_ne,
}
use anito.Assoc.{lookup}
use anito.Registry.Types.{Ports, Service}
use anito.Process.Types.{Manager, DetachedProcess}
use anito.Process.Manager.{tracked, launched, exited_at, pid_of, activate}
use anito.Process.Exit.{ProcessState, unregister}
use anito.Process.Table.{tracked-launched}
use anito.Process.Candidate.{waiter_of, activate-launched}
use anito.Service.World.{Daemon, World, goroutine, waiter_for}
use anito.Service.Replace.{Failure, undone, go_live, candidate_gone, activate_candidate}
use anito.Service.Detached.{IsFree, goroutine-manager, waiter_for-launched, unregister-candidate}

-- What holds once a restart or a deployment has ended, in either way: undone, with the name free, or
-- with the candidate live. The old process, if there is one, has its object at the address `a`.
pub record Ends (w : World) (name : String) (previous : Option Service)
    (old : Option DetachedProcess) (a : ℕ) (P : Daemon × Option Failure → Type 0) : Type 0 where
  pub undo :
      (failure : Failure) (d : Daemon)
      → IsFree name a d.manager
      → P (undone w name previous old failure d)
  pub live : (d : Daemon) (pid deployed : ℕ) → P (go_live w name pid deployed old d, none)

-- The candidate runs, or it is gone and its goroutine has run.
abbrev pub Stage : World → Service → Ports → ℕ → Manager → Daemon → Type 0
Stage w svc ports pid m d =
    let candidate = launched svc true w.now ports pid m in
    (d.manager ≡ candidate) ⊎ (d.manager ≡ unregister (waiter_of svc w.now pid m) candidate)

module _ (w : World) (svc : Service) (a : ℕ) (ports : Ports) (pid : ℕ) (m : Manager)
    (n : m.next ≢ a) (x : exited_at (lookup a m.heap) ≡ false) where
  abbrev candidate : Manager
  candidate = launched svc true w.now ports pid m

  abbrev left : Manager
  left = unregister (waiter_of svc w.now pid m) candidate

  candidate_gone-goroutine :
      (state : Option ProcessState) (d : Daemon)
      → d.manager ≡ candidate
      → candidate_gone w state svc.name d ≡ goroutine w d (some (waiter_of svc w.now pid m)) state
  unfolding candidate_gone
  candidate_gone-goroutine state d q =
      let tracks = ap (tracked svc.name) q ∙ tracked-launched svc true w.now ports pid m in
      let waits =
        ap (λ (k : Manager). waiter_for m.next k.waiting) q
        ∙ waiter_for-launched svc w.now ports pid m in
      rw (candidate_gone, tracks, waits) refl

  left-IsFree : IsFree svc.name a left
  left-IsFree = unregister-candidate svc w.now ports pid m a n x

  pub left-tracked : (d : Daemon) → d.manager ≡ left → tracked svc.name d.manager ≡ none
  unfolding tracked
  left-tracked d q = rw (tracked, q, left-IsFree.0) refl

  pub Stage-IsFree : (d : Daemon) → d.manager ≡ left → IsFree svc.name a d.manager
  Stage-IsFree d q = subst (IsFree svc.name a) (sym q) left-IsFree

  pub candidate_gone-Stage :
      (state : Option ProcessState) (d : Daemon)
      → Stage w svc ports pid m d
      → Stage w svc ports pid m (candidate_gone w state svc.name d)
  unfolding candidate_gone goroutine
  candidate_gone-Stage none d (inl q) =
      inl (ap (λ (k : Daemon). k.manager) (candidate_gone-goroutine none d q) ∙ q)
  candidate_gone-Stage (some state) d (inl q) = inr (
      ap (λ (k : Daemon). k.manager) (candidate_gone-goroutine (some state) d q)
      ∙ goroutine-manager w d (waiter_of svc w.now pid m) state
      ∙ ap (unregister (waiter_of svc w.now pid m)) q)
  candidate_gone-Stage state d (inr q) = rw (candidate_gone, left-tracked d q) (inr q)

  pid_of-candidate : pid_of svc.name candidate ≡ pid
  unfolding pid_of
  pid_of-candidate = rw (pid_of, tracked-launched svc true w.now ports pid m) refl

  pid_of-gone : pid_of svc.name left ≡ 0
  unfolding pid_of tracked
  pid_of-gone = rw (pid_of, tracked, left-IsFree.0) refl

  module _ (previous : Option Service) (old : Option DetachedProcess)
      (P : Daemon × Option Failure → Type 0) (ends : Ends w svc.name previous old a P)
      (alive : pid ≢ 0) where
    -- A candidate that is alive is promoted, and one that is gone is undone.
    pub activate_candidate-Ends :
        (deployed : ℕ) (d : Daemon)
        → Stage w svc ports pid m d
        → P (activate_candidate w svc.name previous deployed old d (pid_of svc.name d.manager))
    unfolding activate_candidate
    activate_candidate-Ends deployed d (inl k) =
        rw
          (
            ap (pid_of svc.name) k ∙ pid_of-candidate,
            activate_candidate,
            ==_of_ne pid 0 alive,
            ap (activate svc.name) k ∙ activate-launched svc w.now ports pid m,
          )
          (ends.live _ _ deployed)
    activate_candidate-Ends deployed d (inr k) =
        rw (ap (pid_of svc.name) k ∙ pid_of-gone, activate_candidate)
          (ends.undo _ d (Stage-IsFree d k))
