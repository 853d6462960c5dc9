-- ===== src/Service/Survives.antt =====
-- A process outlives a restart or a deployment of its service that fails.
use anito.Prelude.{
  ℕ, String, ◌≡◌, refl, ap, ◌∙◌, subst, ◌≢◌, inl, inr, true, false, not, Option, some, Option-cases,
  if_both, if◌then◌else◌, text_comparable, ℕ_comparable,
}
use anito.Assoc.{lookup, delete}
use anito.Registry.Types.{Ports, Service}
use anito.Process.Types.{RunningProc, Manager, DetachedProcess, Result, ok, err}
use anito.Process.Types as ProcessTypes
use anito.Process.Manager.{Outcome, start, stop, stop_failed, tracked, launched, exited_at, detach}
use anito.Process.Table.{start-cases, start-err}
use anito.Proxy.Routes.{swap_ports}
use anito.Service.World.{
  Daemon, World, stopped_by, start_candidate, bind_ports, stop_failed_candidate, stop_candidate,
}
use anito.Service.Replace.{
  Failure, undone, candidate_gone, switch_over, restart_started, bind_and_switch, deploy_started,
  no_upstream, no_listener, not_healthy, not_owner,
}
use anito.Service.Detached.{IsFree, tell_all-manager, stop_failed-IsFree, stop-IsFree}
use anito.Service.Promoted.{
  Ends, Stage, Stage-IsFree, left-tracked, candidate_gone-Stage, activate_candidate-Ends,
}

module _ (w : World) (svc : Service) (previous : Option Service) (old : Option DetachedProcess)
    (a : ℕ) (ports : Ports) (pid : ℕ) (m : Manager) (P : Daemon × Option Failure → Type 0)
    (ends : Ends w svc.name previous old a P) (n : m.next ≢ a)
    (x : exited_at (lookup a m.heap) ≡ false) (alive : pid ≢ 0) where
  abbrev Candidate : Daemon → Type 0
  Candidate = Stage w svc ports pid m

  -- A candidate that is gone is not found.
  stops-IsFree :
      (d : Daemon)
      → Candidate d
      → IsFree svc.name a (stop_failed_candidate w svc.name d).manager
        × IsFree svc.name a (stop_candidate w svc.name d).manager
  unfolding stop_failed stop stopped_by
  stops-IsFree d (inl q) = (
    stop_failed-IsFree svc w.now ports pid m w a n x d q,
    stop-IsFree svc w.now ports pid m w a n x d q,
  )
  stops-IsFree d (inr q) =
      let free = Stage-IsFree w svc a ports pid m n x d q in
      let none_tracked = left-tracked w svc a ports pid m n x d q in
      (rw none_tracked free, rw none_tracked free)

  undo_failed :
      (failure : Failure) (d : Daemon)
      → Candidate d
      → P (undone w svc.name previous old failure (stop_failed_candidate w svc.name d))
  undo_failed failure d q = ends.undo failure _ ((stops-IsFree d q).0)

  undo_stopped :
      (failure : Failure) (d : Daemon)
      → Candidate d
      → P (undone w svc.name previous old failure (stop_candidate w svc.name d))
  undo_stopped failure d q = ends.undo failure _ ((stops-IsFree d q).1)

  switch_over-Ends :
      (deployed : ℕ) (internal : Ports) (d : Daemon)
      → Candidate d
      → P (switch_over w svc.name previous deployed old internal d)
  unfolding switch_over
  switch_over-Ends deployed internal d q =
      let d' = record d { proxies = (swap_ports svc.name internal d.proxies).0 } in
      elim (Option-cases (swap_ports svc.name internal d.proxies).1) [
        | inl f ↦
            rw (switch_over, f)
              (activate_candidate-Ends w svc a ports pid m n x previous old P ends alive deployed
                (candidate_gone w w.gone svc.name d')
                (candidate_gone-Stage w svc a ports pid m n x w.gone d' q))
        | inr (failed, f) ↦ rw (switch_over, f) (undo_failed (no_upstream failed) d' q)
      ]

  bind_and_switch-Ends :
      (internal : Ports) (d : Daemon)
      → Candidate d
      → P (bind_and_switch w svc previous old internal d)
  unfolding bind_and_switch
  bind_and_switch-Ends internal d q =
      let bound = bind_ports w w.binds svc.name svc.stable_ports svc.proxy_bind_address d in
      elim (Option-cases bound.1) [
        | inl f ↦ rw (bind_and_switch, f) (switch_over-Ends w.now internal bound.0 q)
        | inr (failed, f) ↦ rw (bind_and_switch, f) (undo_failed (no_listener failed) bound.0 q)
      ]

  pub restart_started-Ends :
      (d : Daemon)
      → previous ≡ some svc
      → Candidate d
      → P (restart_started w svc.name svc old d (ok ports))
  unfolding restart_started
  restart_started-Ends d s q =
      subst (λ (p : Option Service). P (restart_with p)) s
        (if_both P (not w.healthy) _ _ (λ h. undo_failed (not_healthy svc.name) d' q')
          (λ h.
            if_both P (not w.owns_ports) _ _ (λ k. undo_failed (not_owner svc.name) d' q')
              (λ k. switch_over-Ends 0 ports d' q')))
    where
      d' : Daemon
      d' = candidate_gone w w.early svc.name d

      q' : Candidate d'
      q' = candidate_gone-Stage w svc a ports pid m n x w.early d q

      restart_with : Option Service → Daemon × Option Failure
      restart_with p =
          if not w.healthy
          then undone w svc.name p old (not_healthy svc.name) (stop_failed_candidate w svc.name d')
          else if not w.owns_ports
          then undone w svc.name p old (not_owner svc.name) (stop_failed_candidate w svc.name d')
          else switch_over w svc.name p 0 old ports d'

  pub deploy_started-Ends :
      (d : Daemon) → Candidate d → P (deploy_started w svc previous old d (ok ports))
  unfolding deploy_started
  deploy_started-Ends d q =
      let d' = candidate_gone w w.early svc.name d in
      let q' = candidate_gone-Stage w svc a ports pid m n x w.early d q in
      if_both P (not w.healthy) _ _ (λ h. undo_failed (not_healthy svc.name) d' q')
        (λ h.
          if_both P (not w.owns_ports) _ _ (λ k. undo_stopped (not_owner svc.name) d' q')
            (λ k. bind_and_switch-Ends ports d' q'))

-- What the start of a candidate comes to: it fails and leaves the manager, or it runs.
pub data Starts (w : World) (svc : Service) (m : Manager) (r : Daemon × Result Ports) : Type 0 where
  fails : (e : ProcessTypes.Error) → r.1 ≡ err e → r.0.manager ≡ m → Starts w svc m r
  runs :
      (ports : Ports) (pid : ℕ)
      → r.1 ≡ ok ports
      → w.os.started ≡ some pid
      → r.0.manager ≡ launched svc true w.now ports pid m
      → Starts w svc m r

pub start_candidate-Starts :
    (w : World) (svc : Service) (d : Daemon) → Starts w svc d.manager (start_candidate w svc d)
start_candidate-Starts w svc d = by (start w.os svc true w.now w.now d.manager).2 refl
  where
    by :
        (r : Result Ports)
        → (start w.os svc true w.now w.now d.manager).2 ≡ r
        → Starts w svc d.manager (start_candidate w svc d)
    by (err e) h =
        fails e h (tell_all-manager w _ _ ∙ start-err w.os svc true w.now w.now d.manager e h)
    by (ok ports) h =
        let (free, reserved, binary, (pid, spawned, q)) =
          start-cases w.os svc true w.now w.now d.manager ports h in
        runs ports pid h spawned (tell_all-manager w _ _ ∙ ap (λ (r : Outcome Ports). r.0) q)

abbrev pub detached : String → ℕ → RunningProc → DetachedProcess
detached name a rp = record {
  name = name;
  proc = a;
  cmd = rp.cmd;
  pid = rp.pid;
  internal_port = rp.internal_port;
  internal_ports = rp.internal_ports;
}

pub detach_lem :
    (name : String) (m : Manager) (a : ℕ) (rp : RunningProc)
    → lookup name m.procs ≡ some a
    → tracked name m ≡ some rp
    → detach name m ≡ (record m { procs = delete name m.procs }, some (detached name a rp))
unfolding detach
detach_lem name m a rp p q = rw (p, q) refl
