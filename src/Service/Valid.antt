-- ===== src/Service/Valid.antt =====
-- A restart keeps the registry valid: every call that it makes is one that a valid registry takes.
use anito.Prelude.{
  ℕ, String, ◌≡◌, refl, inl, inr, true, false, not, Option, none, some, text_comparable,
  Option-cases, Bool-cases, ◌==◌, ℕ_comparable,
}
use anito.Assoc.{lookup}
use anito.Assoc.Entries.{Entries-lookup}
use anito.Registry.Types.{Ports, Service}
use anito.Registry.Drafts.{IsDraft, IsEntry}
use anito.Registry.Calls.{restores, marks_running, sets_crash_state}
use anito.Registry.Invariant.{IsValid, step-IsValid}
use anito.Process.Types.{Waiter, Manager, RunningProc, DetachedProcess, Result, ok, err}
use anito.Process.Manager.{start, Outcome, tracked, activate, stop_failed, detach, pid_of}
use anito.Process.Exit.{ProcessState}
use anito.Proxy.Routes.{swap_ports}
use anito.Service.World.{
  Daemon, World, tell, goroutine, stopped_by, stop_failed_candidate, start_candidate, bind_ports,
}
use anito.Service.Undo.{restore_failed_deploy, restore_entry, restore_old, with_history, is_binary}
use anito.Service.Replace.{
  Failure, undone, candidate_gone, go_live, mark_old, activate_candidate, switch_over,
  restart_started, restart_found, restart_locked, exited_before_activation, not_activated,
  no_upstream, not_healthy, not_owner, not_started,
}
use anito.Service.Restored.{restore_bound-kept}
use anito.Service.Allowed.{tell_all-IsValid, exit-IsAllowed, start-IsAllowed}

goroutine-IsValid :
    (w : World) (d : Daemon) (waiter : Option Waiter) (state : Option ProcessState)
    → IsValid d.registry
    → IsValid (goroutine w d waiter state).registry
unfolding goroutine
goroutine-IsValid w d none state v = v
goroutine-IsValid w d (some waiter) none v = v
goroutine-IsValid w d (some waiter) (some state) v =
    tell_all-IsValid w _ _ (exit-IsAllowed waiter state w.took w.now d.manager) v

stopped_by-IsValid :
    (w : World) (r : Manager × Result RunningProc) (d : Daemon)
    → IsValid d.registry
    → IsValid (stopped_by w r d).registry
unfolding stopped_by
stopped_by-IsValid w (m, err e) d v = v
stopped_by-IsValid w (m, ok rp) d v = goroutine-IsValid w _ _ w.ends v

with_history-IsDraft :
    (current : Option Service) (name : String) (s : Service)
    → IsDraft name s
    → ((c : Service) → current ≡ some c → IsEntry name c)
    → IsDraft (with_history current s).name (with_history current s)
unfolding with_history
with_history-IsDraft none name s v h = record {
  named = refl;
  bound = v.bound;
  remembered = v.remembered;
}
with_history-IsDraft (some c) name s v h = record {
  named = refl;
  bound = v.bound;
  remembered = (h c refl).draft.remembered;
}

restore_old-registry :
    (w : World) (name : String) (old : Option DetachedProcess) (d : Daemon)
    → (restore_old w name old d).registry ≡ d.registry
unfolding restore_old
restore_old-registry w name none d = refl
restore_old-registry w name (some dp) d = refl

module _ (w : World) (name : String) (previous : Service) (b : IsDraft name previous)
    (old : Option DetachedProcess) where
  abbrev Valid : Daemon × Option Failure → Type 0
  Valid r = IsValid r.0.registry

  restore_entry-IsValid :
      (d : Daemon) → IsValid d.registry → IsValid (restore_entry w name (some previous) d).registry
  unfolding restore_entry
  restore_entry-IsValid d v =
      let current = lookup name d.registry.services in
      let entry = with_history current previous in
      let told : Daemon = tell w (restores (some entry)) d in
      rw
        ((restore_bound-kept name previous (
          bind_ports w w.binds_again name previous.stable_ports previous.proxy_bind_address
            told)).1)
        (step-IsValid w.codec (w.saves (restores (some entry))) (restores (some entry)) d.registry
          (with_history-IsDraft current name previous b
            (λ c e. Entries-lookup IsEntry d.registry.services name c v.entries e))
          v)

  undone-Valid :
      (failure : Failure) (d : Daemon)
      → IsValid d.registry
      → Valid (undone w name (some previous) old failure d)
  unfolding restore_failed_deploy
  undone-Valid failure d v =
      restore_entry-IsValid (restore_old w name old d) (rw (restore_old-registry w name old d) v)

  candidate_gone-IsValid :
      (state : Option ProcessState) (d : Daemon)
      → IsValid d.registry
      → IsValid (candidate_gone w state name d).registry
  unfolding candidate_gone
  candidate_gone-IsValid state d v = elim (Option-cases (tracked name d.manager)) [
    | inl e ↦ rw (candidate_gone, e) v
    | inr (rp, e) ↦ rw (candidate_gone, e) (goroutine-IsValid w d _ state v)
  ]

  mark_old-registry : (d : Daemon) → (mark_old old d).registry ≡ d.registry
  unfolding mark_old
  mark_old-registry d = by old
    where
      by : (o : Option DetachedProcess) → (mark_old o d).registry ≡ d.registry
      by none = refl
      by (some dp) = refl

  go_live-IsValid :
      (pid deployed : ℕ) (d : Daemon)
      → IsValid d.registry
      → IsValid (go_live w name pid deployed old d).registry
  unfolding go_live
  go_live-IsValid pid deployed d v = rw (mark_old-registry _) (
      step-IsValid w.codec _ (sets_crash_state name 0 false w.now) _ tt
        (step-IsValid w.codec _ (marks_running name pid deployed w.now) d.registry tt v))

  activate_candidate-Valid :
      (deployed : ℕ) (d : Daemon) (pid : ℕ)
      → IsValid d.registry
      → Valid (activate_candidate w name (some previous) deployed old d pid)
  unfolding activate_candidate
  activate_candidate-Valid deployed d pid v = elim (Bool-cases (pid == 0)) [
    | inl e ↦ rw (activate_candidate, e) (undone-Valid (exited_before_activation name) d v)
    | inr e ↦ rw (activate_candidate, e) (by (activate name d.manager).1)
  ]
    where
      d' : Daemon
      d' = record d { manager = (activate name d.manager).0 }

      activated : Result (Unit {0}) → Daemon × Option Failure
      activated r = elim r [
        | ok u ↦ (go_live w name pid deployed old d', none)
        | err x ↦ undone w name (some previous) old (not_activated x) d'
      ]

      by : (r : Result (Unit {0})) → Valid (activated r)
      by (ok u) = go_live-IsValid pid deployed d' v
      by (err x) = undone-Valid (not_activated x) d' v

  switch_over-Valid :
      (deployed : ℕ) (internal : Ports) (d : Daemon)
      → IsValid d.registry
      → Valid (switch_over w name (some previous) deployed old internal d)
  unfolding switch_over
  switch_over-Valid deployed internal d v =
      let d' : Daemon = record d { proxies = (swap_ports name internal d.proxies).0 } in
      elim (Option-cases (swap_ports name internal d.proxies).1) [
        | inl f ↦
            rw (switch_over, f)
              (activate_candidate-Valid deployed (candidate_gone w w.gone name d')
                (pid_of name (candidate_gone w w.gone name d').manager)
                (candidate_gone-IsValid w.gone d' v))
        | inr (e, f) ↦
            rw (switch_over, f)
              (undone-Valid (no_upstream e) (stop_failed_candidate w name d')
                (stopped_by-IsValid w (stop_failed name d.manager) d' v))
      ]

  restart_started-Valid :
      (d : Daemon) (started : Result Ports)
      → IsValid d.registry
      → Valid (restart_started w name previous old d started)
  unfolding restart_started
  restart_started-Valid d (err e) v = undone-Valid (not_started e) d v
  restart_started-Valid d (ok internal) v =
      let d' = candidate_gone w w.early name d in
      let v' = candidate_gone-IsValid w.early d v in
      let stopped = stopped_by-IsValid w (stop_failed name d'.manager) d' v' in
      let left = stop_failed_candidate w name d' in
      elim (Bool-cases (not w.healthy)) [
        | inl e ↦ rw (restart_started, e) (undone-Valid (not_healthy name) left stopped)
        | inr e ↦ elim (Bool-cases (not w.owns_ports)) [
          | inl k ↦ rw (restart_started, e, k) (undone-Valid (not_owner name) left stopped)
          | inr k ↦ rw (restart_started, e, k) (switch_over-Valid 0 internal d' v')
        ]
      ]

pub restart_locked-IsValid :
    (w : World) (name : String) (d : Daemon)
    → IsValid d.registry
    → IsValid (restart_locked w name d).0.registry
unfolding restart_locked restart_found
restart_locked-IsValid w name d v = elim (Option-cases (lookup name d.registry.services)) [
  | inl e ↦ rw (restart_locked, e) v
  | inr (svc, e) ↦ elim (Bool-cases (is_binary svc.service_type)) [
    | inl k ↦
        rw (restart_locked, e, restart_found, k)
          (restart_started-Valid w name svc
            (Entries-lookup IsEntry d.registry.services name svc v.entries e).draft
            (detach name d.manager).1 (start_candidate w svc (left d)).0
            (start_candidate w svc (left d)).1
            (tell_all-IsValid w (begun svc).1 (record d { manager = (begun svc).0 })
              (start-IsAllowed w.os svc true w.now w.now (left d).manager) v))
    | inr k ↦ rw (restart_locked, e, restart_found, k) v
  ]
]
  where
    left : Daemon → Daemon
    left d' = record d' { manager = (detach name d'.manager).0 }

    begun : (svc : Service) → Outcome Ports
    begun svc = start w.os svc true w.now w.now (left d).manager
