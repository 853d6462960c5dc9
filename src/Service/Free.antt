-- ===== src/Service/Free.antt =====
-- Restart of a service with no process: it clears the crash counter, or leaves the name free.
use anito.Prelude.{
  ℕ, ◌+◌, ◌<◌, suc, String, ◌≡◌, refl, ap, ◌∙◌, ◌≢◌, ◌⊎◌, inl, inr, Option, none, some, List, [],
  ◌∷◌, ℕ_comparable, text_comparable, arith, Bool-cases, ==_of_ne,
}
use anito.Assoc.{lookup, lookup-delete_self}
use anito.Registry.Types.{Ports, Service}
use anito.Process.Types.{Manager, Result}
use anito.Process.Manager.{exited_at, detach}
use anito.Service.World.{Daemon, World, start_candidate, bind_ports, tell}
use anito.Registry.Calls.{restores}
use anito.Service.Undo.{is_binary, restore_failed_deploy, restore_entry, restore_old, with_history}
use anito.Service.Replace.{
  Failure, restart_started, restart_found, not_started, undone, go_live, mark_old,
}
use anito.Service.Restored.{restore_bound-kept}
use anito.Service.Promoted.{Ends}
use anito.Service.Survives.{Starts, fails, runs, start_candidate-Starts, restart_started-Ends}

-- No crash is counted, or no process of the service could crash.
abbrev pub IsCalm : String → Daemon → Type 0
IsCalm name d = (lookup name d.attempts ≡ none) ⊎ (lookup name d.manager.procs ≡ none)

-- An address beyond all that are in use.
beyond {ℓ} : {V : Type ℓ} → List (ℕ × V) → ℕ
beyond [] = 0
beyond ((k, v) ∷ m) = suc (k + beyond m)

lookup-beyond {ℓ} : {V : Type ℓ} (a : ℕ) (m : List (ℕ × V)) → beyond m < suc a → lookup a m ≡ none
unfolding beyond lookup
lookup-beyond a [] l = refl
lookup-beyond a ((k, v) ∷ m) l =
    let n : k ≢ a = λ e. omega (arith, l, e) in
    let p : beyond m < suc a = omega (arith, l) in rw (==_of_ne k a n) (lookup-beyond a m p)

undone-IsCalm :
    (w : World) (previous : Service) (failure : Failure) (d : Daemon) (name : String)
    → lookup name d.manager.procs ≡ none
    → IsCalm name (undone w name (some previous) none failure d).0
unfolding restore_failed_deploy restore_entry restore_old
undone-IsCalm w previous failure d name f =
    let kept = restore_bound-kept name previous (
      bind_ports w w.binds_again name previous.stable_ports previous.proxy_bind_address
        (tell w (restores (some (with_history (lookup name d.registry.services) previous))) d)) in
    inr (ap (λ (m : Manager). lookup name m.procs) kept.0 ∙ f)

module _ (w : World) (svc : Service) (started : w.os.started ≢ some 0) where
  abbrev Calm : Daemon × Option Failure → Type 0
  Calm r = IsCalm svc.name r.0

  ends : (a : ℕ) → Ends w svc.name (some svc) none a Calm
  unfolding go_live mark_old
  ends a = record {
    undo = λ failure d f. undone-IsCalm w svc failure d svc.name f.0;
    live = λ d pid deployed. inl (lookup-delete_self svc.name d.attempts);
  }

  from_start :
      (m : Manager) (a : ℕ) (r : Daemon × Result Ports)
      → lookup svc.name m.procs ≡ none
      → lookup a m.heap ≡ none
      → m.next ≢ a
      → Starts w svc m r
      → Calm (restart_started w svc.name svc none r.0 r.1)
  unfolding restart_started exited_at
  from_start m a r f x n (fails e h k) = rw h (
      undone-IsCalm w svc (not_started e) r.0 svc.name
        (ap (λ (q : Manager). lookup svc.name q.procs) k ∙ f))
  from_start m a r f x n (runs ports pid h s k) = rw h (
      restart_started-Ends w svc (some svc) none a ports pid m Calm (ends a) n (ap exited_at x)
        (λ z. started (rw z at s)) r.0 refl (inl k))

  pub restart_found-IsCalm :
      (d : Daemon) → lookup svc.name d.manager.procs ≡ none → Calm (restart_found w svc.name svc d)
  unfolding restart_found detach
  restart_found-IsCalm d f = elim (Bool-cases (is_binary svc.service_type)) [
    | inl b ↦
        let a = d.manager.next + suc (beyond d.manager.heap) in
        rw (restart_found, b, f)
          (from_start d.manager a (start_candidate w svc d) f
            (lookup-beyond a d.manager.heap (omega arith)) (λ e. omega (arith, e))
            (start_candidate-Starts w svc d))
    | inr b ↦ rw (restart_found, b) (inr f)
  ]
