-- ===== src/Service/Restored.antt =====
-- What a restart or a deployment that fails over a running process leaves.
use mathlib.Core.Option
use anito.Prelude.{
  String, ◌≡◌, refl, sym, ap, ◌∙◌, subst, true, false, Option, none, some, ℕ_comparable,
  text_comparable,
}
use anito.Assoc.{lookup, insert, lookup-insert_self}
use anito.Registry.Types.{Service}
use anito.Registry.Ports.{sync_singular_from_map, primary_stable_port, primary_internal_port}
use anito.Registry.Calls.{step, restores}
use anito.Registry.Methods
use anito.Registry.Methods.{put}
use anito.Registry.Saved.{lookup-save}
use anito.Process.Types.{RunningProc, DetachedProcess}
use anito.Process.Manager.{tracked}
use anito.Proxy.Types.{Error}
use anito.Service.World.{Daemon, World, tell, bind_ports}
use anito.Service.Undo.{
  restore_failed_deploy, restore_old, restore_entry, restore_bound, with_history,
}
use anito.Service.Replace.{Failure, undone}
use anito.Service.Detached.{IsFree, reattached, restore-IsFree}

-- The old process is tracked again, and the old entry stands again, but for
-- the starts that it remembers.
pub record IsRestored (name : String) (previous : Service) (rp : RunningProc) (d : Daemon)
    : Type 0 where
  pub process : tracked name d.manager ≡ some rp
  pub current : Option Service
  pub entry : lookup name d.registry.services ≡ some (with_history current previous)

abbrev pub IsUndone : String → Service → DetachedProcess → Daemon × Option Failure → Type 0
IsUndone name previous dp (d, failed) =
    (f : Failure) → failed ≡ some f → IsRestored name previous (reattached dp) d

-- The old process is alive, as far as the operation can see.
abbrev pub SeesOld : World → Type 0
SeesOld w = (w.old_finished ≡ false) × (w.old_alive ≡ true)

with_history-sync :
    (current : Option Service) (s : Service)
    → sync_singular_from_map s ≡ s
    → sync_singular_from_map (with_history current s) ≡ with_history current s
unfolding with_history sync_singular_from_map primary_stable_port primary_internal_port
with_history-sync none s e i = e i
with_history-sync (some c) s e i = record (e i) {
  last_started_at = c.last_started_at;
  start_history = c.start_history;
}

with_history-name :
    (current : Option Service) (s : Service) → (with_history current s).name ≡ s.name
unfolding with_history
with_history-name none s = refl
with_history-name (some c) s = refl

lookup-restores :
    (w : World) (name : String) (s : Service) (d : Daemon)
    → s.name ≡ name
    → sync_singular_from_map s ≡ s
    → lookup name (tell w (restores (some s)) d).registry.services ≡ some s
unfolding step Methods.restore
lookup-restores w name s d n e =
    lookup-save w.codec (w.saves (restores (some s))) (put s.name s d.registry) name
    ∙ ap (Option.map sync_singular_from_map) (found name n)
    ∙ ap some e
  where
    found : (k : String) → s.name ≡ k → lookup k (insert s.name s d.registry.services) ≡ some s
    found k q =
        ap (λ j. lookup j (insert s.name s d.registry.services)) (sym q)
        ∙ lookup-insert_self s.name s d.registry.services

pub restore_bound-kept :
    (name : String) (previous : Service) (o : Daemon × Option Error)
    → ((restore_bound name previous o).manager ≡ o.0.manager)
      × ((restore_bound name previous o).registry ≡ o.0.registry)
unfolding restore_bound
restore_bound-kept name previous (d, none) = (refl, refl)
restore_bound-kept name previous (d, some e) = (refl, refl)

restore_old-manager :
    (w : World) (name : String) (dp : DetachedProcess) (d : Daemon)
    → SeesOld w
    → IsFree name dp.proc d.manager
    → tracked name (restore_old w name (some dp) d).manager ≡ some (reattached dp)
unfolding restore_old
restore_old-manager w name dp d (f, a) h = rw (f, a) (restore-IsFree name dp d.manager h)

pub restore_failed_deploy-IsRestored :
    (w : World) (previous : Service) (dp : DetachedProcess) (d : Daemon)
    → SeesOld w
    → sync_singular_from_map previous ≡ previous
    → IsFree previous.name dp.proc d.manager
    → IsRestored previous.name previous
        (reattached dp)
        (restore_failed_deploy w previous.name (some previous) (some dp) d)
unfolding restore_failed_deploy restore_entry
restore_failed_deploy-IsRestored w previous dp d o e h =
    let d' = restore_old w previous.name (some dp) d in
    let current = lookup previous.name d'.registry.services in
    let kept = restore_bound-kept previous.name previous (
      bind_ports w w.binds_again previous.name previous.stable_ports previous.proxy_bind_address
        (tell w (restores (some (with_history current previous))) d')) in
    record {
      process = rw (kept.0) (restore_old-manager w previous.name dp d o h);
      current = current;
      entry = rw (kept.1) (
          lookup-restores w previous.name (with_history current previous) d'
            (with_history-name current previous) (with_history-sync current previous e));
    }

module _ (w : World) (svc previous : Service) (dp : DetachedProcess) (o : SeesOld w)
    (e : sync_singular_from_map previous ≡ previous) (same : previous.name ≡ svc.name) where
  pub undone-IsUndone :
      (failure : Failure) (d : Daemon)
      → IsFree svc.name dp.proc d.manager
      → IsUndone svc.name previous dp (undone w svc.name (some previous) (some dp) failure d)
  undone-IsUndone failure d h f q = at svc.name same h
    where
      at :
          (name : String)
          → previous.name ≡ name
          → IsFree name dp.proc d.manager
          → IsRestored name previous
              (reattached dp)
              (restore_failed_deploy w name (some previous) (some dp) d)
      at name p g =
          subst
            (λ k.
              IsFree k dp.proc d.manager
              → IsRestored k previous (reattached dp)
                  (restore_failed_deploy w k (some previous) (some dp) d))
            p (restore_failed_deploy-IsRestored w previous dp d o e) g
