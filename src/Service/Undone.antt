-- ===== src/Service/Undone.antt =====
-- A deployment as a whole over a service that runs.
use anito.Prelude.{
  String, ◌≡◌, refl, sym, ◌∙◌, subst, ◌≢◌, inl, inr, false, Option, none, some, [], ℕ_comparable,
  text_comparable, arith, Bool-cases, Option-cases,
}
use anito.Assoc.{lookup}
use anito.Assoc.Entries.{Entries-lookup}
use anito.Registry.Types.{Ports, Service}
use anito.Registry.Ports.{normalize_ports, upgrade_ports, sync_singular_from_map}
use anito.Registry.Drafts.{IsEntry}
use anito.Registry.Invariant.{IsValid}
use anito.Registry.Store.{Result, ok, err}
use anito.Process.Types.{RunningProc}
use anito.Proxy.Routes.{swap_static}
use anito.Proxy.Address.{validate_proxy_bind_address}
use anito.Service.World.{Daemon, World, bind_ports}
use anito.Service.Undo.{is_static}
use anito.Service.Names.{validate_service_name, NameError}
use anito.Service.Startup.{StartupTracker, StartupGateError, ensure_mutable}
use anito.Service.Replace.{Failure, deploy_binary}
use anito.Service.Restored.{IsRestored, SeesOld}
use anito.Service.Outcomes.{IsServing, deploy_binary-IsRestored}
use anito.Service.Ports as Allocate
use anito.Service.Ports.{Allocation, allocate_ports}
use anito.Service.Request.{DeployRequest, validate_deploy_request, with_defaults, draft}
use anito.Service.Deploy.{
  Done, Host, because_of, failed_with, register_draft, deploy_static, deploy_found, deploy_saved,
  deploy_allocated, deploy_valid, deploy_locked, deploy, behind_gate, if_named,
}
use anito.Service.Failing.{register_draft-IsRedeploy, because_of-failure}

static-failure :
    (w : World) (q : DeployRequest) (svc : Service) (previous : Option Service) (d : Daemon)
    (f : Failure)
    → (deploy_static w q svc previous d).1 ≡ some (failed_with f)
    → ⊥
unfolding deploy_static
static-failure w q svc previous d f h =
    let bound = bind_ports w w.binds svc.name svc.stable_ports svc.proxy_bind_address d in
    elim (Option-cases bound.1) [
      | inr (e, p) ↦ cc (rw (deploy_static, p) at h)
      | inl p ↦ elim (Option-cases (swap_static q.name q.path bound.0.proxies).1) [
        | inr (e, s) ↦ cc (rw (deploy_static, p, s) at h)
        | inl s ↦ cc (rw (deploy_static, p, s) at h)
      ]
    ]

module _ (w : World) (previous : Service) (rp : RunningProc) (f : Failure) (o : SeesOld w)
    (z : w.os.started ≢ some 0) where
  abbrev Restored : String → Daemon → Type 0
  Restored name d = IsRestored name previous (record rp { candidate = false; exited = false }) d

  binary-IsRestored :
      (name : String) (t : Service) (d : Daemon)
      → t.name ≡ name
      → IsEntry name previous
      → IsServing name rp d.manager
      → (because_of (deploy_binary w t (some previous) d)).1 ≡ some (failed_with f)
      → Restored name (because_of (deploy_binary w t (some previous) d)).0
  binary-IsRestored name t d n e s h =
      let (failed, same) = because_of-failure (deploy_binary w t (some previous) d) f h in
      rw same (
        subst
          (λ (k : String).
            IsEntry k previous
            → IsServing k rp d.manager
            → Restored k (deploy_binary w t (some previous) d).0)
          n (λ e' s'. deploy_binary-IsRestored w t previous d rp f o e' s' z failed) e s)

  found-IsRestored :
      (q : DeployRequest) (t : Service) (d : Daemon)
      → t.name ≡ q.name
      → IsEntry q.name previous
      → IsServing q.name rp d.manager
      → (deploy_found w q (some previous) d (some t)).1 ≡ some (failed_with f)
      → Restored q.name (deploy_found w q (some previous) d (some t)).0
  unfolding deploy_found
  found-IsRestored q t d n e s h = elim (Bool-cases (is_static q.service_type)) [
    | inl b ↦ absurd (static-failure w q t (some previous) d f (rw (deploy_found, b) at h))
    | inr b ↦ rw (deploy_found, b) (binary-IsRestored q.name t d n e s (rw (deploy_found, b) at h))
  ]

  saved-IsRestored :
      (q : DeployRequest) (t : Service) (d : Daemon) (r : Result (Unit {0}))
      → lookup q.name d.registry.services ≡ some t
      → t.name ≡ q.name
      → IsEntry q.name previous
      → IsServing q.name rp d.manager
      → (deploy_saved w q (some previous) d r).1 ≡ some (failed_with f)
      → Restored q.name (deploy_saved w q (some previous) d r).0
  unfolding deploy_saved
  saved-IsRestored q t d (err x) l n e s h = cc
  saved-IsRestored q t d (ok u) l n e s h = rw l (found-IsRestored q t d n e s (rw l at h))

  allocated-IsRestored :
      (host : Host) (q : DeployRequest) (d : Daemon) (a : Allocation Ports)
      → IsValid d.registry
      → lookup q.name d.registry.services ≡ some previous
      → previous.stable_ports ≢ []
      → IsServing q.name rp d.manager
      → (deploy_allocated w host q d a).1 ≡ some (failed_with f)
      → Restored q.name (deploy_allocated w host q d a).0
  unfolding deploy_allocated draft normalize_ports upgrade_ports sync_singular_from_map
      register_draft
  allocated-IsRestored host q d (Allocate.err x) v l p s h = cc
  allocated-IsRestored host q d (Allocate.ok ports) v l p s h =
      let sent = draft host.hash q ports in
      let (valid, (t, at, kept)) =
        register_draft-IsRedeploy w sent previous d v (omega arith) l p in
      let d' = register_draft w sent d in
      let t-IsEntry = Entries-lookup IsEntry d'.0.registry.services q.name t valid.entries at in
      rw l (
        saved-IsRestored q t d'.0 d'.1 at t-IsEntry.draft.named
          (Entries-lookup IsEntry d.registry.services q.name previous v.entries l) s (rw l at h))

  locked-IsRestored :
      (host : Host) (q : DeployRequest) (d : Daemon)
      → IsValid d.registry
      → lookup q.name d.registry.services ≡ some previous
      → previous.stable_ports ≢ []
      → IsServing q.name rp d.manager
      → (deploy_locked w host q d).1 ≡ some (failed_with f)
      → Restored q.name (deploy_locked w host q d).0
  unfolding deploy_locked deploy_valid with_defaults
  locked-IsRestored host q d v l p s h =
      elim (Option-cases (validate_deploy_request (host.stat q.path) q)) [
        | inr (e, a) ↦ cc (rw (deploy_locked, a) at h)
        | inl a ↦ elim (Option-cases (validate_proxy_bind_address w.net q.proxy_bind_address)) [
          | inr (e, b) ↦ cc (rw (deploy_locked, a, b) at h)
          | inl b ↦
              rw (deploy_locked, a, b)
                (allocated-IsRestored host (with_defaults q) _ _ v l p s
                  (rw (deploy_locked, a, b) at h))
        ]
      ]

let_through :
    (o : Option StartupGateError) (d : Daemon) (done : Done) (f : Failure)
    → (behind_gate o d done).1 ≡ some (failed_with f)
    → behind_gate o d done ≡ done
let_through (some e) d done f h = cc
let_through none d done f h = refl

well_named :
    (o : Option NameError) (d : Daemon) (done : Done) (f : Failure)
    → (if_named o d done).1 ≡ some (failed_with f)
    → if_named o d done ≡ done
well_named (some e) d done f h = cc
well_named none d done f h = refl

-- Where a service is registered with stable ports and runs, its process is seen to be alive, and its
-- deployment fails because the new process cannot be brought to serve, at whatever step: the old
-- process is tracked again with its command, its PID and its ports, and the entry is the previous
-- one, but for the starts that it remembers.
pub deploy-IsRestored {ℓ} :
    {R : Type ℓ} (startup : StartupTracker R) (w : World) (host : Host) (q : DeployRequest)
    (d : Daemon) (previous : Service) (rp : RunningProc) (f : Failure)
    → SeesOld w
    → IsValid d.registry
    → lookup q.name d.registry.services ≡ some previous
    → previous.stable_ports ≢ []
    → IsServing q.name rp d.manager
    → w.os.started ≢ some 0
    → (deploy startup w host q d).1 ≡ some (failed_with f)
    → IsRestored q.name previous
        (record rp { candidate = false; exited = false })
        (deploy startup w host q d).0
unfolding deploy
deploy-IsRestored startup w host q d previous rp f o v l p s z h =
    let locked = deploy_locked w host q d in
    let named = if_named (validate_service_name q.name) d locked in
    let opened = let_through (ensure_mutable startup) d named f h in
    let checked =
      well_named (validate_service_name q.name) d locked f
        (subst (λ (r : Done). r.1 ≡ some (failed_with f)) opened h) in
    let same = opened ∙ checked in
    subst
      (λ (r : Done).
        IsRestored q.name previous (record rp { candidate = false; exited = false }) r.0)
      (sym same)
      (locked-IsRestored w previous rp f o z host q d v l p s
        (subst (λ (r : Done). r.1 ≡ some (failed_with f)) same h))
