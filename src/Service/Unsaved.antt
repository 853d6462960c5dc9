-- ===== src/Service/Unsaved.antt =====
-- A deployment whose registration cannot be written to the registry's file.
use anito.Prelude.{
  ◌≡◌, refl, ◌≢◌, inl, inr, Option, none, some, [], ℕ_comparable, text_comparable, arith,
  Bool-cases, Option-cases,
}
use anito.Assoc.{lookup}
use anito.Registry.Types.{Ports, Service}
use anito.Registry.Ports.{normalize_ports, upgrade_ports, sync_singular_from_map}
use anito.Registry.Invariant.{IsValid}
use anito.Registry.Store.{Registry, Result, ok, err}
use anito.Registry.Store as Store
use anito.Process.Types.{Manager}
use anito.Proxy.Routes.{swap_static}
use anito.Proxy.Address.{validate_proxy_bind_address}
use anito.Service.World.{Daemon, World, bind_ports}
use anito.Service.Undo.{is_static}
use anito.Service.Replace.{Failure, deploy_binary}
use anito.Service.Ports as Allocate
use anito.Service.Ports.{Allocation, allocate_ports}
use anito.Service.Request.{DeployRequest, validate_deploy_request, with_defaults, draft}
use anito.Service.Deploy.{
  Host, because_of, registry_failed, register_draft, deploy_static, deploy_found, deploy_saved,
  deploy_allocated, deploy_valid, deploy_locked,
}
use anito.Service.Failing.{register_draft-IsRedeploy}

because_of-saved :
    (o : Daemon × Option Failure) (x : Store.Error)
    → (because_of o).1 ≡ some (registry_failed x)
    → ⊥
because_of-saved (d, none) x h = cc
because_of-saved (d, some f) x h = cc

static-saved :
    (w : World) (q : DeployRequest) (svc : Service) (previous : Option Service) (d : Daemon)
    (x : Store.Error)
    → (deploy_static w q svc previous d).1 ≡ some (registry_failed x)
    → ⊥
unfolding deploy_static
static-saved w q svc previous d x h =
    let bound = bind_ports w w.binds svc.name svc.stable_ports svc.proxy_bind_address d in
    elim (Option-cases bound.1) [
      | inr (e, p) ↦ cc (rw (deploy_static, p) at h)
      | inl p ↦ elim (Option-cases (swap_static q.name q.path bound.0.proxies).1) [
        | inr (e, s) ↦ cc (rw (deploy_static, p, s) at h)
        | inl s ↦ cc (rw (deploy_static, p, s) at h)
      ]
    ]

found-saved :
    (w : World) (q : DeployRequest) (previous : Option Service) (d : Daemon) (o : Option Service)
    (x : Store.Error)
    → (deploy_found w q previous d o).1 ≡ some (registry_failed x)
    → ⊥
unfolding deploy_found
found-saved w q previous d none x h = cc
found-saved w q previous d (some t) x h = elim (Bool-cases (is_static q.service_type)) [
  | inl b ↦ static-saved w q t previous d x (rw (deploy_found, b) at h)
  | inr b ↦ because_of-saved (deploy_binary w t previous d) x (rw (deploy_found, b) at h)
]

-- Only the save of the registration fails in this way, and nothing is done about it.
saved-kept :
    (w : World) (q : DeployRequest) (previous : Option Service) (d : Daemon) (r : Result (Unit {0}))
    (x : Store.Error)
    → (deploy_saved w q previous d r).1 ≡ some (registry_failed x)
    → (deploy_saved w q previous d r).0 ≡ d
unfolding deploy_saved
saved-kept w q previous d (err y) x h = refl
saved-kept w q previous d (ok u) x h = absurd (found-saved w q previous d _ x h)

-- The entry has the new binary, and the processes are those of before.
pub record IsUnsaved (q : DeployRequest) (m : Manager) (d : Daemon) : Type 0 where
  pub entry : Service
  pub found : lookup q.name d.registry.services ≡ some entry
  pub binary_path : entry.binary_path ≡ q.path
  pub manager : d.manager ≡ m

allocated-IsUnsaved :
    (w : World) (host : Host) (q : DeployRequest) (previous : Service) (d : Daemon)
    (a : Allocation Ports) (x : Store.Error)
    → IsValid d.registry
    → lookup q.name d.registry.services ≡ some previous
    → previous.stable_ports ≢ []
    → (deploy_allocated w host q d a).1 ≡ some (registry_failed x)
    → IsUnsaved q d.manager (deploy_allocated w host q d a).0
unfolding deploy_allocated draft normalize_ports upgrade_ports sync_singular_from_map register_draft
allocated-IsUnsaved w host q previous d (Allocate.err y) x v l p h = cc
allocated-IsUnsaved w host q previous d (Allocate.ok ports) x v l p h =
    let sent = draft host.hash q ports in
    let (valid, (t, at, kept)) = register_draft-IsRedeploy w sent previous d v (omega arith) l p in
    let d' = register_draft w sent d in
    let same = saved-kept w q (lookup q.name d.registry.services) d'.0 d'.1 x h in
    rw same (record { entry = t; found = at; binary_path = kept.binary_path; manager = refl })

-- Where a service is registered with stable ports and its deployment fails because the registration
-- cannot be saved: the entry in memory has the new binary all the same, while the processes are those
-- of before.
pub deploy_locked-IsUnsaved :
    (w : World) (host : Host) (q : DeployRequest) (previous : Service) (d : Daemon)
    (x : Store.Error)
    → IsValid d.registry
    → lookup q.name d.registry.services ≡ some previous
    → previous.stable_ports ≢ []
    → (deploy_locked w host q d).1 ≡ some (registry_failed x)
    → IsUnsaved q d.manager (deploy_locked w host q d).0
unfolding deploy_locked deploy_valid with_defaults
deploy_locked-IsUnsaved w host q previous d x v l p h =
    elim (Option-cases (validate_deploy_request (host.stat q.path) q)) [
      | inr (e, a) ↦ cc (rw (deploy_locked, a) at h)
      | inl a ↦ elim (Option-cases (validate_proxy_bind_address w.net q.proxy_bind_address)) [
        | inr (e, b) ↦ cc (rw (deploy_locked, a, b) at h)
        | inl b ↦
            let r =
              allocated-IsUnsaved w host (with_defaults q) previous _ _ x v l p
                (rw (deploy_locked, a, b) at h) in
            rw (deploy_locked, a, b)
              (record {
                entry = r.entry;
                found = r.found;
                binary_path = r.binary_path;
                manager = r.manager;
              })
      ]
    ]
