-- ===== src/Service/Deploy.antt =====
-- internal/service/service.go: Deploy, Restart, Rollback, Stop and Remove, each behind the gate. Deploy,
-- Restart and Rollback hold the lock of the service's name, so each is one sequence of steps.
use anito.Prelude.{ℕ, String, Bool, Option, none, some, text_comparable, if◌then◌else◌}
use anito.Assoc.{lookup}
use anito.Registry.Types.{Ports, Service, running, stopped}
use anito.Registry.Store.{Registry, Result, ok, err}
use anito.Registry.Store as Store
use anito.Registry.Methods
use anito.Registry.Calls.{registers, sets_status, sets_last_deployed, removes}
use anito.Process.Types as ProcessTypes
use anito.Process.Types.{Manager, RunningProc}
use anito.Process.Manager
use anito.Proxy.Types as ProxyTypes
use anito.Proxy.Types.{Proxies, AddressError}
use anito.Proxy.Address.{validate_proxy_bind_address}
use anito.Proxy.Routes.{swap_static, unswap_ports, remove_ports}
use anito.Service.Names.{NameError, validate_service_name}
use anito.Service.Startup.{StartupTracker, StartupGateError, ensure_mutable}
use anito.Service.World.{Daemon, World, tell, bind_ports, stopped_by}
use anito.Service.Undo.{is_static, restore_failed_deploy, restore_previous}
use anito.Service.Replace.{Failure, restart_locked, deploy_binary}
use anito.Service.Ports as Allocate
use anito.Service.Ports.{PortError, Allocation, allocate_ports}
use anito.Service.Request.{
  DeployRequest, Node, Invalid, validate_deploy_request, with_defaults, preferred_ports, draft,
}

pub data ServiceError : Type 0 where
  not_ready : StartupGateError → ServiceError
  bad_name : NameError → ServiceError
  invalid : Invalid → ServiceError
  bad_bind_address : AddressError → ServiceError
  no_ports : PortError → ServiceError
  not_found : String → ServiceError
  registry_failed : Store.Error → ServiceError
  proxy_failed : ProxyTypes.Error → ServiceError
  process_failed : ProcessTypes.Error → ServiceError
  not_drained : String → ServiceError
  failed_with : Failure → ServiceError

-- What else an operation meets: the paths, their hashes, the ports that can be listened on, and
-- whether a process that is stopped ends in time.
pub record Host : Type 0 where
  pub stat : String → Node
  pub hash : String → String
  pub listens : ℕ → Bool
  pub drains : Bool

abbrev pub Done : Type 0
Done = Daemon × Option ServiceError

abbrev pub because_of : Daemon × Option Failure → Done
because_of (d, none) = (d, none)
because_of (d, some f) = (d, some (failed_with f))

abbrev pub went_live : World → String → Daemon → Daemon
went_live w name d =
    tell w (sets_last_deployed name w.now w.now) (tell w (sets_status name running 0 w.now) d)

-- A static service: the proxy serves its directory.
unfoldable pub deploy_static : World → DeployRequest → Service → Option Service → Daemon → Done
deploy_static w q svc previous d =
    let (d', failed) = bind_ports w w.binds svc.name svc.stable_ports svc.proxy_bind_address d in
    let (m, swapped) = swap_static q.name q.path d'.proxies in
    let d'' = record d' { proxies = m } in
    elim failed [
      | some e ↦ (restore_previous w q.name previous d', some (proxy_failed e))
      | none ↦ elim swapped [
        | some e ↦ (restore_failed_deploy w q.name previous none d'', some (proxy_failed e))
        | none ↦ (went_live w q.name d'', none)
      ]
    ]

-- From `Get` on. The entry is there, since it has just been registered; the second case is the
-- source's nil dereference.
unfoldable pub deploy_found :
    World → DeployRequest → Option Service → Daemon → Option Service → Done
unfolding deploy_static
deploy_found w q previous d none = (d, some (not_found q.name))
deploy_found w q previous d (some svc) =
    if is_static q.service_type
    then deploy_static w q svc previous d
    else because_of (deploy_binary w svc previous d)

unfoldable pub deploy_saved :
    World → DeployRequest → Option Service → Daemon → Result (Unit {0}) → Done
unfolding deploy_found
deploy_saved w q previous d (err e) = (d, some (registry_failed e))
deploy_saved w q previous d (ok u) = deploy_found w q previous d (lookup q.name d.registry.services)

unfoldable pub register_draft : World → Service → Daemon → Daemon × Result (Unit {0})
register_draft w s d =
    let (r, done) =
      Methods.register w.codec (w.saves (registers w.now w.now s)) w.now w.now s d.registry in
    (record d { registry = r }, done)

unfoldable pub deploy_allocated : World → Host → DeployRequest → Daemon → Allocation Ports → Done
unfolding deploy_saved register_draft
deploy_allocated w h q d (Allocate.err e) = (d, some (no_ports e))
deploy_allocated w h q d (Allocate.ok ports) =
    let (d', done) = register_draft w (draft h.hash q ports) d in
    deploy_saved w q (lookup q.name d.registry.services) d' done

-- From `allocatePorts` on.
unfoldable pub deploy_valid : World → Host → DeployRequest → Daemon → Done
unfolding deploy_allocated
deploy_valid w h q d =
    let (m, allocated) =
      allocate_ports w.net h.listens q.name q.proxy_bind_address (preferred_ports q) d.registry
        d.proxies in
    deploy_allocated w h q (record d { proxies = m }) allocated

unfoldable pub deploy_locked : World → Host → DeployRequest → Daemon → Done
unfolding deploy_valid
deploy_locked w h q d = elim (validate_deploy_request (h.stat q.path) q) [
  | some e ↦ (d, some (invalid e))
  | none ↦ elim (validate_proxy_bind_address w.net q.proxy_bind_address) [
    | some e ↦ (d, some (bad_bind_address e))
    | none ↦ deploy_valid w h (with_defaults q) d
  ]
]

-- The gate, the check of the name, and what stands behind them.
abbrev pub behind_gate : Option StartupGateError → Daemon → Done → Done
behind_gate (some e) d done = (d, some (not_ready e))
behind_gate none d done = done

abbrev pub if_named : Option NameError → Daemon → Done → Done
if_named (some e) d done = (d, some (bad_name e))
if_named none d done = done

module _ {ℓ} {R : Type ℓ} (startup : StartupTracker R) (w : World) (h : Host) where
  unfoldable pub deploy : DeployRequest → Daemon → Done
  unfolding deploy_locked
  deploy q d =
      behind_gate (ensure_mutable startup) d
        (if_named (validate_service_name q.name) d (deploy_locked w h q d))

  unfoldable pub restart : String → Daemon → Done
  restart name d =
      behind_gate (ensure_mutable startup) d
        (if_named (validate_service_name name) d (because_of (restart_locked w name d)))

  -- `Stop` of the manager, its wait for the process included.
  unfoldable pub stop_found : String → Daemon → Manager × ProcessTypes.Result RunningProc → Done
  stop_found name d (m, ProcessTypes.err e) = (record d { manager = m }, some (process_failed e))
  stop_found name d (m, ProcessTypes.ok rp) =
      let d' = stopped_by w (m, ProcessTypes.ok rp) d in
      if h.drains
      then (tell w (sets_status name stopped 0 w.now) d', none)
      else (d', some (not_drained name))

  unfoldable pub stop : String → Daemon → Done
  unfolding stop_found
  stop name d =
      let (d', failed) = stop_found name d (Manager.stop name d.manager) in
      behind_gate (ensure_mutable startup) d (elim (lookup name d.registry.services) [
        | none ↦ (d, some (not_found name))
        | some svc ↦ (record d' { proxies = unswap_ports name d'.proxies }, failed)
      ])

  unfoldable pub removed : Daemon → Store.Outcome (Unit {0}) → Done
  removed d (r, ok u) = (record d { registry = r }, none)
  removed d (r, err e) = (record d { registry = r }, some (registry_failed e))

  unfoldable pub remove : String → Daemon → Done
  unfolding removed
  remove name d =
      let d' = stopped_by w (Manager.stop name d.manager) d in
      let d'' = record d' { proxies = remove_ports name d'.proxies } in
      behind_gate (ensure_mutable startup) d
        (removed d'' (Methods.remove w.codec (w.saves (removes name)) name d''.registry))
