-- ===== src/Service/Rollback.antt =====
-- internal/service/service.go: Rollback, Reserve and ReservePorts.
use anito.Prelude.{String, false, Option, none, some, [], text_comparable, if◌then◌else◌}
use anito.Assoc.{lookup}
use anito.Registry.Types.{Ports, Service, DeploymentSnapshot, binary, stopped, blank}
use anito.Registry.Ports.{normalize_ports, default_proxy_bind_address}
use anito.Registry.Edits.{snapshot}
use anito.Registry.Store.{Result, ok, err}
use anito.Registry.Calls.{sets_last_deployed}
use anito.Proxy.Routes.{swap_static}
use anito.Service.Startup.{StartupTracker, ensure_mutable}
use anito.Service.Names.{validate_service_name}
use anito.Service.World.{Daemon, World, tell, bind_ports}
use anito.Service.Undo.{is_static}
use anito.Service.Replace.{restart_locked}
use anito.Service.Ports as Allocate
use anito.Service.Ports.{PortError, Allocation, allocate_ports}
use anito.Service.Request.{no_previous_deployment, fallback_string}
use anito.Service.Deploy.{
  ServiceError, not_ready, bad_name, invalid, no_ports, not_found, registry_failed, proxy_failed,
  Host, Done, because_of, went_live, register_draft, behind_gate,
}

-- The previous deployment as the next one; the one that it replaces becomes the previous one.
unfoldable pub rolled_back : String → Service → DeploymentSnapshot → Service
rolled_back name current prev = normalize_ports (record {
  name = name;
  version = prev.version;
  service_type = prev.service_type;
  config_path = prev.config_path;
  binary_path = prev.binary_path;
  args = prev.args;
  stable_ports = current.stable_ports;
  proxy_bind_address = fallback_string prev.proxy_bind_address current.proxy_bind_address;
  health_check_port = prev.health_check_port;
  env_file = prev.env_file;
  health_check = prev.health_check;
  watch_paths = prev.watch_paths;
  drain_window = prev.drain_window;
  health_check_timeout = prev.health_check_timeout;
  restart_policy = prev.restart_policy;
  status = stopped;
  deployed_at = current.deployed_at;
  previous_deployment = some (snapshot current);
  stable_port = 0;
  internal_port = 0;
  internal_ports = [];
  pid = 0;
  updated_at = 0;
  last_deployed_at = 0;
  last_started_at = 0;
  crash_attempts = 0;
  gave_up = false;
  start_history = [];
  archived_at = 0;
  archived_from = blank;
})

-- The restart of the entry that has been registered. A failure is undone by Restart alone.
unfoldable pub rollback_restarted : World → String → Done → Done
rollback_restarted w name (d, some e) = (d, some e)
rollback_restarted w name (d, none) = (tell w (sets_last_deployed name w.now w.now) d, none)

unfoldable pub rollback_bound : World → String → Service → Daemon → Done
unfolding rollback_restarted
rollback_bound w name svc d =
    let (m, swapped) = swap_static svc.name svc.binary_path d.proxies in
    let d' = record d { proxies = m } in
    if is_static svc.service_type
    then elim swapped [ some e ↦ (d', some (proxy_failed e)) | none ↦ (went_live w name d', none) ]
    else rollback_restarted w name (because_of (restart_locked w name d))

unfoldable pub rollback_found : World → String → Daemon → Option Service → Done
unfolding rollback_bound
rollback_found w name d none = (d, some (not_found name))
rollback_found w name d (some svc) =
    let (d', failed) = bind_ports w w.binds svc.name svc.stable_ports svc.proxy_bind_address d in
    elim failed [ some e ↦ (d', some (proxy_failed e)) | none ↦ rollback_bound w name svc d' ]

unfoldable pub rollback_saved : World → String → Daemon × Result (Unit {0}) → Done
unfolding rollback_found
rollback_saved w name (d, err e) = (d, some (registry_failed e))
rollback_saved w name (d, ok u) = rollback_found w name d (lookup name d.registry.services)

unfoldable pub rollback_to : World → String → Daemon → Service → Option DeploymentSnapshot → Done
unfolding rollback_saved rolled_back
rollback_to w name d current none = (d, some (invalid (no_previous_deployment name)))
rollback_to w name d current (some prev) =
    rollback_saved w name (register_draft w (rolled_back name current prev) d)

unfoldable pub rollback_locked : World → String → Daemon → Done
unfolding rollback_to
rollback_locked w name d = elim (lookup name d.registry.services) [
  | none ↦ (d, some (not_found name))
  | some current ↦ rollback_to w name d current current.previous_deployment
]

-- What stands for a service that is reserved and not deployed.
unfoldable pub placeholder : String → Ports → Service
placeholder name ports = normalize_ports (record {
  name = name;
  version = "";
  service_type = binary;
  config_path = "";
  binary_path = "";
  args = [];
  stable_ports = ports;
  proxy_bind_address = "";
  health_check_port = "";
  env_file = "";
  health_check = "/health";
  watch_paths = [];
  drain_window = 0;
  health_check_timeout = 0;
  restart_policy = "";
  status = stopped;
  deployed_at = 0;
  previous_deployment = none;
  stable_port = 0;
  internal_port = 0;
  internal_ports = [];
  pid = 0;
  updated_at = 0;
  last_deployed_at = 0;
  last_started_at = 0;
  crash_attempts = 0;
  gave_up = false;
  start_history = [];
  archived_at = 0;
  archived_from = blank;
})

pub data Reserved : Type 0 where
  reserved : Ports → Reserved
  refused : ServiceError → Reserved

-- An entry that is there stays; the error of `Register` is dropped.
unfoldable pub reserve_allocated : World → String → Daemon → Allocation Ports → Daemon × Reserved
unfolding placeholder
reserve_allocated w name d (Allocate.err e) = (d, refused (no_ports e))
reserve_allocated w name d (Allocate.ok ports) = elim (lookup name d.registry.services) [
  | none ↦ ((register_draft w (placeholder name ports) d).0, reserved ports)
  | some svc ↦ (d, reserved ports)
]

module _ {ℓ} {R : Type ℓ} (startup : StartupTracker R) (w : World) (h : Host) where
  unfoldable pub rollback : String → Daemon → Done
  unfolding rollback_locked
  rollback name d = behind_gate (ensure_mutable startup) d (rollback_locked w name d)

  unfoldable pub reserve_valid : String → Ports → Daemon → Daemon × Reserved
  unfolding reserve_allocated
  reserve_valid name preferred d =
      let (m, allocated) =
        allocate_ports w.net h.listens name default_proxy_bind_address preferred d.registry
          d.proxies in
      reserve_allocated w name (record d { proxies = m }) allocated

  -- `ReservePorts`. `Reserve` is this for the one name "default".
  unfoldable pub reserve_ports : String → Ports → Daemon → Daemon × Reserved
  unfolding reserve_valid
  reserve_ports name preferred d = elim (ensure_mutable startup) [
    | some e ↦ (d, refused (not_ready e))
    | none ↦ elim (validate_service_name name) [
      | some e ↦ (d, refused (bad_name e))
      | none ↦ reserve_valid name preferred d
    ]
  ]
