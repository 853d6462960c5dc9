-- ===== src/Service/Undo.antt =====
-- internal/service/service.go: restoreFailedDeploy and restorePrevious, which undo a deployment or a
-- restart that fails.
use anito.Prelude.{
  String, Bool, true, false, not, ◌&&◌, Option, none, some, if◌then◌else◌, text_comparable,
}
use anito.Assoc.{lookup}
use anito.Registry.Types.{Ports, Service, ServiceType, status_beq, running, failed}
use anito.Registry.Types
use anito.Registry.Ports.{is_empty}
use anito.Registry.Store.{Result, ok, err}
use anito.Registry.Methods
use anito.Registry.Calls.{restores, removes, sets_status}
use anito.Process.Types.{DetachedProcess}
use anito.Process.Manager
use anito.Process.Manager.{is_running}
use anito.Proxy.Types.{Proxies, Error}
use anito.Proxy.Routes.{swap_ports, swap_static, unswap_ports, remove_ports}
use anito.Service.World.{Daemon, World, tell, bind_ports}

abbrev pub is_static : ServiceType → Bool
is_static Types.static = true
is_static _ = false

abbrev pub is_binary : ServiceType → Bool
is_binary Types.binary = true
is_binary _ = false

-- The old process is tracked again, if there was one; an error is logged.
unfoldable pub restore_old : World → String → Option DetachedProcess → Daemon → Daemon
restore_old w name none d = d
restore_old w name (some dp) d = record d {
  manager = (Manager.restore w.old_finished w.old_alive name (some dp) d.manager).0;
}

-- The entry to restore, with the starts that the failed candidate has added.
unfoldable pub with_history : Option Service → Service → Service
with_history none previous = previous
with_history (some current) previous = record previous {
  last_started_at = current.last_started_at;
  start_history = current.start_history;
}

-- Where the restored ports lead. The errors are logged.
abbrev pub restore_upstream : String → Service → Proxies → Proxies
restore_upstream name previous m =
    if is_static previous.service_type
    then (swap_static name previous.binary_path m).0
    else if is_empty previous.internal_ports
    then m
    else (swap_ports name previous.internal_ports m).0

unfoldable pub restore_bound : String → Service → Daemon × Option Error → Daemon
restore_bound name previous (d, some e) = d
restore_bound name previous (d, none) = record d {
  proxies = restore_upstream name previous d.proxies;
}

abbrev pub restore_proxy : World → String → Service → Daemon → Daemon
restore_proxy w name previous d =
    restore_bound name previous
      (bind_ports w w.binds_again name previous.stable_ports previous.proxy_bind_address d)

unfoldable pub restore_entry : World → String → Option Service → Daemon → Daemon
unfolding restore_bound
restore_entry w name none d =
    let d' = tell w (removes name) d in record d' { proxies = remove_ports name d'.proxies }
restore_entry w name (some previous) d =
    restore_proxy w name previous
      (tell w (restores (some (with_history (lookup name d.registry.services) previous))) d)

-- `hadPrevious` is whether there is a previous entry.
unfoldable pub restore_failed_deploy :
    World → String → Option Service → Option DetachedProcess → Daemon → Daemon
unfolding restore_old restore_entry
restore_failed_deploy w name previous old d =
    restore_entry w name previous (restore_old w name old d)

-- `restorePrevious` as it is called: for a static service, with no old process.
unfoldable pub saved_or_fail : World → String → Service → Daemon → Result (Unit {0}) → Daemon
saved_or_fail w name previous d (err e) = d
saved_or_fail w name previous d (ok u) =
    if status_beq previous.status running
      && not (is_running name d.manager)
      && is_binary previous.service_type
    then tell w (sets_status name failed 0 w.now)
        (record d { proxies = unswap_ports name d.proxies })
    else d

unfoldable pub restore_previous : World → String → Option Service → Daemon → Daemon
unfolding saved_or_fail with_history
restore_previous w name none d =
    tell w (sets_status name failed 0 w.now) (record d { proxies = unswap_ports name d.proxies })
restore_previous w name (some previous) d =
    let entry = with_history (lookup name d.registry.services) previous in
    let (r, done) =
      Methods.restore w.codec (w.saves (restores (some entry))) (some entry) d.registry in
    saved_or_fail w name previous (record d { registry = r }) done
