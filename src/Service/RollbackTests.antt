-- ===== src/Service/RollbackTests.antt =====
-- A rollback that fails over a running process.
use anito.Prelude.{◌≡◌, refl, false, none, some, [], ◌∷◌, text_comparable, ℕ_comparable}
use anito.Assoc.{lookup, insert, delete, map_values}
use anito.Registry.Types.{Service, DeploymentSnapshot}
use anito.Registry.Edits.{snapshot, registered, carry_over}
use anito.Registry.Ports.{normalize_ports, upgrade_ports, sync_singular_from_map}
use anito.Registry.Store.{Registry, RegistryFile, Result, ok, save, sync_all, written}
use anito.Registry.Store as Store
use anito.Registry.Invariant.{IsValid}
use anito.Registry.Methods.{register, put}
use anito.Registry.Tests.{api, known, encode_known_self}
use anito.Process.Manager.{
  new, start, launched, tracked, is_running, detach, reserve_internal_ports,
}
use anito.Process.Tests.{busy}
use anito.Proxy.Tests.{two}
use anito.Proxy.Listeners.{
  register_ports, bind_each, pass, bind, rebind, publish_pending, add_entries, route_for,
}
use anito.Proxy.Address.{validate_proxy_bind_address, register_ports_with_bind}
use anito.Proxy.Keys.{entry_key}
use anito.Text.Trim.{trim_space, is_space}
use anito.Service.World.{Daemon, World}
use anito.Service.Replace.{not_healthy, restart_locked, restart_found, restart_started}
use anito.Service.Deploy.{register_draft, failed_with}
use anito.Service.Rollback.{
  rolled_back, rollback_restarted, rollback_bound, rollback_found, rollback_saved, rollback_to,
  rollback_locked,
}
use anito.Service.Failing.{IsHalfDone, rollback_locked-IsHalfDone}
use anito.Service.RestartTests.{rp, world, api-IsEntry, api-IsServing, not_zero}
use anito.Service.DeployTests.{save_known, has_ports}

abbrev target : DeploymentSnapshot
target = record (snapshot api) { version = "v0"; binary_path = "/srv/api/dist/api0" }

abbrev current : Service
current = record api { previous_deployment = some target }

abbrev after_deploy : Registry
after_deploy = record { services = ("api", current) ∷ []; tombstones = []; disk = none }

after_deploy-IsValid : IsValid after_deploy
unfolding lookup
after_deploy-IsValid = record {
  unique = (refl, tt);
  entries = (
    record {
      draft = record {
        named = refl;
        bound = api-IsEntry.draft.bound;
        remembered = api-IsEntry.draft.remembered;
      };
      stable = api-IsEntry.stable;
      internal = api-IsEntry.internal;
    },
    tt,
  );
}

abbrev running_on : Daemon
running_on = record { registry = after_deploy; manager = busy; proxies = two; attempts = [] }

current_found : lookup "api" after_deploy.services ≡ some current
unfolding lookup
current_found = refl

abbrev sent : Service
sent = rolled_back "api" current target

abbrev put_sent : Registry
put_sent = put "api" (registered 50 50 (some current) sent) after_deploy

abbrev staged : RegistryFile
staged = Store.file (sync_all put_sent)

abbrev writable : World
writable = record world { codec = known staged }

registers_sent :
    register (known staged) written 50 50 sent after_deploy
    ≡ (record (sync_all put_sent) { disk = some "known" }, ok tt)
unfolding register lookup rolled_back normalize_ports sync_singular_from_map upgrade_ports
registers_sent = save_known (known staged) put_sent "known" (encode_known_self staged)

rollback_fails :
    (rollback_locked writable "api" running_on).1 ≡ some (failed_with (not_healthy "api"))
unfolding rollback_locked rollback_to rollback_saved rollback_found rollback_bound
    rollback_restarted register_draft restart_locked restart_found restart_started lookup detach
    start tracked launched new is_running reserve_internal_ports insert delete
    register_ports_with_bind trim_space is_space validate_proxy_bind_address register_ports
    bind_each pass bind rebind publish_pending add_entries route_for
rollback_fails = rw registers_sent (
    unfold sync_all map_values sync_singular_from_map registered normalize_ports carry_over
      upgrade_ports rolled_back snapshot entry_key in
    refl)

rollback_locked-IsHalfDone_example :
    IsHalfDone "api" target
      (record rp { candidate = false; exited = false })
      (rollback_locked writable "api" running_on).0
unfolding snapshot
rollback_locked-IsHalfDone_example =
    rollback_locked-IsHalfDone writable "api" current target running_on rp (not_healthy "api")
      (refl, refl) after_deploy-IsValid current_found has_ports refl refl api-IsServing not_zero
      rollback_fails
