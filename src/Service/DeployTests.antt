-- ===== src/Service/DeployTests.antt =====
-- A deployment and a rollback that fail over a running process, and ports for a new service.
use anito.Prelude.{
  ℕ, String, ◌≡◌, refl, ◌≢◌, true, false, Option, none, some, [], ◌∷◌, text_comparable,
  ℕ_comparable,
}
use anito.Assoc.{lookup, insert, delete, map_values}
use anito.Registry.Types.{Ports, Service, binary}
use anito.Registry.Edits.{registered, carry_over}
use anito.Registry.Ports.{normalize_ports, upgrade_ports, sync_singular_from_map}
use anito.Registry.Store.{
  Registry, Result, ok, err, save, write_file, sync_all, no_rename, rename_failed, written,
}
use anito.Registry.Store as Store
use anito.Registry.Methods.{register, used_ports}
use anito.Registry.Tests.{api, home, home-IsValid}
use anito.Process.Manager.{
  new, start, launched, tracked, is_running, detach, reserve_internal_ports,
}
use anito.Proxy.Tests.{two}
use anito.Proxy.Address.{validate_proxy_bind_address, register_ports_with_bind}
use anito.Text.Trim.{trim_space, is_space}
use anito.Service.Names.{
  validate_service_name, contains, starts_well, tail, all_chars, is_service_name_char,
  is_service_name_alpha_num,
}
use anito.Proxy.Keys.{has_prefix}
use anito.Service.Startup.{StartupTracker, new_startup_tracker, ensure_mutable}
use anito.Service.World.{World}
use anito.Service.Replace.{not_healthy, deploy_binary, deploy_started}
use anito.Service.Ports.{allocate_ports, allocate_each, allocate_one_port, is_used, Allocation}
use anito.Service.Ports as Allocate
use anito.Service.Request.{DeployRequest, file, validate_deploy_request, with_defaults, draft}
use anito.Service.Deploy.{
  Host, deploy, deploy_locked, deploy_valid, deploy_allocated, deploy_saved, deploy_found,
  register_draft, failed_with, registry_failed,
}
use anito.Service.Exclusive.{AreExclusive, allocate_ports-AreExclusive}
use anito.Registry.Store.{Codec, RegistryFile}
use anito.Process.Tests.{busy}
use anito.Service.Unsaved.{IsUnsaved, deploy_locked-IsUnsaved}
use anito.Registry.Methods.{put}
use anito.Registry.Tests.{known, encode_known_self}
use anito.Service.Restored.{IsRestored}
use anito.Service.Undone.{deploy-IsRestored}
use anito.Service.RestartTests.{rp, serving, world, api_found, api-IsServing, not_zero}

abbrev request : DeployRequest
request = record {
  name = "api";
  version = "v2";
  version_path = "";
  service_type = binary;
  path = "/srv/api/dist/api2";
  args = [];
  stable_port = 0;
  stable_ports = [];
  proxy_bind_address = "";
  health_check_port = "ws";
  env_file = "null";
  health_check = "";
  watch_paths = [];
  drain_window = 0;
  health_check_timeout = 0;
  restart_policy = "";
  config_path = "";
}

abbrev host : Host
host = record { stat = λ path. file; hash = λ path. "sha:0"; listens = λ port. true; drains = true }

abbrev ready : StartupTracker ℕ
ready = new_startup_tracker

-- Of the three, one is taken, one is a duplicate and one is free.
abbrev wanted : Ports
wanted = ("http", 7172) ∷ ("admin", 9000) ∷ ("debug", 9000) ∷ []

allotted :
    (allocate_ports world.net (λ port. true) "new" "localhost" wanted home two).1
    ≡ Allocate.ok (("http", 8100) ∷ ("admin", 9000) ∷ ("debug", 8101) ∷ [])
unfolding allocate_ports allocate_each allocate_one_port is_used used_ports register_ports_with_bind
    trim_space is_space validate_proxy_bind_address lookup insert Allocate.port_range_end
    Allocate.port_range_start anito.Proxy.Listeners.register_ports anito.Proxy.Listeners.bind_each
    anito.Proxy.Listeners.pass anito.Proxy.Keys.entry_key anito.Proxy.Listeners.bind
    anito.Proxy.Listeners.publish_pending anito.Proxy.Listeners.add_entries
    anito.Proxy.Listeners.route_for
allotted = refl

new_absent : lookup "new" home.services ≡ none
unfolding lookup
new_absent = refl

allocate_ports-AreExclusive_example :
    AreExclusive home wanted (("http", 8100) ∷ ("admin", 9000) ∷ ("debug", 8101) ∷ [])
allocate_ports-AreExclusive_example =
    allocate_ports-AreExclusive world.net (λ port. true) "new" "localhost" wanted home two
      (("http", 8100) ∷ ("admin", 9000) ∷ ("debug", 8101) ∷ []) new_absent allotted

-- An encoding/json that encodes nothing.
mute_law :
    (f : RegistryFile) (text : String)
    → ◌≡◌ {A = Option String} none (some text)
    → ◌≡◌ {A = Option RegistryFile} none (some f)
mute_law f text e = cc

mute : Codec
mute = record { encode = λ f. none; decode = λ text. none; decode-encode = mute_law }

abbrev unwritable : World
unwritable = record world { codec = mute }

pub has_ports : ◌≢◌ {A = Ports} (("http", 7173) ∷ ("ws", 7172) ∷ []) []
has_ports e = cc

unsaved :
    (deploy_locked unwritable host request serving).1 ≡ some (registry_failed Store.marshal_failed)
unfolding deploy_locked deploy_valid deploy_allocated deploy_saved register_draft draft
    validate_deploy_request all_chars is_service_name_char is_service_name_alpha_num
    validate_proxy_bind_address trim_space allocate_ports lookup with_defaults register save mute
unsaved = refl

deploy_locked-IsUnsaved_example :
    IsUnsaved request busy (deploy_locked unwritable host request serving).0
deploy_locked-IsUnsaved_example =
    deploy_locked-IsUnsaved unwritable host request api serving Store.marshal_failed home-IsValid
      api_found has_ports unsaved

-- The registry's file once the draft is registered, which the codec of the next run knows.
abbrev staged : RegistryFile
staged = Store.file (deploy_locked unwritable host request serving).0.registry

abbrev writable : World
writable = record world { codec = known staged }

pub save_known :
    (c : Codec) (r : Registry) (text : String)
    → c.encode (Store.file (sync_all r)) ≡ some text
    → save c written r ≡ (record (sync_all r) { disk = some text }, ok tt)
unfolding save write_file
save_known c r text e = rw (save, e) refl

abbrev sent : Service
sent = draft host.hash (with_defaults request) api.stable_ports

abbrev put_draft : Registry
put_draft = put "api" (registered 50 50 (some api) sent) home

registers_draft :
    register (known staged) written 50 50 sent home
    ≡ (record (sync_all put_draft) { disk = some "known" }, ok tt)
unfolding deploy_locked deploy_valid deploy_allocated deploy_saved register_draft draft
    validate_deploy_request all_chars is_service_name_char is_service_name_alpha_num
    validate_proxy_bind_address trim_space allocate_ports lookup with_defaults register save mute
    normalize_ports sync_singular_from_map upgrade_ports
registers_draft = save_known (known staged) put_draft "known" (encode_known_self staged)

deploy_fails_unhealthy :
    (deploy ready writable host request serving).1 ≡ some (failed_with (not_healthy "api"))
unfolding deploy deploy_locked deploy_valid deploy_allocated deploy_saved register_draft draft
    validate_deploy_request all_chars is_service_name_char is_service_name_alpha_num
    validate_proxy_bind_address trim_space allocate_ports lookup with_defaults ensure_mutable
    new_startup_tracker validate_service_name contains starts_well tail has_prefix deploy_found
    deploy_binary deploy_started detach start tracked launched new is_running reserve_internal_ports
    insert delete
deploy_fails_unhealthy = rw registers_draft (
    unfold sync_all map_values sync_singular_from_map registered normalize_ports carry_over
      upgrade_ports in
    refl)

deploy-IsRestored_example :
    IsRestored "api" api
      (record rp { candidate = false; exited = false })
      (deploy ready writable host request serving).0
deploy-IsRestored_example =
    deploy-IsRestored ready writable host request serving api rp (not_healthy "api") (refl, refl)
      home-IsValid api_found has_ports api-IsServing not_zero deploy_fails_unhealthy
