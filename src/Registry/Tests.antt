-- ===== src/Registry/Tests.antt =====
-- Runs of the registry on a concrete service, and the theorems at inputs that meet their hypotheses.
use anito.Prelude.{
  ℕ, String, ◌≡◌, refl, sym, ap, ◌≢◌, true, false, Option, none, some, [], ◌∷◌, ◌++◌, ◌⊎◌, ◌↔◌,
  arith, text_comparable, Bool-cases, inl, inr, ne_of_==, ◌==◌, if◌then◌else◌, ℕ_comparable,
}
use mathlib.Core.Logic.{ite, if_pos, if_neg}
use native.Mathlib.Decide.{ℕ_discrete}
use text.Mathlib.TextEquality.{eq_iff}
use anito.Assoc.{lookup, map_values}
use anito.Assoc.Keys.{SameMap}
use anito.Registry.Drafts.{IsDraft}
use anito.Registry.Invariant.{IsValid}
use anito.Registry.Invariant.{IsValid-IsPending}
use anito.Registry.Frame.{step-other}
use anito.Registry.Saved.{load-save}
use anito.Registry.Calls.{removes, step}
use anito.Registry.Store.{load, text_of, ok, save, write_file, sync_all}
use anito.Registry.Methods.{
  register, restore, archive, restore_archived, record_start, complete_start,
}
use anito.Registry.Lifecycle.{restore-register}
use anito.Registry.Archival.{archive_lem, archived_entry, restore_archived-archive}
use anito.Registry.Edits.{starting}
use anito.Registry.Used.{used_ports_iff, Claimed}
use anito.Registry.Store.{err, not_found, already_archived, is_running}
use anito.Registry.Methods.{used_ports}
use anito.Registry.History.{earlier, ended, complete_start-record_start}
use anito.Registry.Recovery.{Reloads}
use anito.Registry.Types.{Service, binary, running, stopped, archived, blank, code}
use anito.Registry.Ports.{
  pick_port, default_or_first, first_key, sync_singular_from_map, primary_stable_port,
  primary_internal_port,
}
use anito.Registry.Normal.{pick_port-SameMap, pick_port_order}
use anito.Registry.Store.{Codec, written, no_write, Registry, RegistryFile}

abbrev pub api : Service
api = record {
  name = "api";
  service_type = binary;
  version = "v1";
  config_path = "/srv/api/.anito/config.yaml";
  binary_path = "/srv/api/dist/api";
  args = [];
  stable_port = 7172;
  internal_port = 50100;
  proxy_bind_address = "localhost";
  env_file = "";
  health_check = "/health";
  stable_ports = ("http", 7173) ∷ ("ws", 7172) ∷ [];
  internal_ports = ("http", 50101) ∷ ("ws", 50100) ∷ [];
  health_check_port = "ws";
  watch_paths = [];
  drain_window = 2;
  health_check_timeout = 15;
  restart_policy = "on-watch";
  status = stopped;
  pid = 0;
  deployed_at = 10;
  updated_at = 12;
  last_deployed_at = 11;
  last_started_at = 11;
  crash_attempts = 0;
  gave_up = false;
  start_history = record { started_at = 11; exit_code = code 0; duration = 3 } ∷ [];
  previous_deployment = none;
  archived_at = 0;
  archived_from = blank;
}

abbrev pub web : Service
web = record api {
  name = "web";
  stable_port = 3000;
  internal_port = 0;
  stable_ports = ("default", 3000) ∷ [];
  internal_ports = [];
  status = archived;
}

abbrev pub home : Registry
home = record { services = ("api", api) ∷ ("web", web) ∷ []; tombstones = []; disk = none }

abbrev home_file : RegistryFile
home_file = record { services = home.services; tombstones = [] }

String-discrete : Discrete String
String-discrete s t = elim (Bool-cases (s == t)) [
  | inl h ↦ yes ((eq_iff s t).0 h)
  | inr h ↦ no (ne_of_== s t h)
]

RegistryFile-discrete : Discrete RegistryFile
RegistryFile-discrete = hlevel (ℕ_discrete, String-discrete)

-- An encoding/json that knows one file.
module _ (f : RegistryFile) where
  pub encode_known : RegistryFile → Option String
  encode_known g = ite (RegistryFile-discrete g f) (some "known") none

  pub decode_known : String → Option RegistryFile
  decode_known text = if text == "known" then some f else none

  pub decode-encode_known :
      (g : RegistryFile) (text : String) → encode_known g ≡ some text → decode_known text ≡ some g
  unfolding encode_known decode_known
  decode-encode_known g text h = elim (RegistryFile-discrete g f) [
    | yes p ↦ let e : "known" ≡ text = cc (rw (if_pos _ p) at h) in rw (← e) (ap some (sym p))
    | no p ↦ cc (rw (if_neg _ p) at h)
  ]

  pub encode_known_self : encode_known f ≡ some "known"
  unfolding encode_known
  encode_known_self = rw (if_pos (RegistryFile-discrete f f) refl)

abbrev pub known : RegistryFile → Codec
known f = record {
  encode = encode_known f;
  decode = decode_known f;
  decode-encode = decode-encode_known f;
}

abbrev pub codec : Codec
codec = known home_file

has_address : ◌≢◌ {A = String} "localhost" ""
has_address = ground (arith, eq_iff "localhost" "")

pub api-IsDraft : IsDraft "api" api
api-IsDraft = record { named = refl; bound = has_address; remembered = omega arith }

web-IsDraft : IsDraft "web" web
web-IsDraft = record { named = refl; bound = has_address; remembered = omega arith }

pub home-IsValid : IsValid home
unfolding pick_port lookup default_or_first
home-IsValid = record {
  unique = (refl, (refl, tt));
  entries = (
    record { draft = api-IsDraft; stable = refl; internal = refl },
    (record { draft = web-IsDraft; stable = refl; internal = refl }, tt),
  );
}

home-Reloads : Reloads codec home
home-Reloads text e = cc

primary_of_health_check : pick_port api.stable_ports "ws" ≡ 7172
unfolding pick_port lookup default_or_first
primary_of_health_check = refl

primary_of_first_key : pick_port api.stable_ports "grpc" ≡ 7173
unfolding pick_port default_or_first first_key lookup
primary_of_first_key = refl

ws_not_http : ◌≢◌ {A = String} "ws" "http"
ws_not_http = ground (arith, eq_iff "ws" "http")

two_orders :
    SameMap {K = String} {V = ℕ}
      (("http", 7173) ∷ ("ws", 7172) ∷ [])
      (("ws", 7172) ∷ ("http", 7173) ∷ [])
unfolding lookup
two_orders k = ground (arith, eq_iff "http" k, eq_iff "ws" k, ws_not_http)

pick_port-SameMap_example :
    pick_port (("http", 7173) ∷ ("ws", 7172) ∷ []) ""
    ≡ pick_port (("ws", 7172) ∷ ("http", 7173) ∷ []) ""
unfolding lookup
pick_port-SameMap_example =
    pick_port-SameMap (("http", 7173) ∷ ("ws", 7172) ∷ []) (("ws", 7172) ∷ ("http", 7173) ∷ []) ""
      two_orders refl

api_found : lookup "api" home.services ≡ some api
unfolding lookup
api_found = refl

web_found : lookup "web" home.services ≡ some web
unfolding lookup
web_found = refl

api_not_web : ◌≢◌ {A = Option String} (some "api") (some "web")
api_not_web = ground (arith, eq_iff "api" "web")

pub home_saved : save codec written home ≡ (record home { disk = some "known" }, ok tt)
unfolding save write_file sync_all map_values sync_singular_from_map primary_stable_port
    primary_internal_port pick_port lookup default_or_first
home_saved = rw (encode_known_self home_file, save)

pick_port_order_example :
    (pick_port (("", 1) ∷ ("ws", 2) ∷ []) "" ≡ 2) × (pick_port (("ws", 2) ∷ ("", 1) ∷ []) "" ≡ 1)
pick_port_order_example =
    pick_port_order "ws" 1 2 (ground (arith, eq_iff "ws" ""))
      (ground (arith, eq_iff "ws" "default"))

step-other_example :
    lookup "web" (step codec written (removes "api") home).services ≡ lookup "web" home.services
step-other_example = step-other codec written (removes "api") home "web" home-IsValid api_not_web

load-save_example :
    (text : String) × ((record home { disk = some "known" }).disk ≡ some text)
    × (load codec (text_of text) ≡ ok (record home { disk = some "known" }))
unfolding save sync_all
load-save_example =
    load-save codec written home (record home { disk = some "known" })
      (IsValid-IsPending home home-IsValid) home_saved

abbrev api_v2 : Service
api_v2 = record api {
  version = "v2";
  binary_path = "/srv/api/dist/api2";
  start_history = [];
  proxy_bind_address = "";
}

restore-register_example :
    lookup "web"
      (restore codec no_write (some api) (register codec written 30 31 api_v2 home).0).0.services
    ≡ lookup "web" home.services
restore-register_example =
    restore-register codec written no_write 30 31 api api_v2 home "web" home-IsValid (omega arith)
      api_found

restore_archived-archive_example :
    lookup "api"
      (restore_archived codec written "api" 42
        (archive codec written "api" 40 41 home).0).0.services
    ≡ some (record api { archived_at = 0; updated_at = 42 })
restore_archived-archive_example =
    restore_archived-archive codec written written "api" 40 41 42 home api home-IsValid api_found
      (λ e. cc) (λ e. cc)

complete_start-record_start_example :
    (s' : Service) × (lookup "api"
        (complete_start codec written "api" 60
          (code 1)
          5
          65
          (record_start codec written "api" 60 60 home).0).0.services
      ≡ some s')
    × (s'.start_history ≡ earlier api.start_history ++ ended (code 1) 5 (starting 60) ∷ [])
    × (s'.last_started_at ≡ 60)
complete_start-record_start_example =
    complete_start-record_start codec written written "api" 60 60 (code 1) 5 65 home api
      home-IsValid api_found

archive_lem_example :
    let o = archive codec no_write "web" 40 41 home in
    ((lookup "web" home.services ≡ none) × (o ≡ (home, err (not_found "web"))))
    ⊎ ((s : Service) × (lookup "web" home.services ≡ some s)
        × (((s.status ≡ archived) × (o ≡ (home, err (already_archived "web"))))
            ⊎ (((s.status ≡ running) × (o ≡ (home, err (is_running "web"))))
                ⊎ ((s.status ≢ archived)
                    × (s.status ≢ running)
                    × (lookup "web" o.0.services ≡ some (archived_entry 40 41 s))))))
archive_lem_example = archive_lem codec no_write "web" 40 41 home home-IsValid

used_ports_iff_example :
    (lookup 7173 (used_ports home) ≡ some true)
    ↔ ((◌≢◌ {A = ℕ} 7173 0) × Claimed 7173 home.services)
used_ports_iff_example = used_ports_iff 7173 home
