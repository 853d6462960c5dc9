-- ===== src/Service/Request.antt =====
-- internal/service/service.go: DeployRequest, what Deploy refuses at once, and what it fills in.
use Prim.Native.String.{len}
use anito.Prelude.{
  ℕ, String, Bool, false, not, ◌&&◌, ◌||◌, Option, none, some, List, [], ◌∷◌, ltb, ◌==◌,
  ℕ_comparable, text_comparable, if◌then◌else◌,
}
use anito.Registry.Types.{Ports, Service, ServiceType, binary, static, unset, other, stopped, blank}
use anito.Registry.Ports.{is_empty, normalize_ports}
use anito.Proxy.Keys.{has_prefix}
use anito.Service.Names.{daemon_log_name, all_chars, is_service_name_char}

pub record DeployRequest : Type 0 where
  pub name : String
  pub version : String
  pub version_path : String
  pub service_type : ServiceType
  pub path : String
  pub args : List String
  pub stable_port : ℕ
  pub stable_ports : Ports
  pub proxy_bind_address : String
  pub health_check_port : String
  pub env_file : String
  pub health_check : String
  pub watch_paths : List String
  pub drain_window : ℕ
  pub health_check_timeout : ℕ
  pub restart_policy : String
  pub config_path : String

-- `os.Stat`.
pub data Node : Type 0 where
  absent directory file : Node

pub data Invalid : Type 0 where
  name_required name_too_long name_reserved name_character : Invalid
  path_required unsupported_type path_absent path_is_directory path_is_no_directory : Invalid
  health_check_slash unknown_restart_policy : Invalid
  no_previous_deployment : String → Invalid

-- `validateServiceName`, which is not `ValidateServiceName`.
unfoldable pub validate_name : String → Option Invalid
validate_name name =
    if name == ""
    then some name_required
    else if ltb 128 (len name)
    then some name_too_long
    else if name == daemon_log_name || name == "." || name == ".."
    then some name_reserved
    else if all_chars is_service_name_char name
    then none
    else some name_character

abbrev pub type_or_binary : ServiceType → ServiceType
type_or_binary unset = binary
type_or_binary t = t

-- The type and what `os.Stat` says of the path.
unfoldable pub check_type : ServiceType → Node → Option Invalid
check_type (other t) node = some unsupported_type
check_type unset node = none
check_type binary absent = some path_absent
check_type binary directory = some path_is_directory
check_type binary file = none
check_type static absent = some path_absent
check_type static directory = none
check_type static file = some path_is_no_directory

unfoldable pub is_restart_policy : String → Bool
is_restart_policy p = p == "always" || p == "on-watch" || p == "never"

unfoldable pub check_rest : DeployRequest → Option Invalid
unfolding is_restart_policy
check_rest q =
    if not (q.health_check == "") && not (has_prefix q.health_check "/")
    then some health_check_slash
    else if not (q.restart_policy == "") && not (is_restart_policy q.restart_policy)
    then some unknown_restart_policy
    else none

-- The first error of two checks.
abbrev pub or_else : Option Invalid → Option Invalid → Option Invalid
or_else (some e) o = some e
or_else none o = o

unfoldable pub validate_deploy_request : Node → DeployRequest → Option Invalid
unfolding check_type check_rest validate_name
validate_deploy_request node q = or_else (validate_name q.name) (
    if q.path == ""
    then some path_required
    else or_else (check_type (type_or_binary q.service_type) node) (check_rest q))

abbrev pub fallback_string : String → String → String
fallback_string value fallback = if value == "" then fallback else value

abbrev pub or_nanoseconds : ℕ → ℕ → ℕ
or_nanoseconds d default = if d == 0 then default else d

unfoldable pub default_drain_window : ℕ
default_drain_window = 2000000000

unfoldable pub default_health_check_timeout : ℕ
default_health_check_timeout = 15000000000

unfoldable pub with_defaults : DeployRequest → DeployRequest
with_defaults q = record q {
  health_check = fallback_string q.health_check "/health";
  service_type = type_or_binary q.service_type;
  env_file = if q.env_file == "null" then "" else q.env_file;
}

-- The ports that are asked for: the one port under "default", where no others are named.
unfoldable pub preferred_ports : DeployRequest → Ports
preferred_ports q =
    if is_empty q.stable_ports then ("default", q.stable_port) ∷ [] else q.stable_ports

-- The entry that is registered; `hash` is `hashPath`. What is not listed is Go's zero value.
unfoldable pub draft : (String → String) → DeployRequest → Ports → Service
unfolding default_drain_window default_health_check_timeout
draft hash q ports = normalize_ports (record {
  name = q.name;
  version = if q.version == "" then hash (fallback_string q.version_path q.path) else q.version;
  service_type = q.service_type;
  binary_path = q.path;
  args = q.args;
  stable_ports = ports;
  proxy_bind_address = q.proxy_bind_address;
  health_check_port = q.health_check_port;
  env_file = q.env_file;
  health_check = q.health_check;
  watch_paths = q.watch_paths;
  drain_window = or_nanoseconds q.drain_window default_drain_window;
  health_check_timeout = or_nanoseconds q.health_check_timeout default_health_check_timeout;
  restart_policy = fallback_string q.restart_policy "on-watch";
  config_path = q.config_path;
  status = stopped;
  stable_port = 0;
  internal_port = 0;
  internal_ports = [];
  pid = 0;
  deployed_at = 0;
  updated_at = 0;
  last_deployed_at = 0;
  last_started_at = 0;
  crash_attempts = 0;
  gave_up = false;
  start_history = [];
  previous_deployment = none;
  archived_at = 0;
  archived_from = blank;
})
