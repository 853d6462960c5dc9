-- ===== src/Service/BackoffTests.antt =====
-- A service that crashes, and crashes again after its restart.
use anito.Prelude.{
  some, ℕ, ◌≡◌, refl, true, none, List, [], ◌∷◌, All, text_comparable, ℕ_comparable,
}
use anito.Assoc.{lookup, insert, delete}
use anito.Registry.Types.{Service, running}
use anito.Registry.Invariant.{IsValid}
use anito.Registry.Store.{Registry, Codec, save, sync_all}
use anito.Registry.Tests.{api, web, home, home-IsValid}
use anito.Process.Exit.{exited, exit, unregister}
use anito.Process.Manager.{
  tracked, launched, new, detach, start, is_running, reserve_internal_ports, activate, pid_of,
}
use anito.Proxy.Routes.{swap_ports, swap_route, missing_port, unswap_ports}
use anito.Proxy.Keys.{has_prefix, entry_key}
use anito.Service.Recover.{process_ends}
use anito.Service.Names.{
  validate_service_name, contains, starts_well, tail, all_chars, is_service_name_char,
  is_service_name_alpha_num,
}
use anito.Assoc.{map_values}
use anito.Registry.Calls.{step}
use anito.Registry.Methods.{
  update_status, complete_start, mark_running, update_crash_state, update_process_started, edit,
}
use anito.Registry.Edits.{
  complete_start_edit, complete_newest, process_started_edit, mark_running_edit, push_event,
}
use anito.Registry.Ports.{
  sync_singular_from_map, primary_stable_port, primary_internal_port, pick_port, default_or_first,
  first_key,
}
use anito.Service.Replace.{restart_locked, restart_found, restart_started}
use anito.Service.Startup.{StartupTracker, new_startup_tracker, ensure_mutable}
use anito.Service.Crash.{restarts, handle_crash, wants_restart, retry, duration_at}
use anito.Service.World.{Daemon, World, tell_all, goroutine, waiter_for}
use anito.Service.Request.{file}
use anito.Service.Deploy.{Host, restart}
use anito.Service.RestartTests.{serving, world, not_zero}
use anito.Service.Calm.{IsFirst}
use anito.Service.Backoff.{Exit, reactions, reactions-IsFirst}

abbrev lively : Service
lively = record api { status = running; restart_policy = "always" }

abbrev lively_home : Registry
lively_home = record home { services = ("api", lively) ∷ ("web", web) ∷ [] }

abbrev running_api : Daemon
running_api = record serving { registry = lively_home }

abbrev host : Host
host = record { stat = λ path. file; hash = λ path. ""; listens = λ port. true; drains = true }

abbrev ready : StartupTracker ℕ
ready = new_startup_tracker

-- An encoding/json that encodes nothing: no save succeeds.
abbrev silent : Codec
silent = record { encode = λ f. none; decode = λ text. none; decode-encode = λ f text e. cc }

abbrev quiet_world : World
quiet_world = record world { codec = silent }

-- The first restart succeeds; the process of the second exits while its health is checked.
abbrev exits : List Exit
exits =
    record {
      waiter = record { service = "api"; proc = 0; cmd = 0; pid = 4242; started_at = 30 };
      state = exited 1;
      world = quiet_world;
      later = record quiet_world { healthy = true };
    }
    ∷ record {
      waiter = record { service = "api"; proc = 1; cmd = 1; pid = 4243; started_at = 50 };
      state = exited 1;
      world = quiet_world;
      later = record quiet_world { early = some (exited 2) };
    }
    ∷ []

lively_home-IsValid : IsValid lively_home
lively_home-IsValid = record {
  unique = home-IsValid.unique;
  entries = (
    record {
      draft = record {
        named = refl;
        bound = home-IsValid.entries.0.draft.bound;
        remembered = home-IsValid.entries.0.draft.remembered;
      };
      stable = home-IsValid.entries.0.stable;
      internal = home-IsValid.entries.0.internal;
    },
    home-IsValid.entries.1,
  );
}

crashes_twice :
    reactions ready host "api" exits running_api
    ≡ restarts 1 1000000000 ∷ restarts 1 1000000000 ∷ []
unfolding reactions tracked lookup launched insert delete new process_ends exit handle_crash
    wants_restart retry duration_at tell_all step update_status complete_start mark_running
    update_crash_state update_process_started edit complete_start_edit complete_newest save sync_all
    map_values sync_singular_from_map primary_stable_port primary_internal_port pick_port
    default_or_first first_key restart restart_locked restart_found restart_started detach start
    is_running reserve_internal_ports activate pid_of ensure_mutable new_startup_tracker
    validate_service_name has_prefix contains starts_well tail all_chars is_service_name_char
    is_service_name_alpha_num unregister swap_ports swap_route missing_port entry_key unswap_ports
    process_started_edit mark_running_edit push_event goroutine waiter_for
crashes_twice = refl

reactions-IsFirst_example : All IsFirst (reactions ready host "api" exits running_api)
unfolding lookup
reactions-IsFirst_example =
    reactions-IsFirst ready host "api" exits running_api (not_zero, (not_zero, tt))
      lively_home-IsValid refl
