-- ===== src/Service/Crash.antt =====
-- internal/service/service.go: handleCrash, which the process manager calls as OnCrash.
use anito.Prelude.{
  ℕ, suc, String, Bool, true, false, Option, none, some, List, [], ◌∷◌, ◌==◌, text_comparable,
  if◌then◌else◌, zero, not,
}
use anito.Assoc.{lookup, insert}
use anito.Registry.Types.{Service, status_beq, stopped}
use anito.Registry.Types
use anito.Registry.Ports.{is_empty}
use anito.Registry.Calls.{Call, sets_crash_state, sets_status}
use anito.Proxy.Types.{Proxies}
use anito.Proxy.Routes.{unswap_ports}

-- In nanoseconds: 1, 2, 4, 8 and 30 seconds.
abbrev pub crash_backoff_durations : List ℕ
crash_backoff_durations = 1000000000 ∷ 2000000000 ∷ 4000000000 ∷ 8000000000 ∷ 30000000000 ∷ []

-- The attempts that the counter has for each service; a service that it does not have counts 0.
abbrev pub Attempts : Type 0
Attempts = List (String × ℕ)

abbrev pub or_zero : Option ℕ → ℕ
or_zero none = 0
or_zero (some n) = n

-- The duration at an index, if the index is below the length.
unfoldable pub duration_at : ℕ → List ℕ → Option ℕ
duration_at n [] = none
duration_at zero (d ∷ ds) = some d
duration_at (suc n) (d ∷ ds) = duration_at n ds

-- The policy's switch.
unfoldable pub wants_restart : String → Bool → Bool
wants_restart policy has_watch_paths =
    let p = if policy == "" then "on-watch" else policy in
    if p == "never" then false else if p == "on-watch" then has_watch_paths else true

-- What `handleCrash` does in the end. It waits and calls `Restart` in the last case.
pub data Reaction : Type 0 where
  ignores leaves_down : Reaction
  gives_up : ℕ → Reaction
  restarts : ℕ → ℕ → Reaction

pub record Crashed : Type 0 where
  pub attempts : Attempts
  pub proxies : Proxies
  pub calls : List Call
  pub reaction : Reaction

unfoldable pub retry : String → ℕ → ℕ → Attempts → Proxies → Option ℕ → Crashed
retry name now attempt attempts m none = record {
  attempts = attempts;
  proxies = m;
  calls = sets_crash_state name attempt true now ∷ sets_status name Types.failed 0 now ∷ [];
  reaction = gives_up attempt;
}
retry name now attempt attempts m (some wait) = record {
  attempts = insert name (suc attempt) attempts;
  proxies = m;
  calls = sets_crash_state name (suc attempt) false now ∷ [];
  reaction = restarts (suc attempt) wait;
}

-- The service as `Get` finds it in the registry.
unfoldable pub handle_crash : String → Option Service → ℕ → Attempts → Proxies → Crashed
handle_crash name none now attempts m = record {
  attempts = attempts;
  proxies = m;
  calls = [];
  reaction = ignores;
}
handle_crash name (some svc) now attempts m =
    let attempt = or_zero (lookup name attempts) in
    if status_beq svc.status stopped
    then record { attempts = attempts; proxies = m; calls = []; reaction = ignores }
    else if wants_restart svc.restart_policy (not (is_empty svc.watch_paths))
    then retry name now attempt attempts (unswap_ports name m)
        (duration_at attempt crash_backoff_durations)
    else record {
      attempts = attempts;
      proxies = unswap_ports name m;
      calls = [];
      reaction = leaves_down;
    }
