-- ===== src/Service/Tests.antt =====
-- Service names and crashes at work, and the theorems at inputs that meet their hypotheses.
use anito.Prelude.{ℕ, String, ◌≡◌, refl, none, some, List, [], ◌∷◌, text_comparable}
use anito.Proxy.Keys.{has_prefix}
use anito.Service.Names.{
  validate_service_name, has_dots, bad_character, is_service_name_char, is_service_name_alpha_num,
  all_chars, contains, starts_well, tail,
}
use anito.Registry.Types.{running}
use anito.Registry.Tests.{api}
use anito.Proxy.Tests.{two}
use anito.Service.Crash.{wants_restart, handle_crash, leaves_down}
use anito.Service.Startup.{StartupGateError, new_startup_tracker, begin_startup, finish_startup}
use anito.Service.Gate.{Progress, sets_parallel, enters_reconciling, counts_one, progress, counted}
use anito.Service.Closed.{Refuses, Admits, progress-Refuses}
use anito.Service.SafeNames.{IsSafeName, validate_service_name-IsSafeName, entry_key_injective}

api_is_valid : validate_service_name "api-v2" ≡ none
unfolding validate_service_name has_prefix contains starts_well tail all_chars is_service_name_char
    is_service_name_alpha_num
api_is_valid = refl

parent_is_refused : validate_service_name "../api" ≡ some has_dots
unfolding validate_service_name has_prefix contains
parent_is_refused = refl

slash_is_refused : validate_service_name "a/b" ≡ some bad_character
unfolding validate_service_name has_prefix contains starts_well tail all_chars is_service_name_char
    is_service_name_alpha_num
slash_is_refused = refl

validate_service_name-IsSafeName_example : IsSafeName "api-v2"
validate_service_name-IsSafeName_example = validate_service_name-IsSafeName "api-v2" api_is_valid

entry_key_injective_example :
    (◌≡◌ {A = String} "api-v2" "api-v2") × (◌≡◌ {A = String} "http" "http")
entry_key_injective_example =
    entry_key_injective "api-v2" "api-v2" "http" "http" api_is_valid api_is_valid refl

-- Without paths to watch, the default policy leaves a crashed service down.
default_policy :
    (handle_crash "api"
      (some (record api { status = running; restart_policy = "" }))
      5
      []
      two).reaction
    ≡ leaves_down
unfolding handle_crash wants_restart
default_policy = refl

-- Two of three services are done when the gate is asked.
abbrev starting_up : List Progress
starting_up = counts_one ∷ sets_parallel 4 ∷ enters_reconciling ∷ counts_one ∷ []

progress-Refuses_example :
    ((e : StartupGateError) × Refuses
        (progress starting_up (begin_startup {R = ℕ} 10 3 4 new_startup_tracker))
        e
      × (e.completed ≡ counted starting_up)
      × (e.total ≡ 3))
    × Admits (
        finish_startup 20 7
          (progress starting_up (begin_startup {R = ℕ} 10 3 4 new_startup_tracker)))
progress-Refuses_example = progress-Refuses 10 3 4 20 7 starting_up new_startup_tracker
