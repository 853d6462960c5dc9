-- ===== src/Service/ArchiveTests.antt =====
-- An archived service is pruned.
use anito.Prelude.{ℕ, ◌≡◌, refl, none, some, text_comparable}
use anito.Assoc.{lookup}
use anito.Registry.Tests.{home, web}
use anito.Service.Startup.{StartupTracker, new_startup_tracker, ensure_mutable}
use anito.Service.RestartTests.{serving, world}
use anito.Service.Archive.{IsPrunedFrom, prune_service, prune_service-IsPrunedFrom}

abbrev ready : StartupTracker ℕ
ready = new_startup_tracker

gate_is_open : ensure_mutable ready ≡ none
unfolding ensure_mutable new_startup_tracker
gate_is_open = refl

web_found : lookup "web" home.services ≡ some web
unfolding lookup
web_found = refl

prune_service-IsPrunedFrom_example :
    IsPrunedFrom world "web" web serving (prune_service ready world "web" serving)
prune_service-IsPrunedFrom_example =
    prune_service-IsPrunedFrom ready world "web" web serving gate_is_open web_found
