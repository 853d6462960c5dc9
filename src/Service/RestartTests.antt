-- ===== src/Service/RestartTests.antt =====
-- A restart and a deployment that fail over a running process.
use anito.Prelude.{
  ℕ, ◌≡◌, refl, ◌≢◌, true, false, Option, none, some, [], ◌∷◌, text_comparable, ℕ_comparable,
}
use anito.Assoc.{lookup, insert, delete}
use anito.Assoc.Entries.{Entries-lookup}
use anito.Registry.Types.{Service}
use anito.Registry.Drafts.{IsEntry}
use anito.Registry.Store.{written}
use anito.Registry.Tests.{api, home, home-IsValid, codec}
use anito.Process.Types.{RunningProc}
use anito.Process.Manager.{
  new, start, launched, tracked, is_running, detach, reserve_internal_ports,
}
use anito.Process.Tests.{os, fresh_ports, busy}
use anito.Process.Table.{started_proc}
use anito.Process.Exit.{signaled}
use anito.Proxy.Tests.{two}
use anito.Service.World.{Daemon, World}
use anito.Service.Replace.{
  restart_locked, restart_found, restart_started, deploy_binary, deploy_started, not_healthy,
  not_owner,
}
use anito.Service.Restored.{IsRestored}
use anito.Service.Outcomes.{IsServing, restart_locked-IsRestored, deploy_binary-IsRestored}

abbrev pub rp : RunningProc
rp = started_proc api false fresh_ports 4242 new

abbrev pub serving : Daemon
serving = record { registry = home; manager = busy; proxies = two; attempts = [] }

-- The candidate runs, but is not healthy in time; it ends when it is told to.
abbrev pub world : World
world = record {
  codec = codec;
  saves = λ call. written;
  now = 50;
  net = record { parse = λ text. none; interfaces = none };
  os = record os { started = some 4243 };
  healthy = false;
  owns_ports = true;
  binds = λ name. true;
  binds_again = λ name. true;
  ends = some (signaled 15);
  early = none;
  gone = none;
  took = 7;
  old_finished = false;
  old_alive = true;
}

pub api_found : lookup "api" home.services ≡ some api
unfolding lookup
api_found = refl

pub api-IsServing : IsServing "api" rp busy
unfolding tracked launched new lookup insert
api-IsServing = record { object = refl; lives = refl; fresh = refl }

pub not_zero : ◌≢◌ {A = Option ℕ} (some 4243) (some 0)
not_zero e = cc

restart_fails : (restart_locked world "api" serving).1 ≡ some (not_healthy "api")
unfolding restart_locked restart_found restart_started lookup detach tracked launched new insert
    delete start is_running reserve_internal_ports
restart_fails = refl

restart_locked-IsRestored_example :
    IsRestored "api" api
      (record rp { candidate = false; exited = false })
      (restart_locked world "api" serving).0
restart_locked-IsRestored_example =
    restart_locked-IsRestored world "api" api serving rp (not_healthy "api") (refl, refl)
      home-IsValid api_found refl api-IsServing not_zero restart_fails

pub api-IsEntry : IsEntry "api" api
api-IsEntry = Entries-lookup IsEntry home.services "api" api home-IsValid.entries api_found

abbrev pub next_version : Service
next_version = record api { version = "v2"; binary_path = "/srv/api/dist/api2" }

deploy_fails :
    (deploy_binary
      (record world { healthy = true; owns_ports = false })
      next_version
      (some api)
      (record serving { registry = record home { services = ("api", next_version) ∷ [] } })).1
    ≡ some (not_owner "api")
unfolding deploy_binary deploy_started lookup detach tracked launched new insert delete start
    is_running reserve_internal_ports
deploy_fails = refl

deploy_binary-IsRestored_example :
    IsRestored "api" api
      (record rp { candidate = false; exited = false })
      (deploy_binary
        (record world { healthy = true; owns_ports = false })
        next_version
        (some api)
        (record serving { registry = record home { services = ("api", next_version) ∷ [] } })).0
deploy_binary-IsRestored_example =
    deploy_binary-IsRestored (record world { healthy = true; owns_ports = false }) next_version api
      (record serving { registry = record home { services = ("api", next_version) ∷ [] } }) rp
      (not_owner "api") (refl, refl) api-IsEntry api-IsServing not_zero deploy_fails
