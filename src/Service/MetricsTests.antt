-- ===== src/Service/MetricsTests.antt =====
-- internal/service/service.go: the metrics of services of which one has an unknown status.
use anito.Prelude.{◌+◌, ◌≡◌, refl, length, false, [], ◌∷◌}
use anito.Registry.Types.{running, stopped, failed, orphaned, unknown}
use anito.Registry.Store.{Registry}
use anito.Registry.Methods.{all_active, active_from}
use anito.Registry.Tests.{home, api, web}
use anito.Service.Metrics.{metrics, services, with_status, uncounted, sum, metrics_lem}

abbrev mixed : Registry
mixed = record home {
  services =
      ("api", record api { status = running })
      ∷ ("job", record api { status = unknown "paused" })
      ∷ ("web", web)
      ∷ [];
}

paused_is_uncounted :
    ((metrics (λ path. false) 3 1 mixed).services_total ≡ 2)
    × (sum (metrics (λ path. false) 3 1 mixed) ≡ 1)
unfolding all_active active_from
paused_is_uncounted = (refl, refl)

metrics_lem_example :
    ((metrics (λ path. false) 3 1 mixed).services_running ≡ with_status running (all_active mixed))
    × ((metrics (λ path. false) 3 1 mixed).services_stopped
        ≡ with_status stopped (services (λ path. false) mixed))
    × ((metrics (λ path. false) 3 1 mixed).services_failed
        ≡ with_status failed (services (λ path. false) mixed))
    × ((metrics (λ path. false) 3 1 mixed).services_orphaned
        ≡ with_status orphaned (services (λ path. false) mixed))
    × ((metrics (λ path. false) 3 1 mixed).services_total ≡ length (all_active mixed))
    × (sum (metrics (λ path. false) 3 1 mixed) + uncounted (services (λ path. false) mixed)
        ≡ length (all_active mixed))
metrics_lem_example = metrics_lem (λ path. false) 3 1 mixed
