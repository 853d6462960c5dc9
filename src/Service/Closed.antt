-- ===== src/Service/Closed.antt =====
-- internal/service: the mutating operations behind the gate, during the restore at startup and after it.
use anito.Prelude.{ℕ, String, ◌≡◌, refl, none, some, List}
use anito.Registry.Types.{Ports}
use anito.Service.Startup.{
  StartupTracker, StartupGateError, new_startup_tracker, begin_startup, finish_startup,
  ensure_mutable,
}
use anito.Service.Gate.{Progress, progress, counted, ensure_mutable-begin_startup}
use anito.Service.World.{Daemon, World}
use anito.Service.Request.{DeployRequest}
use anito.Service.Deploy.{Host, not_ready, deploy, restart, stop, remove}
use anito.Service.Rollback.{refused, rollback, reserve_ports}
use anito.Service.Archive.{archive_service, restore_archived_service, prune_service}
use anito.Service.Archive as Archive

module _ {ℓ} {R : Type ℓ} where
  -- Every operation is refused with `e`, whatever it is asked for, and changes nothing.
  pub record Refuses (t : StartupTracker R) (e : StartupGateError) : Type 0 where
    pub deploys :
        (w : World) (h : Host) (q : DeployRequest) (d : Daemon)
        → deploy t w h q d ≡ (d, some (not_ready e))
    pub restarts :
        (w : World) (h : Host) (name : String) (d : Daemon)
        → restart t w h name d ≡ (d, some (not_ready e))
    pub stops :
        (w : World) (h : Host) (name : String) (d : Daemon)
        → stop t w h name d ≡ (d, some (not_ready e))
    pub removes :
        (w : World) (h : Host) (name : String) (d : Daemon)
        → remove t w h name d ≡ (d, some (not_ready e))
    pub rolls_back :
        (w : World) (h : Host) (name : String) (d : Daemon)
        → rollback t w h name d ≡ (d, some (not_ready e))
    pub reserves :
        (w : World) (h : Host) (name : String) (ports : Ports) (d : Daemon)
        → reserve_ports t w h name ports d ≡ (d, refused (not_ready e))
    pub archives :
        (w : World) (name : String) (d : Daemon)
        → archive_service t w name d ≡ (d, Archive.refused (Archive.not_ready e))
    pub unarchives :
        (w : World) (name : String) (d : Daemon)
        → restore_archived_service t w name d ≡ (d, Archive.refused (Archive.not_ready e))
    pub prunes :
        (w : World) (name : String) (d : Daemon)
        → prune_service t w name d ≡ (d, Archive.refused (Archive.not_ready e))

  -- Every operation does what it does in a daemon that has nothing to restore.
  pub record Admits (t : StartupTracker R) : Type ℓ where
    pub deploys :
        (w : World) (h : Host) (q : DeployRequest) (d : Daemon)
        → deploy t w h q d ≡ deploy {R = R} new_startup_tracker w h q d
    pub restarts :
        (w : World) (h : Host) (name : String) (d : Daemon)
        → restart t w h name d ≡ restart {R = R} new_startup_tracker w h name d
    pub stops :
        (w : World) (h : Host) (name : String) (d : Daemon)
        → stop t w h name d ≡ stop {R = R} new_startup_tracker w h name d
    pub removes :
        (w : World) (h : Host) (name : String) (d : Daemon)
        → remove t w h name d ≡ remove {R = R} new_startup_tracker w h name d
    pub rolls_back :
        (w : World) (h : Host) (name : String) (d : Daemon)
        → rollback t w h name d ≡ rollback {R = R} new_startup_tracker w h name d
    pub reserves :
        (w : World) (h : Host) (name : String) (ports : Ports) (d : Daemon)
        → reserve_ports t w h name ports d
          ≡ reserve_ports {R = R} new_startup_tracker w h name ports d
    pub archives :
        (w : World) (name : String) (d : Daemon)
        → archive_service t w name d ≡ archive_service {R = R} new_startup_tracker w name d
    pub unarchives :
        (w : World) (name : String) (d : Daemon)
        → restore_archived_service t w name d
          ≡ restore_archived_service {R = R} new_startup_tracker w name d
    pub prunes :
        (w : World) (name : String) (d : Daemon)
        → prune_service t w name d ≡ prune_service {R = R} new_startup_tracker w name d

  closed-Refuses :
      (t : StartupTracker R) (e : StartupGateError) → ensure_mutable t ≡ some e → Refuses t e
  unfolding deploy restart stop remove rollback reserve_ports archive_service
      restore_archived_service prune_service
  closed-Refuses t e c = record {
    deploys = λ w h q d. rw c refl;
    restarts = λ w h name d. rw c refl;
    stops = λ w h name d. rw c refl;
    removes = λ w h name d. rw c refl;
    rolls_back = λ w h name d. rw c refl;
    reserves = λ w h name ports d. rw (reserve_ports, c) refl;
    archives = λ w name d. rw c refl;
    unarchives = λ w name d. rw c refl;
    prunes = λ w name d. rw c refl;
  }

  open-Admits : (t : StartupTracker R) → ensure_mutable t ≡ none → Admits t
  unfolding deploy restart stop remove rollback reserve_ports archive_service
      restore_archived_service prune_service ensure_mutable new_startup_tracker
  open-Admits t c = record {
    deploys = λ w h q d. rw c refl;
    restarts = λ w h name d. rw c refl;
    stops = λ w h name d. rw c refl;
    removes = λ w h name d. rw c refl;
    rolls_back = λ w h name d. rw c refl;
    reserves = λ w h name ports d. rw (reserve_ports, c) refl;
    archives = λ w name d. rw c refl;
    unarchives = λ w name d. rw c refl;
    prunes = λ w name d. rw c refl;
  }

  -- From the beginning of the restore at startup to its end, whatever progress it makes, Deploy, Restart,
  -- Stop, Remove, Rollback, ReservePorts, Archive, RestoreArchived and Prune change nothing and are
  -- refused with the number of services done and their total. After its end each does what it does
  -- in a daemon that has had nothing to restore.
  pub progress-Refuses :
      (started_at total max_parallel completed_at : ℕ) (result : R) (ps : List Progress)
      (t : StartupTracker R)
      → ((e : StartupGateError) × Refuses
            (progress ps (begin_startup started_at total max_parallel t))
            e
          × (e.completed ≡ counted ps)
          × (e.total ≡ total))
        × Admits (
            finish_startup completed_at result
              (progress ps (begin_startup started_at total max_parallel t)))
  progress-Refuses started_at total max_parallel completed_at result ps t =
      let begun : StartupTracker R = progress ps (begin_startup started_at total max_parallel t) in
      let ((e, c, done, all), o, k) =
        ensure_mutable-begin_startup started_at total max_parallel completed_at result ps t in
      (
        (e, closed-Refuses begun e c, done, all),
        open-Admits (finish_startup completed_at result begun) o,
      )
