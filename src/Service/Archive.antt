-- ===== src/Service/Archive.antt =====
-- internal/service/archive.go: Archive, RestoreArchived and Prune behind the gate. The watcher that
-- Archive stops is not modelled.
use anito.Prelude.{
  String, ◌≡◌, refl, ap, ◌∙◌, subst, sym, ◌≢◌, ◌⊎◌, inl, inr, Option, none, some, Bool-cases,
  text_comparable, if◌then◌else◌,
}
use anito.Assoc.{lookup}
use anito.Registry.Types.{Service, Tombstone, status_beq, running, archived, status_beq_iff}
use anito.Registry.Store.{Registry, Result, ok, err, Outcome}
use anito.Registry.Store as Store
use anito.Registry.Methods
use anito.Registry.Calls.{archives, unarchives, prunes}
use anito.Registry.Archival.{prune_lem, tombstone_of}
use anito.Proxy.Routes.{remove_ports}
use anito.Service.Startup.{StartupTracker, StartupGateError, ensure_mutable}
use anito.Service.World.{Daemon, World}

pub data ArchiveError : Type 0 where
  not_ready : StartupGateError → ArchiveError
  missing_service still_running must_be_archived : String → ArchiveError
  conflict : Store.Error → ArchiveError

pub data Answer {ℓ} (A : Type ℓ) : Type ℓ where
  answer : A → Answer A
  refused : ArchiveError → Answer A

-- An error of the registry becomes a conflict.
unfoldable pub or_conflict {ℓ} : {A : Type ℓ} → Daemon → Outcome A → Daemon × Answer A
or_conflict d (r, ok a) = (record d { registry = r }, answer a)
or_conflict d (r, err e) = (record d { registry = r }, refused (conflict e))

abbrev pub if_mutable {ℓ} :
    {A : Type ℓ} → Option StartupGateError → Daemon → Daemon × Answer A → Daemon × Answer A
if_mutable (some e) d rest = (d, refused (not_ready e))
if_mutable none d rest = rest

module _ (w : World) (name : String) (d : Daemon) where
  unfoldable pub archive_found : Option Service → Daemon × Answer Service
  unfolding or_conflict
  archive_found none = (d, refused (missing_service name))
  archive_found (some current) =
      if status_beq current.status running
      then (d, refused (still_running name))
      else or_conflict d (
          Methods.archive w.codec (w.saves (archives name w.now w.now)) name w.now w.now d.registry)

  unfoldable pub restore_archived_found : Option Service → Daemon × Answer Service
  unfolding or_conflict
  restore_archived_found none = (d, refused (missing_service name))
  restore_archived_found (some current) =
      or_conflict d
        (Methods.restore_archived w.codec (w.saves (unarchives name w.now)) name w.now d.registry)

  unfoldable pub prune_service_found : Option Service → Daemon × Answer Tombstone
  unfolding or_conflict
  prune_service_found none = (d, refused (missing_service name))
  prune_service_found (some current) =
      if status_beq current.status archived
      then or_conflict (record d { proxies = remove_ports name d.proxies })
          (Methods.prune w.codec (w.saves (prunes name w.now)) name w.now d.registry)
      else (d, refused (must_be_archived name))

module _ {ℓ} {R : Type ℓ} (startup : StartupTracker R) (w : World) where
  unfoldable pub archive_service : String → Daemon → Daemon × Answer Service
  unfolding archive_found
  archive_service name d =
      if_mutable (ensure_mutable startup) d
        (archive_found w name d (lookup name d.registry.services))

  unfoldable pub restore_archived_service : String → Daemon → Daemon × Answer Service
  unfolding restore_archived_found
  restore_archived_service name d =
      if_mutable (ensure_mutable startup) d
        (restore_archived_found w name d (lookup name d.registry.services))

  unfoldable pub prune_service : String → Daemon → Daemon × Answer Tombstone
  unfolding prune_service_found
  prune_service name d =
      if_mutable (ensure_mutable startup) d
        (prune_service_found w name d (lookup name d.registry.services))

or_conflict-registry {ℓ} :
    {A : Type ℓ} (d : Daemon) (o : Outcome A)
    → ((or_conflict d o).0.registry ≡ o.0) × ((or_conflict d o).0.proxies ≡ d.proxies)
unfolding or_conflict
or_conflict-registry d (r, ok a) = (refl, refl)
or_conflict-registry d (r, err e) = (refl, refl)

-- How `Prune` ends for the entry `s`.
abbrev pub IsPrunedFrom : World → String → Service → Daemon → Daemon × Answer Tombstone → Type 0
IsPrunedFrom w name s d r =
    ((s.status ≡ archived)
      × (lookup name r.0.registry.services ≡ none)
      × (lookup name r.0.registry.tombstones ≡ some (tombstone_of name w.now s))
      × (r.0.proxies ≡ remove_ports name d.proxies))
    ⊎ ((s.status ≢ archived) × (r ≡ (d, refused (must_be_archived name))))

found-IsPrunedFrom :
    (w : World) (name : String) (s : Service) (d : Daemon)
    → lookup name d.registry.services ≡ some s
    → IsPrunedFrom w name s d (prune_service_found w name d (some s))
unfolding prune_service_found
found-IsPrunedFrom w name s d e = elim (Bool-cases (status_beq s.status archived)) [
  | inr q ↦ rw q (inr (λ h. cc (q, (status_beq_iff s.status archived).1 h), refl))
  | inl q ↦
      let o = Methods.prune w.codec (w.saves (prunes name w.now)) name w.now d.registry in
      let (kept, gone) =
        or_conflict-registry (record d { proxies = remove_ports name d.proxies }) o in
      elim (prune_lem w.codec (w.saves (prunes name w.now)) name w.now d.registry s e) [
        | inr (n, k) ↦ absurd (n ((status_beq_iff s.status archived).0 q))
        | inl (a, b, c) ↦ rw q (
            inl (
              a,
              ap (λ (r : Registry). lookup name r.services) kept ∙ b,
              ap (λ (r : Registry). lookup name r.tombstones) kept ∙ c,
              gone,
            ))
      ]
]

-- Where the gate is open, Prune of a service that is registered takes an archived one from the
-- registry, leaves a tombstone with its ports and closes its ports at the proxy, whatever becomes of
-- the save; any other is refused and nothing changes.
pub prune_service-IsPrunedFrom {ℓ} :
    {R : Type ℓ} (startup : StartupTracker R) (w : World) (name : String) (s : Service) (d : Daemon)
    → ensure_mutable startup ≡ none
    → lookup name d.registry.services ≡ some s
    → IsPrunedFrom w name s d (prune_service startup w name d)
unfolding prune_service
prune_service-IsPrunedFrom startup w name s d g e =
    subst (IsPrunedFrom w name s d)
      (sym (
        ap
          (λ (o : Option StartupGateError).
            if_mutable o d (prune_service_found w name d (lookup name d.registry.services)))
          g
        ∙ ap (prune_service_found w name d) e))
      (found-IsPrunedFrom w name s d e)
