-- ===== src/Service/Metrics.antt =====
-- internal/service/service.go: isOrphaned, Services, Status and Metrics.
use mathlib.Core.Option
use anito.Prelude.{
  ℕ, suc, ◌+◌, String, Bool, true, false, not, ◌||◌, Option, List, [], ◌∷◌, map, length, ◌==◌,
  text_comparable, if◌then◌else◌, Bool-cases, inl, inr, ◌≡◌, refl, ◌≤◌, arith,
}
use anito.Registry.Types.{
  Service, ServiceStatus, running, stopped, failed, orphaned, archived, blank, unknown, status_beq,
}
use anito.Registry.Store.{Registry}
use anito.Registry.Methods.{get, all_active, active_from}
use anito.Service.Undo.{is_binary}

-- `gone path`: os.Stat says that there is no such file.
abbrev pub is_orphaned : (String → Bool) → Service → Bool
is_orphaned gone s =
    if not (is_binary s.service_type) || s.binary_path == ""
    then false
    else if status_beq s.status running
    then false
    else gone s.binary_path

abbrev pub projected : (String → Bool) → Service → Service
projected gone s = if is_orphaned gone s then record s { status = orphaned } else s

abbrev pub services : (String → Bool) → Registry → List Service
services gone r = map (projected gone) (all_active r)

abbrev pub status : (String → Bool) → String → Registry → Option Service
status gone name r = Option.map (projected gone) (get name r)

pub record Metrics : Type 0 where
  pub services_running : ℕ
  pub services_stopped : ℕ
  pub services_failed : ℕ
  pub services_orphaned : ℕ
  pub services_total : ℕ
  pub deploys_total : ℕ
  pub crashes_total : ℕ

abbrev pub count_status : ServiceStatus → Metrics → Metrics
count_status running m = record m { services_running = suc m.services_running }
count_status stopped m = record m { services_stopped = suc m.services_stopped }
count_status failed m = record m { services_failed = suc m.services_failed }
count_status orphaned m = record m { services_orphaned = suc m.services_orphaned }
count_status archived m = m
count_status blank m = m
count_status (unknown text) m = m

abbrev pub count_each : List Service → Metrics → Metrics
count_each [] m = m
count_each (s ∷ ss) m =
    count_each ss (count_status s.status (record m { services_total = suc m.services_total }))

abbrev pub nothing : ℕ → ℕ → Metrics
nothing deploys crashes = record {
  services_running = 0;
  services_stopped = 0;
  services_failed = 0;
  services_orphaned = 0;
  services_total = 0;
  deploys_total = deploys;
  crashes_total = crashes;
}

abbrev pub metrics : (String → Bool) → ℕ → ℕ → Registry → Metrics
metrics gone deploys crashes r = count_each (services gone r) (nothing deploys crashes)

-- How many of the entries have this status.
abbrev pub tally : ServiceStatus → ServiceStatus → ℕ
tally t s = if status_beq s t then 1 else 0

abbrev pub with_status : ServiceStatus → List Service → ℕ
with_status t [] = 0
with_status t (s ∷ ss) = tally t s.status + with_status t ss

-- How many have a status that no counter is for: none at all, or an unknown text.
abbrev pub has_no_counter : ServiceStatus → ℕ
has_no_counter blank = 1
has_no_counter (unknown text) = 1
has_no_counter _ = 0

abbrev pub uncounted : List Service → ℕ
uncounted [] = 0
uncounted (s ∷ ss) = has_no_counter s.status + uncounted ss

abbrev pub sum : Metrics → ℕ
sum m = m.services_running + m.services_stopped + m.services_failed + m.services_orphaned

-- What the counters of `n` have more than those of `m`, where `count t` have the status `t`.
record Adds (m n : Metrics) (count : ServiceStatus → ℕ) : Type 0 where
  runs : n.services_running ≡ m.services_running + count running
  stops : n.services_stopped ≡ m.services_stopped + count stopped
  fails : n.services_failed ≡ m.services_failed + count failed
  gone : n.services_orphaned ≡ m.services_orphaned + count orphaned

count_status_lem :
    (s : ServiceStatus) (m : Metrics)
    → Adds m (count_status s m) (λ t. tally t s)
      × ((count_status s m).services_total ≡ m.services_total)
      × (sum (count_status s m) + tally archived s + has_no_counter s ≡ suc (sum m))
count_status_lem running m = (
  record { runs = omega arith; stops = omega arith; fails = omega arith; gone = omega arith },
  refl,
  omega arith,
)
count_status_lem stopped m = (
  record { runs = omega arith; stops = omega arith; fails = omega arith; gone = omega arith },
  refl,
  omega arith,
)
count_status_lem failed m = (
  record { runs = omega arith; stops = omega arith; fails = omega arith; gone = omega arith },
  refl,
  omega arith,
)
count_status_lem orphaned m = (
  record { runs = omega arith; stops = omega arith; fails = omega arith; gone = omega arith },
  refl,
  omega arith,
)
count_status_lem archived m = (
  record { runs = omega arith; stops = omega arith; fails = omega arith; gone = omega arith },
  refl,
  omega arith,
)
count_status_lem blank m = (
  record { runs = omega arith; stops = omega arith; fails = omega arith; gone = omega arith },
  refl,
  omega arith,
)
count_status_lem (unknown text) m = (
  record { runs = omega arith; stops = omega arith; fails = omega arith; gone = omega arith },
  refl,
  omega arith,
)

count_each_lem :
    (ss : List Service) (m : Metrics)
    → Adds m (count_each ss m) (λ t. with_status t ss)
      × ((count_each ss m).services_total ≡ m.services_total + length ss)
      × (sum (count_each ss m) + with_status archived ss + uncounted ss ≡ sum m + length ss)
count_each_lem [] m = (
  record { runs = omega arith; stops = omega arith; fails = omega arith; gone = omega arith },
  omega arith,
  omega arith,
)
count_each_lem (s ∷ ss) m =
    let m' = record m { services_total = suc m.services_total } in
    let a = count_status_lem s.status m' in
    let b = count_each_lem ss (count_status s.status m') in
    (
      record {
        runs = omega (arith, a.0.runs, b.0.runs);
        stops = omega (arith, a.0.stops, b.0.stops);
        fails = omega (arith, a.0.fails, b.0.fails);
        gone = omega (arith, a.0.gone, b.0.gone);
      },
      omega (arith, a.1, b.1),
      omega (arith, a.2, b.2),
    )

orphaned-running :
    (gone : String → Bool) (s : Service)
    → is_orphaned gone s ≡ true
    → status_beq s.status running ≡ false
orphaned-running gone s h =
    elim (Bool-cases (not (is_binary s.service_type) || s.binary_path == "")) [
      | inl e ↦ cc (rw e at h)
      | inr e ↦ elim (Bool-cases (status_beq s.status running)) [
        | inl f ↦ cc (rw (e, f) at h)
        | inr f ↦ f
      ]
    ]

tally-projected :
    (gone : String → Bool) (s : Service)
    → (tally running (projected gone s).status ≡ tally running s.status)
      × (tally archived (projected gone s).status ≤ tally archived s.status)
tally-projected gone s = elim (Bool-cases (is_orphaned gone s)) [
  | inl e ↦ rw (e, orphaned-running gone s e) (refl, omega arith)
  | inr e ↦ rw e (refl, omega arith)
]

with_status-projected :
    (gone : String → Bool) (ss : List Service)
    → (with_status running (map (projected gone) ss) ≡ with_status running ss)
      × (with_status archived (map (projected gone) ss) ≤ with_status archived ss)
      × (length (map (projected gone) ss) ≡ length ss)
with_status-projected gone [] = (refl, omega arith, refl)
with_status-projected gone (s ∷ ss) =
    let a = tally-projected gone s in
    let b = with_status-projected gone ss in
    (omega (arith, a.0, b.0), omega (arith, a.1, b.1), omega (arith, b.2))

active_from-archived : (m : List (String × Service)) → with_status archived (active_from m) ≡ 0
unfolding active_from
active_from-archived [] = refl
active_from-archived ((k, s) ∷ m) = elim (Bool-cases (status_beq s.status archived)) [
  | inl e ↦ rw e (active_from-archived m)
  | inr e ↦ rw (e, e) (omega (arith, active_from-archived m))
]

-- Metrics counts as running exactly the active entries with that status, whichever files are gone; its
-- counters of the stopped, the failed and the orphaned count the services with that status as
-- Services shows them; its total is the number of active entries, and the four counters add up to it
-- but for the services whose status is empty or unknown, which are in no counter.
pub metrics_lem :
    (gone : String → Bool) (deploys crashes : ℕ) (r : Registry)
    → ((metrics gone deploys crashes r).services_running ≡ with_status running (all_active r))
      × ((metrics gone deploys crashes r).services_stopped ≡ with_status stopped (services gone r))
      × ((metrics gone deploys crashes r).services_failed ≡ with_status failed (services gone r))
      × ((metrics gone deploys crashes r).services_orphaned
          ≡ with_status orphaned (services gone r))
      × ((metrics gone deploys crashes r).services_total ≡ length (all_active r))
      × (sum (metrics gone deploys crashes r) + uncounted (services gone r) ≡ length (all_active r))
unfolding all_active
metrics_lem gone deploys crashes r =
    let a = with_status-projected gone (active_from r.services) in
    let b = active_from-archived r.services in
    let c = count_each_lem (services gone r) (nothing deploys crashes) in
    (
      omega (arith, a.0, c.0.runs),
      omega (arith, c.0.stops),
      omega (arith, c.0.fails),
      omega (arith, c.0.gone),
      omega (arith, a.2, c.1),
      omega (arith, a.1, a.2, b, c.2),
    )
