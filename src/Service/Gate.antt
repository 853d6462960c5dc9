-- ===== src/Service/Gate.antt =====
-- The gate is closed from the beginning of the restore at startup to its end.
use anito.Prelude.{ℕ, ◌+◌, suc, ◌≡◌, refl, true, none, some, List, [], ◌∷◌, arith}
use anito.Service.Startup.{
  reconciling, StartupTracker, StartupGateError, mutations_blocked, begin_startup, set_phase,
  increment_completed, finish_startup, ensure_mutable,
}

-- What `RestoreAll` does to the tracker between the beginning and the end: it settles how many
-- services are restored in parallel, enters the second phase, or counts a service as done.
pub data Progress : Type 0 where
  sets_parallel : ℕ → Progress
  enters_reconciling counts_one : Progress

unfoldable pub progress {ℓ} : {R : Type ℓ} → List Progress → StartupTracker R → StartupTracker R
progress [] t = t
progress (sets_parallel n ∷ ps) t = progress ps (record t { max_parallel = n })
progress (enters_reconciling ∷ ps) t = progress ps (set_phase reconciling t)
progress (counts_one ∷ ps) t = progress ps (increment_completed t)

unfoldable pub counted : List Progress → ℕ
counted [] = 0
counted (sets_parallel n ∷ ps) = counted ps
counted (enters_reconciling ∷ ps) = counted ps
counted (counts_one ∷ ps) = suc (counted ps)

module _ {ℓ} {R : Type ℓ} where
  progress-blocked :
      (ps : List Progress) (t : StartupTracker R)
      → mutations_blocked t.phase ≡ true
      → (mutations_blocked (progress ps t).phase ≡ true)
        × ((progress ps t).completed ≡ t.completed + counted ps)
        × ((progress ps t).total ≡ t.total)
  unfolding progress counted set_phase increment_completed
  progress-blocked [] t h = (h, omega arith, refl)
  progress-blocked (sets_parallel n ∷ ps) t h =
      progress-blocked ps (record t { max_parallel = n }) h
  progress-blocked (enters_reconciling ∷ ps) t h =
      progress-blocked ps (set_phase reconciling t) refl
  progress-blocked (counts_one ∷ ps) t h =
      let (a, b, c) = progress-blocked ps (increment_completed t) h in (a, omega (arith, b), c)

  -- From `begin` on, whatever progress is made, a mutating operation is refused with the number of
  -- services done and their total; after `finish` it is let through and all count as done.
  pub ensure_mutable-begin_startup :
      (started_at total max_parallel completed_at : ℕ) (result : R) (ps : List Progress)
      (t : StartupTracker R)
      → ((e : StartupGateError) × (ensure_mutable
              (progress ps (begin_startup started_at total max_parallel t))
            ≡ some e)
          × (e.completed ≡ counted ps)
          × (e.total ≡ total))
        × (ensure_mutable (
              finish_startup completed_at result
                (progress ps (begin_startup started_at total max_parallel t)))
            ≡ none)
        × ((finish_startup completed_at result
              (progress ps (begin_startup started_at total max_parallel t))).completed
            ≡ total)
  unfolding ensure_mutable finish_startup begin_startup
  ensure_mutable-begin_startup started_at total max_parallel completed_at result ps t =
      let begun : StartupTracker R = begin_startup started_at total max_parallel t in
      let (a, b, c) = progress-blocked ps begun refl in
      (
        (
          record {
            phase = (progress ps begun).phase;
            completed = (progress ps begun).completed;
            total = (progress ps begun).total;
          },
          rw a refl,
          omega (arith, b),
          c,
        ),
        refl,
        c,
      )
