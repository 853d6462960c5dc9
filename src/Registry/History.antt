-- ===== src/Registry/History.antt =====
-- The ring buffer of starts: a start is recorded, and its end is filled in later.
use anito.Prelude.{
  ℕ, ◌≤◌, ◌-◌, suc, zero, String, ◌≡◌, refl, ap, ◌∙◌, true, false, none, some, inl, inr, Bool-cases,
  arith, ◌==◌, ℕ_comparable, text_comparable, ==_refl, List, [], ◌∷◌, ◌++◌, length, drop, ltb,
  length-append, length-drop, ltb→le,
}
use anito.Assoc.{lookup}
use anito.Registry.Types.{Service, StartEvent, ExitCode}
use anito.Registry.Edits.{
  push_event, history_limit, starting, complete_newest, complete_start_edit, record_start_edit,
}
use anito.Registry.Store.{Codec, Io, Registry, Outcome, ok, err}
use anito.Registry.Methods.{record_start, complete_start, edit, without_value}
use anito.Registry.Drafts.{IsEntry, record_start-KeepsDraft}
use anito.Registry.Calls.{records_start, step}
use anito.Registry.Invariant.{IsValid, step-IsValid}
use anito.Registry.Archival.{edit_ok, found-IsEntry}

drop-append {ℓ} :
    {A : Type ℓ} (n : ℕ) (xs ys : List A) → n ≤ length xs → drop n (xs ++ ys) ≡ drop n xs ++ ys
drop-append zero xs ys h = refl
drop-append (suc n) [] ys h = absurd (omega arith)
drop-append (suc n) (x ∷ xs) ys h = drop-append n xs ys (omega arith)

-- The starts that are still remembered once one more is recorded.
pub earlier : List StartEvent → List StartEvent
earlier h = drop (suc (length h) - history_limit) h

length-earlier :
    (h : List StartEvent) → length (earlier h) ≡ length h - (suc (length h) - history_limit)
unfolding earlier
length-earlier h = length-drop (suc (length h) - history_limit) h

push_event-earlier : (e : StartEvent) (h : List StartEvent) → push_event e h ≡ earlier h ++ e ∷ []
unfolding push_event earlier
push_event-earlier e h = elim (Bool-cases (ltb history_limit (length (h ++ e ∷ [])))) [
  | inl q ↦ rw q (
      rw (length-append h (e ∷ [])) (
        ap (λ n. drop (n - history_limit) (h ++ e ∷ [])) (omega arith)
        ∙ drop-append (suc (length h) - history_limit) h (e ∷ []) (omega arith)))
  | inr q ↦ rw q (
      ap (λ n. drop n h ++ e ∷ [])
        (let full : 0 ≡ suc (length h) - history_limit =
            omega
              (arith, ltb→le history_limit (length (h ++ e ∷ [])) q, length-append h (e ∷ [])) in
          full))
]

abbrev pub ended : ExitCode → ℕ → StartEvent → StartEvent
ended exit d e = record e { exit_code = exit; duration = d }

-- No event of the list began at that time.
abbrev pub Unstarted : ℕ → List StartEvent → Type 0
Unstarted t [] = Unit
Unstarted t (e ∷ es) = ((e.started_at == t) ≡ false) × Unstarted t es

complete_newest-none :
    (t : ℕ) (exit : ExitCode) (d : ℕ) (h : List StartEvent)
    → Unstarted t h
    → complete_newest t exit d h ≡ none
unfolding complete_newest
complete_newest-none t exit d [] u = refl
complete_newest-none t exit d (e ∷ h) u = rw (complete_newest-none t exit d h u.1, u.0) refl

-- The loop completes the newest event of that time, whatever stands before it.
pub complete_newest-append :
    (t : ℕ) (exit : ExitCode) (d : ℕ) (older newer : List StartEvent) (e : StartEvent)
    → (e.started_at == t) ≡ true
    → Unstarted t newer
    → complete_newest t exit d (older ++ e ∷ newer) ≡ some (older ++ ended exit d e ∷ newer)
unfolding complete_newest
complete_newest-append t exit d [] newer e q u = rw (complete_newest-none t exit d newer u, q) refl
complete_newest-append t exit d (x ∷ older) newer e q u =
    rw (complete_newest-append t exit d older newer e q u) refl

without_value_state : (o : Outcome Service) → (without_value o).0 ≡ o.0
without_value_state (r, ok s) = refl
without_value_state (r, err e) = refl

record_start_found :
    (c : Codec) (io : Io) (name : String) (t now : ℕ) (r : Registry) (s : Service)
    → IsValid r
    → lookup name r.services ≡ some s
    → lookup name (record_start c io name t now r).0.services ≡ some (record_start_edit t now s)
unfolding record_start record_start_edit
record_start_found c io name t now r s v e =
    let d = found-IsEntry r name s v e in
    ap (λ r'. lookup name r'.services) (without_value_state (edit c io name _ r))
    ∙ edit_ok c io name _ r s _ v e refl (record {
      draft = record_start-KeepsDraft name t now s d.draft;
      stable = d.stable;
      internal = d.internal;
    })

completed : ExitCode → ℕ → ℕ → ℕ → ℕ → Service → Service
completed exit d t now later s = record (record_start_edit t now s) {
  start_history = earlier s.start_history ++ ended exit d (starting t) ∷ [];
  updated_at = later;
}

complete_start_edit-recorded :
    (name : String) (t now : ℕ) (exit : ExitCode) (d later : ℕ) (s : Service)
    → complete_start_edit name t exit d later (record_start_edit t now s)
      ≡ ok (completed exit d t now later s)
unfolding complete_start_edit record_start_edit completed
complete_start_edit-recorded name t now exit d later s =
    rw
      (
        push_event-earlier (starting t) s.start_history,
        complete_newest-append t exit d (earlier s.start_history) [] (starting t) (==_refl t) tt,
        complete_start_edit,
      )
      refl

-- A start that is recorded and then ends shows its exit code and its duration as the newest event,
-- also where an older event has the same time, after the older events that the ring buffer keeps.
-- This does not depend on whether the file could be written.
pub complete_start-record_start :
    (c : Codec) (io io' : Io) (name : String) (t now : ℕ) (exit : ExitCode) (d later : ℕ)
    (r : Registry) (s : Service)
    → IsValid r
    → lookup name r.services ≡ some s
    → (s' : Service) × (lookup name
          (complete_start c io' name t exit d later (record_start c io name t now r).0).0.services
        ≡ some s')
      × (s'.start_history ≡ earlier s.start_history ++ ended exit d (starting t) ∷ [])
      × (s'.last_started_at ≡ t)
unfolding complete_start completed record_start_edit
complete_start-record_start c io io' name t now exit d later r s v e = (
  completed exit d t now later s,
  ap (λ r'. lookup name r'.services) (without_value_state (edit c io' name _ recorded))
      ∙ edit_ok c io' name _ recorded (record_start_edit t now s) _ still_valid
          (record_start_found c io name t now r s v e)
          (complete_start_edit-recorded name t now exit d later s) entry,
  refl,
  refl,
)
  where
    recorded : Registry
    recorded = (record_start c io name t now r).0

    still_valid : IsValid recorded
    still_valid = unfold step in step-IsValid c io (records_start name t now) r tt v

    entry : IsEntry name (completed exit d t now later s)
    entry =
        let g = found-IsEntry r name s v e in
        record {
          draft = record {
            named = g.draft.named;
            bound = g.draft.bound;
            remembered = omega (
              arith,
              g.draft.remembered,
              length-append (earlier s.start_history) (ended exit d (starting t) ∷ []),
              length-earlier s.start_history,
            );
          };
          stable = g.stable;
          internal = g.internal;
        }
