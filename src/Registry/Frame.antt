-- ===== src/Registry/Frame.antt =====
-- A call of the registry touches the entry that it names, and no other.
use anito.Prelude.{
  ℕ, String, ◌≡◌, refl, ◌∙◌, ◌≢◌, ◌&&◌, Option, none, some, inl, inr, Option-cases, Bool-cases, ap,
  ◌==◌, text_comparable, ℕ_comparable, List,
}
use anito.Assoc.{lookup, delete, lookup-insert_ne, lookup-delete_ne}
use anito.Registry.Types.{Service, ServiceStatus, status_beq, archived, Tombstone}
use anito.Registry.Store.{Codec, Io, Registry, Outcome, Result, ok, err, save}
use anito.Registry.Methods.{
  register, restore, archive, restore_archived, prune, prune_found, update_status, update_status_of,
  update_last_deployed, update_start_history, update_process_started, mark_running, record_start,
  complete_start, update_last_started, update_crash_state, update_internal_ports, remove, edit,
  save_edit, put, without_value,
}
use anito.Registry.Calls.{
  Call, registers, restores, archives, unarchives, prunes, sets_status, sets_last_deployed,
  adds_event, starts, marks_running, records_start, completes_start, sets_last_started,
  sets_crash_state, sets_internal_ports, removes, step,
}
use anito.Registry.Invariant.{IsValid}
use anito.Registry.Saved.{lookup-save, lookup-in_line}

-- The name that a call is for.
abbrev pub target : Call → Option String
target (registers now later s) = some s.name
target (restores none) = none
target (restores (some s)) = some s.name
target (archives name now later) = some name
target (unarchives name now) = some name
target (prunes name now) = some name
target (sets_status name status pid now) = some name
target (sets_last_deployed name t now) = some name
target (adds_event name e now) = some name
target (starts name ports t now) = some name
target (marks_running name pid t now) = some name
target (records_start name t now) = some name
target (completes_start name t exit d now) = some name
target (sets_last_started name t now) = some name
target (sets_crash_state name n gave_up now) = some name
target (sets_internal_ports name ports now) = some name
target (removes name) = some name

module _ (c : Codec) (io : Io) (r : Registry) (v : IsValid r) (k : String) where
  abbrev Keeps : Registry → Type 0
  Keeps o = lookup k o.services ≡ lookup k r.services

  save-Keeps : (w : Registry) → Keeps w → Keeps (save c io w).0
  save-Keeps w e = lookup-save c io w k ∙ rw e (lookup-in_line r k v)

  put-Keeps : (name : String) (s : Service) → name ≢ k → Keeps (save c io (put name s r)).0
  put-Keeps name s h = save-Keeps (put name s r) (lookup-insert_ne name k s r.services h)

  delete-Keeps :
      (name : String) (ts : List (String × Tombstone))
      → name ≢ k
      → Keeps (save c io (record r { services = delete name r.services; tombstones = ts })).0
  delete-Keeps name ts h = save-Keeps _ (lookup-delete_ne name k r.services h)

  edit-Keeps :
      (name : String) (f : Service → Result Service) → name ≢ k → Keeps (edit c io name f r).0
  unfolding edit
  edit-Keeps name f h = elim (Option-cases (lookup name r.services)) [
    | inl p ↦ rw (p, edit) refl
    | inr (s, p) ↦ rw (p, edit) (edited (f s))
  ]
    where
      edited : (q : Result Service) → Keeps (save_edit c io name r q).0
      edited (ok s) = put-Keeps name s h
      edited (err e) = refl

  value-Keeps : (o : Outcome Service) → Keeps o.0 → Keeps (without_value o).0
  value-Keeps (o, ok s) e = e
  value-Keeps (o, err x) e = e

  update_status-Keeps :
      (name : String) (status : ServiceStatus) (pid now : ℕ)
      → name ≢ k
      → Keeps (update_status c io name status pid now r).0
  unfolding update_status
  update_status-Keeps name status pid now h = elim (Option-cases (lookup name r.services)) [
    | inl p ↦ rw (p, update_status) refl
    | inr (s, p) ↦ rw (p, update_status) (written s)
  ]
    where
      written : (s : Service) → Keeps (update_status_of c io name status pid now r (some s)).0
      written s = elim (Bool-cases (status_beq s.status status && s.pid == pid)) [
        | inl q ↦ rw q refl
        | inr q ↦ rw q (put-Keeps name _ h)
      ]

  prune-Keeps : (name : String) (now : ℕ) → name ≢ k → Keeps (prune c io name now r).0
  unfolding prune
  prune-Keeps name now h = elim (Option-cases (lookup name r.services)) [
    | inl p ↦ rw (p, prune) refl
    | inr (s, p) ↦ rw (p, prune) (pruned s)
  ]
    where
      pruned : (s : Service) → Keeps (prune_found c io name now r (some s)).0
      pruned s = elim (Bool-cases (status_beq s.status archived)) [
        | inl q ↦ rw q (delete-Keeps name _ h)
        | inr q ↦ rw q refl
      ]

-- A call leaves the entry under every other name as it was, on every branch and whether or not the
-- file could be written.
pub step-other :
    (c : Codec) (io : Io) (call : Call) (r : Registry) (k : String)
    → IsValid r
    → target call ≢ some k
    → lookup k (step c io call r).services ≡ lookup k r.services
unfolding step register restore archive restore_archived update_last_deployed update_start_history
    update_process_started mark_running record_start complete_start update_last_started
    update_crash_state update_internal_ports remove
step-other c io (registers now later s) r k v h = put-Keeps c io r v k s.name _ (λ e. h (ap some e))
step-other c io (restores none) r k v h = refl
step-other c io (restores (some s)) r k v h = put-Keeps c io r v k s.name _ (λ e. h (ap some e))
step-other c io (prunes name now) r k v h = prune-Keeps c io r v k name now (λ e. h (ap some e))
step-other c io (sets_status name status pid now) r k v h =
    update_status-Keeps c io r v k name status pid now (λ e. h (ap some e))
step-other c io (removes name) r k v h = delete-Keeps c io r v k name _ (λ e. h (ap some e))
step-other c io (archives name now later) r k v h =
    edit-Keeps c io r v k name _ (λ e. h (ap some e))
step-other c io (unarchives name now) r k v h = edit-Keeps c io r v k name _ (λ e. h (ap some e))
step-other c io (sets_last_deployed name t now) r k v h =
    value-Keeps c io r v k _ (edit-Keeps c io r v k name _ (λ e. h (ap some e)))
step-other c io (adds_event name e now) r k v h =
    value-Keeps c io r v k _ (edit-Keeps c io r v k name _ (λ e. h (ap some e)))
step-other c io (starts name ports t now) r k v h =
    value-Keeps c io r v k _ (edit-Keeps c io r v k name _ (λ e. h (ap some e)))
step-other c io (marks_running name pid t now) r k v h =
    value-Keeps c io r v k _ (edit-Keeps c io r v k name _ (λ e. h (ap some e)))
step-other c io (records_start name t now) r k v h =
    value-Keeps c io r v k _ (edit-Keeps c io r v k name _ (λ e. h (ap some e)))
step-other c io (completes_start name t exit d now) r k v h =
    value-Keeps c io r v k _ (edit-Keeps c io r v k name _ (λ e. h (ap some e)))
step-other c io (sets_last_started name t now) r k v h =
    value-Keeps c io r v k _ (edit-Keeps c io r v k name _ (λ e. h (ap some e)))
step-other c io (sets_crash_state name n gave_up now) r k v h =
    value-Keeps c io r v k _ (edit-Keeps c io r v k name _ (λ e. h (ap some e)))
step-other c io (sets_internal_ports name ports now) r k v h =
    value-Keeps c io r v k _ (edit-Keeps c io r v k name _ (λ e. h (ap some e)))
