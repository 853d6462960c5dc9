-- ===== src/Registry/Invariant.antt =====
-- What every call of the registry keeps.
use anito.Prelude.{
  ℕ, ◌≤◌, String, ◌≡◌, refl, none, some, List, inl, inr, arith, length, ◌==◌, text_comparable,
  Option-cases, Bool-cases, ◌&&◌, ℕ_comparable,
}
use anito.Assoc.{lookup, delete}
use anito.Assoc.Keys.{IsUnique, insert-IsUnique, delete-IsUnique, map_values-IsUnique}
use anito.Assoc.Entries.{
  Entries, Entries-lookup, Entries-insert, Entries-delete, Entries-map_values, Entries-mono,
}
use anito.Registry.Types.{Service, ServiceStatus, archived, status_beq, Tombstone}
use anito.Registry.Ports.{sync_singular_from_map}
use anito.Registry.Edits.{history_limit}
use anito.Registry.Drafts.{
  IsDraft, IsEntry, sync-IsEntry, OnOk, KeepsDraft, archive-KeepsDraft, restore_archived-KeepsDraft,
  complete_start-KeepsDraft, process_started-KeepsDraft, mark_running-KeepsDraft,
  record_start-KeepsDraft, registered-IsDraft, IsDraft-same, length-push_event,
  internal_ports-KeepsDraft,
}
use anito.Registry.Methods.{
  register, restore, archive, restore_archived, prune, update_status, update_last_deployed,
  update_start_history, update_process_started, mark_running, record_start, complete_start,
  update_last_started, update_crash_state, update_internal_ports, remove, edit, save_edit,
  update_status_of, prune_found, put, without_value,
}
use anito.Registry.Calls.{
  Call, registers, restores, archives, unarchives, prunes, sets_status, sets_last_deployed,
  adds_event, starts, marks_running, records_start, completes_start, sets_last_started,
  sets_crash_state, sets_internal_ports, removes, step,
}
use anito.Registry.Store.{Codec, Io, Registry, Outcome, Result, ok, err, save, sync_all}

pub record IsValid (r : Registry) : Type 0 where
  pub unique : IsUnique r.services
  pub entries : Entries IsEntry r.services

pub record IsPending (r : Registry) : Type 0 where
  pub unique : IsUnique r.services
  pub entries : Entries IsDraft r.services

pub IsValid-IsPending : (r : Registry) → IsValid r → IsPending r
IsValid-IsPending r v = record {
  unique = v.unique;
  entries = Entries-mono IsEntry IsDraft r.services (λ k s e. e.draft) v.entries;
}

pub sync_all-IsValid : (r : Registry) → IsPending r → IsValid (sync_all r)
unfolding sync_all
sync_all-IsValid r p = record {
  unique = map_values-IsUnique sync_singular_from_map r.services p.unique;
  entries =
      Entries-map_values IsDraft IsEntry sync_singular_from_map r.services sync-IsEntry p.entries;
}

pub save_services :
    (c : Codec) (io : Io) (r : Registry) → (save c io r).0.services ≡ (sync_all r).services
unfolding save
save_services c io r = ground arith

-- A save brings every entry in line, whether or not the file could be written.
pub save-IsValid : (c : Codec) (io : Io) (r : Registry) → IsPending r → IsValid (save c io r).0
save-IsValid c io r p =
    let v = sync_all-IsValid r p in
    record {
      unique = rw (save_services c io r) v.unique;
      entries = rw (save_services c io r) v.entries;
    }

-- What a call makes of the registry: it keeps it, or it writes entries and saves.
pub data Writes (c : Codec) (io : Io) (r : Registry) : Registry → Type 0 where
  kept : Writes c io r r
  saved : (w : Registry) → IsPending w → w.disk ≡ r.disk → Writes c io r (save c io w).0

-- A write of one entry, before the save.
put-IsPending :
    (k : String) (s : Service) (r : Registry) → IsDraft k s → IsValid r → IsPending (put k s r)
put-IsPending k s r d v = record {
  unique = insert-IsUnique k s r.services v.unique;
  entries = Entries-insert IsDraft k s r.services d (IsValid-IsPending r v).entries;
}

found-IsDraft :
    (k : String) (s : Service) (r : Registry)
    → IsValid r
    → lookup k r.services ≡ some s
    → IsDraft k s
found-IsDraft k s r v e = (Entries-lookup IsEntry r.services k s v.entries e).draft

edit-Writes :
    (c : Codec) (io : Io) (name : String) (f : Service → Result Service) (r : Registry)
    → KeepsDraft name f
    → IsValid r
    → Writes c io r (edit c io name f r).0
unfolding edit
edit-Writes c io name f r keeps v = elim (Option-cases (lookup name r.services)) [
  | inl p ↦ rw (p, edit) kept
  | inr (s, p) ↦ rw (p, edit) (edited (f s) (keeps s (found-IsDraft name s r v p)))
]
  where
    edited :
        (q : Result Service) → OnOk (IsDraft name) q → Writes c io r (save_edit c io name r q).0
    edited (ok s) d = saved (put name s r) (put-IsPending name s r d v) refl
    edited (err e) d = kept

delete-IsPending :
    (k : String) (r : Registry) (ts : List (String × Tombstone))
    → IsValid r
    → IsPending (record r { services = delete k r.services; tombstones = ts })
delete-IsPending k r ts v = record {
  unique = delete-IsUnique k r.services v.unique;
  entries = Entries-delete IsDraft k r.services (IsValid-IsPending r v).entries;
}

without_value-Writes :
    (c : Codec) (io : Io) (r : Registry) (o : Outcome Service)
    → Writes c io r o.0
    → Writes c io r (without_value o).0
without_value-Writes c io r (r', ok s) w = w
without_value-Writes c io r (r', err e) w = w

register-Writes :
    (c : Codec) (io : Io) (now later : ℕ) (s : Service) (r : Registry)
    → length s.start_history ≤ history_limit
    → IsValid r
    → Writes c io r (register c io now later s r).0
unfolding register
register-Writes c io now later s r h v =
    saved _
      (put-IsPending s.name _ r
        (registered-IsDraft now later (lookup s.name r.services) s h
          (λ e p. (found-IsDraft s.name e r v p).remembered))
        v)
      refl

update_status-Writes :
    (c : Codec) (io : Io) (name : String) (status : ServiceStatus) (pid now : ℕ) (r : Registry)
    → IsValid r
    → Writes c io r (update_status c io name status pid now r).0
unfolding update_status
update_status-Writes c io name status pid now r v = elim (Option-cases (lookup name r.services)) [
  | inl p ↦ rw (p, update_status) kept
  | inr (s, p) ↦
      rw (p, update_status) (written s (IsDraft-same name s _ (d s p) refl refl (d s p).remembered))
]
  where
    d : (s : Service) → lookup name r.services ≡ some s → IsDraft name s
    d s p = found-IsDraft name s r v p

    written :
        (s : Service)
        → IsDraft name (record s { status = status; pid = pid; updated_at = now })
        → Writes c io r (update_status_of c io name status pid now r (some s)).0
    written s g = elim (Bool-cases (status_beq s.status status && s.pid == pid)) [
      | inl q ↦ rw q kept
      | inr q ↦ rw q (saved _ (put-IsPending name _ r g v) refl)
    ]

prune-Writes :
    (c : Codec) (io : Io) (name : String) (now : ℕ) (r : Registry)
    → IsValid r
    → Writes c io r (prune c io name now r).0
unfolding prune
prune-Writes c io name now r v = elim (Option-cases (lookup name r.services)) [
  | inl p ↦ rw (p, prune) kept
  | inr (s, p) ↦ rw (p, prune) (pruned s)
]
  where
    pruned : (s : Service) → Writes c io r (prune_found c io name now r (some s)).0
    pruned s = elim (Bool-cases (status_beq s.status archived)) [
      | inl q ↦ rw q (saved _ (delete-IsPending name r _ v) refl)
      | inr q ↦ rw q kept
    ]

-- What the callers see to: a record that they bring has a history of ten starts at most, and one
-- that is restored came from the registry.
abbrev pub IsAllowed : Call → Type 0
IsAllowed (registers now later s) = length s.start_history ≤ history_limit
IsAllowed (restores (some s)) = IsDraft s.name s
IsAllowed _ = Unit

-- Every call, on every branch.
pub step-Writes :
    (c : Codec) (io : Io) (call : Call) (r : Registry)
    → IsAllowed call
    → IsValid r
    → Writes c io r (step c io call r)
unfolding step restore archive restore_archived update_last_deployed update_start_history
    update_process_started mark_running record_start complete_start update_last_started
    update_crash_state update_internal_ports remove
step-Writes c io (registers now later s) r h v = register-Writes c io now later s r h v
step-Writes c io (restores none) r h v = kept
step-Writes c io (restores (some s)) r h v = saved _ (put-IsPending s.name s r h v) refl
step-Writes c io (archives name now later) r h v =
    edit-Writes c io name _ r (archive-KeepsDraft name name now later) v
step-Writes c io (unarchives name now) r h v =
    edit-Writes c io name _ r (restore_archived-KeepsDraft name name now) v
step-Writes c io (prunes name now) r h v = prune-Writes c io name now r v
step-Writes c io (sets_status name status pid now) r h v =
    update_status-Writes c io name status pid now r v
step-Writes c io (sets_last_deployed name t now) r h v =
    without_value-Writes c io r _
      (edit-Writes c io name _ r (λ s d. IsDraft-same name s _ d refl refl d.remembered) v)
step-Writes c io (adds_event name e now) r h v = without_value-Writes c io r _ (
    edit-Writes c io name _ r
      (λ s d. IsDraft-same name s _ d refl refl (length-push_event e s.start_history)) v)
step-Writes c io (starts name ports t now) r h v =
    without_value-Writes c io r _
      (edit-Writes c io name _ r (process_started-KeepsDraft name ports t now) v)
step-Writes c io (marks_running name pid t now) r h v =
    without_value-Writes c io r _
      (edit-Writes c io name _ r (mark_running-KeepsDraft name pid t now) v)
step-Writes c io (records_start name t now) r h v =
    without_value-Writes c io r _ (edit-Writes c io name _ r (record_start-KeepsDraft name t now) v)
step-Writes c io (completes_start name t exit d now) r h v =
    without_value-Writes c io r _
      (edit-Writes c io name _ r (complete_start-KeepsDraft name name t exit d now) v)
step-Writes c io (sets_last_started name t now) r h v =
    without_value-Writes c io r _
      (edit-Writes c io name _ r (λ s d. IsDraft-same name s _ d refl refl d.remembered) v)
step-Writes c io (sets_crash_state name n gave_up now) r h v =
    without_value-Writes c io r _
      (edit-Writes c io name _ r (λ s d. IsDraft-same name s _ d refl refl d.remembered) v)
step-Writes c io (sets_internal_ports name ports now) r h v =
    without_value-Writes c io r _
      (edit-Writes c io name _ r (internal_ports-KeepsDraft name ports now) v)
step-Writes c io (removes name) r h v = saved _ (delete-IsPending name r r.tombstones v) refl

-- Every call leaves distinct names, entries under their own names with an address to bind, singular
-- ports in line with the port maps, and at most ten remembered starts. It does so whatever the call
-- returns, and however its file operations end.
pub step-IsValid :
    (c : Codec) (io : Io) (call : Call) (r : Registry)
    → IsAllowed call
    → IsValid r
    → IsValid (step c io call r)
step-IsValid c io call r h v = valid (step-Writes c io call r h v)
  where
    valid : {o : Registry} → Writes c io r o → IsValid o
    valid kept = v
    valid (saved w p e) = save-IsValid c io w p
