-- ===== src/Registry/Archival.antt =====
-- Archiving a service, bringing it back, and pruning it.
use anito.Prelude.{
  ℕ, String, ◌≡◌, refl, ◌∙◌, ◌≢◌, ◌⊎◌, Option, none, some, inl, inr, Bool-cases, Option-cases,
  arith, text_comparable, ==_refl,
}
use anito.Assoc.{lookup, lookup-insert_self, lookup-delete_self}
use anito.Assoc.Entries.{Entries-lookup}
use anito.Registry.Types.{
  Service, ServiceStatus, status_beq, status_beq_iff, archived, running, stopped, blank, Tombstone,
}
use anito.Registry.Edits.{archive_edit, restore_archived_edit}
use anito.Registry.Store.{
  Codec, Io, Registry, Outcome, Error, Result, ok, err, save, sync_all, not_found, is_running,
  already_archived, not_archived_to_prune,
}
use anito.Registry.Methods.{archive, restore_archived, prune, edit, save_edit}
use anito.Registry.Drafts.{IsEntry}
use anito.Registry.Calls.{archives, step}
use anito.Registry.Invariant.{IsValid, step-IsValid}
use anito.Registry.Saved.{lookup-save, lookup-save-put, sync_id}

pub edit_of_lookup :
    (c : Codec) (io : Io) (name : String) (f : Service → Result Service) (r : Registry)
    (o : Option Service)
    → lookup name r.services ≡ o
    → edit c io name f r
      ≡ (elim o [ none ↦ (r, err (not_found name)) | some s ↦ save_edit c io name r (f s) ])
unfolding edit
edit_of_lookup c io name f r none e = rw e
edit_of_lookup c io name f r (some s) e = rw e

abbrev pub archived_entry : ℕ → ℕ → Service → Service
archived_entry now later s = record s {
  archived_from = s.status;
  status = archived;
  archived_at = now;
  pid = 0;
  updated_at = later;
}

abbrev pub restored_entry : ℕ → Service → Service
restored_entry now s = record s {
  status = stopped;
  archived_from = blank;
  archived_at = 0;
  pid = 0;
  updated_at = now;
}

archive_edit-ok :
    (name : String) (now later : ℕ) (s : Service)
    → s.status ≢ archived
    → s.status ≢ running
    → archive_edit name now later s ≡ ok (archived_entry now later s)
unfolding archive_edit
archive_edit-ok name now later s h g =
    ground (arith, status_beq_iff s.status archived, status_beq_iff s.status running)

-- What an edit that succeeds leaves under the name.
pub edit_ok :
    (c : Codec) (io : Io) (name : String) (f : Service → Result Service) (r : Registry)
    (s t : Service)
    → IsValid r
    → lookup name r.services ≡ some s
    → f s ≡ ok t
    → IsEntry name t
    → lookup name (edit c io name f r).0.services ≡ some t
unfolding edit save_edit
edit_ok c io name f r s t v e g d =
    rw (edit_of_lookup c io name f r (some s) e, g)
      (lookup-save-put c io r name name t v ∙ rw (==_refl name, sync_id name t d))

pub found-IsEntry :
    (r : Registry) (name : String) (s : Service)
    → IsValid r
    → lookup name r.services ≡ some s
    → IsEntry name s
found-IsEntry r name s v e = Entries-lookup IsEntry r.services name s v.entries e

archive_found :
    (c : Codec) (io : Io) (name : String) (now later : ℕ) (r : Registry) (s : Service)
    → IsValid r
    → lookup name r.services ≡ some s
    → s.status ≢ archived
    → s.status ≢ running
    → lookup name (archive c io name now later r).0.services ≡ some (archived_entry now later s)
unfolding archive
archive_found c io name now later r s v e h g =
    let d = found-IsEntry r name s v e in
    edit_ok c io name _ r s _ v e (archive_edit-ok name now later s h g) (record {
      draft = record {
        named = d.draft.named;
        bound = d.draft.bound;
        remembered = d.draft.remembered;
      };
      stable = d.stable;
      internal = d.internal;
    })

status_cases :
    (st : ServiceStatus) → (st ≡ archived) ⊎ ((st ≡ running) ⊎ ((st ≢ archived) × (st ≢ running)))
status_cases archived = inl refl
status_cases running = inr (inl refl)
status_cases st = inr (inr (λ e. cc, λ e. cc))

-- Archiving: a service that is missing, archived already or running is refused and nothing changes;
-- any other is archived, with no process, and with its ports and its deployment kept.
pub archive_lem :
    (c : Codec) (io : Io) (name : String) (now later : ℕ) (r : Registry)
    → IsValid r
    → let o = archive c io name now later r in
      ((lookup name r.services ≡ none) × (o ≡ (r, err (not_found name))))
      ⊎ ((s : Service) × (lookup name r.services ≡ some s)
          × (((s.status ≡ archived) × (o ≡ (r, err (already_archived name))))
              ⊎ (((s.status ≡ running) × (o ≡ (r, err (is_running name))))
                  ⊎ ((s.status ≢ archived)
                      × (s.status ≢ running)
                      × (lookup name o.0.services ≡ some (archived_entry now later s))))))
unfolding archive save_edit
archive_lem c io name now later r v = elim (Option-cases (lookup name r.services)) [
  | inl e ↦ inl (e, edit_of_lookup c io name _ r none e)
  | inr (s, e) ↦ inr (s, e, cases s e)
]
  where
    refused :
        (s : Service)
        → lookup name r.services ≡ some s
        → (x : Error) → archive_edit name now later s ≡ err x
        → archive c io name now later r ≡ (r, err x)
    refused s e x q =
        edit_of_lookup c io name (archive_edit name now later) r (some s) e ∙ rw q refl

    cases :
        (s : Service)
        → lookup name r.services ≡ some s
        → ((s.status ≡ archived)
            × (archive c io name now later r ≡ (r, err (already_archived name))))
          ⊎ (((s.status ≡ running) × (archive c io name now later r ≡ (r, err (is_running name))))
              ⊎ ((s.status ≢ archived)
                  × (s.status ≢ running)
                  × (lookup name (archive c io name now later r).0.services
                      ≡ some (archived_entry now later s))))
    cases s e = elim (status_cases s.status) [
      | inl a ↦ inl (a, refused s e _ (unfold archive_edit in rw a))
      | inr (inl a) ↦ inr (inl (a, refused s e _ (unfold archive_edit in rw a)))
      | inr (inr (h, g)) ↦ inr (inr (h, g, archive_found c io name now later r s v e h g))
    ]

-- Archiving and restoring brings an entry back with everything but its times, its process and its
-- status, which is stopped: ports, deployment and history are as before. This does not depend on
-- whether the file could be written.
pub restore_archived-archive :
    (c : Codec) (io io' : Io) (name : String) (now later after : ℕ) (r : Registry) (s : Service)
    → IsValid r
    → lookup name r.services ≡ some s
    → s.status ≢ archived
    → s.status ≢ running
    → lookup name (restore_archived c io' name after (archive c io name now later r).0).0.services
      ≡ some (restored_entry after s)
unfolding restore_archived
restore_archived-archive c io io' name now later after r s v e h g =
    let w : IsValid (archive c io name now later r).0 =
      unfold step in step-IsValid c io (archives name now later) r tt v in
    let d = found-IsEntry r name s v e in
    edit_ok c io' name _ (archive c io name now later r).0 (archived_entry now later s)
      (restored_entry after s) w (archive_found c io name now later r s v e h g)
      (unfold restore_archived_edit in refl)
      (record {
        draft = record {
          named = d.draft.named;
          bound = d.draft.bound;
          remembered = d.draft.remembered;
        };
        stable = d.stable;
        internal = d.internal;
      })

save_tombstones : (c : Codec) (io : Io) (r : Registry) → (save c io r).0.tombstones ≡ r.tombstones
unfolding save sync_all
save_tombstones c io r = ground arith

abbrev pub tombstone_of : String → ℕ → Service → Tombstone
tombstone_of name now s = record {
  name = name;
  archived_at = s.archived_at;
  pruned_at = now;
  stable_ports = s.stable_ports;
}

-- How `Prune` ends for the entry `s`.
abbrev pub IsPruned : String → ℕ → Registry → Service → Outcome Tombstone → Type 0
IsPruned name now r s o =
    ((s.status ≡ archived)
      × (lookup name o.0.services ≡ none)
      × (lookup name o.0.tombstones ≡ some (tombstone_of name now s)))
    ⊎ ((s.status ≢ archived) × (o ≡ (r, err (not_archived_to_prune name))))

-- Pruning: only an archived entry is removed, and a tombstone under its name keeps its ports; any
-- other is refused and nothing changes.
pub prune_lem :
    (c : Codec) (io : Io) (name : String) (now : ℕ) (r : Registry) (s : Service)
    → lookup name r.services ≡ some s
    → IsPruned name now r s (prune c io name now r)
unfolding prune
prune_lem c io name now r s e =
    rw (e, prune)
      (elim (Bool-cases (status_beq s.status archived)) [
        | inl q ↦ rw q (
            inl (
              (status_beq_iff s.status archived).0 q,
              lookup-save c io _ name ∙ rw (lookup-delete_self name r.services),
              rw (save_tombstones c io _)
                  (lookup-insert_self name (tombstone_of name now s) r.tombstones),
            ))
        | inr q ↦ rw q (inr (λ h. cc (q, (status_beq_iff s.status archived).1 h), refl))
      ])
