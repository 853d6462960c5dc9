-- ===== src/Registry/Methods.antt =====
-- internal/registry/registry.go: the methods of the registry. A method runs whole under the
-- registry's lock, so it is one function from the registry to the registry and the result. `c` is
-- encoding/json, `io` says how the file operations of the method's `save` end, and the clock's
-- readings are arguments.
use anito.Prelude.{
  ℕ, String, Bool, true, Option, none, some, List, [], ◌∷◌, ◌&&◌, ◌==◌, ℕ_comparable,
  text_comparable, if◌then◌else◌,
}
use anito.Assoc.{lookup, insert, delete}
use anito.Registry.Types.{
  Ports, Service, Tombstone, StartEvent, ServiceStatus, archived, ExitCode, status_beq,
}
use anito.Registry.Ports.{sync_singular_from_map}
use anito.Registry.Edits.{
  registered, archive_edit, restore_archived_edit, push_event, complete_start_edit,
  process_started_edit, mark_running_edit, record_start_edit, internal_ports_edit,
}
use anito.Registry.Store.{
  Codec, Io, Registry, Outcome, Result, ok, err, not_found, nil_service, not_archived_to_prune,
  save, save_and,
}

abbrev pub put : String → Service → Registry → Registry
put k s r = record r { services = insert k s r.services }

unfoldable pub get : String → Registry → Option Service
get name r = lookup name r.services

unfoldable pub active_from : List (String × Service) → List Service
active_from [] = []
active_from ((k, s) ∷ m) =
    let rest = active_from m in if status_beq s.status archived then rest else s ∷ rest

-- `All`, in the iteration order of the map.
unfoldable pub all_active : Registry → List Service
unfolding active_from
all_active r = active_from r.services

services_of : List (String × Service) → List Service
services_of [] = []
services_of ((k, s) ∷ m) = s ∷ services_of m

unfoldable pub all_including_archived : Registry → List Service
unfolding services_of
all_including_archived r = services_of r.services

unfoldable pub register : Codec → Io → ℕ → ℕ → Service → Registry → Outcome (Unit {0})
register c io now later s r =
    save c io (put s.name (registered now later (lookup s.name r.services) s) r)

unfoldable pub restore : Codec → Io → Option Service → Registry → Outcome (Unit {0})
restore c io none r = (r, err nil_service)
restore c io (some s) r = save c io (put s.name s r)

unfoldable pub save_edit : Codec → Io → String → Registry → Result Service → Outcome Service
save_edit c io name r (err e) = (r, err e)
save_edit c io name r (ok s) = save_and c io (put name s r) (sync_singular_from_map s)

edit_found :
    Codec → Io → String → (Service → Result Service) → Registry → Option Service → Outcome Service
unfolding save_edit
edit_found c io name f r none = (r, err (not_found name))
edit_found c io name f r (some s) = save_edit c io name r (f s)

-- What most methods share: find the entry, change it or refuse, and save. `save` also brings the
-- entry's singular ports in line, which a returned entry shows.
unfoldable pub edit : Codec → Io → String → (Service → Result Service) → Registry → Outcome Service
unfolding edit_found
edit c io name f r = edit_found c io name f r (lookup name r.services)

abbrev pub without_value {ℓ} : {A : Type ℓ} → Outcome A → Outcome (Unit {0})
without_value (r, ok a) = (r, ok tt)
without_value (r, err e) = (r, err e)

module _ (c : Codec) (io : Io) where
  unfoldable pub archive : String → ℕ → ℕ → Registry → Outcome Service
  archive name now later = edit c io name (archive_edit name now later)

  unfoldable pub restore_archived : String → ℕ → Registry → Outcome Service
  restore_archived name now = edit c io name (restore_archived_edit name now)

  unfoldable pub update_last_deployed : String → ℕ → ℕ → Registry → Outcome (Unit {0})
  update_last_deployed name t now r =
      without_value
        (edit c io name (λ s. ok (record s { last_deployed_at = t; updated_at = now })) r)

  unfoldable pub update_start_history : String → StartEvent → ℕ → Registry → Outcome (Unit {0})
  update_start_history name e now r = without_value (
      edit c io name
        (λ s. ok (record s { start_history = push_event e s.start_history; updated_at = now })) r)

  unfoldable pub update_process_started : String → Ports → ℕ → ℕ → Registry → Outcome (Unit {0})
  update_process_started name ports t now r =
      without_value (edit c io name (λ s. ok (process_started_edit ports t now s)) r)

  unfoldable pub mark_running : String → ℕ → ℕ → ℕ → Registry → Outcome (Unit {0})
  mark_running name pid deployed now r =
      without_value (edit c io name (λ s. ok (mark_running_edit pid deployed now s)) r)

  unfoldable pub record_start : String → ℕ → ℕ → Registry → Outcome (Unit {0})
  record_start name t now r = without_value (edit c io name (λ s. ok (record_start_edit t now s)) r)

  unfoldable pub complete_start : String → ℕ → ExitCode → ℕ → ℕ → Registry → Outcome (Unit {0})
  complete_start name t exit d now r =
      without_value (edit c io name (complete_start_edit name t exit d now) r)

  unfoldable pub update_last_started : String → ℕ → ℕ → Registry → Outcome (Unit {0})
  update_last_started name t now r =
      without_value
        (edit c io name (λ s. ok (record s { last_started_at = t; updated_at = now })) r)

  unfoldable pub update_crash_state : String → ℕ → Bool → ℕ → Registry → Outcome (Unit {0})
  update_crash_state name attempts gave_up now r = without_value (
      edit c io name
        (λ s. ok (record s { crash_attempts = attempts; gave_up = gave_up; updated_at = now })) r)

  unfoldable pub update_internal_ports : String → Ports → ℕ → Registry → Outcome (Unit {0})
  update_internal_ports name ports now r =
      without_value (edit c io name (λ s. ok (internal_ports_edit ports now s)) r)

  unfoldable pub update_status_of :
      String → ServiceStatus → ℕ → ℕ → Registry → Option Service → Outcome (Unit {0})
  update_status_of name status pid now r none = (r, err (not_found name))
  update_status_of name status pid now r (some s) =
      if status_beq s.status status && s.pid == pid
      then (r, ok tt)
      else save c io (put name (record s { status = status; pid = pid; updated_at = now }) r)

  -- An update that changes nothing is not saved.
  unfoldable pub update_status : String → ServiceStatus → ℕ → ℕ → Registry → Outcome (Unit {0})
  unfolding update_status_of
  update_status name status pid now r =
      update_status_of name status pid now r (lookup name r.services)

  unfoldable pub prune_found : String → ℕ → Registry → Option Service → Outcome Tombstone
  prune_found name now r none = (r, err (not_found name))
  prune_found name now r (some s) =
      let tomb : Tombstone = record {
        name = name;
        archived_at = s.archived_at;
        pruned_at = now;
        stable_ports = s.stable_ports;
      } in
      if status_beq s.status archived
      then save_and c io
          (record r {
            services = delete name r.services;
            tombstones = insert name tomb r.tombstones;
          })
          tomb
      else (r, err (not_archived_to_prune name))

  unfoldable pub prune : String → ℕ → Registry → Outcome Tombstone
  unfolding prune_found
  prune name now r = prune_found name now r (lookup name r.services)

  unfoldable pub remove : String → Registry → Outcome (Unit {0})
  remove name r = save c io (record r { services = delete name r.services })

abbrev pub add_port : ℕ → List (ℕ × Bool) → List (ℕ × Bool)
add_port p used = if p == 0 then used else insert p true used

unfoldable pub add_ports : Ports → List (ℕ × Bool) → List (ℕ × Bool)
add_ports [] used = used
add_ports ((n, p) ∷ ports) used = add_ports ports (add_port p used)

unfoldable pub used_from : List (String × Service) → List (ℕ × Bool) → List (ℕ × Bool)
unfolding add_ports
used_from [] used = used
used_from ((k, s) ∷ m) used = used_from m (add_port s.stable_port (add_ports s.stable_ports used))

-- `map[int]bool`, the stable ports of every entry, archived ones included.
unfoldable pub used_ports : Registry → List (ℕ × Bool)
unfolding used_from
used_ports r = used_from r.services []
