-- ===== src/Registry/Drafts.antt =====
-- What an edit of one entry keeps: its name, an address to bind, and at most ten starts.
use anito.Prelude.{
  ℕ, ◌≤◌, ◌-◌, String, ◌≡◌, refl, ◌≢◌, Option, none, some, List, [], ◌∷◌, ◌++◌, inl, inr, arith,
  length, length-drop, text_comparable, Option-cases,
}
use text.Mathlib.TextEquality.{eq_iff}
use anito.Registry.Types.{Ports, Service, StartEvent, ExitCode}
use anito.Registry.Ports.{
  pick_port, sync_singular_from_map, normalize_ports, upgrade_ports, bind_or_default,
  primary_stable_port, primary_internal_port,
}
use anito.Registry.Edits.{
  registered, carry_over, archive_edit, restore_archived_edit, history_limit, push_event,
  complete_newest, complete_start_edit, process_started_edit, mark_running_edit, record_start_edit,
  internal_ports_edit,
}
use anito.Registry.Store.{Result, ok, err}

-- An entry as a method may leave it before the save: it stands under its own name, has an address to
-- bind, and remembers ten starts at most.
pub record IsDraft (k : String) (s : Service) : Type 0 where
  pub named : s.name ≡ k
  pub bound : s.proxy_bind_address ≢ ""
  pub remembered : length s.start_history ≤ history_limit

-- An entry between two calls: its singular ports are those that its maps give.
pub record IsEntry (k : String) (s : Service) : Type 0 where
  pub draft : IsDraft k s
  pub stable : s.stable_port ≡ pick_port s.stable_ports s.health_check_port
  pub internal : s.internal_port ≡ pick_port s.internal_ports s.health_check_port

pub sync-IsEntry : (k : String) (s : Service) → IsDraft k s → IsEntry k (sync_singular_from_map s)
unfolding sync_singular_from_map primary_stable_port primary_internal_port
sync-IsEntry k s d = record {
  draft = record { named = d.named; bound = d.bound; remembered = d.remembered };
  stable = refl;
  internal = refl;
}

pub length-push_event :
    (e : StartEvent) (h : List StartEvent) → length (push_event e h) ≤ history_limit
unfolding push_event
length-push_event e h =
    ground (arith, length-drop (length (h ++ e ∷ []) - history_limit) (h ++ e ∷ []))

length-complete_newest :
    (t : ℕ) (exit : ExitCode) (d : ℕ) (h h' : List StartEvent)
    → complete_newest t exit d h ≡ some h'
    → length h' ≡ length h
unfolding complete_newest
length-complete_newest t exit d [] h' q = cc
length-complete_newest t exit d (e ∷ es) h' q = elim (Option-cases (complete_newest t exit d es)) [
  | inl p ↦ ground (arith, p)
  | inr (es', p) ↦ ground (arith, p, length-complete_newest t exit d es es' p)
]

abbrev pub OnOk {ℓ} : {A : Type ℓ} → (A → Type 0) → Result A → Type 0
OnOk P (ok a) = P a
OnOk P (err e) = Unit

-- What an edit of the entry `k` may do.
abbrev pub KeepsDraft : String → (Service → Result Service) → Type 0
KeepsDraft k f = (s : Service) → IsDraft k s → OnOk (IsDraft k) (f s)

-- An edit that leaves the name, the address and the history alone.
module _ (k : String) (s s' : Service) (d : IsDraft k s) where
  pub IsDraft-same :
      s'.name ≡ s.name
      → s'.proxy_bind_address ≡ s.proxy_bind_address
      → length s'.start_history ≤ history_limit
      → IsDraft k s'
  IsDraft-same n b h = record { named = rw n d.named; bound = rw b d.bound; remembered = h }

pub archive-KeepsDraft :
    (k name : String) (now later : ℕ) → KeepsDraft k (archive_edit name now later)
unfolding archive_edit
archive-KeepsDraft k name now later s d = ground arith

pub restore_archived-KeepsDraft :
    (k name : String) (now : ℕ) → KeepsDraft k (restore_archived_edit name now)
unfolding restore_archived_edit
restore_archived-KeepsDraft k name now s d = ground arith

pub complete_start-KeepsDraft :
    (k name : String) (t : ℕ) (exit : ExitCode) (d now : ℕ)
    → KeepsDraft k (complete_start_edit name t exit d now)
unfolding complete_start_edit
complete_start-KeepsDraft k name t exit d now s h =
    elim (Option-cases (complete_newest t exit d s.start_history)) [
      | inl p ↦ rw (p, complete_start_edit) tt
      | inr (es, p) ↦
          rw (p, complete_start_edit)
            (IsDraft-same k s _ h refl refl
              (omega (arith, h.remembered, length-complete_newest t exit d _ es p)))
    ]

pub process_started-KeepsDraft :
    (k : String) (ports : Ports) (t now : ℕ)
    → KeepsDraft k (λ s. ok (process_started_edit ports t now s))
unfolding process_started_edit sync_singular_from_map
process_started-KeepsDraft k ports t now s d =
    IsDraft-same k s _ d refl refl (length-push_event _ s.start_history)

pub mark_running-KeepsDraft :
    (k : String) (pid t now : ℕ) → KeepsDraft k (λ s. ok (mark_running_edit pid t now s))
unfolding mark_running_edit
mark_running-KeepsDraft k pid t now s d = IsDraft-same k s _ d refl refl d.remembered

pub record_start-KeepsDraft :
    (k : String) (t now : ℕ) → KeepsDraft k (λ s. ok (record_start_edit t now s))
unfolding record_start_edit
record_start-KeepsDraft k t now s d =
    IsDraft-same k s _ d refl refl (length-push_event _ s.start_history)

pub internal_ports-KeepsDraft :
    (k : String) (ports : Ports) (now : ℕ)
    → KeepsDraft k (λ s. ok (internal_ports_edit ports now s))
unfolding internal_ports_edit sync_singular_from_map
internal_ports-KeepsDraft k ports now s d = IsDraft-same k s _ d refl refl d.remembered

bind_or_default-ne : (a : String) → bind_or_default a ≢ ""
bind_or_default-ne a = ground (arith, eq_iff a "", eq_iff "localhost" "")

normalize-IsDraft :
    (s : Service) → length s.start_history ≤ history_limit → IsDraft s.name (normalize_ports s)
unfolding normalize_ports sync_singular_from_map upgrade_ports
normalize-IsDraft s h = record {
  named = refl;
  bound = bind_or_default-ne s.proxy_bind_address;
  remembered = h;
}

-- The entry that `Register` writes.
pub registered-IsDraft :
    (now later : ℕ) (found : Option Service) (s : Service)
    → length s.start_history ≤ history_limit
    → ((e : Service) → found ≡ some e → length e.start_history ≤ history_limit)
    → IsDraft s.name (registered now later found s)
unfolding registered
registered-IsDraft now later none s h g =
    let d = normalize-IsDraft (record s { deployed_at = now }) h in
    record { named = d.named; bound = d.bound; remembered = d.remembered }
registered-IsDraft now later (some e) s h g =
    let d = normalize-IsDraft (carry_over e s) (g e refl) in
    record { named = d.named; bound = d.bound; remembered = d.remembered }
