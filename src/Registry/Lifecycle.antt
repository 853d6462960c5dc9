-- ===== src/Registry/Lifecycle.antt =====
-- The life of an entry: deploy, redeploy and roll back, start and exit, archive, restore and prune.
use anito.Prelude.{
  ℕ, ◌≤◌, String, ◌≡◌, refl, sym, ap, ◌∙◌, ◌≢◌, ◌&&◌, Option, none, some, inl, inr, Bool-cases,
  ◌==◌, text_comparable, ℕ_comparable, ==_refl, ==_of_ne, if◌then◌else◌, List, [], ◌∷◌, not, length,
}
use text.Mathlib.TextEquality.{eq_iff}
use anito.Assoc.Entries.{Entries-lookup}
use anito.Assoc.{lookup}
use anito.Registry.Types.{Service, Ports, DeploymentSnapshot}
use anito.Registry.Ports.{
  pick_port, is_empty, sync_singular_from_map, normalize_ports, upgrade_ports, primary_stable_port,
  primary_internal_port,
}
use anito.Registry.Edits.{history_limit, registered, snapshot, previous_or}
use anito.Registry.Store.{Codec, Io, Registry}
use anito.Registry.Methods.{register, restore}
use anito.Registry.Drafts.{IsEntry}
use anito.Registry.Invariant.{IsValid, step-IsValid}
use anito.Registry.Calls.{registers, step}
use anito.Registry.Saved.{lookup-save-put, sync_id, upgraded_id}

-- The deployment to go back to: the one that is given, or the one that is replaced.
abbrev pub or_snapshot : Service → Option DeploymentSnapshot → DeploymentSnapshot
or_snapshot existing none = snapshot existing
or_snapshot existing (some p) = p

-- What a redeploy of `s` over `existing` leaves in the registry.
pub record IsRedeploy (later : ℕ) (existing s t : Service) : Type 0 where
  pub stable_ports : t.stable_ports ≡ existing.stable_ports
  pub stable_port : t.stable_port ≡ pick_port existing.stable_ports s.health_check_port
  pub internal_ports : t.internal_ports ≡ existing.internal_ports
  pub internal_port : t.internal_port ≡ pick_port existing.internal_ports s.health_check_port
  pub address :
      t.proxy_bind_address
      ≡ (if s.proxy_bind_address == "" then existing.proxy_bind_address else s.proxy_bind_address)
  pub status : t.status ≡ existing.status
  pub pid : t.pid ≡ existing.pid
  pub last_started_at : t.last_started_at ≡ existing.last_started_at
  pub history : t.start_history ≡ existing.start_history
  pub crash_attempts : t.crash_attempts ≡ existing.crash_attempts
  pub gave_up : t.gave_up ≡ existing.gave_up
  pub last_deployed_at : t.last_deployed_at ≡ existing.last_deployed_at
  pub deployed_at : t.deployed_at ≡ existing.deployed_at
  pub binary_path : t.binary_path ≡ s.binary_path
  pub version : t.version ≡ s.version
  pub service_type : t.service_type ≡ s.service_type
  pub config_path : t.config_path ≡ s.config_path
  pub args : t.args ≡ s.args
  pub env_file : t.env_file ≡ s.env_file
  pub health_check : t.health_check ≡ s.health_check
  pub health_check_port : t.health_check_port ≡ s.health_check_port
  pub watch_paths : t.watch_paths ≡ s.watch_paths
  pub drain_window : t.drain_window ≡ s.drain_window
  pub health_check_timeout : t.health_check_timeout ≡ s.health_check_timeout
  pub restart_policy : t.restart_policy ≡ s.restart_policy
  pub updated_at : t.updated_at ≡ later
  pub previous : t.previous_deployment ≡ some (or_snapshot existing s.previous_deployment)

-- The stable ports of a redeploy: those of the entry, wherever it has some.
kept_ports :
    (k : String) (p : ℕ) (es ports new : Ports) (port : ℕ)
    → es ≡ (k, p) ∷ ports
    → (let kept = if is_empty es then new else es in
        if is_empty kept && not (port == 0) then ("default", port) ∷ [] else kept)
      ≡ es
kept_ports k p es ports new port e = rw e

redeployed :
    (now later : ℕ) (existing s : Service) (k : String) (p : ℕ) (ports : Ports)
    → existing.stable_ports ≡ (k, p) ∷ ports
    → IsEntry s.name existing
    → IsRedeploy later existing s (sync_singular_from_map (registered now later (some existing) s))
unfolding registered normalize_ports sync_singular_from_map upgrade_ports primary_stable_port
    primary_internal_port
redeployed now later existing s k p ports e v =
    let kept = kept_ports k p existing.stable_ports ports s.stable_ports existing.stable_port e in
    let internals =
      upgraded_id existing.internal_ports existing.internal_port existing.health_check_port
        v.internal in
    record {
      stable_ports = kept;
      stable_port = ap (λ m. pick_port m s.health_check_port) kept;
      internal_ports = internals;
      internal_port = ap (λ m. pick_port m s.health_check_port) internals;
      address = elim (Bool-cases (s.proxy_bind_address == "")) [
        | inl q ↦ rw (q, ==_of_ne existing.proxy_bind_address "" v.draft.bound) refl
        | inr q ↦ rw (q, q) refl
      ];
      status = refl;
      pid = refl;
      last_started_at = refl;
      history = refl;
      crash_attempts = refl;
      gave_up = refl;
      last_deployed_at = refl;
      deployed_at = refl;
      binary_path = refl;
      version = refl;
      service_type = refl;
      config_path = refl;
      args = refl;
      env_file = refl;
      health_check = refl;
      health_check_port = refl;
      watch_paths = refl;
      drain_window = refl;
      health_check_timeout = refl;
      restart_policy = refl;
      updated_at = refl;
      previous = chosen s.previous_deployment;
    }
  where
    chosen :
        (p : Option DeploymentSnapshot)
        → some (previous_or p (snapshot existing)) ≡ some (or_snapshot existing p)
    chosen none = refl
    chosen (some p) = refl

cons-cases {ℓ} :
    {A : Type ℓ} (xs : List (String × A))
    → xs ≢ []
    → (k : String) × (a : A) × (rest : List (String × A)) × (xs ≡ (k, a) ∷ rest)
cons-cases [] h = absurd (h refl)
cons-cases ((k, a) ∷ xs) h = (k, a, xs, refl)

pub register-IsRedeploy :
    (c : Codec) (io : Io) (now later : ℕ) (existing s : Service) (r : Registry)
    → IsValid r
    → lookup s.name r.services ≡ some existing
    → existing.stable_ports ≢ []
    → (t : Service) × (lookup s.name (register c io now later s r).0.services ≡ some t)
      × IsRedeploy later existing s t
unfolding register
register-IsRedeploy c io now later existing s r v e h =
    let (k, p, ports, q) = cons-cases existing.stable_ports h in
    let entry = Entries-lookup IsEntry r.services s.name existing v.entries e in
    (
      sync_singular_from_map (registered now later (some existing) s),
      lookup-save-put c io r s.name s.name _ v ∙ rw (==_refl s.name, e),
      redeployed now later existing s k p ports q entry,
    )

-- A deployment whose candidate fails is undone: after `Register`, a `Restore` of the old entry gives
-- every name the entry that it had, whichever of the two saves fail.
pub restore-register :
    (c : Codec) (io io' : Io) (now later : ℕ) (existing s : Service) (r : Registry) (k : String)
    → IsValid r
    → length s.start_history ≤ history_limit
    → lookup s.name r.services ≡ some existing
    → lookup k (restore c io' (some existing) (register c io now later s r).0).0.services
      ≡ lookup k r.services
unfolding restore register step
restore-register c io io' now later existing s r k v h e =
    lookup-save-put c io' (register c io now later s r).0 existing.name k existing staged
    ∙ elim (Bool-cases (existing.name == k)) [
      | inl q ↦
          rw (q, sync_id s.name existing entry)
            (sym e ∙ ap (λ n. lookup n r.services) (sym named ∙ (eq_iff existing.name k).0 q))
      | inr q ↦ rw q (lookup-save-put c io r s.name k _ v ∙ rw (← named, q))
    ]
  where
    entry : IsEntry s.name existing
    entry = Entries-lookup IsEntry r.services s.name existing v.entries e

    named : existing.name ≡ s.name
    named = entry.draft.named

    staged : IsValid (register c io now later s r).0
    staged = step-IsValid c io (registers now later s) r h v
