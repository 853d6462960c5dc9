-- ===== src/Service/Calm.antt =====
-- The exit of the process of a service that has no counted crash, up to the end of handleCrash.
use mathlib.Core.Option.{some-injective}
use anito.Prelude.{
  ℕ, String, Bool, ℕ_comparable, ◌≡◌, refl, ap, ◌∙◌, subst, ◌≢◌, ◌⊎◌, inl, inr, true, false, not,
  Option, none, some, List, [], ◌∷◌, text_comparable, Bool-cases, Option-cases, All,
}
use anito.Assoc.{lookup, lookup-delete_self}
use anito.Assoc.Entries.{Entries-lookup}
use anito.Registry.Types.{Service, status_beq, stopped}
use anito.Registry.Ports.{is_empty}
use anito.Registry.Drafts.{IsEntry}
use anito.Registry.Calls.{Call}
use anito.Registry.Invariant.{IsValid, IsAllowed}
use anito.Process.Types.{Waiter, Manager}
use anito.Process.Manager.{tracked}
use anito.Process.Exit.{ProcessState, exit, reported, unregister, is_own, is_candidate}
use anito.Service.Names.{validate_service_name}
use anito.Service.Startup.{StartupTracker, ensure_mutable}
use anito.Service.Crash.{
  Reaction, ignores, leaves_down, gives_up, restarts, handle_crash, retry, wants_restart,
  duration_at, Crashed,
}
use anito.Service.World.{Daemon, World, tell, tell_all}
use anito.Service.Replace.{restart_locked, restart_found}
use anito.Service.Deploy.{Host, restart, because_of}
use anito.Service.Detached.{tell_all-manager}
use anito.Service.Recover.{reacted, on_crash, when_crashed, process_ends}
use anito.Service.Valid.{restart_locked-IsValid}
use anito.Service.Allowed.{tell_all-IsValid, exit-IsAllowed}
use anito.Service.Free.{IsCalm, restart_found-IsCalm}

-- Not giving up, and no restart but the first, after a second.
abbrev pub IsFirst : Reaction → Type 0
IsFirst ignores = Unit
IsFirst leaves_down = Unit
IsFirst (gives_up n) = ⊥
IsFirst (restarts n wait) = (n ≡ 1) × (wait ≡ 1000000000)

restart_locked-IsCalm :
    (w : World) (name : String) (d : Daemon)
    → w.os.started ≢ some 0
    → IsValid d.registry
    → lookup name d.manager.procs ≡ none
    → IsCalm name (restart_locked w name d).0
unfolding restart_locked
restart_locked-IsCalm w name d s v f = elim (Option-cases (lookup name d.registry.services)) [
  | inl e ↦ rw (restart_locked, e) (inr f)
  | inr (svc, e) ↦
      rw (restart_locked, e)
        (named svc (Entries-lookup IsEntry d.registry.services name svc v.entries e).draft.named)
]
  where
    named : (svc : Service) → svc.name ≡ name → IsCalm name (restart_found w name svc d).0
    named svc n =
        subst
          (λ (k : String). lookup k d.manager.procs ≡ none → IsCalm k (restart_found w k svc d).0) n
          (restart_found-IsCalm w svc s d) f

-- What one call of OnCrash comes to.
abbrev IsQuiet : String → Daemon × Reaction → Type 0
IsQuiet name (d, reaction) = IsFirst reaction × IsCalm name d × IsValid d.registry

-- What the end of a process comes to.
abbrev pub IsMild : String → Daemon × Option Reaction → Type 0
IsMild name (d, reaction) =
    ((r : Reaction) → reaction ≡ some r → IsFirst r) × IsCalm name d × IsValid d.registry

tell_all-attempts :
    (w : World) (calls : List Call) (d : Daemon) → (tell_all w calls d).attempts ≡ d.attempts
unfolding tell_all
tell_all-attempts w [] d = refl
tell_all-attempts w (call ∷ calls) d = tell_all-attempts w calls (tell w call d)

-- OnCrash is called for the service of the process, if it is called.
reported-name :
    (w : Waiter) (recorded : Option ℕ) (candidate : Bool) (exit_code d now : ℕ)
    → ((reported w recorded candidate exit_code d now).1 ≡ none)
      ⊎ ((reported w recorded candidate exit_code d now).1 ≡ some w.service)
unfolding reported
reported-name w (some r) candidate exit_code d now = inl refl
reported-name w none true exit_code d now = inl refl
reported-name w none false exit_code d now = inr refl

exit-name :
    (w : Waiter) (state : ProcessState) (d now : ℕ) (m : Manager)
    → ((exit w state d now m).2 ≡ none) ⊎ ((exit w state d now m).2 ≡ some w.service)
unfolding exit
exit-name w state d now m =
    reported-name w (lookup w.pid m.draining) (is_candidate (lookup w.proc m.heap)) _ d now

because_of-daemon : (r : Daemon × Option _) → (because_of r).0 ≡ r.0
because_of-daemon (d, none) = refl
because_of-daemon (d, some f) = refl

-- The first crash: its calls may be made on any valid registry.
handle_crash-IsFirst :
    (name : String) (o : Option Service) (w : World) (d : Daemon)
    → lookup name d.attempts ≡ none
    → All IsAllowed (handle_crash name o w.now d.attempts d.proxies).calls
      × IsFirst (handle_crash name o w.now d.attempts d.proxies).reaction
unfolding handle_crash retry duration_at
handle_crash-IsFirst name none w d n = (tt, tt)
handle_crash-IsFirst name (some svc) w d n = elim (Bool-cases (status_beq svc.status stopped)) [
  | inl e ↦ rw e (tt, tt)
  | inr e ↦ elim (Bool-cases (wants_restart svc.restart_policy (not (is_empty svc.watch_paths)))) [
    | inl k ↦ rw (e, k, n) ((tt, (tt)), (refl, refl))
    | inr k ↦ rw (e, k) (tt, tt)
  ]
]

module _ {ℓ} {R : Type ℓ} (startup : StartupTracker R) (w later : World) (h : Host)
    (s : later.os.started ≢ some 0) where
  restart-IsCalm :
      (name : String) (d : Daemon)
      → IsValid d.registry
      → lookup name d.manager.procs ≡ none
      → IsCalm name (restart startup later h name d).0
  unfolding restart
  restart-IsCalm name d v f = elim (Option-cases (ensure_mutable startup)) [
    | inr (e, g) ↦ rw g (inr f)
    | inl g ↦ elim (Option-cases (validate_service_name name)) [
      | inr (e, k) ↦ rw (g, k) (inr f)
      | inl k ↦
          rw (g, k, because_of-daemon (restart_locked later name d))
            (restart_locked-IsCalm later name d s v f)
    ]
  ]

  restart-IsValid :
      (name : String) (d : Daemon)
      → IsValid d.registry
      → IsValid (restart startup later h name d).0.registry
  unfolding restart
  restart-IsValid name d v = elim (Option-cases (ensure_mutable startup)) [
    | inr (e, g) ↦ rw g v
    | inl g ↦ elim (Option-cases (validate_service_name name)) [
      | inr (e, k) ↦ rw (g, k) v
      | inl k ↦
          rw (g, k, because_of-daemon (restart_locked later name d))
            (restart_locked-IsValid later name d v)
    ]
  ]

  after_reaction :
      (name : String) (c : Crashed) (d : Daemon)
      → IsValid d.registry
      → lookup name d.manager.procs ≡ none
      → All IsAllowed c.calls
      → IsFirst c.reaction
      → IsQuiet name (
        reacted startup w later h name c.reaction
            (tell_all w c.calls (record d { attempts = c.attempts; proxies = c.proxies })),
        c.reaction,
      )
  unfolding reacted
  after_reaction name c d v f a i =
      let both =
        by c.reaction (tell_all w c.calls (record d { attempts = c.attempts; proxies = c.proxies }))
          (tell_all-IsValid w c.calls _ a v)
          (ap (λ m. lookup name m.procs) (tell_all-manager w c.calls _) ∙ f) in
      (i, both.0, both.1)
    where
      by :
          (reaction : Reaction) (d' : Daemon)
          → IsValid d'.registry
          → lookup name d'.manager.procs ≡ none
          → IsCalm name (reacted startup w later h name reaction d')
            × IsValid (reacted startup w later h name reaction d').registry
      by ignores d' u g = (inr g, u)
      by leaves_down d' u g = (inr g, u)
      by (gives_up n) d' u g = (inr g, u)
      by (restarts n wait) d' u g = (restart-IsCalm name d' u g, restart-IsValid name d' u)

  on_crash-IsQuiet :
      (name : String) (d : Daemon)
      → IsValid d.registry
      → lookup name d.manager.procs ≡ none
      → lookup name d.attempts ≡ none
      → IsQuiet name (on_crash startup w later h name d)
  unfolding on_crash
  on_crash-IsQuiet name d v f n =
      let (a, i) = handle_crash-IsFirst name (lookup name d.registry.services) w d n in
      after_reaction name
        (handle_crash name (lookup name d.registry.services) w.now d.attempts d.proxies) d v f a i

  when_crashed-IsMild :
      (name : String) (crashed : Option String) (d : Daemon)
      → (crashed ≡ none) ⊎ (crashed ≡ some name)
      → IsValid d.registry
      → lookup name d.manager.procs ≡ none
      → lookup name d.attempts ≡ none
      → IsMild name (when_crashed startup w later h crashed d)
  unfolding when_crashed
  when_crashed-IsMild name crashed d (inl e) v f n = rw (when_crashed, e) (λ r q. cc, inr f, v)
  when_crashed-IsMild name crashed d (inr e) v f n =
      let (i, k, u) = on_crash-IsQuiet name d v f n in
      rw (when_crashed, e) (λ r q. subst IsFirst (some-injective _ _ q) i, k, u)

  pub process_ends-IsMild :
      (waiter : Waiter) (state : ProcessState) (d : Daemon)
      → IsValid d.registry
      → is_own waiter.cmd (tracked waiter.service d.manager) ≡ true
      → lookup waiter.service d.attempts ≡ none
      → IsMild waiter.service (process_ends startup w later h waiter state d)
  unfolding process_ends exit unregister
  process_ends-IsMild waiter state d v own n =
      let calls = (exit waiter state w.took w.now d.manager).1 in
      let gone : Daemon = record d { manager = unregister waiter d.manager } in
      when_crashed-IsMild waiter.service (exit waiter state w.took w.now d.manager).2
        (tell_all w calls gone) (exit-name waiter state w.took w.now d.manager)
        (tell_all-IsValid w calls gone (exit-IsAllowed waiter state w.took w.now d.manager) v)
        (ap (λ m. lookup waiter.service m.procs) (tell_all-manager w calls gone)
          ∙ rw own (lookup-delete_self waiter.service d.manager.procs))
        (ap (λ m. lookup waiter.service m) (tell_all-attempts w calls gone) ∙ n)
