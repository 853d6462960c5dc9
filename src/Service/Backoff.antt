-- ===== src/Service/Backoff.antt =====
-- internal/service/service.go: the crashes of one service, each with the Restart that follows.
use anito.Prelude.{
  String, ◌≡◌, ◌≢◌, refl, subst, ◌&&◌, inl, inr, true, false, Option, none, some, List, [], ◌∷◌,
  ◌==◌, text_comparable, ℕ_comparable, if◌then◌else◌, Bool, Bool-cases, All,
}
use text.Mathlib.TextEquality.{eq_iff}
use anito.Assoc.{lookup}
use anito.Registry.Invariant.{IsValid}
use anito.Process.Types.{Waiter}
use anito.Process.Manager.{tracked}
use anito.Process.Exit.{ProcessState, is_own}
use anito.Service.Startup.{StartupTracker}
use anito.Service.Crash.{Reaction}
use anito.Service.World.{Daemon, World}
use anito.Service.Deploy.{Host}
use anito.Service.Recover.{process_ends}
use anito.Service.Free.{IsCalm}
use anito.Service.Calm.{IsFirst, IsMild, process_ends-IsMild}

-- The end of a process, the world that it meets, and the one that the Restart after it meets.
pub record Exit : Type 0 where
  pub waiter : Waiter
  pub state : ProcessState
  pub world : World
  pub later : World

-- The process is the one that is tracked under the name.
abbrev pub is_current : String → Exit → Daemon → Bool
is_current name x d = x.waiter.service == name && is_own x.waiter.cmd (tracked name d.manager)

abbrev pub onto : Option Reaction → List Reaction → List Reaction
onto none rs = rs
onto (some r) rs = r ∷ rs

module _ {ℓ} {R : Type ℓ} (startup : StartupTracker R) (h : Host) where
  -- What handleCrash does at each exit of the service's process. An exit of a process that is not the
  -- tracked one at that time is none of these.
  unfoldable pub reactions : String → List Exit → Daemon → List Reaction
  reactions name [] d = []
  reactions name (x ∷ xs) d =
      let (d', reaction) = process_ends startup x.world x.later h x.waiter x.state d in
      let rest = reactions name xs (if is_current name x d then d' else d) in
      if is_current name x d then onto reaction rest else rest

  onto-All :
      (o : Option Reaction) (rs : List Reaction)
      → ((r : Reaction) → o ≡ some r → IsFirst r)
      → All IsFirst rs
      → All IsFirst (onto o rs)
  onto-All none rs f a = a
  onto-All (some r) rs f a = (f r refl, a)

  current :
      (name : String) (x : Exit) (d : Daemon)
      → is_current name x d ≡ true
      → (x.waiter.service ≡ name) × (is_own x.waiter.cmd (tracked name d.manager) ≡ true)
  current name x d e = elim (Bool-cases (x.waiter.service == name)) [
    | inl k ↦ ((eq_iff x.waiter.service name).0 k, rw k at e)
    | inr k ↦ cc (rw k at e)
  ]

  -- With no process in the table, no exit is one of the service's process.
  free_is_quiet :
      (name : String) (x : Exit) (d : Daemon)
      → lookup name d.manager.procs ≡ none
      → is_current name x d ≡ false
  unfolding tracked
  free_is_quiet name x d f = elim (Bool-cases (x.waiter.service == name)) [
    | inl k ↦ rw (k, tracked, f) refl
    | inr k ↦ rw k refl
  ]

  step-IsMild :
      (name : String) (x : Exit) (d : Daemon)
      → x.later.os.started ≢ some 0
      → IsValid d.registry
      → lookup name d.attempts ≡ none
      → is_current name x d ≡ true
      → IsMild name (process_ends startup x.world x.later h x.waiter x.state d)
  step-IsMild name x d s v n e =
      let (named, own) = current name x d e in
      subst
        (λ (k : String).
          is_own x.waiter.cmd (tracked k d.manager) ≡ true
          → lookup k d.attempts ≡ none
          → IsMild k (process_ends startup x.world x.later h x.waiter x.state d))
        named (process_ends-IsMild startup x.world x.later h s x.waiter x.state d v) own n

  calm-IsFirst :
      (name : String) (xs : List Exit) (d : Daemon)
      → All (λ (x : Exit). x.later.os.started ≢ some 0) xs
      → IsValid d.registry
      → IsCalm name d
      → All IsFirst (reactions name xs d)
  unfolding reactions
  calm-IsFirst name [] d s v c = tt
  calm-IsFirst name (x ∷ xs) d s v (inr f) =
      rw (free_is_quiet name x d f) (calm-IsFirst name xs d s.1 v (inr f))
  calm-IsFirst name (x ∷ xs) d s v (inl n) = elim (Bool-cases (is_current name x d)) [
    | inr e ↦ rw e (calm-IsFirst name xs d s.1 v (inl n))
    | inl e ↦
        let (i, c, u) = step-IsMild name x d s.0 v n e in
        let o = process_ends startup x.world x.later h x.waiter x.state d in
        rw e (onto-All o.1 (reactions name xs o.0) i (calm-IsFirst name xs o.0 s.1 u c))
  ]

  -- From a valid registry and with no crash counted, whatever exits of the tracked process of a service
  -- follow one another, each with its handleCrash and the Restart in it brought to an end, and however
  -- those restarts end: handleCrash never gives up, and whenever it restarts the service it is as the
  -- first attempt, after one second. No other operation on the service comes between.
  pub reactions-IsFirst :
      (name : String) (xs : List Exit) (d : Daemon)
      → All (λ (x : Exit). x.later.os.started ≢ some 0) xs
      → IsValid d.registry
      → lookup name d.attempts ≡ none
      → All IsFirst (reactions name xs d)
  reactions-IsFirst name xs d s v n = calm-IsFirst name xs d s v (inl n)
