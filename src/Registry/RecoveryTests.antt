-- ===== src/Registry/RecoveryTests.antt =====
-- A history of calls of which the first writes the file and the others fail to.
use anito.Prelude.{
  ◌≡◌, refl, ap, some, List, [], ◌∷◌, text_comparable, inl, inr, Option-cases, All, ◌∙◌,
  ℕ_comparable,
}
use anito.Assoc.{insert}
use anito.Registry.Invariant.{IsValid, IsAllowed, Writes, kept, saved, step-Writes, step-IsValid}
use anito.Registry.Calls.{
  Call, restores, starts, marks_running, sets_status, archives, prunes, step, run,
}
use anito.Registry.Store.{Result, save, file, write_file, sync_all}
use anito.Registry.Methods.{restore}
use anito.Registry.Recovery.{Reloads, run-recovers}
use anito.Registry.Types.{stopped}
use anito.Registry.Store.{Codec, Io, written, no_write, no_rename, Registry}
use anito.Registry.Tests.{api, home, codec, home-IsValid, home_saved, api-IsDraft}

-- The first call writes the file; what the later calls write is lost.
abbrev lost_calls : List (Call × Io)
lost_calls =
    (starts "api" (("ws", 50200) ∷ []) 20 20, no_write)
    ∷ (marks_running "api" 4242 20 20, no_rename)
    ∷ (sets_status "api" stopped 0 21, no_write)
    ∷ (archives "api" 22 22, no_rename)
    ∷ (prunes "api" 23, no_write)
    ∷ []

abbrev morning : List (Call × Io)
morning = (restores (some api), written) ∷ lost_calls

IsLost : Io → Type 0
IsLost written = ⊥
IsLost no_write = Unit
IsLost no_rename = Unit

save-disk : (c : Codec) (io : Io) (r : Registry) → IsLost io → (save c io r).0.disk ≡ r.disk
unfolding save sync_all write_file IsLost
save-disk c written r l = absurd l
save-disk c no_write r l = elim (Option-cases (c.encode (file (sync_all r)))) [
  | inl e ↦ rw (e, save) refl
  | inr (text, e) ↦ rw (e, save) refl
]
save-disk c no_rename r l = elim (Option-cases (c.encode (file (sync_all r)))) [
  | inl e ↦ rw (e, save) refl
  | inr (text, e) ↦ rw (e, save) refl
]

step-disk :
    (c : Codec) (io : Io) (call : Call) (r : Registry)
    → IsAllowed call
    → IsValid r
    → IsLost io
    → (step c io call r).disk ≡ r.disk
step-disk c io call r a v l = by (step-Writes c io call r a v)
  where
    by : {o : Registry} → Writes c io r o → o.disk ≡ r.disk
    by kept = refl
    by (saved w p e) = save-disk c io w l ∙ e

run-disk :
    (c : Codec) (calls : List (Call × Io)) (r : Registry)
    → All (λ call. IsAllowed call.0) calls
    → All (λ call. IsLost call.1) calls
    → IsValid r
    → (run c r calls).disk ≡ r.disk
unfolding run
run-disk c [] r a l v = refl
run-disk c ((call, io) ∷ calls) r a l v =
    run-disk c calls (step c io call r) a.1 l.1 (step-IsValid c io call r a.0 v)
    ∙ step-disk c io call r a.0 v l.0

restore_is_written : (step codec written (restores (some api)) home).disk ≡ some "known"
unfolding step restore insert
restore_is_written = ap (λ (o : Registry × Result (Unit {0})). o.0.disk) home_saved

morning_is_written : (run codec home morning).disk ≡ some "known"
unfolding run IsLost
morning_is_written =
    run-disk codec lost_calls (step codec written (restores (some api)) home)
      (tt, (tt, (tt, (tt, (tt, tt))))) (tt, (tt, (tt, (tt, (tt, tt)))))
      (step-IsValid codec written (restores (some api)) home api-IsDraft home-IsValid)
    ∙ restore_is_written

run-recovers_example : IsValid (run codec home morning) × Reloads codec (run codec home morning)
run-recovers_example =
    run-recovers codec home morning (api-IsDraft, (tt, (tt, (tt, (tt, (tt, tt)))))) home-IsValid
      (λ text e. cc)
