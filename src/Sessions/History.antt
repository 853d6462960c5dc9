-- ===== src/Sessions/History.antt =====
-- Any history of the store's methods and of restarts of the daemon.
use anito.Prelude.{
  ℕ, String, ◌≡◌, refl, inl, inr, none, List, [], ◌∷◌, Bool-cases, arith, ◌==◌, text_comparable,
  ℕ_comparable, if_both, ◌+◌,
}
use anito.Assoc.{lookup}
use anito.Sessions.Store.{
  Sessions, Codec, Store, World, Outcome, ok, err, open_store, create, touch, list, cleanup, save,
  load_cached, without_stale, prune_oldest, max_tracked_sessions, counted, is_stale,
}
use anito.Sessions.Keyed.{IsKeyed}
use anito.Sessions.Bounds.{
  IsValid, IsCut, pruned, pruned-IsSmall, save-IsValid, load_cached-IsValid, once_loaded-IsValid,
  create-IsValid, touch-IsValid, list-IsValid,
}

without_stale-none :
    (now age : ℕ) (k : String) (m : Sessions)
    → lookup k m ≡ none
    → lookup k (without_stale now age m).0 ≡ none
unfolding without_stale lookup
without_stale-none now age k [] e = refl
without_stale-none now age k ((j, s) ∷ m) e = elim (Bool-cases (j == k)) [
  | inl p ↦ cc (rw p at e)
  | inr p ↦ elim (Bool-cases (is_stale now age s)) [
    | inl q ↦ rw q (without_stale-none now age k m (rw p at e))
    | inr q ↦ rw (q, p) (without_stale-none now age k m (rw p at e))
  ]
]

without_stale-IsKeyed :
    (now age : ℕ) (m : Sessions) → IsKeyed m → IsKeyed (without_stale now age m).0
unfolding without_stale
without_stale-IsKeyed now age [] v = v
without_stale-IsKeyed now age ((k, s) ∷ m) (u, e) = elim (Bool-cases (is_stale now age s)) [
  | inl q ↦ rw q (without_stale-IsKeyed now age m (u.1, e.1))
  | inr q ↦
      let (u', e') = without_stale-IsKeyed now age m (u.1, e.1) in
      rw q ((without_stale-none now age k m u.0, u'), (e.0, e'))
]

counted-store : (n : ℕ) (o : Outcome (Unit {0})) → (counted n o).0 ≡ o.0
unfolding counted
counted-store n (s, ok u) = refl
counted-store n (s, err e) = refl

module _ (c : Codec) (w : World) (h : IsCut c w.write) where
  cleanup-IsValid : (age : ℕ) (s : Store) → IsValid c s → IsValid c (cleanup c w age s).0
  unfolding cleanup
  cleanup-IsValid age s v =
      once_loaded-IsValid c (load_cached c w s) _ (load_cached-IsValid c w s v) (λ s' v'.
        let (fresh, stale) = without_stale w.now age s'.sessions in
        let kept = pruned-IsSmall fresh (without_stale-IsKeyed w.now age s'.sessions v'.0.0) in
        let s'' = record s' { sessions = pruned fresh } in
        let removed = stale + (prune_oldest fresh max_tracked_sessions).1 in
        if_both (λ (o : Outcome ℕ). IsValid c o.0) (removed == 0) (s'', ok 0)
          (counted removed (save c w s'')) (λ e. (kept, v'.1))
          (λ e. rw (counted-store removed (save c w s'')) (save-IsValid c w h s'' (kept.0, v'.1))))

-- The store's methods, and a restart of the daemon, which reads the file again.
pub data Op : Type 0 where
  creates : String → Op
  touches : String → String → Op
  lists restarts : Op
  cleans_up : ℕ → Op

unfoldable pub step : Codec → World → Op → Store → Store
step c w (creates id) s = (create c w id s).0
step c w (touches id tool) s = (touch c w id tool s).0
step c w lists s = (list c w s).0
step c w restarts s = open_store s.disk
step c w (cleans_up age) s = (cleanup c w age s).0

unfoldable pub run : Codec → List (Op × World) → Store → Store
unfolding step
run c [] s = s
run c ((op, w) ∷ ops) s = run c ops (step c w op s)

abbrev pub AreCut : Codec → List (Op × World) → Type 0
AreCut c [] = Unit
AreCut c ((op, w) ∷ ops) = IsCut c w.write × AreCut c ops

step-IsValid :
    (c : Codec) (w : World) (op : Op) (s : Store)
    → IsCut c w.write
    → IsValid c s
    → IsValid c (step c w op s)
unfolding step open_store
step-IsValid c w (creates id) s h v = create-IsValid c w h id s v
step-IsValid c w (touches id tool) s h v = touch-IsValid c w h id tool s v
step-IsValid c w lists s h v = list-IsValid c w h s v
step-IsValid c w restarts s h v = (((tt, tt), omega arith), v.1)
step-IsValid c w (cleans_up age) s h v = cleanup-IsValid c w h age s v

-- After any history of the store's methods and of restarts, with any clock and any failures of the
-- file, where a torn write leaves no JSON: the store has at most 500 sessions, each under its
-- identifier, and so has the file, if it decodes. It starts from such a store, which one without a
-- file is.
pub run-IsValid :
    (c : Codec) (ops : List (Op × World)) (s : Store)
    → AreCut c ops
    → IsValid c s
    → IsValid c (run c ops s)
unfolding run
run-IsValid c [] s h v = v
run-IsValid c ((op, w) ∷ ops) s h v =
    run-IsValid c ops (step c w op s) h.1 (step-IsValid c w op s h.0 v)
