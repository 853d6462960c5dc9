-- ===== src/Sessions/Bounds.antt =====
-- The invariant of the store, over any history of its methods and of restarts of the daemon.
use anito.Prelude.{
  ℕ, String, ◌≡◌, refl, inl, inr, Bool, true, false, Option, none, some, [], ◌∷◌, Bool-cases,
  Option-cases, length, arith, ◌≤◌, ◌||◌, ◌==◌, text_comparable, ℕ_comparable, leb, suc, ap,
  if_both, if◌then◌else◌, ◌+◌,
}
use anito.Assoc.{lookup, insert}
use anito.Assoc.Keys.{insert-IsUnique}
use anito.Assoc.Entries.{Entries-insert, Entries-lookup}
use anito.Sessions.Store.{
  Session, Sessions, Codec, Store, World, Write, written, unwritten, torn, Outcome, ok, err, create,
  touch, list, save, load, load_cached, loaded_with, once_loaded, put, touched, new_session,
  seen_again, is_new, prune_oldest, max_tracked_sessions, touch_save_interval, write_file,
  sessions_in,
}
use anito.Sessions.Keyed.{IsKeyed}
use anito.Sessions.Prune.{prune_oldest-IsKeyed, length-prune_oldest}

abbrev pub IsSmall : Sessions → Type 0
IsSmall m = IsKeyed m × (length m ≤ 500)

-- What the methods keep: the sessions in memory, and those that the file decodes to.
abbrev pub IsValid : Codec → Store → Type 0
IsValid c s =
    IsSmall s.sessions
    × ((text : String) (m : Sessions) → s.disk ≡ some text → c.decode text ≡ some m → IsSmall m)

-- Where a write fails midway, what it leaves is no JSON.
abbrev pub IsCut : Codec → Write → Type 0
IsCut c (torn text) = c.decode text ≡ none
IsCut c _ = Unit

-- Of the sessions before a save, all that counts is their keys.
abbrev IsReady : Codec → Store → Type 0
IsReady c s =
    IsKeyed s.sessions
    × ((text : String) (m : Sessions) → s.disk ≡ some text → c.decode text ≡ some m → IsSmall m)

abbrev pub pruned : Sessions → Sessions
pruned m = (prune_oldest m max_tracked_sessions).0

pub pruned-IsSmall : (m : Sessions) → IsKeyed m → IsSmall (pruned m)
unfolding max_tracked_sessions
pruned-IsSmall m v =
    (prune_oldest-IsKeyed m 500 v (omega arith), length-prune_oldest m 500 v (omega arith))

module _ (c : Codec) (w : World) (h : IsCut c w.write) where
  write_file-IsValid :
      (text : String) (s : Store)
      → IsValid c s
      → c.encode s.sessions ≡ some text
      → IsValid c (write_file w text s).0
  unfolding write_file
  write_file-IsValid text s v e = wrote w.write h
    where
      wrote : (o : Write) → IsCut c o → IsValid c (write_file (record w { write = o }) text s).0
      wrote written k = (v.0, λ t m p q. same t m (cc p) q)
        where
          same : (t : String) (m : Sessions) → text ≡ t → c.decode t ≡ some m → IsSmall m
          same t m p q =
              let d = c.decode-encode s.sessions text e in
              let eq : s.sessions ≡ m = cc (d, p, q) in rw (← eq) v.0
      wrote unwritten k = v
      wrote (torn left) k = (v.0, λ t m p q. cc (k, p, q))

  pub save-IsValid : (s : Store) → IsReady c s → IsValid c (save c w s).0
  unfolding save
  save-IsValid s v =
      let small = pruned-IsSmall s.sessions v.0 in
      elim (Option-cases (c.encode (pruned s.sessions))) [
        | inl e ↦ rw (save, e) (small, v.1)
        | inr (text, e) ↦
            rw (save, e)
              (write_file-IsValid text (record s { sessions = pruned s.sessions }) (small, v.1) e)
      ]

sessions_in-IsSmall :
    (c : Codec) (o : Option Sessions)
    → ((m : Sessions) → o ≡ some m → IsSmall m)
    → IsSmall (sessions_in o)
unfolding sessions_in
sessions_in-IsSmall c none f = ((tt, tt), omega arith)
sessions_in-IsSmall c (some m) f = f m refl

module _ (c : Codec) (w : World) where
  pub load_cached-IsValid : (s : Store) → IsValid c s → IsValid c (load_cached c w s).0
  unfolding load_cached loaded_with load
  load_cached-IsValid s v =
      if_both (λ (o : Outcome (Unit {0})). IsValid c o.0) s.loaded _ _ (λ e. v)
        (λ e. read s.disk v.1)
    where
      read :
          (disk : Option String)
          → ((text : String) (m : Sessions) → disk ≡ some text → c.decode text ≡ some m → IsSmall m)
          → IsValid c (loaded_with w s (load c w disk)).0
      read none f = (((tt, tt), omega arith), v.1)
      read (some text) f = elim (Bool-cases w.readable) [
        | inl e ↦ rw (load, e) (sessions_in-IsSmall c (c.decode text) (λ m. f text m refl), v.1)
        | inr e ↦ rw (load, e) v
      ]

pub once_loaded-IsValid {ℓ} :
    {A : Type ℓ} (c : Codec) (o : Outcome (Unit {0})) (rest : Store → Outcome A)
    → IsValid c o.0
    → ((s : Store) → IsValid c s → IsValid c (rest s).0)
    → IsValid c (once_loaded o rest).0
unfolding once_loaded
once_loaded-IsValid c (s, ok u) rest v f = f s v
once_loaded-IsValid c (s, err e) rest v f = v

put-IsReady :
    (c : Codec) (id : String) (sess : Session) (s : Store)
    → sess.id ≡ id
    → IsValid c s
    → IsReady c (put id sess s)
put-IsReady c id sess s e ((k, l), d) = (
  (
    insert-IsUnique id sess s.sessions k.0,
    Entries-insert (λ i t. t.id ≡ i) id sess s.sessions e k.1,
  ),
  d,
)

touched-id :
    (id tool : String) (now : ℕ) (m : Sessions)
    → IsKeyed m
    → (touched id tool now (lookup id m)).id ≡ id
unfolding touched seen_again new_session
touched-id id tool now m k = elim (Option-cases (lookup id m)) [
  | inl e ↦ rw e refl
  | inr (sess, e) ↦ rw e (known sess e)
]
  where
    known : (sess : Session) → lookup id m ≡ some sess → (touched id tool now (some sess)).id ≡ id
    known sess e = elim (Bool-cases (sess.id == "")) [
      | inl p ↦ rw p refl
      | inr p ↦ rw p (Entries-lookup (λ i t. t.id ≡ i) m id sess k.1 e)
    ]

length-insert :
    (k : String) (x y : Session) (m : Sessions)
    → lookup k m ≡ some x
    → length (insert k y m) ≡ length m
unfolding lookup insert
length-insert k x y [] e = cc
length-insert k x y ((j, z) ∷ m) e = elim (Bool-cases (j == k)) [
  | inl p ↦ rw p refl
  | inr p ↦ rw p (ap suc (length-insert k x y m (rw p at e)))
]

or_false : (a b : Bool) → (a || b) ≡ false → a ≡ false
or_false true b e = cc
or_false false b e = refl

module _ (c : Codec) (w : World) (h : IsCut c w.write) where
  pub create-IsValid : (id : String) (s : Store) → IsValid c s → IsValid c (create c w id s).0
  unfolding create
  create-IsValid id s v =
      once_loaded-IsValid c (load_cached c w s) (λ s'. save c w (put id (new_session id w.now) s'))
        (load_cached-IsValid c w s v)
        (λ s' v'.
          save-IsValid c w h (put id (new_session id w.now) s')
            (put-IsReady c id (new_session id w.now) s' (unfold new_session in refl) v'))

  -- A session that is touched again is written in its place.
  pub touch-IsValid :
      (id tool : String) (s : Store) → IsValid c s → IsValid c (touch c w id tool s).0
  unfolding touch is_new
  touch-IsValid id tool s v =
      once_loaded-IsValid c (load_cached c w s) _ (load_cached-IsValid c w s v) seen
    where
      after : Store → Store
      after s' = put id (touched id tool w.now (lookup id s'.sessions)) s'

      ready : (s' : Store) → IsValid c s' → IsReady c (after s')
      ready s' v' = put-IsReady c id _ s' (touched-id id tool w.now s'.sessions v'.0.0) v'

      known :
          (s' : Store)
          → IsValid c s'
          → is_new (lookup id s'.sessions) ≡ false
          → IsValid c (after s')
      known s' v' n = elim (Option-cases (lookup id s'.sessions)) [
        | inl e ↦ cc (rw e at n)
        | inr (sess, e) ↦
            let k =
              length-insert id sess (touched id tool w.now (lookup id s'.sessions)) s'.sessions e in
            let b = v'.0.1 in (((ready s' v').0, omega arith), v'.1)
      ]

      seen :
          (s' : Store)
          → IsValid c s'
          → IsValid c
              (if is_new (lookup id s'.sessions) || leb (s'.last_save + touch_save_interval) w.now
                then save c w (after s')
                else (after s', ok tt)).0
      seen s' v' =
          elim (Bool-cases
            (is_new (lookup id s'.sessions) || leb (s'.last_save + touch_save_interval) w.now)) [
              | inl e ↦ rw e (save-IsValid c w h (after s') (ready s' v'))
              | inr e ↦ rw e (known s' v' (or_false _ _ e))
            ]

  pub list-IsValid : (s : Store) → IsValid c s → IsValid c (list c w s).0
  unfolding list
  list-IsValid s v =
      once_loaded-IsValid c (load_cached c w s) _ (load_cached-IsValid c w s v) (λ s' v'. v')
