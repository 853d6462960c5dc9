-- ===== src/Sessions/Store.antt =====
-- internal/sessions/sessions.go: the store, its file, and its methods. A method runs whole under the
-- store's lock, so it is one function from the store to the store and the result.
use anito.Prelude.{
  ℕ, ◌+◌, ◌-◌, ◌%◌, String, Bool, true, false, ◌||◌, Option, none, some, List, [], ◌∷◌, ltb, leb,
  ◌==◌, ℕ_comparable, text_comparable, if◌then◌else◌, length, drop, str_lt, ◌≡◌,
}
use anito.Assoc.{lookup, insert, delete}

-- Times are nanoseconds; `call_count` holds the 64 bits of the `int64`.
pub record Session : Type 0 where
  pub id : String
  pub created_at : ℕ
  pub last_seen_at : ℕ
  pub call_count : ℕ
  pub last_tool : String

abbrev pub Sessions : Type 0
Sessions = List (String × Session)

-- encoding/json.
pub record Codec : Type 0 where
  pub encode : Sessions → Option String
  pub decode : String → Option Sessions
  pub decode-encode : (m : Sessions) (text : String) → encode m ≡ some text → decode text ≡ some m

-- `disk` is what stands in sessions.json, if it is there.
pub record Store : Type 0 where
  pub sessions : Sessions
  pub loaded : Bool
  pub last_save : ℕ
  pub disk : Option String

pub data Error : Type 0 where
  read_failed marshal_failed write_failed : Error

pub data Result {ℓ} (A : Type ℓ) : Type ℓ where
  ok : A → Result A
  err : Error → Result A

-- How `os.WriteFile` ends: with the text in the file, with the file as it was, or with another text,
-- such as the part that was written.
pub data Write : Type 0 where
  written unwritten : Write
  torn : String → Write

-- What one method meets: its file operations, and the clock when it loads, in its body and when it
-- saves.
pub record World : Type 0 where
  pub readable : Bool
  pub write : Write
  pub loaded_at : ℕ
  pub now : ℕ
  pub saved_at : ℕ

unfoldable pub max_tracked_sessions : ℕ
max_tracked_sessions = 500

unfoldable pub touch_save_interval : ℕ
touch_save_interval = 2000000000

-- `New`.
unfoldable pub open_store : Option String → Store
open_store disk = record { sessions = []; loaded = false; last_save = 0; disk = disk }

-- The order of `pruneOldest`.
unfoldable pub goes_before : Session → Session → Bool
goes_before a b =
    if a.last_seen_at == b.last_seen_at then str_lt a.id b.id else ltb b.last_seen_at a.last_seen_at

-- The order of `List`.
unfoldable pub seen_after : Session → Session → Bool
seen_after a b = ltb b.last_seen_at a.last_seen_at

-- `sort.Slice` by a strict order. It says nothing of the order of elements that are level.
unfoldable pub put_in : (Session → Session → Bool) → Session → List Session → List Session
put_in less s [] = s ∷ []
put_in less s (t ∷ ts) = if less t s then t ∷ put_in less s ts else s ∷ t ∷ ts

unfoldable pub sort_slice : (Session → Session → Bool) → List Session → List Session
unfolding put_in
sort_slice less [] = []
sort_slice less (s ∷ ss) = put_in less s (sort_slice less ss)

unfoldable pub sessions_of : Sessions → List Session
sessions_of [] = []
sessions_of ((k, s) ∷ m) = s ∷ sessions_of m

unfoldable pub delete_each : List Session → Sessions → Sessions
delete_each [] m = m
delete_each (s ∷ ss) m = delete_each ss (delete s.id m)

-- The map without its oldest sessions, and their number.
unfoldable pub prune_oldest : Sessions → ℕ → Sessions × ℕ
unfolding goes_before sort_slice sessions_of delete_each
prune_oldest m limit =
    let all = sort_slice goes_before (sessions_of m) in
    if limit == 0 || leb (length m) limit
    then (m, 0)
    else (delete_each (drop limit all) m, length all - limit)

abbrev pub Outcome {ℓ} : Type ℓ → Type ℓ
Outcome A = Store × Result A

-- Where the write fails, the map has been changed in place, but `lastSave` has not.
unfoldable pub write_file : World → String → Store → Outcome (Unit {0})
write_file w text s = elim w.write [
  | written ↦ (record s { loaded = true; last_save = w.saved_at; disk = some text }, ok tt)
  | unwritten ↦ (s, err write_failed)
  | torn left ↦ (record s { disk = some left }, err write_failed)
]

-- `save(s.sessions)`, as it is called.
unfoldable pub save : Codec → World → Store → Outcome (Unit {0})
unfolding write_file
save c w s =
    let s' = record s { sessions = (prune_oldest s.sessions max_tracked_sessions).0 } in
    elim (c.encode s'.sessions) [
      | none ↦ (s', err marshal_failed)
      | some text ↦ write_file w text s'
    ]

-- A text that is no JSON counts as no sessions.
unfoldable pub sessions_in : Option Sessions → Sessions
sessions_in none = []
sessions_in (some m) = m

unfoldable pub load : Codec → World → Option String → Result Sessions
unfolding sessions_in
load c w none = ok []
load c w (some text) = if w.readable then ok (sessions_in (c.decode text)) else err read_failed

unfoldable pub loaded_with : World → Store → Result Sessions → Outcome (Unit {0})
loaded_with w s (err e) = (s, err e)
loaded_with w s (ok m) = (record s { sessions = m; loaded = true; last_save = w.loaded_at }, ok tt)

unfoldable pub load_cached : Codec → World → Store → Outcome (Unit {0})
unfolding loaded_with load
load_cached c w s = if s.loaded then (s, ok tt) else loaded_with w s (load c w s.disk)

-- A method's part after `loadCached`.
unfoldable pub once_loaded {ℓ} : {A : Type ℓ} → Outcome (Unit {0}) → (Store → Outcome A) → Outcome A
once_loaded (s, err e) rest = (s, err e)
once_loaded (s, ok u) rest = rest s

abbrev pub put : String → Session → Store → Store
put id sess s = record s { sessions = insert id sess s.sessions }

unfoldable pub new_session : String → ℕ → Session
new_session id now = record {
  id = id;
  created_at = now;
  last_seen_at = now;
  call_count = 0;
  last_tool = "";
}

unfoldable pub create : Codec → World → String → Store → Outcome (Unit {0})
unfolding once_loaded new_session
create c w id s =
    once_loaded (load_cached c w s) (λ s'. save c w (put id (new_session id w.now) s'))

-- A missing key reads as the zero value, whose identifier is empty.
unfoldable pub is_new : Option Session → Bool
is_new none = true
is_new (some sess) = sess.id == ""

unfoldable pub seen_again : ℕ → String → Session → Session
seen_again now tool sess = record sess {
  last_seen_at = now;
  call_count = (sess.call_count + 1) % 18446744073709551616;
  last_tool = if tool == "" then sess.last_tool else tool;
}

unfoldable pub touched : String → String → ℕ → Option Session → Session
unfolding is_new seen_again new_session
touched id tool now none = seen_again now tool (new_session id now)
touched id tool now (some sess) =
    seen_again now tool (if sess.id == "" then new_session id now else sess)

unfoldable pub touch : Codec → World → String → String → Store → Outcome (Unit {0})
unfolding once_loaded touched touch_save_interval
touch c w id tool s = once_loaded (load_cached c w s) (λ s'.
    let found = lookup id s'.sessions in
    let s'' = put id (touched id tool w.now found) s' in
    if is_new found || leb (s'.last_save + touch_save_interval) w.now
    then save c w s''
    else (s'', ok tt))

unfoldable pub list : Codec → World → Store → Outcome (List Session)
unfolding once_loaded sort_slice seen_after
list c w s =
    once_loaded (load_cached c w s)
      (λ s'. (s', ok (sort_slice seen_after (sessions_of s'.sessions))))

-- `LastSeenAt.Before(now.Add(-maxAge))`.
unfoldable pub is_stale : ℕ → ℕ → Session → Bool
is_stale now max_age sess = ltb (sess.last_seen_at + max_age) now

unfoldable pub without_stale : ℕ → ℕ → Sessions → Sessions × ℕ
unfolding is_stale
without_stale now max_age [] = ([], 0)
without_stale now max_age ((k, sess) ∷ m) =
    let (rest, n) = without_stale now max_age m in
    if is_stale now max_age sess then (rest, n + 1) else ((k, sess) ∷ rest, n)

unfoldable pub counted : ℕ → Outcome (Unit {0}) → Outcome ℕ
counted n (s, ok u) = (s, ok n)
counted n (s, err e) = (s, err e)

unfoldable pub cleanup : Codec → World → ℕ → Store → Outcome ℕ
unfolding once_loaded without_stale counted
cleanup c w max_age s = once_loaded (load_cached c w s) (λ s'.
    let (fresh, stale) = without_stale w.now max_age s'.sessions in
    let (kept, pruned) = prune_oldest fresh max_tracked_sessions in
    let removed = stale + pruned in
    let s'' = record s' { sessions = kept } in
    if removed == 0 then (s'', ok 0) else counted removed (save c w s''))
