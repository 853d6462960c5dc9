-- ===== src/Sessions/Tests.antt =====
-- The theorems on the store at a concrete history.
use anito.Prelude.{
  ℕ, String, ◌≡◌, refl, sym, ap, Option, none, some, List, [], ◌∷◌, true, arith, ◌==◌,
  if◌then◌else◌, text_comparable, Bool-cases, inl, inr, ne_of_==, length, ◌≤◌, ◌+◌,
}
use mathlib.Core.Logic.{ite, if_pos, if_neg}
use native.Mathlib.Decide.{ℕ_discrete}
use text.Mathlib.TextEquality.{eq_iff}
use anito.Assoc.{delete, lookup}
use anito.Sessions.Store.{
  Session, Sessions, Codec, World, Write, written, unwritten, torn, open_store, prune_oldest,
}
use anito.Sessions.Prune.{prune_oldest-newest}
use anito.Sessions.Keyed.{IsKeyed}
use anito.Sessions.History.{Op, creates, touches, lists, restarts, cleans_up, run, run-IsValid}
use anito.Sessions.Bounds.{IsValid}

abbrev session : String → ℕ → Session
session id t = record { id = id; created_at = t; last_seen_at = t; call_count = 0; last_tool = "" }

abbrev three : Sessions
three = ("a", session "a" 10) ∷ ("b", session "b" 30) ∷ ("c", session "c" 20) ∷ []

abbrev two : Sessions
two = ("b", session "b" 30) ∷ ("c", session "c" 20) ∷ []

-- The oldest of three goes.
prunes : prune_oldest three 2 ≡ (two, 1)
unfolding prune_oldest anito.Assoc.delete
prunes = refl

three-IsKeyed : IsKeyed three
unfolding lookup
three-IsKeyed = ((refl, (refl, (refl, tt))), (refl, (refl, (refl, tt))))

prune_oldest-newest_example :
    (length (prune_oldest three 2).0 ≤ 2)
    × ((prune_oldest three 2).1 + length (prune_oldest three 2).0 ≡ 3)
    × ((k : String) (s : Session)
        → lookup k (prune_oldest three 2).0 ≡ some s
        → (lookup k three ≡ some s)
          × ((j : String) (t : Session)
              → lookup j three ≡ some t
              → lookup j (prune_oldest three 2).0 ≡ none
              → t.last_seen_at ≤ s.last_seen_at))
prune_oldest-newest_example = prune_oldest-newest three 2 three-IsKeyed (omega arith)

String-discrete : Discrete String
String-discrete s t = elim (Bool-cases (s == t)) [
  | inl h ↦ yes ((eq_iff s t).0 h)
  | inr h ↦ no (ne_of_== s t h)
]

Sessions-discrete : Discrete Sessions
Sessions-discrete = hlevel (ℕ_discrete, String-discrete)

-- An encoding/json that knows one map of sessions.
encode_two : Sessions → Option String
encode_two m = ite (Sessions-discrete m two) (some "two") none

decode_two : String → Option Sessions
decode_two text = if text == "two" then some two else none

decode-encode_two :
    (m : Sessions) (text : String) → encode_two m ≡ some text → decode_two text ≡ some m
unfolding encode_two decode_two
decode-encode_two m text h = elim (Sessions-discrete m two) [
  | yes p ↦ let e : "two" ≡ text = cc (rw (if_pos _ p) at h) in rw (← e) (ap some (sym p))
  | no p ↦ cc (rw (if_neg _ p) at h)
]

abbrev codec : Codec
codec = record { encode = encode_two; decode = decode_two; decode-encode = decode-encode_two }

abbrev world : ℕ → Write → World
world t w = record { readable = true; write = w; loaded_at = t; now = t; saved_at = t }

-- Two sessions, a torn write, a restart, which finds no JSON, and a cleanup.
abbrev history : List (Op × World)
history =
    (creates "b", world 30 unwritten)
    ∷ (creates "c", world 20 written)
    ∷ (touches "b" "anito_deploy", world 40 written)
    ∷ (touches "d" "", world 50 (torn "{"))
    ∷ (restarts, world 60 written)
    ∷ (lists, world 70 written)
    ∷ (cleans_up 5, world 80 written)
    ∷ []

decode_cut : decode_two "{" ≡ none
unfolding decode_two
decode_cut = refl

run-IsValid_example : IsValid codec (run codec history (open_store none))
unfolding open_store
run-IsValid_example =
    run-IsValid codec history (open_store none) (tt, (tt, (tt, (decode_cut, (tt, (tt, (tt, tt)))))))
      (((tt, tt), omega arith), λ text m p q. cc)
