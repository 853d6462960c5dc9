-- ===== src/Registry/Recovery.antt =====
-- registry.json across a crash: `save` writes a second file and renames it.
use anito.Prelude.{String, ◌≡◌, some, List, [], ◌∷◌, inl, inr, Option-cases, All}
use anito.Registry.Store.{
  Codec, Io, written, no_write, no_rename, write_file, Registry, ok, save, sync_all, file, load,
  text_of,
}
use anito.Registry.Calls.{Call, step, run}
use anito.Registry.Invariant.{
  IsValid, IsPending, Writes, kept, saved, step-Writes, step-IsValid, IsAllowed, sync_all-IsValid,
}
use anito.Registry.Saved.{load-saved}

-- Whatever stands in registry.json is read back to a valid registry.
abbrev pub Reloads : Codec → Registry → Type 0
Reloads c r =
    (text : String)
    → r.disk ≡ some text
    → (s : Registry) × (load c (text_of text) ≡ ok s) × IsValid s

same_disk-Reloads : (c : Codec) (r w : Registry) → w.disk ≡ r.disk → Reloads c r → Reloads c w
same_disk-Reloads c r w e h text q = h text (rw (← e) q)

write_file-Reloads :
    (c : Codec) (io : Io) (text : String) (r : Registry)
    → IsValid r
    → c.encode (file r) ≡ some text
    → Reloads c r
    → Reloads c (write_file io text r).0
unfolding write_file
write_file-Reloads c written text r v e h = λ text' q.
    let same : text ≡ text' = cc q in
    (
      record r { disk = some text },
      rw (← same) (load-saved c r text v e),
      record { unique = v.unique; entries = v.entries },
    )
write_file-Reloads c no_write text r v e h = h
write_file-Reloads c no_rename text r v e h = h

save-Reloads :
    (c : Codec) (io : Io) (r : Registry) → IsPending r → Reloads c r → Reloads c (save c io r).0
unfolding save sync_all
save-Reloads c io r p h = elim (Option-cases (c.encode (file (sync_all r)))) [
  | inl q ↦ rw (q, save) h
  | inr (text, q) ↦
      rw (q, save) (write_file-Reloads c io text (sync_all r) (sync_all-IsValid r p) q h)
]

step-Reloads :
    (c : Codec) (io : Io) (call : Call) (r : Registry)
    → IsAllowed call
    → IsValid r
    → Reloads c r
    → Reloads c (step c io call r)
step-Reloads c io call r a v h = after (step-Writes c io call r a v)
  where
    after : {o : Registry} → Writes c io r o → Reloads c o
    after kept = h
    after (saved w p e) = save-Reloads c io w p (same_disk-Reloads c r w e h)

-- From a valid registry whose file, if there is one, is read back to a valid registry, and after any
-- history of calls, the save of each failing or not: the registry is valid, and a daemon that starts
-- from what then stands in registry.json, if anything does, reads a valid registry. Of the calls,
-- Register is given at most ten remembered starts, and Restore an entry with a bind address and at
-- most ten remembered starts, as each entry of a valid registry has.
pub run-recovers :
    (c : Codec) (r : Registry) (calls : List (Call × Io))
    → All (λ call. IsAllowed call.0) calls
    → IsValid r
    → Reloads c r
    → IsValid (run c r calls) × Reloads c (run c r calls)
unfolding run
run-recovers c r [] a v h = (v, h)
run-recovers c r ((call, io) ∷ calls) a v h =
    run-recovers c (step c io call r) calls a.1 (step-IsValid c io call r a.0 v)
      (step-Reloads c io call r a.0 v h)
