-- ===== src/Registry/Saved.antt =====
-- What a save does to the entries and to registry.json.
use mathlib.Core.Option
use anito.Prelude.{
  String, ◌≡◌, refl, sym, ap, ◌∙◌, some, [], ◌∷◌, inl, inr, Option-cases, ◌==◌, text_comparable,
  ℕ_comparable, Bool-cases, if◌then◌else◌, ==_of_ne, ◌≢◌, not, ◌&&◌, ℕ,
}
use anito.Assoc.{lookup, lookup-map_values, lookup-insert}
use anito.Assoc.Entries.{Entries-lookup, map_values_id}
use anito.Registry.Types.{Service, Ports}
use anito.Registry.Ports.{
  sync_singular_from_map, primary_stable_port, primary_internal_port, normalize_ports,
  upgrade_ports, is_empty, pick_port, bind_or_default,
}
use anito.Registry.Store.{
  Codec, Io, written, no_write, no_rename, write_file, Registry, ok, save, sync_all, load, text_of,
  file, load_file,
}
use anito.Registry.Methods.{put}
use anito.Registry.Drafts.{IsEntry}
use anito.Registry.Invariant.{IsValid, IsPending, save_services, sync_all-IsValid}

pub sync_id : (k : String) (s : Service) → IsEntry k s → sync_singular_from_map s ≡ s
unfolding sync_singular_from_map primary_stable_port primary_internal_port
sync_id k s e i = record s { stable_port = sym e.stable i; internal_port = sym e.internal i }

pub lookup-save :
    (c : Codec) (io : Io) (r : Registry) (k : String)
    → lookup k (save c io r).0.services ≡ Option.map sync_singular_from_map (lookup k r.services)
lookup-save c io r k =
    rw (save_services c io r)
      (unfold sync_all in lookup-map_values sync_singular_from_map k r.services)

-- Where an entry is in line already, a save leaves it as it is.
pub lookup-in_line :
    (r : Registry) (k : String)
    → IsValid r
    → Option.map sync_singular_from_map (lookup k r.services) ≡ lookup k r.services
lookup-in_line r k v = elim (Option-cases (lookup k r.services)) [
  | inl p ↦ rw p
  | inr (s, p) ↦ rw p (ap some (sync_id k s (Entries-lookup IsEntry r.services k s v.entries p)))
]

pub lookup-save-put :
    (c : Codec) (io : Io) (r : Registry) (j k : String) (s : Service)
    → IsValid r
    → lookup k (save c io (put j s r)).0.services
      ≡ (if j == k then some (sync_singular_from_map s) else lookup k r.services)
lookup-save-put c io r j k s v = lookup-save c io (put j s r) k ∙ elim (Bool-cases (j == k)) [
  | inl p ↦ rw (lookup-insert j k s r.services, p)
  | inr p ↦ rw (lookup-insert j k s r.services, p) (lookup-in_line r k v)
]

pub upgraded_id :
    (ports : Ports) (port : ℕ) (hc : String)
    → port ≡ pick_port ports hc
    → (if is_empty ports && not (port == 0) then ("default", port) ∷ [] else ports) ≡ ports
unfolding pick_port
upgraded_id [] port hc e = rw e
upgraded_id ((k, p) ∷ ports) port hc e = refl

upgrade_id : (k : String) (s : Service) → IsEntry k s → upgrade_ports s ≡ s
unfolding upgrade_ports
upgrade_id k s e i = record s {
  stable_ports = upgraded_id s.stable_ports s.stable_port s.health_check_port e.stable i;
  internal_ports = upgraded_id s.internal_ports s.internal_port s.health_check_port e.internal i;
}

bound_id : (a : String) → a ≢ "" → bind_or_default a ≡ a
bound_id a h = rw (==_of_ne a "" h)

-- `NormalizePorts` leaves an entry that is in line as it is.
pub normalize_id : (k : String) (s : Service) → IsEntry k s → normalize_ports s ≡ s
unfolding normalize_ports
normalize_id k s e =
    rw (upgrade_id k s e, sync_id k s e)
      (λ i. record s { proxy_bind_address = bound_id s.proxy_bind_address e.draft.bound i })

pub load-saved :
    (c : Codec) (r : Registry) (text : String)
    → IsValid r
    → c.encode (file r) ≡ some text
    → load c (text_of text) ≡ ok (record r { disk = some text })
unfolding load
load-saved c r text v e =
    rw (c.decode-encode (file r) text e, load_file)
      (ap (λ m. ok (record r { services = m; disk = some text }))
        (map_values_id IsEntry normalize_ports r.services normalize_id v.entries))

write_file-ok :
    (io : Io) (text : String) (r r' : Registry)
    → write_file io text r ≡ (r', ok tt)
    → record r { disk = some text } ≡ r'
unfolding write_file
write_file-ok written text r r' e = ap (λ o. o.0) e
write_file-ok no_write text r r' e = cc (ap (λ o. o.1) e)
write_file-ok no_rename text r r' e = cc (ap (λ o. o.1) e)

-- A save that succeeds is read back: the daemon that starts next has the same registry.
pub load-save :
    (c : Codec) (io : Io) (r r' : Registry)
    → IsPending r
    → save c io r ≡ (r', ok tt)
    → (text : String) × (r'.disk ≡ some text) × (load c (text_of text) ≡ ok r')
unfolding save
load-save c io r r' p e = elim (Option-cases (c.encode (file (sync_all r)))) [
  | inl q ↦ cc (ap (λ o. o.1) (rw (q, save) at e))
  | inr (text, q) ↦
      let same = write_file-ok io text (sync_all r) r' (rw (q, save) at e) in
      (
        text,
        rw (← same) refl,
        rw (← same) (load-saved c (sync_all r) text (sync_all-IsValid r p) q),
      )
]
