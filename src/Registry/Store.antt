-- ===== src/Registry/Store.antt =====
-- internal/registry/registry.go: the registry, how it is written to and read from registry.json.
-- The file's text comes from encoding/json, a parameter: `encode` is `json.MarshalIndent`, which may
-- refuse a value, and `decode` is `json.Unmarshal`.
use anito.Prelude.{String, ◌≡◌, Option, none, some, List, []}
use anito.Assoc.{map_values}
use anito.Registry.Types.{Service, Tombstone}
use anito.Registry.Ports.{sync_singular_from_map, normalize_ports}

pub record RegistryFile : Type 0 where
  pub services : List (String × Service)
  pub tombstones : List (String × Tombstone)

pub record Codec : Type 0 where
  pub encode : RegistryFile → Option String
  pub decode : String → Option RegistryFile
  pub decode-encode :
      (f : RegistryFile) (text : String) → encode f ≡ some text → decode text ≡ some f

-- `disk` is what stands in registry.json, if it is there. `os.WriteFile` writes registry.json.tmp,
-- which nothing reads, and `os.Rename` puts it in place.
pub record Registry : Type 0 where
  pub services : List (String × Service)
  pub tombstones : List (String × Tombstone)
  pub disk : Option String

pub data Error : Type 0 where
  not_found already_archived is_running not_archived not_archived_to_prune : String → Error
  start_record_not_found : String → Error
  nil_service : Error
  marshal_failed unmarshal_failed write_failed rename_failed read_failed : Error

pub data Result {ℓ} (A : Type ℓ) : Type ℓ where
  ok : A → Result A
  err : Error → Result A

-- How the two file operations of one `save` end.
pub data Io : Type 0 where
  written no_write no_rename : Io

abbrev pub file : Registry → RegistryFile
file r = record { services = r.services; tombstones = r.tombstones }

-- The outcome of a method: the registry that it leaves and what it returns.
abbrev pub Outcome {ℓ} : Type ℓ → Type ℓ
Outcome A = Registry × Result A

unfoldable pub sync_all : Registry → Registry
sync_all r = record r { services = map_values sync_singular_from_map r.services }

unfoldable pub write_file : Io → String → Registry → Outcome (Unit {0})
write_file written text r = (record r { disk = some text }, ok tt)
write_file no_write text r = (r, err write_failed)
write_file no_rename text r = (r, err rename_failed)

unfoldable pub save : Codec → Io → Registry → Outcome (Unit {0})
unfolding write_file
save c io r =
    let r' = sync_all r in
    elim (c.encode (file r')) [
      | none ↦ (r', err marshal_failed)
      | some text ↦ write_file io text r'
    ]

abbrev pub returning {ℓ} : {A : Type ℓ} → Result (Unit {0}) → A → Result A
returning (ok u) a = ok a
returning (err e) a = err e

-- A method that saves last and returns a value if that succeeds.
abbrev pub save_and {ℓ} : {A : Type ℓ} → Codec → Io → Registry → A → Outcome A
save_and c io r a = let (r', done) = save c io r in (r', returning done a)

-- What `os.ReadFile` finds: no file, a file that it cannot read, or the text.
pub data ReadFile : Type 0 where
  absent unreadable : ReadFile
  text_of : String → ReadFile

unfoldable pub load_file : Option RegistryFile → String → Result Registry
load_file none text = err unmarshal_failed
load_file (some f) text = ok (record {
  services = map_values normalize_ports f.services;
  tombstones = f.tombstones;
  disk = some text;
})

-- `New`, which is `load` on the empty registry.
unfoldable pub load : Codec → ReadFile → Result Registry
unfolding load_file
load c absent = ok (record { services = []; tombstones = []; disk = none })
load c unreadable = err read_failed
load c (text_of text) = load_file (c.decode text) text
