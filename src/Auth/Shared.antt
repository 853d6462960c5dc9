-- ===== src/Auth/Shared.antt =====
-- The daemon and its clients agree on the token.
use anito.Prelude.{
  String, ◌≡◌, refl, subst, ◌≢◌, inl, inr, Bool, true, false, Option, none, some, ◌==◌,
  ℕ_comparable, text_comparable, Bool-cases, ==_refl, ==_of_ne, ne_of_==,
}
use anito.Assoc.{lookup, lookup-insert_self}
use anito.Text.Trim.{trim_space}
use anito.Auth.Trimmed.{trim_space_idem, HasNoSpace}
use anito.Auth.Token.{
  Node, directory, file, Disk, Io, ok, ensure_private, ensure_private_file, token_in,
  read_token_file, Request, attach_token, presented, authorized,
}

-- A token: not empty, and without spaces round it.
pub record IsToken (t : String) : Type 0 where
  pub trimmed : trim_space t ≡ t
  pub filled : t ≢ ""

-- The private file at the path has the token.
pub record IsStored (path : String) (disk : Disk) (t : String) : Type 0 where
  pub text : String
  pub found : lookup path disk ≡ some (file true text)
  pub holds : trim_space text ≡ t
  pub token : IsToken t

-- The random token is of hexadecimal digits: it has no spaces and is not empty.
abbrev pub IsHex : Io → Type 0
IsHex io = (t : String) → io.random ≡ some t → HasNoSpace t × (t ≢ "")

-- A client that can see the file and read it.
abbrev pub Reads : Io → Type 0
Reads io = (io.stats ≡ true) × (io.reads ≡ true)

pub trimmed-IsToken : (s : String) → trim_space s ≢ "" → IsToken (trim_space s)
trimmed-IsToken s h = record { trimmed = trim_space_idem s; filled = h }

pub authorized-attach_token :
    (t : String) (r : Request) → IsToken t → authorized (attach_token t r) t ≡ true
unfolding authorized attach_token presented
authorized-attach_token t r k =
    rw (k.trimmed, ==_of_ne t "" k.filled, k.trimmed, ==_of_ne t "" k.filled) (==_refl t)

token_in-ok :
    (reads : Bool) (text t : String)
    → token_in reads (ok text) ≡ ok t
    → (trim_space text ≡ t) × IsToken t
unfolding token_in
token_in-ok false text t h = cc
token_in-ok true text t h = elim (Bool-cases (trim_space text == "")) [
  | inl e ↦ cc (rw e at h)
  | inr e ↦
      let same : trim_space text ≡ t = cc (rw e at h) in
      (same, subst IsToken same (trimmed-IsToken text (ne_of_== (trim_space text) "" e)))
]

read_at :
    (io : Io) (path t : String) (disk : Disk) (o : Option Node)
    → lookup path disk ≡ o
    → token_in io.reads (ensure_private io path disk o).1 ≡ ok t
    → IsStored path (ensure_private io path disk o).0 t
unfolding ensure_private
read_at io path t disk none l h = unfold token_in in cc
read_at io path t disk (some directory) l h = unfold token_in in cc
read_at io path t disk (some (file true text)) l h =
    let (same, k) = token_in-ok io.reads text t h in
    record { text = text; found = l; holds = same; token = k }
read_at io path t disk (some (file false text)) l h = elim (Bool-cases io.chmods) [
  | inr e ↦ unfold token_in in cc (rw (ensure_private, e) at h)
  | inl e ↦
      let (same, k) = token_in-ok io.reads text t (rw (ensure_private, e) at h) in
      rw (ensure_private, e)
        (record {
          text = text;
          found = lookup-insert_self path (file true text) disk;
          holds = same;
          token = k;
        })
]

pub read-IsStored :
    (io : Io) (path t : String) (disk : Disk)
    → (read_token_file io path disk).1 ≡ ok t
    → IsStored path (read_token_file io path disk).0 t
unfolding read_token_file ensure_private_file
read-IsStored io path t disk h = elim (Bool-cases io.stats) [
  | inl e ↦
      rw (ensure_private_file, e)
        (read_at io path t disk (lookup path disk) refl (rw (ensure_private_file, e) at h))
  | inr e ↦ unfold token_in in cc (rw (ensure_private_file, e) at h)
]

-- What is stored is read.
pub read-stored :
    (io : Io) (path t : String) (disk : Disk)
    → Reads io
    → IsStored path disk t
    → read_token_file io path disk ≡ (disk, ok t)
unfolding read_token_file ensure_private_file ensure_private token_in
read-stored io path t disk (a, b) s =
    rw
      (
        ensure_private_file,
        a,
        ensure_private,
        s.found,
        token_in,
        b,
        s.holds,
        ==_of_ne t "" s.token.filled,
      )
      refl
