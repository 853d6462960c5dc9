-- ===== src/Auth/Agreed.antt =====
-- The token that the daemon loads or creates is the one that a client loads afterwards.
use Prim.Native.String.{◌++◌ as append}
use anito.Prelude.{
  String, ◌≡◌, refl, sym, ap, ◌∙◌, subst, ◌≢◌, inl, inr, true, Option, none, some, ◌==◌,
  ℕ_comparable, text_comparable, Bool-cases, Option-cases, ne_of_==,
}
use anito.Assoc.{lookup, insert, lookup-insert_self}
use anito.Text.Trim.{trim_space}
use anito.Auth.Trimmed.{trim_space-line, trim_space_idem, HasNoSpace}
use anito.Auth.Token.{
  Env, file, Disk, Io, Opened, opened, not_opened, raced, Error, not_exist, exist, Result, ok, err,
  default_token_path, read_token_file, write_new, open_new, write_token_file, Loaded, from_file,
  after_write, create_token, load_or_create_at, at_path, load_or_create_token, client_at,
  load_client_token, env_token, Request, attach_token, authorized,
}
use anito.Auth.Shared.{
  IsToken, IsStored, IsHex, Reads, trimmed-IsToken, authorized-attach_token, read-IsStored,
  read-stored,
}

-- Where a load at a path succeeds, the token stands there.
abbrev Stores : String → Loaded → Type 0
Stores path (disk, r) =
    (t source : String) → r ≡ ok (t, source) → IsStored path disk t × (source ≡ path)

from_file-Stores :
    (path : String) (o : Disk × Result String)
    → ((t : String) → o.1 ≡ ok t → IsStored path o.0 t)
    → Stores path (from_file path o)
unfolding from_file
from_file-Stores path (disk, ok token) f t source h =
    let same : token ≡ t = cc in (f t (ap ok same), cc)
from_file-Stores path (disk, err e) f t source h = cc

line-IsStored :
    (path token : String) (disk : Disk)
    → HasNoSpace token × (token ≢ "")
    → IsStored path (insert path (file true (append token "\n")) disk) token
line-IsStored path token disk (n, f) = record {
  text = append token "\n";
  found = lookup-insert_self path (file true (append token "\n")) disk;
  holds = trim_space-line token n;
  token = record {
    trimmed =
        ap trim_space (sym (trim_space-line token n))
        ∙ trim_space_idem (append token "\n")
        ∙ trim_space-line token n;
    filled = f;
  };
}

write_new-IsStored :
    (io : Io) (path token : String) (disk : Disk)
    → HasNoSpace token × (token ≢ "")
    → (write_new io path token disk).1 ≡ none
    → IsStored path (write_new io path token disk).0 token
unfolding write_new
write_new-IsStored io path token disk n h = elim (Bool-cases io.writes) [
  | inr e ↦ cc (rw (write_new, e) at h)
  | inl e ↦ elim (Bool-cases io.chmods_new) [
    | inr f ↦ cc (rw (write_new, e, f) at h)
    | inl f ↦ rw (write_new, e, f) (line-IsStored path token disk n)
  ]
]

open_new-IsStored :
    (io : Io) (path token : String) (disk : Disk) (o : Opened)
    → HasNoSpace token × (token ≢ "")
    → (open_new io path token disk o).1 ≡ none
    → IsStored path (open_new io path token disk o).0 token
unfolding open_new
open_new-IsStored io path token disk opened n h = write_new-IsStored io path token disk n h
open_new-IsStored io path token disk not_opened n h = cc
open_new-IsStored io path token disk (raced node) n h = cc

write-IsStored :
    (io : Io) (path token : String) (disk : Disk)
    → HasNoSpace token × (token ≢ "")
    → (write_token_file io path token disk).1 ≡ none
    → IsStored path (write_token_file io path token disk).0 token
unfolding write_token_file
write-IsStored io path token disk n h = elim (Bool-cases io.makes_directory) [
  | inr e ↦ cc (rw (write_token_file, e) at h)
  | inl e ↦ elim (Option-cases (lookup path disk)) [
    | inr (node, l) ↦ cc (rw (write_token_file, e, l) at h)
    | inl l ↦
        rw (write_token_file, e, l)
          (open_new-IsStored io path token disk io.opening n (rw (write_token_file, e, l) at h))
  ]
]

after_write-Stores :
    (io : Io) (path token : String) (o : Disk × Option Error)
    → (o.1 ≡ none → IsStored path o.0 token)
    → Stores path (after_write io path token o)
unfolding after_write
after_write-Stores io path token (disk, none) f t source h =
    let same : token ≡ t = cc in (subst (IsStored path disk) same (f refl), cc)
after_write-Stores io path token (disk, some exist) f t source h =
    from_file-Stores path (read_token_file io path disk) (λ u. read-IsStored io path u disk) t
      source h
after_write-Stores io path token (disk, some e) f t source h = cc

create_token-Stores :
    (io : Io) (path : String) (disk : Disk) (o : Option String)
    → ((t : String) → o ≡ some t → HasNoSpace t × (t ≢ ""))
    → Stores path (create_token io path disk o)
unfolding create_token
create_token-Stores io path disk none x t source h = cc
create_token-Stores io path disk (some token) x t source h =
    after_write-Stores io path token (write_token_file io path token disk)
      (write-IsStored io path token disk (x token refl)) t source h

load_or_create_at-Stores :
    (io : Io) (path : String) (o : Disk × Result String)
    → IsHex io
    → ((t : String) → o.1 ≡ ok t → IsStored path o.0 t)
    → Stores path (load_or_create_at io path o)
unfolding load_or_create_at
load_or_create_at-Stores io path (disk, ok token) x f t source h =
    let same : token ≡ t = cc in (f t (ap ok same), cc)
load_or_create_at-Stores io path (disk, err not_exist) x f t source h =
    create_token-Stores io path disk io.random x t source h
load_or_create_at-Stores io path (disk, err e) x f t source h = cc

-- Where the daemon has loaded or created a token, any client with the same environment that can read
-- the file loads the same token from the same source and leaves the file as it is, and a request to
-- which it attaches the token is authorized; a random token is of hexadecimal digits.
pub load_client_token-load_or_create_token :
    (io client : Io) (env : Env) (disk : Disk) (token source : String) (r : Request)
    → IsHex io
    → Reads client
    → (load_or_create_token io env disk).1 ≡ ok (token, source)
    → (load_client_token client env (load_or_create_token io env disk).0
        ≡ ((load_or_create_token io env disk).0, ok (token, source)))
      × (authorized (attach_token token r) token ≡ true)
unfolding load_or_create_token load_client_token client_at at_path
load_client_token-load_or_create_token io client env disk token source r x c h =
    elim (Bool-cases (trim_space env.token == "")) [
      | inr e ↦
          let same : trim_space env.token ≡ token = cc (rw (load_or_create_token, e) at h) in
          let from : env_token ≡ source = cc (rw (load_or_create_token, e) at h) in
          rw (load_or_create_token, load_client_token, e)
            (
              rw (same, from) refl,
              authorized-attach_token token r (
                  subst IsToken same
                    (trimmed-IsToken env.token (ne_of_== (trim_space env.token) "" e))),
            )
      | inl e ↦
          rw (load_or_create_token, load_client_token, e)
            (by (default_token_path env) refl (rw (load_or_create_token, e) at h))
    ]
  where
    load : String → Loaded
    load path = load_or_create_at io path (read_token_file io path disk)

    fetch : Disk → String → Loaded
    fetch left path = client_at path (read_token_file client path left)

    by :
        (p : Result String)
        → default_token_path env ≡ p
        → (at_path load disk p).1 ≡ ok (token, source)
        → (at_path (fetch (at_path load disk p).0) (at_path load disk p).0 p
            ≡ ((at_path load disk p).0, ok (token, source)))
          × (authorized (attach_token token r) token ≡ true)
    by (err e) q g = cc
    by (ok path) q g =
        let (stored, from) =
          load_or_create_at-Stores io path (read_token_file io path disk) x
            (λ t. read-IsStored io path t disk) token source g in
        (
          rw (read-stored client path token (load path).0 c stored, from) refl,
          authorized-attach_token token r stored.token,
        )
