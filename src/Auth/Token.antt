-- ===== src/Auth/Token.antt =====
-- internal/auth/auth.go: where the token comes from, and the check of a request.
use Prim.Native.Char.{Char, code}
use Prim.Native.String.{[] as nil, ◌∷◌ as cons, ◌++◌ as append}
use anito.Prelude.{
  ℕ, ◌+◌, String, Bool, true, false, not, Option, none, some, List, [], ◌∷◌, ◌==◌, ℕ_comparable,
  text_comparable, if◌then◌else◌,
}
use anito.Assoc.{lookup, insert}
use anito.Text.Trim.{trim_space}

-- The variables ANITO_CAPABILITY_TOKEN and ANITO_CAPABILITY_TOKEN_FILE, and the home directory;
-- `join` is `filepath.Join(home, ".anito", "capability-token")`.
pub record Env : Type 0 where
  pub token : String
  pub token_file : String
  pub home : Option String
  pub join : String → String

-- A file is private if only its owner may use it.
pub data Node : Type 0 where
  directory : Node
  file : Bool → String → Node

abbrev pub Disk : Type 0
Disk = List (String × Node)

-- How `os.OpenFile` with O_EXCL ends where there is no file: another process may be the first.
pub data Opened : Type 0 where
  opened not_opened : Opened
  raced : Node → Opened

-- How the other file operations end, and `hex.EncodeToString` of 32 random bytes, if they can be had.
pub record Io : Type 0 where
  pub stats : Bool
  pub chmods : Bool
  pub reads : Bool
  pub makes_directory : Bool
  pub opening : Opened
  pub writes : Bool
  pub chmods_new : Bool
  pub random : Option String

pub data Error : Type 0 where
  not_exist exist no_home is_directory empty_token : Error
  stat_failed chmod_failed read_failed random_failed mkdir_failed open_failed write_failed : Error

pub data Result {ℓ} (A : Type ℓ) : Type ℓ where
  ok : A → Result A
  err : Error → Result A

unfoldable pub default_token_path : Env → Result String
default_token_path env =
    let p = trim_space env.token_file in
    if p == "" then elim env.home [ none ↦ err no_home | some home ↦ ok (env.join home) ] else ok p

-- The file, made private, and its text.
unfoldable pub ensure_private : Io → String → Disk → Option Node → Disk × Result String
ensure_private io path disk none = (disk, err not_exist)
ensure_private io path disk (some directory) = (disk, err is_directory)
ensure_private io path disk (some (file true text)) = (disk, ok text)
ensure_private io path disk (some (file false text)) =
    if io.chmods then (insert path (file true text) disk, ok text) else (disk, err chmod_failed)

unfoldable pub ensure_private_file : Io → String → Disk → Disk × Result String
unfolding ensure_private
ensure_private_file io path disk =
    if io.stats then ensure_private io path disk (lookup path disk) else (disk, err stat_failed)

unfoldable pub token_in : Bool → Result String → Result String
token_in reads (err e) = err e
token_in reads (ok text) =
    if not reads
    then err read_failed
    else if trim_space text == ""
    then err empty_token
    else ok (trim_space text)

unfoldable pub read_token_file : Io → String → Disk → Disk × Result String
unfolding token_in ensure_private_file
read_token_file io path disk =
    let (disk', text) = ensure_private_file io path disk in (disk', token_in io.reads text)

-- A write that fails leaves the file that was created; `none` is the nil error.
unfoldable pub write_new : Io → String → String → Disk → Disk × Option Error
write_new io path token disk =
    if not io.writes
    then (insert path (file true "") disk, some write_failed)
    else if not io.chmods_new
    then (insert path (file true (append token "\n")) disk, some chmod_failed)
    else (insert path (file true (append token "\n")) disk, none)

unfoldable pub open_new : Io → String → String → Disk → Opened → Disk × Option Error
unfolding write_new
open_new io path token disk opened = write_new io path token disk
open_new io path token disk not_opened = (disk, some open_failed)
open_new io path token disk (raced node) = (insert path node disk, some exist)

unfoldable pub write_token_file : Io → String → String → Disk → Disk × Option Error
unfolding open_new
write_token_file io path token disk =
    if not io.makes_directory then (disk, some mkdir_failed) else elim (lookup path disk) [
      | some node ↦ (disk, some exist)
      | none ↦ open_new io path token disk io.opening
    ]

-- The token and where it is from.
abbrev pub Loaded : Type 0
Loaded = Disk × Result (String × String)

unfoldable pub from_file : String → Disk × Result String → Loaded
from_file path (disk, ok token) = (disk, ok (token, path))
from_file path (disk, err e) = (disk, err e)

unfoldable pub after_write : Io → String → String → Disk × Option Error → Loaded
unfolding from_file
after_write io path token (disk, none) = (disk, ok (token, path))
after_write io path token (disk, some exist) = from_file path (read_token_file io path disk)
after_write io path token (disk, some e) = (disk, err e)

unfoldable pub create_token : Io → String → Disk → Option String → Loaded
unfolding after_write
create_token io path disk none = (disk, err random_failed)
create_token io path disk (some token) =
    after_write io path token (write_token_file io path token disk)

unfoldable pub load_or_create_at : Io → String → Disk × Result String → Loaded
unfolding create_token
load_or_create_at io path (disk, ok token) = (disk, ok (token, path))
load_or_create_at io path (disk, err not_exist) = create_token io path disk io.random
load_or_create_at io path (disk, err e) = (disk, err e)

abbrev pub env_token : String
env_token = "ANITO_CAPABILITY_TOKEN"

unfoldable pub at_path : (String → Loaded) → Disk → Result String → Loaded
at_path load disk (ok path) = load path
at_path load disk (err e) = (disk, err e)

unfoldable pub load_or_create_token : Io → Env → Disk → Loaded
unfolding at_path load_or_create_at
load_or_create_token io env disk =
    if trim_space env.token == ""
    then at_path (λ path. load_or_create_at io path (read_token_file io path disk)) disk
        (default_token_path env)
    else (disk, ok (trim_space env.token, env_token))

-- For a client a missing file is no error, and the token is empty.
unfoldable pub client_at : String → Disk × Result String → Loaded
client_at path (disk, ok token) = (disk, ok (token, path))
client_at path (disk, err not_exist) = (disk, ok ("", path))
client_at path (disk, err e) = (disk, err e)

unfoldable pub load_client_token : Io → Env → Disk → Loaded
unfolding at_path client_at
load_client_token io env disk =
    if trim_space env.token == ""
    then at_path (λ path. client_at path (read_token_file io path disk)) disk
        (default_token_path env)
    else (disk, ok (trim_space env.token, env_token))

-- The two headers that are read; a header that is missing is empty.
pub record Request : Type 0 where
  pub token_header : String
  pub authorization : String

unfoldable pub attach_token : String → Request → Request
attach_token token r = if trim_space token == "" then r else record r { token_header = token }

-- The characters that make "bearer" with `strings.EqualFold` are those of either case.
unfoldable pub is_letter : ℕ → Char → Bool
is_letter lower c = if code c == lower then true else code c + 32 == lower

unfoldable pub after_scheme : List ℕ → String → String
unfolding is_letter
after_scheme letters nil = ""
after_scheme [] (cons c s) = if code c == 32 then s else ""
after_scheme (l ∷ letters) (cons c s) =
    let rest = after_scheme letters s in if is_letter l c then rest else ""

unfoldable pub bearer_token : String → String
unfolding after_scheme
bearer_token header =
    trim_space (after_scheme (98 ∷ 101 ∷ 97 ∷ 114 ∷ 101 ∷ 114 ∷ []) (trim_space header))

unfoldable pub presented : Request → String
unfolding bearer_token
presented r =
    let got = trim_space r.token_header in if got == "" then bearer_token r.authorization else got

-- The comparison of the lengths and of the bytes is that of the strings.
unfoldable pub authorized : Request → String → Bool
unfolding presented
authorized r expected = let e = trim_space expected in if e == "" then false else presented r == e
