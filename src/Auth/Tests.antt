-- ===== src/Auth/Tests.antt =====
-- The first start of a daemon, and a client of it.
use Prim.Native.String.{◌++◌ as append}
use anito.Prelude.{String, ◌≡◌, refl, true, false, Option, some, [], ◌∷◌, text_comparable, arith}
use text.Mathlib.TextEquality.{eq_iff}
use anito.Assoc.{lookup, insert}
use anito.Text.Trim.{trim_space, is_space}
use anito.Auth.Token.{
  Env, Io, opened, file, ok, load_or_create_token, load_client_token, read_token_file,
  write_token_file, default_token_path, authorized, attach_token,
}
use anito.Auth.Shared.{IsHex}
use anito.Auth.Agreed.{load_client_token-load_or_create_token}

abbrev env : Env
env = record {
  token = " ";
  token_file = "";
  home = some "/home/ana";
  join = λ home. append home "/.anito/capability-token";
}

abbrev io : Io
io = record {
  stats = true;
  chmods = true;
  reads = true;
  makes_directory = true;
  opening = opened;
  writes = true;
  chmods_new = true;
  random = some "0f3a";
}

abbrev path : String
path = "/home/ana/.anito/capability-token"

created : load_or_create_token io env [] ≡ ((path, file true "0f3a\n") ∷ [], ok ("0f3a", path))
unfolding load_or_create_token trim_space is_space default_token_path read_token_file
    write_token_file lookup insert
created = refl

created_token : (load_or_create_token io env []).1 ≡ ok ("0f3a", path)
unfolding load_or_create_token trim_space is_space default_token_path read_token_file
    write_token_file lookup
created_token = refl

-- The scheme is read in any case, and a wrong token is refused.
bearer : authorized (record { token_header = " "; authorization = "bEARER  0f3a" }) "0f3a" ≡ true
unfolding authorized trim_space is_space
bearer = refl

wrong : authorized (record { token_header = "0f3b"; authorization = "Bearer 0f3a" }) "0f3a" ≡ false
unfolding authorized trim_space is_space
wrong = refl

io-IsHex : IsHex io
unfolding is_space
io-IsHex t h =
    rw (← (the_token t h)) ((refl, (refl, (refl, (refl, tt)))), ground (arith, eq_iff "0f3a" ""))
  where
    the_token : (s : String) → ◌≡◌ {A = Option String} (some "0f3a") (some s) → "0f3a" ≡ s
    the_token s q = cc

load_client_token-load_or_create_token_example :
    (load_client_token io env (load_or_create_token io env []).0
      ≡ ((load_or_create_token io env []).0, ok ("0f3a", path)))
    × (authorized (attach_token "0f3a" (record { token_header = ""; authorization = "" })) "0f3a"
        ≡ true)
load_client_token-load_or_create_token_example =
    load_client_token-load_or_create_token io io env [] "0f3a" path
      (record { token_header = ""; authorization = "" }) io-IsHex (refl, refl) created_token
