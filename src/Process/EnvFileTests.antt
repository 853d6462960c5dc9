-- ===== src/Process/EnvFileTests.antt =====
-- internal/process/process.go: tests of loadEnvFile's parsing.
use anito.Prelude.{String, List, [], ◌∷◌, ◌≡◌, refl}
use anito.Process.EnvFile.{
  load_env_text, parse_env_line, vars, bad_line, invalid_entry, drop_seven, has_blank, unquote,
}
use anito.Process.EnvLines.{AreRead, load_env_text-bad_line}
use anito.Proxy.Keys.{has_prefix}
use anito.Text.Trim.{trim_space, is_space}

parses :
    load_env_text "# local\nexport PORT = 8080\n\nNAME=\"my app\"\nEMPTY="
    ≡ vars ("PORT=8080" ∷ "NAME=my app" ∷ "EMPTY=" ∷ [])
unfolding load_env_text trim_space is_space has_prefix drop_seven has_blank unquote
parses = refl

refuses : load_env_text "A=1\nnot a variable\nB=2" ≡ bad_line 2 invalid_entry
unfolding load_env_text trim_space is_space has_prefix has_blank
refuses = refl

abbrev good_lines : List String
good_lines = "#" ∷ "P=80" ∷ []

good_lines-AreRead : AreRead good_lines
unfolding parse_env_line trim_space is_space has_prefix drop_seven has_blank unquote
good_lines-AreRead = ((refl, tt), tt, ((refl, (refl, (refl, (refl, tt)))), tt, tt))

load_env_text-bad_line_example : load_env_text "#\nP=80\nno" ≡ bad_line 3 invalid_entry
unfolding parse_env_line trim_space is_space has_prefix
load_env_text-bad_line_example =
    load_env_text-bad_line "no" "" (refl, (refl, tt)) tt tt good_lines good_lines-AreRead
