-- ===== src/Kv/Command/Tests.antt =====
-- Commands as a client types them.
use quaso.Prelude.{◌≡◌, refl}
use quaso.Prelude.Exec.{done, panic}
use quaso.Text.{is_whitespace, is_empty, trim, split}
use quaso.Kv.Command.{set, get, invalid, parse_command}
use quaso.Text.Words.{IsWord}
use quaso.Kv.Command.RoundTrip.{parse_command-typed, set_panics}

key-IsWord : IsWord "k1"
unfolding is_whitespace
key-IsWord = (refl, (refl, tt))

value-IsWord : IsWord "v"
unfolding is_whitespace
value-IsWord = (refl, tt)

parse_command-typed_example : parse_command "set k1 v" ≡ done (set "k1" "v")
unfolding is_empty
parse_command-typed_example = parse_command-typed (set "k1" "v") (key-IsWord, value-IsWord, refl)

gets : parse_command "get k1" ≡ done (get "k1")
unfolding parse_command is_whitespace trim split
gets = refl

set_panics_example : parse_command "set k1" ≡ panic
unfolding is_empty
set_panics_example = set_panics "k1" key-IsWord refl

-- Upper case, and white space at the ends.
upper_case : parse_command " SET k1 v " ≡ done (set "k1" "v")
unfolding parse_command is_whitespace trim split
upper_case = refl

-- Two spaces have an empty word between them.
two_spaces : parse_command "get  k1" ≡ done (get "")
unfolding parse_command is_whitespace trim split
two_spaces = refl

unknown : parse_command "put k1 v" ≡ done invalid
unfolding parse_command is_whitespace trim split
unknown = refl
