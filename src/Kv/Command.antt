-- ===== src/Kv/Command.antt =====
-- kv/src/storage/util.rs, and `Operation` of kv/src/storage/kv.rs: the commands that clients type.
pub mod RoundTrip
pub mod Valid
mod Tests
use Prim.Native.Char.{Char, code}
use Prim.Native.String.{[], ◌∷◌}
use mathlib.Core.List
use quaso.Prelude.{
  ℕ, zero, suc, ◌+◌, String, Bool, true, false, not, ◌&&◌, ◌||◌, Option, none, some, List, map, ltb,
  leb, ◌==◌, if◌then◌else◌, length, get_elem?, str_eq,
}
use quaso.Text.{trim, split}
use quaso.Prelude.Exec.{Outcome, done, panic, expect, map_done}

pub data Operation : Type 0 where
  set : String → String → Operation
  get : String → Operation
  delete : String → Operation
  invalid : Operation

abbrev pub codes : String → List ℕ
codes [] = List.[]
codes (c ∷ s) = List.◌∷◌ (code c) (codes s)

-- `to_lowercase`. A letter outside ASCII stays: none lowers to a letter of the three commands.
to_lower : ℕ → ℕ
to_lower n = if leb b'A' n && leb n b'Z' then n + 32 else n

-- Equality of lists of code points.
same_codes : List ℕ → List ℕ → Bool
same_codes List.[] List.[] = true
same_codes (List.◌∷◌ a l) (List.◌∷◌ b m) = a == b && same_codes l m
same_codes _ _ = false

unfoldable pub parse_opr : String → Option String
unfolding trim to_lower same_codes
parse_opr opr =
    let lower = map to_lower (codes (trim opr)) in
    if same_codes lower (codes "set")
    then some "set"
    else if same_codes lower (codes "get")
    then some "get"
    else if same_codes lower (codes "delete")
    then some "delete"
    else none

with_opr : Option String → List String → Option (String × List String)
with_opr none command = none
with_opr (some opr) command = some (opr, command)

-- A command of one word is none.
unfoldable pub check_words : List String → Option (String × List String)
unfolding parse_opr with_opr
check_words List.[] = none
check_words (List.◌∷◌ w List.[]) = none
check_words (List.◌∷◌ w (List.◌∷◌ x ws)) = with_opr (parse_opr w) (List.◌∷◌ w (List.◌∷◌ x ws))

unfoldable pub validate : String → Option (String × List String)
unfolding check_words
validate command = check_words (split (trim command))

-- `res.1[i].clone()`
word_at : List String → ℕ → Outcome String
word_at words i = expect (get_elem? words i)

set_of : Outcome String → Outcome String → Outcome Operation
set_of (done key) (done value) = done (set key value)
set_of (done key) panic = panic
set_of panic value = panic

unfoldable pub operation_of : Option (String × List String) → Outcome Operation
unfolding word_at set_of
operation_of none = done invalid
operation_of (some (opr, words)) =
    if str_eq opr "get"
    then map_done get (word_at words 1)
    else if str_eq opr "set"
    then set_of (word_at words 1) (word_at words 2)
    else if str_eq opr "delete"
    then map_done delete (word_at words 1)
    else done invalid

-- An index past the last word panics.
unfoldable pub parse_command : String → Outcome Operation
unfolding validate operation_of
parse_command command = operation_of (validate command)
