-- ===== src/Text.antt =====
-- What the program uses of Rust's `str`: white space, `trim` and `split(" ")`.
pub mod Words
use Prim.Native.Char.{Char, code}
use Prim.Native.String.{[], ◌∷◌}
use mathlib.Core.List
use quaso.Prelude.{ℕ, String, Bool, true, false, ◌&&◌, ◌||◌, List, leb, ◌==◌, if◌then◌else◌}

-- `char::is_whitespace`
unfoldable pub is_whitespace : Char → Bool
is_whitespace c =
    let n = code c in
    (leb 9 n && leb n 13)
    || n == 32
    || n == 133
    || n == 160
    || n == 5760
    || (leb 8192 n && leb n 8202)
    || n == 8232
    || n == 8233
    || n == 8239
    || n == 8287
    || n == 12288

unfoldable pub trim_start : String → String
trim_start [] = []
trim_start (c ∷ s) = let rest = trim_start s in if is_whitespace c then rest else c ∷ s

unfoldable pub is_empty : String → Bool
is_empty [] = true
is_empty (c ∷ s) = false

-- Spaces are dropped where nothing but spaces follows.
unfoldable pub trim_end : String → String
unfolding is_empty
trim_end [] = []
trim_end (c ∷ s) =
    let rest = trim_end s in if is_empty rest && is_whitespace c then [] else c ∷ rest

unfoldable pub trim : String → String
unfolding trim_start trim_end
trim s = trim_end (trim_start s)

add_to_first : Char → List String → List String
add_to_first c List.[] = List.◌∷◌ (c ∷ []) List.[]
add_to_first c (List.◌∷◌ w ws) = List.◌∷◌ (c ∷ w) ws

-- `split(" ")`: one more word than there are spaces.
unfoldable pub split : String → List String
unfolding add_to_first
split [] = List.◌∷◌ [] List.[]
split (c ∷ s) =
    let rest = split s in if code c == b' ' then List.◌∷◌ [] rest else add_to_first c rest
