-- ===== src/Config/Number.antt =====
-- What raft/src/utils.rs uses of Rust's numbers: `format!("{}", val)` on an `i64`, and
-- `str::parse::<u64>`.
pub mod RoundTrip
use Prim.Native.Char.{Char, code}
use Prim.Native.String.{[], ◌∷◌}
use quaso.Prelude.{
  ℕ, zero, suc, ◌+◌, ◌-◌, ◌*◌, ◌/◌, ◌%◌, ◌^◌, String, ◌||◌, Option, none, some, ltb, ◌==◌,
  if◌then◌else◌,
}

-- An `i64`: a number, or one below zero.
pub data Integer : Type 0 where
  pos negsuc : ℕ → Integer

abbrev pub max_u64 : ℕ
max_u64 = 2 ^ 64 - 1

unfoldable pub digit : ℕ → Char
digit n =
    if n == 0
    then "0"
    else if n == 1
    then "1"
    else if n == 2
    then "2"
    else if n == 3
    then "3"
    else if n == 4
    then "4"
    else if n == 5
    then "5"
    else if n == 6
    then "6"
    else if n == 7
    then "7"
    else if n == 8
    then "8"
    else "9"

-- The digits of `n` in front of `out`, the last one first; no more than `fuel` of them.
unfoldable pub emit : ℕ → ℕ → String → String
unfolding digit
emit zero n out = out
emit (suc fuel) n out =
    let more = emit fuel (n / 10) (digit (n % 10) ∷ out) in if n == 0 then out else more

-- An `i64` has at most nineteen digits.
unfoldable pub i64_digits : ℕ
i64_digits = 19

unfoldable pub format_nat : ℕ → String
format_nat n = if n == 0 then "0" else emit i64_digits n ""

unfoldable pub format : Integer → String
unfolding format_nat
format (pos n) = format_nat n
format (negsuc n) = "-" ∷ format_nat (suc n)

-- Every digit is checked, and so is every multiplication and addition.
unfoldable pub scan : String → ℕ → Option ℕ
scan [] n = some n
scan (c ∷ s) n =
    let d = code c - 48 in
    let rest = scan s (n * 10 + d) in
    if ltb (code c) 48 || ltb 57 (code c)
    then none
    else if ltb max_u64 (n * 10 + d)
    then none
    else rest

-- A text of digits; not the empty one.
unfoldable pub scan_digits : String → Option ℕ
unfolding scan
scan_digits [] = none
scan_digits (c ∷ s) = scan (c ∷ s) 0

-- A plus sign may come first.
unfoldable pub parse_u64 : String → Option ℕ
unfolding scan_digits
parse_u64 [] = none
parse_u64 (c ∷ s) = if code c == 43 then scan_digits s else scan_digits (c ∷ s)
