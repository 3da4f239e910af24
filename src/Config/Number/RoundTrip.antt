-- ===== src/Config/Number/RoundTrip.antt =====
-- Numbers that are printed are read back, and what is read is an unsigned number of 64 bits.
use Prim.Native.Char.{code}
use Prim.Native.String.{[], ◌∷◌}
use native.Mathlib.Nat.{pow-suc}
use native.Mathlib.Decide.{ℕ_discrete}
use quaso.Prelude.{
  ℕ, zero, suc, ◌+◌, ◌-◌, ◌*◌, ◌/◌, ◌%◌, ◌^◌, ◌≤◌, ◌<◌, ◌≡◌, ◌≢◌, refl, ap, ◌∙◌, String, false,
  some, arith, ◌==◌,
}
use quaso.Text.{is_whitespace}
use quaso.Text.Words.{IsWord}
use quaso.Config.Number.{pos, max_u64, digit, emit, i64_digits, format_nat, format, scan, parse_u64}

code-digit : (d : ℕ) → d < 10 → code (digit d) ≡ 48 + d
unfolding digit
code-digit zero h = refl
code-digit (suc zero) h = refl
code-digit (suc (suc zero)) h = refl
code-digit (suc (suc (suc zero))) h = refl
code-digit (suc (suc (suc (suc zero)))) h = refl
code-digit (suc (suc (suc (suc (suc zero))))) h = refl
code-digit (suc (suc (suc (suc (suc (suc zero)))))) h = refl
code-digit (suc (suc (suc (suc (suc (suc (suc zero))))))) h = refl
code-digit (suc (suc (suc (suc (suc (suc (suc (suc zero)))))))) h = refl
code-digit (suc (suc (suc (suc (suc (suc (suc (suc (suc zero))))))))) h = refl
code-digit (suc (suc (suc (suc (suc (suc (suc (suc (suc (suc d)))))))))) h = absurd (omega arith)

-- A text that begins with a digit.
abbrev HasDigit : String → Type 0
HasDigit [] = ⊥
HasDigit (c ∷ s) = (48 ≤ code c) × (code c ≤ 57)

-- Reading the last digit after the others gives the number.
scan_last : (n : ℕ) (out : String) → n ≤ max_u64 → scan (digit (n % 10) ∷ out) (n / 10) ≡ scan out n
unfolding scan
scan_last n out h =
    let e : code (digit (n % 10)) ≡ 48 + n % 10 = code-digit (n % 10) (omega arith) in ground arith

not_zero : (n : ℕ) → n ≢ 0 → (n == 0) ≡ false
not_zero n h = ground arith

scan-emit :
    (fuel n : ℕ) (out : String)
    → n < 10 ^ fuel
    → n ≤ max_u64
    → scan (emit fuel n out) 0 ≡ scan out n
unfolding emit
scan-emit zero n out small fits = ap (scan out) (omega arith)
scan-emit (suc fuel) n out small fits = elim (ℕ_discrete n 0) [
  | yes e ↦ rw e refl
  | no some_left ↦ rw (not_zero n some_left) (
      scan-emit fuel (n / 10) (digit (n % 10) ∷ out) (omega (arith, pow-suc 10 fuel)) (omega arith)
      ∙ scan_last n out fits)
]

digit-HasDigit : (d : ℕ) (out : String) → d < 10 → HasDigit (digit d ∷ out)
digit-HasDigit d out h = omega (arith, code-digit d h)

emit-HasDigit : (fuel n : ℕ) (out : String) → HasDigit out → HasDigit (emit fuel n out)
unfolding emit
emit-HasDigit zero n out h = h
emit-HasDigit (suc fuel) n out h = elim (ℕ_discrete n 0) [
  | yes e ↦ rw e h
  | no some_left ↦ rw (not_zero n some_left) (
      emit-HasDigit fuel (n / 10) (digit (n % 10) ∷ out)
        (digit-HasDigit (n % 10) out (omega arith)))
]

digit-is_whitespace : (d : ℕ) → d < 10 → is_whitespace (digit d) ≡ false
unfolding is_whitespace
digit-is_whitespace d h = ground (arith, code-digit d h)

emit-IsWord : (fuel n : ℕ) (out : String) → IsWord out → IsWord (emit fuel n out)
unfolding emit
emit-IsWord zero n out h = h
emit-IsWord (suc fuel) n out h = elim (ℕ_discrete n 0) [
  | yes e ↦ rw e h
  | no some_left ↦ rw (not_zero n some_left) (
      emit-IsWord fuel (n / 10) (digit (n % 10) ∷ out)
        (digit-is_whitespace (n % 10) (omega arith), h))
]

pub format_nat-IsWord : (n : ℕ) → IsWord (format_nat n)
unfolding format_nat is_whitespace
format_nat-IsWord n = elim (ℕ_discrete n 0) [
  | yes e ↦ rw e (refl, tt)
  | no positive ↦ rw (not_zero n positive) (emit-IsWord i64_digits n "" tt)
]

parse_u64-scan : (s : String) → HasDigit s → parse_u64 s ≡ scan s 0
unfolding parse_u64
parse_u64-scan [] h = absurd h
parse_u64-scan (c ∷ s) h = ground arith

emit-positive : (fuel n : ℕ) → 0 < fuel → n ≢ 0 → HasDigit (emit fuel n "")
unfolding emit
emit-positive zero n h positive = absurd (omega arith)
emit-positive (suc fuel) n h positive =
    rw (not_zero n positive)
      (emit-HasDigit fuel (n / 10) (digit (n % 10) ∷ "") (digit-HasDigit (n % 10) "" (omega arith)))

enough_digits : (n : ℕ) → n < 2 ^ 63 → (0 < i64_digits) × (n < 10 ^ i64_digits)
unfolding i64_digits
enough_digits n h = (omega arith, omega arith)

format_nat-HasDigit : (n : ℕ) → n < 2 ^ 63 → HasDigit (format_nat n)
unfolding format_nat
format_nat-HasDigit n h = elim (ℕ_discrete n 0) [
  | yes e ↦ rw e (omega arith)
  | no positive ↦
      rw (not_zero n positive) (emit-positive i64_digits n (enough_digits n h).0 positive)
]

scan-format_nat : (n : ℕ) → n < 2 ^ 63 → scan (format_nat n) 0 ≡ some n
unfolding format_nat scan
scan-format_nat n h = elim (ℕ_discrete n 0) [
  | yes e ↦ rw e refl
  | no positive ↦
      rw (not_zero n positive) (scan-emit i64_digits n "" (enough_digits n h).1 (omega arith))
]

-- What an `i64` that is not negative prints is read back as it.
pub parse_u64-format : (n : ℕ) → n < 2 ^ 63 → parse_u64 (format (pos n)) ≡ some n
unfolding format
parse_u64-format n h = parse_u64-scan (format_nat n) (format_nat-HasDigit n h) ∙ scan-format_nat n h

scan-le : (s : String) (n r : ℕ) → n ≤ max_u64 → scan s n ≡ some r → r ≤ max_u64
unfolding scan
scan-le [] n r fits h = ground arith
scan-le (c ∷ s) n r fits h = ground (arith, scan-le s (n * 10 + (code c - 48)) r)

-- A number that is read is at most 2^64 - 1.
parse_u64-le : (s : String) (r : ℕ) → parse_u64 s ≡ some r → r ≤ max_u64
unfolding parse_u64
parse_u64-le [] r h = cc
parse_u64-le (c ∷ []) r h = ground (arith, scan-le "" 0 r)
parse_u64-le (c ∷ d ∷ s) r h = ground (arith, scan-le (c ∷ d ∷ s) 0 r, scan-le (d ∷ s) 0 r)
