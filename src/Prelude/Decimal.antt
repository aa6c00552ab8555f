-- ===== src/Prelude/Decimal.antt =====
-- Numbers as decimal text: what is printed is read back.
use Prim.Native.Nat.{ℕ, zero, suc, ◌+◌, ◌-◌, ◌*◌, ◌/◌, ◌%◌, ◌^◌, ◌≤◌, ◌<◌}
use native.Mathlib.Nat.{pow-suc}
use native.Mathlib.Omega.{arith}
use mathlib.Core.Path.{◌≡◌, refl, ◌∙◌, ap}
use mathlib.Core.Logic.{◌≢◌, inl, inr}
use mathlib.Core.Option.{some}
use mathlib.Core.List.{[], ◌∷◌}
use mathlib.Core.Bool.{true, false}
use rustory.Prelude.Tests.{ltb, leb, ◌==◌, Bool-cases}
use rustory.Prelude.Int.{ℤ, pos, negsuc}
use rustory.Prelude.Lists.{All}
use rustory.Prelude.Strings.{Text}
use rustory.Prelude.Words.{
  parse_digits, parse_number, parse_i64, parse_usize, show_digits, show_u64, show_i64,
}

abbrev IsDigit : ℕ → Type 0
IsDigit c = (48 ≤ c) × (c ≤ 57)

-- A text of digits, at least one.
abbrev IsNumeral : Text → Type 0
IsNumeral [] = ⊥
IsNumeral (c ∷ t) = IsDigit c × All IsDigit t

IsNumeral-show_digits :
    (fuel n : ℕ) (acc : Text) → IsNumeral acc → IsNumeral (show_digits fuel n acc)
unfolding show_digits
IsNumeral-show_digits zero n acc h = h
IsNumeral-show_digits (suc fuel) n [] h = absurd h
IsNumeral-show_digits (suc fuel) n (c ∷ acc) h = elim (Bool-cases (ltb n 10)) [
  | inl last ↦ rw last (ground arith)
  | inr more ↦ rw more (
      IsNumeral-show_digits fuel (n / 10) ((48 + n % 10) ∷ c ∷ acc)
        ((omega arith, omega arith), (h.0, h.1)))
]

IsNumeral-show_u64 : (n : ℕ) → IsNumeral (show_u64 n)
unfolding show_u64 show_digits
IsNumeral-show_u64 n = elim (Bool-cases (ltb n 10)) [
  | inl last ↦ rw last (ground arith)
  | inr more ↦
      rw more
        (IsNumeral-show_digits 19 (n / 10) ((48 + n % 10) ∷ []) ((omega arith, omega arith), tt))
]

-- Reading the digits of a number gives the number, and goes on behind them.
parse_digits-show_digits :
    (fuel n : ℕ) (acc : Text)
    → n < 10 ^ fuel
    → parse_digits 0 (show_digits fuel n acc) ≡ parse_digits n acc
unfolding show_digits parse_digits
parse_digits-show_digits zero n acc h =
    let nothing : 0 ≡ n = omega (arith, h) in ap (λ m. parse_digits m acc) nothing
parse_digits-show_digits (suc fuel) n acc h = elim (Bool-cases (ltb n 10)) [
  | inl last ↦ rw last (ground arith)
  | inr more ↦
      let less : n / 10 < 10 ^ fuel = omega (arith, h, pow-suc 10 fuel) in
      let whole : n / 10 * 10 + (48 + n % 10 - 48) ≡ n = omega arith in
      rw more (
        parse_digits-show_digits fuel (n / 10) ((48 + n % 10) ∷ acc) less
        ∙ ground (arith, ap (λ m. parse_digits m acc) whole))
]

numeral_reads : (t : Text) → IsNumeral t → parse_number t ≡ parse_digits 0 t
unfolding parse_number
numeral_reads [] h = absurd h
numeral_reads (c ∷ t) h = refl

parse_number-show_u64 : (n : ℕ) → n < 18446744073709551616 → parse_number (show_u64 n) ≡ some n
unfolding show_u64
parse_number-show_u64 n h =
    numeral_reads (show_u64 n) (IsNumeral-show_u64 n)
    ∙ parse_digits-show_digits 20 n [] (omega arith)
    ∙ unfold parse_digits in refl

-- Neither sign stands at the front of a numeral.
parse_usize-numeral :
    (n : ℕ) (t : Text)
    → IsNumeral t
    → parse_number t ≡ some n
    → n < 18446744073709551616
    → parse_usize t ≡ some n
unfolding parse_usize
parse_usize-numeral n [] h e le = absurd h
parse_usize-numeral n (c ∷ t) h e le =
    let plain : (c == 43) ≡ false = ground arith in
    let fits : ltb n 18446744073709551616 ≡ true = ground arith in
    rw (plain, e, parse_usize) (rw fits refl)

parse_i64-numeral :
    (n : ℕ) (t : Text)
    → IsNumeral t
    → parse_number t ≡ some n
    → n < 9223372036854775808
    → parse_i64 t ≡ some (pos n)
unfolding parse_i64
parse_i64-numeral n [] h e le = absurd h
parse_i64-numeral n (c ∷ t) h e le =
    let minus : (c == 45) ≡ false = ground arith in
    let plus : (c == 43) ≡ false = ground arith in
    let fits : ltb n 9223372036854775808 ≡ true = ground arith in
    rw (minus, plus, e, parse_i64) (rw fits refl)

-- A `usize` is read back from its print.
pub parse_usize-show_u64 : (n : ℕ) → n < 18446744073709551616 → parse_usize (show_u64 n) ≡ some n
parse_usize-show_u64 n h =
    parse_usize-numeral n (show_u64 n) (IsNumeral-show_u64 n) (parse_number-show_u64 n h) h

-- The range of an `i64`.
abbrev pub IsI64 : ℤ → Type 0
IsI64 (pos n) = n < 9223372036854775808
IsI64 (negsuc n) = n < 9223372036854775808

parse_i64-minus :
    (n : ℕ) (t : Text)
    → parse_number t ≡ some (suc n)
    → n < 9223372036854775808
    → parse_i64 (45 ∷ t) ≡ some (negsuc n)
unfolding parse_i64
parse_i64-minus n t e h =
    let fits : leb (suc n) 9223372036854775808 ≡ true = ground arith in
    rw (e, parse_i64) (rw fits (ground arith))

-- An `i64` is read back from its print.
pub parse_i64-show_i64 : (z : ℤ) → IsI64 z → parse_i64 (show_i64 z) ≡ some z
unfolding show_i64
parse_i64-show_i64 (pos n) h =
    parse_i64-numeral n (show_u64 n) (IsNumeral-show_u64 n) (parse_number-show_u64 n (omega arith))
      h
parse_i64-show_i64 (negsuc n) h =
    parse_i64-minus n (show_u64 (suc n)) (parse_number-show_u64 (suc n) (omega arith)) h

-- Characters that are no digits do not stand in a printed number.
digits_avoid : (c : ℕ) (t : Text) → c < 48 → All IsDigit t → All (λ d. d ≢ c) t
digits_avoid c [] h k = tt
digits_avoid c (d ∷ t) h k = (omega (arith, k.0), digits_avoid c t h k.1)

numeral_digits : (t : Text) → IsNumeral t → All IsDigit t
numeral_digits [] h = tt
numeral_digits (c ∷ t) h = h

pub show_u64_avoids : (c n : ℕ) → c < 48 → All (λ d. d ≢ c) (show_u64 n)
show_u64_avoids c n h =
    digits_avoid c (show_u64 n) h (numeral_digits (show_u64 n) (IsNumeral-show_u64 n))

pub show_i64_avoids : (c : ℕ) (z : ℤ) → c < 45 → All (λ d. d ≢ c) (show_i64 z)
unfolding show_i64
show_i64_avoids c (pos n) h = show_u64_avoids c n (omega arith)
show_i64_avoids c (negsuc n) h = (omega arith, show_u64_avoids c (suc n) (omega arith))
