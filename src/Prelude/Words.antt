-- ===== src/Prelude/Words.antt =====
-- The string methods of Rust that the parsers call: trimming, splitting, lines and numbers.
use Prim.Native.Nat.{ℕ, zero, suc, ◌+◌, ◌-◌, ◌*◌, ◌/◌, ◌%◌}
use mathlib.Core.Bool.{Bool, ◌&&◌, ◌||◌}
use mathlib.Core.List.{List, [], ◌∷◌, ◌++◌, reverse}
use mathlib.Core.Path.{◌≡◌, refl}
use mathlib.Core.Logic.{◌≢◌}
use native.Mathlib.Omega.{arith}
use rustory.Prelude.Lists.{All}
use mathlib.Core.Option.{Option, none, some}
use mathlib.Core.Logic.{inl, inr}
use rustory.Prelude.Tests.{Bool-cases, ltb, leb, ◌==◌, if◌then◌else◌}
use rustory.Prelude.Int.{ℤ, pos, negsuc}
use rustory.Prelude.Strings.{Text}

-- The characters with the Unicode property White_Space.
unfoldable pub is_whitespace : ℕ → Bool
is_whitespace c =
    (leb 9 c && leb c 13)
    || (c == 32
        || (c == 133
            || (c == 160
                || (c == 5760
                    || ((leb 8192 c && leb c 8202)
                        || (c == 8232
                            || (c == 8233 || (c == 8239 || (c == 8287 || c == 12288)))))))))

-- A text without the characters at its front, or at its end, that pass a test.
unfoldable pub drop_front : (ℕ → Bool) → Text → Text
drop_front p [] = []
drop_front p (c ∷ t) = let rest = drop_front p t in if p c then rest else c ∷ t

unfoldable pub drop_back : (ℕ → Bool) → Text → Text
drop_back p [] = []
drop_back p (c ∷ t) = drop_back_cons (drop_back p t)
  where
    drop_back_cons : Text → Text
    drop_back_cons [] = if p c then [] else c ∷ []
    drop_back_cons (d ∷ u) = c ∷ d ∷ u

unfoldable pub trim_end : Text → Text
unfolding drop_back is_whitespace
trim_end = drop_back is_whitespace

unfoldable pub trim : Text → Text
unfolding drop_front trim_end
trim t = drop_front is_whitespace (trim_end t)

unfoldable pub trim_end_matches : ℕ → Text → Text
unfolding drop_back
trim_end_matches c = drop_back (λ d. d == c)

unfoldable pub strip_prefix : Text → Text → Option Text
strip_prefix [] t = some t
strip_prefix (a ∷ s) [] = none
strip_prefix (a ∷ s) (b ∷ t) = if a == b then strip_prefix s t else none

-- `t.split_once(c)`, with the character first.
unfoldable pub split_once : ℕ → Text → Option (Text × Text)
split_once c [] = none
split_once c (d ∷ t) =
    if d == c
    then some ([], t)
    else elim (split_once c t) [ none ↦ none | some (a, b) ↦ some (d ∷ a, b) ]

-- `t.split(c)`: never empty.
unfoldable pub split_on : ℕ → Text → List Text
split_on c [] = [] ∷ []
split_on c (d ∷ t) = split_more (split_on c t)
  where
    split_more : List Text → List Text
    split_more [] = []
    split_more (part ∷ parts) = if d == c then [] ∷ part ∷ parts else (d ∷ part) ∷ parts

-- The characters before the first whitespace.
unfoldable pub until_space : Text → Text
unfolding is_whitespace
until_space [] = []
until_space (c ∷ t) = let rest = until_space t in if is_whitespace c then [] else c ∷ rest

-- `t.split_whitespace().next()`
unfoldable pub first_word : Text → Option Text
unfolding drop_front until_space
first_word t = elim (until_space (drop_front is_whitespace t)) [ [] ↦ none | c ∷ w ↦ some (c ∷ w) ]

-- A carriage return at the end of a line that a line feed ends.
unfoldable pub strip_cr : Text → Text
strip_cr [] = []
strip_cr (c ∷ t) = elim t [ [] ↦ (if c == 13 then [] else c ∷ []) | _ ↦ c ∷ strip_cr t ]

-- `t.lines()`: `cur` is the line read so far, backwards.
unfoldable pub lines_from : Text → Text → List Text
unfolding strip_cr
lines_from [] [] = []
lines_from (c ∷ cur) [] = reverse (c ∷ cur) ∷ []
lines_from cur (c ∷ t) =
    if c == 10 then strip_cr (reverse cur) ∷ lines_from [] t else lines_from (c ∷ cur) t

unfoldable pub lines : Text → List Text
unfolding lines_from
lines t = lines_from [] t

-- Digits after the number read so far.
unfoldable pub parse_digits : ℕ → Text → Option ℕ
parse_digits n [] = some n
parse_digits n (c ∷ t) = if leb 48 c && leb c 57 then parse_digits (n * 10 + (c - 48)) t else none

-- One digit at least.
unfoldable pub parse_number : Text → Option ℕ
unfolding parse_digits
parse_number [] = none
parse_number (c ∷ t) = parse_digits 0 (c ∷ t)

-- `t.parse::<i64>()`
unfoldable pub parse_i64 : Text → Option ℤ
unfolding parse_number
parse_i64 [] = none
parse_i64 (c ∷ t) =
    if c == 45
    then elim (parse_number t) [
      | none ↦ none
      | some n ↦
          (if n == 0
            then some (pos 0)
            else if leb n 9223372036854775808
            then some (negsuc (n - 1))
            else none)
    ]
    else elim (parse_number (if c == 43 then t else c ∷ t)) [
      | none ↦ none
      | some n ↦ if ltb n 9223372036854775808 then some (pos n) else none
    ]

-- `t.parse::<usize>()`
unfoldable pub parse_usize : Text → Option ℕ
unfolding parse_number
parse_usize [] = none
parse_usize (c ∷ t) = elim (parse_number (if c == 43 then t else c ∷ t)) [
  | none ↦ none
  | some n ↦ if ltb n 18446744073709551616 then some n else none
]

-- The decimal digits of a number of 64 bits, before those read so far: 20 digits are enough.
unfoldable pub show_digits : ℕ → ℕ → Text → Text
show_digits zero n acc = acc
show_digits (suc fuel) n acc =
    let rest = show_digits fuel (n / 10) ((48 + n % 10) ∷ acc) in
    if ltb n 10 then (48 + n) ∷ acc else rest

unfoldable pub show_u64 : ℕ → Text
unfolding show_digits
show_u64 n = show_digits 20 n []

unfoldable pub show_i64 : ℤ → Text
unfolding show_u64
show_i64 (pos n) = show_u64 n
show_i64 (negsuc n) = 45 ∷ show_u64 (suc n)

-- A text splits at the first of its separators.
pub split_once-append :
    (c : ℕ) (a b : Text) → All (λ d. d ≢ c) a → split_once c (a ++ c ∷ b) ≡ some (a, b)
unfolding split_once
split_once-append c [] b h = ground arith
split_once-append c (d ∷ a) b h = ground (arith, split_once-append c a b h.1, h.0)

-- A text without the separator is its only part, and one with a first part before a separator has it first.
pub split_on-none : (c : ℕ) (a : Text) → All (λ d. d ≢ c) a → split_on c a ≡ a ∷ []
unfolding split_on
split_on-none c [] h = refl
split_on-none c (d ∷ a) h = rw (split_on-none c a h.1) (ground (arith, h.0))

-- A split has at least one part.
split_on-cons :
    (c : ℕ) (t : Text) → (part : Text) × (parts : List Text) × (split_on c t ≡ part ∷ parts)
unfolding split_on
split_on-cons c [] = ([], [], refl)
split_on-cons c (d ∷ t) =
    let (part, parts, e) = split_on-cons c t in
    elim (Bool-cases (d == c)) [
      | inl here ↦ ([], part ∷ parts, rw e (rw here refl))
      | inr on ↦ (d ∷ part, parts, rw e (rw on refl))
    ]

pub split_on-append :
    (c : ℕ) (a b : Text) → All (λ d. d ≢ c) a → split_on c (a ++ c ∷ b) ≡ a ∷ split_on c b
unfolding split_on
split_on-append c [] b h = let (part, parts, e) = split_on-cons c b in rw e (ground arith)
split_on-append c (d ∷ a) b h = rw (split_on-append c a b h.1) (ground (arith, h.0))
