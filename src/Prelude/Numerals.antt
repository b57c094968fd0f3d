-- ===== src/Prelude/Numerals.antt =====
-- Decimal numerals: `String(n)` for a natural number, and `Number.parseInt(text, 10)`.
pub mod RoundTrip
use Prim.Native.Nat.{ℕ, zero, suc, ◌+◌, ◌-◌, ◌*◌, ◌/◌, ◌%◌}
use Prim.Native.Char.{Char, code}
use Prim.Native.String
use Prim.Native.String.{String, [], ◌∷◌}
use mathlib.Core.Bool.{Bool, true, false, ◌&&◌, ◌||◌}
use mathlib.Core.Option.{Option, none, some}
use klustr.Prelude.Tests.{eqb, ltb, leb, if◌then◌else◌}

unfoldable pub digit : ℕ → String
digit n =
    if eqb n 0
    then "0"
    else if eqb n 1
    then "1"
    else if eqb n 2
    then "2"
    else if eqb n 3
    then "3"
    else if eqb n 4
    then "4"
    else if eqb n 5
    then "5"
    else if eqb n 6
    then "6"
    else if eqb n 7
    then "7"
    else if eqb n 8
    then "8"
    else "9"

-- The fuel is the number itself plus one: a number is divided by ten less often than that.
decimal_from : ℕ → ℕ → String → String
unfolding digit
decimal_from zero n acc = acc
decimal_from (suc fuel) n acc =
    let more = decimal_from fuel (n / 10) (String.◌++◌ (digit (n % 10)) acc) in
    if ltb n 10 then String.◌++◌ (digit n) acc else more

unfoldable pub decimal : ℕ → String
unfolding decimal_from
decimal n = decimal_from (n + 1) n ""

-- An integer: `negsuc n` is -(n + 1).
pub data ℤ : Type 0 where
  pos : ℕ → ℤ
  negsuc : ℕ → ℤ

-- The characters that JavaScript skips before a number.
is_space : ℕ → Bool
is_space c =
    (leb 9 c && leb c 13)
    || eqb c 32
    || eqb c 160
    || eqb c 5760
    || (leb 8192 c && leb c 8202)
    || eqb c 8232
    || eqb c 8233
    || eqb c 8239
    || eqb c 8287
    || eqb c 12288
    || eqb c 65279

unfoldable pub skip_spaces : String → String
unfolding is_space
skip_spaces [] = []
skip_spaces (c ∷ s) =
    let rest = skip_spaces s in elim (is_space (code c)) [ true ↦ rest | false ↦ c ∷ s ]

abbrev is_digit : ℕ → Bool
is_digit c = leb 48 c && leb c 57

-- The longest run of digits, after the digits that were read already.
more_digits : ℕ → String → ℕ
more_digits n [] = n
more_digits n (c ∷ s) =
    let more = more_digits (n * 10 + (code c - 48)) s in
    elim (is_digit (code c)) [ true ↦ more | false ↦ n ]

unfoldable pub digits : String → Option ℕ
unfolding more_digits
digits [] = none
digits (c ∷ s) = if is_digit (code c) then some (more_digits (code c - 48) s) else none

abbrev negated : Option ℕ → Option ℤ
negated none = none
negated (some zero) = some (pos 0)
negated (some (suc n)) = some (negsuc n)

abbrev positive : Option ℕ → Option ℤ
positive none = none
positive (some n) = some (pos n)

abbrev signed : String → Option ℤ
signed [] = none
signed (c ∷ s) =
    if eqb (code c) 45
    then negated (digits s)
    else if eqb (code c) 43
    then positive (digits s)
    else positive (digits (c ∷ s))

-- `none` is NaN. The integer is exact, where JavaScript rounds beyond 2^53.
unfoldable pub parse_int : String → Option ℤ
unfolding skip_spaces digits
parse_int raw = signed (skip_spaces raw)

abbrev cons_unless_blank : Char → String → String
cons_unless_blank c [] = if is_space (code c) then [] else c ∷ []
cons_unless_blank c (d ∷ s) = c ∷ d ∷ s

unfoldable pub trim_end : String → String
unfolding is_space
trim_end [] = []
trim_end (c ∷ s) = cons_unless_blank c (trim_end s)

-- `text.trim()`
unfoldable pub trim : String → String
unfolding trim_end skip_spaces
trim s = trim_end (skip_spaces s)
