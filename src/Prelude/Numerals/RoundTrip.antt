-- ===== src/Prelude/Numerals/RoundTrip.antt =====
-- `parseInt` reads back what `String(n)` prints, so that different numbers are printed differently.
use Prim.Native.Nat.{ℕ, zero, suc, ◌+◌, ◌-◌, ◌*◌, ◌/◌, ◌%◌, ◌<◌}
use Prim.Native.Char.{Char, code}
use Prim.Native.String
use Prim.Native.String.{String}
use mathlib.Core.Path.{◌≡◌, refl, sym, ap, ◌∙◌}
use native.Mathlib.Omega.{arith}
use text.Mathlib.TextLemmas.{nil-append, cons-append}
use mathlib.Core.Bool.{Bool, true, false}
use mathlib.Core.Option.{some}
use klustr.Prelude.Numerals.{
  digit, decimal_from, is_digit, more_digits, decimal, is_space, skip_spaces, digits, parse_int,
  pos,
}

read_one :
    (c : Char) (k : ℕ) (acc : String)
    → is_digit (code c) ≡ true
    → more_digits k (String.◌++◌ (String.◌∷◌ c String.[]) acc)
      ≡ more_digits (k * 10 + (code c - 48)) acc
unfolding more_digits
read_one c k acc h = rw (cons-append c String.[] acc) (rw (nil-append acc) (ground arith))

-- One digit read goes into the number read so far.
more_digits-digit :
    (k n : ℕ) (acc : String)
    → n < 10
    → more_digits k (String.◌++◌ (digit n) acc) ≡ more_digits (k * 10 + n) acc
unfolding digit
more_digits-digit k zero acc h = read_one "0" k acc refl
more_digits-digit k (suc zero) acc h = read_one "1" k acc refl
more_digits-digit k (suc (suc zero)) acc h = read_one "2" k acc refl
more_digits-digit k (suc (suc (suc zero))) acc h = read_one "3" k acc refl
more_digits-digit k (suc (suc (suc (suc zero)))) acc h = read_one "4" k acc refl
more_digits-digit k (suc (suc (suc (suc (suc zero))))) acc h = read_one "5" k acc refl
more_digits-digit k (suc (suc (suc (suc (suc (suc zero)))))) acc h = read_one "6" k acc refl
more_digits-digit k (suc (suc (suc (suc (suc (suc (suc zero))))))) acc h = read_one "7" k acc refl
more_digits-digit k (suc (suc (suc (suc (suc (suc (suc (suc zero)))))))) acc h =
    read_one "8" k acc refl
more_digits-digit k (suc (suc (suc (suc (suc (suc (suc (suc (suc zero))))))))) acc h =
    read_one "9" k acc refl
more_digits-digit k (suc (suc (suc (suc (suc (suc (suc (suc (suc (suc n)))))))))) acc h =
    absurd (omega arith)

more_digits-decimal_from :
    (fuel n : ℕ) (acc : String)
    → n < fuel
    → more_digits 0 (decimal_from fuel n acc) ≡ more_digits n acc
unfolding decimal_from
more_digits-decimal_from zero n acc h = absurd (omega arith)
more_digits-decimal_from (suc fuel) n acc h = ground (
  arith,
  more_digits-digit 0 n acc,
  more_digits-decimal_from fuel (n / 10) (String.◌++◌ (digit (n % 10)) acc),
  more_digits-digit (n / 10) (n % 10) acc,
)

more_digits-decimal : (n : ℕ) → more_digits 0 (decimal n) ≡ n
unfolding decimal more_digits
more_digits-decimal n = more_digits-decimal_from (n + 1) n "" (omega arith)

pub decimal_injective : (m n : ℕ) → decimal m ≡ decimal n → m ≡ n
decimal_injective m n e = sym (more_digits-decimal m) ∙ ap (more_digits 0) e ∙ more_digits-decimal n

starts_with_digit : String → Bool
starts_with_digit String.[] = false
starts_with_digit (String.◌∷◌ c s) = is_digit (code c)

starts-one :
    (c : Char) (acc : String)
    → is_digit (code c) ≡ true
    → starts_with_digit (String.◌++◌ (String.◌∷◌ c String.[]) acc) ≡ true
unfolding starts_with_digit
starts-one c acc h = rw (cons-append c String.[] acc) h

starts-digit :
    (n : ℕ) (acc : String) → n < 10 → starts_with_digit (String.◌++◌ (digit n) acc) ≡ true
unfolding digit
starts-digit zero acc h = starts-one "0" acc refl
starts-digit (suc zero) acc h = starts-one "1" acc refl
starts-digit (suc (suc zero)) acc h = starts-one "2" acc refl
starts-digit (suc (suc (suc zero))) acc h = starts-one "3" acc refl
starts-digit (suc (suc (suc (suc zero)))) acc h = starts-one "4" acc refl
starts-digit (suc (suc (suc (suc (suc zero))))) acc h = starts-one "5" acc refl
starts-digit (suc (suc (suc (suc (suc (suc zero)))))) acc h = starts-one "6" acc refl
starts-digit (suc (suc (suc (suc (suc (suc (suc zero))))))) acc h = starts-one "7" acc refl
starts-digit (suc (suc (suc (suc (suc (suc (suc (suc zero)))))))) acc h = starts-one "8" acc refl
starts-digit (suc (suc (suc (suc (suc (suc (suc (suc (suc zero))))))))) acc h =
    starts-one "9" acc refl
starts-digit (suc (suc (suc (suc (suc (suc (suc (suc (suc (suc n)))))))))) acc h =
    absurd (omega arith)

starts-decimal_from :
    (fuel n : ℕ) (acc : String) → n < fuel → starts_with_digit (decimal_from fuel n acc) ≡ true
unfolding decimal_from
starts-decimal_from zero n acc h = absurd (omega arith)
starts-decimal_from (suc fuel) n acc h = ground (
  arith,
  starts-digit n acc,
  starts-decimal_from fuel (n / 10) (String.◌++◌ (digit (n % 10)) acc),
)

starts-decimal : (n : ℕ) → starts_with_digit (decimal n) ≡ true
unfolding decimal
starts-decimal n = starts-decimal_from (n + 1) n "" (omega arith)

parse_int-digits :
    (raw : String) → starts_with_digit raw ≡ true → parse_int raw ≡ some (pos (more_digits 0 raw))
unfolding starts_with_digit parse_int skip_spaces digits more_digits is_space
parse_int-digits String.[] h = absurd (cc)
parse_int-digits (String.◌∷◌ c s) h = ground arith

pub parse_int-decimal : (n : ℕ) → parse_int (decimal n) ≡ some (pos n)
parse_int-decimal n =
    parse_int-digits (decimal n) (starts-decimal n) ∙ ap (λ k. some (pos k)) (more_digits-decimal n)

pub decimal-nonempty : (n : ℕ) → decimal n ≡ "" → ⊥
unfolding starts_with_digit
decimal-nonempty n e = absurd cc (starts-decimal n, ap starts_with_digit e)
