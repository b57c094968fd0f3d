-- ===== src/ContextTags/Slug.antt =====
-- features/contexts/contextTagMeta.ts: `makeTagSlug` and `deriveShortLabel`.
pub mod Termination
use Prim.Native.Char.{Char, code}
use Prim.Native.String
use Prim.Native.String.{◌++◌}
use klustr.Prelude.{
  ℕ, zero, suc, ◌+◌, ◌-◌, String, ◌≡◌, refl, Bool, true, false, ◌&&◌, ◌||◌, Option, none, some,
  List, ◌==◌, if◌then◌else◌, leb, ltb, eqb, length, includes,
}
use klustr.Prelude.Numerals.{decimal, trim}

abbrev letters : String
letters = "abcdefghijklmnopqrstuvwxyz"

abbrev letter_at : ℕ → String → Char → Char
letter_at n String.[] d = d
letter_at zero (String.◌∷◌ c s) d = c
letter_at (suc n) (String.◌∷◌ c s) d = letter_at n s d

-- `c.toLowerCase()`, as far as the class [a-z0-9] can tell: beside A to Z, only the Kelvin sign and the
-- dotted capital I become texts with a letter of the class; any other capital stays outside of it.
lowered : Char → String → String
lowered c s =
    if leb 65 (code c) && leb (code c) 90
    then String.◌∷◌ (letter_at (code c - 65) letters c) s
    else if eqb (code c) 8490
    then "k" ++ s
    else if eqb (code c) 304
    then "i̇" ++ s
    else String.◌∷◌ c s

to_lower : String → String
unfolding lowered
to_lower String.[] = String.[]
to_lower (String.◌∷◌ c s) = lowered c (to_lower s)

abbrev in_class : ℕ → Bool
in_class c = (leb 97 c && leb c 122) || (leb 48 c && leb c 57)

-- `.replace(/[^a-z0-9]+/g, '-')`; the flag says that a run has been replaced already.
dash_runs : Bool → String → String
dash_runs run String.[] = String.[]
dash_runs run (String.◌∷◌ c s) =
    let kept = dash_runs false s in
    let replaced = dash_runs true s in
    elim (in_class (code c)) [
      | true ↦ String.◌∷◌ c kept
      | false ↦ elim run [ true ↦ replaced | false ↦ "-" ++ replaced ]
    ]

-- `.replace(/^-+|-+$/g, '')`: the dashes at both ends
leading : String → String
leading String.[] = String.[]
leading (String.◌∷◌ c s) =
    let rest = leading s in elim (eqb (code c) 45) [ true ↦ rest | false ↦ String.◌∷◌ c s ]

abbrev cons_unless_dash : Char → String → String
cons_unless_dash c String.[] = if eqb (code c) 45 then String.[] else String.◌∷◌ c String.[]
cons_unless_dash c (String.◌∷◌ d s) = String.◌∷◌ c (String.◌∷◌ d s)

trailing : String → String
trailing String.[] = String.[]
trailing (String.◌∷◌ c s) = cons_unless_dash c (trailing s)

-- `.slice(0, n)` of a text whose characters are one code unit each
abbrev pub slice : ℕ → String → String
slice zero s = String.[]
slice (suc n) String.[] = String.[]
slice (suc n) (String.◌∷◌ c s) = String.◌∷◌ c (slice n s)

abbrev pub text_or : String → String → String
text_or String.[] d = d
text_or (String.◌∷◌ c s) d = String.◌∷◌ c s

unfoldable pub slug_base : String → String
unfolding to_lower dash_runs leading trailing
slug_base label = text_or (slice 32 (trailing (leading (dash_runs false (to_lower label))))) "tag"

-- The base itself, and the base with 2, 3, ...
unfoldable pub numbered : String → ℕ → String
unfolding decimal
numbered base i = base ++ "-" ++ decimal i

-- The `while` loop, on fuel: `none` means that the fuel ran out.
unfoldable pub first_free : ℕ → List String → String → ℕ → Option String
unfolding numbered includes
first_free zero existing base i = none
first_free (suc fuel) existing base i =
    let more = first_free fuel existing base (i + 1) in
    if includes (numbered base i) existing then more else some (numbered base i)

-- The fuel is one more than the names there are.
unfoldable pub make_tag_slug : String → List String → Option String
unfolding slug_base includes first_free
make_tag_slug label existing =
    let base = slug_base label in
    if includes base existing then first_free (length existing + 1) existing base 2 else some base

-- `.slice(0, n)` by UTF-16 code units. Half of a pair is no text, and is left out.
abbrev slice_units : ℕ → String → String
slice_units n String.[] = String.[]
slice_units zero (String.◌∷◌ c s) = String.[]
slice_units (suc n) (String.◌∷◌ c s) =
    if leb (code c) 65535
    then String.◌∷◌ c (slice_units n s)
    else if ltb n 1
    then String.[]
    else String.◌∷◌ c (slice_units (n - 1) s)

module _ (upper : String → String) where
  -- `upper` is `toUpperCase`, which reads the Unicode tables of the runtime.
  unfoldable pub derive_short_label : String → String
  unfolding trim
  derive_short_label label = upper (slice_units 12 (trim label))
