-- ===== src/Prelude/Texts.antt =====
-- Lists of strings as the stores use them: `includes`, `filter (n !== x)`, `new Set(...)`.
use Prim.Native.String.{String}
use mathlib.Core.Path.{◌≡◌, refl}
use mathlib.Core.Bool.{Bool, true, false, not, ◌&&◌, ◌||◌}
use mathlib.Core.List.{List, [], ◌∷◌, ◌++◌}
use native.Mathlib.Omega.{arith}
use klustr.Prelude.Lists.{keep, all}
use text.Mathlib.Text.{◌==◌}
use text.Mathlib.TextEquality.{eq_iff}
use text.Mathlib.TextPositions.{eq_refl}

-- `list.includes(a)`, and `set.has(a)` for a set kept as a list
unfoldable pub includes : String → List String → Bool
includes a [] = false
includes a (x ∷ xs) = x == a || includes a xs

-- `list.filter((x) => x !== a)`
unfoldable pub without : String → List String → List String
without a [] = []
without a (x ∷ xs) = let rest = without a xs in elim (x == a) [ true ↦ rest | false ↦ x ∷ rest ]

-- `Array.from(new Set(list))`: first occurrences, in order
unfoldable pub dedupe : List String → List String
unfolding without
dedupe [] = []
dedupe (x ∷ xs) = x ∷ without x (dedupe xs)

-- `sameList` of store/ui.ts
unfoldable pub same_list : List String → List String → Bool
same_list [] [] = true
same_list (x ∷ xs) (y ∷ ys) = y == x && same_list xs ys
same_list _ _ = false

abbrev pub Distinct : List String → Type 0
Distinct [] = Unit
Distinct (x ∷ xs) = (includes x xs ≡ false) × Distinct xs

pub includes-append :
    (a : String) (xs ys : List String) → includes a (xs ++ ys) ≡ (includes a xs || includes a ys)
unfolding includes
includes-append a [] ys = refl
includes-append a (x ∷ xs) ys = ground (arith, includes-append a xs ys)

pub includes-without :
    (a b : String) (xs : List String) → includes a (without b xs) ≡ (not (b == a) && includes a xs)
unfolding includes without
includes-without a b [] = ground arith
includes-without a b (x ∷ xs) =
    ground (arith, includes-without a b xs, eq_iff x b, eq_iff x a, eq_iff b a)

pub includes-dedupe : (a : String) (xs : List String) → includes a (dedupe xs) ≡ includes a xs
unfolding includes dedupe
includes-dedupe a [] = refl
includes-dedupe a (x ∷ xs) = ground (arith, includes-without a x (dedupe xs), includes-dedupe a xs)

pub Distinct-without : (b : String) (xs : List String) → Distinct xs → Distinct (without b xs)
unfolding without includes
Distinct-without b [] h = tt
Distinct-without b (x ∷ xs) (h, hs) =
    ground (arith, Distinct-without b xs hs, includes-without x b xs)

pub Distinct-dedupe : (xs : List String) → Distinct (dedupe xs)
unfolding dedupe
Distinct-dedupe [] = tt
Distinct-dedupe (x ∷ xs) = (
  ground (arith, includes-without x x (dedupe xs), eq_refl x),
  Distinct-without x (dedupe xs) (Distinct-dedupe xs),
)

-- Removing what is not there changes nothing.
pub without_of_absent : (a : String) (xs : List String) → includes a xs ≡ false → without a xs ≡ xs
unfolding includes without
without_of_absent a [] h = refl
without_of_absent a (x ∷ xs) h = ground (arith, without_of_absent a xs)

pub dedupe_of_Distinct : (xs : List String) → Distinct xs → dedupe xs ≡ xs
unfolding dedupe
dedupe_of_Distinct [] h = refl
dedupe_of_Distinct (x ∷ xs) (h, hs) = rw (dedupe_of_Distinct xs hs) (rw (without_of_absent x xs h))

pub without-append :
    (a : String) (xs ys : List String) → without a (xs ++ ys) ≡ without a xs ++ without a ys
unfolding without
without-append a [] ys = refl
without-append a (x ∷ xs) ys = ground (arith, without-append a xs ys)

pub same_list→eq : (xs ys : List String) → same_list xs ys ≡ true → xs ≡ ys
unfolding same_list
same_list→eq [] [] h = refl
same_list→eq [] (y ∷ ys) h = cc
same_list→eq (x ∷ xs) [] h = cc
same_list→eq (x ∷ xs) (y ∷ ys) h = ground (arith, same_list→eq xs ys, eq_iff y x)

pub same_list_refl : (xs : List String) → same_list xs xs ≡ true
unfolding same_list
same_list_refl [] = refl
same_list_refl (x ∷ xs) = rw (eq_refl x) (same_list_refl xs)

-- `list.filter(p)`
pub includes-keep :
    (a : String) (p : String → Bool) (xs : List String)
    → includes a (keep p xs) ≡ (p a && includes a xs)
unfolding includes
includes-keep a p [] = ground arith
includes-keep a p (x ∷ xs) = ground (arith, includes-keep a p xs, eq_iff x a)

pub Distinct-keep : (p : String → Bool) (xs : List String) → Distinct xs → Distinct (keep p xs)
Distinct-keep p [] d = tt
Distinct-keep p (x ∷ xs) (h, d) = ground (arith, includes-keep x p xs, Distinct-keep p xs d)

pub Distinct-append :
    (xs ys : List String)
    → Distinct xs
    → Distinct ys
    → ((y : String) → includes y ys ≡ true → includes y xs ≡ false)
    → Distinct (xs ++ ys)
unfolding includes
Distinct-append [] ys dx dy apart = dy
Distinct-append (x ∷ xs) ys (h, dx) dy apart = ground (
  arith,
  includes-append x xs ys,
  apart x,
  eq_refl x,
  Distinct-append xs ys dx dy (λ y e. ground (arith, apart y)),
)

pub all_of :
    (p : String → Bool) (xs : List String)
    → ((x : String) → includes x xs ≡ true → p x ≡ true)
    → all p xs ≡ true
unfolding includes
all_of p [] h = refl
all_of p (x ∷ xs) h = ground (arith, h x, eq_refl x, all_of p xs (λ y e. h y (ground arith)))
