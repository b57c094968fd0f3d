-- ===== src/ContextTags/Slug/Termination.antt =====
-- features/contexts/contextTagMeta.ts: the loop of `makeTagSlug` ends, at the first free name.
use Prim.Native.Char.{Char}
use Prim.Native.String as Str
use text.Mathlib.TextLemmas.{
  append_cancel_left, append-ne-nil_of_right_ne-nil, cons-ne-nil, cons-append,
}
use klustr.Prelude.{
  ℕ, zero, suc, ◌+◌, ◌-◌, ◌<◌, ◌≤◌, String, ◌≡◌, refl, sym, ◌≢◌, ◌∙◌, true, false, Option, some,
  List, [], ◌∷◌, arith, eq_iff, Bool-cases, inl, inr, length, includes, without, includes-without,
}
use klustr.Prelude.Numerals.{decimal}
use klustr.Prelude.Numerals.RoundTrip.{decimal_injective}
use klustr.ContextTags.Slug.{numbered, first_free, slice, text_or, slug_base, make_tag_slug}

numbered_injective : (base : String) (i j : ℕ) → numbered base i ≡ numbered base j → i ≡ j
unfolding numbered
numbered_injective base i j e =
    decimal_injective i j (append_cancel_left "-" _ _ (append_cancel_left base _ _ e))

length-without_le : (a : String) (xs : List String) → length (without a xs) ≤ length xs
unfolding without
length-without_le a [] = omega arith
length-without_le a (x ∷ xs) = ground (arith, length-without_le a xs)

length-without :
    (a : String) (xs : List String) → includes a xs ≡ true → length (without a xs) < length xs
unfolding includes without
length-without a [] h = absurd (cc)
length-without a (x ∷ xs) h = ground (arith, length-without a xs, length-without_le a xs)

abbrev dash : Char
dash = "-"

abbrev empty : String
empty = ""

-- `left` holds the names that the loop may still meet; each name that it meets leaves the list.
abbrev Agrees : List String → List String → String → ℕ → Type 0
Agrees existing left base i =
    (j : ℕ) → i ≤ j → includes (numbered base j) existing ≡ includes (numbered base j) left

Agrees-without :
    (existing left : List String) (base : String) (i : ℕ)
    → Agrees existing left base i
    → Agrees existing (without (numbered base i) left) base (i + 1)
Agrees-without existing left base i agrees j h = ground (
  arith,
  agrees j,
  includes-without (numbered base j) (numbered base i) left,
  eq_iff (numbered base i) (numbered base j),
  numbered_injective base i j,
)

-- The first free name from the i-th on, and that all before it are taken.
abbrev pub FirstFree : List String → String → ℕ → Option String → Type 0
FirstFree existing base i found =
    (k : ℕ) × (i ≤ k)
    × (found ≡ some (numbered base k))
    × (includes (numbered base k) existing ≡ false)
    × ((j : ℕ) → i ≤ j → j < k → includes (numbered base j) existing ≡ true)

first_free_ends :
    (fuel : ℕ) (existing left : List String) (base : String) (i : ℕ)
    → length left < fuel
    → Agrees existing left base i
    → FirstFree existing base i (first_free fuel existing base i)
unfolding first_free
first_free_ends zero existing left base i h agrees = elim h [ ]
first_free_ends (suc fuel) existing left base i h agrees =
    elim (Bool-cases (includes (numbered base i) existing)) [
      | inr free ↦ (i, omega arith, ground arith, free, λ j p q. absurd (omega arith))
      | inl taken ↦
          let (k, le, found, free, before) =
            first_free_ends fuel existing (without (numbered base i) left) base (i + 1)
              (omega (
                arith,
                length-without (numbered base i) left (sym (agrees i (omega arith)) ∙ taken),
              ))
              (Agrees-without existing left base i agrees) in
          (k, omega arith, ground arith, free, λ j p q. ground (arith, before j))
    ]

-- The candidates of `makeTagSlug` in its order.
abbrev pub candidate : String → ℕ → String
candidate base zero = base
candidate base (suc k) = numbered base (k + 2)

candidates_taken :
    (existing : List String) (base : String) (k : ℕ)
    → includes base existing ≡ true
    → ((j : ℕ) → 2 ≤ j → j < k + 2 → includes (numbered base j) existing ≡ true)
    → (j : ℕ) → j < suc k
    → includes (candidate base j) existing ≡ true
candidates_taken existing base k taken before zero h = taken
candidates_taken existing base k taken before (suc j) h = before (j + 2) (omega arith) (omega arith)

-- `makeTagSlug` always returns: its loop ends within one round more than there are names. The id is
-- free, and it is the first free one among the label's slug, then the slug with -2, -3 and so on.
pub make_tag_slug_total :
    (label : String) (existing : List String)
    → (k : ℕ) × (make_tag_slug label existing ≡ some (candidate (slug_base label) k))
      × (includes (candidate (slug_base label) k) existing ≡ false)
      × ((j : ℕ) → j < k → includes (candidate (slug_base label) j) existing ≡ true)
unfolding make_tag_slug
make_tag_slug_total label existing = elim (Bool-cases (includes (slug_base label) existing)) [
  | inr free ↦ (0, ground arith, free, λ j p. absurd (omega arith))
  | inl taken ↦
      let (k, le, found, free, before) =
        first_free_ends (length existing + 1) existing existing (slug_base label) 2 (omega arith)
          (λ j p. refl) in
      let same : k - 2 + 2 ≡ k = omega arith in
      (
        suc (k - 2),
        ground arith,
        ground arith,
        candidates_taken existing (slug_base label) (k - 2) taken
            (λ j p q. before j p (omega arith)),
      )
]

text_or-ne-empty : (s : String) (n : ℕ) → text_or (slice n s) "tag" ≢ empty
text_or-ne-empty s zero e = cc
text_or-ne-empty Str.[] (suc n) e = cc
text_or-ne-empty (Str.◌∷◌ c s) (suc n) e = cc

-- No candidate is the empty text.
pub candidate-ne-empty : (label : String) (k : ℕ) → candidate (slug_base label) k ≢ empty
unfolding slug_base numbered
candidate-ne-empty label zero e = text_or-ne-empty _ 32 e
candidate-ne-empty label (suc k) e =
    append-ne-nil_of_right_ne-nil (slug_base label) {t = Str.◌++◌ "-" (decimal (k + 2))}
      (λ f.
        cons-ne-nil dash (Str.◌++◌ Str.[] (decimal (k + 2)))
          (sym (cons-append dash Str.[] (decimal (k + 2))) ∙ f))
      e
