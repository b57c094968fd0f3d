-- ===== src/Collation/Defs.antt =====
-- The collation, and sorting by it.
use klustr.Prelude.{String, ◌≡◌, Bool, true, false, List, [], ◌∷◌, if◌then◌else◌, dedupe}

-- `le a b` stands for `a.localeCompare(b) <= 0`. A consistent comparator is total and transitive.
pub record Collation : Type 0 where
  pub le : String → String → Bool
  pub le_total : (a b : String) → le a b ≡ false → le b a ≡ true
  pub le_trans : (a b c : String) → le a b ≡ true → le b c ≡ true → le a c ≡ true

-- No two different names compare as equal: so it is for the ASCII names of contexts and
-- namespaces, and not for texts that differ only in their Unicode normal form.
abbrev pub IsAntisymm : Collation → Type 0
IsAntisymm coll = (a b : String) → coll.le a b ≡ true → coll.le b a ≡ true → a ≡ b

module _ (coll : Collation) where
  unfoldable pub insert : String → List String → List String
  insert a [] = a ∷ []
  insert a (x ∷ xs) = if coll.le a x then a ∷ x ∷ xs else x ∷ insert a xs

  -- `list.sort((a, b) => a.localeCompare(b))`, which is stable
  unfoldable pub sort : List String → List String
  unfolding insert
  sort [] = []
  sort (x ∷ xs) = insert x (sort xs)

  -- `Array.from(new Set(names)).sort((a, b) => a.localeCompare(b))`
  unfoldable pub dedupe_sorted : List String → List String
  unfolding sort dedupe
  dedupe_sorted names = sort (dedupe names)
