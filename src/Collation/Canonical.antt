-- ===== src/Collation/Canonical.antt =====
-- Canonical name lists: sorted and without repetitions.
use klustr.Prelude.{
  String, ◌≡◌, refl, ◌∙◌, sym, true, List, [], ◌∷◌, arith, ◌==◌, eq_iff, eq_refl, Bool-cases, inl,
  inr, includes, without, dedupe, Distinct, Distinct-dedupe, dedupe_of_Distinct, Distinct-without,
}
use klustr.Collation.Defs.{Collation, IsAntisymm, dedupe_sorted}
use klustr.Collation.Order.{
  Below, IsSorted, sort-IsSorted, sort_of_IsSorted, Distinct-sort, IsSorted-without,
  includes-dedupe_sorted,
}

module _ (coll : Collation) where
  abbrev pub IsCanonical : List String → Type 0
  IsCanonical xs = IsSorted coll xs × Distinct xs

  pub dedupe_sorted-IsCanonical : (xs : List String) → IsCanonical (dedupe_sorted coll xs)
  unfolding dedupe_sorted
  dedupe_sorted-IsCanonical xs =
      (sort-IsSorted coll (dedupe xs), Distinct-sort coll (dedupe xs) (Distinct-dedupe xs))

  pub dedupe_sorted_of_IsCanonical :
      (xs : List String) → IsCanonical xs → dedupe_sorted coll xs ≡ xs
  unfolding dedupe_sorted
  dedupe_sorted_of_IsCanonical xs (s, d) = rw (dedupe_of_Distinct xs d) (sort_of_IsSorted coll xs s)

  pub IsCanonical-without :
      (a : String) (xs : List String) → IsCanonical xs → IsCanonical (without a xs)
  IsCanonical-without a xs (s, d) = (IsSorted-without coll a xs s, Distinct-without a xs d)

  le_of_includes :
      (a b : String) (xs : List String)
      → Below coll a xs
      → includes b xs ≡ true
      → coll.le a b ≡ true
  unfolding includes
  le_of_includes a b [] h k = cc
  le_of_includes a b (x ∷ xs) h k = ground (arith, eq_iff x b, le_of_includes a b xs)

  abbrev pub SameMembers : List String → List String → Type 0
  SameMembers xs ys = (a : String) → includes a xs ≡ includes a ys

  module _ (antisymm : IsAntisymm coll) where
    head-eq :
        (x y : String) (xs ys : List String)
        → Below coll x xs
        → Below coll y ys
        → SameMembers (x ∷ xs) (y ∷ ys)
        → x ≡ y
    unfolding includes
    head-eq x y xs ys bx by h = elim (Bool-cases (y == x)) [
      | inl e ↦ sym ((eq_iff y x).0 e)
      | inr ne ↦
          antisymm x y
            (ground (
              arith,
              h y,
              h x,
              eq_refl y,
              eq_refl x,
              eq_iff x y,
              eq_iff y x,
              le_of_includes x y xs,
            ))
            (ground (
              arith,
              h y,
              h x,
              eq_refl y,
              eq_refl x,
              eq_iff x y,
              eq_iff y x,
              le_of_includes y x ys,
            ))
    ]

    -- A canonical list is determined by its members.
    pub IsCanonical-unique :
        (xs ys : List String) → IsCanonical xs → IsCanonical ys → SameMembers xs ys → xs ≡ ys
    unfolding includes
    IsCanonical-unique [] [] cx cy h = refl
    IsCanonical-unique [] (y ∷ ys) cx cy h = ground (arith, h y, eq_refl y)
    IsCanonical-unique (x ∷ xs) [] cx cy h = ground (arith, h x, eq_refl x)
    IsCanonical-unique (x ∷ xs) (y ∷ ys) ((bx, sx), (dx, ix)) ((by, sy), (dy, iy)) h =
        let e : x ≡ y = head-eq x y xs ys bx by h in
        let t : xs ≡ ys =
          IsCanonical-unique xs ys (sx, ix) (sy, iy)
            (λ a. ground (arith, h a, e, eq_iff x a, eq_iff y a)) in
        cc

    -- Lists with the same members have the same sorted list without repetitions, where no two names
    -- collate as equal.
    pub dedupe_sorted_unique :
        (xs ys : List String) → SameMembers xs ys → dedupe_sorted coll xs ≡ dedupe_sorted coll ys
    dedupe_sorted_unique xs ys h =
        IsCanonical-unique (dedupe_sorted coll xs) (dedupe_sorted coll ys)
          (dedupe_sorted-IsCanonical xs) (dedupe_sorted-IsCanonical ys)
          (λ a. includes-dedupe_sorted coll a xs ∙ h a ∙ sym (includes-dedupe_sorted coll a ys))
