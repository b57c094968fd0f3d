-- ===== src/Collation/Order.antt =====
-- The order and the members of a sorted list.
use klustr.Prelude.{
  String, ◌≡◌, refl, true, false, ◌||◌, List, [], ◌∷◌, arith, ◌==◌, eq_iff, eq_refl, Bool-cases,
  inl, inr, includes, without, dedupe, Distinct, includes-dedupe, All,
}
use klustr.Collation.Defs.{Collation, insert, sort, dedupe_sorted}

module _ (coll : Collation) where
  abbrev pub Below : String → List String → Type 0
  Below a xs = All (λ x. coll.le a x ≡ true) xs

  abbrev pub IsSorted : List String → Type 0
  IsSorted [] = Unit
  IsSorted (x ∷ xs) = Below x xs × IsSorted xs

  pub includes-insert :
      (b a : String) (xs : List String) → includes b (insert coll a xs) ≡ (a == b || includes b xs)
  unfolding includes insert
  includes-insert b a [] = refl
  includes-insert b a (x ∷ xs) = ground (arith, includes-insert b a xs)

  pub includes-sort : (b : String) (xs : List String) → includes b (sort coll xs) ≡ includes b xs
  unfolding includes sort
  includes-sort b [] = refl
  includes-sort b (x ∷ xs) = ground (arith, includes-insert b x (sort coll xs), includes-sort b xs)

  -- The sorted list without repetitions has the members of the list.
  pub includes-dedupe_sorted :
      (b : String) (xs : List String) → includes b (dedupe_sorted coll xs) ≡ includes b xs
  unfolding dedupe_sorted
  includes-dedupe_sorted b xs = rw (includes-sort b (dedupe xs)) (includes-dedupe b xs)

  Distinct-insert :
      (a : String) (xs : List String)
      → includes a xs ≡ false
      → Distinct xs
      → Distinct (insert coll a xs)
  unfolding includes insert
  Distinct-insert a [] h d = (refl, tt)
  Distinct-insert a (x ∷ xs) h d =
      ground (arith, Distinct-insert a xs, includes-insert x a xs, eq_iff a x, eq_iff x a)

  pub Distinct-sort : (xs : List String) → Distinct xs → Distinct (sort coll xs)
  unfolding sort
  Distinct-sort [] d = tt
  Distinct-sort (x ∷ xs) (h, d) =
      Distinct-insert x (sort coll xs) (rw (includes-sort x xs) h) (Distinct-sort xs d)

  pub Below-trans : (a b : String) (xs : List String) → coll.le a b ≡ true → Below b xs → Below a xs
  Below-trans a b [] h k = tt
  Below-trans a b (x ∷ xs) h (k, ks) = (coll.le_trans a b x h k, Below-trans a b xs h ks)

  Below-insert :
      (a b : String) (xs : List String)
      → coll.le b a ≡ true
      → Below b xs
      → Below b (insert coll a xs)
  unfolding insert
  Below-insert a b [] h k = (h, tt)
  Below-insert a b (x ∷ xs) h k = ground (arith, Below-insert a b xs)

  insert-IsSorted : (a : String) (xs : List String) → IsSorted xs → IsSorted (insert coll a xs)
  unfolding insert
  insert-IsSorted a [] s = (tt, tt)
  insert-IsSorted a (x ∷ xs) s = elim (Bool-cases (coll.le a x)) [
    | inl le ↦ rw le ((le, Below-trans a x xs le s.0), s)
    | inr gt ↦ rw gt (Below-insert a x xs (coll.le_total a x gt) s.0, insert-IsSorted a xs s.1)
  ]

  pub sort-IsSorted : (xs : List String) → IsSorted (sort coll xs)
  unfolding sort
  sort-IsSorted [] = tt
  sort-IsSorted (x ∷ xs) = insert-IsSorted x (sort coll xs) (sort-IsSorted xs)

  insert_of_Below : (a : String) (xs : List String) → Below a xs → insert coll a xs ≡ a ∷ xs
  unfolding insert
  insert_of_Below a [] h = refl
  insert_of_Below a (x ∷ xs) h = rw h.0

  pub sort_of_IsSorted : (xs : List String) → IsSorted xs → sort coll xs ≡ xs
  unfolding sort
  sort_of_IsSorted [] s = refl
  sort_of_IsSorted (x ∷ xs) (b, s) = rw (sort_of_IsSorted xs s) (insert_of_Below x xs b)

  Below-without : (a b : String) (xs : List String) → Below b xs → Below b (without a xs)
  unfolding without
  Below-without a b [] h = tt
  Below-without a b (x ∷ xs) h = ground (arith, Below-without a b xs)

  pub IsSorted-without : (a : String) (xs : List String) → IsSorted xs → IsSorted (without a xs)
  unfolding without
  IsSorted-without a [] s = tt
  IsSorted-without a (x ∷ xs) s = ground (arith, Below-without a x xs, IsSorted-without a xs)

  without-insert_ne :
      (a b : String) (xs : List String)
      → IsSorted xs
      → (b == a) ≡ false
      → without a (insert coll b xs) ≡ insert coll b (without a xs)
  unfolding without insert
  without-insert_ne a b [] s h = ground arith
  without-insert_ne a b (x ∷ xs) s h = elim (Bool-cases (coll.le b x)) [
    | inl le ↦
        ground (
          arith,
          insert_of_Below b (without a xs) (Below-without a b xs (Below-trans b x xs le s.0)),
        )
    | inr gt ↦ ground (arith, without-insert_ne a b xs s.1)
  ]

  without-insert_self :
      (a : String) (xs : List String) → without a (insert coll a xs) ≡ without a xs
  unfolding without insert
  without-insert_self a [] = ground (arith, eq_refl a)
  without-insert_self a (x ∷ xs) = ground (arith, eq_refl a, without-insert_self a xs)

  -- Removing a name and sorting commute.
  pub without-sort :
      (a : String) (xs : List String) → without a (sort coll xs) ≡ sort coll (without a xs)
  unfolding without sort
  without-sort a [] = refl
  without-sort a (x ∷ xs) = elim (Bool-cases (x == a)) [
    | inl e ↦ ground (arith, eq_iff x a, without-insert_self a (sort coll xs), without-sort a xs)
    | inr ne ↦
        ground
          (arith, without-insert_ne a x (sort coll xs) (sort-IsSorted xs) ne, without-sort a xs)
  ]
