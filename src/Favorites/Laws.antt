-- ===== src/Favorites/Laws.antt =====
-- The favourites of store/namespaceFavorites.ts: each operation, and toggling twice.
use klustr.Prelude.{
  String, ◌≡◌, refl, ap, sym, subst, false, not, ◌&&◌, ◌||◌, some, List, [], ◌∷◌, ◌++◌, arith, ◌==◌,
  eq_iff, eq_refl, if◌then◌else◌, or_else, includes, without, Bool-cases, inl, inr, includes-append,
  includes-without, Distinct,
}
use klustr.Dict
use klustr.Dict.{Dict, get-put, get-remove}
use klustr.Collation.{Collation, IsAntisymm, sort, dedupe_sorted}
use klustr.Collation.Order.{includes-dedupe_sorted, includes-sort, sort-IsSorted, Distinct-sort}
use klustr.Collation.Canonical.{
  IsCanonical, IsCanonical-unique, IsCanonical-without, dedupe_sorted-IsCanonical,
}
use klustr.Favorites
use klustr.Favorites.{Favorites, toggle, set_all, select_favorites}

-- The list that the store has for a context.
abbrev pub listed : Favorites → String → List String
listed f context = or_else (Dict.get f context) []

-- Lists in the order of the collation, without repetitions.
abbrev pub IsOrdered : Collation → Favorites → Type 0
IsOrdered coll f = (context : String) → IsCanonical coll (listed f context)

includes-cons : (a x : String) (xs : List String) → includes a (x ∷ xs) ≡ (x == a || includes a xs)
unfolding includes
includes-cons a x xs = refl

Distinct-snoc :
    (xs : List String) (a : String) → includes a xs ≡ false → Distinct xs → Distinct (xs ++ a ∷ [])
unfolding includes
Distinct-snoc [] a h d = (refl, tt)
Distinct-snoc (x ∷ xs) a h d = (
  ground
      (arith, includes-append x xs (a ∷ []), includes-cons a x xs, h, d.0, eq_iff a x, eq_iff x a),
  Distinct-snoc xs a (ground (arith, includes-cons a x xs, h)) d.1,
)

module _ (coll : Collation) where
  abbrev toggled : String → List String → List String
  toggled namespace current =
      if includes namespace current
      then without namespace current
      else sort coll (current ++ namespace ∷ [])

  toggled-IsCanonical :
      (namespace : String) (xs : List String)
      → IsCanonical coll xs
      → IsCanonical coll (toggled namespace xs)
  toggled-IsCanonical a xs c = elim (Bool-cases (includes a xs)) [
    | inl e ↦ rw e (IsCanonical-without coll a xs c)
    | inr e ↦ rw e (
      sort-IsSorted coll (xs ++ a ∷ []),
      Distinct-sort coll (xs ++ a ∷ []) (Distinct-snoc xs a e c.1),
    )
  ]

  includes-toggled :
      (n namespace : String) (xs : List String)
      → includes n (toggled namespace xs)
        ≡ (if namespace == n then not (includes n xs) else includes n xs)
  unfolding includes
  includes-toggled n a xs = ground (
    arith,
    includes-without n a xs,
    includes-sort coll n (xs ++ a ∷ []),
    includes-append n xs (a ∷ []),
    eq_iff a n,
  )

  listed-put :
      (f : Favorites) (c : String) (xs : List String) (context : String)
      → listed (Dict.put f c xs) context ≡ (if c == context then xs else listed f context)
  listed-put f c xs context = ground (arith, get-put f c context xs)

  -- Which namespaces are favourites of a context after each operation: toggling flips the one namespace
  -- of the one context, setting all gives exactly the given ones, clearing leaves none, and the other
  -- contexts keep theirs. A context without a name has none.
  pub favorites-actions :
      (context namespace : String) (namespaces : List String) (f : Favorites) (c n : String)
      → (includes n (select_favorites (some c) (toggle coll context namespace f)) ≡ (
          if context == c && namespace == n && not (c == "")
          then not (includes n (select_favorites (some c) f))
          else includes n (select_favorites (some c) f)))
        × (includes n (select_favorites (some c) (set_all coll context namespaces f)) ≡ (
            if context == c && not (c == "")
            then includes n namespaces
            else includes n (select_favorites (some c) f)))
        × (select_favorites (some c) (Favorites.clear context f)
            ≡ (if context == c then [] else select_favorites (some c) f))
  unfolding select_favorites toggle set_all Favorites.clear
  favorites-actions context namespace namespaces f c n = (
    ground (
      arith,
      get-put f context c (toggled namespace (listed f context)),
      includes-toggled n namespace (listed f context),
      eq_iff context c,
    ),
    ground (
      arith,
      get-put f context c (dedupe_sorted coll namespaces),
      includes-dedupe_sorted coll n namespaces,
      eq_iff context c,
    ),
    ground (arith, get-remove f context c, eq_iff context c),
  )

  -- Every operation keeps each context's favourites sorted and without repetitions.
  pub IsOrdered-actions :
      (context namespace : String) (namespaces : List String) (f : Favorites)
      → IsOrdered coll f
      → IsOrdered coll (toggle coll context namespace f)
        × IsOrdered coll (set_all coll context namespaces f)
        × IsOrdered coll (Favorites.clear context f)
  unfolding toggle set_all Favorites.clear
  IsOrdered-actions context namespace namespaces f o = (
    λ c. subst (IsCanonical coll) (sym (listed-put f context _ c)) (
        split c (toggled namespace (listed f context))
          (toggled-IsCanonical namespace (listed f context) (o context))),
    λ c.
        subst (IsCanonical coll) (sym (listed-put f context _ c))
          (split c (dedupe_sorted coll namespaces) (dedupe_sorted-IsCanonical coll namespaces)),
    λ c. subst (IsCanonical coll) (sym (removed c)) (split c [] (tt, tt)),
  )
    where
      split :
          (c : String) (xs : List String)
          → IsCanonical coll xs
          → IsCanonical coll (if context == c then xs else listed f c)
      split c xs h = elim (Bool-cases (context == c)) [ inl e ↦ rw e h | inr e ↦ rw e (o c) ]

      removed :
          (c : String)
          → listed (Dict.remove f context) c ≡ (if context == c then [] else listed f c)
      removed c = ground (arith, get-remove f context c)

  -- Toggling a favourite twice gives back the favourites of every context, in their order, where the
  -- lists were ordered and no two names collate as equal.
  pub toggle-toggle :
      IsAntisymm coll
      → (context namespace : String) (f : Favorites) → IsOrdered coll f
      → (c : String)
      → select_favorites (some c) (toggle coll context namespace (toggle coll context namespace f))
        ≡ select_favorites (some c) f
  unfolding select_favorites toggle
  toggle-toggle anti context a f o c =
      let xs = listed f context in
      let e : toggled a (toggled a xs) ≡ xs =
        IsCanonical-unique coll anti (toggled a (toggled a xs)) xs
          (toggled-IsCanonical a (toggled a xs) (toggled-IsCanonical a xs (o context))) (o context)
          (λ n.
            ground
              (arith, includes-toggled n a (toggled a xs), includes-toggled n a xs, eq_iff a n)) in
      ground (
        arith,
        listed-put f context (toggled a xs) context,
        listed-put f context (toggled a xs) c,
        listed-put (Dict.put f context (toggled a xs)) context
            (toggled a (listed (Dict.put f context (toggled a xs)) context)) c,
        ap (toggled a) (listed-put f context (toggled a xs) context),
        eq_refl context,
        eq_iff context c,
        e,
      )
