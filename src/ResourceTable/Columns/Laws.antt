-- ===== src/ResourceTable/Columns/Laws.antt =====
-- features/_shared/ResourceTable.tsx: no order of the columns loses or repeats a column.
use klustr.Prelude.{
  ℕ, zero, suc, String, ◌≡◌, refl, sym, ap, ◌∙◌, Bool, true, false, not, ◌&&◌, ◌||◌, Option, none,
  some, List, [], ◌∷◌, ◌++◌, arith, ◌==◌, eq_iff, eq_refl, if◌then◌else◌, Bool-cases, Option-cases,
  inl, inr, keep, includes, includes-append, without, without_of_absent, includes-without,
  Distinct-without, includes-keep, Distinct-keep, Distinct-append, Distinct,
}
use klustr.ResourceTable.Columns.{
  context_column, take_saved, merge_order, all_column_ids, column_order, index_of, remove_at,
  insert_at, moved, dropped,
}

Distinct-snoc :
    (xs : List String) (x : String) → Distinct xs → includes x xs ≡ false → Distinct (xs ++ x ∷ [])
unfolding includes
Distinct-snoc xs x d h =
    Distinct-append xs (x ∷ []) d (refl, tt) (λ y e. ground (arith, eq_iff x y))

includes-take_saved :
    (all saved result : List String) (a : String)
    → includes a (take_saved all saved result)
      ≡ (includes a result || (includes a saved && includes a all))
unfolding take_saved includes
includes-take_saved all [] result a = ground arith
includes-take_saved all (id ∷ saved) result a = ground (
  arith,
  includes-take_saved all saved
      (if includes id all && not (includes id result) then result ++ id ∷ [] else result) a,
  includes-append a result (id ∷ []),
  eq_iff id a,
)

Distinct-take_saved :
    (all saved result : List String) → Distinct result → Distinct (take_saved all saved result)
unfolding take_saved
Distinct-take_saved all [] result d = d
Distinct-take_saved all (id ∷ saved) result d =
    Distinct-take_saved all saved _
      (elim (Bool-cases (includes id all && not (includes id result))) [
        | inl new ↦ rw new (Distinct-snoc result id d (ground arith))
        | inr old ↦ rw old d
      ])

pub merge_order_lem :
    (all saved : List String)
    → Distinct all
    → Distinct (merge_order all saved)
      × ((a : String) → includes a (merge_order all saved) ≡ includes a all)
unfolding merge_order includes
merge_order_lem all saved d =
    let seen = take_saved all saved [] in
    let rest = keep (λ id. not (includes id seen)) all in
    (
      Distinct-append seen rest (Distinct-take_saved all saved [] tt) (Distinct-keep _ all d)
          (λ y e. ground (arith, includes-keep y (λ id. not (includes id seen)) all)),
      λ a. ground (
        arith,
        includes-append a seen rest,
        includes-keep a (λ id. not (includes id seen)) all,
        includes-take_saved all saved [] a,
      ),
    )

context_first :
    (all saved : List String)
    → Distinct all
    → includes context_column all ≡ true
    → Distinct (context_column ∷ merge_order (keep (λ id. not (id == context_column)) all) saved)
      × ((a : String)
          → includes a
              (context_column ∷ merge_order (keep (λ id. not (id == context_column)) all) saved)
            ≡ includes a all)
unfolding includes
context_first all saved d has =
    let p = λ (id : String). not (id == context_column) in
    let (distinct, members) = merge_order_lem (keep p all) saved (Distinct-keep p all d) in
    (
      (ground (arith, members context_column, includes-keep context_column p all), distinct),
      λ a. ground (
        arith,
        members a,
        includes-keep a p all,
        eq_iff a context_column,
        eq_iff context_column a,
      ),
    )

-- The columns of the table, in the order that is shown, are distinct and are exactly those that the table has.
pub column_order_lem :
    (is_aggregated : Bool) (base saved : List String)
    → Distinct (all_column_ids is_aggregated base)
    → Distinct (column_order is_aggregated (all_column_ids is_aggregated base) saved)
      × ((a : String)
          → includes a (column_order is_aggregated (all_column_ids is_aggregated base) saved)
            ≡ includes a (all_column_ids is_aggregated base))
unfolding column_order includes
column_order_lem is_aggregated base saved d =
    let all = all_column_ids is_aggregated base in
    elim (Bool-cases (not is_aggregated || includes context_column saved)) [
      | inl saved_too ↦ rw saved_too (merge_order_lem all saved d)
      | inr first ↦ rw first (context_first all saved d (unfold includes in ground arith))
    ]

remove_at-eq-without :
    (id : String) (xs : List String) (i : ℕ)
    → Distinct xs
    → index_of id xs ≡ some i
    → remove_at i xs ≡ without id xs
unfolding remove_at index_of without
remove_at-eq-without id [] i d at = absurd (cc)
remove_at-eq-without id (x ∷ xs) zero (n, d) at =
    ground (arith, without_of_absent id xs, eq_iff x id)
remove_at-eq-without id (x ∷ xs) (suc i) (n, d) at =
    ground (arith, remove_at-eq-without id xs i d, eq_iff x id)

includes-insert_at :
    (i : ℕ) (id a : String) (xs : List String)
    → includes a (insert_at i id xs) ≡ (id == a || includes a xs)
unfolding includes insert_at
includes-insert_at zero id a xs = refl
includes-insert_at (suc i) id a [] = refl
includes-insert_at (suc i) id a (x ∷ xs) = ground (arith, includes-insert_at i id a xs)

Distinct-insert_at :
    (i : ℕ) (id : String) (xs : List String)
    → Distinct xs
    → includes id xs ≡ false
    → Distinct (insert_at i id xs)
unfolding includes insert_at
Distinct-insert_at zero id xs d h = (h, d)
Distinct-insert_at (suc i) id [] d h = (refl, tt)
Distinct-insert_at (suc i) id (x ∷ xs) (n, d) h =
    ground
      (arith, Distinct-insert_at i id xs, includes-insert_at i id x xs, eq_iff id x, eq_iff x id)

Distinct-moved :
    (dragged : String) (ids next : List String) (from to : Option ℕ)
    → Distinct ids
    → index_of dragged ids ≡ from
    → moved dragged ids from to ≡ some next
    → Distinct next × ((a : String) → includes a next ≡ (dragged == a || includes a ids))
Distinct-moved dragged ids next none to d at stored = absurd (cc)
Distinct-moved dragged ids next (some i) none d at stored = absurd (cc)
Distinct-moved dragged ids next (some i) (some j) d at stored =
    let rest = without dragged ids in
    let same : insert_at j dragged rest ≡ next =
      ap (insert_at j dragged) (sym (remove_at-eq-without dragged ids i d at)) ∙ (ground arith) in
    rw (← same) (
      Distinct-insert_at j dragged rest (Distinct-without dragged ids d)
          (ground (arith, includes-without dragged dragged ids, eq_refl dragged)),
      λ a. ground (arith, includes-insert_at j dragged a rest, includes-without a dragged ids),
    )

includes-index_of :
    (id : String) (xs : List String) (i : ℕ) → index_of id xs ≡ some i → includes id xs ≡ true
unfolding index_of includes
includes-index_of id [] i at = absurd (cc)
includes-index_of id (x ∷ xs) i at = elim (Option-cases (index_of id xs)) [
  | inl none_left ↦ ground arith
  | inr (j, found) ↦ ground (arith, includes-index_of id xs j found)
]

moved_lem :
    (dragged : String) (ids next : List String) (from to : Option ℕ)
    → Distinct ids
    → index_of dragged ids ≡ from
    → moved dragged ids from to ≡ some next
    → Distinct next × ((a : String) → includes a next ≡ includes a ids)
moved_lem dragged ids next none to d at stored = absurd (cc)
moved_lem dragged ids next (some i) to d at stored =
    let (distinct, members) = Distinct-moved dragged ids next (some i) to d at stored in
    (distinct, λ a. ground (arith, members a, includes-index_of dragged ids i at, eq_iff dragged a))

-- Dropping a column on another stores, if anything, an order of the same columns without repetitions.
pub dropped_lem :
    (drag_col : Option String) (target : String) (ids next : List String)
    → Distinct ids
    → dropped drag_col target ids ≡ some next
    → Distinct next × ((a : String) → includes a next ≡ includes a ids)
dropped_lem none target ids next d stored = absurd (cc)
dropped_lem (some dragged) target ids next d stored =
    moved_lem dragged ids next (index_of dragged ids) (index_of target ids) d refl (ground arith)
