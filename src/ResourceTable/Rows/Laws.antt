-- ===== src/ResourceTable/Rows/Laws.antt =====
-- features/_shared/ResourceTable.tsx with lib/namespaceFilter.ts: which rows the table has.
use klustr.Prelude.{
  String, ◌≡◌, refl, Bool, Option, List, [], ◌∷◌, ◌++◌, ◌<◌, arith, length, or_else, includes, map,
  keep,
}
use klustr.Dict
use klustr.Resources.{ByContext}
use klustr.NamespaceFilter.{namespace_query}
use klustr.ResourceTable.Rows.{Scope, query, Tagged, namespace_of, push_items, merged_data}

keep-append :
    {T : Type 0} (p : T → Bool) (xs ys : List T) → keep p (xs ++ ys) ≡ keep p xs ++ keep p ys
keep-append p [] ys = refl
keep-append p (x ∷ xs) ys = ground (arith, keep-append p xs ys)

module _ {T : Type 0} (namespace : T → Option String) where
  -- The row is of one of the namespaces.
  abbrev pub is_in_one_of : List String → Tagged T → Bool
  is_in_one_of selected row = includes (namespace_of namespace row.item) selected

  -- Every item that the store holds for the active contexts, with its context.
  abbrev pub stored_rows : List String → ByContext T → List (Tagged T)
  stored_rows [] by_context = []
  stored_rows (ctx ∷ active) by_context =
      map (λ item. record { item = item; ctx = ctx }) (or_else (Dict.get by_context ctx) [])
      ++ stored_rows active by_context

  push_items-keep :
      (a b : String) (rest : List String) (ctx : String) (items : List T)
      → push_items namespace Scope.namespaced (a ∷ b ∷ rest) ctx items
        ≡ keep (is_in_one_of (a ∷ b ∷ rest)) (map (λ item. record { item = item; ctx = ctx }) items)
  unfolding push_items query namespace_query
  push_items-keep a b rest ctx [] = refl
  push_items-keep a b rest ctx (item ∷ items) = ground (arith, push_items-keep a b rest ctx items)

  -- With two or more namespaces selected, the rows of a table of namespaced resources are just those
  -- items of the active contexts in the store, in their order, that are in one of the selected
  -- namespaces, whatever request they answered.
  pub merged_data-keep :
      (selected active : List String) (by_context : ByContext T)
      → 1 < length selected
      → merged_data namespace Scope.namespaced selected active by_context
        ≡ keep (is_in_one_of selected) (stored_rows active by_context)
  unfolding merged_data
  merged_data-keep [] active by_context h = absurd (omega (arith, h))
  merged_data-keep (only ∷ []) active by_context h = absurd (omega (arith, h))
  merged_data-keep (a ∷ b ∷ rest) [] by_context h = refl
  merged_data-keep (a ∷ b ∷ rest) (ctx ∷ active) by_context h =
      let items = or_else (Dict.get by_context ctx) [] in
      rw
        (
          keep-append (is_in_one_of (a ∷ b ∷ rest)),
          push_items-keep a b rest ctx items,
          merged_data-keep (a ∷ b ∷ rest) active by_context h,
        )
        refl
