-- ===== src/ResourceTable/Rows.antt =====
-- features/_shared/ResourceTable.tsx: `mergedData`, the rows of the active contexts.
pub mod Laws
use klustr.Prelude.{
  String, Bool, true, false, not, ◌&&◌, ◌||◌, Option, none, some, List, [], ◌∷◌, ◌++◌,
  if◌then◌else◌, ltb, length, or_else, map, keep,
}
use klustr.Dict
use klustr.Resources.{ByContext}
use klustr.NamespaceFilter.{NamespaceQuery, namespace_query}

pub data Scope : Type 0 where
  namespaced : Scope
  cluster : Scope

abbrev pub is_namespaced : Scope → Bool
is_namespaced Scope.namespaced = true
is_namespaced Scope.cluster = false

-- `query` of the table: a selection of namespaces is for kinds that have one.
unfoldable pub query : Scope → List String → NamespaceQuery
unfolding namespace_query
query Scope.namespaced selected = namespace_query selected
query Scope.cluster selected = record { api_namespace = ""; is_match = λ ns. true }

-- An item is passed over where more than one namespace is selected and its own does not match.
abbrev pub passes : Scope → List String → String → Bool
passes scope selected ns =
    not (is_namespaced scope && ltb 1 (length selected)) || (query scope selected).is_match ns

-- An item with the context that it is from.
pub record Tagged (T : Type 0) : Type 0 where
  pub item : T
  pub ctx : String

module _ {T : Type 0} (namespace : T → Option String) where
  -- `(item as RowIdentity).namespace ?? ''`
  abbrev pub namespace_of : T → String
  namespace_of item = or_else (namespace item) ""

  -- The inner loop.
  unfoldable pub push_items : Scope → List String → String → List T → List (Tagged T)
  unfolding query
  push_items scope selected ctx [] = []
  push_items scope selected ctx (item ∷ items) =
      let rest = push_items scope selected ctx items in
      let row : Tagged T = record { item = item; ctx = ctx } in
      if passes scope selected (namespace_of item) then row ∷ rest else rest

  unfoldable pub merged_data : Scope → List String → List String → ByContext T → List (Tagged T)
  unfolding push_items
  merged_data scope selected [] by_context = []
  merged_data scope selected (ctx ∷ active) by_context =
      push_items scope selected ctx (or_else (Dict.get by_context ctx) [])
      ++ merged_data scope selected active by_context
