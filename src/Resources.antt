-- ===== src/Resources.antt =====
-- store/resources.ts: the resources of every kind, by context. A list is kept as the backend sent
-- it, so its items are of any type `T`; the store does not look into them.
pub mod Kinds
pub mod Keys
pub mod Laws
mod Tests
use klustr.Prelude.{String, Option, none, some, List, [], ◌∷◌, ◌++◌, if◌then◌else◌, or_else}
use klustr.Dict
use klustr.Dict.{Dict}
use klustr.Resources.Kinds.{KindKey, key_name, kind_keys}

abbrev pub ByContext : Type 0 → Type 0
ByContext T = Dict (List T)

-- The state's maps, under the names of their fields.
abbrev pub ResourcesState : Type 0 → Type 0
ResourcesState T = Dict (ByContext T)

module _ {T : Type 0} where
  -- the loop of `emptyMaps`
  empty_from : List String → ResourcesState T → ResourcesState T
  empty_from [] out = out
  empty_from (k ∷ ks) out = empty_from ks (Dict.put out k [])

  unfoldable pub with_ctx : ByContext T → String → List T → ByContext T
  with_ctx map ctx list = Dict.put map ctx list

  unfoldable pub without_ctx : ByContext T → String → ByContext T
  without_ctx map ctx = if Dict.has map ctx then Dict.remove map ctx else map

  -- `if (list && list.length > 0)` and the loop that pushes the items
  unfoldable pub merge_for_contexts : ByContext T → List String → List T
  merge_for_contexts by_context [] = []
  merge_for_contexts by_context (ctx ∷ ctxs) =
      or_else (Dict.get by_context ctx) [] ++ merge_for_contexts by_context ctxs

  -- `s[k]`
  abbrev pub map_of : ResourcesState T → String → ByContext T
  map_of s k = or_else (Dict.get s k) []

  -- Every setter: `set((s) => ({ [k]: withCtx(s[k], ctx, list) }))` with the key of its kind.
  unfoldable pub set_kind : KindKey → String → List T → ResourcesState T → ResourcesState T
  unfolding with_ctx
  set_kind kind ctx list s =
      Dict.put s (key_name kind) (with_ctx (map_of s (key_name kind)) ctx list)

  -- the loop of `clearContext`
  unfoldable pub cleared_from :
      String → ResourcesState T → List String → ResourcesState T → ResourcesState T
  unfolding without_ctx
  cleared_from ctx s [] next = next
  cleared_from ctx s (k ∷ ks) next =
      cleared_from ctx s ks
        (if Dict.has (map_of s k) ctx then Dict.put next k (without_ctx (map_of s k) ctx) else next)

  -- What `set` does with the partial state that it is given.
  unfoldable pub assigned : ResourcesState T → ResourcesState T → ResourcesState T
  assigned s [] = s
  assigned s ((k, m) ∷ partial) = assigned (Dict.put s k m) partial

  unfoldable pub clear_context : String → ResourcesState T → ResourcesState T
  unfolding cleared_from assigned
  clear_context ctx s = assigned s (cleared_from ctx s kind_keys [])

unfoldable pub empty_maps : {T : Type 0} → ResourcesState T
unfolding empty_from
empty_maps = empty_from kind_keys []

unfoldable pub reset : {T : Type 0} → ResourcesState T → ResourcesState T
unfolding assigned empty_maps
reset s = assigned s empty_maps
