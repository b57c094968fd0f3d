-- ===== src/Favorites.antt =====
-- store/namespaceFavorites.ts: the favourite namespaces of each context, in order.
mod Laws
mod Tests
use klustr.Prelude.{
  String, Option, none, some, List, [], ◌∷◌, ◌++◌, ◌==◌, if◌then◌else◌, or_else, includes, without,
  dedupe,
}
use klustr.Dict
use klustr.Dict.{Dict}
use klustr.Collation.{Collation, sort, dedupe_sorted}

abbrev pub Favorites : Type 0
Favorites = Dict (List String)

unfoldable pub clear : String → Favorites → Favorites
clear context_name by_context = Dict.remove by_context context_name

unfoldable pub select_favorites : Option String → Favorites → List String
select_favorites none by_context = []
select_favorites (some context_name) by_context =
    if context_name == "" then [] else or_else (Dict.get by_context context_name) []

module _ (coll : Collation) where
  unfoldable pub toggle : String → String → Favorites → Favorites
  toggle context_name namespace by_context =
      let current = or_else (Dict.get by_context context_name) [] in
      Dict.put by_context context_name (
        if includes namespace current
        then without namespace current
        else sort coll (current ++ namespace ∷ []))

  unfoldable pub set_all : String → List String → Favorites → Favorites
  set_all context_name namespaces by_context =
      Dict.put by_context context_name (dedupe_sorted coll namespaces)
