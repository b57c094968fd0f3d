-- ===== src/Ui/Tags.antt =====
-- store/ui.ts: the tags on contexts, three on each at most, and the tags that the user defines.
pub mod Laws
pub mod Entries
use klustr.Prelude.{
  ℕ, String, Bool, Option, none, some, List, [], ◌∷◌, ◌++◌, if◌then◌else◌, leb, or_else, length,
  includes, without,
}
use klustr.Dict
use klustr.Dict.{Dict}
use klustr.Ui.Types.{ContextTag, CustomTagDef, max_tags_per_context}
use klustr.Ui.Persistence.{persist_context_tags, persist_custom_tags}
use klustr.Ui.State.{UiState, World}

abbrev pub TagMap : Type 0
TagMap = Dict (List ContextTag)

-- `contextTags[name] ?? []`
abbrev pub tags_of : TagMap → String → List ContextTag
tags_of map name = or_else (Dict.get map name) []

unfoldable pub assign_tags : TagMap → String → List ContextTag → TagMap
assign_tags map name [] = Dict.remove map name
assign_tags map name (t ∷ ts) = Dict.put map name (t ∷ ts)

abbrev with_tags : TagMap → World → World
with_tags next w = record w {
  ui = record w.ui { context_tags = next };
  storage = persist_context_tags next w.storage;
}

unfoldable pub toggle_context_tag : String → ContextTag → World → World
unfolding assign_tags
toggle_context_tag name tag_id w =
    let current = tags_of w.ui.context_tags name in
    if includes tag_id current
    then with_tags (assign_tags w.ui.context_tags name (without tag_id current)) w
    else if leb max_tags_per_context (length current)
    then w
    else with_tags (assign_tags w.ui.context_tags name (current ++ tag_id ∷ [])) w

unfoldable pub clear_context_tags : String → World → World
clear_context_tags name w =
    if Dict.has w.ui.context_tags name then with_tags (Dict.remove w.ui.context_tags name) w else w

unfoldable pub add_custom_tag : CustomTagDef → World → World
add_custom_tag def w =
    let next = Dict.put w.ui.custom_tags def.id def in
    record w {
      ui = record w.ui { custom_tags = next };
      storage = persist_custom_tags next w.storage;
    }

abbrev assign_if_any : TagMap → String → List ContextTag → TagMap
assign_if_any out ctx [] = out
assign_if_any out ctx (t ∷ ts) = Dict.put out ctx (t ∷ ts)

-- the loop of `removeCustomTag`
unfoldable pub without_tag : String → TagMap → TagMap → TagMap
without_tag id out [] = out
without_tag id out ((ctx, list) ∷ entries) =
    without_tag id (assign_if_any out ctx (without id list)) entries

unfoldable pub remove_custom_tag : String → World → World
unfolding without_tag
remove_custom_tag id w =
    let next_tags = Dict.remove w.ui.custom_tags id in
    let next_assignments = without_tag id [] w.ui.context_tags in
    record w {
      ui = record w.ui { custom_tags = next_tags; context_tags = next_assignments };
      storage = persist_context_tags next_assignments (persist_custom_tags next_tags w.storage);
    }
