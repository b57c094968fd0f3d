-- ===== src/Connections/Sections.antt =====
-- features/contexts/ConnectionsScreen.tsx: `sections`, the contexts by their first tag.
pub mod Laws
pub mod Spread
use klustr.Prelude.{
  String, Bool, not, ◌&&◌, Option, none, some, List, [], ◌∷◌, ◌++◌, ◌==◌, if◌then◌else◌, keep,
  or_else, includes,
}
use klustr.Collation.{Collation, sort}
use klustr.Dict
use klustr.Dict.{Dict}
use klustr.Ui.Types.{ContextTag, CustomTagDef}
use klustr.Ui.Tags.{TagMap, tags_of}
use klustr.ContextTags.{TagMeta, built_in_tag_order, resolve_name}
use klustr.Connections.Defs.{ContextInfo}

abbrev pub untagged_key : String
untagged_key = "__untagged__"

pub record GroupedSection : Type 0 where
  pub id : String
  pub meta : Option TagMeta
  pub items : List ContextInfo

-- `tagIds[0] ?? UNTAGGED_KEY`
abbrev pub first_or_untagged : List ContextTag → String
first_or_untagged [] = untagged_key
first_or_untagged (t ∷ ts) = t

unfoldable pub primary : TagMap → ContextInfo → String
primary context_tags c = first_or_untagged (tags_of context_tags c.name)

-- `byKey.get(key) ?? []`
abbrev pub items_at : Dict (List ContextInfo) → String → List ContextInfo
items_at by_key key = or_else (Dict.get by_key key) []

-- The loop that fills `byKey`.
unfoldable pub by_key_of :
    TagMap → List ContextInfo → Dict (List ContextInfo) → Dict (List ContextInfo)
unfolding primary
by_key_of context_tags [] by_key = by_key
by_key_of context_tags (c ∷ cs) by_key =
    let key = primary context_tags c in
    by_key_of context_tags cs (Dict.put by_key key (items_at by_key key ++ c ∷ []))

abbrev pub is_custom : String → Bool
is_custom key = not (key == untagged_key) && not (includes key built_in_tag_order)

module _ (units : Collation) where
  -- `units` is the order of `sort()`, by UTF-16 code units.
  unfoldable pub section_order : Dict (List ContextInfo) → List String
  section_order by_key =
      built_in_tag_order ++ (sort units (keep is_custom (Dict.keys by_key)) ++ untagged_key ∷ [])

abbrev pub with_section :
    Dict CustomTagDef → String → List ContextInfo → List GroupedSection → List GroupedSection
with_section custom_tags key [] rest = rest
with_section custom_tags key (c ∷ cs) rest =
    record {
      id = key;
      meta = if key == untagged_key then none else resolve_name key custom_tags;
      items = c ∷ cs;
    }
    ∷ rest

-- The loop over `order`, which skips the keys without contexts.
unfoldable pub sections_in :
    Dict CustomTagDef → Dict (List ContextInfo) → List String → List GroupedSection
sections_in custom_tags by_key [] = []
sections_in custom_tags by_key (key ∷ order) =
    with_section custom_tags key (items_at by_key key) (sections_in custom_tags by_key order)

unfoldable pub sections :
    Collation → List ContextInfo → TagMap → Dict CustomTagDef → List GroupedSection
unfolding by_key_of sections_in section_order
sections units filtered context_tags custom_tags =
    let by_key = by_key_of context_tags filtered [] in
    sections_in custom_tags by_key (section_order units by_key)

-- `sections.flatMap((s) => s.items)`
unfoldable pub ordered_visible : List GroupedSection → List ContextInfo
ordered_visible [] = []
ordered_visible (s ∷ ss) = s.items ++ ordered_visible ss
