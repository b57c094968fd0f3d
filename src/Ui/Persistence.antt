-- ===== src/Ui/Persistence.antt =====
-- The writers of store/ui.persistence.ts: what each `persist*` helper does to localStorage.
pub mod Read
pub mod RoundTrip
mod Tests
pub mod Records
pub mod Readable
pub mod Settings
pub mod SettingWriters
pub mod ContextWriters
pub mod EntryMaps
pub mod TagMaps
pub mod TagDefs
use klustr.Prelude.{
  String, Bool, true, false, Option, none, some, List, [], ◌∷◌, ◌==◌, if◌then◌else◌, includes, ℕ,
  min, max,
}
use klustr.Prelude.Numerals.{decimal, ℤ, pos, negsuc}
use klustr.Dict
use klustr.Dict.{Dict}
use klustr.Storage.{
  Json, null, num, str, arr, obj, Items, nil, cons, Fields, end, field, Item, text, json, Storage,
}
use klustr.Storage.Access.{items_of_strings, fields_of_lists}
use klustr.Ui.Types.{
  SidebarMode, expanded, icons, CustomTagDef, ContextGroup, LastSession, sidebar_width_min,
  sidebar_width_max,
}

abbrev pub theme_storage_key : String
theme_storage_key = "klustr-theme"

abbrev pub collapsed_nav_groups_key : String
collapsed_nav_groups_key = "klustr-collapsed-nav-groups"

abbrev pub expanded_crd_groups_key : String
expanded_crd_groups_key = "klustr-expanded-crd-groups"

abbrev pub hidden_sidebar_items_key : String
hidden_sidebar_items_key = "klustr-hidden-sidebar-items"

abbrev pub sidebar_mode_key : String
sidebar_mode_key = "klustr-sidebar-mode"

abbrev pub sidebar_width_key : String
sidebar_width_key = "klustr-sidebar-width"

abbrev pub default_context_key : String
default_context_key = "klustr-default-context"

abbrev pub aggregated_contexts_key : String
aggregated_contexts_key = "klustr-aggregated-contexts"

abbrev pub namespaces_by_context_key : String
namespaces_by_context_key = "klustr-namespaces-by-context"

abbrev pub global_read_only_key : String
global_read_only_key = "klustr-read-only"

abbrev pub context_tags_key : String
context_tags_key = "klustr-context-tags"

abbrev pub custom_tags_key : String
custom_tags_key = "klustr-custom-tags"

abbrev pub context_groups_key : String
context_groups_key = "klustr-context-groups"

abbrev pub last_session_key : String
last_session_key = "klustr-last-session"

-- `VALID_COLORS`
abbrev pub valid_colors : List String
valid_colors =
    "rose" ∷ "red" ∷ "orange" ∷ "amber" ∷ "yellow" ∷ "lime" ∷ "emerald" ∷ "teal" ∷ "cyan" ∷ "sky"
    ∷ "blue" ∷ "indigo" ∷ "violet" ∷ "fuchsia" ∷ "pink" ∷ "slate" ∷ []

unfoldable pub is_valid_group_color : String → Bool
is_valid_group_color c = includes c valid_colors

unfoldable pub persist_theme_id : String → Storage → Storage
persist_theme_id id s = Dict.put s theme_storage_key (text id)

abbrev pub mode_name : SidebarMode → String
mode_name expanded = "expanded"
mode_name icons = "icons"

unfoldable pub persist_sidebar_mode : SidebarMode → Storage → Storage
persist_sidebar_mode mode s = Dict.put s sidebar_mode_key (text (mode_name mode))

unfoldable pub persist_sidebar_width : ℕ → Storage → Storage
persist_sidebar_width px s = Dict.put s sidebar_width_key (text (decimal px))

abbrev pub strings_json : List String → Json
strings_json list = arr (items_of_strings list)

unfoldable pub persist_collapsed_nav_groups : List String → Storage → Storage
persist_collapsed_nav_groups list s = Dict.put s collapsed_nav_groups_key (json (strings_json list))

unfoldable pub persist_expanded_crd_groups : List String → Storage → Storage
persist_expanded_crd_groups list s = Dict.put s expanded_crd_groups_key (json (strings_json list))

-- `Object.entries(map).filter(([, list]) => list.length > 0)`
unfoldable pub nonempty_entries : Dict (List String) → Dict (List String)
nonempty_entries [] = []
nonempty_entries ((k, []) ∷ m) = nonempty_entries m
nonempty_entries ((k, x ∷ xs) ∷ m) = (k, x ∷ xs) ∷ nonempty_entries m

-- The entries are removed where none is left.
abbrev pub store_entries : String → Dict (List String) → Storage → Storage
store_entries key [] s = Dict.remove s key
store_entries key (e ∷ m) s = Dict.put s key (json (obj (fields_of_lists (e ∷ m))))

unfoldable pub persist_hidden_sidebar_items_by_context : Dict (List String) → Storage → Storage
unfolding nonempty_entries
persist_hidden_sidebar_items_by_context map s =
    store_entries hidden_sidebar_items_key (nonempty_entries map) s

unfoldable pub persist_namespaces_by_context : Dict (List String) → Storage → Storage
unfolding nonempty_entries
persist_namespaces_by_context map s =
    store_entries namespaces_by_context_key (nonempty_entries map) s

unfoldable pub persist_default_context : Option String → Storage → Storage
persist_default_context none s = Dict.remove s default_context_key
persist_default_context (some name) s =
    if name == ""
    then Dict.remove s default_context_key
    else Dict.put s default_context_key (text name)

unfoldable pub persist_aggregated_contexts : List String → Storage → Storage
persist_aggregated_contexts [] s = Dict.remove s aggregated_contexts_key
persist_aggregated_contexts (x ∷ xs) s =
    Dict.put s aggregated_contexts_key (json (strings_json (x ∷ xs)))

unfoldable pub persist_global_read_only : Bool → Storage → Storage
persist_global_read_only true s = Dict.put s global_read_only_key (text "true")
persist_global_read_only false s = Dict.remove s global_read_only_key

abbrev option_json : Option String → Json
option_json none = null
option_json (some t) = str t

-- `JSON.stringify(session)`, in the order of the fields
unfoldable pub session_json : LastSession → Json
session_json session = obj (
    field "contexts" (strings_json session.contexts)
      (field "groupId" (option_json session.group_id) (field "at" (num session.at) end)))

abbrev pub store_session : List String → LastSession → Storage → Storage
store_session [] session s = Dict.remove s last_session_key
store_session (x ∷ xs) session s = Dict.put s last_session_key (json (session_json session))

unfoldable pub persist_last_session : Option LastSession → Storage → Storage
unfolding session_json
persist_last_session none s = Dict.remove s last_session_key
persist_last_session (some session) s = store_session session.contexts session s

unfoldable pub group_json : ContextGroup → Json
group_json g = obj (
    field "id" (str g.id) (
      field "name" (str g.name)
        (field "contexts" (strings_json g.contexts) (field "color" (str g.color) end))))

unfoldable pub groups_items : List ContextGroup → Items
unfolding group_json
groups_items [] = nil
groups_items (g ∷ gs) = cons (group_json g) (groups_items gs)

unfoldable pub persist_context_groups : List ContextGroup → Storage → Storage
unfolding groups_items
persist_context_groups [] s = Dict.remove s context_groups_key
persist_context_groups (g ∷ gs) s =
    Dict.put s context_groups_key (json (arr (groups_items (g ∷ gs))))

unfoldable pub persist_context_tags : Dict (List String) → Storage → Storage
persist_context_tags map s = Dict.put s context_tags_key (json (obj (fields_of_lists map)))

unfoldable pub tag_fields : Dict CustomTagDef → Fields
tag_fields [] = end
tag_fields ((k, d) ∷ m) =
    field k
      (obj (
        field "id" (str d.id) (
          field "label" (str d.label)
            (field "shortLabel" (str d.short_label) (field "color" (str d.color) end)))))
      (tag_fields m)

unfoldable pub persist_custom_tags : Dict CustomTagDef → Storage → Storage
unfolding tag_fields
persist_custom_tags map s = Dict.put s custom_tags_key (json (obj (tag_fields map)))

-- `Math.min(MAX, Math.max(MIN, value))`
unfoldable pub clamp_sidebar_width : ℤ → ℕ
clamp_sidebar_width (pos n) = min sidebar_width_max (max sidebar_width_min n)
clamp_sidebar_width (negsuc n) = sidebar_width_min
