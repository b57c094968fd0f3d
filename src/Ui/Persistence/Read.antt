-- ===== src/Ui/Persistence/Read.antt =====
-- The readers of store/ui.persistence.ts: what a `read*` helper makes of localStorage at boot.
use klustr.Prelude.{
  ℕ, suc, String, Bool, true, false, Option, none, some, List, [], ◌∷◌, ◌==◌, if◌then◌else◌,
  includes, take,
}
use klustr.Prelude.Numerals.{decimal, ℤ, parse_int}
use klustr.Dict
use klustr.Dict.{Dict}
use klustr.Storage.{
  Json, num, str, arr, obj, Items, nil, cons, Fields, end, field, Storage, JsonText, read_text,
  read_json,
}
use klustr.Storage.Access.{strings_of, member}
use klustr.Ui.Types.{
  SidebarMode, expanded, icons, CustomTagDef, ContextGroup, LastSession, max_tags_per_context,
  sidebar_width_default,
}
use klustr.Ui.Themes.{default_dark, default_light, is_theme_id}
use klustr.Ui.Persistence.{
  theme_storage_key, collapsed_nav_groups_key, expanded_crd_groups_key, hidden_sidebar_items_key,
  sidebar_mode_key, sidebar_width_key, default_context_key, aggregated_contexts_key,
  namespaces_by_context_key, global_read_only_key, context_tags_key, custom_tags_key,
  context_groups_key, last_session_key, valid_colors, is_valid_group_color, clamp_sidebar_width,
}

-- `list.filter((c) => typeof c === 'string' && c.length > 0)`
unfoldable pub nonempty_strings : List String → List String
nonempty_strings [] = []
nonempty_strings (x ∷ xs) =
    let rest = nonempty_strings xs in elim (x == "") [ true ↦ rest | false ↦ x ∷ rest ]

-- `Object.entries(array)`: the keys are the positions.
unfoldable pub index_fields : ℕ → Items → Fields
index_fields i nil = end
index_fields i (cons v vs) = field (decimal i) v (index_fields (suc i) vs)

-- `Object.entries(parsed)` after the test for an object, which an array passes
unfoldable pub entries : Json → Fields
unfolding index_fields
entries (obj fs) = fs
entries (arr vs) = index_fields 0 vs
entries _ = end

abbrev pub assign_nonempty : Dict (List String) → String → List String → Dict (List String)
assign_nonempty out k [] = out
assign_nonempty out k (x ∷ xs) = Dict.put out k (x ∷ xs)

-- the loop of `readHiddenSidebarItemsByContext` and `readNamespacesByContext`
unfoldable pub lists_from : Dict (List String) → Fields → Dict (List String)
lists_from out end = out
lists_from out (field k (arr vs) fs) = lists_from (assign_nonempty out k (strings_of vs)) fs
lists_from out (field k _ fs) = lists_from out fs

unfoldable pub lists_of : Option Json → Dict (List String)
unfolding lists_from
lists_of (some (obj fs)) = lists_from [] fs
lists_of _ = []

-- the loop of `readContextTags`
unfoldable pub tags_from : Dict (List String) → Fields → Dict (List String)
unfolding nonempty_strings
tags_from out end = out
tags_from out (field k (str v) fs) = tags_from (if v == "" then out else Dict.put out k (v ∷ [])) fs
tags_from out (field k (arr vs) fs) =
    tags_from (assign_nonempty out k (take max_tags_per_context (nonempty_strings (strings_of vs))))
      fs
tags_from out (field k _ fs) = tags_from out fs

abbrev pub as_string : Option Json → Option String
as_string (some (str t)) = some t
as_string _ = none

infixl 5 ◌>>=◌
abbrev ◌>>=◌ {ℓ κ} : {A : Type ℓ} {B : Type κ} → Option A → (A → Option B) → Option B
none >>= k = none
some a >>= k = k a

abbrev guarded : Bool → Option (Unit {0})
guarded true = some tt
guarded false = none

abbrev pub as_items : Option Json → Option Items
as_items (some (arr vs)) = some vs
as_items _ = none

unfoldable pub tag_def : Json → Option CustomTagDef
tag_def (obj fs) = do
  id ← as_string (member "id" fs)
  label ← as_string (member "label" fs)
  short_label ← as_string (member "shortLabel" fs)
  color ← as_string (member "color" fs)
  guarded (includes color valid_colors) >>= λ _.
      some (record { id = id; label = label; short_label = short_label; color = color })
tag_def _ = none

abbrev pub assign_tag : Dict CustomTagDef → String → Option CustomTagDef → Dict CustomTagDef
assign_tag out k none = out
assign_tag out k (some def) = Dict.put out k def

-- the loop of `readCustomTags`
unfoldable pub custom_tags_from : Dict CustomTagDef → Fields → Dict CustomTagDef
unfolding tag_def
custom_tags_from out end = out
custom_tags_from out (field k v fs) = custom_tags_from (assign_tag out k (tag_def v)) fs

abbrev pub group_color : Option String → String
group_color none = "sky"
group_color (some c) = if is_valid_group_color c then c else "sky"

-- one item of `readContextGroups`
unfoldable pub group_of : Json → Option ContextGroup
unfolding nonempty_strings
group_of (obj fs) = do
  id ← as_string (member "id" fs)
  name ← as_string (member "name" fs)
  vs ← as_items (member "contexts" fs)
  if id == ""
      then none
      else if name == ""
      then none
      else some (record {
        id = id;
        name = name;
        contexts = nonempty_strings (strings_of vs);
        color = group_color (as_string (member "color" fs));
      })
group_of _ = none

unfoldable pub groups_of : Items → List ContextGroup
unfolding group_of
groups_of nil = []
groups_of (cons v vs) =
    let rest = groups_of vs in elim (group_of v) [ none ↦ rest | some g ↦ g ∷ rest ]

abbrev time_of : Option Json → ℕ → ℕ
time_of (some (num at)) now = at
time_of _ now = now

abbrev nonempty_text : Option String → Option String
nonempty_text none = none
nonempty_text (some t) = if t == "" then none else some t

abbrev session_of_contexts : List String → Fields → ℕ → Option LastSession
session_of_contexts [] fs now = none
session_of_contexts (x ∷ xs) fs now = some (record {
  contexts = x ∷ xs;
  group_id = nonempty_text (as_string (member "groupId" fs));
  at = time_of (member "at" fs) now;
})

unfoldable pub session_of : ℕ → Json → Option LastSession
unfolding nonempty_strings
session_of now (obj fs) = do
  vs ← as_items (member "contexts" fs)
  session_of_contexts (nonempty_strings (strings_of vs)) fs now
session_of now _ = none

module _ (jt : JsonText) where
  unfoldable pub read_string_array : String → Storage → List String
  read_string_array key s = elim (as_items (read_json jt s key)) [
    | none ↦ []
    | some vs ↦ strings_of vs
  ]

  unfoldable pub read_collapsed_nav_groups : Storage → List String
  unfolding read_string_array
  read_collapsed_nav_groups s = read_string_array collapsed_nav_groups_key s

  unfoldable pub read_expanded_crd_groups : Storage → List String
  unfolding read_string_array
  read_expanded_crd_groups s = read_string_array expanded_crd_groups_key s

  unfoldable pub read_aggregated_contexts : Storage → List String
  unfolding read_string_array
  read_aggregated_contexts s = read_string_array aggregated_contexts_key s

  unfoldable pub read_hidden_sidebar_items_by_context : Storage → Dict (List String)
  unfolding lists_of
  read_hidden_sidebar_items_by_context s = lists_of (read_json jt s hidden_sidebar_items_key)

  unfoldable pub read_namespaces_by_context : Storage → Dict (List String)
  unfolding lists_of
  read_namespaces_by_context s = lists_of (read_json jt s namespaces_by_context_key)

  unfoldable pub read_default_context : Storage → Option String
  read_default_context s = read_text jt s default_context_key

  unfoldable pub read_global_read_only : Storage → Bool
  read_global_read_only s = elim (read_text jt s global_read_only_key) [
    | none ↦ false
    | some t ↦ t == "true"
  ]

  unfoldable pub read_sidebar_mode : Storage → SidebarMode
  read_sidebar_mode s = elim (read_text jt s sidebar_mode_key) [
    | none ↦ expanded
    | some t ↦ if t == "icons" then icons else expanded
  ]

  abbrev pub width_of : Option ℤ → ℕ
  width_of none = sidebar_width_default
  width_of (some px) = clamp_sidebar_width px

  unfoldable pub read_sidebar_width : Storage → ℕ
  read_sidebar_width s = elim (read_text jt s sidebar_width_key) [
    | none ↦ sidebar_width_default
    | some raw ↦ width_of (parse_int raw)
  ]

  unfoldable pub read_saved_theme_id : Storage → Option String
  read_saved_theme_id s = elim (read_text jt s theme_storage_key) [
    | none ↦ none
    | some saved ↦
        if is_theme_id saved
        then some saved
        else if saved == "dark"
        then some default_dark
        else if saved == "light"
        then some default_light
        else none
  ]

  -- `Date.now()` is `now`.
  unfoldable pub read_last_session : ℕ → Storage → Option LastSession
  unfolding session_of
  read_last_session now s = read_json jt s last_session_key >>= session_of now

  unfoldable pub read_context_groups : Storage → List ContextGroup
  unfolding groups_of
  read_context_groups s = elim (as_items (read_json jt s context_groups_key)) [
    | none ↦ []
    | some vs ↦ groups_of vs
  ]

  unfoldable pub read_context_tags : Storage → Dict (List String)
  unfolding tags_from entries
  read_context_tags s = elim (read_json jt s context_tags_key) [
    | none ↦ []
    | some j ↦ tags_from [] (entries j)
  ]

  unfoldable pub read_custom_tags : Storage → Dict CustomTagDef
  unfolding custom_tags_from entries
  read_custom_tags s = elim (read_json jt s custom_tags_key) [
    | none ↦ []
    | some j ↦ custom_tags_from [] (entries j)
  ]
