-- ===== src/ContextTags/Picker.antt =====
-- features/contexts/ContextTagPicker.tsx: the form for a new tag.
pub mod Laws
use Prim.Native.String.{String, [], ◌∷◌}
use klustr.Prelude as L
use klustr.Prelude.{
  ℕ, suc, leb, length, not, ◌&&◌, ◌≡◌, refl, sym, ◌∙◌, true, false, Option, none, some, List, arith,
  ◌==◌, eq_iff, eq_refl, if◌then◌else◌, includes, includes-append,
}
use klustr.Prelude.Numerals.{trim}
use klustr.Dict
use klustr.Dict.{Dict, get-put}
use klustr.Ui.Types.{CustomTagDef, max_tags_per_context}
use klustr.Ui.State.{World}
use klustr.Ui.Tags.{tags_of, add_custom_tag, toggle_context_tag}
use klustr.ContextTags.{built_in_tags, inherited_names, TagMeta, meta, meta_of, resolve_name}
use klustr.ContextTags.Slug.{slug_base, make_tag_slug, derive_short_label}
use klustr.ContextTags.Slug.Termination.{candidate, make_tag_slug_total}

-- `new Set([...Object.keys(BUILT_IN_TAGS), ...Object.keys(customTags)])`
abbrev pub existing : Dict CustomTagDef → List String
existing custom_tags = L.◌++◌ (Dict.keys built_in_tags) (Dict.keys custom_tags)

module _ (upper : String → String) where
  unfoldable pub new_tag : String → String → String → CustomTagDef
  unfolding derive_short_label
  new_tag id trimmed color = record {
    id = id;
    label = trimmed;
    short_label = derive_short_label upper trimmed;
    color = color;
  }

  abbrev pub save_with : Option String → String → String → World → World × Option String
  unfolding new_tag add_custom_tag
  save_with none trimmed color w = (w, none)
  save_with (some id) trimmed color w = (add_custom_tag (new_tag id trimmed color) w, some id)

  abbrev pub save_trimmed : String → String → World → World × Option String
  unfolding new_tag add_custom_tag make_tag_slug
  save_trimmed [] color w = (w, none)
  save_trimmed (c ∷ s) color w =
      save_with (make_tag_slug (c ∷ s) (existing w.ui.custom_tags)) (c ∷ s) color w

  -- `handleSave`: the new state, and the id that `onCreated` is called with.
  unfoldable pub handle_save : String → String → World → World × Option String
  unfolding trim new_tag add_custom_tag make_tag_slug
  handle_save label color w = save_trimmed (trim label) color w

-- `onCreated`: the new tag is put on the context, unless it has as many as it may.
unfoldable pub on_created : String → String → World → World
unfolding toggle_context_tag includes
on_created context_name id w =
    let selected = tags_of w.ui.context_tags context_name in
    if not (includes id selected) && not (leb max_tags_per_context (length selected))
    then toggle_context_tag context_name id w
    else w
