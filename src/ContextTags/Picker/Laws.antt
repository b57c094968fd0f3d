-- ===== src/ContextTags/Picker/Laws.antt =====
-- features/contexts/ContextTagPicker.tsx with contextTagMeta.ts: a new tag takes no other tag's place.
use Prim.Native.String.{String, [], ◌∷◌}
use klustr.Prelude.{
  ◌≡◌, ◌≢◌, refl, ◌∙◌, false, some, arith, eq_iff, eq_refl, if◌then◌else◌, includes,
  includes-append,
}
use klustr.Prelude.Numerals.{trim}
use klustr.Dict
use klustr.Dict.{Dict, get-put, get_of_absent}
use klustr.Ui.Types.{CustomTagDef}
use klustr.Ui.State.{World}
use klustr.Ui.Tags.{add_custom_tag}
use klustr.ContextTags.{
  color_palette, built_in_tags, inherited_names, meta, inherited, meta_of, resolve_name,
}
use klustr.ContextTags.Slug.{slug_base, derive_short_label}
use klustr.ContextTags.Slug.Termination.{candidate, candidate-ne-empty, make_tag_slug_total}
use klustr.ContextTags.Picker.{existing, new_tag, save_with, save_trimmed, handle_save}

-- What saving a tag under the name `id` does to the state.
pub record IsAdded (def : CustomTagDef) (w w' : World) : Type 0 where
  pub named : def.id ≢ ""
  pub was_free : includes def.id (existing w.ui.custom_tags) ≡ false
  pub stored : Dict.get w'.ui.custom_tags def.id ≡ some def
  pub others :
      (j : String) → j ≢ def.id → Dict.get w'.ui.custom_tags j ≡ Dict.get w.ui.custom_tags j

module _ (upper : String → String) where
  save_with-IsAdded :
      (id trimmed color : String) (w : World)
      → id ≢ ""
      → includes id (existing w.ui.custom_tags) ≡ false
      → IsAdded (new_tag upper id trimmed color) w (save_with upper (some id) trimmed color w).0
  unfolding new_tag add_custom_tag
  save_with-IsAdded id trimmed color w named free = record {
    named = named;
    was_free = free;
    stored = get-put w.ui.custom_tags id id _ ∙ ground (arith, eq_refl id);
    others = λ j ne. get-put w.ui.custom_tags id j _ ∙ ground (arith, eq_iff id j);
  }

  -- Saving a tag whose label is not blank always adds one: its id belongs to no built-in and no other
  -- user tag, the definition is stored under it, and every other definition stays as it was.
  pub handle_save-IsAdded :
      (label color : String) (w : World)
      → trim label ≢ ""
      → (id : String) × ((handle_save upper label color w).1 ≡ some id)
        × IsAdded (new_tag upper id (trim label) color) w (handle_save upper label color w).0
  unfolding handle_save
  handle_save-IsAdded label color w nonblank = go (trim label) nonblank
    where
      go :
          (t : String) (ne : t ≢ "")
          → (id : String) × ((save_trimmed upper t color w).1 ≡ some id)
            × IsAdded (new_tag upper id t color) w (save_trimmed upper t color w).0
      go [] ne = absurd (ne refl)
      go (c ∷ s) ne =
          let (k, found, free, before) = make_tag_slug_total (c ∷ s) (existing w.ui.custom_tags) in
          let id = candidate (slug_base (c ∷ s)) k in
          rw found
            (id, refl, save_with-IsAdded id (c ∷ s) color w (candidate-ne-empty (c ∷ s) k) free)

resolve_name-IsAdded :
    (def : CustomTagDef) (w w' : World)
    → IsAdded def w w'
    → resolve_name def.id w'.ui.custom_tags ≡ (
        if includes def.id inherited_names
        then some (inherited def.id)
        else some (meta (meta_of def)))
unfolding resolve_name
resolve_name-IsAdded def w w' added = ground (
  arith,
  includes-append def.id (Dict.keys built_in_tags) (Dict.keys w.ui.custom_tags),
  get_of_absent built_in_tags def.id,
  added.named,
  added.stored,
  added.was_free,
  eq_iff def.id "",
)

-- What the screens show of a new tag, whose label is not blank, is the label as it was entered, less the
-- spaces around it, the short label derived from that, and the classes of the chosen colour, except
-- where its id is spelled like a member of `Object.prototype`: that member is found instead.
pub resolve_name-handle_save :
    (upper : String → String) (label color : String) (w : World)
    → trim label ≢ ""
    → (id : String) × ((handle_save upper label color w).1 ≡ some id)
      × (resolve_name id (handle_save upper label color w).0.ui.custom_tags ≡ (
          if includes id inherited_names
          then some (inherited id)
          else some (
              meta (record {
                id = id;
                label = trim label;
                short_label = derive_short_label upper (trim label);
                classes = Dict.get color_palette color;
              }))))
unfolding new_tag meta_of derive_short_label
resolve_name-handle_save upper label color w nonblank =
    let (id, found, added) = handle_save-IsAdded upper label color w nonblank in
    (id, found, resolve_name-IsAdded (new_tag upper id (trim label) color) w _ added)
