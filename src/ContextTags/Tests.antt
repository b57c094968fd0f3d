-- ===== src/ContextTags/Tests.antt =====
-- Tests of the tags shown and made, and the theorems at concrete inputs.
use klustr.Prelude.{
  ℕ, String, true, false, none, some, List, includes, refl, ◌≡◌, ◌≢◌, ◌∷◌, ◌<◌, [], if◌then◌else◌,
}
use klustr.ContextTags.Slug.Termination.{candidate, make_tag_slug_total}
use klustr.ContextTags.Slug.{derive_short_label, make_tag_slug, slug_base}
use klustr.ContextTags.Picker.Laws.{IsAdded, handle_save-IsAdded, resolve_name-handle_save}
use klustr.ContextTags.Picker.{handle_save, new_tag}
use klustr.ContextTags.Slug.{derive_short_label}
use klustr.Dict
use klustr.ContextTags.{color_palette, inherited_names, resolve_name, resolve_tag_meta}
use klustr.Ui.Fixtures.{started, tier}
use klustr.Prelude.Numerals.{trim}
use klustr.Dict
use klustr.Dict.{Dict, get}
use klustr.ContextTags.{inherited, meta}

-- A label with other characters than letters and digits, and one that is taken twice.
slug_of_label : slug_base "  Prod / EU_1 " ≡ "prod-eu-1"
unfolding slug_base
slug_of_label = refl

slug_of_signs : slug_base "!?" ≡ "tag"
unfolding slug_base
slug_of_signs = refl

abbrev taken : List String
taken = "eu" ∷ "eu-2" ∷ "us" ∷ []

third_slug : make_tag_slug "EU" taken ≡ some "eu-3"
unfolding make_tag_slug
third_slug = refl

short_of_label : derive_short_label (λ s. s) "  a label of many words" ≡ "a label of m"
unfolding derive_short_label
short_of_label = refl

built_in_wins : resolve_tag_meta (some "prod") (("prod", tier) ∷ []) ≢ none
unfolding resolve_tag_meta includes Dict.get
built_in_wins = cc

abbrev as_it_is : String → String
as_it_is s = s

abbrev label_text : String
label_text = "Constructor"

make_tag_slug_total_example :
    (k : ℕ) × (make_tag_slug "EU" taken ≡ some (candidate (slug_base "EU") k))
    × (includes (candidate (slug_base "EU") k) taken ≡ false)
    × ((j : ℕ) → j < k → includes (candidate (slug_base "EU") j) taken ≡ true)
make_tag_slug_total_example = make_tag_slug_total "EU" taken

label_text-ne : trim label_text ≢ ""
unfolding trim
label_text-ne = cc

handle_save-IsAdded_example :
    (id : String) × ((handle_save as_it_is label_text "blue" started).1 ≡ some id)
    × IsAdded
        (new_tag as_it_is id (trim label_text) "blue")
        started
        (handle_save as_it_is label_text "blue" started).0
handle_save-IsAdded_example = handle_save-IsAdded as_it_is label_text "blue" started label_text-ne

resolve_name-handle_save_example :
    (id : String) × ((handle_save as_it_is label_text "blue" started).1 ≡ some id)
    × (resolve_name id (handle_save as_it_is label_text "blue" started).0.ui.custom_tags ≡ (
        if includes id inherited_names
        then some (inherited id)
        else some (
            meta (record {
              id = id;
              label = trim label_text;
              short_label = derive_short_label as_it_is (trim label_text);
              classes = Dict.get color_palette "blue";
            }))))
resolve_name-handle_save_example =
    resolve_name-handle_save as_it_is label_text "blue" started label_text-ne
