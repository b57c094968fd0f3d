-- ===== src/ContextTags.antt =====
-- features/contexts/contextTagMeta.ts: what the screens show of a tag. Children: the ids of new tags, and
-- the form of ContextTagPicker.tsx that makes them.
pub mod Slug
pub mod Picker
mod Tests
use klustr.Prelude.{String, Option, none, some, List, [], ◌∷◌, ◌==◌, if◌then◌else◌, includes}
use klustr.Dict
use klustr.Dict.{Dict}
use klustr.Ui.Types.{CustomTagDef}

pub record ColorClasses : Type 0 where
  pub dot_class : String
  pub badge_class : String
  pub bar_class : String

-- The classes are `none` where the palette has no entry for the colour: `...undefined` adds no field.
pub record ContextTagMeta : Type 0 where
  pub id : String
  pub label : String
  pub short_label : String
  pub classes : Option ColorClasses

abbrev pub classes : String → String → String → ColorClasses
classes dot badge bar = record { dot_class = dot; badge_class = badge; bar_class = bar }

abbrev pub color_palette : Dict ColorClasses
color_palette =
    ("rose", classes "bg-rose-500" "border-rose-500/20 bg-rose-500/10 text-rose-500" "bg-rose-500")
    ∷ ("red", classes "bg-red-500" "border-red-500/20 bg-red-500/10 text-red-500" "bg-red-500")
    ∷ (
      "orange",
      classes "bg-orange-500" "border-orange-500/20 bg-orange-500/10 text-orange-500"
          "bg-orange-500",
    )
    ∷ (
      "amber",
      classes "bg-amber-500" "border-amber-500/20 bg-amber-500/10 text-amber-500" "bg-amber-500",
    )
    ∷ (
      "yellow",
      classes "bg-yellow-500" "border-yellow-500/20 bg-yellow-500/10 text-yellow-500"
          "bg-yellow-500",
    )
    ∷ (
      "lime",
      classes "bg-lime-500" "border-lime-500/20 bg-lime-500/10 text-lime-500" "bg-lime-500",
    )
    ∷ (
      "emerald",
      classes "bg-emerald-500" "border-emerald-500/20 bg-emerald-500/10 text-emerald-500"
          "bg-emerald-500",
    )
    ∷ (
      "teal",
      classes "bg-teal-500" "border-teal-500/20 bg-teal-500/10 text-teal-500" "bg-teal-500",
    )
    ∷ (
      "cyan",
      classes "bg-cyan-500" "border-cyan-500/20 bg-cyan-500/10 text-cyan-500" "bg-cyan-500",
    )
    ∷ ("sky", classes "bg-sky-500" "border-sky-500/20 bg-sky-500/10 text-sky-500" "bg-sky-500")
    ∷ (
      "blue",
      classes "bg-blue-500" "border-blue-500/20 bg-blue-500/10 text-blue-500" "bg-blue-500",
    )
    ∷ (
      "indigo",
      classes "bg-indigo-500" "border-indigo-500/20 bg-indigo-500/10 text-indigo-500"
          "bg-indigo-500",
    )
    ∷ (
      "violet",
      classes "bg-violet-500" "border-violet-500/20 bg-violet-500/10 text-violet-500"
          "bg-violet-500",
    )
    ∷ (
      "fuchsia",
      classes "bg-fuchsia-500" "border-fuchsia-500/20 bg-fuchsia-500/10 text-fuchsia-500"
          "bg-fuchsia-500",
    )
    ∷ (
      "pink",
      classes "bg-pink-500" "border-pink-500/20 bg-pink-500/10 text-pink-500" "bg-pink-500",
    )
    ∷ (
      "slate",
      classes "bg-slate-500" "border-slate-500/20 bg-slate-500/10 text-slate-500" "bg-slate-500",
    )
    ∷ []

abbrev pub tag_color_order : List String
tag_color_order =
    "rose" ∷ "red" ∷ "orange" ∷ "amber" ∷ "yellow" ∷ "lime" ∷ "emerald" ∷ "teal" ∷ "cyan" ∷ "sky"
    ∷ "blue" ∷ "indigo" ∷ "violet" ∷ "fuchsia" ∷ "pink" ∷ "slate" ∷ []

abbrev pub built_in_meta : String → String → String → String → ContextTagMeta
built_in_meta id label short_label color = record {
  id = id;
  label = label;
  short_label = short_label;
  classes = Dict.get color_palette color;
}

abbrev pub built_in_tags : Dict ContextTagMeta
built_in_tags =
    ("prod", built_in_meta "prod" "Production" "PROD" "red")
    ∷ ("staging", built_in_meta "staging" "Staging" "STAGING" "amber")
    ∷ ("dev", built_in_meta "dev" "Development" "DEV" "emerald")
    ∷ []

abbrev pub built_in_tag_order : List String
built_in_tag_order = "prod" ∷ "staging" ∷ "dev" ∷ []

-- The names that every object has from `Object.prototype`.
abbrev pub inherited_names : List String
inherited_names =
    "constructor" ∷ "toString" ∷ "toLocaleString" ∷ "valueOf" ∷ "hasOwnProperty" ∷ "isPrototypeOf"
    ∷ "propertyIsEnumerable" ∷ "__proto__" ∷ "__defineGetter__" ∷ "__defineSetter__"
    ∷ "__lookupGetter__" ∷ "__lookupSetter__" ∷ []

-- What is returned for a tag: its record, or the member of `Object.prototype` with its name.
pub data TagMeta : Type 0 where
  meta : ContextTagMeta → TagMeta
  inherited : String → TagMeta

unfoldable pub meta_of : CustomTagDef → ContextTagMeta
meta_of custom = record {
  id = custom.id;
  label = custom.label;
  short_label = custom.short_label;
  classes = Dict.get color_palette custom.color;
}

abbrev pub custom_meta : Option CustomTagDef → Option TagMeta
custom_meta none = none
custom_meta (some custom) = some (meta (meta_of custom))

abbrev pub built_in_or : Option ContextTagMeta → Option TagMeta → Option TagMeta
built_in_or (some m) otherwise = some (meta m)
built_in_or none otherwise = otherwise

-- `resolveTagMeta(tagId, customTags)` for a tag that is not null
unfoldable pub resolve_name : String → Dict CustomTagDef → Option TagMeta
resolve_name tag_id custom_tags =
    if tag_id == ""
    then none
    else if includes tag_id inherited_names
    then some (inherited tag_id)
    else built_in_or (Dict.get built_in_tags tag_id) (custom_meta (Dict.get custom_tags tag_id))

unfoldable pub resolve_tag_meta : Option String → Dict CustomTagDef → Option TagMeta
unfolding resolve_name
resolve_tag_meta none custom_tags = none
resolve_tag_meta (some tag_id) custom_tags = resolve_name tag_id custom_tags
