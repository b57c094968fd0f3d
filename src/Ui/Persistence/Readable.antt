-- ===== src/Ui/Persistence/Readable.antt =====
-- What `readContextGroups` of store/ui.persistence.ts finds in localStorage, whatever is stored there.
use klustr.Prelude.{
  String, ◌≡◌, refl, ◌==◌, if◌then◌else◌, Option-cases, Bool-cases, inl, inr, true, false, Option,
  none, some, List, [], ◌∷◌, arith, eq_iff, includes, All,
}
use klustr.Storage.{Json, obj, Items, nil, cons, Storage, JsonText, read_json}
use klustr.Storage.Access.{strings_of, member}
use klustr.Ui.Types.{ContextGroup}
use klustr.Ui.Persistence.{is_valid_group_color, context_groups_key}
use klustr.Ui.Persistence.Read.{
  nonempty_strings, as_string, as_items, group_color, group_of, groups_of, read_context_groups,
}
use klustr.Ui.Persistence.Records.{IsReadable}

pub includes_empty-nonempty_strings : (xs : List String) → includes "" (nonempty_strings xs) ≡ false
unfolding nonempty_strings includes
includes_empty-nonempty_strings [] = refl
includes_empty-nonempty_strings (x ∷ xs) =
    ground (arith, includes_empty-nonempty_strings xs, eq_iff x "")

color-IsValid : (c : Option String) → is_valid_group_color (group_color c) ≡ true
color-IsValid none = unfold is_valid_group_color includes in refl
color-IsValid (some c) = elim (Bool-cases (is_valid_group_color c)) [
  | inl e ↦ rw (e, e) refl
  | inr e ↦ rw e (unfold is_valid_group_color includes in refl)
]

abbrev IsReadableIfAny : Option ContextGroup → Type 0
IsReadableIfAny none = Unit
IsReadableIfAny (some g) = IsReadable g

group_of-IsReadable : (v : Json) → IsReadableIfAny (group_of v)
unfolding group_of
group_of-IsReadable (obj fs) = elim (Option-cases (as_string (member "id" fs))) [
  | inl e ↦ rw e tt
  | inr (id, e) ↦ elim (Option-cases (as_string (member "name" fs))) [
    | inl f ↦ rw (e, f) tt
    | inr (name, f) ↦ elim (Option-cases (as_items (member "contexts" fs))) [
      | inl k ↦ rw (e, f, k) tt
      | inr (vs, k) ↦
          rw (e, f, k) (group-IsReadable id name (strings_of vs) (as_string (member "color" fs)))
    ]
  ]
]
  where
    group-IsReadable :
        (id name : String) (xs : List String) (color : Option String)
        → IsReadableIfAny (
            if id == ""
            then none
            else if name == ""
            then none
            else some (record {
              id = id;
              name = name;
              contexts = nonempty_strings xs;
              color = group_color color;
            }))
    group-IsReadable id name xs color = elim (Bool-cases (id == "")) [
      | inl e ↦ rw e tt
      | inr e ↦ elim (Bool-cases (name == "")) [
        | inl f ↦ rw (e, f) tt
        | inr f ↦
            rw (e, f)
              (
                (λ p. ground (arith, eq_iff id "")),
                (λ p. ground (arith, eq_iff name "")),
                includes_empty-nonempty_strings xs,
                color-IsValid color,
              )
      ]
    ]
group_of-IsReadable v = tt

groups_of-IsReadable : (vs : Items) → All IsReadable (groups_of vs)
unfolding groups_of
groups_of-IsReadable nil = tt
groups_of-IsReadable (cons v vs) =
    cons-IsReadable (group_of v) (group_of-IsReadable v) (groups_of-IsReadable vs)
  where
    cons-IsReadable :
        (o : Option ContextGroup)
        → IsReadableIfAny o
        → All IsReadable (groups_of vs)
        → All IsReadable (elim o [ none ↦ groups_of vs | some g ↦ g ∷ groups_of vs ])
    cons-IsReadable none h hs = hs
    cons-IsReadable (some g) h hs = (h, hs)

pub read_context_groups-IsReadable :
    (jt : JsonText) (s : Storage) → All IsReadable (read_context_groups jt s)
unfolding read_context_groups
read_context_groups-IsReadable jt s =
    elim (Option-cases (as_items (read_json jt s context_groups_key))) [
      | inl e ↦ rw (read_context_groups, e) tt
      | inr (vs, e) ↦ rw (read_context_groups, e) (groups_of-IsReadable vs)
    ]
