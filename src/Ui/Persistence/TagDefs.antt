-- ===== src/Ui/Persistence/TagDefs.antt =====
-- The custom tags of store/ui.persistence.ts: what is read of them, and what is read back whole.
use mathlib.Core.List.{append-nil, append_assoc}
use klustr.Prelude.{
  ◌≡◌, ◌∙◌, refl, ap, sym, String, [], ◌∷◌, ◌++◌, ◌==◌, true, false, Option, none, some, Distinct,
  if◌then◌else◌, includes, arith, eq_iff, eq_refl, Bool-cases, Option-cases, inl, inr,
}
use klustr.Dict
use klustr.Dict.{
  Dict, keys, put_of_absent, includes-keys-append, Distinct-keys-put, Distinct-keys-remove,
}
use klustr.Storage.{Json, str, obj, Fields, end, field, Storage, JsonText, read_json}
use klustr.Storage.Access.{member}
use klustr.Ui.Types.{CustomTagDef}
use klustr.Ui.Persistence.{valid_colors, custom_tags_key, persist_custom_tags, tag_fields}
use klustr.Ui.Persistence.Read.{
  entries, as_string, tag_def, assign_tag, custom_tags_from, read_custom_tags,
}
use klustr.Ui.Persistence.RoundTrip.{read_json-put}

-- A custom tag that the reader takes, and a map of such tags.
abbrev pub IsTagDef : CustomTagDef → Type 0
IsTagDef d = includes d.color valid_colors ≡ true

abbrev pub AreTagDefs : Dict CustomTagDef → Type 0
AreTagDefs [] = Unit
AreTagDefs ((k, d) ∷ m) = IsTagDef d × AreTagDefs m

abbrev pub HasTagDefs : Dict CustomTagDef → Type 0
HasTagDefs m = Distinct (keys m) × AreTagDefs m

AreTagDefs-put :
    (m : Dict CustomTagDef) (k : String) (d : CustomTagDef)
    → IsTagDef d
    → AreTagDefs m
    → AreTagDefs (Dict.put m k d)
unfolding Dict.put
AreTagDefs-put [] k d p h = (p, tt)
AreTagDefs-put ((j, c) ∷ m) k d p (q, h) =
    elim (j == k) as (λ b. AreTagDefs (if b then (k, d) ∷ m else (j, c) ∷ Dict.put m k d)) [
      | true ↦ (p, h)
      | false ↦ (q, AreTagDefs-put m k d p h)
    ]

AreTagDefs-remove :
    (m : Dict CustomTagDef) (k : String) → AreTagDefs m → AreTagDefs (Dict.remove m k)
unfolding Dict.remove
AreTagDefs-remove [] k h = tt
AreTagDefs-remove ((j, c) ∷ m) k (q, h) =
    elim (j == k)
      as (λ b. AreTagDefs (elim b [ true ↦ Dict.remove m k | false ↦ (j, c) ∷ Dict.remove m k ])) [
        | true ↦ AreTagDefs-remove m k h
        | false ↦ (q, AreTagDefs-remove m k h)
      ]

pub HasTagDefs-put :
    (m : Dict CustomTagDef) (k : String) (d : CustomTagDef)
    → IsTagDef d
    → HasTagDefs m
    → HasTagDefs (Dict.put m k d)
HasTagDefs-put m k d p (distinct, h) = (Distinct-keys-put m k d distinct, AreTagDefs-put m k d p h)

pub HasTagDefs-remove :
    (m : Dict CustomTagDef) (k : String) → HasTagDefs m → HasTagDefs (Dict.remove m k)
HasTagDefs-remove m k (distinct, h) = (Distinct-keys-remove m k distinct, AreTagDefs-remove m k h)

tag_def-json :
    (d : CustomTagDef)
    → IsTagDef d
    → tag_def (
        obj (
          field "id" (str d.id) (
            field "label"
              (str d.label)
              (field "shortLabel" (str d.short_label) (field "color" (str d.color) end)))))
      ≡ some d
unfolding tag_def member
tag_def-json d valid = rw valid refl

custom_tags_from-fields :
    (out m : Dict CustomTagDef)
    → HasTagDefs m
    → ((k : String) → includes k (keys m) ≡ true → includes k (keys out) ≡ false)
    → custom_tags_from out (tag_fields m) ≡ out ++ m
unfolding custom_tags_from tag_fields keys includes
custom_tags_from-fields out [] h fresh = sym (append-nil out)
custom_tags_from-fields out ((k, d) ∷ m) ((absent, distinct), (valid, h)) fresh =
    ap (λ o. custom_tags_from (assign_tag out k o) (tag_fields m)) (tag_def-json d valid)
    ∙ ap (λ (o : Dict CustomTagDef). custom_tags_from o (tag_fields m))
        (put_of_absent out k d (fresh k (rw (eq_refl k))))
    ∙ custom_tags_from-fields (out ++ (k, d) ∷ []) m (distinct, h)
        (λ j later. includes-keys-append out ((k, d) ∷ []) j ∙ ground (arith, fresh j, eq_iff k j))
    ∙ append_assoc out ((k, d) ∷ []) m

pub read-persist_custom_tags :
    (jt : JsonText) (m : Dict CustomTagDef) (s : Storage)
    → HasTagDefs m
    → read_custom_tags jt (persist_custom_tags m s) ≡ m
unfolding read_custom_tags persist_custom_tags entries
read-persist_custom_tags jt m s h =
    ap
      (λ o. elim o as (λ o. Dict CustomTagDef) [
        | none ↦ []
        | some j ↦ custom_tags_from [] (entries j)
      ])
      (read_json-put jt s custom_tags_key (obj (tag_fields m)))
    ∙ custom_tags_from-fields [] m h (λ j later. unfold keys includes in refl)

abbrev IsTagDefIfAny : Option CustomTagDef → Type 0
IsTagDefIfAny none = Unit
IsTagDefIfAny (some d) = IsTagDef d

tag_def-IsTagDef : (v : Json) → IsTagDefIfAny (tag_def v)
unfolding tag_def
tag_def-IsTagDef (obj fs) = elim (Option-cases (as_string (member "id" fs))) [
  | inl e ↦ rw e tt
  | inr (id, e) ↦ elim (Option-cases (as_string (member "label" fs))) [
    | inl f ↦ rw (e, f) tt
    | inr (label, f) ↦ elim (Option-cases (as_string (member "shortLabel" fs))) [
      | inl k ↦ rw (e, f, k) tt
      | inr (short_label, k) ↦ elim (Option-cases (as_string (member "color" fs))) [
        | inl c ↦ rw (e, f, k, c) tt
        | inr (color, c) ↦ elim (Bool-cases (includes color valid_colors)) [
          | inl valid ↦ rw (e, f, k, c, valid) valid
          | inr invalid ↦ rw (e, f, k, c, invalid) tt
        ]
      ]
    ]
  ]
]
tag_def-IsTagDef v = tt

custom_tags_from-HasTagDefs :
    (fs : Fields) (out : Dict CustomTagDef) → HasTagDefs out → HasTagDefs (custom_tags_from out fs)
unfolding custom_tags_from
custom_tags_from-HasTagDefs end out h = h
custom_tags_from-HasTagDefs (field k v fs) out h =
    custom_tags_from-HasTagDefs fs (assign_tag out k (tag_def v))
      (assigned (tag_def v) (tag_def-IsTagDef v))
  where
    assigned : (o : Option CustomTagDef) → IsTagDefIfAny o → HasTagDefs (assign_tag out k o)
    assigned none p = h
    assigned (some d) p = HasTagDefs-put out k d p h

pub read_custom_tags-HasTagDefs : (jt : JsonText) (s : Storage) → HasTagDefs (read_custom_tags jt s)
unfolding read_custom_tags
read_custom_tags-HasTagDefs jt s =
    elim (read_json jt s custom_tags_key)
      as (λ o. HasTagDefs (elim o [ none ↦ [] | some j ↦ custom_tags_from [] (entries j) ])) [
        | none ↦ (unfold keys in tt, tt)
        | some j ↦ custom_tags_from-HasTagDefs (entries j) [] (unfold keys in tt, tt)
      ]
