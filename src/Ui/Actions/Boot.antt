-- ===== src/Ui/Actions/Boot.antt =====
-- The state of store/ui.ts after a start.
use klustr.Prelude.{
  ℕ, ◌≤◌, String, ◌≡◌, refl, Bool, true, false, Option, none, some, List, [], ◌∷◌, ◌==◌, arith, inl,
  inr, if◌then◌else◌, Distinct, length, length-take_le, ◌⊎◌,
}
use klustr.Dict
use klustr.Dict.{Dict, keys, get-put, Distinct-keys-put}
use klustr.Prelude.Numerals.{ℤ, parse_int}
use klustr.Collation.{Collation}
use klustr.Collation.Canonical.{IsCanonical}
use klustr.Storage.{read_json, read_text, JsonText, Storage, Json, Fields}
use klustr.Storage.Access.{strings_of}
use klustr.Ui.Types.{
  max_tags_per_context, sidebar_width_min, sidebar_width_max, sidebar_width_default,
}
use klustr.Ui.Contexts.{several}
use klustr.Ui.Contexts.Invariant.{several_idem}
use klustr.Ui.Tags.{TagMap, tags_of}
use klustr.Ui.Groups.Laws.{AreGroups}
use klustr.Ui.Persistence.{context_tags_key, sidebar_width_key}
use klustr.Ui.Persistence.Read.{
  nonempty_strings, assign_nonempty, tags_from, entries, read_aggregated_contexts,
  read_context_groups, read_context_tags, read_sidebar_width, read_default_context, width_of,
}
use klustr.Ui.Actions.{boot, selected_at_boot}
use klustr.Ui.Actions.Reachable.{IsInvariant}
use klustr.Ui.Actions.Frame.{clamp_range}

-- At most three tags under every key, which are distinct.
record AreTags (m : TagMap) : Type 0 where
  pub bounded : (ctx : String) → length (tags_of m ctx) ≤ max_tags_per_context
  pub keyed : Distinct (keys m)

put-AreTags :
    (m : TagMap) (k : String) (ids : List String)
    → length ids ≤ max_tags_per_context
    → AreTags m
    → AreTags (Dict.put m k ids)
put-AreTags m k ids h a = record {
  bounded = λ ctx. ground (arith, get-put m k ctx ids, h, a.bounded ctx);
  keyed = Distinct-keys-put m k ids a.keyed;
}

assign-AreTags :
    (m : TagMap) (k : String) (ids : List String)
    → length ids ≤ max_tags_per_context
    → AreTags m
    → AreTags (assign_nonempty m k ids)
assign-AreTags m k [] h a = a
assign-AreTags m k (t ∷ ts) h a = put-AreTags m k (t ∷ ts) h a

tags_from-AreTags : (fs : Fields) (out : TagMap) → AreTags out → AreTags (tags_from out fs)
unfolding tags_from
tags_from-AreTags Fields.end out a = a
tags_from-AreTags (Fields.field k (Json.str v) fs) out a = tags_from-AreTags fs _ (one (v == ""))
  where
    one : (b : Bool) → AreTags (if b then out else Dict.put out k (v ∷ []))
    one true = a
    one false = put-AreTags out k (v ∷ []) (omega arith) a
tags_from-AreTags (Fields.field k (Json.arr vs) fs) out a = tags_from-AreTags fs _ (
    assign-AreTags out k _ (length-take_le max_tags_per_context (nonempty_strings (strings_of vs)))
      a)
tags_from-AreTags (Fields.field k Json.null fs) out a = tags_from-AreTags fs out a
tags_from-AreTags (Fields.field k Json.truth fs) out a = tags_from-AreTags fs out a
tags_from-AreTags (Fields.field k Json.falsity fs) out a = tags_from-AreTags fs out a
tags_from-AreTags (Fields.field k (Json.num n) fs) out a = tags_from-AreTags fs out a
tags_from-AreTags (Fields.field k (Json.obj o) fs) out a = tags_from-AreTags fs out a

no_tags-AreTags : AreTags []
no_tags-AreTags = record { bounded = λ ctx. none_under ctx; keyed = unfold keys in tt }
  where
    none_under : (ctx : String) → length (tags_of [] ctx) ≤ 3
    none_under ctx = unfold Dict.get in omega arith

exclusive-boot :
    (stored : List String) (preferred : Option String)
    → (several stored ≡ []) ⊎ (selected_at_boot (several stored) preferred ≡ none)
unfolding several
exclusive-boot [] preferred = inl refl
exclusive-boot (c ∷ []) preferred = inl refl
exclusive-boot (c ∷ d ∷ cs) preferred = inr refl

module _ (jt : JsonText) where
  read_context_tags-AreTags : (s : Storage) → AreTags (read_context_tags jt s)
  unfolding read_context_tags
  read_context_tags-AreTags s =
      elim (read_json jt s context_tags_key)
        as (λ o. AreTags (elim o [ none ↦ [] | some j ↦ tags_from [] (entries j) ])) [
          | none ↦ no_tags-AreTags
          | some j ↦ tags_from-AreTags (entries j) [] no_tags-AreTags
        ]

  width-range :
      (s : Storage)
      → (sidebar_width_min ≤ read_sidebar_width jt s)
        × (read_sidebar_width jt s ≤ sidebar_width_max)
  unfolding read_sidebar_width
  width-range s = cases (read_text jt s sidebar_width_key)
    where
      in_range :
          (px : Option ℤ)
          → (sidebar_width_min ≤ width_of jt px) × (width_of jt px ≤ sidebar_width_max)
      in_range none = (omega arith, omega arith)
      in_range (some px) = clamp_range px

      read : Option String → ℕ
      read o = elim o [ none ↦ sidebar_width_default | some raw ↦ width_of jt (parse_int raw) ]

      cases : (o : Option String) → (sidebar_width_min ≤ read o) × (read o ≤ sidebar_width_max)
      cases none = (omega arith, omega arith)
      cases (some raw) = in_range (parse_int raw)

  module _ (coll : Collation) where
    -- A start puts the invariant of the actions in place, on every localStorage of which the
    -- aggregated contexts that are taken are sorted and without repetitions and the groups are clean
    -- with distinct ids: what else is stored does not matter, a text that is no JSON included.
    pub boot-IsInvariant :
        (dark : Bool) (now : ℕ) (s : Storage) (classes : List String)
        → IsCanonical coll (several (read_aggregated_contexts jt s))
        → AreGroups (read_context_groups jt s)
        → IsInvariant coll (boot jt dark now s classes)
    unfolding boot
    boot-IsInvariant dark now s classes canonical groups =
        let tags = read_context_tags-AreTags s in
        (
          record {
            exclusive = exclusive-boot (read_aggregated_contexts jt s) (read_default_context jt s);
            enough = several_idem (read_aggregated_contexts jt s);
            canonical = canonical;
            remembered = inr refl;
          },
          record {
            bounded = tags.bounded;
            keyed = tags.keyed;
            grouped = groups;
            wide = width-range s;
          },
        )
