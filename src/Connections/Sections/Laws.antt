-- ===== src/Connections/Sections/Laws.antt =====
-- features/contexts/ConnectionsScreen.tsx: no context is lost by the sections, nor shown twice.
use klustr.Prelude.{
  String, ◌≡◌, ◌≢◌, length, refl, ap, ◌∙◌, Bool, true, ◌&&◌, ◌||◌, List, [], ◌∷◌, ◌++◌, arith, ◌==◌,
  eq_iff, eq_refl, Bool-cases, inl, inr, keep, any, includes, includes-append, includes-keep,
  Distinct-keep, Distinct-append, Distinct, All,
}
use klustr.Collation.{Collation, sort}
use klustr.Collation.Order.{Distinct-sort, includes-sort}
use klustr.Dict
use klustr.Dict.{Dict, get-put, includes-keys-put, Distinct-keys-put}
use klustr.Ui.Types.{CustomTagDef}
use klustr.Ui.Tags.{TagMap}
use klustr.ContextTags.{built_in_tag_order}
use klustr.Connections.Defs.{ContextInfo}
use klustr.Connections.Sections.{
  untagged_key, GroupedSection, primary, items_at, by_key_of, is_custom, section_order,
  with_section, sections_in, sections, ordered_visible,
}
use klustr.Connections.Sections.Spread.{
  count, tagged, items_at-by_key_of, includes-keys-by_key_of, Distinct-keys-by_key_of,
  ordered_visible-sections_in, count-spread_of_Distinct,
}

module _ (units : Collation) where
  abbrev customs : Dict (List ContextInfo) → List String
  customs m = sort units (keep is_custom (Dict.keys m))

  includes-customs :
      (m : Dict (List ContextInfo)) (key : String)
      → includes key (customs m) ≡ (is_custom key && includes key (Dict.keys m))
  includes-customs m key =
      includes-sort units key (keep is_custom (Dict.keys m))
      ∙ includes-keep key is_custom (Dict.keys m)

  includes-rest :
      (m : Dict (List ContextInfo)) (key : String)
      → includes key (customs m ++ untagged_key ∷ [])
        ≡ ((is_custom key && includes key (Dict.keys m)) || untagged_key == key)
  includes-rest m key =
      includes-append key (customs m) (untagged_key ∷ [])
      ∙ rw (includes-customs m key) (unfold includes in ground arith)

  Distinct-section_order :
      (m : Dict (List ContextInfo)) → Distinct (Dict.keys m) → Distinct (section_order units m)
  unfolding section_order includes
  Distinct-section_order m d =
      Distinct-append built_in_tag_order (customs m ++ untagged_key ∷ []) (refl, (refl, (refl, tt)))
        (Distinct-append (customs m) (untagged_key ∷ [])
          (Distinct-sort units _ (Distinct-keep is_custom (Dict.keys m) d)) (refl, tt)
          (λ y e.
            ground (arith, includes-customs m y, eq_iff untagged_key y, eq_iff y untagged_key)))
        (λ y e. elim (Bool-cases (untagged_key == y)) [
          | inl same ↦ rw (← (eq_iff untagged_key y).0 same) refl
          | inr other ↦ ground (arith, includes-rest m y)
        ])

  section_order_covers :
      (context_tags : TagMap) (m : Dict (List ContextInfo)) (cs : List ContextInfo)
      → ((key : String)
          → any (λ c. primary context_tags c == key) cs ≡ true
          → includes key (Dict.keys m) ≡ true)
      → All (λ c. includes (primary context_tags c) (section_order units m) ≡ true) cs
  unfolding section_order
  section_order_covers context_tags m [] covers = tt
  section_order_covers context_tags m (c ∷ cs) covers =
      let key = primary context_tags c in
      (
        ground (
          arith,
          covers key,
          eq_refl key,
          eq_iff untagged_key key,
          eq_iff key untagged_key,
          includes-append key built_in_tag_order (customs m ++ untagged_key ∷ []),
          includes-rest m key,
        ),
        section_order_covers context_tags m cs (λ k h. covers k (ground arith)),
      )

  -- The sections together show every context of the list, each as often as the list has it.
  pub count-ordered_visible-sections :
      (filtered : List ContextInfo) (context_tags : TagMap) (custom_tags : Dict CustomTagDef)
      (P : ContextInfo → Bool)
      → count P (ordered_visible (sections units filtered context_tags custom_tags))
        ≡ count P filtered
  unfolding sections Dict.keys includes
  count-ordered_visible-sections filtered context_tags custom_tags P =
      let m = by_key_of context_tags filtered [] in
      ap (count P)
        (ordered_visible-sections_in context_tags custom_tags filtered (section_order units m))
      ∙ count-spread_of_Distinct context_tags P (section_order units m) filtered
          (Distinct-section_order m (Distinct-keys-by_key_of context_tags filtered [] tt))
          (section_order_covers context_tags m filtered
            (λ key h. includes-keys-by_key_of context_tags filtered [] key ∙ h))

-- What a section holds: the contexts with its tag in the order of the list, one at least.
pub record IsSectionOf (context_tags : TagMap) (filtered : List ContextInfo) (s : GroupedSection)
    : Type 0 where
  pub holds : s.items ≡ tagged context_tags s.id filtered
  pub some_item : length s.items ≢ 0

sections_in-IsSectionOf :
    (context_tags : TagMap) (custom_tags : Dict CustomTagDef) (filtered : List ContextInfo)
    (order : List String)
    → All
        (IsSectionOf context_tags filtered)
        (sections_in custom_tags (by_key_of context_tags filtered []) order)
unfolding sections_in Dict.get
sections_in-IsSectionOf context_tags custom_tags filtered [] = tt
sections_in-IsSectionOf context_tags custom_tags filtered (key ∷ order) =
    go (items_at (by_key_of context_tags filtered []) key)
      (items_at-by_key_of context_tags filtered [] key) _
      (sections_in-IsSectionOf context_tags custom_tags filtered order)
  where
    go :
        (items : List ContextInfo) (e : items ≡ tagged context_tags key filtered)
        (rest : List GroupedSection) (h : All (IsSectionOf context_tags filtered) rest)
        → All (IsSectionOf context_tags filtered) (with_section custom_tags key items rest)
    go [] e rest h = h
    go (c ∷ cs) e rest h = (record { holds = e; some_item = λ z. absurd (omega arith) }, h)

-- Each section shows exactly the contexts whose first tag is its tag, in their order, and is not empty.
pub sections-IsSectionOf :
    (units : Collation) (filtered : List ContextInfo) (context_tags : TagMap)
    (custom_tags : Dict CustomTagDef)
    → All (IsSectionOf context_tags filtered) (sections units filtered context_tags custom_tags)
unfolding sections
sections-IsSectionOf units filtered context_tags custom_tags =
    sections_in-IsSectionOf context_tags custom_tags filtered
      (section_order units (by_key_of context_tags filtered []))
