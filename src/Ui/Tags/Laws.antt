-- ===== src/Ui/Tags/Laws.antt =====
-- The tags of the contexts after each action of store/ui.ts.
use klustr.Prelude.{
  ◌≤◌, String, ◌≡◌, refl, ◌∙◌, true, false, none, List, [], ◌∷◌, ◌++◌, ◌==◌, arith, eq_iff, eq_refl,
  if◌then◌else◌, leb, Bool-cases, inl, inr, length, length-append, includes, without, Distinct,
}
use klustr.Dict
use klustr.Dict.{
  Dict, get-put, get-remove, has-eq-is_some, keys, get_of_absent, Distinct-keys-put,
  Distinct-keys-remove,
}
use klustr.Ui.Types.{ContextTag, CustomTagDef, max_tags_per_context}
use klustr.Ui.State.{World}
use klustr.Ui.Tags.{
  TagMap, tags_of, assign_tags, toggle_context_tag, clear_context_tags, add_custom_tag,
  assign_if_any, without_tag, remove_custom_tag,
}

abbrev pub tags : World → String → List ContextTag
tags w name = tags_of w.ui.context_tags name

-- The tags of a context after its tag is toggled: a fourth one is not added.
abbrev pub toggled_tags : ContextTag → List ContextTag → List ContextTag
toggled_tags t current =
    if includes t current
    then without t current
    else if leb max_tags_per_context (length current)
    then current
    else current ++ t ∷ []

tags_of-assign :
    (m : TagMap) (name j : String) (list : List ContextTag)
    → tags_of (assign_tags m name list) j ≡ (if name == j then list else tags_of m j)
unfolding assign_tags
tags_of-assign m name j [] = ground (arith, get-remove m name j)
tags_of-assign m name j (t ∷ ts) = ground (arith, get-put m name j (t ∷ ts))

-- What toggling or clearing does to the tags of every context.
pub tags-actions :
    (name : String) (t : ContextTag) (w : World) (ctx : String)
    → (tags (toggle_context_tag name t w) ctx
        ≡ (if name == ctx then toggled_tags t (tags w ctx) else tags w ctx))
      × (tags (clear_context_tags name w) ctx ≡ (if name == ctx then [] else tags w ctx))
unfolding toggle_context_tag clear_context_tags
tags-actions name t w ctx = (
  ground (
    arith,
    eq_iff name ctx,
    tags_of-assign w.ui.context_tags name ctx (without t (tags w name)),
    tags_of-assign w.ui.context_tags name ctx (tags w name ++ t ∷ []),
  ),
  ground (
    arith,
    eq_iff name ctx,
    get-remove w.ui.context_tags name ctx,
    has-eq-is_some w.ui.context_tags name,
  ),
)

abbrev pub IsTagBounded : World → Type 0
IsTagBounded w = (ctx : String) → length (tags w ctx) ≤ max_tags_per_context

length-without : (t : String) (xs : List String) → length (without t xs) ≤ length xs
unfolding without
length-without t [] = omega arith
length-without t (x ∷ xs) = ground (arith, length-without t xs)

toggled_tags_bound :
    (t : ContextTag) (xs : List ContextTag)
    → length xs ≤ max_tags_per_context
    → length (toggled_tags t xs) ≤ max_tags_per_context
toggled_tags_bound t xs h = ground (arith, length-without t xs, length-append {0} xs (t ∷ []))

get-assign_if_any :
    (out : TagMap) (c j : String) (l : List ContextTag)
    → (c == j) ≡ false
    → Dict.get (assign_if_any out c l) j ≡ Dict.get out j
get-assign_if_any out c j [] h = refl
get-assign_if_any out c j (t ∷ ts) h = get-put out c j (t ∷ ts) ∙ rw h

tags_of-assign_if_any :
    (out : TagMap) (c : String) (l : List ContextTag)
    → Dict.get out c ≡ none
    → tags_of (assign_if_any out c l) c ≡ l
tags_of-assign_if_any out c [] h = rw h
tags_of-assign_if_any out c (t ∷ ts) h = rw (get-put, eq_refl c)

-- The map that the loop fills holds nothing yet for the contexts to come.
tags_of-without_tag :
    (id : String) (entries out : TagMap) (ctx : String)
    → Distinct (keys entries)
    → ((j : String) → includes j (keys entries) ≡ true → Dict.get out j ≡ none)
    → tags_of (without_tag id out entries) ctx
      ≡ (if includes ctx (keys entries) then without id (tags_of entries ctx) else tags_of out ctx)
unfolding without_tag keys includes Dict.get
tags_of-without_tag id [] out ctx d h = refl
tags_of-without_tag id ((c, list) ∷ entries) out ctx d h =
    let out' = assign_if_any out c (without id list) in
    let ih = tags_of-without_tag id entries out' ctx d.1 (λ j later.
      get-assign_if_any out c j (without id list) (ground (arith, eq_iff c j))
      ∙ h j (ground arith)) in
    elim (Bool-cases (c == ctx)) [
      | inl e ↦
          let same : c ≡ ctx = (eq_iff c ctx).0 e in
          ih
          ∙ rw (← same) (
              rw (d.0, eq_refl c)
                (tags_of-assign_if_any out c (without id list) (h c (rw (eq_refl c)))))
      | inr e ↦ ih ∙ rw e (ground (arith, get-assign_if_any out c ctx (without id list)))
    ]

listed_or_not :
    (id : String) (m : TagMap) (ctx : String)
    → (if includes ctx (keys m) then without id (tags_of m ctx) else tags_of [] ctx)
      ≡ without id (tags_of m ctx)
listed_or_not id m ctx = elim (Bool-cases (includes ctx (keys m))) [
  | inl listed ↦ rw listed
  | inr absent ↦ rw (absent, get_of_absent m ctx absent) (unfold without Dict.get in refl)
]

-- Removing a custom tag takes it off every context, keeps each context's other tags in their order,
-- and takes away its definition and no other. The keys of the stored map are distinct.
pub tags-remove_custom_tag :
    (id : String) (w : World)
    → Distinct (keys w.ui.context_tags)
    → ((ctx : String) → tags (remove_custom_tag id w) ctx ≡ without id (tags w ctx))
      × ((j : String)
          → Dict.get (remove_custom_tag id w).ui.custom_tags j
            ≡ (if id == j then none else Dict.get w.ui.custom_tags j))
unfolding remove_custom_tag
tags-remove_custom_tag id w d = (
  λ ctx.
      tags_of-without_tag id w.ui.context_tags [] ctx d (λ j h. unfold Dict.get in refl)
      ∙ listed_or_not id w.ui.context_tags ctx,
  λ j. get-remove w.ui.custom_tags id j,
)

-- Every action on tags keeps at most three tags on each context, where the keys of the stored map are
-- distinct.
pub actions-IsTagBounded :
    (w : World)
    → IsTagBounded w
    → Distinct (keys w.ui.context_tags)
    → ((name : String) (t : ContextTag) → IsTagBounded (toggle_context_tag name t w))
      × ((name : String) → IsTagBounded (clear_context_tags name w))
      × ((def : CustomTagDef) → IsTagBounded (add_custom_tag def w))
      × ((id : String) → IsTagBounded (remove_custom_tag id w))
unfolding add_custom_tag
actions-IsTagBounded w h d = (
  λ name t ctx.
      rw ((tags-actions name t w ctx).0) (ground (arith, h ctx, toggled_tags_bound t (tags w ctx))),
  λ name ctx. rw ((tags-actions name "" w ctx).1) (ground (arith, h ctx)),
  λ def ctx. h ctx,
  λ id ctx.
      rw ((tags-remove_custom_tag id w d).0 ctx)
        (omega (arith, length-without id (tags w ctx), h ctx)),
)

keys-assign :
    (m : TagMap) (name : String) (list : List ContextTag)
    → Distinct (keys m)
    → Distinct (keys (assign_tags m name list))
unfolding assign_tags
keys-assign m name [] d = Distinct-keys-remove m name d
keys-assign m name (t ∷ ts) d = Distinct-keys-put m name (t ∷ ts) d

keys-assign_if_any :
    (m : TagMap) (name : String) (list : List ContextTag)
    → Distinct (keys m)
    → Distinct (keys (assign_if_any m name list))
keys-assign_if_any m name [] d = d
keys-assign_if_any m name (t ∷ ts) d = Distinct-keys-put m name (t ∷ ts) d

keys-without_tag :
    (id : String) (entries out : TagMap)
    → Distinct (keys out)
    → Distinct (keys (without_tag id out entries))
unfolding without_tag
keys-without_tag id [] out d = d
keys-without_tag id ((c, list) ∷ entries) out d =
    keys-without_tag id entries (assign_if_any out c (without id list))
      (keys-assign_if_any out c (without id list) d)

-- The keys of the stored tags stay distinct.
pub actions-Distinct-keys :
    (w : World)
    → Distinct (keys w.ui.context_tags)
    → ((name : String) (t : ContextTag)
        → Distinct (keys (toggle_context_tag name t w).ui.context_tags))
      × ((name : String) → Distinct (keys (clear_context_tags name w).ui.context_tags))
      × ((id : String) → Distinct (keys (remove_custom_tag id w).ui.context_tags))
unfolding toggle_context_tag clear_context_tags remove_custom_tag
actions-Distinct-keys w d = (
  λ name t.
      let m = w.ui.context_tags in
      ground (
        arith,
        keys-assign m name (without t (tags_of m name)) d,
        keys-assign m name (tags_of m name ++ t ∷ []) d,
      ),
  λ name. ground (arith, Distinct-keys-remove w.ui.context_tags name d),
  λ id. keys-without_tag id w.ui.context_tags [] (unfold keys in tt),
)
