-- ===== src/Ui/Groups/Laws.antt =====
-- Lookup of context groups, and what stored groups satisfy, from store/ui.ts.
use klustr.Prelude.{
  ◌≤◌, String, ◌≡◌, ◌≢◌, refl, ◌∙◌, Bool, true, false, not, ◌&&◌, ◌||◌, Option, none, some, List,
  [], ◌∷◌, ◌==◌, arith, eq_iff, eq_refl, if◌then◌else◌, Bool-cases, Option-cases, inl, inr, length,
  includes, without, dedupe, Distinct, All, includes-dedupe, includes-without, Distinct-dedupe,
}
use klustr.Ui.Types.{ContextGroup}
use klustr.Ui.Persistence.{is_valid_group_color}
use klustr.Ui.State.{World}
use klustr.Ui.Groups.{
  cleaned, find_index, upserted, is_empty, upsert_context_group, without_group,
  remove_context_group,
}

-- The group with an id, and the ids of a list of groups.
abbrev pub find : String → List ContextGroup → Option ContextGroup
find id [] = none
find id (g ∷ gs) = if g.id == id then some g else find id gs

abbrev pub ids : List ContextGroup → List String
ids [] = []
ids (g ∷ gs) = g.id ∷ ids gs

abbrev pub groups : World → List ContextGroup
groups w = w.ui.context_groups

upserted-cons :
    (new g : ContextGroup) (gs : List ContextGroup)
    → upserted new (g ∷ gs) ≡ (if g.id == new.id then new ∷ gs else g ∷ upserted new gs)
unfolding upserted
upserted-cons new g gs = elim (Option-cases (find_index new.id gs)) [
  | inl e ↦ ground arith
  | inr (i, e) ↦ ground arith
]

find-upserted :
    (new : ContextGroup) (gs : List ContextGroup) (id : String)
    → find id (upserted new gs) ≡ (if new.id == id then some new else find id gs)
find-upserted new [] id = unfold upserted in refl
find-upserted new (g ∷ gs) id =
    rw (upserted-cons new g gs) (
      ground (arith, find-upserted new gs id, eq_iff g.id new.id, eq_iff new.id id, eq_iff g.id id))

includes-ids-upserted :
    (new : ContextGroup) (gs : List ContextGroup) (id : String)
    → includes id (ids (upserted new gs)) ≡ (new.id == id || includes id (ids gs))
unfolding includes
includes-ids-upserted new [] id = unfold upserted in refl
includes-ids-upserted new (g ∷ gs) id =
    rw (upserted-cons new g gs)
      (ground (arith, includes-ids-upserted new gs id, eq_iff g.id new.id))

Distinct-ids-upserted :
    (new : ContextGroup) (gs : List ContextGroup)
    → Distinct (ids gs)
    → Distinct (ids (upserted new gs))
Distinct-ids-upserted new [] d = unfold upserted includes in (refl, tt)
Distinct-ids-upserted new (g ∷ gs) d = rw (upserted-cons new g gs) (
    ground (
      arith,
      Distinct-ids-upserted new gs,
      includes-ids-upserted new gs g.id,
      eq_iff g.id new.id,
      eq_iff new.id g.id,
    ))

abbrev pub is_accepted : ContextGroup → Bool
is_accepted g = not ((cleaned g).name == "") && not (is_empty (cleaned g).contexts)

upsert-eq :
    (g : ContextGroup) (w : World)
    → groups (upsert_context_group g w)
      ≡ (if is_accepted g then upserted (cleaned g) (groups w) else groups w)
unfolding upsert_context_group
upsert-eq g w = ground arith

id-cleaned : (g : ContextGroup) → (cleaned g).id ≡ g.id
unfolding cleaned
id-cleaned g = refl

find-without_group :
    (id j : String) (gs : List ContextGroup)
    → find j (without_group id gs) ≡ (if id == j then none else find j gs)
unfolding without_group
find-without_group id j [] = ground arith
find-without_group id j (g ∷ gs) =
    ground (arith, find-without_group id j gs, eq_iff g.id id, eq_iff g.id j, eq_iff id j)

length-without_group :
    (id : String) (gs : List ContextGroup) → length (without_group id gs) ≤ length gs
unfolding without_group
length-without_group id [] = omega arith
length-without_group id (g ∷ gs) = ground (arith, length-without_group id gs)

without_group_of_length :
    (id : String) (gs : List ContextGroup)
    → length (without_group id gs) ≡ length gs
    → without_group id gs ≡ gs
unfolding without_group
without_group_of_length id [] h = refl
without_group_of_length id (g ∷ gs) h =
    ground (arith, without_group_of_length id gs, length-without_group id gs)

groups-remove :
    (id : String) (w : World) → groups (remove_context_group id w) ≡ without_group id (groups w)
unfolding remove_context_group
groups-remove id w = ground (arith, without_group_of_length id (groups w))

-- Looking up a group by its id after a group is stored or removed: an accepted group is found,
-- cleaned, under its id, a removed one is not found, and every other id gives what it gave before. A
-- group that is left without a name or without contexts changes nothing.
pub find-group_actions :
    (g : ContextGroup) (id j : String) (w : World)
    → (find j (groups (upsert_context_group g w))
        ≡ (if is_accepted g && g.id == j then some (cleaned g) else find j (groups w)))
      × (find j (groups (remove_context_group id w))
          ≡ (if id == j then none else find j (groups w)))
find-group_actions g id j w = (
  rw (upsert-eq g w) (ground (arith, find-upserted (cleaned g) (groups w) j, id-cleaned g)),
  rw (groups-remove id w) (find-without_group id j (groups w)),
)

ids-without_group :
    (id j : String) (gs : List ContextGroup)
    → includes j (ids gs) ≡ false
    → includes j (ids (without_group id gs)) ≡ false
unfolding without_group includes
ids-without_group id j [] h = h
ids-without_group id j (g ∷ gs) h = ground (arith, ids-without_group id j gs)

Distinct-without_group :
    (id : String) (gs : List ContextGroup)
    → Distinct (ids gs)
    → Distinct (ids (without_group id gs))
unfolding without_group
Distinct-without_group id [] d = tt
Distinct-without_group id (g ∷ gs) d =
    ground (arith, Distinct-without_group id gs, ids-without_group id g.id gs)

-- A stored group has a name, has contexts without empty names or repetitions, and a known color.
abbrev pub IsClean : ContextGroup → Type 0
IsClean g =
    (g.name ≢ "")
    × (is_empty g.contexts ≡ false)
    × (includes "" g.contexts ≡ false)
    × Distinct g.contexts
    × (is_valid_group_color g.color ≡ true)

pub record AreGroups (gs : List ContextGroup) : Type 0 where
  pub distinct : Distinct (ids gs)
  pub clean : All IsClean gs

includes_empty-cleaned : (cs : List String) → includes "" (dedupe (without "" cs)) ≡ false
includes_empty-cleaned cs =
    includes-dedupe "" (without "" cs) ∙ includes-without "" "" cs ∙ ground (arith, eq_refl "")

cleaned-color : (g : ContextGroup) → is_valid_group_color (cleaned g).color ≡ true
unfolding cleaned
cleaned-color g = elim (Bool-cases (is_valid_group_color g.color)) [
  | inl known ↦ rw known known
  | inr unknown ↦ rw unknown (unfold is_valid_group_color includes in refl)
]

pub cleaned-IsClean : (g : ContextGroup) → is_accepted g ≡ true → IsClean (cleaned g)
cleaned-IsClean g h = (
  ground (arith, eq_iff (cleaned g).name ""),
  ground arith,
  unfold cleaned in includes_empty-cleaned g.contexts,
  unfold cleaned in Distinct-dedupe (without "" g.contexts),
  cleaned-color g,
)

module _ (P : ContextGroup → Type 0) where
  if-All :
      (b : Bool) (xs ys : List ContextGroup) → All P xs → All P ys → All P (if b then xs else ys)
  if-All true xs ys hx hy = hx
  if-All false xs ys hx hy = hy

  pub All-upserted :
      (new : ContextGroup) (gs : List ContextGroup) → P new → All P gs → All P (upserted new gs)
  All-upserted new [] c k = unfold upserted in (c, tt)
  All-upserted new (g ∷ gs) c k = rw (upserted-cons new g gs) (
      if-All (g.id == new.id) (new ∷ gs) (g ∷ upserted new gs) (c, k.1)
        (k.0, All-upserted new gs c k.1))

  pub All-without_group :
      (id : String) (gs : List ContextGroup) → All P gs → All P (without_group id gs)
  unfolding without_group
  All-without_group id [] k = tt
  All-without_group id (g ∷ gs) (c, k) =
      elim (g.id == id)
        as (λ b. All P (elim b [ true ↦ without_group id gs | false ↦ g ∷ without_group id gs ])) [
          | true ↦ All-without_group id gs k
          | false ↦ (c, All-without_group id gs k)
        ]

-- Storing and removing groups keeps the ids distinct and every group clean.
pub group_actions-AreGroups :
    (w : World)
    → AreGroups (groups w)
    → ((g : ContextGroup) → AreGroups (groups (upsert_context_group g w)))
      × ((id : String) → AreGroups (groups (remove_context_group id w)))
group_actions-AreGroups w k = (
  λ g. rw (upsert-eq g w) (upserted-AreGroups g),
  λ id. rw (groups-remove id w) (record {
    distinct = Distinct-without_group id (groups w) k.distinct;
    clean = All-without_group IsClean id (groups w) k.clean;
  }),
)
  where
    upserted-AreGroups :
        (g : ContextGroup)
        → AreGroups (if is_accepted g then upserted (cleaned g) (groups w) else groups w)
    upserted-AreGroups g = elim (Bool-cases (is_accepted g)) [
      | inl kept ↦ rw kept (record {
        distinct = Distinct-ids-upserted (cleaned g) (groups w) k.distinct;
        clean = All-upserted IsClean (cleaned g) (groups w) (cleaned-IsClean g kept) k.clean;
      })
      | inr refused ↦ rw refused k
    ]
