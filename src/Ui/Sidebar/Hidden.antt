-- ===== src/Ui/Sidebar/Hidden.antt =====
-- Hiding and showing sidebar items, context by context, and what is hidden in all active contexts.
use klustr.Prelude.{
  String, ◌≡◌, refl, ◌∙◌, ap, sym, Bool, true, false, ◌&&◌, Option, none, some, List, [], ◌∷◌, ◌++◌,
  ◌==◌, arith, eq_iff, eq_refl, if◌then◌else◌, or_else, Bool-cases, Option-cases, inl, inr,
  includes, without, keep, all, includes-append, includes-without,
}
use klustr.Dict
use klustr.Dict.{get-put, get-remove, has-eq-is_some}
use klustr.Ui.Views.{ResourceView, view_name}
use klustr.Ui.State.{World, effective_context_list}
use klustr.Ui.Sidebar.{
  HiddenItems, for_contexts, hide_in, show_in, clear_in, put_or_delete, if_changed, update_hidden,
  hide_sidebar_item, show_sidebar_item, clear_hidden_sidebar_items, hidden_in, hidden_in_all,
  effective_hidden_sidebar_items,
}

abbrev pub Items : Type 0
Items = Option (List String)

-- What a round does to the entry of its context: `f`, and nothing else; a second round does nothing.
record IsUpdate (f : Items → Items) (round : String → HiddenItems → Option HiddenItems)
    : Type 0 where
  skips : (c : String) (m : HiddenItems) → round c m ≡ none → f (Dict.get m c) ≡ Dict.get m c
  updates :
      (c j : String) (m m' : HiddenItems)
      → round c m ≡ some m'
      → Dict.get m' j ≡ (if c == j then f (Dict.get m c) else Dict.get m j)
  settles : (o : Items) → f (f o) ≡ f o

module _ (f : Items → Items) (round : String → HiddenItems → Option HiddenItems)
    (u : IsUpdate f round) where
  get-for_contexts :
      (cs : List String) (m : HiddenItems) (changed : Bool) (j : String)
      → Dict.get (for_contexts round cs m changed).0 j
        ≡ (if includes j cs then f (Dict.get m j) else Dict.get m j)
  unfolding for_contexts includes
  get-for_contexts [] m changed j = refl
  get-for_contexts (c ∷ cs) m changed j = elim (Option-cases (round c m)) [
    | inl e ↦
        rw (e, for_contexts)
          (get-for_contexts cs m changed j ∙ ground (arith, u.skips c m e, eq_iff c j))
    | inr (m', e) ↦
        rw (e, for_contexts)
          (get-for_contexts cs m' true j
            ∙ ground (arith, u.updates c j m m' e, eq_iff c j, u.settles (Dict.get m c)))
  ]

  -- The flag stays down only where the map is as it was.
  same-for_contexts :
      (cs : List String) (m : HiddenItems) (changed : Bool)
      → (for_contexts round cs m changed).1 ≡ false
      → (changed ≡ false) × ((for_contexts round cs m changed).0 ≡ m)
  unfolding for_contexts
  same-for_contexts [] m changed h = (h, refl)
  same-for_contexts (c ∷ cs) m changed h = elim (Option-cases (round c m)) [
    | inl e ↦ rw (e, for_contexts) (same-for_contexts cs m changed (rw (e, for_contexts) at h))
    | inr (m', e) ↦ absurd (cc ((same-for_contexts cs m' true (rw (e, for_contexts) at h)).0))
  ]

  get-if_changed :
      (r : HiddenItems × Bool) (w : World) (j : String)
      → (r.1 ≡ false → r.0 ≡ w.ui.hidden_sidebar_items_by_context)
      → Dict.get (if_changed r w).ui.hidden_sidebar_items_by_context j ≡ Dict.get r.0 j
  unfolding if_changed
  get-if_changed (m, true) w j h = refl
  get-if_changed (m, false) w j h = ap (λ (n : HiddenItems). Dict.get n j) (sym (h refl))

  get-update_hidden :
      (cs : List String) (w : World) (j : String)
      → Dict.get (update_hidden round cs w).ui.hidden_sidebar_items_by_context j ≡ (
          if includes j cs
          then f (Dict.get w.ui.hidden_sidebar_items_by_context j)
          else Dict.get w.ui.hidden_sidebar_items_by_context j)
  unfolding update_hidden
  get-update_hidden [] w j = unfold includes in refl
  get-update_hidden (c ∷ cs) w j =
      let m = w.ui.hidden_sidebar_items_by_context in
      get-if_changed (for_contexts round (c ∷ cs) m false) w j
        (λ h. (same-for_contexts (c ∷ cs) m false h).1)
      ∙ get-for_contexts (c ∷ cs) m false j

-- The entry of a context once an item is hidden, shown, or all are shown.
abbrev pub hidden_also : String → Items → Items
hidden_also view o = if includes view (or_else o []) then o else some (or_else o [] ++ view ∷ [])

abbrev pub some_if_any : List String → Items
some_if_any [] = none
some_if_any (v ∷ vs) = some (v ∷ vs)

abbrev pub shown_again : String → Items → Items
shown_again view none = none
shown_again view (some list) =
    if includes view list then some_if_any (without view list) else some list

abbrev pub all_shown : Items → Items
all_shown o = none

hide_in-IsUpdate : (view : String) → IsUpdate (hidden_also view) (hide_in view)
unfolding hide_in
hide_in-IsUpdate view = record {
  skips = λ c m h. ground arith;
  updates = λ c j m m' h.
      ground (arith, get-put m c j (or_else (Dict.get m c) [] ++ view ∷ []), eq_iff c j);
  settles = λ o.
      ground (arith, includes-append view (or_else o []) (view ∷ []), eq_refl view, unfolded view);
}
  where
    unfolded : (v : String) → includes v (v ∷ []) ≡ true
    unfolded v = unfold includes in rw (eq_refl v)

get-put_or_delete :
    (m : HiddenItems) (c j : String) (list : List String)
    → Dict.get (put_or_delete m c list) j ≡ (if c == j then some_if_any list else Dict.get m j)
get-put_or_delete m c j [] = get-remove m c j
get-put_or_delete m c j (v ∷ vs) = get-put m c j (v ∷ vs)

shown_again_of_absent :
    (view : String) (list : List String)
    → includes view list ≡ false
    → shown_again view (some_if_any list) ≡ some_if_any list
shown_again_of_absent view [] h = refl
shown_again_of_absent view (v ∷ vs) h = rw h

shown_again_idem :
    (view : String) (o : Items) → shown_again view (shown_again view o) ≡ shown_again view o
shown_again_idem view none = refl
shown_again_idem view (some list) = elim (Bool-cases (includes view list)) [
  | inl there ↦ rw there (
      shown_again_of_absent view (without view list)
        (includes-without view view list ∙ ground (arith, eq_refl view)))
  | inr absent ↦ rw absent (rw absent)
]

show_in-updates :
    (view c j : String) (m m' : HiddenItems)
    → show_in view c m ≡ some m'
    → Dict.get m' j ≡ (if c == j then shown_again view (Dict.get m c) else Dict.get m j)
unfolding show_in
show_in-updates view c j m m' h = elim (Option-cases (Dict.get m c)) [
  | inl e ↦ ground arith
  | inr (list, e) ↦ ground (arith, get-put_or_delete m c j (without view list))
]

show_in-IsUpdate : (view : String) → IsUpdate (shown_again view) (show_in view)
show_in-IsUpdate view = record {
  skips = λ c m h. unfold show_in in ground arith;
  updates = λ c j m m' h. show_in-updates view c j m m' h;
  settles = shown_again_idem view;
}

clear_in-IsUpdate : IsUpdate all_shown clear_in
unfolding clear_in
clear_in-IsUpdate = record {
  skips = λ c m h. ground (arith, has-eq-is_some m c);
  updates = λ c j m m' h. ground (arith, get-remove m c j);
  settles = λ o. refl;
}

abbrev pub entry : World → String → Items
entry w ctx = Dict.get w.ui.hidden_sidebar_items_by_context ctx

abbrev pub is_active : World → String → Bool
is_active w ctx = includes ctx (effective_context_list w.ui)

-- What each of the three actions does to the entry of every context: in an active context the item
-- is appended if it was not hidden there, is taken out (with the entry, if nothing is left in it),
-- or the entry is deleted; the entry of any other context stays as it was.
pub entry-sidebar_actions :
    (view : ResourceView) (w : World) (ctx : String)
    → (entry (hide_sidebar_item view w) ctx
        ≡ (if is_active w ctx then hidden_also (view_name view) (entry w ctx) else entry w ctx))
      × (entry (show_sidebar_item view w) ctx
          ≡ (if is_active w ctx then shown_again (view_name view) (entry w ctx) else entry w ctx))
      × (entry (clear_hidden_sidebar_items w) ctx ≡ (if is_active w ctx then none else entry w ctx))
unfolding hide_sidebar_item show_sidebar_item clear_hidden_sidebar_items
entry-sidebar_actions view w ctx =
    let v = view_name view in
    let cs = effective_context_list w.ui in
    (
      get-update_hidden (hidden_also v) (hide_in v) (hide_in-IsUpdate v) cs w ctx,
      get-update_hidden (shown_again v) (show_in v) (show_in-IsUpdate v) cs w ctx,
      get-update_hidden all_shown clear_in clear_in-IsUpdate cs w ctx,
    )

includes-keep :
    (v : String) (p : String → Bool) (xs : List String)
    → includes v (keep p xs) ≡ (includes v xs && p v)
unfolding includes
includes-keep v p [] = refl
includes-keep v p (x ∷ xs) = elim (Bool-cases (x == v)) [
  | inl e ↦
      let same : x ≡ v = (eq_iff x v).0 e in
      rw same (ground (arith, includes-keep v p xs, eq_refl v))
  | inr e ↦ ground (arith, includes-keep v p xs)
]

-- False with no context, else the given answer.
abbrev pub some_context : List String → Bool → Bool
some_context [] b = false
some_context (c ∷ cs) b = b

at_contexts :
    (v : String) (map : HiddenItems) (cs : List String)
    → includes v (hidden_in_all map cs)
      ≡ some_context cs (all (λ c. includes v (hidden_in map c)) cs)
unfolding hidden_in_all
at_contexts v map [] = unfold includes in refl
at_contexts v map (c ∷ []) = ground arith
at_contexts v map (c ∷ d ∷ cs) =
    includes-keep v (λ u. all (λ e. includes u (hidden_in map e)) (d ∷ cs)) (hidden_in map c)

-- With at least one active context, an item is hidden on screen exactly if it is hidden in every
-- active context; with none, nothing is hidden.
pub includes-effective_hidden :
    (v : String) (w : World)
    → includes v (effective_hidden_sidebar_items w.ui)
      ≡ some_context (effective_context_list w.ui) (
          all
            (λ c. includes v (hidden_in w.ui.hidden_sidebar_items_by_context c))
            (effective_context_list w.ui))
unfolding effective_hidden_sidebar_items
includes-effective_hidden v w =
    at_contexts v w.ui.hidden_sidebar_items_by_context (effective_context_list w.ui)
