-- ===== src/Ui/Contexts/Selection.antt =====
-- Which contexts are active after each action that selects contexts.
use klustr.Prelude.{
  ℕ, String, ◌≡◌, ◌≢◌, refl, ◌∙◌, ap, sym, true, false, not, ◌&&◌, Option, none, some, List, [],
  ◌∷◌, ◌++◌, ◌==◌, arith, if◌then◌else◌, eq_iff, eq_refl, Bool-cases, inl, inr, includes, same_list,
  same_list→eq, includes-append, includes-without,
}
use klustr.Collation.{Collation, IsAntisymm, dedupe_sorted}
use klustr.Collation.Order.{includes-dedupe_sorted}
use klustr.Collation.Canonical.{
  IsCanonical, dedupe_sorted-IsCanonical, dedupe_sorted_of_IsCanonical, IsCanonical-without,
  IsCanonical-unique,
}
use klustr.Ui.State.{World, active_contexts, effective_context_list, single_context}
use klustr.Ui.Contexts.{
  several, only_one, same_group, normalize_contexts, with_session, session_if_any,
  set_selected_context, set_aggregated_contexts, toggled, toggle_aggregated_context,
  clear_aggregated_contexts, clear_if_any,
}

-- The active contexts are held by one of the two fields.
pub active-several :
    (cs : List String) → includes "" cs ≡ false → active_contexts (several cs) (only_one cs) ≡ cs
unfolding active_contexts several only_one includes
active-several [] h = refl
active-several (c ∷ []) h = ground arith
active-several (c ∷ d ∷ cs) h = refl

abbrev pub active : World → List String
active w = effective_context_list w.ui

single-not-empty : (name : Option String) → includes "" (single_context name) ≡ false
unfolding single_context includes
single-not-empty none = refl
single-not-empty (some name) = ground arith

module _ (coll : Collation) where
  pub single-IsCanonical : (name : Option String) → IsCanonical coll (single_context name)
  unfolding single_context includes
  single-IsCanonical none = (tt, tt)
  single-IsCanonical (some name) = elim (Bool-cases (name == "")) [
    | inl e ↦ rw e (tt, tt)
    | inr e ↦ rw e ((tt, tt), (refl, tt))
  ]

  pub active-normalize :
      (next : List String) (w : World)
      → includes "" next ≡ false
      → active (normalize_contexts coll next w) ≡ dedupe_sorted coll next
  unfolding normalize_contexts effective_context_list
  active-normalize next w h =
      active-several (dedupe_sorted coll next) (includes-dedupe_sorted coll "" next ∙ h)

  pub active-session :
      (next : List String) (g : Option String) (now : ℕ) (w : World)
      → active (session_if_any next g now w) ≡ active w
  unfolding with_session effective_context_list
  active-session [] g now w = refl
  active-session (c ∷ cs) g now w = refl

  -- Selecting one context makes it the only active one, and selecting none, or the empty name,
  -- leaves no context active.
  pub active-set_selected_context :
      (now : ℕ) (name : Option String) (w : World)
      → active (set_selected_context coll now name w) ≡ single_context name
  unfolding set_selected_context
  active-set_selected_context now name w =
      elim (Bool-cases (same_list (single_context name) (active w))) [
        | inl same ↦ rw same (sym (same_list→eq (single_context name) (active w) same))
        | inr differ ↦ rw differ (
            active-session (single_context name) none now
              (normalize_contexts coll (single_context name) w)
            ∙ active-normalize (single_context name) w (single-not-empty name)
            ∙ dedupe_sorted_of_IsCanonical coll (single_context name) (single-IsCanonical name))
      ]

  group-session :
      (next : List String) (g : Option String) (now : ℕ) (w : World)
      → (session_if_any next g now w).ui.active_group_id ≡ w.ui.active_group_id
  unfolding with_session
  group-session [] g now w = refl
  group-session (c ∷ cs) g now w = refl

  same_group→eq : (g h : Option String) → same_group g h ≡ true → g ≡ h
  same_group→eq none none e = refl
  same_group→eq (some a) (some b) e = ap some ((eq_iff a b).0 e)
  same_group→eq none (some b) e = cc
  same_group→eq (some a) none e = cc

  -- Selecting several contexts, none of them the empty name, makes active exactly their sorted list
  -- without repetitions, and makes the given group, or no group, the active one.
  pub active-set_aggregated_contexts :
      (now : ℕ) (names : List String) (group_id : Option String) (w : World)
      → includes "" names ≡ false
      → (active (set_aggregated_contexts coll now names group_id w) ≡ dedupe_sorted coll names)
        × ((set_aggregated_contexts coll now names group_id w).ui.active_group_id ≡ group_id)
  unfolding set_aggregated_contexts
  active-set_aggregated_contexts now names g w h =
      let next = dedupe_sorted coll names in
      elim (Bool-cases (same_list next (active w) && same_group w.ui.active_group_id g)) [
        | inl same ↦ rw same (
          sym (same_list→eq next (active w) (ground arith)),
          same_group→eq w.ui.active_group_id g (ground arith),
        )
        | inr differ ↦ rw differ (
          active-session next g now _
              ∙ active-normalize next w (includes-dedupe_sorted coll "" names ∙ h)
              ∙ dedupe_sorted_of_IsCanonical coll next (dedupe_sorted-IsCanonical coll names),
          group-session next g now _,
        )
      ]

  toggled-IsCanonical :
      (name : String) (cs : List String)
      → IsCanonical coll cs
      → IsCanonical coll (toggled coll name cs)
  unfolding toggled
  toggled-IsCanonical name cs k = elim (Bool-cases (includes name cs)) [
    | inl there ↦ rw there (IsCanonical-without coll name cs k)
    | inr absent ↦ rw absent (dedupe_sorted-IsCanonical coll (cs ++ name ∷ []))
  ]

  pub includes-toggled :
      (a name : String) (cs : List String)
      → includes a (toggled coll name cs)
        ≡ (if name == a then not (includes name cs) else includes a cs)
  unfolding toggled includes
  includes-toggled a name cs = ground (
    arith,
    includes-without a name cs,
    includes-dedupe_sorted coll a (cs ++ name ∷ []),
    includes-append a cs (name ∷ []),
    eq_iff name a,
  )

  active-toggle_lem :
      (name : String) (w : World)
      → name ≢ ""
      → includes "" (active w) ≡ false
      → IsCanonical coll (active w)
      → active (toggle_aggregated_context coll name w) ≡ toggled coll name (active w)
  unfolding toggle_aggregated_context
  active-toggle_lem name w named clean k =
      let next = toggled coll name (active w) in
      elim (Bool-cases (same_list next (active w))) [
        | inl same ↦ rw same (sym (same_list→eq next (active w) same))
        | inr differ ↦ rw differ (
            active-normalize next w
              (includes-toggled "" name (active w) ∙ ground (arith, eq_iff name ""))
            ∙ dedupe_sorted_of_IsCanonical coll next (toggled-IsCanonical name (active w) k))
      ]

  -- Toggling a context flips whether it is active and no other context, and keeps the active list
  -- sorted and without repetitions. The name is not empty, and the list was so before, without the
  -- empty name.
  pub active-toggle_aggregated_context :
      (name : String) (w : World)
      → name ≢ ""
      → includes "" (active w) ≡ false
      → IsCanonical coll (active w)
      → ((a : String)
          → includes a (active (toggle_aggregated_context coll name w))
            ≡ (if name == a then not (includes name (active w)) else includes a (active w)))
        × IsCanonical coll (active (toggle_aggregated_context coll name w))
  active-toggle_aggregated_context name w named clean k =
      rw (active-toggle_lem name w named clean k)
        (λ a. includes-toggled a name (active w), toggled-IsCanonical name (active w) k)

  -- Toggling a context twice gives back the active list, where no two names collate as equal. The
  -- name is not empty, and the list was sorted and without repetitions or the empty name.
  pub active-toggle_twice :
      IsAntisymm coll
      → (name : String) (w : World) → name ≢ ""
      → includes "" (active w) ≡ false
      → IsCanonical coll (active w)
      → active (toggle_aggregated_context coll name (toggle_aggregated_context coll name w))
        ≡ active w
  active-toggle_twice antisymm name w named clean k =
      let (members, k') = active-toggle_aggregated_context name w named clean k in
      let w' = toggle_aggregated_context coll name w in
      let (members', k'') =
        active-toggle_aggregated_context name w' named (members "" ∙ ground (arith, eq_iff name ""))
          k' in
      IsCanonical-unique coll antisymm _ (active w) k'' k
        (λ a. members' a ∙ ground (arith, members a, members name, eq_iff name a, eq_refl name))

  active-clear_if_any :
      (cs : List String) (w : World) → active w ≡ cs → active (clear_if_any coll cs w) ≡ []
  active-clear_if_any [] w e = e
  active-clear_if_any (c ∷ cs) w e =
      active-normalize [] w (unfold includes in refl) ∙ (unfold dedupe_sorted in refl)

  -- Clearing leaves no context active.
  pub active-clear_aggregated_contexts :
      (w : World) → active (clear_aggregated_contexts coll w) ≡ []
  unfolding clear_aggregated_contexts
  active-clear_aggregated_contexts w = active-clear_if_any (active w) w refl
