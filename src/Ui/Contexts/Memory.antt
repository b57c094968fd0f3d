-- ===== src/Ui/Contexts/Memory.antt =====
-- The namespace selections that store/ui.ts remembers.
use klustr.Prelude.{
  ℕ, String, ◌≡◌, ◌≢◌, refl, ◌∙◌, ap, sym, false, not, ◌&&◌, Option, none, some, List, [], ◌∷◌,
  ◌==◌, arith, if◌then◌else◌, eq_iff, eq_refl, Bool-cases, inl, inr, same_list, or_else,
}
use klustr.Dict
use klustr.Dict.{Dict, get-put, get-remove}
use klustr.Collation.{Collation, dedupe_sorted}
use klustr.Ui.State.{World, effective_context_list, single_context}
use klustr.Ui.Contexts.{
  namespace_key, saved_namespaces, normalize_contexts, with_session, session_if_any,
  set_selected_context, save_namespaces, apply_namespace_selection, set_selected_namespaces,
}
use klustr.Ui.Contexts.Selection.{active, active-session, active-set_selected_context}

-- The filter that the state remembers for a set of contexts.
abbrev pub remembered : World → List String → List String
remembered w contexts = saved_namespaces w.ui.namespaces_by_context contexts

abbrev pub shown : World → List String
shown w = w.ui.selected_namespaces

pub or_else-save :
    (map : Dict (List String)) (key : String) (next : List String)
    → or_else (Dict.get (save_namespaces map key next) key) [] ≡ next
unfolding save_namespaces
or_else-save map key [] = rw get-remove (rw (eq_refl key))
or_else-save map key (n ∷ ns) = rw get-put (rw (eq_refl key))

get-save_ne :
    (map : Dict (List String)) (key other : String) (next : List String)
    → key ≢ other
    → Dict.get (save_namespaces map key next) other ≡ Dict.get map other
unfolding save_namespaces
get-save_ne map key other [] h = ground (arith, get-remove map key other, eq_iff key other)
get-save_ne map key other (n ∷ ns) h =
    ground (arith, get-put map key other (n ∷ ns), eq_iff key other)

-- Choosing namespaces puts the choice in force, and remembers it for exactly the sets of contexts
-- with the key of the active ones, unless no context is active; the active contexts stay.
pub apply_namespace_selection_lem :
    (next : List String) (w : World) (contexts : List String)
    → ((apply_namespace_selection next w).ui.selected_namespaces ≡ next)
      × (remembered (apply_namespace_selection next w) contexts ≡ (
          if namespace_key contexts == namespace_key (active w)
            && not (namespace_key (active w) == "")
          then next
          else remembered w contexts))
      × (active (apply_namespace_selection next w) ≡ active w)
unfolding apply_namespace_selection saved_namespaces effective_context_list
apply_namespace_selection_lem next w contexts =
    let map = w.ui.namespaces_by_context in
    let key = namespace_key (active w) in
    elim (Bool-cases (key == "")) [
      | inl idle ↦ rw idle (refl, ground (arith, idle), refl)
      | inr named ↦ rw named (
        refl,
        elim (Bool-cases (namespace_key contexts == key)) [
          | inl same ↦ rw same (
              ap (λ k. or_else (Dict.get (save_namespaces map key next) k) []) ((eq_iff _ _).0 same)
              ∙ or_else-save map key next)
          | inr other ↦ rw other (
              ap (λ (o : Option (List String)). or_else o [])
                (get-save_ne map key (namespace_key contexts) next
                  (λ e. ground (arith, other, (eq_iff (namespace_key contexts) key).1 (sym e)))))
        ],
        refl,
      )
    ]

module _ (coll : Collation) where
  remembered-session :
      (next : List String) (g : Option String) (now : ℕ) (w : World)
      → ((session_if_any next g now w).ui.selected_namespaces ≡ w.ui.selected_namespaces)
        × ((session_if_any next g now w).ui.namespaces_by_context ≡ w.ui.namespaces_by_context)
  unfolding with_session
  remembered-session [] g now w = (refl, refl)
  remembered-session (c ∷ cs) g now w = (refl, refl)

  -- A change of the selected context puts the remembered filter in force, and forgets none.
  switch_lem :
      (now : ℕ) (name : Option String) (w : World)
      → same_list (single_context name) (active w) ≡ false
      → ((set_selected_context coll now name w).ui.selected_namespaces
          ≡ remembered w (active (set_selected_context coll now name w)))
        × ((set_selected_context coll now name w).ui.namespaces_by_context
            ≡ w.ui.namespaces_by_context)
  unfolding set_selected_context
  switch_lem now name w differ =
      let next = single_context name in
      let (shown, map) = remembered-session next none now (normalize_contexts coll next w) in
      rw differ (
        shown
            ∙ sym (
                ap (λ cs. remembered w cs)
                  (active-session coll next none now (normalize_contexts coll next w))),
        map,
      )

  single-eq : (a : String) → a ≢ "" → single_context (some a) ≡ a ∷ []
  unfolding single_context
  single-eq a h = ground (arith, eq_iff a "")

  differ-eq : (a b : String) → a ≢ b → same_list (a ∷ []) (b ∷ []) ≡ false
  unfolding same_list
  differ-eq a b h = ground (arith, eq_iff b a)

  kept_for :
      (a : String) (w w1 : World) (chosen : List String)
      → a ≢ ""
      → active w ≡ a ∷ []
      → remembered w1 (active w) ≡ (
          if namespace_key (active w) == namespace_key (active w)
            && not (namespace_key (active w) == "")
          then chosen
          else remembered w (active w))
      → remembered w1 (a ∷ []) ≡ chosen
  kept_for a w w1 chosen ha only k =
      ap (λ cs. remembered w1 cs) (sym only)
      ∙ k
      ∙ ground (
        arith,
        ap namespace_key only,
        single_key a,
        eq_iff a "",
        ha,
        eq_refl (namespace_key (active w)),
      )
    where
      single_key : (a : String) → namespace_key (a ∷ []) ≡ a
      single_key a = unfold namespace_key in refl

  -- Choosing namespaces in one context, switching to another context and coming back puts the
  -- choice, sorted and without repetitions, in force again. The contexts have different names, not
  -- empty, and the first was the only active one.
  pub namespaces-after_return :
      (sooner later : ℕ) (a b : String) (names : List String) (w : World)
      → a ≢ ""
      → b ≢ ""
      → a ≢ b
      → active w ≡ a ∷ []
      → shown (
          set_selected_context coll later
            (some a)
            (set_selected_context coll sooner (some b) (set_selected_namespaces coll names w)))
        ≡ dedupe_sorted coll names
  unfolding set_selected_namespaces
  namespaces-after_return sooner later a b names w ha hb ab only =
      let chosen = dedupe_sorted coll names in
      let w1 = apply_namespace_selection chosen w in
      let w2 = set_selected_context coll sooner (some b) w1 in
      let (_, kept, act1) = apply_namespace_selection_lem chosen w (active w) in
      let act2 : active w2 ≡ b ∷ [] =
        active-set_selected_context coll sooner (some b) w1 ∙ single-eq b hb in
      let act3 : active (set_selected_context coll later (some a) w2) ≡ a ∷ [] =
        active-set_selected_context coll later (some a) w2 ∙ single-eq a ha in
      let away : same_list (single_context (some b)) (active w1) ≡ false =
        rw (single-eq b hb, act1, only) (differ-eq b a (λ e. ab (sym e))) in
      let back : same_list (single_context (some a)) (active w2) ≡ false =
        rw (single-eq a ha, act2) (differ-eq a b ab) in
      let (_, map2) = switch_lem sooner (some b) w1 away in
      let (in_force, _) = switch_lem later (some a) w2 back in
      in_force
      ∙ ap (λ cs. remembered w2 cs) act3
      ∙ ap (λ (m : Dict (List String)). saved_namespaces m (a ∷ [])) map2
      ∙ kept_for a w w1 chosen ha only kept
