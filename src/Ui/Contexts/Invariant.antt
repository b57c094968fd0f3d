-- ===== src/Ui/Contexts/Invariant.antt =====
-- What the context fields of store/ui.ts satisfy, action by action.
use klustr.Prelude.{
  ℕ, ◌≡◌, refl, sym, ◌&&◌, Option, none, List, [], ◌∷◌, Bool-cases, inl, inr, same_list, ◌⊎◌,
  String, ◌==◌, eq_iff,
}
use klustr.Dict.{Dict}
use klustr.Collation.{Collation, dedupe_sorted}
use klustr.Collation.Canonical.{IsCanonical, dedupe_sorted-IsCanonical}
use klustr.Ui.State.{World, active_contexts, effective_context_list, single_context}
use klustr.Ui.Contexts.{
  saved_namespaces, namespace_key, several, only_one, same_group, normalize_contexts, with_session,
  session_if_any, set_selected_context, set_aggregated_contexts, toggled, toggle_aggregated_context,
  clear_if_any, clear_aggregated_contexts, apply_namespace_selection,
}
use klustr.Ui.Contexts.Selection.{active}
use klustr.Ui.Contexts.Memory.{or_else-save}

pub several_idem : (cs : List String) → several (several cs) ≡ several cs
unfolding several
several_idem [] = refl
several_idem (c ∷ []) = refl
several_idem (c ∷ d ∷ cs) = refl

module _ (coll : Collation) where
  -- Over the fields that it reads, so that it passes to every state with the same ones.
  pub record ContextsAgree (selected : Option String) (aggregated in_force : List String)
      (map : Dict (List String)) : Type 0 where
    pub exclusive : (aggregated ≡ []) ⊎ (selected ≡ none)
    pub enough : several aggregated ≡ aggregated
    pub canonical : IsCanonical coll aggregated
    pub remembered :
        (namespace_key (active_contexts aggregated selected) ≡ "")
        ⊎ (in_force ≡ saved_namespaces map (active_contexts aggregated selected))

  abbrev pub IsConsistent : World → Type 0
  IsConsistent w =
      ContextsAgree w.ui.selected_context w.ui.aggregated_contexts w.ui.selected_namespaces
        w.ui.namespaces_by_context

  several-exclusive : (cs : List String) → (several cs ≡ []) ⊎ (only_one cs ≡ none)
  unfolding several only_one
  several-exclusive [] = inl refl
  several-exclusive (c ∷ []) = inl refl
  several-exclusive (c ∷ d ∷ cs) = inr refl

  pub several-IsCanonical : (cs : List String) → IsCanonical coll cs → IsCanonical coll (several cs)
  unfolding several
  several-IsCanonical [] k = k
  several-IsCanonical (c ∷ []) k = (tt, tt)
  several-IsCanonical (c ∷ d ∷ cs) k = k

  pub normalize-IsConsistent :
      (next : List String) (w : World) → IsConsistent (normalize_contexts coll next w)
  unfolding normalize_contexts effective_context_list
  normalize-IsConsistent next w =
      let sorted = dedupe_sorted coll next in
      record {
        exclusive = several-exclusive sorted;
        enough = several_idem sorted;
        canonical = several-IsCanonical sorted (dedupe_sorted-IsCanonical coll next);
        remembered = inr refl;
      }

  session-IsConsistent :
      (next : List String) (g : Option String) (now : ℕ) (w : World)
      → IsConsistent w
      → IsConsistent (session_if_any next g now w)
  unfolding with_session
  session-IsConsistent [] g now w k = k
  session-IsConsistent (c ∷ cs) g now w k = k

  pub set_selected_context-IsConsistent :
      (now : ℕ) (name : Option String) (w : World)
      → IsConsistent w
      → IsConsistent (set_selected_context coll now name w)
  unfolding set_selected_context
  set_selected_context-IsConsistent now name w k =
      let next = single_context name in
      elim (Bool-cases (same_list next (active w))) [
        | inl same ↦ rw same k
        | inr differ ↦
            rw differ (session-IsConsistent next none now _ (normalize-IsConsistent next w))
      ]

  pub set_aggregated_contexts-IsConsistent :
      (now : ℕ) (names : List String) (g : Option String) (w : World)
      → IsConsistent w
      → IsConsistent (set_aggregated_contexts coll now names g w)
  unfolding set_aggregated_contexts
  set_aggregated_contexts-IsConsistent now names g w k =
      let next = dedupe_sorted coll names in
      elim (Bool-cases (same_list next (active w) && same_group w.ui.active_group_id g)) [
        | inl same ↦ rw same k
        | inr differ ↦ rw differ (session-IsConsistent next g now _ (normalize-IsConsistent next w))
      ]

  pub toggle_aggregated_context-IsConsistent :
      (name : String) (w : World)
      → IsConsistent w
      → IsConsistent (toggle_aggregated_context coll name w)
  unfolding toggle_aggregated_context
  toggle_aggregated_context-IsConsistent name w k =
      let next = toggled coll name (active w) in
      elim (Bool-cases (same_list next (active w))) [
        | inl same ↦ rw same k
        | inr differ ↦ rw differ (normalize-IsConsistent next w)
      ]

  clear_if_any-IsConsistent :
      (cs : List String) (w : World) → IsConsistent w → IsConsistent (clear_if_any coll cs w)
  clear_if_any-IsConsistent [] w k = k
  clear_if_any-IsConsistent (c ∷ cs) w k = normalize-IsConsistent [] w

  pub clear_aggregated_contexts-IsConsistent :
      (w : World) → IsConsistent w → IsConsistent (clear_aggregated_contexts coll w)
  unfolding clear_aggregated_contexts
  clear_aggregated_contexts-IsConsistent w k = clear_if_any-IsConsistent (active w) w k

  pub apply_namespace_selection-IsConsistent :
      (next : List String) (w : World)
      → IsConsistent w
      → IsConsistent (apply_namespace_selection next w)
  unfolding apply_namespace_selection effective_context_list saved_namespaces
  apply_namespace_selection-IsConsistent next w k =
      elim (Bool-cases (namespace_key (active w) == "")) [
        | inl idle ↦ rw idle (record {
          exclusive = k.exclusive;
          enough = k.enough;
          canonical = k.canonical;
          remembered = inl ((eq_iff _ _).0 idle);
        })
        | inr key ↦ rw key (record {
          exclusive = k.exclusive;
          enough = k.enough;
          canonical = k.canonical;
          remembered =
              inr (sym (or_else-save w.ui.namespaces_by_context (namespace_key (active w)) next));
        })
      ]
