-- ===== src/Ui/Inspector/Navigation.antt =====
-- The way back through opened resources, from store/ui.ts.
use klustr.Prelude.{
  ℕ, String, ◌≡◌, ◌≢◌, refl, true, false, Option, none, some, List, [], ◌∷◌, ◌++◌, arith, ◌⊎◌, inl,
  inr, Bool-cases, eq_iff, same_list, get_last?, drop_last, get_last?-append, drop_last-append,
}
use klustr.Collation.{Collation}
use klustr.Ui.Views.{ResourceView}
use klustr.Ui.Types.{SelectedResource, DetailTab}
use klustr.Ui.State.{World, single_context}
use klustr.Ui.Contexts.{normalize_contexts, with_session, session_if_any, set_selected_context}
use klustr.Ui.Contexts.Selection.{active}
use klustr.Ui.Inspector.{
  same_resource, set_selected_view, set_selected_crd, set_selected_resource, pushed, open_resource,
  go_back_resource,
}

abbrev pub stack : World → List SelectedResource
stack w = w.ui.resource_nav_stack

abbrev pub selected : World → Option SelectedResource
selected w = w.ui.selected_resource

-- Opening another resource and going back opens again the one that was open, with the same way back
-- from there, and asks for no tab.
pub go_back-open :
    (r new : SelectedResource) (tab : Option DetailTab) (w : World)
    → selected w ≡ some r
    → same_resource r new ≡ false
    → (selected (go_back_resource (open_resource new tab w)) ≡ some r)
      × (stack (go_back_resource (open_resource new tab w)) ≡ stack w)
      × ((go_back_resource (open_resource new tab w)).ui.last_selected_resource ≡ some r)
      × ((go_back_resource (open_resource new tab w)).ui.requested_tab ≡ none)
unfolding go_back_resource open_resource
go_back-open r new tab w here other =
    ground (arith, get_last?-append (stack w) r, drop_last-append (stack w) r)

-- A list in which no resource follows itself.
abbrev pub Alternating : List SelectedResource → Type 0
Alternating [] = Unit
Alternating (a ∷ []) = Unit
Alternating (a ∷ b ∷ rest) = (same_resource a b ≡ false) × Alternating (b ∷ rest)

abbrev pub opened : Option SelectedResource → List SelectedResource
opened none = []
opened (some r) = r ∷ []

-- No resource directly follows itself on the way back and then to the open one; with none open there
-- is no way back.
pub record IsTrail (way : List SelectedResource) (current : Option SelectedResource) : Type 0 where
  pub alternates : Alternating (way ++ opened current)
  pub anchored : (way ≡ []) ⊎ (current ≢ none)

Alternating-snoc :
    (way : List SelectedResource) (a b : SelectedResource)
    → Alternating (way ++ a ∷ [])
    → same_resource a b ≡ false
    → Alternating ((way ++ a ∷ []) ++ b ∷ [])
Alternating-snoc [] a b t h = (h, tt)
Alternating-snoc (x ∷ []) a b t h = (t.0, (h, tt))
Alternating-snoc (x ∷ y ∷ way) a b t h = (t.0, Alternating-snoc (y ∷ way) a b t.1 h)

same_resource-right :
    (x a b : SelectedResource)
    → same_resource a b ≡ true
    → same_resource x a ≡ false
    → same_resource x b ≡ false
unfolding same_resource
same_resource-right x a b e h =
    ground (arith, eq_iff a.kind b.kind, eq_iff a.namespace b.namespace, eq_iff a.name b.name)

Alternating-replace :
    (way : List SelectedResource) (a b : SelectedResource)
    → Alternating (way ++ a ∷ [])
    → same_resource a b ≡ true
    → Alternating (way ++ b ∷ [])
Alternating-replace [] a b t e = tt
Alternating-replace (x ∷ []) a b t e = (same_resource-right x a b e t.0, tt)
Alternating-replace (x ∷ y ∷ way) a b t e = (t.0, Alternating-replace (y ∷ way) a b t.1 e)

Alternating-prefix :
    (way : List SelectedResource) (a : SelectedResource)
    → Alternating (way ++ a ∷ [])
    → Alternating way
Alternating-prefix [] a t = tt
Alternating-prefix (x ∷ []) a t = tt
Alternating-prefix (x ∷ y ∷ way) a t = (t.0, Alternating-prefix (y ∷ way) a t.1)

pushed-IsTrail :
    (way : List SelectedResource) (current : Option SelectedResource) (new : SelectedResource)
    → IsTrail way current
    → IsTrail (pushed current new way) (some new)
unfolding pushed
pushed-IsTrail way none new t = record {
  alternates = elim t.anchored [ inl e ↦ rw e tt | inr h ↦ absurd (h refl) ];
  anchored = inr (λ e. cc);
}
pushed-IsTrail way (some r) new t = elim (Bool-cases (same_resource r new)) [
  | inl same ↦ rw same (record {
    alternates = Alternating-replace way r new t.alternates same;
    anchored = inr (λ e. cc);
  })
  | inr other ↦ rw other (record {
    alternates = Alternating-snoc way r new t.alternates other;
    anchored = inr (λ e. cc);
  })
]

pub open-IsTrail :
    (new : SelectedResource) (tab : Option DetailTab) (w : World)
    → IsTrail (stack w) (selected w)
    → IsTrail (stack (open_resource new tab w)) (some new)
unfolding open_resource
open-IsTrail new tab w t = pushed-IsTrail (stack w) (selected w) new t

back-IsTrail :
    (way : List SelectedResource) (next : SelectedResource)
    → get_last? way ≡ some next
    → Alternating way
    → IsTrail (drop_last way) (some next)
back-IsTrail [] next e t = cc
back-IsTrail (x ∷ []) next e t = record { alternates = tt; anchored = inr (λ e. cc) }
back-IsTrail (x ∷ y ∷ way) next e t =
    let rest = back-IsTrail (y ∷ way) next e t.1 in
    record {
      alternates = Alternating-cons x y way next t.0 e rest.alternates;
      anchored = inr (λ e. cc);
    }
  where
    -- the shorter way back still starts with `y`
    Alternating-cons :
        (x y : SelectedResource) (way : List SelectedResource) (next : SelectedResource)
        → same_resource x y ≡ false
        → get_last? (y ∷ way) ≡ some next
        → Alternating (drop_last (y ∷ way) ++ next ∷ [])
        → Alternating (drop_last (x ∷ y ∷ way) ++ next ∷ [])
    Alternating-cons x y [] next h e t = (ground arith, tt)
    Alternating-cons x y (z ∷ way) next h e t = (h, t)

go_back_from :
    (way : List SelectedResource) (current : Option SelectedResource)
    → IsTrail way current
    → Alternating way
go_back_from way none t = elim t.anchored [ inl e ↦ rw e tt | inr h ↦ absurd (h refl) ]
go_back_from way (some r) t = Alternating-prefix way r t.alternates

abbrev IsTrailOf : World → Type 0
IsTrailOf w = IsTrail (stack w) (selected w)

go_back-IsTrail : (w : World) → IsTrailOf w → IsTrailOf (go_back_resource w)
unfolding go_back_resource
go_back-IsTrail w t = go (get_last? (stack w)) refl
  where
    go : (o : Option SelectedResource) → get_last? (stack w) ≡ o → IsTrailOf (go_back_resource w)
    go none e = rw (e, go_back_resource) t
    go (some next) e =
        rw (e, go_back_resource)
          (back-IsTrail (stack w) next e (go_back_from (stack w) (selected w) t))

select-IsTrail :
    (resource : Option SelectedResource) (w : World) → IsTrailOf (set_selected_resource resource w)
unfolding set_selected_resource
select-IsTrail none w = record { alternates = tt; anchored = inl refl }
select-IsTrail (some r) w = record { alternates = tt; anchored = inl refl }

-- Along the way back and up to the open resource, no resource directly follows itself, and with no
-- resource open there is no way back: each action on the open resource keeps this, opening a resource,
-- going back, selecting a resource or none, and changing the view or the custom resource on screen.
pub inspector-IsTrail :
    (w : World)
    → IsTrail (stack w) (selected w)
    → ((new : SelectedResource) (tab : Option DetailTab)
        → IsTrail (stack (open_resource new tab w)) (selected (open_resource new tab w)))
      × IsTrail (stack (go_back_resource w)) (selected (go_back_resource w))
      × ((r : Option SelectedResource)
          → IsTrail (stack (set_selected_resource r w)) (selected (set_selected_resource r w)))
      × ((view : ResourceView)
          → IsTrail (stack (set_selected_view view w)) (selected (set_selected_view view w)))
      × ((key : Option String)
          → IsTrail (stack (set_selected_crd key w)) (selected (set_selected_crd key w)))
unfolding open_resource set_selected_view set_selected_crd
inspector-IsTrail w t = (
  λ new tab. pushed-IsTrail (stack w) (selected w) new t,
  go_back-IsTrail w t,
  λ r. select-IsTrail r w,
  λ view. record { alternates = tt; anchored = inl refl },
  λ key. record { alternates = tt; anchored = inl refl },
)

stack-session :
    (next : List String) (g : Option String) (now : ℕ) (w : World)
    → ((session_if_any next g now w).ui.resource_nav_stack ≡ w.ui.resource_nav_stack)
      × ((session_if_any next g now w).ui.selected_resource ≡ w.ui.selected_resource)
unfolding with_session
stack-session [] g now w = (refl, refl)
stack-session (c ∷ cs) g now w = (refl, refl)

stack-set_selected_context :
    (coll : Collation) (now : ℕ) (name : Option String) (w : World)
    → same_list (single_context name) (active w) ≡ false
    → (stack (set_selected_context coll now name w) ≡ stack w)
      × (selected (set_selected_context coll now name w) ≡ none)
unfolding set_selected_context
stack-set_selected_context coll now name w differ =
    let next = single_context name in
    rw differ
      (unfold normalize_contexts in stack-session next none now (normalize_contexts coll next w))

-- A change of the selected context that changes which contexts are active closes the open resource
-- and keeps the way back: if a resource is opened then, going back opens the resource that was on top
-- of the way back in the old context.
pub go_back-open-switch :
    (coll : Collation) (now : ℕ) (name : Option String) (old new : SelectedResource)
    (tab : Option DetailTab) (w : World)
    → same_list (single_context name) (active w) ≡ false
    → get_last? (stack w) ≡ some old
    → (selected (set_selected_context coll now name w) ≡ none)
      × (selected (go_back_resource (open_resource new tab (set_selected_context coll now name w)))
          ≡ some old)
unfolding go_back_resource open_resource
go_back-open-switch coll now name old new tab w differ last =
    let (kept, closed) = stack-set_selected_context coll now name w differ in
    (closed, rw (closed, kept) (ground arith))
