-- ===== src/Navigation/Walk.antt =====
-- App.tsx: the arrow keys walk through the sidebar.
use klustr.Prelude.{
  ℕ, zero, suc, ◌+◌, ◌-◌, ◌%◌, ◌<◌, String, ◌≡◌, refl, ap, sym, subst, ◌∙◌, Bool, true, false, not,
  ◌==◌, Option, none, some, List, [], ◌∷◌, arith, eq_iff, includes, length, get_elem?, or_else, ltb,
  if◌then◌else◌, Bool-cases, inl, inr, Distinct,
}
use klustr.Ui.Views.{ResourceView, view_name}
use klustr.Access.{Reports}
use klustr.Crds.{CrdInfo}
use klustr.Navigation.Distinct.{nav_views-Distinct}
use klustr.Navigation.{nav_views, visible_groups, Reaction, next_index, index_of_view, next_view}
use klustr.Navigation.Laws.{names}

-- The view that is selected, if one is, is of the sidebar; `undefined` is selected only where the
-- sidebar has no view.
abbrev pub IsSafe : List ResourceView → Reaction → Type 0
IsSafe views Reaction.ignored = Unit
IsSafe views (Reaction.selects none) = length views ≡ 0
IsSafe views (Reaction.selects (some view)) = includes (view_name view) (names views) ≡ true

-- A view of the sidebar.
abbrev IsFound : List ResourceView → Option ResourceView → Type 0
IsFound views none = ⊥
IsFound views (some view) = includes (view_name view) (names views) ≡ true

wrapped : (a n : ℕ) → a < n → (a + n) % n ≡ a
wrapped a n h = grind arith

twice_wrapped : (n : ℕ) → 0 < n → (n + n) % n ≡ 0
twice_wrapped n h = grind arith

next_down : (i n : ℕ) → i < n → next_index true i n ≡ (if ltb (i + 1) n then i + 1 else 0)
next_down i n h = elim (Bool-cases (ltb (i + 1) n)) [
  | inl e ↦ rw e (wrapped (i + 1) n (ground arith))
  | inr e ↦
      let last : i + 1 ≡ n = ground arith in
      rw e (ap (λ k. (k + n) % n) last ∙ twice_wrapped n (omega (arith, h)))
]

next_up : (i n : ℕ) → i < n → next_index false i n ≡ (if ltb 0 i then i - 1 else n - 1)
next_up zero n h = grind arith
next_up (suc i) n h = ap (λ k. k % n) (omega arith) ∙ wrapped i n (omega (arith, h)) ∙ ground arith

back : (down : Bool) (i n : ℕ) → i < n → next_index (not down) (next_index down i n) n ≡ i
back true i n h =
    ap (λ k. next_index false k n) (next_down i n h)
    ∙ next_up _ n (ground arith)
    ∙ ground (arith, h)
back false i n h =
    ap (λ k. next_index true k n) (next_up i n h) ∙ next_down _ n (ground arith) ∙ ground (arith, h)

abbrev pub IsNamed : String → Option ResourceView → Type 0
IsNamed name none = ⊥
IsNamed name (some view) = view_name view ≡ name

-- The first view of a name stands at the index that is found.
index_of_view-found :
    (views : List ResourceView) (view : ResourceView)
    → includes (view_name view) (names views) ≡ true
    → (i : ℕ) × (index_of_view views view ≡ some i)
      × (i < length views)
      × IsNamed (view_name view) (get_elem? views i)
unfolding index_of_view includes
index_of_view-found [] view h = absurd (cc)
index_of_view-found (v ∷ views) view h = elim (Bool-cases (view_name v == view_name view)) [
  | inl e ↦ (0, rw e refl, omega arith, (eq_iff (view_name v) (view_name view)).0 e)
  | inr e ↦
      let (i, at, lt, named) = index_of_view-found views view (ground arith) in
      (suc i, rw (e, at) refl, omega (arith, lt), named)
]

same_name : (v u : ResourceView) → some v ≡ some u → view_name v ≡ view_name u
same_name v u h = ap view_name {x = v} {y = u} (cc)

includes-get :
    (views : List ResourceView) (i : ℕ) (view : ResourceView)
    → get_elem? views i ≡ some view
    → includes (view_name view) (names views) ≡ true
unfolding includes
includes-get [] i view h = absurd (cc)
includes-get (v ∷ views) zero view h =
    ground (arith, eq_iff (view_name v) (view_name view), same_name v view h)
includes-get (v ∷ views) (suc i) view h = ground (arith, includes-get views i view h)

apart_of :
    (a b : String) (xs : List String)
    → includes a xs ≡ false
    → includes b xs ≡ true
    → (a == b) ≡ false
apart_of a b xs h i = ground (arith, eq_iff a b)

-- With distinct names, the index of the view at an index is that index.
index_of_view-get :
    (views : List ResourceView) (i : ℕ) (view : ResourceView)
    → Distinct (names views)
    → get_elem? views i ≡ some view
    → index_of_view views view ≡ some i
unfolding index_of_view
index_of_view-get [] i view d h = absurd (cc)
index_of_view-get (v ∷ views) zero view d h =
    ground (arith, eq_iff (view_name v) (view_name view), same_name v view h)
index_of_view-get (v ∷ views) (suc i) view d h = ground (
  arith,
  index_of_view-get views i view d.1 h,
  includes-get views i view h,
  eq_iff (view_name v) (view_name view),
  apart_of (view_name v) (view_name view) (names views),
  d.0,
)

next_view-at :
    (down : Bool) (v : ResourceView) (views : List ResourceView) (view : ResourceView) (i : ℕ)
    → index_of_view (v ∷ views) view ≡ some i
    → next_view down (v ∷ views) view
      ≡ get_elem? (v ∷ views) (next_index down i (length (v ∷ views)))
unfolding next_view
next_view-at down v views view i at =
    ap (λ o. get_elem? (v ∷ views) (next_index down (or_else o 0) (length (v ∷ views)))) at

-- In a list without repetitions, the other arrow key leads back from where an arrow key leads to.
next_view-back :
    (down : Bool) (views : List ResourceView) (view u : ResourceView)
    → Distinct (names views)
    → includes (view_name view) (names views) ≡ true
    → next_view down views view ≡ some u
    → IsNamed (view_name view) (next_view (not down) views u)
unfolding includes
next_view-back down [] view u d h e = absurd (cc)
next_view-back down (v ∷ views) view u d h e =
    let (i, at, lt, named) = index_of_view-found (v ∷ views) view h in
    let n = length (v ∷ views) in
    let there =
      index_of_view-get (v ∷ views) (next_index down i n) u d
        (sym (next_view-at down v views view i at) ∙ e) in
    subst (IsNamed (view_name view))
      (sym (
        next_view-at (not down) v views u (next_index down i n) there
        ∙ ap (get_elem? (v ∷ views)) (back down i n lt)))
      named

-- In the sidebar, whatever definitions, reports and hidden items there are, no view stands twice, and
-- so, when the selected view is in it, the other arrow key leads back from where an arrow key leads to.
pub next_view-sidebar :
    {I : Type 0}
    → (crds : List (CrdInfo I)) (by_context : Reports) (active hidden : List String) (down : Bool)
      (view u : ResourceView)
    → includes (view_name view) (names (nav_views (visible_groups crds by_context active hidden)))
      ≡ true
    → next_view down (nav_views (visible_groups crds by_context active hidden)) view ≡ some u
    → IsNamed
        (view_name view)
        (next_view (not down) (nav_views (visible_groups crds by_context active hidden)) u)
next_view-sidebar crds by_context active hidden down view u h e =
    next_view-back down (nav_views (visible_groups crds by_context active hidden)) view u
      (nav_views-Distinct crds by_context active hidden) h e
