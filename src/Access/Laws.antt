-- ===== src/Access/Laws.antt =====
-- Accessibility of a kind, from store/access.ts, in terms of the contexts' reports.
use klustr.Prelude.{
  String, ◌≡◌, refl, Bool, true, false, not, ◌||◌, List, [], ◌∷◌, arith, eq_iff, includes, any,
  is_some, or_else,
}
use klustr.Dict
use klustr.Dict.{Dict, get-put, get-remove}
use klustr.Access
use klustr.Access.{Reports, accessible_from, kind_accessible_in_any}

-- Whether a context has a report, and whether its report has the kind.
abbrev pub has_report : Reports → String → Bool
has_report by_context ctx = is_some (Dict.get by_context ctx)

abbrev pub is_listed : Reports → String → String → Bool
is_listed by_context kind ctx = includes kind (or_else (Dict.get by_context ctx) [])

accessible_from_lem :
    (by_context : Reports) (kind : String) (any_report : Bool) (ctxs : List String)
    → accessible_from by_context kind any_report ctxs ≡ (
        any (is_listed by_context kind) ctxs
        || not (any_report || any (has_report by_context) ctxs))
unfolding accessible_from
accessible_from_lem by_context kind any_report [] = ground arith
accessible_from_lem by_context kind any_report (ctx ∷ ctxs) = ground (
  arith,
  accessible_from_lem by_context kind any_report ctxs,
  accessible_from_lem by_context kind true ctxs,
  includes-nil,
)
  where
    includes-nil : includes kind [] ≡ false
    includes-nil = unfold includes in refl

-- A kind is accessible in some active context exactly if the report of one of them has it, or none of
-- them has a report yet, which is so with no active context.
pub kind_accessible_in_any_lem :
    (by_context : Reports) (ctxs : List String) (kind : String)
    → kind_accessible_in_any by_context ctxs kind
      ≡ (any (is_listed by_context kind) ctxs || not (any (has_report by_context) ctxs))
unfolding kind_accessible_in_any
kind_accessible_in_any_lem by_context [] kind = refl
kind_accessible_in_any_lem by_context (ctx ∷ ctxs) kind =
    accessible_from_lem by_context kind false (ctx ∷ ctxs)

-- Of one context, a new report decides what is accessible; with the report cleared everything is.
pub accessible-set-clear :
    (by_context : Reports) (ctx kind : String) (kinds : List String)
    → (kind_accessible_in_any (Access.set ctx kinds by_context) (ctx ∷ []) kind
        ≡ includes kind kinds)
      × (kind_accessible_in_any (Access.clear ctx by_context) (ctx ∷ []) kind ≡ true)
unfolding Access.set Access.clear kind_accessible_in_any accessible_from
accessible-set-clear by_context ctx kind kinds = (
  ground (arith, get-put by_context ctx ctx kinds, eq_iff ctx ctx),
  ground (arith, get-remove by_context ctx ctx, eq_iff ctx ctx),
)
