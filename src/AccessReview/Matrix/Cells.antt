-- ===== src/AccessReview/Matrix/Cells.antt =====
-- features/accessreview/AccessReviewView.tsx: what a rule adds to a cell.
use klustr.Prelude.{
  String, ◌≡◌, refl, Bool, true, false, ◌&&◌, ◌||◌, List, [], ◌∷◌, ◌++◌, arith, eq_iff,
  if◌then◌else◌, Bool-cases, inl, inr, includes, includes-append, includes-keep,
}
use klustr.AccessReview.Matrix.{
  SubjectAccessRule, empty_cells, verb_columns, Cells, EffectiveCell, add_names, granted_by,
  set_cell, apply_each, verbs_of, apply_verbs,
}

-- A rule grants a verb that it names, and with `*` every verb.
abbrev pub grants : SubjectAccessRule → String → Bool
grants rule v = includes "*" rule.verbs || includes v rule.verbs

includes-verbs_of :
    (rule : SubjectAccessRule) (v : String)
    → includes v verb_columns ≡ true
    → includes v (verbs_of rule) ≡ grants rule v
includes-verbs_of rule v column = elim (Bool-cases (includes "*" rule.verbs)) [
  | inl all ↦ ground arith
  | inr some ↦ ground (arith, includes-keep v (λ u. includes u verb_columns) rule.verbs)
]

pub includes-add_names :
    (rn : String) (more names : List String)
    → includes rn (add_names more names) ≡ (includes rn names || includes rn more)
unfolding add_names includes
includes-add_names rn [] names = ground arith
includes-add_names rn (n ∷ more) names = ground (
  arith,
  includes-add_names rn more (if includes n names then names else names ++ n ∷ []),
  includes-append rn names (n ∷ []),
  eq_iff n rn,
)

module _ (rule : SubjectAccessRule) (wildcard : Bool) (u : String) where
  granted-apply_each :
      (vs : List String) (cells : Cells)
      → (apply_each rule wildcard vs cells u).granted ≡ ((cells u).granted || includes u vs)
  unfolding apply_each includes
  granted-apply_each [] cells = ground arith
  granted-apply_each (v ∷ vs) cells =
      ground (arith, granted-apply_each vs (set_cell cells v (granted_by rule wildcard (cells v))))

  wildcard-apply_each :
      (vs : List String) (cells : Cells)
      → (apply_each rule wildcard vs cells u).wildcard
        ≡ ((cells u).wildcard || (wildcard && includes u vs))
  unfolding apply_each includes
  wildcard-apply_each [] cells = ground arith
  wildcard-apply_each (v ∷ vs) cells = ground (
    arith,
    wildcard-apply_each vs (set_cell cells v (granted_by rule wildcard (cells v))),
    eq_iff v u,
  )

  names-apply_each :
      (rn : String) (vs : List String) (cells : Cells)
      → includes rn (apply_each rule wildcard vs cells u).resource_names ≡ (
          includes rn (cells u).resource_names
          || (includes rn rule.resource_names && includes u vs))
  unfolding apply_each includes
  names-apply_each rn [] cells = ground arith
  names-apply_each rn (v ∷ vs) cells = ground (
    arith,
    names-apply_each rn vs (set_cell cells v (granted_by rule wildcard (cells v))),
    includes-add_names rn rule.resource_names (cells v).resource_names,
    eq_iff v u,
  )

-- An observation of a cell that each rule may turn on, and that none turns off.
pub record IsCollected (obs : EffectiveCell → Bool) (adds : SubjectAccessRule → Bool) (u : String)
    : Type 0 where
  pub step :
      (cells : Cells) (rule : SubjectAccessRule)
      → obs (apply_verbs cells rule u) ≡ (obs (cells u) || adds rule)
  pub start : obs (empty_cells u) ≡ false

module _ (u : String) (column : includes u verb_columns ≡ true) where
  pub granted-IsCollected : IsCollected (λ c. c.granted) (λ rule. grants rule u) u
  unfolding apply_verbs
  granted-IsCollected = record {
    step = λ cells rule. ground (
      arith,
      granted-apply_each rule (includes "*" rule.verbs) u (verbs_of rule) cells,
      includes-verbs_of rule u column,
    );
    start = refl;
  }

  pub wildcard-IsCollected : IsCollected (λ c. c.wildcard) (λ rule. includes "*" rule.verbs) u
  unfolding apply_verbs
  wildcard-IsCollected = record {
    step = λ cells rule. ground (
      arith,
      wildcard-apply_each rule (includes "*" rule.verbs) u (verbs_of rule) cells,
      includes-verbs_of rule u column,
    );
    start = refl;
  }

  pub names-IsCollected :
      (rn : String)
      → IsCollected
          (λ c. includes rn c.resource_names)
          (λ rule. includes rn rule.resource_names && grants rule u)
          u
  unfolding apply_verbs includes
  names-IsCollected rn = record {
    step = λ cells rule. ground (
      arith,
      names-apply_each rule (includes "*" rule.verbs) u rn (verbs_of rule) cells,
      includes-verbs_of rule u column,
    );
    start = refl;
  }
