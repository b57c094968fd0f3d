-- ===== src/AccessReview/Matrix/Grants.antt =====
-- features/accessreview/AccessReviewView.tsx: what the loops over the rules leave in the map of rows.
use klustr.Prelude.{
  String, ◌≡◌, refl, ◌∙◌, Bool, false, ◌&&◌, ◌||◌, Option, none, some, List, [], ◌∷◌, arith, ◌==◌,
  eq_iff, ap, or_else, Bool-cases, inl, inr, any,
}
use klustr.Dict
use klustr.Dict.{Dict, get-put, has-eq-is_some, includes-keys-put, Distinct-keys-put}
use klustr.AccessReview.Matrix.{
  SubjectAccessRule, EffectiveCell, MatrixRow, empty_cells, apply_verbs, fresh_row, with_rule,
  target_key, api_groups_of, resources_of, touch, for_resources, for_groups, for_rules,
}
use klustr.AccessReview.Matrix.Cells.{IsCollected}

-- A rule is about a target when one of its groups with one of its resources has that key.
abbrev pub covers : SubjectAccessRule → String → Bool
covers rule key =
    any (λ g. any (λ res. target_key rule.scope g res == key) (resources_of rule))
      (api_groups_of rule)

module _ (obs : EffectiveCell → Bool) (u : String) where
  abbrev pub seen_at : Option MatrixRow → Bool
  seen_at none = false
  seen_at (some row) = obs (row.cells u)

  module _ (adds : SubjectAccessRule → Bool) (collected : IsCollected obs adds u) where
    seen-with_rule :
        (rule : SubjectAccessRule) (fresh : MatrixRow) (o : Option MatrixRow)
        → fresh.cells ≡ empty_cells
        → seen_at (some (with_rule rule (or_else o fresh))) ≡ (seen_at o || adds rule)
    seen-with_rule rule fresh none e =
        ap (λ cells. obs (apply_verbs cells rule u)) e
        ∙ ground (arith, collected.step empty_cells rule, collected.start)
    seen-with_rule rule fresh (some row) e = collected.step row.cells rule

    seen-touch :
        (rule : SubjectAccessRule) (g res : String) (m : Dict MatrixRow) (key : String)
        → seen_at (Dict.get (touch rule g res m) key)
          ≡ (seen_at (Dict.get m key) || (target_key rule.scope g res == key && adds rule))
    unfolding touch
    seen-touch rule g res m key =
        let k = target_key rule.scope g res in
        let row = or_else (Dict.get m k) (fresh_row rule.scope g res) in
        let here = seen-with_rule rule (fresh_row rule.scope g res) (Dict.get m k) refl in
        elim (Bool-cases (k == key)) [
          | inl e ↦ ground (arith, get-put m k key (with_rule rule row), eq_iff k key)
          | inr e ↦ ground (arith, get-put m k key (with_rule rule row))
        ]

    seen-for_resources :
        (rule : SubjectAccessRule) (g : String) (rs : List String) (m : Dict MatrixRow)
        (key : String)
        → seen_at (Dict.get (for_resources rule g rs m) key) ≡ (
            seen_at (Dict.get m key)
            || (any (λ res. target_key rule.scope g res == key) rs && adds rule))
    unfolding for_resources
    seen-for_resources rule g [] m key = ground arith
    seen-for_resources rule g (res ∷ rs) m key =
        ground (
          arith,
          seen-for_resources rule g rs (touch rule g res m) key,
          seen-touch rule g res m key,
        )

    seen-for_groups :
        (rule : SubjectAccessRule) (gs : List String) (m : Dict MatrixRow) (key : String)
        → seen_at (Dict.get (for_groups rule gs m) key) ≡ (
            seen_at (Dict.get m key)
            || (any (λ g. any (λ res. target_key rule.scope g res == key) (resources_of rule)) gs
                && adds rule))
    unfolding for_groups
    seen-for_groups rule [] m key = ground arith
    seen-for_groups rule (g ∷ gs) m key = ground (
      arith,
      seen-for_groups rule gs (for_resources rule g (resources_of rule) m) key,
      seen-for_resources rule g (resources_of rule) m key,
    )

    pub seen-for_rules :
        (rules : List SubjectAccessRule) (m : Dict MatrixRow) (key : String)
        → seen_at (Dict.get (for_rules rules m) key)
          ≡ (seen_at (Dict.get m key) || any (λ rule. covers rule key && adds rule) rules)
    unfolding for_rules
    seen-for_rules [] m key = ground arith
    seen-for_rules (rule ∷ rules) m key = ground (
      arith,
      seen-for_rules rules (for_groups rule (api_groups_of rule) m) key,
      seen-for_groups rule (api_groups_of rule) m key,
    )
