-- ===== src/AccessReview/Matrix/Rows.antt =====
-- features/accessreview/AccessReviewView.tsx: the keys of the map that the loops over the rules fill.
use klustr.Prelude.{
  String, ◌≡◌, refl, ◌∙◌, ◌||◌, List, [], ◌∷◌, arith, ◌==◌, eq_iff, or_else, Bool-cases, inl, inr,
  any, includes, Distinct, All,
}
use klustr.Dict
use klustr.Dict.{Dict, includes-keys-put, Distinct-keys-put, get_of_absent}
use klustr.AccessReview.Matrix.{
  SubjectAccessRule, MatrixRow, fresh_row, with_rule, target_key, row_key, api_groups_of,
  resources_of, touch, for_resources, for_groups, for_rules,
}
use klustr.AccessReview.Matrix.Grants.{covers}

-- A property of the map that each step of the loops keeps holds at the end.
module _ (P : Dict MatrixRow → Type 0)
    (keep : (rule : SubjectAccessRule) (g res : String) (m : Dict MatrixRow)
      → P m
      → P (touch rule g res m)) where
  for_resources_keeps :
      (rule : SubjectAccessRule) (g : String) (rs : List String) (m : Dict MatrixRow)
      → P m
      → P (for_resources rule g rs m)
  unfolding for_resources
  for_resources_keeps rule g [] m p = p
  for_resources_keeps rule g (res ∷ rs) m p =
      for_resources_keeps rule g rs (touch rule g res m) (keep rule g res m p)

  for_groups_keeps :
      (rule : SubjectAccessRule) (gs : List String) (m : Dict MatrixRow)
      → P m
      → P (for_groups rule gs m)
  unfolding for_groups
  for_groups_keeps rule [] m p = p
  for_groups_keeps rule (g ∷ gs) m p =
      for_groups_keeps rule gs _ (for_resources_keeps rule g (resources_of rule) m p)

  pub for_rules_keeps :
      (rules : List SubjectAccessRule) (m : Dict MatrixRow) → P m → P (for_rules rules m)
  unfolding for_rules
  for_rules_keeps [] m p = p
  for_rules_keeps (rule ∷ rules) m p =
      for_rules_keeps rules _ (for_groups_keeps rule (api_groups_of rule) m p)

abbrev pub Keyed : Dict MatrixRow → Type 0
Keyed m = All (λ (e : String × MatrixRow). row_key e.1 ≡ e.0) m

Keyed-get :
    (m : Dict MatrixRow) (k : String) (fresh : MatrixRow)
    → Keyed m
    → row_key fresh ≡ k
    → row_key (or_else (Dict.get m k) fresh) ≡ k
unfolding Dict.get
Keyed-get [] k fresh h e = e
Keyed-get ((j, row) ∷ m) k fresh (h, hs) e = elim (Bool-cases (j == k)) [
  | inl same ↦ rw same (h ∙ (eq_iff j k).0 same)
  | inr other ↦ rw other (Keyed-get m k fresh hs e)
]

Keyed-put :
    (m : Dict MatrixRow) (k : String) (row : MatrixRow)
    → Keyed m
    → row_key row ≡ k
    → Keyed (Dict.put m k row)
unfolding Dict.put
Keyed-put [] k row h e = (e, tt)
Keyed-put ((j, r) ∷ m) k row (h, hs) e = elim (Bool-cases (j == k)) [
  | inl same ↦ rw same (e, hs)
  | inr other ↦ rw other (h, Keyed-put m k row hs e)
]

pub Keyed-touch :
    (rule : SubjectAccessRule) (g res : String) (m : Dict MatrixRow)
    → Keyed m
    → Keyed (touch rule g res m)
unfolding touch
Keyed-touch rule g res m h = Keyed-put m _ _ h (Keyed-get m _ (fresh_row rule.scope g res) h refl)

pub Distinct-touch :
    (rule : SubjectAccessRule) (g res : String) (m : Dict MatrixRow)
    → Distinct (Dict.keys m)
    → Distinct (Dict.keys (touch rule g res m))
unfolding touch
Distinct-touch rule g res m d = Distinct-keys-put m _ _ d

includes-keys-for_resources :
    (rule : SubjectAccessRule) (g : String) (rs : List String) (m : Dict MatrixRow) (key : String)
    → includes key (Dict.keys (for_resources rule g rs m))
      ≡ (includes key (Dict.keys m) || any (λ res. target_key rule.scope g res == key) rs)
unfolding for_resources touch
includes-keys-for_resources rule g [] m key = ground arith
includes-keys-for_resources rule g (res ∷ rs) m key =
    let k = target_key rule.scope g res in
    let row = with_rule rule (or_else (Dict.get m k) (fresh_row rule.scope g res)) in
    includes-keys-for_resources rule g rs (touch rule g res m) key
    ∙ rw (includes-keys-put m k key row) (ground arith)

includes-keys-for_groups :
    (rule : SubjectAccessRule) (gs : List String) (m : Dict MatrixRow) (key : String)
    → includes key (Dict.keys (for_groups rule gs m)) ≡ (
        includes key (Dict.keys m)
        || any (λ g. any (λ res. target_key rule.scope g res == key) (resources_of rule)) gs)
unfolding for_groups
includes-keys-for_groups rule [] m key = ground arith
includes-keys-for_groups rule (g ∷ gs) m key = ground (
  arith,
  includes-keys-for_groups rule gs (for_resources rule g (resources_of rule) m) key,
  includes-keys-for_resources rule g (resources_of rule) m key,
)

pub includes-keys-for_rules :
    (rules : List SubjectAccessRule) (m : Dict MatrixRow) (key : String)
    → includes key (Dict.keys (for_rules rules m))
      ≡ (includes key (Dict.keys m) || any (λ rule. covers rule key) rules)
unfolding for_rules
includes-keys-for_rules [] m key = ground arith
includes-keys-for_rules (rule ∷ rules) m key = ground (
  arith,
  includes-keys-for_rules rules (for_groups rule (api_groups_of rule) m) key,
  includes-keys-for_groups rule (api_groups_of rule) m key,
)
