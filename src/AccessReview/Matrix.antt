-- ===== src/AccessReview/Matrix.antt =====
-- features/accessreview/AccessReviewView.tsx: the matrix of resources and verbs.
pub mod Cells
pub mod Grants
pub mod Rows
pub mod Exact
pub mod Scopes
use Prim.Native.String as Str
use klustr.Prelude.{
  String, Bool, true, false, not, ◌||◌, ◌&&◌, List, [], ◌∷◌, ◌++◌, ◌==◌, if◌then◌else◌, or_else,
  keep, map, includes,
}
use klustr.Dict
use klustr.Dict.{Dict}
use klustr.Collation.{Collation}

-- lib/wails/wailsjs/go/models.ts: the fields of a rule that the matrix reads.
pub record SubjectAccessRule : Type 0 where
  pub scope : String
  pub verbs : List String
  pub api_groups : List String
  pub resources : List String
  pub resource_names : List String
  pub non_resource_urls : List String

abbrev pub verb_columns : List String
verb_columns =
    "get" ∷ "list" ∷ "watch" ∷ "create" ∷ "update" ∷ "patch" ∷ "delete" ∷ "deletecollection" ∷ []

pub record EffectiveCell : Type 0 where
  pub granted : Bool
  pub wildcard : Bool
  pub resource_names : List String
  pub sources : List SubjectAccessRule

-- `Record<Verb, EffectiveCell>`: what stands under a name that is no verb is never read.
abbrev pub Cells : Type 0
Cells = String → EffectiveCell

pub record MatrixRow : Type 0 where
  pub scope : String
  pub api_group : String
  pub resource : String
  pub cells : Cells

abbrev pub empty_cells : Cells
empty_cells v = record { granted = false; wildcard = false; resource_names = []; sources = [] }

-- The loop over `rule.resourceNames`.
unfoldable pub add_names : List String → List String → List String
unfolding includes
add_names [] names = names
add_names (rn ∷ more) names = add_names more (if includes rn names then names else names ++ rn ∷ [])

abbrev pub granted_by : SubjectAccessRule → Bool → EffectiveCell → EffectiveCell
granted_by rule wildcard cell = record {
  granted = true;
  wildcard = if wildcard then true else cell.wildcard;
  resource_names = add_names rule.resource_names cell.resource_names;
  sources = cell.sources ++ rule ∷ [];
}

-- `cells[v]` is changed in place.
abbrev pub set_cell : Cells → String → EffectiveCell → Cells
set_cell cells v cell u = if v == u then cell else cells u

unfoldable pub apply_each : SubjectAccessRule → Bool → List String → Cells → Cells
apply_each rule wildcard [] cells = cells
apply_each rule wildcard (v ∷ vs) cells =
    apply_each rule wildcard vs (set_cell cells v (granted_by rule wildcard (cells v)))

abbrev pub verbs_of : SubjectAccessRule → List String
verbs_of rule =
    if includes "*" rule.verbs then verb_columns else keep (λ v. includes v verb_columns) rule.verbs

unfoldable pub apply_verbs : Cells → SubjectAccessRule → Cells
unfolding apply_each
apply_verbs cells rule = apply_each rule (includes "*" rule.verbs) (verbs_of rule) cells

-- `${r.scope}|${g}|${res}`
unfoldable pub target_key : String → String → String → String
target_key scope g res = Str.◌++◌ scope (Str.◌++◌ "|" (Str.◌++◌ g (Str.◌++◌ "|" res)))

abbrev pub row_key : MatrixRow → String
row_key row = target_key row.scope row.api_group row.resource

abbrev pub groups_or_core : List String → List String
groups_or_core [] = "" ∷ []
groups_or_core (g ∷ gs) = g ∷ gs

abbrev pub resources_or_urls : List String → List String → List String
resources_or_urls [] urls = urls
resources_or_urls (r ∷ rs) urls = r ∷ rs

abbrev pub api_groups_of : SubjectAccessRule → List String
api_groups_of rule = groups_or_core rule.api_groups

abbrev pub resources_of : SubjectAccessRule → List String
resources_of rule = resources_or_urls rule.resources rule.non_resource_urls

abbrev pub fresh_row : String → String → String → MatrixRow
fresh_row scope g res = record { scope = scope; api_group = g; resource = res; cells = empty_cells }

abbrev pub with_rule : SubjectAccessRule → MatrixRow → MatrixRow
with_rule rule row = record row { cells = apply_verbs row.cells rule }

-- The body of the inner loop: the row of the target, made where there is none, gets the rule.
unfoldable pub touch : SubjectAccessRule → String → String → Dict MatrixRow → Dict MatrixRow
touch rule g res by_key =
    let key = target_key rule.scope g res in
    let row = or_else (Dict.get by_key key) (fresh_row rule.scope g res) in
    Dict.put by_key key (with_rule rule row)

unfoldable pub for_resources :
    SubjectAccessRule → String → List String → Dict MatrixRow → Dict MatrixRow
unfolding touch
for_resources rule g [] by_key = by_key
for_resources rule g (res ∷ more) by_key = for_resources rule g more (touch rule g res by_key)

unfoldable pub for_groups : SubjectAccessRule → List String → Dict MatrixRow → Dict MatrixRow
unfolding for_resources
for_groups rule [] by_key = by_key
for_groups rule (g ∷ more) by_key =
    for_groups rule more (for_resources rule g (resources_of rule) by_key)

unfoldable pub for_rules : List SubjectAccessRule → Dict MatrixRow → Dict MatrixRow
unfolding for_groups
for_rules [] by_key = by_key
for_rules (rule ∷ rules) by_key = for_rules rules (for_groups rule (api_groups_of rule) by_key)

-- `Array.from(byKey.values())`
unfoldable pub values : Dict MatrixRow → List MatrixRow
values [] = []
values ((k, row) ∷ m) = row ∷ values m

module _ (coll : Collation) where
  -- The comparator of `out.sort`, where it is not positive: the cluster's scope comes first.
  unfoldable pub row_le : MatrixRow → MatrixRow → Bool
  row_le a b =
      if not (a.scope == b.scope)
      then (if a.scope == "*"
          then true
          else if b.scope == "*"
          then false
          else coll.le a.scope b.scope)
      else if not (a.api_group == b.api_group)
      then coll.le a.api_group b.api_group
      else coll.le a.resource b.resource

  unfoldable pub insert_row : MatrixRow → List MatrixRow → List MatrixRow
  unfolding row_le
  insert_row a [] = a ∷ []
  insert_row a (x ∷ xs) = if row_le a x then a ∷ x ∷ xs else x ∷ insert_row a xs

  -- The sort is stable.
  unfoldable pub sort_rows : List MatrixRow → List MatrixRow
  unfolding insert_row
  sort_rows [] = []
  sort_rows (x ∷ xs) = insert_row x (sort_rows xs)

  unfoldable pub build_matrix_rows : List SubjectAccessRule → List MatrixRow
  unfolding for_rules values sort_rows
  build_matrix_rows rules = sort_rows (values (for_rules rules []))

pub record ScopeGroup : Type 0 where
  pub scope : String
  pub rows : List MatrixRow

-- `out.find(...)`, and the push to the group that is found or added
unfoldable pub push_row : List ScopeGroup → MatrixRow → List ScopeGroup
push_row [] row = record { scope = row.scope; rows = row ∷ [] } ∷ []
push_row (g ∷ gs) row =
    if g.scope == row.scope
    then record g { rows = g.rows ++ row ∷ [] } ∷ gs
    else g ∷ push_row gs row

unfoldable pub group_rows : List MatrixRow → List ScopeGroup → List ScopeGroup
unfolding push_row
group_rows [] out = out
group_rows (row ∷ rows) out = group_rows rows (push_row out row)

unfoldable pub group_by_scope : List MatrixRow → List ScopeGroup
unfolding group_rows
group_by_scope rows = group_rows rows []
