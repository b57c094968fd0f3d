-- ===== src/AccessReview/Matrix/Scopes.antt =====
-- features/accessreview/AccessReviewView.tsx: `groupByScope` splits the rows by their scope.
use klustr.Prelude.{
  String, ◌≡◌, refl, sym, ◌||◌, List, [], ◌∷◌, ◌++◌, arith, ◌==◌, eq_iff, if◌then◌else◌, keep, map,
  includes, Distinct,
}
use mathlib.Core.List.{append_assoc, append-nil}
use klustr.AccessReview.Matrix.{MatrixRow, ScopeGroup, push_row, group_rows, group_by_scope}

-- The rows of the group with a scope, none where there is no group.
abbrev pub rows_at : List ScopeGroup → String → List MatrixRow
rows_at [] scope = []
rows_at (g ∷ gs) scope = if g.scope == scope then g.rows else rows_at gs scope

abbrev pub scopes : List ScopeGroup → List String
scopes gs = map (λ (g : ScopeGroup). g.scope) gs

rows_at-push_row :
    (out : List ScopeGroup) (row : MatrixRow) (scope : String)
    → rows_at (push_row out row) scope
      ≡ (if row.scope == scope then rows_at out scope ++ row ∷ [] else rows_at out scope)
unfolding push_row
rows_at-push_row [] row scope = ground arith
rows_at-push_row (g ∷ gs) row scope = ground (
  arith,
  rows_at-push_row gs row scope,
  eq_iff g.scope row.scope,
  eq_iff g.scope scope,
  eq_iff row.scope scope,
)

includes-push_row :
    (scope : String) (out : List ScopeGroup) (row : MatrixRow)
    → includes scope (scopes (push_row out row))
      ≡ (includes scope (scopes out) || row.scope == scope)
unfolding push_row includes
includes-push_row scope [] row = ground arith
includes-push_row scope (g ∷ gs) row =
    ground (arith, includes-push_row scope gs row, eq_iff g.scope row.scope)

Distinct-push_row :
    (out : List ScopeGroup) (row : MatrixRow)
    → Distinct (scopes out)
    → Distinct (scopes (push_row out row))
unfolding push_row includes
Distinct-push_row [] row d = (refl, tt)
Distinct-push_row (g ∷ gs) row (h, d) = ground (
  arith,
  Distinct-push_row gs row d,
  includes-push_row g.scope gs row,
  eq_iff g.scope row.scope,
  eq_iff row.scope g.scope,
)

rows_at-group_rows :
    (rows : List MatrixRow) (out : List ScopeGroup) (scope : String)
    → rows_at (group_rows rows out) scope ≡ rows_at out scope ++ keep (λ r. r.scope == scope) rows
unfolding group_rows
rows_at-group_rows [] out scope = sym (append-nil (rows_at out scope))
rows_at-group_rows (row ∷ rows) out scope = ground (
  arith,
  rows_at-group_rows rows (push_row out row) scope,
  rows_at-push_row out row scope,
  append_assoc (rows_at out scope) (row ∷ []) (keep (λ (r : MatrixRow). r.scope == scope) rows),
)

Distinct-group_rows :
    (rows : List MatrixRow) (out : List ScopeGroup)
    → Distinct (scopes out)
    → Distinct (scopes (group_rows rows out))
unfolding group_rows
Distinct-group_rows [] out d = d
Distinct-group_rows (row ∷ rows) out d =
    Distinct-group_rows rows (push_row out row) (Distinct-push_row out row d)

-- There is one group for each scope, and it holds the rows of that scope in their order.
pub group_by_scope_lem :
    (rows : List MatrixRow)
    → Distinct (scopes (group_by_scope rows))
      × ((scope : String) → rows_at (group_by_scope rows) scope ≡ keep (λ r. r.scope == scope) rows)
unfolding group_by_scope
group_by_scope_lem rows =
    (Distinct-group_rows rows [] tt, λ scope. rows_at-group_rows rows [] scope)
