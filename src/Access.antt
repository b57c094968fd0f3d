-- ===== src/Access.antt =====
-- store/access.ts: which kinds of resources the user can list in each context.
pub mod Laws
mod Tests
use klustr.Prelude.{
  String, Bool, true, false, not, ◌&&◌, ◌||◌, Option, none, some, List, [], ◌∷◌, if◌then◌else◌,
  includes,
}
use klustr.Dict
use klustr.Dict.{Dict}

-- `Record<string, Set<string>>`, a set as the list of its elements
abbrev pub Reports : Type 0
Reports = Dict (List String)

unfoldable pub set : String → List String → Reports → Reports
set ctx kinds by_context = Dict.put by_context ctx kinds

unfoldable pub clear : String → Reports → Reports
clear ctx by_context = Dict.remove by_context ctx

unfoldable pub reset : Reports → Reports
reset by_context = []

-- the loop, with `anyReport`
unfoldable pub accessible_from : Reports → String → Bool → List String → Bool
accessible_from by_context kind any_report [] = not any_report
accessible_from by_context kind any_report (ctx ∷ ctxs) =
    let skipped = accessible_from by_context kind any_report ctxs in
    let seen = accessible_from by_context kind true ctxs in
    elim (Dict.get by_context ctx) [
      | none ↦ skipped
      | some kinds ↦ if includes kind kinds then true else seen
    ]

unfoldable pub kind_accessible_in_any : Reports → List String → String → Bool
unfolding accessible_from
kind_accessible_in_any by_context [] kind = true
kind_accessible_in_any by_context (ctx ∷ ctxs) kind =
    accessible_from by_context kind false (ctx ∷ ctxs)
