-- ===== src/NamespaceFilter/Laws.antt =====
-- The query of a selection of namespaces, from lib/namespaceFilter.ts.
use klustr.Prelude.{
  String, ◌≡◌, refl, Bool, true, false, not, ◌||◌, List, [], ◌∷◌, ◌==◌, includes, arith, eq_iff,
}
use klustr.NamespaceFilter.{namespace_query}

abbrev pub is_all : List String → Bool
is_all [] = true
is_all (n ∷ ns) = false

-- A namespace passes the filter exactly if it is selected or nothing is, and then it is among what the
-- backend is asked for: all namespaces, or that one.
pub namespace_query_lem :
    (selected : List String) (ns : String)
    → ((namespace_query selected).is_match ns ≡ (is_all selected || includes ns selected))
      × ((not ((namespace_query selected).is_match ns)
            || (namespace_query selected).api_namespace == ""
            || (namespace_query selected).api_namespace == ns)
          ≡ true)
unfolding namespace_query includes
namespace_query_lem [] ns = (refl, refl)
namespace_query_lem (only ∷ []) ns =
    (ground (arith, eq_iff only ns, eq_iff ns only), ground (arith, eq_iff only ns, eq_iff ns only))
namespace_query_lem (a ∷ b ∷ rest) ns = (refl, ground arith)
