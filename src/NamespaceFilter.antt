-- ===== src/NamespaceFilter.antt =====
-- lib/namespaceFilter.ts: what a selection of namespaces asks the backend for, and what it keeps.
mod Laws
mod Tests
use Prim.Native.String
use klustr.Prelude.{String, Bool, true, List, [], ◌∷◌, ◌==◌, includes, length}
use klustr.Prelude.Numerals.{decimal}

pub record NamespaceQuery : Type 0 where
  pub api_namespace : String
  pub is_match : String → Bool

unfoldable pub namespace_query : List String → NamespaceQuery
namespace_query [] = record { api_namespace = ""; is_match = λ ns. true }
namespace_query (only ∷ []) = record { api_namespace = only; is_match = λ ns. ns == only }
namespace_query (a ∷ b ∷ rest) = record {
  api_namespace = "";
  is_match = λ ns. includes ns (a ∷ b ∷ rest);
}

unfoldable pub namespace_label : List String → String
namespace_label [] = "All namespaces"
namespace_label (only ∷ []) = only
namespace_label (a ∷ b ∷ rest) = String.◌++◌ (decimal (length (a ∷ b ∷ rest))) " namespaces"
