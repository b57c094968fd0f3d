-- ===== src/NamespaceFilter/Tests.antt =====
-- A selection of two namespaces.
use klustr.Prelude.{refl, ◌≡◌, ◌∷◌, []}
use klustr.Prelude.Numerals.{decimal}
use klustr.NamespaceFilter.{namespace_label}

two_namespaces : namespace_label ("web" ∷ "db" ∷ []) ≡ "2 namespaces"
unfolding namespace_label decimal
two_namespaces = refl
