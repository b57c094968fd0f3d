-- ===== src/Access/Tests.antt =====
-- A report of accessible kinds, as the sidebar reads it.
use klustr.Prelude.{false, includes, refl, ◌≡◌, ◌∷◌, []}
use klustr.Dict
use klustr.Dict.{Dict, get}
use klustr.Access.{Reports, accessible_from, kind_accessible_in_any}

abbrev reports : Reports
reports = ("prod", "pods" ∷ "services" ∷ []) ∷ []

restricted : kind_accessible_in_any reports ("stage" ∷ "prod" ∷ []) "secrets" ≡ false
unfolding kind_accessible_in_any accessible_from Dict.get includes
restricted = refl
