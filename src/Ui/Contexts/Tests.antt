-- ===== src/Ui/Contexts/Tests.antt =====
-- Selecting contexts and namespaces on concrete worlds.
use klustr.Prelude.{
  String, ◌≡◌, ◌≢◌, refl, false, none, some, [], ◌∷◌, arith, eq_iff, includes, not, if◌then◌else◌,
  ◌==◌,
}
use klustr.Collation.{dedupe_sorted}
use klustr.Collation.Canonical.{IsCanonical}
use klustr.Collation.CodePoints.{code_le, code_points}
use klustr.Ui.State.{World, single_context}
use klustr.Ui.Contexts.{
  set_selected_context, set_aggregated_contexts, toggle_aggregated_context, set_selected_namespaces,
}
use klustr.Ui.Contexts.Selection.{
  active, active-set_selected_context, active-toggle_aggregated_context, single-IsCanonical,
}
use klustr.Ui.Contexts.Memory.{shown, namespaces-after_return}
use klustr.Ui.Fixtures.{started}

abbrev prod : String
prod = "prod"

abbrev stage : String
stage = "stage"

abbrev none_named : String
none_named = ""

abbrev on_prod : World
on_prod = set_selected_context code_points 1 (some prod) started

abbrev on_both : World
on_both = set_aggregated_contexts code_points 1 (stage ∷ prod ∷ []) none started

named : prod ≢ none_named
named = ground (arith, eq_iff prod none_named)

other_named : stage ≢ none_named
other_named = ground (arith, eq_iff stage none_named)

differ : prod ≢ stage
differ = ground (arith, eq_iff prod stage)

on_prod-active : active on_prod ≡ prod ∷ []
unfolding single_context
on_prod-active = active-set_selected_context code_points 1 (some prod) started

both_named : includes "" (stage ∷ prod ∷ []) ≡ false
unfolding includes
both_named = refl

clean : includes "" (active on_prod) ≡ false
unfolding includes
clean = rw on_prod-active refl

single : IsCanonical code_points (active on_prod)
unfolding single_context
single = rw on_prod-active (single-IsCanonical code_points (some prod))

active-toggle_aggregated_context_example :
    ((a : String)
      → includes a (active (toggle_aggregated_context code_points stage on_prod)) ≡ (
          if stage == a
          then not (includes stage (active on_prod))
          else includes a (active on_prod)))
    × IsCanonical code_points (active (toggle_aggregated_context code_points stage on_prod))
active-toggle_aggregated_context_example =
    active-toggle_aggregated_context code_points stage on_prod other_named clean single

namespaces-after_return_example :
    shown (
      set_selected_context code_points 3 (some prod) (
        set_selected_context code_points 2
          (some stage)
          (set_selected_namespaces code_points ("web" ∷ "db" ∷ []) on_prod)))
    ≡ dedupe_sorted code_points ("web" ∷ "db" ∷ [])
namespaces-after_return_example =
    namespaces-after_return code_points 2 3 prod stage ("web" ∷ "db" ∷ []) on_prod named other_named
      differ on_prod-active

-- The key of a set of contexts does not depend on their order, and the choice is sorted.
sorted_choice : dedupe_sorted code_points ("web" ∷ "db" ∷ "web" ∷ []) ≡ "db" ∷ "web" ∷ []
unfolding dedupe_sorted code_le
sorted_choice = refl
