-- ===== src/Ui/Actions/Restart/Tests.antt =====
-- A run of the UI store, and the start after it.
use klustr.Prelude.{true, false, none, some, List, [], ◌∷◌, ◌≡◌, refl, All, ◌++◌, includes}
use klustr.Dict
use klustr.Collation.CodePoints.{code_points}
use klustr.Storage.{Storage, read_text}
use klustr.Ui.Contexts.{set_default_context}
use klustr.Ui.Appearance.{set_global_read_only}
use klustr.Ui.Sidebar.{toggle_sidebar_mode, toggle_nav_group, toggle_label}
use klustr.Ui.Persistence.{
  persist_theme_id, persist_sidebar_mode, persist_collapsed_nav_groups, persist_default_context,
  persist_global_read_only,
}
use klustr.Ui.Persistence.Read.{read_sidebar_mode}
use klustr.Ui.Types.{icons, ContextGroup, CustomTagDef}
use klustr.Ui.Views.{nodes}
use klustr.Ui.Themes.{themes, is_theme_id}
use klustr.Prelude.Numerals.{pos}
use klustr.Ui.Fixtures.{no_json}
use klustr.Ui.Actions.{
  Action, act, run, boot, toggle_mode, toggle_nav, set_default, set_read_only, set_width,
  set_aggregated_contexts_to, set_namespaces, hide_item, upsert_group, add_tag, toggle_tag,
  pick_theme,
}
use klustr.Ui.Actions.Saved.{settings_of}
use klustr.Ui.Actions.Reachable.{IsInvariant}
use klustr.Ui.Actions.Sessions.{Session, IsStorableSession, left_by_all, run-boot-IsInvariant}
use klustr.Ui.Actions.Restart.{IsStorable, settings_of-boot-run}

abbrev themed : Storage
themed = persist_theme_id "nord" []

abbrev team : ContextGroup
team = record { id = "g1"; name = "Team"; contexts = "dev" ∷ "prod" ∷ "dev" ∷ []; color = "mauve" }

abbrev backend : CustomTagDef
backend = record { id = "be"; label = "Backend"; short_label = "BE"; color = "teal" }

abbrev clicks : List Action
clicks =
    toggle_nav "Workloads"
    ∷ toggle_mode
    ∷ set_default (some "prod")
    ∷ set_read_only true
    ∷ set_default none
    ∷ []

abbrev changes : List Action
changes =
    clicks
    ++ set_width (pos 1000)
      ∷ set_aggregated_contexts_to 5 ("prod" ∷ "dev" ∷ []) none
      ∷ set_namespaces ("web" ∷ [])
      ∷ hide_item nodes
      ∷ upsert_group team
      ∷ add_tag backend
      ∷ toggle_tag "dev" "be"
      ∷ pick_theme "dracula"
      ∷ []

changes-IsStorable : All IsStorable changes
unfolding includes is_theme_id themes
changes-IsStorable = (
  tt,
  (
    tt,
    (
      tt,
      (
        tt,
        (
          tt,
          (tt, (tt, (tt, (tt, ((λ e. absurd (cc)), (refl, ((λ e. absurd (cc)), (refl, tt)))))))),
        ),
      ),
    ),
  ),
)

-- The mode that was toggled is the mode of the next start.
mode_after :
    (boot no_json true 9
      (run code_points clicks (boot no_json false 0 themed [])).storage
      []).ui.sidebar_mode
    ≡ icons
unfolding boot run act toggle_nav_group toggle_label toggle_sidebar_mode set_default_context
    set_global_read_only persist_sidebar_mode persist_collapsed_nav_groups persist_default_context
    persist_global_read_only persist_theme_id read_sidebar_mode read_text Dict.get Dict.put
    Dict.remove
mode_after = refl

settings_of-boot-run_example :
    settings_of
      (boot no_json true 9 (run code_points changes (boot no_json false 0 themed [])).storage [])
    ≡ settings_of (run code_points changes (boot no_json false 0 themed []))
settings_of-boot-run_example =
    settings_of-boot-run no_json code_points false true 0 9 themed [] [] changes changes-IsStorable

-- Two sessions before this one.
abbrev history : List Session
history =
    record { prefers_dark = false; now = 0; classes = []; actions = changes }
    ∷ record { prefers_dark = true; now = 9; classes = []; actions = changes }
    ∷ []

history-IsStorable : All IsStorableSession history
history-IsStorable = (changes-IsStorable, (changes-IsStorable, tt))

run-boot-IsInvariant_example : IsInvariant code_points (
    run code_points changes (boot no_json false 20 (left_by_all no_json code_points history []) []))
run-boot-IsInvariant_example =
    run-boot-IsInvariant no_json code_points history false 20 [] changes history-IsStorable
