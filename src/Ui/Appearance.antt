-- ===== src/Ui/Appearance.antt =====
-- store/ui.ts and store/ui.persistence.ts: the theme, which follows the system until the user picks
-- one, and the read-only switch.
pub mod Classes
use klustr.Prelude.{
  String, Bool, true, false, Option, none, some, List, [], ◌∷◌, ◌++◌, ◌==◌, if◌then◌else◌, includes,
  without,
}
use klustr.Ui.Themes.{
  ThemeMode, light, dark, ThemeDefinition, default_dark, default_light, theme_css_classes,
  get_theme,
}
use klustr.Ui.Persistence.{persist_theme_id, persist_global_read_only}
use klustr.Ui.State.{UiState, World}

-- `classList.toggle(cls, on)`
unfoldable pub toggle_class : String → Bool → List String → List String
toggle_class cls true classes = if includes cls classes then classes else classes ++ cls ∷ []
toggle_class cls false classes = without cls classes

abbrev pub is_dark : ThemeMode → Bool
is_dark dark = true
is_dark light = false

-- `theme.cssClass === cls`
abbrev pub has_class : Option String → String → Bool
has_class none cls = false
has_class (some c) cls = c == cls

-- the loop of `applyThemeClasses`
unfoldable pub toggle_classes : Option String → List String → List String → List String
unfolding toggle_class
toggle_classes css_class [] classes = classes
toggle_classes css_class (cls ∷ rest) classes =
    toggle_classes css_class rest (toggle_class cls (has_class css_class cls) classes)

unfoldable pub apply_theme_classes : ThemeDefinition → List String → List String
unfolding toggle_classes
apply_theme_classes theme classes =
    toggle_classes theme.css_class theme_css_classes
      (toggle_class "dark" (is_dark theme.mode) classes)

-- Once a theme is picked, the listener for the system's changes is removed.
unfoldable pub set_theme : String → World → World
set_theme id w = record w {
  ui = record w.ui { theme_id = id };
  storage = persist_theme_id id w.storage;
  root_classes = apply_theme_classes (get_theme id) w.root_classes;
  following_system = false;
}

abbrev system_theme : Bool → String
system_theme true = default_dark
system_theme false = default_light

-- `onSystemChange`, an event of the browser that is heard only while the listener is installed
unfoldable pub on_system_change : Bool → World → World
on_system_change matches w =
    if w.following_system
    then record w {
      ui = record w.ui { theme_id = system_theme matches };
      root_classes = apply_theme_classes (get_theme (system_theme matches)) w.root_classes;
    }
    else w

unfoldable pub set_global_read_only : Bool → World → World
set_global_read_only value w = record w {
  ui = record w.ui { global_read_only = value };
  storage = persist_global_read_only value w.storage;
}
