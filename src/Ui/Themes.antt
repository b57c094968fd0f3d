-- ===== src/Ui/Themes.antt =====
-- features/_shared/themes.ts: the theme table. Labels and colours are left out.
use klustr.Prelude.{String, Bool, Option, none, some, List, [], ◌∷◌, ◌==◌, if◌then◌else◌, any}

pub data ThemeMode : Type 0 where
  light dark : ThemeMode

pub record ThemeDefinition : Type 0 where
  pub id : String
  pub mode : ThemeMode
  pub css_class : Option String

abbrev pub default_light : String
default_light = "default-light"

abbrev pub default_dark : String
default_dark = "default-dark"

theme : String → ThemeMode → Option String → ThemeDefinition
theme id mode css_class = record { id = id; mode = mode; css_class = css_class }

-- `THEMES[0]`, and the others
unfoldable pub first_theme : ThemeDefinition
unfolding theme
first_theme = theme "default-light" light none

unfoldable pub themes : List ThemeDefinition
unfolding theme first_theme
themes =
    first_theme
    ∷ theme "dracula-light" light (some "theme-dracula-light")
    ∷ theme "monokai-light" light (some "theme-monokai-light")
    ∷ theme "nord-light" light (some "theme-nord-light")
    ∷ theme "tokyo-night-day" light (some "theme-tokyo-night-day")
    ∷ theme "one-light" light (some "theme-one-light")
    ∷ theme "default-dark" dark none
    ∷ theme "dracula" dark (some "theme-dracula")
    ∷ theme "monokai" dark (some "theme-monokai")
    ∷ theme "nord" dark (some "theme-nord")
    ∷ theme "tokyo-night" dark (some "theme-tokyo-night")
    ∷ theme "one-dark" dark (some "theme-one-dark")
    ∷ []

css_classes_of : List ThemeDefinition → List String
css_classes_of [] = []
css_classes_of (t ∷ ts) = elim t.css_class [
  | none ↦ css_classes_of ts
  | some c ↦ c ∷ css_classes_of ts
]

unfoldable pub theme_css_classes : List String
unfolding css_classes_of themes
theme_css_classes = css_classes_of themes

-- `THEMES.find((t) => t.id === id)`
unfoldable pub find_theme : String → List ThemeDefinition → Option ThemeDefinition
find_theme id [] = none
find_theme id (t ∷ ts) = if t.id == id then some t else find_theme id ts

unfoldable pub get_theme : String → ThemeDefinition
unfolding find_theme themes
get_theme id = elim (find_theme id themes) [ none ↦ first_theme | some t ↦ t ]

-- `isThemeId` on a string
unfoldable pub is_theme_id : String → Bool
unfolding themes
is_theme_id value = any (λ t. t.id == value) themes
