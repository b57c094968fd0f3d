-- ===== src/Ui/Appearance/Classes.antt =====
-- The classes of the page's root after a theme is set, from store/ui.ts and its persistence.
use klustr.Prelude.{
  String, ◌≡◌, refl, ◌∙◌, ap, Bool, true, false, Option, List, [], ◌∷◌, ◌==◌, arith, eq_iff,
  if◌then◌else◌, includes, includes-append, includes-without,
}
use klustr.Ui.Themes.{theme_css_classes, get_theme}
use klustr.Ui.State.{World}
use klustr.Ui.Appearance.{
  toggle_class, is_dark, has_class, toggle_classes, apply_theme_classes, set_theme,
  on_system_change,
}

includes-toggle_class :
    (c cls : String) (on : Bool) (classes : List String)
    → includes c (toggle_class cls on classes) ≡ (if cls == c then on else includes c classes)
unfolding toggle_class includes
includes-toggle_class c cls true classes =
    ground (arith, includes-append c classes (cls ∷ []), eq_iff cls c)
includes-toggle_class c cls false classes = ground (arith, includes-without c cls classes)

includes-toggle_classes :
    (css_class : Option String) (c : String) (cs classes : List String)
    → includes c (toggle_classes css_class cs classes)
      ≡ (if includes c cs then has_class css_class c else includes c classes)
unfolding toggle_classes includes
includes-toggle_classes css c [] classes = refl
includes-toggle_classes css c (cls ∷ cs) classes =
    let next = toggle_class cls (has_class css cls) classes in
    includes-toggle_classes css c cs next
    ∙ ground (arith, includes-toggle_class c cls (has_class css cls) classes, eq_iff cls c)

-- After a theme is set the page has, of the themes' classes, just the one of that theme, has "dark"
-- just if the theme is dark, and keeps or lacks every other class as before; and a later change of
-- the system's preference changes nothing.
pub classes-set_theme :
    (id : String) (w : World)
    → ((c : String)
        → includes c (set_theme id w).root_classes ≡ (
            if includes c theme_css_classes
            then has_class (get_theme id).css_class c
            else if "dark" == c
            then is_dark (get_theme id).mode
            else includes c w.root_classes))
      × ((matches : Bool) → on_system_change matches (set_theme id w) ≡ set_theme id w)
unfolding set_theme apply_theme_classes on_system_change
classes-set_theme id w = (
  λ c.
      includes-toggle_classes (get_theme id).css_class c theme_css_classes _
      ∙ ap (λ b. if includes c theme_css_classes then has_class (get_theme id).css_class c else b)
          (includes-toggle_class c "dark" (is_dark (get_theme id).mode) w.root_classes),
  λ matches. refl,
)
