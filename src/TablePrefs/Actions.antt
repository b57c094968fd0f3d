-- ===== src/TablePrefs/Actions.antt =====
-- The operations of store/tablePrefs.ts as data.
use klustr.Prelude.{ℕ, String, List}
use klustr.Dict.{Dict}
use klustr.TablePrefs
use klustr.TablePrefs.{Prefs, SortRule}

pub data PrefsAction : Type 0 where
  set_order : String → List String → PrefsAction
  set_hidden : String → List String → PrefsAction
  set_sizing : String → Dict ℕ → PrefsAction
  set_sorting : String → List SortRule → PrefsAction
  reset : String → PrefsAction

unfoldable pub act : PrefsAction → Prefs → Prefs
act (PrefsAction.set_order kind order) p = TablePrefs.set_order kind order p
act (PrefsAction.set_hidden kind hidden) p = TablePrefs.set_hidden kind hidden p
act (PrefsAction.set_sizing kind sizing) p = TablePrefs.set_sizing kind sizing p
act (PrefsAction.set_sorting kind sorting) p = TablePrefs.set_sorting kind sorting p
act (PrefsAction.reset kind) p = TablePrefs.reset kind p
