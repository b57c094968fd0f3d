-- ===== src/TablePrefs.antt =====
-- store/tablePrefs.ts: the columns' order, visibility, widths and sorting, by kind of resource.
pub mod Actions
mod Laws
mod Tests
use klustr.Prelude.{ℕ, String, Bool, Option, none, some, List, [], ◌∷◌, or_else}
use klustr.Dict
use klustr.Dict.{Dict}

pub record SortRule : Type 0 where
  pub id : String
  pub desc : Bool

-- `sorting` is `none` where the kind was never sorted.
pub record ColumnPrefs : Type 0 where
  pub order : List String
  pub hidden : List String
  pub sizing : Dict ℕ
  pub sorting : Option (List SortRule)

abbrev pub Prefs : Type 0
Prefs = Dict ColumnPrefs

abbrev pub no_prefs : ColumnPrefs
no_prefs = record { order = []; hidden = []; sizing = []; sorting = none }

unfoldable pub prefs_for : Prefs → String → ColumnPrefs
prefs_for by_kind kind = or_else (Dict.get by_kind kind) no_prefs

unfoldable pub select_prefs : String → Prefs → ColumnPrefs
select_prefs kind by_kind = or_else (Dict.get by_kind kind) no_prefs

unfoldable pub set_order : String → List String → Prefs → Prefs
set_order kind order by_kind =
    Dict.put by_kind kind (record (prefs_for by_kind kind) { order = order })

unfoldable pub set_hidden : String → List String → Prefs → Prefs
set_hidden kind hidden by_kind =
    Dict.put by_kind kind (record (prefs_for by_kind kind) { hidden = hidden })

unfoldable pub set_sizing : String → Dict ℕ → Prefs → Prefs
set_sizing kind sizing by_kind =
    Dict.put by_kind kind (record (prefs_for by_kind kind) { sizing = sizing })

unfoldable pub set_sorting : String → List SortRule → Prefs → Prefs
set_sorting kind sorting by_kind =
    Dict.put by_kind kind (record (prefs_for by_kind kind) { sorting = some sorting })

unfoldable pub reset : String → Prefs → Prefs
reset kind by_kind = Dict.remove by_kind kind
