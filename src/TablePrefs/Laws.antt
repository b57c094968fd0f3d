-- ===== src/TablePrefs/Laws.antt =====
-- The preferences of a kind after each operation of store/tablePrefs.ts.
use klustr.Prelude.{String, ◌≡◌, some, arith, ◌==◌, if◌then◌else◌, or_else}
use klustr.Dict
use klustr.Dict.{Dict, get-put, get-remove}
use klustr.TablePrefs
use klustr.TablePrefs.Actions.{PrefsAction, act}
use klustr.TablePrefs.{Prefs, ColumnPrefs, no_prefs, select_prefs}

-- The kind that an operation is about, and what becomes of that kind's preferences.
abbrev pub kind_of : PrefsAction → String
kind_of (PrefsAction.set_order kind order) = kind
kind_of (PrefsAction.set_hidden kind hidden) = kind
kind_of (PrefsAction.set_sizing kind sizing) = kind
kind_of (PrefsAction.set_sorting kind sorting) = kind
kind_of (PrefsAction.reset kind) = kind

abbrev pub changed : PrefsAction → ColumnPrefs → ColumnPrefs
changed (PrefsAction.set_order kind order) p = record p { order = order }
changed (PrefsAction.set_hidden kind hidden) p = record p { hidden = hidden }
changed (PrefsAction.set_sizing kind sizing) p = record p { sizing = sizing }
changed (PrefsAction.set_sorting kind sorting) p = record p { sorting = some sorting }
changed (PrefsAction.reset kind) p = no_prefs

select-put :
    (p : Prefs) (k kind : String) (v : ColumnPrefs)
    → or_else (Dict.get (Dict.put p k v) kind) no_prefs
      ≡ (if k == kind then v else or_else (Dict.get p kind) no_prefs)
select-put p k kind v = ground (arith, get-put p k kind v)

-- After an operation, its kind has the preferences that it had with the one field changed, or the
-- defaults after a reset, and every other kind has what it had.
pub select_prefs-act :
    (a : PrefsAction) (p : Prefs) (kind : String)
    → select_prefs kind (act a p)
      ≡ (if kind_of a == kind then changed a (select_prefs (kind_of a) p) else select_prefs kind p)
unfolding act select_prefs TablePrefs.set_order TablePrefs.set_hidden TablePrefs.set_sizing
    TablePrefs.set_sorting TablePrefs.reset TablePrefs.prefs_for
select_prefs-act (PrefsAction.set_order k order) p kind = select-put p k kind _
select_prefs-act (PrefsAction.set_hidden k hidden) p kind = select-put p k kind _
select_prefs-act (PrefsAction.set_sizing k sizing) p kind = select-put p k kind _
select_prefs-act (PrefsAction.set_sorting k sorting) p kind = select-put p k kind _
select_prefs-act (PrefsAction.reset k) p kind = ground (arith, get-remove p k kind)
