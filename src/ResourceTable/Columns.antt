-- ===== src/ResourceTable/Columns.antt =====
-- features/_shared/ResourceTable.tsx: the order, the visibility and the sorting of the columns.
pub mod Laws
use klustr.Prelude.{
  ℕ, zero, suc, String, Bool, true, false, not, ◌&&◌, ◌||◌, Option, none, some, List, [], ◌∷◌, ◌++◌,
  ◌==◌, if◌then◌else◌, eqb, or_else, length, keep, includes,
}
use klustr.Dict
use klustr.Dict.{Dict}
use klustr.TablePrefs.{Prefs, ColumnPrefs, SortRule, set_order, set_hidden}

abbrev pub context_column : String
context_column = "klustrContext"

-- `c.id`, else `c.accessorKey`, else the empty text; a field that is the empty text counts as missing.
unfoldable pub column_id : Option String → Option String → String
column_id (some id) key = if id == "" then or_else key "" else id
column_id none key = or_else key ""

-- `sizingEqual`: as many keys, and the same width for each key of the first.
abbrev pub same_width : Option ℕ → Option ℕ → Bool
same_width none none = true
same_width (some m) (some n) = eqb m n
same_width _ _ = false

abbrev pub same_widths : Dict ℕ → Dict ℕ → List String → Bool
same_widths a b [] = true
same_widths a b (k ∷ ks) = same_width (Dict.get a k) (Dict.get b k) && same_widths a b ks

unfoldable pub sizing_equal : Dict ℕ → Dict ℕ → Bool
unfolding Dict.get Dict.keys
sizing_equal a b =
    if not (eqb (length (Dict.keys a)) (length (Dict.keys b)))
    then false
    else same_widths a b (Dict.keys a)

-- The first loop of `mergeOrder`: `seen` holds the names of `result`.
unfoldable pub take_saved : List String → List String → List String → List String
unfolding includes
take_saved all [] result = result
take_saved all (id ∷ saved) result =
    take_saved all saved
      (if includes id all && not (includes id result) then result ++ id ∷ [] else result)

unfoldable pub merge_order : List String → List String → List String
unfolding take_saved includes
merge_order all saved =
    let seen = take_saved all saved [] in seen ++ keep (λ id. not (includes id seen)) all

-- The identifiers of `tableColumns`
abbrev pub all_column_ids : Bool → List String → List String
all_column_ids is_aggregated base = if is_aggregated then context_column ∷ base else base

unfoldable pub column_order : Bool → List String → List String → List String
column_order is_aggregated all_ids saved =
    if not is_aggregated || includes context_column saved
    then merge_order all_ids saved
    else context_column ∷ merge_order (keep (λ id. not (id == context_column)) all_ids) saved

-- `columnVisibility`, as the list of its entries
unfoldable pub column_visibility : List String → List String → Dict Bool → Dict Bool
unfolding includes
column_visibility [] hidden v = v
column_visibility (id ∷ ids) hidden v =
    column_visibility ids hidden (Dict.put v id (not (includes id hidden)))

-- `Object.entries(next).filter(([, v]) => v === false).map(([k]) => k)`
unfoldable pub hidden_ids : Dict Bool → List String
hidden_ids [] = []
hidden_ids ((k, v) ∷ next) = if v then hidden_ids next else k ∷ hidden_ids next

unfoldable pub on_column_visibility_change : String → Dict Bool → Prefs → Prefs
unfolding hidden_ids set_hidden
on_column_visibility_change kind next prefs = set_hidden kind (hidden_ids next) prefs

abbrev pub keep_rules : List String → List SortRule → List SortRule
keep_rules ids rules = keep (λ (s : SortRule). includes s.id ids) rules

-- `prefs?.sorting ?? defaultSort ?? [{ id: 'name', desc: false }]`
unfoldable pub sorting :
    Option (List SortRule) → Option (List SortRule) → List String → List SortRule
sorting saved default_sort ids =
    keep_rules ids
      (or_else saved (or_else default_sort (record { id = "name"; desc = false } ∷ [])))

-- `ids.indexOf(id)`
unfoldable pub index_of : String → List String → Option ℕ
index_of id [] = none
index_of id (x ∷ xs) =
    let later : Option ℕ = elim (index_of id xs) [ none ↦ none | some i ↦ some (suc i) ] in
    if x == id then some zero else later

-- `next.splice(i, 1)`
unfoldable pub remove_at : ℕ → List String → List String
remove_at i [] = []
remove_at zero (x ∷ xs) = xs
remove_at (suc i) (x ∷ xs) = x ∷ remove_at i xs

-- `next.splice(i, 0, id)`, which inserts at the end where the list is shorter
unfoldable pub insert_at : ℕ → String → List String → List String
insert_at zero id xs = id ∷ xs
insert_at (suc i) id [] = id ∷ []
insert_at (suc i) id (x ∷ xs) = x ∷ insert_at i id xs

abbrev pub moved : String → List String → Option ℕ → Option ℕ → Option (List String)
moved dragged ids (some from) (some to) = some (insert_at to dragged (remove_at from ids))
moved dragged ids _ _ = none

-- The order that a drop stores, if it stores one.
abbrev pub dropped : Option String → String → List String → Option (List String)
dropped none target ids = none
dropped (some dragged) target ids =
    if dragged == "" || dragged == target
    then none
    else moved dragged ids (index_of dragged ids) (index_of target ids)

abbrev pub store_order : String → Option (List String) → Prefs → Prefs
store_order kind none prefs = prefs
store_order kind (some next) prefs = set_order kind next prefs

-- `onDrop` on the header of the column `target`, where `ids` are the columns as they stand
unfoldable pub on_drop : String → Option String → String → List String → Prefs → Prefs
unfolding index_of remove_at insert_at set_order
on_drop kind drag_col target ids prefs = store_order kind (dropped drag_col target ids) prefs
