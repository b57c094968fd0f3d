-- ===== src/ResourceTable/Selection/Laws.antt =====
-- features/_shared/ResourceTable.tsx: what ticking all rows does, and what a bulk action then takes.
use klustr.Prelude.{
  String, ◌≡◌, refl, not, ◌&&◌, ◌||◌, List, [], ◌∷◌, ◌++◌, arith, eq_iff, if◌then◌else◌, map,
  includes, includes-without, includes-append, without, some,
}
use klustr.ResourceTable.Selection.{
  VisibleRow, BulkItem, identity_key, key_of, visible_keys, item_of, selected_items,
  all_visible_selected, delete_all, add_all, toggle_all_visible,
}

includes-delete_all :
    (k : String) (keys next : List String)
    → includes k (delete_all keys next) ≡ (not (includes k keys) && includes k next)
unfolding delete_all includes
includes-delete_all k [] next = ground arith
includes-delete_all k (j ∷ keys) next =
    ground (arith, includes-delete_all k keys (without j next), includes-without k j next)

includes-add_all :
    (k : String) (keys next : List String)
    → includes k (add_all keys next) ≡ (includes k keys || includes k next)
unfolding add_all includes
includes-add_all k [] next = ground arith
includes-add_all k (j ∷ keys) next = ground (
  arith,
  includes-add_all k keys (if includes j next then next else next ++ j ∷ []),
  includes-append k next (j ∷ []),
  eq_iff j k,
)

-- The box above the rows: where all visible rows are ticked it unticks them, and otherwise it ticks
-- them all; no other row changes.
pub includes-toggle_all_visible :
    (k : String) (keys prev : List String)
    → includes k (toggle_all_visible keys prev)
      ≡ (if includes k keys then not (all_visible_selected prev keys) else includes k prev)
unfolding toggle_all_visible
includes-toggle_all_visible k keys prev =
    ground (arith, includes-delete_all k keys prev, includes-add_all k keys prev)

-- The key under which the table knows a resource of a bulk action.
abbrev pub item_key : BulkItem → String
item_key item = identity_key item.context_name (some item.namespace) (some item.name)

item_key-item_of : (kind : String) (row : VisibleRow) → item_key (item_of kind row) ≡ key_of row
unfolding identity_key
item_key-item_of kind row = refl

-- A bulk action takes exactly the visible rows that are ticked: a row that is ticked and
-- hidden by the filter is not among them.
pub includes-selected_items :
    (kind : String) (selected : List String) (rows : List VisibleRow) (k : String)
    → includes k (map item_key (selected_items kind selected rows))
      ≡ (includes k (visible_keys rows) && includes k selected)
unfolding selected_items visible_keys includes
includes-selected_items kind selected [] k = refl
includes-selected_items kind selected (row ∷ rows) k = ground (
  arith,
  includes-selected_items kind selected rows k,
  item_key-item_of kind row,
  eq_iff (key_of row) k,
)
