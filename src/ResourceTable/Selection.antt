-- ===== src/ResourceTable/Selection.antt =====
-- features/_shared/ResourceTable.tsx: the rows that are ticked.
pub mod Laws
use Prim.Native.String as Str
use klustr.Prelude.{
  ℕ, String, Bool, true, false, not, ◌&&◌, Option, none, some, List, [], ◌∷◌, ◌++◌, ◌==◌,
  if◌then◌else◌, ltb, length, or_else, all, includes, without,
}

-- What the table reads of a visible row: its context, its namespace and its name.
pub record VisibleRow : Type 0 where
  pub ctx : String
  pub namespace : Option String
  pub name : Option String

-- features/_shared/BulkActionDialogs.tsx: a resource of a bulk action.
pub record BulkItem : Type 0 where
  pub context_name : String
  pub kind : String
  pub namespace : String
  pub name : String

unfoldable pub identity_key : String → Option String → Option String → String
identity_key ctx namespace name =
    Str.◌++◌ ctx (Str.◌++◌ "/" (Str.◌++◌ (or_else namespace "") (Str.◌++◌ "/" (or_else name ""))))

abbrev pub key_of : VisibleRow → String
key_of row = identity_key row.ctx row.namespace row.name

-- `ident.name`, where it is not empty
abbrev pub has_name : VisibleRow → Bool
has_name row = not (or_else row.name "" == "")

unfoldable pub visible_keys : List VisibleRow → List String
visible_keys [] = []
visible_keys (row ∷ rows) =
    let rest = visible_keys rows in if has_name row then key_of row ∷ rest else rest

abbrev pub item_of : String → VisibleRow → BulkItem
item_of kind row = record {
  context_name = row.ctx;
  kind = kind;
  namespace = or_else row.namespace "";
  name = or_else row.name "";
}

unfoldable pub selected_items : String → List String → List VisibleRow → List BulkItem
selected_items kind selected_keys [] = []
selected_items kind selected_keys (row ∷ rows) =
    let rest = selected_items kind selected_keys rows in
    if has_name row && includes (key_of row) selected_keys then item_of kind row ∷ rest else rest

unfoldable pub all_visible_selected : List String → List String → Bool
unfolding includes
all_visible_selected selected_keys keys =
    ltb 0 (length keys) && all (λ k. includes k selected_keys) keys

-- The set `next` is kept as a list, in the order of ticking.
unfoldable pub toggle_row : String → List String → List String
unfolding includes without
toggle_row key prev = if includes key prev then without key prev else prev ++ key ∷ []

unfoldable pub delete_all : List String → List String → List String
unfolding without
delete_all [] next = next
delete_all (k ∷ keys) next = delete_all keys (without k next)

unfoldable pub add_all : List String → List String → List String
unfolding includes
add_all [] next = next
add_all (k ∷ keys) next = add_all keys (if includes k next then next else next ++ k ∷ [])

unfoldable pub toggle_all_visible : List String → List String → List String
unfolding all_visible_selected delete_all add_all
toggle_all_visible keys prev =
    if all_visible_selected prev keys then delete_all keys prev else add_all keys prev
