-- ===== src/ResourceTable/Tests.antt =====
-- Tests of the table, and the theorems at concrete inputs.
use klustr.Prelude.{
  keep, String, true, false, Option, none, some, List, length, arith, eq_iff, includes, Distinct,
  All, refl, ◌≡◌, ◌==◌, ◌++◌, ◌∷◌, ◌+◌, ◌<◌, [], if◌then◌else◌,
}
use klustr.ResourceTable.Rows.Laws.{is_in_one_of, stored_rows, merged_data-keep}
use klustr.ResourceTable.Bulk.Outcomes.{failures, run_all_lem}
use klustr.ResourceTable.Bulk.Confirmation.{IsOtherText, requested-dismiss, requested-finish}
use klustr.ResourceTable.Columns.{
  all_column_ids, column_id, column_visibility, dropped, hidden_ids, index_of, insert_at,
  merge_order, remove_at, sizing_equal, sorting,
}
use klustr.ResourceTable.Rows.{Scope, merged_data}
use klustr.ResourceTable.Selection.{BulkItem, VisibleRow, identity_key, selected_items}
use klustr.ResourceTable.Bulk.{
  BulkAction, DeleteDialog, DialogEvent, Settled, TableView, Toast, handle, handle_all, items_of,
  kind_label, preview, report_outcome, run_all, strip_ed,
}
use klustr.Resources.{ByContext}
use klustr.Dict
use klustr.Dict.{Dict, get, put}

abbrev base : List String
base = "name" ∷ "namespace" ∷ "age" ∷ []

abbrev saved : List String
saved = "age" ∷ "gone" ∷ "name" ∷ "age" ∷ []

base-Distinct : Distinct (all_column_ids true base)
unfolding includes
base-Distinct = (refl, (refl, (refl, (refl, tt))))

-- The saved order first, as far as its columns exist, and then the new columns.
order_of_saved : merge_order base saved ≡ "age" ∷ "name" ∷ "namespace" ∷ []
unfolding merge_order includes
order_of_saved = refl

abbrev dropped_order : List String
dropped_order = "age" ∷ "name" ∷ "namespace" ∷ []

dropped_first : dropped (some "age") "name" base ≡ some dropped_order
unfolding index_of remove_at insert_at
dropped_first = refl

alone-Distinct : Distinct base
unfolding includes
alone-Distinct = (refl, (refl, (refl, tt)))

id_by_key : column_id none (some "status") ≡ "status"
unfolding column_id
id_by_key = refl

widths_differ : sizing_equal (("name", 90) ∷ []) (("name", 80) ∷ []) ≡ false
unfolding sizing_equal Dict.get
widths_differ = refl

hidden_columns : hidden_ids (column_visibility base ("age" ∷ []) []) ≡ "age" ∷ []
unfolding hidden_ids column_visibility Dict.put includes
hidden_columns = refl

sorted_by_name : sorting none none base ≡ record { id = "name"; desc = false } ∷ []
unfolding sorting includes
sorted_by_name = refl

-- An item is the name of its namespace.
abbrev namespace_of_item : String → Option String
namespace_of_item item = some item

abbrev listed : ByContext String
listed = ("prod", "shop" ∷ "jobs" ∷ "web" ∷ []) ∷ []

abbrev two : List String
two = "shop" ∷ "web" ∷ []

abbrev prod_only : List String
prod_only = "prod" ∷ []

abbrev row : String → VisibleRow
row name = record { ctx = "prod"; namespace = some "shop"; name = some name }

abbrev rows : List VisibleRow
rows = row "web" ∷ row "db" ∷ []

abbrev ticked : List String
ticked = "prod/shop/web" ∷ "prod/shop/hidden" ∷ []

abbrev web_item : BulkItem
web_item = record { context_name = "prod"; kind = "Pod"; namespace = "shop"; name = "web" }

taken : selected_items "Pod" ticked rows ≡ web_item ∷ []
unfolding selected_items identity_key includes
taken = refl

abbrev both_names : List String
both_names = "web" ∷ "db" ∷ []

abbrev refuse_web : String → Settled
refuse_web name = if name == "web" then some "forbidden" else none

-- The message about a failed deletion leaves out a letter.
abbrev failed_toast : Toast
failed_toast = Toast.error "Failed to delet 2 pods"

failed_text : report_outcome BulkAction.deleted 0 2 "pods" ≡ failed_toast
unfolding report_outcome strip_ed
failed_text = refl

two_pods : kind_label (λ s. s) (web_item ∷ web_item ∷ []) ≡ "Pods"
unfolding kind_label
two_pods = refl

short_preview : preview rows ≡ (rows, 0)
unfolding preview
short_preview = refl

abbrev view : TableView
view = record { kind = "Pod"; rows = rows; read_only = false }

abbrev deleting : DeleteDialog
deleting = record {
  selected_keys = ticked;
  is_open = true;
  typed = "DELETE";
  is_pending = true;
  forgotten = 0;
  requested = web_item ∷ [];
}

abbrev clicks : List (TableView × DialogEvent)
clicks =
    (view, DialogEvent.click_delete)
    ∷ (view, DialogEvent.type_text "delete")
    ∷ (view, DialogEvent.confirm)
    ∷ (view, DialogEvent.finish_forgotten)
    ∷ []

clicks_other : All IsOtherText clicks
clicks_other = (tt, (ground (arith, eq_iff "delete" "DELETE"), (tt, (tt, tt))))

ticked_some : 0 < length (items_of view (record deleting { selected_keys = ticked }))
unfolding selected_items identity_key includes
ticked_some = omega arith

merged_data-keep_example :
    merged_data namespace_of_item Scope.namespaced two prod_only listed
    ≡ keep (is_in_one_of namespace_of_item two) (stored_rows namespace_of_item prod_only listed)
merged_data-keep_example = merged_data-keep namespace_of_item two prod_only listed (omega arith)

run_all_lem_example :
    ((run_all both_names refuse_web).failed ≡ failures refuse_web both_names)
    × ((run_all both_names refuse_web).ok + length (run_all both_names refuse_web).failed
        ≡ length both_names)
run_all_lem_example = run_all_lem refuse_web both_names

requested-dismiss_example :
    (handle_all clicks (handle view DialogEvent.dismiss deleting)).requested ≡ deleting.requested
requested-dismiss_example = requested-dismiss view deleting clicks refl clicks_other

requested-finish_example :
    (handle_all
      ((view, DialogEvent.finish)
        ∷ (view, DialogEvent.tick ticked)
        ∷ (view, DialogEvent.click_delete)
        ∷ (view, DialogEvent.confirm)
        ∷ [])
      deleting).requested
    ≡ deleting.requested ++ items_of view (record deleting { selected_keys = ticked })
requested-finish_example = requested-finish view deleting ticked refl refl refl ticked_some
