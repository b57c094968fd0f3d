-- ===== src/ResourceTable/Bulk.antt =====
-- features/_shared/BulkActionDialogs.tsx: deleting and restarting the resources that are ticked.
pub mod Outcomes
pub mod Confirmation
use Prim.Native.String as Str
use klustr.Prelude.{
  ℕ, zero, suc, ◌+◌, ◌-◌, String, Bool, true, false, not, ◌&&◌, Option, none, some, List, [], ◌∷◌,
  ◌++◌, ◌==◌, if◌then◌else◌, eqb, leb, ltb, length, take, map, get_elem?, dedupe, includes,
}
use klustr.Prelude.Numerals.{decimal}
use klustr.ResourceTable.Selection.{BulkItem, VisibleRow, selected_items}

abbrev pub preview_limit : ℕ
preview_limit = 8

unfoldable pub preview : {T : Type 0} → List T → List T × ℕ
preview items =
    if leb (length items) preview_limit
    then (items, 0)
    else (take preview_limit items, length items - preview_limit)

abbrev first_kind : List BulkItem → String
first_kind [] = ""
first_kind (i ∷ is) = i.kind

-- `lower` is `toLowerCase`.
unfoldable pub kind_label : (String → String) → List BulkItem → String
unfolding dedupe
kind_label lower [] = "resource"
kind_label lower (i ∷ is) =
    if eqb (length (dedupe (map (λ (i : BulkItem). i.kind) (i ∷ is)))) 1
    then (if eqb (length (i ∷ is)) 1 then lower i.kind else Str.◌++◌ (lower i.kind) "s")
    else "resources"

-- The promise of an operation settles: `none` is success.
abbrev pub Settled : Type 0
Settled = Option String

pub record Failure (T : Type 0) : Type 0 where
  pub item : Option T
  pub err : String

pub record Outcome (T : Type 0) : Type 0 where
  pub ok : ℕ
  pub failed : List (Failure T)

module _ {T : Type 0} where
  -- The body of `results.forEach`; `items[idx]` is `none` where there is no such item.
  abbrev pub tally_one : List T → Settled → ℕ → Outcome T → Outcome T
  tally_one items none idx out = record out { ok = out.ok + 1 }
  tally_one items (some err) idx out = record out {
    failed = out.failed ++ record { item = get_elem? items idx; err = err } ∷ [];
  }

  unfoldable pub tally : List T → List Settled → ℕ → Outcome T → Outcome T
  tally items [] idx out = out
  tally items (r ∷ results) idx out = tally items results (idx + 1) (tally_one items r idx out)

  unfoldable pub run_all : List T → (T → Settled) → Outcome T
  unfolding tally
  run_all items op = tally items (map op items) 0 (record { ok = 0; failed = [] })

pub data BulkAction : Type 0 where
  deleted : BulkAction
  restarted : BulkAction

abbrev action_name : BulkAction → String
action_name BulkAction.deleted = "Deleted"
action_name BulkAction.restarted = "Restarted"

-- `action.toLowerCase()`
abbrev action_lower : BulkAction → String
action_lower BulkAction.deleted = "deleted"
action_lower BulkAction.restarted = "restarted"

-- `.replace(/ed$/, '')`
unfoldable pub strip_ed : String → String
strip_ed Str.[] = Str.[]
strip_ed (Str.◌∷◌ c s) = if Str.◌∷◌ c s == "ed" then "" else Str.◌∷◌ c (strip_ed s)

pub data Toast : Type 0 where
  success : String → Toast
  error : String → Toast
  warning : String → Toast

abbrev spaced : String → String → String → String
spaced a b c = Str.◌++◌ a (Str.◌++◌ " " (Str.◌++◌ b (Str.◌++◌ " " c)))

unfoldable pub report_outcome : BulkAction → ℕ → ℕ → String → Toast
unfolding strip_ed decimal
report_outcome action ok failed label =
    if eqb failed 0
    then success (spaced (action_name action) (decimal ok) label)
    else if eqb ok 0
    then error
        (Str.◌++◌ "Failed to " (spaced (strip_ed (action_lower action)) (decimal failed) label))
    else warning (
        Str.◌++◌ (spaced (action_name action) (decimal ok) label)
          (Str.◌++◌ " — " (Str.◌++◌ (decimal failed) " failed")))

-- The table at one moment, as far as the dialog reads it.
pub record TableView : Type 0 where
  pub kind : String
  pub rows : List VisibleRow
  pub read_only : Bool

-- The dialog for deleting, which stays mounted while it is closed. `requested` are the resources whose
-- deletion was asked of the backend. `del.reset()` makes the dialog forget a deletion that is under
-- way, which goes on all the same: `forgotten` is the number of these.
pub record DeleteDialog : Type 0 where
  pub selected_keys : List String
  pub is_open : Bool
  pub typed : String
  pub is_pending : Bool
  pub forgotten : ℕ
  pub requested : List BulkItem

abbrev pub items_of : TableView → DeleteDialog → List BulkItem
items_of t d = selected_items t.kind d.selected_keys t.rows

abbrev pub is_confirmed : DeleteDialog → Bool
is_confirmed d = d.typed == "DELETE"

pub data DialogEvent : Type 0 where
  tick : List String → DialogEvent
  click_delete : DialogEvent
  type_text : String → DialogEvent
  dismiss : DialogEvent
  confirm : DialogEvent
  finish : DialogEvent
  finish_forgotten : DialogEvent

-- What an event does: the table's Delete button, the text field, closing by the user
-- (`onOpenChange(false)`), the confirming button, and the end of a deletion (`onSuccess`), of the one
-- that the dialog waits for or of one that it has forgotten.
unfoldable pub handle : TableView → DialogEvent → DeleteDialog → DeleteDialog
handle t (DialogEvent.tick keys) d = record d { selected_keys = keys }
handle t DialogEvent.click_delete d =
    if ltb 0 (length (items_of t d)) && not t.read_only then record d { is_open = true } else d
handle t (DialogEvent.type_text text) d = if d.is_open then record d { typed = text } else d
handle t DialogEvent.dismiss d =
    if d.is_open
    then record d {
      is_open = false;
      typed = "";
      is_pending = false;
      forgotten = if d.is_pending then d.forgotten + 1 else d.forgotten;
    }
    else d
handle t DialogEvent.confirm d =
    if d.is_open && is_confirmed d && not d.is_pending
    then record d { is_pending = true; requested = d.requested ++ items_of t d }
    else d
handle t DialogEvent.finish d =
    if d.is_pending then record d { is_pending = false; is_open = false; selected_keys = [] } else d
handle t DialogEvent.finish_forgotten d =
    if ltb 0 d.forgotten
    then record d { forgotten = d.forgotten - 1; is_open = false; selected_keys = [] }
    else d

unfoldable pub handle_all : List (TableView × DialogEvent) → DeleteDialog → DeleteDialog
unfolding handle
handle_all [] d = d
handle_all ((t, e) ∷ events) d = handle_all events (handle t e d)
