-- ===== src/ResourceTable/Bulk/Confirmation.antt =====
-- features/_shared/BulkActionDialogs.tsx: what has to be typed before resources are deleted.
use klustr.Prelude.{
  String, ◌≡◌, ◌≢◌, refl, ap, ◌∙◌, Bool-cases, inl, inr, true, false, List, [], ◌∷◌, ◌++◌, arith,
  eq_iff, ◌<◌, length, All,
}
use klustr.ResourceTable.Bulk.{TableView, DeleteDialog, items_of, DialogEvent, handle, handle_all}

-- An event by which the word is not typed.
abbrev pub IsOtherText : TableView × DialogEvent → Type 0
IsOtherText (t, DialogEvent.type_text text) = text ≢ "DELETE"
IsOtherText (t, e) = Unit

unconfirmed-handle :
    (t : TableView) (e : DialogEvent) (d : DeleteDialog)
    → IsOtherText (t, e)
    → d.typed ≢ "DELETE"
    → ((handle t e d).requested ≡ d.requested) × ((handle t e d).typed ≢ "DELETE")
unfolding handle
unconfirmed-handle t (DialogEvent.tick keys) d other h = (refl, h)
unconfirmed-handle t DialogEvent.click_delete d other h = ground arith
unconfirmed-handle t (DialogEvent.type_text text) d other h = elim (Bool-cases d.is_open) [
  | inl e ↦ ground arith
  | inr e ↦ ground arith
]
unconfirmed-handle t DialogEvent.dismiss d other h = ground (arith, eq_iff "" "DELETE")
unconfirmed-handle t DialogEvent.confirm d other h = ground (arith, eq_iff d.typed "DELETE")
unconfirmed-handle t DialogEvent.finish d other h = ground arith
unconfirmed-handle t DialogEvent.finish_forgotten d other h = ground arith

unconfirmed-handle_all :
    (events : List (TableView × DialogEvent)) (d : DeleteDialog)
    → All IsOtherText events
    → d.typed ≢ "DELETE"
    → (handle_all events d).requested ≡ d.requested
unfolding handle_all
unconfirmed-handle_all [] d others h = refl
unconfirmed-handle_all ((t, e) ∷ events) d (other, others) h =
    let (same, still) = unconfirmed-handle t e d other h in
    unconfirmed-handle_all events (handle t e d) others still ∙ same

-- Once the user has closed the dialog, no further deletion is asked for, whatever is clicked and typed and
-- whichever deletions end, as long as the text field is not made to hold DELETE again.
pub requested-dismiss :
    (t : TableView) (d : DeleteDialog) (events : List (TableView × DialogEvent))
    → d.is_open ≡ true
    → All IsOtherText events
    → (handle_all events (handle t DialogEvent.dismiss d)).requested ≡ d.requested
unfolding handle
requested-dismiss t d events is_open others =
    unconfirmed-handle_all events (handle t DialogEvent.dismiss d) others
      (ground (arith, eq_iff "" "DELETE"))
    ∙ (ground arith)

-- After a deletion has ended, the confirmation is still there: ticking rows, opening the dialog and
-- confirming deletes them with nothing typed.
pub requested-finish :
    (t : TableView) (d : DeleteDialog) (keys : List String)
    → d.is_pending ≡ true
    → d.typed ≡ "DELETE"
    → t.read_only ≡ false
    → 0 < length (items_of t (record d { selected_keys = keys }))
    → (handle_all
        ((t, DialogEvent.finish)
          ∷ (t, DialogEvent.tick keys)
          ∷ (t, DialogEvent.click_delete)
          ∷ (t, DialogEvent.confirm)
          ∷ [])
        d).requested
      ≡ d.requested ++ items_of t (record d { selected_keys = keys })
unfolding handle_all
requested-finish t d keys pending typed writable ticked =
    let d1 = record d { is_pending = false; is_open = false; selected_keys = [] } in
    let d2 = record d1 { selected_keys = keys } in
    let d3 = record d2 { is_open = true } in
    let finished : handle t DialogEvent.finish d ≡ d1 = unfold handle in ground arith in
    let opened : handle t DialogEvent.click_delete d2 ≡ d3 = unfold handle in ground arith in
    let asked : (handle t DialogEvent.confirm d3).requested ≡ d.requested ++ items_of t d3 =
      unfold handle in ground (arith, eq_iff d.typed "DELETE") in
    ap
      (λ (x : DeleteDialog).
        (handle t DialogEvent.confirm
          (handle t DialogEvent.click_delete (handle t (DialogEvent.tick keys) x))).requested)
      finished
    ∙ ap (λ (x : DeleteDialog). (handle t DialogEvent.confirm x).requested)
        (unfold handle in opened)
    ∙ asked
