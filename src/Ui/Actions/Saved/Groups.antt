-- ===== src/Ui/Actions/Saved/Groups.antt =====
-- store/ui.ts: the actions on groups keep what localStorage holds of them in step with the store.
use klustr.Prelude.{
  String, ◌≡◌, ◌∙◌, ap, subst, arith, All, true, ◌==◌, inl, inr, Bool-cases, length, eqb,
}
use klustr.Storage.{JsonText}
use klustr.Ui.Types.{ContextGroup}
use klustr.Ui.Persistence.Settings.{Settings}
use klustr.Ui.Persistence.ContextWriters.{stored-persist_context_groups}
use klustr.Ui.Persistence.Records.{IsReadable}
use klustr.Ui.State.{World}
use klustr.Ui.Groups.Laws.{is_accepted}
use klustr.Ui.Groups.{
  cleaned, upserted, is_empty, without_group, upsert_context_group, remove_context_group,
}
use klustr.Prelude.{subst, ◌≢◌}
use klustr.Ui.Persistence.Readable.{read_context_groups-IsReadable}
use klustr.Ui.Groups.Laws.{cleaned-IsClean, All-upserted, All-without_group}
use klustr.Ui.Actions.Saved.{IsSaved}

module _ (jt : JsonText) where
  -- The groups of the store are what the reader found, so the reader takes them again.
  readable : (w : World) → IsSaved jt w → All IsReadable w.ui.context_groups
  readable w h =
      subst (All IsReadable) (ap (λ (v : Settings). v.context_groups) h)
        (read_context_groups-IsReadable jt w.storage)

  cleaned-IsReadable :
      (g : ContextGroup) → g.id ≢ "" → is_accepted g ≡ true → IsReadable (cleaned g)
  unfolding cleaned
  cleaned-IsReadable g id accepted =
      let (name, _, contexts, _, color) = cleaned-IsClean g accepted in (id, name, contexts, color)

  pub upsert_context_group-IsSaved :
      (g : ContextGroup) (w : World)
      → g.id ≢ ""
      → IsSaved jt w
      → IsSaved jt (upsert_context_group g w)
  unfolding upsert_context_group
  upsert_context_group-IsSaved g w id h = elim (Bool-cases ((cleaned g).name == "")) [
    | inl e ↦ rw e h
    | inr e ↦ elim (Bool-cases (is_empty (cleaned g).contexts)) [
      | inl f ↦ rw (e, f) h
      | inr f ↦
          rw (e, f)
            (stored-persist_context_groups jt _ w.storage (
                All-upserted IsReadable (cleaned g) w.ui.context_groups
                  (cleaned-IsReadable g id (ground arith)) (readable w h))
              ∙ ap
                  (λ (v : Settings). record v {
                    context_groups = upserted (cleaned g) w.ui.context_groups;
                  })
                  h)
    ]
  ]

  pub remove_context_group-IsSaved :
      (id : String) (w : World) → IsSaved jt w → IsSaved jt (remove_context_group id w)
  unfolding remove_context_group
  remove_context_group-IsSaved id w h =
      elim (Bool-cases
        (eqb (length (without_group id w.ui.context_groups)) (length w.ui.context_groups))) [
          | inl e ↦ rw e h
          | inr e ↦ rw e (
              stored-persist_context_groups jt _ w.storage
                (All-without_group IsReadable id w.ui.context_groups (readable w h))
              ∙ ap
                  (λ (v : Settings). record v {
                    context_groups = without_group id w.ui.context_groups;
                  })
                  h)
        ]
