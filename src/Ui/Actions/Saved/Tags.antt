-- ===== src/Ui/Actions/Saved/Tags.antt =====
-- store/ui.ts: the actions on tags keep what localStorage holds of them in step with the store.
use klustr.Prelude.{
  String, ◌≡◌, ◌≢◌, ◌∙◌, ap, subst, includes, without, false, ◌++◌, [], ◌∷◌, length, leb,
  Bool-cases, inl, inr,
}
use klustr.Dict
use klustr.Dict.{keys}
use klustr.Storage.{JsonText}
use klustr.Ui.Types.{ContextTag, CustomTagDef, max_tags_per_context}
use klustr.Ui.State.{World}
use klustr.Ui.Tags.{
  TagMap, tags_of, assign_tags, toggle_context_tag, clear_context_tags, add_custom_tag, without_tag,
  remove_custom_tag,
}
use klustr.Ui.Tags.Entries.{
  tags_of-AreTagNames, without-AreTagNames, append-AreTagNames, assign_tags-IsTagMap,
  without_tag-IsTagMap,
}
use klustr.Ui.Persistence.EntryMaps.{HasEntries-remove}
use klustr.Ui.Persistence.TagMaps.{AreTagNames, IsTagMap, read_context_tags-IsTagMap}
use klustr.Ui.Persistence.TagDefs.{
  IsTagDef, HasTagDefs, HasTagDefs-put, HasTagDefs-remove, read_custom_tags-HasTagDefs,
}
use klustr.Ui.Persistence.Settings.{Settings}
use klustr.Ui.Persistence.ContextWriters.{stored-persist_context_tags, stored-persist_custom_tags}
use klustr.Ui.Actions.Saved.{IsSaved}

module _ (jt : JsonText) where
  -- The tags of the store are what the readers found.
  tags-IsTagMap :
      (w : World) → IsSaved jt w → IsTagMap w.ui.context_tags × HasTagDefs w.ui.custom_tags
  tags-IsTagMap w h = (
    subst IsTagMap (ap (λ (v : Settings). v.context_tags) h)
        (read_context_tags-IsTagMap jt w.storage),
    subst HasTagDefs (ap (λ (v : Settings). v.custom_tags) h)
        (read_custom_tags-HasTagDefs jt w.storage),
  )

  toggle-tag_map :
      (name : String) (t : ContextTag) (m : TagMap)
      → t ≢ ""
      → IsTagMap m
      → IsTagMap (assign_tags m name (without t (tags_of m name)))
        × (leb max_tags_per_context (length (tags_of m name)) ≡ false
            → IsTagMap (assign_tags m name (tags_of m name ++ t ∷ [])))
  toggle-tag_map name t m named h =
      let names = tags_of-AreTagNames m name h in
      (
        assign_tags-IsTagMap m name (without t (tags_of m name))
            (without-AreTagNames t (tags_of m name) names) h,
        λ room.
            assign_tags-IsTagMap m name (tags_of m name ++ t ∷ [])
              (append-AreTagNames (tags_of m name) t named room names) h,
      )

  pub toggle_context_tag-IsSaved :
      (name : String) (t : ContextTag) (w : World)
      → t ≢ ""
      → IsSaved jt w
      → IsSaved jt (toggle_context_tag name t w)
  unfolding toggle_context_tag
  toggle_context_tag-IsSaved name t w named h =
      let current = tags_of w.ui.context_tags name in
      let (dropped, added) = toggle-tag_map name t w.ui.context_tags named (tags-IsTagMap w h).0 in
      elim (Bool-cases (includes t current)) [
        | inl e ↦ rw e (
            stored-persist_context_tags jt _ w.storage dropped
            ∙ ap
                (λ (v : Settings). record v {
                  context_tags = assign_tags w.ui.context_tags name (without t current);
                })
                h)
        | inr e ↦ elim (Bool-cases (leb max_tags_per_context (length current))) [
          | inl f ↦ rw (e, f) h
          | inr f ↦
              rw (e, f)
                (stored-persist_context_tags jt _ w.storage (added f)
                  ∙ ap
                      (λ (v : Settings). record v {
                        context_tags = assign_tags w.ui.context_tags name (current ++ t ∷ []);
                      })
                      h)
        ]
      ]

  pub clear_context_tags-IsSaved :
      (name : String) (w : World) → IsSaved jt w → IsSaved jt (clear_context_tags name w)
  unfolding clear_context_tags
  clear_context_tags-IsSaved name w h = elim (Bool-cases (Dict.has w.ui.context_tags name)) [
    | inl e ↦ rw e (
        stored-persist_context_tags jt _ w.storage
          (HasEntries-remove AreTagNames w.ui.context_tags name (tags-IsTagMap w h).0)
        ∙ ap (λ (v : Settings). record v { context_tags = Dict.remove w.ui.context_tags name }) h)
    | inr e ↦ rw e h
  ]

  pub add_custom_tag-IsSaved :
      (def : CustomTagDef) (w : World)
      → IsTagDef def
      → IsSaved jt w
      → IsSaved jt (add_custom_tag def w)
  unfolding add_custom_tag
  add_custom_tag-IsSaved def w valid h =
      stored-persist_custom_tags jt _ w.storage
        (HasTagDefs-put w.ui.custom_tags def.id def valid (tags-IsTagMap w h).1)
      ∙ ap (λ (v : Settings). record v { custom_tags = Dict.put w.ui.custom_tags def.id def }) h

  pub remove_custom_tag-IsSaved :
      (id : String) (w : World) → IsSaved jt w → IsSaved jt (remove_custom_tag id w)
  unfolding remove_custom_tag
  remove_custom_tag-IsSaved id w h =
      let (tags, defs) = tags-IsTagMap w h in
      let next_tags = Dict.remove w.ui.custom_tags id in
      let next_assignments = without_tag id [] w.ui.context_tags in
      stored-persist_context_tags jt next_assignments _
        (without_tag-IsTagMap id [] w.ui.context_tags tags.1 (unfold keys in tt, tt))
      ∙ ap (λ (v : Settings). record v { context_tags = next_assignments })
          (stored-persist_custom_tags jt next_tags w.storage
              (HasTagDefs-remove w.ui.custom_tags id defs)
            ∙ ap (λ (v : Settings). record v { custom_tags = next_tags }) h)
