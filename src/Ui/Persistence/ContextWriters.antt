-- ===== src/Ui/Persistence/ContextWriters.antt =====
-- store/ui.persistence.ts: writing what is kept by context, and the groups of contexts, changes what is
-- read of it, and no other setting.
use klustr.Prelude.{◌≡◌, ◌∙◌, ap, String, List, [], ◌∷◌, All}
use klustr.Dict.{Dict}
use klustr.Storage.{Storage, JsonText}
use klustr.Ui.Types.{CustomTagDef, ContextGroup}
use klustr.Ui.Contexts.{several}
use klustr.Ui.Contexts.Invariant.{several_idem}
use klustr.Ui.Persistence.{
  aggregated_contexts_key, context_groups_key, namespaces_by_context_key, hidden_sidebar_items_key,
  context_tags_key, custom_tags_key, nonempty_entries, store_entries, persist_aggregated_contexts,
  persist_context_groups, persist_namespaces_by_context, persist_hidden_sidebar_items_by_context,
  persist_context_tags, persist_custom_tags,
}
use klustr.Ui.Persistence.Read.{
  read_aggregated_contexts, read_context_groups, read_namespaces_by_context,
  read_hidden_sidebar_items_by_context,
}
use klustr.Ui.Persistence.RoundTrip.{read-persist_string_arrays, read-persist_lists}
use klustr.Ui.Persistence.Records.{IsReadable, read-persist_groups}
use klustr.Ui.Persistence.EntryMaps.{IsEntryMap, nonempty_entries_lem}
use klustr.Ui.Persistence.TagMaps.{IsTagMap, read-persist_context_tags}
use klustr.Ui.Persistence.TagDefs.{HasTagDefs, read-persist_custom_tags}
use klustr.Ui.Persistence.Settings.{stored, stored-put, stored-remove}

module _ (jt : JsonText) where
  module _ (s : Storage) where
    persist-aggregated :
        (list : List String)
        → stored jt (persist_aggregated_contexts list s) ≡ record (stored jt s) {
          aggregated_contexts =
              several (read_aggregated_contexts jt (persist_aggregated_contexts list s));
        }
    unfolding persist_aggregated_contexts
    persist-aggregated [] = stored-remove jt s aggregated_contexts_key
    persist-aggregated (x ∷ xs) = stored-put jt s aggregated_contexts_key _

    persist-groups :
        (gs : List ContextGroup)
        → stored jt (persist_context_groups gs s) ≡ record (stored jt s) {
          context_groups = read_context_groups jt (persist_context_groups gs s);
        }
    unfolding persist_context_groups
    persist-groups [] = stored-remove jt s context_groups_key
    persist-groups (g ∷ gs) = stored-put jt s context_groups_key _

    persist-namespaces :
        (m : Dict (List String))
        → stored jt (store_entries namespaces_by_context_key m s) ≡ record (stored jt s) {
          namespaces_by_context =
              read_namespaces_by_context jt (store_entries namespaces_by_context_key m s);
        }
    persist-namespaces [] = stored-remove jt s namespaces_by_context_key
    persist-namespaces (e ∷ m) = stored-put jt s namespaces_by_context_key _

    persist-hidden :
        (m : Dict (List String))
        → stored jt (store_entries hidden_sidebar_items_key m s) ≡ record (stored jt s) {
          hidden_sidebar_items_by_context =
              read_hidden_sidebar_items_by_context jt (store_entries hidden_sidebar_items_key m s);
        }
    persist-hidden [] = stored-remove jt s hidden_sidebar_items_key
    persist-hidden (e ∷ m) = stored-put jt s hidden_sidebar_items_key _

  pub stored-persist_aggregated_contexts :
      (list : List String) (s : Storage)
      → stored jt (persist_aggregated_contexts (several list) s)
        ≡ record (stored jt s) { aggregated_contexts = several list }
  stored-persist_aggregated_contexts list s =
      persist-aggregated s (several list)
      ∙ ap (λ (xs : List String). record (stored jt s) { aggregated_contexts = xs })
          (ap several (read-persist_string_arrays jt (several list) s).0 ∙ several_idem list)

  pub stored-persist_context_groups :
      (gs : List ContextGroup) (s : Storage)
      → All IsReadable gs
      → stored jt (persist_context_groups gs s) ≡ record (stored jt s) { context_groups = gs }
  stored-persist_context_groups gs s readable =
      persist-groups s gs
      ∙ ap (λ (xs : List ContextGroup). record (stored jt s) { context_groups = xs })
          (read-persist_groups jt gs s readable)

  pub stored-persist_namespaces_by_context :
      (m : Dict (List String)) (s : Storage)
      → IsEntryMap m
      → stored jt (persist_namespaces_by_context m s)
        ≡ record (stored jt s) { namespaces_by_context = m }
  stored-persist_namespaces_by_context m s (d, h) =
      unfold persist_namespaces_by_context in
      persist-namespaces s (nonempty_entries m)
      ∙ ap (λ (n : Dict (List String)). record (stored jt s) { namespaces_by_context = n })
          ((read-persist_lists jt m s d).0 ∙ nonempty_entries_lem m h)

  pub stored-persist_hidden_sidebar_items_by_context :
      (m : Dict (List String)) (s : Storage)
      → IsEntryMap m
      → stored jt (persist_hidden_sidebar_items_by_context m s)
        ≡ record (stored jt s) { hidden_sidebar_items_by_context = m }
  stored-persist_hidden_sidebar_items_by_context m s (d, h) =
      unfold persist_hidden_sidebar_items_by_context in
      persist-hidden s (nonempty_entries m)
      ∙ ap
          (λ (n : Dict (List String)). record (stored jt s) { hidden_sidebar_items_by_context = n })
          ((read-persist_lists jt m s d).1 ∙ nonempty_entries_lem m h)

  pub stored-persist_context_tags :
      (m : Dict (List String)) (s : Storage)
      → IsTagMap m
      → stored jt (persist_context_tags m s) ≡ record (stored jt s) { context_tags = m }
  stored-persist_context_tags m s h =
      unfold persist_context_tags in
      stored-put jt s context_tags_key _
      ∙ ap (λ (n : Dict (List String)). record (stored jt s) { context_tags = n })
          (read-persist_context_tags jt m s h)

  pub stored-persist_custom_tags :
      (m : Dict CustomTagDef) (s : Storage)
      → HasTagDefs m
      → stored jt (persist_custom_tags m s) ≡ record (stored jt s) { custom_tags = m }
  stored-persist_custom_tags m s h =
      unfold persist_custom_tags in
      stored-put jt s custom_tags_key _
      ∙ ap (λ (n : Dict CustomTagDef). record (stored jt s) { custom_tags = n })
          (read-persist_custom_tags jt m s h)
