-- ===== src/Ui/Persistence/RoundTrip.antt =====
-- Reading back lists that store/ui.persistence.ts has stored.
use mathlib.Core.List.{append-nil, append_assoc}
use klustr.Prelude.{
  String, ◌≡◌, ◌≢◌, refl, ◌∙◌, ap, sym, true, false, none, some, List, [], ◌∷◌, ◌++◌, arith, eq_iff,
  eq_refl, includes, Distinct,
}
use klustr.Dict
use klustr.Dict.{Dict, get-put, get-remove, keys, put_of_absent, includes-keys-append}
use klustr.Storage.{Json, arr, obj, text, json, Storage, JsonText, read_text, read_json}
use klustr.Storage.Access.{
  strings_of, items_of_strings, fields_of_lists, strings_of-items_of_strings,
}
use klustr.Ui.Persistence.{
  persist_aggregated_contexts, aggregated_contexts_key, nonempty_entries,
  persist_namespaces_by_context, namespaces_by_context_key, persist_hidden_sidebar_items_by_context,
  hidden_sidebar_items_key, store_entries, persist_collapsed_nav_groups,
  persist_expanded_crd_groups, collapsed_nav_groups_key, expanded_crd_groups_key,
}
use klustr.Ui.Persistence.Read.{
  nonempty_strings, lists_from, lists_of, read_aggregated_contexts, read_string_array,
  read_namespaces_by_context, read_hidden_sidebar_items_by_context, read_collapsed_nav_groups,
  read_expanded_crd_groups,
}

pub read_json-put :
    (jt : JsonText) (s : Storage) (key : String) (j : Json)
    → read_json jt (Dict.put s key (json j)) key ≡ some j
unfolding read_json
read_json-put jt s key j = ground (arith, get-put s key key (json j), eq_refl key)

pub read_json-remove :
    (jt : JsonText) (s : Storage) (key : String) → read_json jt (Dict.remove s key) key ≡ none
unfolding read_json
read_json-remove jt s key = ground (arith, get-remove s key key, eq_refl key)

pub read_text-put :
    (jt : JsonText) (s : Storage) (key t : String)
    → t ≢ ""
    → read_text jt (Dict.put s key (text t)) key ≡ some t
unfolding read_text
read_text-put jt s key t h = ground (arith, get-put s key key (text t), eq_refl key, eq_iff t "")

pub read_text-remove :
    (jt : JsonText) (s : Storage) (key : String) → read_text jt (Dict.remove s key) key ≡ none
unfolding read_text
read_text-remove jt s key = ground (arith, get-remove s key key, eq_refl key)

-- The loop of the readers copies the entries that are not empty.
lists_from-fields :
    (out m : Dict (List String))
    → Distinct (keys m)
    → ((k : String) → includes k (keys m) ≡ true → includes k (keys out) ≡ false)
    → lists_from out (fields_of_lists m) ≡ out ++ nonempty_entries m
unfolding lists_from fields_of_lists nonempty_entries keys includes strings_of
lists_from-fields out [] d h = sym (append-nil out)
lists_from-fields out ((k, []) ∷ m) d h =
    lists_from-fields out m d.1 (λ j later. h j (ground arith))
lists_from-fields out ((k, x ∷ xs) ∷ m) d h =
    ap (λ ys. lists_from (Dict.put out k (x ∷ ys)) (fields_of_lists m))
      (strings_of-items_of_strings xs)
    ∙ ap (λ (o : Dict (List String)). lists_from o (fields_of_lists m))
        (put_of_absent out k (x ∷ xs) (h k (rw (eq_refl k))))
    ∙ lists_from-fields (out ++ (k, x ∷ xs) ∷ []) m d.1
        (λ j later. includes-keys-append out ((k, x ∷ xs) ∷ []) j ∙ ground (arith, h j, eq_iff k j))
    ∙ append_assoc out ((k, x ∷ xs) ∷ []) (nonempty_entries m)

lists_of-store :
    (jt : JsonText) (key : String) (n : Dict (List String)) (s : Storage)
    → Distinct (keys n)
    → lists_of (read_json jt (store_entries key n s) key) ≡ nonempty_entries n
unfolding lists_of nonempty_entries
lists_of-store jt key [] s d = rw (read_json-remove jt s key)
lists_of-store jt key (e ∷ n) s d =
    ap lists_of (read_json-put jt s key (obj (fields_of_lists (e ∷ n))))
    ∙ lists_from-fields [] (e ∷ n) d (λ j h. unfold keys includes in refl)

absent-nonempty_entries :
    (m : Dict (List String)) (j : String)
    → includes j (keys m) ≡ false
    → includes j (keys (nonempty_entries m)) ≡ false
unfolding nonempty_entries keys includes
absent-nonempty_entries [] j h = h
absent-nonempty_entries ((k, []) ∷ m) j h = absent-nonempty_entries m j (ground arith)
absent-nonempty_entries ((k, x ∷ xs) ∷ m) j h = ground (arith, absent-nonempty_entries m j)

Distinct-nonempty_entries :
    (m : Dict (List String)) → Distinct (keys m) → Distinct (keys (nonempty_entries m))
unfolding nonempty_entries keys
Distinct-nonempty_entries [] d = tt
Distinct-nonempty_entries ((k, []) ∷ m) d = Distinct-nonempty_entries m d.1
Distinct-nonempty_entries ((k, x ∷ xs) ∷ m) d =
    (absent-nonempty_entries m k d.0, Distinct-nonempty_entries m d.1)

nonempty_entries_idem :
    (m : Dict (List String)) → nonempty_entries (nonempty_entries m) ≡ nonempty_entries m
unfolding nonempty_entries
nonempty_entries_idem [] = refl
nonempty_entries_idem ((k, []) ∷ m) = nonempty_entries_idem m
nonempty_entries_idem ((k, x ∷ xs) ∷ m) = ap (λ n. (k, x ∷ xs) ∷ n) (nonempty_entries_idem m)

-- The namespace selections and the hidden items are read back as they were stored, less the entries
-- of contexts with an empty list. The keys of the map are distinct.
pub read-persist_lists :
    (jt : JsonText) (m : Dict (List String)) (s : Storage)
    → Distinct (keys m)
    → (read_namespaces_by_context jt (persist_namespaces_by_context m s) ≡ nonempty_entries m)
      × (read_hidden_sidebar_items_by_context jt (persist_hidden_sidebar_items_by_context m s)
          ≡ nonempty_entries m)
unfolding read_namespaces_by_context persist_namespaces_by_context
    read_hidden_sidebar_items_by_context persist_hidden_sidebar_items_by_context
read-persist_lists jt m s d = (
  lists_of-store jt namespaces_by_context_key (nonempty_entries m) s (Distinct-nonempty_entries m d)
      ∙ nonempty_entries_idem m,
  lists_of-store jt hidden_sidebar_items_key (nonempty_entries m) s (Distinct-nonempty_entries m d)
      ∙ nonempty_entries_idem m,
)

pub read_string_array-put :
    (jt : JsonText) (key : String) (list : List String) (s : Storage)
    → read_string_array jt key (Dict.put s key (json (arr (items_of_strings list)))) ≡ list
unfolding read_string_array
read_string_array-put jt key list s =
    ground (
      arith,
      read_json-put jt s key (arr (items_of_strings list)),
      strings_of-items_of_strings list,
    )

read-persist_aggregated :
    (jt : JsonText) (list : List String) (s : Storage)
    → read_aggregated_contexts jt (persist_aggregated_contexts list s) ≡ list
unfolding read_aggregated_contexts persist_aggregated_contexts
read-persist_aggregated jt [] s =
    unfold read_string_array in ground (arith, read_json-remove jt s aggregated_contexts_key)
read-persist_aggregated jt (x ∷ xs) s = read_string_array-put jt aggregated_contexts_key (x ∷ xs) s

-- The lists of aggregated contexts, collapsed groups and expanded groups are read back as they were
-- stored.
pub read-persist_string_arrays :
    (jt : JsonText) (list : List String) (s : Storage)
    → (read_aggregated_contexts jt (persist_aggregated_contexts list s) ≡ list)
      × (read_collapsed_nav_groups jt (persist_collapsed_nav_groups list s) ≡ list)
      × (read_expanded_crd_groups jt (persist_expanded_crd_groups list s) ≡ list)
unfolding read_collapsed_nav_groups persist_collapsed_nav_groups read_expanded_crd_groups
    persist_expanded_crd_groups
read-persist_string_arrays jt list s = (
  read-persist_aggregated jt list s,
  read_string_array-put jt collapsed_nav_groups_key list s,
  read_string_array-put jt expanded_crd_groups_key list s,
)

pub nonempty_strings_lem : (xs : List String) → includes "" xs ≡ false → nonempty_strings xs ≡ xs
unfolding nonempty_strings includes
nonempty_strings_lem [] h = refl
nonempty_strings_lem (x ∷ xs) h = ground (arith, nonempty_strings_lem xs)
