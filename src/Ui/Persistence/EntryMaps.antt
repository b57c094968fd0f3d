-- ===== src/Ui/Persistence/EntryMaps.antt =====
-- The maps from contexts to lists of store/ui.persistence.ts: what is read of them has distinct keys
-- and no empty list, and what has these is read back whole.
use klustr.Prelude.{
  ◌≡◌, refl, ap, String, List, [], ◌∷◌, ◌==◌, true, false, Option, some, Distinct, if◌then◌else◌,
}
use klustr.Dict
use klustr.Dict.{Dict, keys, Distinct-keys-put, Distinct-keys-remove}
use klustr.Storage.{
  Json, null, truth, falsity, num, str, arr, obj, Fields, end, field, Storage, JsonText, read_json,
}
use klustr.Storage.Access.{strings_of}
use klustr.Ui.Persistence.{nonempty_entries, namespaces_by_context_key, hidden_sidebar_items_key}
use klustr.Ui.Persistence.Read.{
  assign_nonempty, lists_from, lists_of, read_namespaces_by_context,
  read_hidden_sidebar_items_by_context,
}

-- Distinct keys, and under each a list that is not empty and satisfies `P`.
module _ (P : List String → Type 0) where
  abbrev pub AreEntries : Dict (List String) → Type 0
  AreEntries [] = Unit
  AreEntries ((k, []) ∷ m) = ⊥
  AreEntries ((k, x ∷ xs) ∷ m) = P (x ∷ xs) × AreEntries m

  abbrev pub HasEntries : Dict (List String) → Type 0
  HasEntries m = Distinct (keys m) × AreEntries m

  AreEntries-put :
      (m : Dict (List String)) (k x : String) (xs : List String)
      → P (x ∷ xs)
      → AreEntries m
      → AreEntries (Dict.put m k (x ∷ xs))
  unfolding Dict.put
  AreEntries-put [] k x xs p h = (p, tt)
  AreEntries-put ((j, []) ∷ m) k x xs p h = absurd h
  AreEntries-put ((j, y ∷ ys) ∷ m) k x xs p (q, h) =
      elim (j == k)
        as (λ b. AreEntries (if b then (k, x ∷ xs) ∷ m else (j, y ∷ ys) ∷ Dict.put m k (x ∷ xs))) [
          | true ↦ (p, h)
          | false ↦ (q, AreEntries-put m k x xs p h)
        ]

  AreEntries-remove :
      (m : Dict (List String)) (k : String) → AreEntries m → AreEntries (Dict.remove m k)
  unfolding Dict.remove
  AreEntries-remove [] k h = tt
  AreEntries-remove ((j, []) ∷ m) k h = absurd h
  AreEntries-remove ((j, y ∷ ys) ∷ m) k (q, h) =
      elim (j == k)
        as (λ b.
          AreEntries (elim b [ true ↦ Dict.remove m k | false ↦ (j, y ∷ ys) ∷ Dict.remove m k ])) [
            | true ↦ AreEntries-remove m k h
            | false ↦ (q, AreEntries-remove m k h)
          ]

  pub HasEntries-put :
      (m : Dict (List String)) (k x : String) (xs : List String)
      → P (x ∷ xs)
      → HasEntries m
      → HasEntries (Dict.put m k (x ∷ xs))
  HasEntries-put m k x xs p (d, h) = (Distinct-keys-put m k (x ∷ xs) d, AreEntries-put m k x xs p h)

  pub HasEntries-remove :
      (m : Dict (List String)) (k : String) → HasEntries m → HasEntries (Dict.remove m k)
  HasEntries-remove m k (d, h) = (Distinct-keys-remove m k d, AreEntries-remove m k h)

abbrev IsAny : List String → Type 0
IsAny xs = Unit

abbrev pub IsEntryMap : Dict (List String) → Type 0
IsEntryMap m = HasEntries IsAny m

pub nonempty_entries_lem : (m : Dict (List String)) → AreEntries IsAny m → nonempty_entries m ≡ m
unfolding nonempty_entries
nonempty_entries_lem [] h = refl
nonempty_entries_lem ((k, []) ∷ m) h = absurd h
nonempty_entries_lem ((k, x ∷ xs) ∷ m) h = ap (λ n. (k, x ∷ xs) ∷ n) (nonempty_entries_lem m h.1)

pub IsEntryMap-put :
    (m : Dict (List String)) (k x : String) (xs : List String)
    → IsEntryMap m
    → IsEntryMap (Dict.put m k (x ∷ xs))
IsEntryMap-put m k x xs h = HasEntries-put IsAny m k x xs tt h

pub IsEntryMap-remove :
    (m : Dict (List String)) (k : String) → IsEntryMap m → IsEntryMap (Dict.remove m k)
IsEntryMap-remove m k h = HasEntries-remove IsAny m k h

lists_from-IsEntryMap :
    (fs : Fields) (out : Dict (List String)) → IsEntryMap out → IsEntryMap (lists_from out fs)
unfolding lists_from
lists_from-IsEntryMap end out h = h
lists_from-IsEntryMap (field k (arr vs) fs) out h =
    lists_from-IsEntryMap fs (assign_nonempty out k (strings_of vs)) (assigned (strings_of vs))
  where
    assigned : (xs : List String) → IsEntryMap (assign_nonempty out k xs)
    assigned [] = h
    assigned (x ∷ xs) = IsEntryMap-put out k x xs h
lists_from-IsEntryMap (field k null fs) out h = lists_from-IsEntryMap fs out h
lists_from-IsEntryMap (field k truth fs) out h = lists_from-IsEntryMap fs out h
lists_from-IsEntryMap (field k falsity fs) out h = lists_from-IsEntryMap fs out h
lists_from-IsEntryMap (field k (num n) fs) out h = lists_from-IsEntryMap fs out h
lists_from-IsEntryMap (field k (str t) fs) out h = lists_from-IsEntryMap fs out h
lists_from-IsEntryMap (field k (obj o) fs) out h = lists_from-IsEntryMap fs out h

lists_of-IsEntryMap : (o : Option Json) → IsEntryMap (lists_of o)
unfolding lists_of keys
lists_of-IsEntryMap (some (obj fs)) = lists_from-IsEntryMap fs [] (tt, tt)
lists_of-IsEntryMap _ = (tt, tt)

pub read_maps-IsEntryMap :
    (jt : JsonText) (s : Storage)
    → IsEntryMap (read_namespaces_by_context jt s)
      × IsEntryMap (read_hidden_sidebar_items_by_context jt s)
unfolding read_namespaces_by_context read_hidden_sidebar_items_by_context
read_maps-IsEntryMap jt s = (
  lists_of-IsEntryMap (read_json jt s namespaces_by_context_key),
  lists_of-IsEntryMap (read_json jt s hidden_sidebar_items_key),
)
