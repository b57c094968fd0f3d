-- ===== src/Ui/Persistence/TagMaps.antt =====
-- The tags of the contexts and the custom tags of store/ui.persistence.ts: what is read of them, and what
-- is read back whole.
use mathlib.Core.List.{append-nil, append_assoc}
use klustr.Prelude.{
  ℕ, zero, suc, length-take_le, ◌≡◌, ◌∙◌, ◌≤◌, refl, ap, sym, String, List, [], ◌∷◌, ◌++◌, ◌==◌,
  true, false, none, some, if◌then◌else◌, includes, length, take, arith, eq_iff, eq_refl,
  Bool-cases, inl, inr,
}
use klustr.Dict
use klustr.Dict.{
  Dict, keys, put_of_absent, includes-keys-append, Distinct-keys-put, Distinct-keys-remove,
}
use klustr.Storage.{
  null, truth, falsity, num, str, arr, obj, Fields, end, field, Storage, JsonText, read_json,
}
use klustr.Storage.Access.{
  strings_of, items_of_strings, fields_of_lists, strings_of-items_of_strings,
}
use klustr.Ui.Types.{max_tags_per_context}
use klustr.Ui.Persistence.{context_tags_key, persist_context_tags}
use klustr.Ui.Persistence.Read.{
  nonempty_strings, assign_nonempty, tags_from, entries, read_context_tags,
}
use klustr.Ui.Persistence.RoundTrip.{read_json-put, nonempty_strings_lem}
use klustr.Ui.Persistence.EntryMaps.{HasEntries, HasEntries-put}
use klustr.Ui.Persistence.Readable.{includes_empty-nonempty_strings}

-- The tags of a context that the reader takes as they are.
abbrev pub AreTagNames : List String → Type 0
AreTagNames xs = (includes "" xs ≡ false) × (length xs ≤ max_tags_per_context)

abbrev pub IsTagMap : Dict (List String) → Type 0
IsTagMap m = HasEntries AreTagNames m

take-short :
    (xs : List String) → length xs ≤ max_tags_per_context → take max_tags_per_context xs ≡ xs
take-short [] h = refl
take-short (a ∷ []) h = refl
take-short (a ∷ b ∷ []) h = refl
take-short (a ∷ b ∷ c ∷ []) h = refl
take-short (a ∷ b ∷ c ∷ d ∷ xs) h = absurd (omega arith)

read_names :
    (xs : List String)
    → AreTagNames xs
    → take max_tags_per_context (nonempty_strings (strings_of (items_of_strings xs))) ≡ xs
read_names xs (clean, short) =
    ap (λ ys. take max_tags_per_context (nonempty_strings ys)) (strings_of-items_of_strings xs)
    ∙ ap (λ ys. take max_tags_per_context ys) (nonempty_strings_lem xs clean)
    ∙ take-short xs short

tags_from-fields :
    (out m : Dict (List String))
    → IsTagMap m
    → ((k : String) → includes k (keys m) ≡ true → includes k (keys out) ≡ false)
    → tags_from out (fields_of_lists m) ≡ out ++ m
unfolding tags_from fields_of_lists keys includes
tags_from-fields out [] h fresh = sym (append-nil out)
tags_from-fields out ((k, []) ∷ m) h fresh = absurd h.1
tags_from-fields out ((k, x ∷ xs) ∷ m) ((absent, d), (names, h)) fresh =
    ap (λ ys. tags_from (assign_nonempty out k ys) (fields_of_lists m)) (read_names (x ∷ xs) names)
    ∙ ap (λ (o : Dict (List String)). tags_from o (fields_of_lists m))
        (put_of_absent out k (x ∷ xs) (fresh k (rw (eq_refl k))))
    ∙ tags_from-fields (out ++ (k, x ∷ xs) ∷ []) m (d, h)
        (λ j later.
          includes-keys-append out ((k, x ∷ xs) ∷ []) j ∙ ground (arith, fresh j, eq_iff k j))
    ∙ append_assoc out ((k, x ∷ xs) ∷ []) m

pub read-persist_context_tags :
    (jt : JsonText) (m : Dict (List String)) (s : Storage)
    → IsTagMap m
    → read_context_tags jt (persist_context_tags m s) ≡ m
unfolding read_context_tags persist_context_tags entries
read-persist_context_tags jt m s h =
    ap (λ o. elim o as (λ o. Dict (List String)) [ none ↦ [] | some j ↦ tags_from [] (entries j) ])
      (read_json-put jt s context_tags_key (obj (fields_of_lists m)))
    ∙ tags_from-fields [] m h (λ j later. unfold keys includes in refl)

includes_empty-take :
    (n : ℕ) (xs : List String) → includes "" xs ≡ false → includes "" (take n xs) ≡ false
unfolding includes
includes_empty-take zero xs h = refl
includes_empty-take (suc n) [] h = refl
includes_empty-take (suc n) (x ∷ xs) h = ground (arith, includes_empty-take n xs)

tags_from-IsTagMap :
    (fs : Fields) (out : Dict (List String)) → IsTagMap out → IsTagMap (tags_from out fs)
unfolding tags_from
tags_from-IsTagMap end out h = h
tags_from-IsTagMap (field k (str v) fs) out h = tags_from-IsTagMap fs _ one
  where
    one : IsTagMap (if v == "" then out else Dict.put out k (v ∷ []))
    one = elim (Bool-cases (v == "")) [
      | inl e ↦ rw e h
      | inr e ↦
          rw e
            (HasEntries-put AreTagNames out k v [] (unfold includes in ground arith, omega arith) h)
    ]
tags_from-IsTagMap (field k (arr vs) fs) out h = tags_from-IsTagMap fs _ (
    assigned (take max_tags_per_context (nonempty_strings (strings_of vs)))
      (includes_empty-take max_tags_per_context (nonempty_strings (strings_of vs))
        (includes_empty-nonempty_strings (strings_of vs)))
      (length-take_le max_tags_per_context (nonempty_strings (strings_of vs))))
  where
    assigned :
        (xs : List String)
        → includes "" xs ≡ false
        → length xs ≤ max_tags_per_context
        → IsTagMap (assign_nonempty out k xs)
    assigned [] clean short = h
    assigned (x ∷ xs) clean short = HasEntries-put AreTagNames out k x xs (clean, short) h
tags_from-IsTagMap (field k null fs) out h = tags_from-IsTagMap fs out h
tags_from-IsTagMap (field k truth fs) out h = tags_from-IsTagMap fs out h
tags_from-IsTagMap (field k falsity fs) out h = tags_from-IsTagMap fs out h
tags_from-IsTagMap (field k (num n) fs) out h = tags_from-IsTagMap fs out h
tags_from-IsTagMap (field k (obj o) fs) out h = tags_from-IsTagMap fs out h

pub read_context_tags-IsTagMap : (jt : JsonText) (s : Storage) → IsTagMap (read_context_tags jt s)
unfolding read_context_tags
read_context_tags-IsTagMap jt s =
    elim (read_json jt s context_tags_key)
      as (λ o. IsTagMap (elim o [ none ↦ [] | some j ↦ tags_from [] (entries j) ])) [
        | none ↦ (unfold keys in tt, tt)
        | some j ↦ tags_from-IsTagMap (entries j) [] (unfold keys in tt, tt)
      ]
