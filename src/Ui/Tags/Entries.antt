-- ===== src/Ui/Tags/Entries.antt =====
-- store/ui.ts: the actions on tags leave a map of tags that is read back from localStorage as it is.
use klustr.Prelude.{
  ◌≤◌, ◌≡◌, ◌≢◌, ◌∙◌, refl, String, false, List, [], ◌∷◌, ◌++◌, ◌==◌, arith, eq_iff, leb, length,
  length-append, includes, without, includes-without, includes-append, Bool-cases, inl, inr,
}
use klustr.Dict
use klustr.Dict.{Dict, keys}
use klustr.Ui.Types.{ContextTag, max_tags_per_context}
use klustr.Ui.Tags.{TagMap, tags_of, assign_tags, assign_if_any, without_tag}
use klustr.Ui.Persistence.EntryMaps.{AreEntries, HasEntries-put, HasEntries-remove}
use klustr.Ui.Persistence.TagMaps.{AreTagNames, IsTagMap}

found-AreTagNames :
    (m : TagMap) (name : String) → AreEntries AreTagNames m → AreTagNames (tags_of m name)
unfolding Dict.get includes
found-AreTagNames [] name h = (refl, omega arith)
found-AreTagNames ((k, []) ∷ m) name h = absurd h
found-AreTagNames ((k, x ∷ xs) ∷ m) name (p, h) = elim (Bool-cases (k == name)) [
  | inl e ↦ rw e p
  | inr e ↦ rw e (found-AreTagNames m name h)
]

pub tags_of-AreTagNames : (m : TagMap) (name : String) → IsTagMap m → AreTagNames (tags_of m name)
tags_of-AreTagNames m name (d, h) = found-AreTagNames m name h

length-without_le : (t : String) (xs : List String) → length (without t xs) ≤ length xs
unfolding without
length-without_le t [] = omega arith
length-without_le t (x ∷ xs) = ground (arith, length-without_le t xs)

pub without-AreTagNames :
    (t : String) (xs : List String) → AreTagNames xs → AreTagNames (without t xs)
without-AreTagNames t xs (clean, short) =
    (includes-without "" t xs ∙ ground arith, ground (arith, length-without_le t xs))

pub append-AreTagNames :
    (xs : List String) (t : String)
    → t ≢ ""
    → leb max_tags_per_context (length xs) ≡ false
    → AreTagNames xs
    → AreTagNames (xs ++ t ∷ [])
append-AreTagNames xs t named room (clean, short) = (
  includes-append "" xs (t ∷ []) ∙ unfold includes in ground (arith, eq_iff t ""),
  ground (arith, length-append xs (t ∷ [])),
)

pub assign_tags-IsTagMap :
    (m : TagMap) (name : String) (list : List ContextTag)
    → AreTagNames list
    → IsTagMap m
    → IsTagMap (assign_tags m name list)
unfolding assign_tags
assign_tags-IsTagMap m name [] p h = HasEntries-remove AreTagNames m name h
assign_tags-IsTagMap m name (t ∷ ts) p h = HasEntries-put AreTagNames m name t ts p h

pub without_tag-IsTagMap :
    (id : String) (out m : TagMap)
    → AreEntries AreTagNames m
    → IsTagMap out
    → IsTagMap (without_tag id out m)
unfolding without_tag
without_tag-IsTagMap id out [] h k = k
without_tag-IsTagMap id out ((ctx, []) ∷ m) h k = absurd h
without_tag-IsTagMap id out ((ctx, x ∷ xs) ∷ m) (p, h) k =
    without_tag-IsTagMap id (assign_if_any out ctx (without id (x ∷ xs))) m h
      (assigned (without id (x ∷ xs)) (without-AreTagNames id (x ∷ xs) p))
  where
    assigned : (list : List ContextTag) → AreTagNames list → IsTagMap (assign_if_any out ctx list)
    assigned [] q = k
    assigned (t ∷ ts) q = HasEntries-put AreTagNames out ctx t ts q k
