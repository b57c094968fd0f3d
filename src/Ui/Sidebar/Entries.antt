-- ===== src/Ui/Sidebar/Entries.antt =====
-- store/ui.ts: hiding and showing items leaves no context with an empty list in the map.
use klustr.Prelude.{
  String, Bool, true, Option, none, some, List, [], ◌∷◌, ◌++◌, or_else, includes, without,
  Bool-cases, Option-cases, inl, inr,
}
use klustr.Dict
use klustr.Ui.Sidebar.{HiddenItems, for_contexts, hide_in, put_or_delete, show_in, clear_in}
use klustr.Ui.Persistence.EntryMaps.{IsEntryMap, IsEntryMap-put, IsEntryMap-remove}

abbrev IfAny : Option HiddenItems → Type 0
IfAny none = Unit
IfAny (some m) = IsEntryMap m

-- A round of the loop that keeps the maps without empty lists.
abbrev pub KeepsEntries : (String → HiddenItems → Option HiddenItems) → Type 0
KeepsEntries round = (ctx : String) (m : HiddenItems) → IsEntryMap m → IfAny (round ctx m)

pub for_contexts-IsEntryMap :
    (round : String → HiddenItems → Option HiddenItems)
    → KeepsEntries round
    → (cs : List String) (m : HiddenItems) (changed : Bool) → IsEntryMap m
    → IsEntryMap (for_contexts round cs m changed).0
unfolding for_contexts
for_contexts-IsEntryMap round keeps [] m changed k = k
for_contexts-IsEntryMap round keeps (c ∷ cs) m changed k =
    after (round c m) (keeps c m k) (for_contexts-IsEntryMap round keeps cs m changed k)
      (λ next h. for_contexts-IsEntryMap round keeps cs next true h)
  where
    after :
        (o : Option HiddenItems)
        → IfAny o
        → IsEntryMap (for_contexts round cs m changed).0
        → ((next : HiddenItems) → IsEntryMap next → IsEntryMap (for_contexts round cs next true).0)
        → IsEntryMap
            (elim o as (λ o. HiddenItems × Bool) [
              | none ↦ for_contexts round cs m changed
              | some next ↦ for_contexts round cs next true
            ]).0
    after none h same go_on = same
    after (some next) h same go_on = go_on next h

pub hide_in-KeepsEntries : (view : String) → KeepsEntries (hide_in view)
unfolding hide_in
hide_in-KeepsEntries view ctx m k =
    elim (Bool-cases (includes view (or_else (Dict.get m ctx) []))) [
      | inl e ↦ rw e tt
      | inr e ↦ rw e (put_end (or_else (Dict.get m ctx) []))
    ]
  where
    put_end : (list : List String) → IsEntryMap (Dict.put m ctx (list ++ view ∷ []))
    put_end [] = IsEntryMap-put m ctx view [] k
    put_end (x ∷ xs) = IsEntryMap-put m ctx x (xs ++ view ∷ []) k

pub show_in-KeepsEntries : (view : String) → KeepsEntries (show_in view)
unfolding show_in
show_in-KeepsEntries view ctx m k = elim (Option-cases (Dict.get m ctx)) [
  | inl e ↦ rw (show_in, e) tt
  | inr (list, e) ↦ elim (Bool-cases (includes view list)) [
    | inl f ↦ rw (show_in, e, f) (kept (without view list))
    | inr f ↦ rw (show_in, e, f) tt
  ]
]
  where
    kept : (list : List String) → IsEntryMap (put_or_delete m ctx list)
    kept [] = IsEntryMap-remove m ctx k
    kept (x ∷ xs) = IsEntryMap-put m ctx x xs k

pub clear_in-KeepsEntries : KeepsEntries clear_in
unfolding clear_in
clear_in-KeepsEntries ctx m k = elim (Bool-cases (Dict.has m ctx)) [
  | inl e ↦ rw e (IsEntryMap-remove m ctx k)
  | inr e ↦ rw e tt
]
