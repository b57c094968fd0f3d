-- ===== src/Ui/Actions/Sessions.antt =====
-- store/ui.ts: one session of the program after another, on the localStorage that the last one left.
use klustr.Prelude.{ℕ, String, ap, sym, subst, Bool, List, [], ◌∷◌, All}
use klustr.Dict
use klustr.Storage.{Storage, JsonText, read_json}
use klustr.Collation.{Collation}
use klustr.Collation.Canonical.{IsCanonical}
use klustr.Ui.Contexts.{several}
use klustr.Ui.Groups.Laws.{AreGroups}
use klustr.Ui.Persistence.Read.{
  read_string_array, read_aggregated_contexts, groups_of, read_context_groups,
}
use klustr.Ui.Persistence.Settings.{Settings}
use klustr.Ui.Actions.{Action, run, boot}
use klustr.Ui.Actions.Boot.{boot-IsInvariant}
use klustr.Ui.Actions.Reachable.{IsInvariant, run-IsInvariant}
use klustr.Ui.Actions.Restart.{IsStorable, run-IsSaved, boot-IsSaved}

-- A start of the program and what the user does until it is closed.
pub record Session : Type 0 where
  pub prefers_dark : Bool
  pub now : ℕ
  pub classes : List String
  pub actions : List Action

-- All its actions are such that what they store is read again.
abbrev pub IsStorableSession : Session → Type 0
IsStorableSession e = All IsStorable e.actions

module _ (jt : JsonText) (coll : Collation) where
  abbrev pub left_by : Session → Storage → Storage
  left_by e s = (run coll e.actions (boot jt e.prefers_dark e.now s e.classes)).storage

  abbrev pub left_by_all : List Session → Storage → Storage
  left_by_all [] s = s
  left_by_all (e ∷ history) s = left_by_all history (left_by e s)

  -- What a start needs of localStorage for the invariant.
  abbrev IsSoundStorage : Storage → Type 0
  IsSoundStorage s =
      IsCanonical coll (several (read_aggregated_contexts jt s))
      × AreGroups (read_context_groups jt s)

  empty-IsSoundStorage : IsSoundStorage []
  unfolding read_aggregated_contexts read_string_array read_context_groups groups_of read_json
      Dict.get several
  empty-IsSoundStorage = ((tt, tt), record { distinct = tt; clean = tt })

  left_by-IsSoundStorage :
      (e : Session) (s : Storage)
      → IsStorableSession e
      → IsSoundStorage s
      → IsSoundStorage (left_by e s)
  left_by-IsSoundStorage e s storable (canonical, groups) =
      let start = boot jt e.prefers_dark e.now s e.classes in
      let (contexts, sound) =
        run-IsInvariant coll e.actions start
          (boot-IsInvariant jt coll e.prefers_dark e.now s e.classes canonical groups) in
      let saved =
        run-IsSaved jt coll e.actions start storable
          (boot-IsSaved jt coll e.prefers_dark e.now s e.classes) in
      (
        subst (IsCanonical coll) (sym (ap (λ (v : Settings). v.aggregated_contexts) saved))
            contexts.canonical,
        subst AreGroups (sym (ap (λ (v : Settings). v.context_groups) saved)) sound.grouped,
      )

  left_by_all-IsSoundStorage :
      (history : List Session) (s : Storage)
      → All IsStorableSession history
      → IsSoundStorage s
      → IsSoundStorage (left_by_all history s)
  left_by_all-IsSoundStorage [] s storable h = h
  left_by_all-IsSoundStorage (e ∷ history) s (first, rest) h =
      left_by_all-IsSoundStorage history (left_by e s) rest (left_by-IsSoundStorage e s first h)

  -- The invariant of the actions holds throughout the life of the program: from an empty localStorage,
  -- after any number of sessions, none of which picks an unknown theme, stores a group with an empty
  -- id, toggles an empty tag or adds a custom tag of an unknown color, a start puts it in place, and
  -- any actions that follow keep it.
  pub run-boot-IsInvariant :
      (history : List Session) (dark : Bool) (now : ℕ) (classes : List String)
      (actions : List Action)
      → All IsStorableSession history
      → IsInvariant coll (run coll actions (boot jt dark now (left_by_all history []) classes))
  run-boot-IsInvariant history dark now classes actions storable =
      let (canonical, groups) =
        left_by_all-IsSoundStorage history [] storable empty-IsSoundStorage in
      run-IsInvariant coll actions (boot jt dark now (left_by_all history []) classes)
        (boot-IsInvariant jt coll dark now (left_by_all history []) classes canonical groups)
