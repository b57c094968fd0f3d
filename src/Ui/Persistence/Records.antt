-- ===== src/Ui/Persistence/Records.antt =====
-- Reading back groups and sessions that store/ui.persistence.ts has stored.
use klustr.Prelude.{
  ℕ, String, ◌≡◌, ◌≢◌, refl, ◌∙◌, ap, true, false, Option, none, some, List, [], ◌∷◌, arith, eq_iff,
  includes, All,
}
use klustr.Storage.{arr, Storage, JsonText}
use klustr.Storage.Access.{strings_of, items_of_strings, strings_of-items_of_strings, member}
use klustr.Ui.Types.{ContextGroup, LastSession}
use klustr.Ui.Persistence.{
  is_valid_group_color, persist_context_groups, context_groups_key, groups_items, group_json,
  persist_last_session, last_session_key, session_json,
}
use klustr.Ui.Persistence.Read.{
  nonempty_strings, group_of, groups_of, read_context_groups, session_of, read_last_session,
}
use klustr.Ui.Persistence.RoundTrip.{read_json-put, read_json-remove, nonempty_strings_lem}

-- A group that the reader takes as it is.
abbrev pub IsReadable : ContextGroup → Type 0
IsReadable g =
    (g.id ≢ "")
    × (g.name ≢ "")
    × (includes "" g.contexts ≡ false)
    × (is_valid_group_color g.color ≡ true)

group_of-group_json : (g : ContextGroup) → IsReadable g → group_of (group_json g) ≡ some g
unfolding group_of group_json member
group_of-group_json g (hid, hname, hctx, hcolor) =
    let e =
      ap nonempty_strings (strings_of-items_of_strings g.contexts)
      ∙ nonempty_strings_lem g.contexts hctx in
    ground (arith, eq_iff g.id "", eq_iff g.name "", e)

groups_of-groups_items :
    (gs : List ContextGroup) → All IsReadable gs → groups_of (groups_items gs) ≡ gs
unfolding groups_of groups_items
groups_of-groups_items [] h = refl
groups_of-groups_items (g ∷ gs) (h, hs) =
    ground (arith, group_of-group_json g h, groups_of-groups_items gs hs)

pub read-persist_groups :
    (jt : JsonText) (gs : List ContextGroup) (s : Storage)
    → All IsReadable gs
    → read_context_groups jt (persist_context_groups gs s) ≡ gs
unfolding read_context_groups persist_context_groups
read-persist_groups jt [] s h = ground (arith, read_json-remove jt s context_groups_key)
read-persist_groups jt (g ∷ gs) s h = ground (
  arith,
  read_json-put jt s context_groups_key (arr (groups_items (g ∷ gs))),
  groups_of-groups_items (g ∷ gs) h,
)

-- A session that the reader takes as it is.
abbrev pub IsSession : LastSession → Type 0
IsSession session =
    (session.contexts ≢ []) × (includes "" session.contexts ≡ false) × (session.group_id ≢ some "")

session_of_parts :
    (now : ℕ) (cs : List String) (g : Option String) (at : ℕ)
    → IsSession (record { contexts = cs; group_id = g; at = at })
    → session_of now (session_json (record { contexts = cs; group_id = g; at = at }))
      ≡ some (record { contexts = cs; group_id = g; at = at })
unfolding session_of session_json member
session_of_parts now [] g at h = absurd (h.0 refl)
session_of_parts now (x ∷ xs) g at (_, clean, named) =
    let e : nonempty_strings (strings_of (items_of_strings (x ∷ xs))) ≡ x ∷ xs =
      ap nonempty_strings (strings_of-items_of_strings (x ∷ xs))
      ∙ nonempty_strings_lem (x ∷ xs) clean in
    at_group g named e
  where
    at_group :
        (g : Option String)
        → g ≢ some ""
        → nonempty_strings (strings_of (items_of_strings (x ∷ xs))) ≡ x ∷ xs
        → session_of now (session_json (record { contexts = x ∷ xs; group_id = g; at = at }))
          ≡ some (record { contexts = x ∷ xs; group_id = g; at = at })
    at_group none named e = ground (arith, e)
    at_group (some t) named e = ground (arith, e, eq_iff t "")

read-persist_session :
    (jt : JsonText) (now : ℕ) (session : LastSession) (s : Storage)
    → IsSession session
    → read_last_session jt now (persist_last_session (some session) s) ≡ some session
unfolding read_last_session persist_last_session
read-persist_session jt now session s h = ground (
  arith,
  read_json-put jt s last_session_key (session_json session),
  session_of_parts now session.contexts session.group_id session.at h,
)

-- The groups and the last session are read back as they were stored, where every group has an id, a
-- name, a known color and no empty context, and the session has contexts, none of them empty, and no
-- empty group id; a session that was cleared is read as none.
pub read-persist_records :
    (jt : JsonText) (now : ℕ) (gs : List ContextGroup) (session : LastSession) (s : Storage)
    → All IsReadable gs
    → IsSession session
    → (read_context_groups jt (persist_context_groups gs s) ≡ gs)
      × (read_last_session jt now (persist_last_session (some session) s) ≡ some session)
      × (read_last_session jt now (persist_last_session none s) ≡ none)
read-persist_records jt now gs session s hg hs = (
  read-persist_groups jt gs s hg,
  read-persist_session jt now session s hs,
  unfold read_last_session persist_last_session in
      ground (arith, read_json-remove jt s last_session_key),
)
