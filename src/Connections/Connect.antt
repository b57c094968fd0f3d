-- ===== src/Connections/Connect.antt =====
-- features/contexts/ConnectionsScreen.tsx: what the buttons and the number keys select.
pub mod Laws
pub mod Shortcuts
use Prim.Native.Nat.{Ordering}
use Prim.Native.String.{compare}
use Prim.Native.String as Str
use klustr.Prelude.{
  ℕ, zero, suc, ◌+◌, ◌-◌, String, Bool, true, false, not, ◌&&◌, ◌||◌, Option, none, some, List, [],
  ◌∷◌, ◌++◌, ◌==◌, if◌then◌else◌, ltb, length, any, keep, get_elem?, includes, without,
}
use klustr.Prelude.Numerals.{ℤ, pos, decimal, parse_int}
use klustr.Collation.{Collation}
use klustr.Ui.Types.{ContextGroup, LastSession}
use klustr.Ui.State.{World}
use klustr.Ui.Contexts.{set_selected_context, set_aggregated_contexts}
use klustr.Connections.Defs.{ContextInfo, is_listed}
use klustr.Connections.Sections.{GroupedSection}

-- The set of picked contexts, in the order of picking.
unfoldable pub toggle_pick : String → List String → List String
toggle_pick name prev = if includes name prev then without name prev else prev ++ name ∷ []

abbrev pub find_context : List ContextInfo → String → Option ContextInfo
find_context [] name = none
find_context (c ∷ cs) name = if c.name == name then some c else find_context cs name

-- `defaultContext ? contexts.find((c) => c.name === defaultContext) ?? null : null`
unfoldable pub hero_context : List ContextInfo → Option String → Option ContextInfo
hero_context contexts none = none
hero_context contexts (some name) = if name == "" then none else find_context contexts name

-- The last session with the contexts that still exist, and how many do not.
pub record ResolvedLastSession : Type 0 where
  pub contexts : List String
  pub group_id : Option String
  pub at : ℕ
  pub missing : ℕ

abbrev pub no_text : Option String → Bool
no_text none = true
no_text (some t) = t == ""

-- `heroContext && present.length === 1 && present[0] === heroContext.name`
abbrev pub is_hero : Option ContextInfo → List String → Bool
is_hero (some hero) (name ∷ []) = name == hero.name
is_hero _ _ = false

abbrev resolved : LastSession → Option ContextInfo → List String → Option ResolvedLastSession
resolved session hero [] = none
resolved session hero (c ∷ cs) =
    if is_hero hero (c ∷ cs) && no_text session.group_id
    then none
    else some (record {
      contexts = c ∷ cs;
      group_id = session.group_id;
      at = session.at;
      missing = length session.contexts - length (c ∷ cs);
    })

unfoldable pub resolved_last_session :
    List ContextInfo → Option ContextInfo → Option LastSession → Option ResolvedLastSession
resolved_last_session contexts hero none = none
resolved_last_session contexts hero (some session) =
    resolved session hero (keep (is_listed contexts) session.contexts)

-- `session.groupId && contextGroups.some((g) => g.id === session.groupId)`
abbrev pub group_still_exists : List ContextGroup → Option String → Bool
group_still_exists groups none = false
group_still_exists groups (some id) =
    not (id == "") && any (λ (g : ContextGroup). g.id == id) groups

abbrev pub text_lt : String → String → Bool
text_lt a b = elim (compare a b) [ Ordering.lt ↦ true | _ ↦ false ]

module _ (coll : Collation) (now : ℕ) where
  -- One name selects a context, and several select them all.
  unfoldable pub connect_members : List String → Option String → World → World
  connect_members [] group_id w = w
  connect_members (m ∷ []) group_id w = set_selected_context coll now (some m) w
  connect_members (m ∷ n ∷ ms) group_id w = set_aggregated_contexts coll now (m ∷ n ∷ ms) group_id w

  unfoldable pub connect_picked : List String → World → World
  unfolding connect_members
  connect_picked picked w = connect_members picked none w

  unfoldable pub connect_single : String → World → World
  connect_single name w = set_selected_context coll now (some name) w

  unfoldable pub connect_group : List ContextInfo → ContextGroup → World → World
  unfolding connect_members
  connect_group contexts group w =
      connect_members (keep (is_listed contexts) group.contexts) (some group.id) w

  unfoldable pub reconnect_last_session : List ContextInfo → ResolvedLastSession → World → World
  unfolding connect_members
  reconnect_last_session contexts session w =
      connect_members (keep (is_listed contexts) session.contexts)
        (if group_still_exists w.ui.context_groups session.group_id then session.group_id else none)
        w

  abbrev pub select_found : Option ContextInfo → World → World
  select_found none w = w
  select_found (some c) w = set_selected_context coll now (some c.name) w

  -- `orderedVisible[Number.parseInt(e.key, 10) - 1]`
  abbrev pub select_numbered : List ContextInfo → Option ℤ → World → World
  select_numbered visible (some (pos (suc i))) w = select_found (get_elem? visible i) w
  select_numbered visible _ w = w

  -- `onKey`, for a key with the state of the meta and control keys
  unfoldable pub on_key : List ContextInfo → Bool → Bool → String → World → World
  on_key visible meta_key ctrl_key key w =
      if not meta_key && not ctrl_key
      then w
      else if text_lt key "1" || text_lt "9" key
      then w
      else select_numbered visible (parse_int key) w

-- A context as its section shows it.
pub record Card : Type 0 where
  pub context : ContextInfo
  pub shortcut : Option String

-- `sections.slice(0, sectionIdx).reduce((acc, s) => acc + s.items.length, 0)`
unfoldable pub base_index : ℕ → List GroupedSection → ℕ
base_index acc [] = acc
base_index acc (s ∷ ss) = base_index (acc + length s.items) ss

module _ (is_mac : Bool) where
  unfoldable pub shortcut_hint : ℕ → Option String
  unfolding decimal
  shortcut_hint index =
      if ltb 8 index
      then none
      else some (Str.◌++◌ (if is_mac then "⌘" else "Ctrl") (decimal (index + 1)))

  -- The items of a `ContextSection`; `base_index + idx` goes up with the item.
  unfoldable pub item_cards : ℕ → List ContextInfo → List Card
  unfolding shortcut_hint
  item_cards index [] = []
  item_cards index (c ∷ cs) =
      record { context = c; shortcut = shortcut_hint index } ∷ item_cards (index + 1) cs

  -- `before` holds the sections of smaller index.
  unfoldable pub section_cards : List GroupedSection → List GroupedSection → List Card
  unfolding item_cards base_index
  section_cards before [] = []
  section_cards before (s ∷ ss) =
      item_cards (base_index 0 before) s.items ++ section_cards (before ++ s ∷ []) ss
