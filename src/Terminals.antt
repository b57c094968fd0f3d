-- ===== src/Terminals.antt =====
-- store/terminals.ts: the tabs of the terminal drawer, its height and the preferred terminal. The
-- drawer's height at the start is not modelled: it comes from `Number` of a stored text.
mod Reachable
mod Tests
use Prim.Native.String
use klustr.Prelude.{
  ℕ, String, Bool, true, false, not, Option, none, some, List, [], ◌∷◌, ◌++◌, ◌==◌, if◌then◌else◌,
  keep, get_last?, min, max, ltb, length, ◌+◌,
}
use klustr.Prelude.Numerals.{ℤ, pos, negsuc, decimal}
use klustr.Dict
use klustr.Dict.{Dict}

pub record TerminalTab : Type 0 where
  pub tab_id : String
  pub context_name : String

-- `counter` is the module's variable. `storage` is localStorage, and `is_refused` says whether it
-- throws on a write (private browsing, a full quota).
pub record State : Type 0 where
  pub tabs : List TerminalTab
  pub active_tab_id : Option String
  pub drawer_open : Bool
  pub drawer_height : ℕ
  pub preferred_app_id : String
  pub counter : ℕ
  pub storage : Dict String
  pub is_refused : Bool

abbrev pub min_height : ℕ
min_height = 160

abbrev pub max_height : ℕ
max_height = 800

abbrev pub height_key : String
height_key = "klustr.terminal.height"

abbrev pub pref_app_key : String
pref_app_key = "klustr.terminal.preferredApp"

unfoldable pub write_height : ℕ → Bool → Dict String → Dict String
write_height h is_refused storage =
    if is_refused then storage else Dict.put storage height_key (decimal h)

unfoldable pub write_preferred_app_id : String → Bool → Dict String → Dict String
write_preferred_app_id id is_refused storage =
    if is_refused
    then storage
    else (if id == "" then Dict.remove storage pref_app_key else Dict.put storage pref_app_key id)

-- `nextTabId`, where `now` is `Date.now()`
abbrev pub tab_id_of : ℕ → ℕ → String
tab_id_of counter now =
    String.◌++◌ "tab-" (String.◌++◌ (decimal counter) (String.◌++◌ "-" (decimal now)))

unfoldable pub set_drawer_open : Bool → State → State
set_drawer_open is_open s = record s { drawer_open = is_open }

unfoldable pub toggle_drawer : State → State
toggle_drawer s = record s { drawer_open = not s.drawer_open }

-- `Math.min(MAX_HEIGHT, Math.max(MIN_HEIGHT, Math.round(height)))` of a height that is rounded
unfoldable pub clamped_height : ℤ → ℕ
clamped_height (pos n) = min max_height (max min_height n)
clamped_height (negsuc n) = min_height

unfoldable pub set_drawer_height : ℤ → State → State
set_drawer_height height s =
    let clamped = clamped_height height in
    record s { storage = write_height clamped s.is_refused s.storage; drawer_height = clamped }

unfoldable pub open_tab : String → ℕ → State → State
open_tab context_name now s =
    let counter = s.counter + 1 in
    let tab_id = tab_id_of counter now in
    record s {
      tabs = s.tabs ++ record { tab_id = tab_id; context_name = context_name } ∷ [];
      active_tab_id = some tab_id;
      drawer_open = true;
      counter = counter;
    }

abbrev pub is_other : String → TerminalTab → Bool
is_other id t = not (t.tab_id == id)

-- `remaining[remaining.length - 1]?.tabId ?? null`
abbrev pub last_tab_id : Option TerminalTab → Option String
last_tab_id none = none
last_tab_id (some t) = some t.tab_id

-- `activeTabId === tabId`
abbrev pub is_active : Option String → String → Bool
is_active none id = false
is_active (some a) id = a == id

unfoldable pub close_tab : String → State → State
close_tab tab_id s =
    let remaining = keep (is_other tab_id) s.tabs in
    record s {
      tabs = remaining;
      active_tab_id =
          if is_active s.active_tab_id tab_id
          then last_tab_id (get_last? remaining)
          else s.active_tab_id;
      drawer_open = if ltb 0 (length remaining) then s.drawer_open else false;
    }

unfoldable pub set_active_tab : String → State → State
set_active_tab tab_id s = record s { active_tab_id = some tab_id }

unfoldable pub set_preferred_app_id : String → State → State
set_preferred_app_id id s = record s {
  storage = write_preferred_app_id id s.is_refused s.storage;
  preferred_app_id = id;
}
