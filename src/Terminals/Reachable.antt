-- ===== src/Terminals/Reachable.antt =====
-- The states that the operations of store/terminals.ts reach, and what holds in each of them.
use klustr.Prelude.{
  ℕ, String, ◌≡◌, refl, ap, Bool, true, false, not, Option, none, some, List, [], ◌∷◌, ◌++◌, ◌==◌,
  ◌&&◌, ◌||◌, arith, eq_iff, eq_refl, if◌then◌else◌, keep, any, get_last?, ◌≤◌, ◌+◌,
}
use klustr.Prelude.Numerals.{ℤ, pos, negsuc}
use klustr.Terminals
use klustr.Terminals.{
  State, TerminalTab, is_other, is_active, last_tab_id, clamped_height, min_height, max_height,
  tab_id_of,
}

abbrev pub has_tab : String → List TerminalTab → Bool
has_tab id tabs = any (λ (t : TerminalTab). t.tab_id == id) tabs

-- The operations, where a tab that is made active is one of the drawer's.
pub data Step (s : State) : State → Type 0 where
  set_drawer_open : (is_open : Bool) → Step s (Terminals.set_drawer_open is_open s)
  toggle_drawer : Step s (Terminals.toggle_drawer s)
  set_drawer_height : (height : ℤ) → Step s (Terminals.set_drawer_height height s)
  open_tab : (context : String) (now : ℕ) → Step s (Terminals.open_tab context now s)
  close_tab : (id : String) → Step s (Terminals.close_tab id s)
  set_active_tab : (id : String) → has_tab id s.tabs ≡ true → Step s (Terminals.set_active_tab id s)
  set_preferred_app_id : (id : String) → Step s (Terminals.set_preferred_app_id id s)

pub data Steps (s : State) : State → Type 0 where
  done : Steps s s
  then_step : {t u : State} → Steps s t → Step t u → Steps s u

-- The active tab is open, and there is one where a tab is open.
abbrev pub active_is_open : Option String → List TerminalTab → Bool
active_is_open none [] = true
active_is_open none (t ∷ tabs) = false
active_is_open (some id) tabs = has_tab id tabs

abbrev pub IsSound : State → Type 0
IsSound s =
    (active_is_open s.active_tab_id s.tabs ≡ true)
    × (min_height ≤ s.drawer_height)
    × (s.drawer_height ≤ max_height)

has_tab-append :
    (id : String) (xs ys : List TerminalTab)
    → has_tab id (xs ++ ys) ≡ (has_tab id xs || has_tab id ys)
has_tab-append id [] ys = refl
has_tab-append id (x ∷ xs) ys = ground (arith, has_tab-append id xs ys)

has_tab-keep :
    (id closed : String) (tabs : List TerminalTab)
    → has_tab id (keep (is_other closed) tabs) ≡ (not (id == closed) && has_tab id tabs)
has_tab-keep id closed [] = ground arith
has_tab-keep id closed (t ∷ tabs) = ground (
  arith,
  has_tab-keep id closed tabs,
  eq_iff t.tab_id closed,
  eq_iff t.tab_id id,
  eq_iff id closed,
)

abbrev has_some : List TerminalTab → Bool
has_some [] = false
has_some (t ∷ tabs) = true

active_is_open-cons :
    (t : TerminalTab) (tabs : List TerminalTab) (last : Option TerminalTab)
    → active_is_open (last_tab_id last) tabs ≡ true
    → has_some tabs ≡ true
    → active_is_open (last_tab_id last) (t ∷ tabs) ≡ true
active_is_open-cons t [] none h k = ground (arith, k)
active_is_open-cons t (u ∷ tabs) none h k = ground (arith, h)
active_is_open-cons t tabs (some l) h k = ground (arith, h)

last-active_is_open :
    (tabs : List TerminalTab) → active_is_open (last_tab_id (get_last? tabs)) tabs ≡ true
last-active_is_open [] = refl
last-active_is_open (t ∷ []) = ground (arith, eq_refl t.tab_id)
last-active_is_open (t ∷ u ∷ tabs) =
    active_is_open-cons t (u ∷ tabs) (get_last? (u ∷ tabs)) (last-active_is_open (u ∷ tabs)) refl

clamped_height_lem : (h : ℤ) → (min_height ≤ clamped_height h) × (clamped_height h ≤ max_height)
unfolding clamped_height
clamped_height_lem (pos n) = (omega arith, omega arith)
clamped_height_lem (negsuc n) = (omega arith, omega arith)

close-active_is_open :
    (id : String) (active : Option String) (tabs : List TerminalTab)
    → active_is_open active tabs ≡ true
    → active_is_open
        (if is_active active id then last_tab_id (get_last? (keep (is_other id) tabs)) else active)
        (keep (is_other id) tabs)
      ≡ true
close-active_is_open id none [] h = refl
close-active_is_open id none (t ∷ tabs) h = ground (arith, h)
close-active_is_open id (some a) tabs h =
    ground
      (arith, h, last-active_is_open (keep (is_other id) tabs), has_tab-keep a id tabs, eq_iff a id)

Step-IsSound : (s t : State) → Step s t → IsSound s → IsSound t
unfolding Terminals.set_drawer_open Terminals.toggle_drawer Terminals.set_drawer_height
    Terminals.open_tab Terminals.close_tab Terminals.set_active_tab Terminals.set_preferred_app_id
Step-IsSound s _ (set_drawer_open b) h = h
Step-IsSound s _ toggle_drawer h = h
Step-IsSound s _ (set_drawer_height height) h = let b = clamped_height_lem height in (h.0, b.0, b.1)
Step-IsSound s _ (open_tab context now) h =
    let id = tab_id_of (s.counter + 1) now in
    (
      ground (
        arith,
        has_tab-append id s.tabs (record { tab_id = id; context_name = context } ∷ []),
        eq_refl id,
      ),
      h.1,
      h.2,
    )
Step-IsSound s _ (close_tab id) h = (close-active_is_open id s.active_tab_id s.tabs h.0, h.1, h.2)
Step-IsSound s _ (set_active_tab id k) h = (k, h.1, h.2)
Step-IsSound s _ (set_preferred_app_id id) h = h

-- After any sequence of operations that makes only open tabs active, from a state in which this holds:
-- the active tab is one of the open tabs, there is one unless no tab is open, and the drawer's height
-- is between 160 and 800.
pub Steps-IsSound : (s t : State) → Steps s t → IsSound s → IsSound t
Steps-IsSound s _ done h = h
Steps-IsSound s u (then_step {t = t} path step) h = Step-IsSound t u step (Steps-IsSound s t path h)

keep-snoc :
    (id context : String) (tabs : List TerminalTab)
    → has_tab id tabs ≡ false
    → keep (is_other id) (tabs ++ record { tab_id = id; context_name = context } ∷ []) ≡ tabs
keep-snoc id context [] h = ground (arith, eq_refl id)
keep-snoc id context (t ∷ tabs) h = ground (arith, h, keep-snoc id context tabs)

-- Closing the tab that was just opened gives back the tabs, and makes the last of them active. No tab
-- had the new tab's id.
pub close_tab-open_tab :
    (context : String) (now : ℕ) (s : State)
    → has_tab (tab_id_of (s.counter + 1) now) s.tabs ≡ false
    → ((Terminals.close_tab (tab_id_of (s.counter + 1) now) (Terminals.open_tab context now s)).tabs
        ≡ s.tabs)
      × ((Terminals.close_tab
            (tab_id_of (s.counter + 1) now)
            (Terminals.open_tab context now s)).active_tab_id
          ≡ last_tab_id (get_last? s.tabs))
unfolding Terminals.close_tab Terminals.open_tab
close_tab-open_tab context now s h =
    let id = tab_id_of (s.counter + 1) now in
    let t : TerminalTab = record { tab_id = id; context_name = context } in
    let e = keep-snoc id context s.tabs h in
    (
      e,
      ground (arith, eq_refl id, ap (λ (tabs : List TerminalTab). last_tab_id (get_last? tabs)) e),
    )
