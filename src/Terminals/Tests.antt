-- ===== src/Terminals/Tests.antt =====
-- Opening a tab and resizing the drawer, with a localStorage that refuses writes.
use klustr.Prelude.{true, false, none, arith, refl, ◌≡◌, []}
use klustr.Terminals
use klustr.Terminals.{State, close_tab, last_tab_id, open_tab, set_drawer_height, tab_id_of}
use klustr.Terminals.Reachable.{IsSound, Step, Steps, has_tab, Steps-IsSound}
use klustr.Terminals.Reachable.{done, then_step}
use klustr.Terminals.Reachable.{Step}
use klustr.Prelude.Numerals.{pos}

abbrev closed_drawer : State
closed_drawer = record {
  tabs = [];
  active_tab_id = none;
  drawer_open = false;
  drawer_height = 320;
  preferred_app_id = "";
  counter = 0;
  storage = [];
  is_refused = true;
}

abbrev with_tab : State
with_tab = Terminals.open_tab "prod" 5 closed_drawer

closed_drawer-IsSound : IsSound closed_drawer
closed_drawer-IsSound = (refl, omega arith, omega arith)

opened_and_resized : Steps closed_drawer (Terminals.set_drawer_height (pos 4000) with_tab)
opened_and_resized =
    then_step (then_step done (Step.open_tab "prod" 5)) (Step.set_drawer_height (pos 4000))

no_such_tab : has_tab (tab_id_of 1 5) closed_drawer.tabs ≡ false
no_such_tab = refl

Steps-IsSound_example : IsSound (Terminals.set_drawer_height (pos 4000) with_tab)
Steps-IsSound_example =
    Steps-IsSound closed_drawer (Terminals.set_drawer_height (pos 4000) with_tab) opened_and_resized
      closed_drawer-IsSound
