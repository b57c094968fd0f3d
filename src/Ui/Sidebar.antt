-- ===== src/Ui/Sidebar.antt =====
-- store/ui.ts: the sidebar's mode, width and groups, and the items hidden in each context.
pub mod Hidden
pub mod Entries
use klustr.Prelude.{
  ℕ, String, Bool, true, false, not, Option, none, some, List, [], ◌∷◌, ◌++◌, if◌then◌else◌, eqb,
  or_else, includes, without, keep, all, map,
}
use klustr.Prelude.Numerals.{ℤ}
use klustr.Dict
use klustr.Dict.{Dict}
use klustr.Ui.Views.{ResourceView, view_name}
use klustr.Ui.Types.{SidebarMode, expanded, icons}
use klustr.Ui.Persistence.{
  persist_sidebar_mode, persist_sidebar_width, clamp_sidebar_width, persist_collapsed_nav_groups,
  persist_expanded_crd_groups, persist_hidden_sidebar_items_by_context,
}
use klustr.Ui.State.{UiState, World, effective_context_list}

abbrev pub other_mode : SidebarMode → SidebarMode
other_mode expanded = icons
other_mode icons = expanded

unfoldable pub toggle_sidebar_mode : World → World
toggle_sidebar_mode w = record w {
  ui = record w.ui { sidebar_mode = other_mode w.ui.sidebar_mode };
  storage = persist_sidebar_mode (other_mode w.ui.sidebar_mode) w.storage;
}

unfoldable pub set_sidebar_width : ℤ → World → World
set_sidebar_width px w =
    let next = clamp_sidebar_width px in
    if eqb next w.ui.sidebar_width then w else record w {
      ui = record w.ui { sidebar_width = next };
      storage = persist_sidebar_width next w.storage;
    }

unfoldable pub toggle_label : String → List String → List String
toggle_label label list = if includes label list then without label list else list ++ label ∷ []

unfoldable pub toggle_nav_group : String → World → World
unfolding toggle_label
toggle_nav_group label w =
    let next = toggle_label label w.ui.collapsed_nav_groups in
    record w {
      ui = record w.ui { collapsed_nav_groups = next };
      storage = persist_collapsed_nav_groups next w.storage;
    }

unfoldable pub toggle_crd_group : String → World → World
unfolding toggle_label
toggle_crd_group label w =
    let next = toggle_label label w.ui.expanded_crd_groups in
    record w {
      ui = record w.ui { expanded_crd_groups = next };
      storage = persist_expanded_crd_groups next w.storage;
    }

abbrev pub HiddenItems : Type 0
HiddenItems = Dict (List String)

-- A loop over the active contexts. A round gives the new map, or `none` where it changes nothing;
-- the flag is the variable `changed`.
unfoldable pub for_contexts :
    (String → HiddenItems → Option HiddenItems)
    → List String
    → HiddenItems
    → Bool
    → HiddenItems × Bool
for_contexts round [] next changed = (next, changed)
for_contexts round (ctx ∷ ctxs) next changed = elim (round ctx next) [
  | none ↦ for_contexts round ctxs next changed
  | some next' ↦ for_contexts round ctxs next' true
]

unfoldable pub hide_in : String → String → HiddenItems → Option HiddenItems
hide_in view ctx next =
    let list = or_else (Dict.get next ctx) [] in
    if includes view list then none else some (Dict.put next ctx (list ++ view ∷ []))

abbrev pub put_or_delete : HiddenItems → String → List String → HiddenItems
put_or_delete next ctx [] = Dict.remove next ctx
put_or_delete next ctx (v ∷ vs) = Dict.put next ctx (v ∷ vs)

unfoldable pub show_in : String → String → HiddenItems → Option HiddenItems
show_in view ctx next = elim (Dict.get next ctx) [
  | none ↦ none
  | some list ↦
      if includes view list then some (put_or_delete next ctx (without view list)) else none
]

unfoldable pub clear_in : String → HiddenItems → Option HiddenItems
clear_in ctx next = if Dict.has next ctx then some (Dict.remove next ctx) else none

-- What follows the loop: nothing is stored unless something changed.
unfoldable pub if_changed : HiddenItems × Bool → World → World
if_changed (next, changed) w =
    if changed
    then record w {
      ui = record w.ui { hidden_sidebar_items_by_context = next };
      storage = persist_hidden_sidebar_items_by_context next w.storage;
    }
    else w

-- `if (ctxs.length === 0) return s`, then the loop
unfoldable pub update_hidden :
    (String → HiddenItems → Option HiddenItems) → List String → World → World
unfolding for_contexts if_changed
update_hidden round [] w = w
update_hidden round (ctx ∷ ctxs) w =
    if_changed (for_contexts round (ctx ∷ ctxs) w.ui.hidden_sidebar_items_by_context false) w

unfoldable pub hide_sidebar_item : ResourceView → World → World
unfolding update_hidden hide_in
hide_sidebar_item view w = update_hidden (hide_in (view_name view)) (effective_context_list w.ui) w

unfoldable pub show_sidebar_item : ResourceView → World → World
unfolding update_hidden show_in
show_sidebar_item view w = update_hidden (show_in (view_name view)) (effective_context_list w.ui) w

unfoldable pub clear_hidden_sidebar_items : World → World
unfolding update_hidden clear_in
clear_hidden_sidebar_items w = update_hidden clear_in (effective_context_list w.ui) w

-- `hiddenSidebarItemsByContext[ctx] ?? []`
abbrev pub hidden_in : HiddenItems → String → List String
hidden_in map ctx = or_else (Dict.get map ctx) []

-- The selector of `useEffectiveHiddenSidebarItems`, over the active contexts.
unfoldable pub hidden_in_all : HiddenItems → List String → List String
hidden_in_all map [] = []
hidden_in_all map (ctx ∷ []) = hidden_in map ctx
hidden_in_all map (ctx ∷ ctx' ∷ ctxs) =
    keep (λ v. all (λ c. includes v (hidden_in map c)) (ctx' ∷ ctxs)) (hidden_in map ctx)

unfoldable pub effective_hidden_sidebar_items : UiState → List String
unfolding hidden_in_all
effective_hidden_sidebar_items s =
    hidden_in_all s.hidden_sidebar_items_by_context (effective_context_list s)
