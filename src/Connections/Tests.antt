-- ===== src/Connections/Tests.antt =====
-- Tests of the connection screen, and the theorems at concrete inputs.
use klustr.Prelude.{
  length, ◌<◌, ◌&&◌, String, Bool, true, false, none, some, List, arith, eq_iff, includes,
  same_list, refl, ◌≡◌, ◌==◌, ◌∷◌, [],
}
use klustr.Connections.Sections.Spread.{count}
use klustr.Connections.Sections.Laws.{count-ordered_visible-sections}
use klustr.Connections.Connect.Laws.{
  AreListed, offer, reconnect_last_session-set_aggregated_contexts,
}
use klustr.Connections.Connect.Shortcuts.{on_key-section_cards}
use Prim.Native.String as Str
use klustr.Prelude.{if◌then◌else◌, suc}
use klustr.Prelude.Numerals.{decimal}
use klustr.Ui.Contexts.{set_selected_context}
use klustr.Connections.Connect.{
  Card, hero_context, on_key, reconnect_last_session, resolved_last_session, section_cards,
  toggle_pick,
}
use klustr.Connections.Sections.{GroupedSection, ordered_visible, sections}
use klustr.Connections.Defs.{ContextInfo}
use klustr.Ui.Contexts.Selection.{active}
use klustr.Ui.Contexts.{set_aggregated_contexts}
use klustr.Collation.CodePoints.{code_le, code_points}
use klustr.Ui.Contexts.{same_group}
use klustr.Ui.State.{effective_context_list}
use klustr.Ui.Types.{CustomTagDef}
use klustr.Ui.Fixtures.{started, tier}
use klustr.Dict
use klustr.Dict.{Dict, get, has, keys, put}
use klustr.Prelude.{get_elem?}
use klustr.Collation.{dedupe_sorted, sort}

abbrev info : String → ContextInfo
info name = record { name = name; cluster = ""; server = ""; user = ""; namespace = "" }

-- One production context, one with a user's tag, two without a tag.
abbrev listed : List ContextInfo
listed = info "stage" ∷ info "eu" ∷ info "prod" ∷ info "dev" ∷ []

abbrev tags : Dict (List String)
tags = ("prod", "prod" ∷ "tier" ∷ []) ∷ ("eu", "tier" ∷ []) ∷ []

abbrev user_tags : Dict CustomTagDef
user_tags = ("tier", tier) ∷ []

abbrev shown : List GroupedSection
shown = sections code_points listed tags user_tags

-- Production first, then the user's tags, then the contexts without a tag, in the list's order.
shown_order : ordered_visible shown ≡ info "prod" ∷ info "eu" ∷ info "stage" ∷ info "dev" ∷ []
unfolding ordered_visible sections code_le Dict.get Dict.put sort Dict.keys includes
shown_order = refl

abbrev is_prod : ContextInfo → Bool
is_prod c = c.name == "prod"

abbrev eu_card : Card
eu_card = record { context = info "eu"; shortcut = some "Ctrl2" }

eu_card-shown : get_elem? (section_cards false [] shown) 1 ≡ some eu_card
unfolding section_cards sections code_le Dict.get Dict.put sort Dict.keys includes
eu_card-shown = refl

-- A key that is no digit from 1 to 9 selects nothing.
zero_key : on_key code_points 1 listed true false "0" started ≡ started
unfolding on_key
zero_key = refl

letter_key : on_key code_points 1 listed true false "k" started ≡ started
unfolding on_key
letter_key = refl

eu_picked : toggle_pick "eu" ("prod" ∷ []) ≡ "prod" ∷ "eu" ∷ []
unfolding toggle_pick includes
eu_picked = refl

-- Without a default context, every session with a context that is listed is offered.
abbrev fleet_members : List String
fleet_members = "prod" ∷ "stage" ∷ []

fleet_named : includes "" fleet_members ≡ false
unfolding includes
fleet_named = refl

fleet_listed : AreListed listed fleet_members
unfolding includes
fleet_listed n h = ground (arith, eq_iff "prod" n, eq_iff "stage" n)

fleet-IsSeveral : 1 < length (dedupe_sorted code_points fleet_members)
unfolding dedupe_sorted code_le includes
fleet-IsSeveral = omega arith

fleet-IsNew :
    (same_list (dedupe_sorted code_points fleet_members) (active started)
      && same_group started.ui.active_group_id none)
    ≡ false
unfolding dedupe_sorted code_le includes same_list effective_context_list
fleet-IsNew = refl

-- The default context has a card of its own: its session is not offered again.
hero_session :
    resolved_last_session listed
      (hero_context listed (some "eu"))
      (some (record { contexts = "eu" ∷ []; group_id = none; at = 1 }))
    ≡ none
unfolding resolved_last_session hero_context
hero_session = refl

count-ordered_visible-sections_example :
    count is_prod (ordered_visible (sections code_points listed tags user_tags))
    ≡ count is_prod listed
count-ordered_visible-sections_example =
    count-ordered_visible-sections code_points listed tags user_tags is_prod

reconnect_last_session-set_aggregated_contexts_example :
    (resolved_last_session listed none
        (set_aggregated_contexts code_points 1 fleet_members none started).ui.last_session
      ≡ some (offer (dedupe_sorted code_points fleet_members) none 1))
    × (active (
          reconnect_last_session code_points 2 listed
            (offer (dedupe_sorted code_points fleet_members) none 1)
            started)
        ≡ active (set_aggregated_contexts code_points 1 fleet_members none started))
reconnect_last_session-set_aggregated_contexts_example =
    reconnect_last_session-set_aggregated_contexts code_points 1 2 fleet_members none started
      started listed none fleet_named fleet_listed fleet-IsSeveral fleet-IsNew

on_key-section_cards_example :
    (eu_card.shortcut ≡ some (Str.◌++◌ (if false then "⌘" else "Ctrl") (decimal (suc 1))))
    × (on_key code_points 1 (ordered_visible shown) false true (decimal (suc 1)) started
        ≡ set_selected_context code_points 1 (some eu_card.context.name) started)
on_key-section_cards_example =
    on_key-section_cards code_points 1 false shown 1 eu_card false true started (omega arith)
      eu_card-shown refl
