-- ===== src/Lib.antt =====
-- The state of the frontend of Klustr, a desktop client for Kubernetes: the stores under
-- frontend/src/store, the themes that the UI store uses, the change events of
-- frontend/src/lib/events.ts, functions on what the backend sends (the diagnosis of pods, the
-- filter of namespaces, ages and expiries), and the logic of the screens that keep state of their
-- own: the tags, the connection screen, the access review, the table of resources, the dialog that
-- synchronizes an application and the sidebar. A store is a zustand `create`: a record of state and
-- the operations that replace parts of it. Here a store's state is a record (or the map that it
-- consists of), an operation is a function from states to states with the code's guards and early
-- returns, and its name is the source's in snake case. Components read the stores through
-- selectors, which are functions of the state.
--
-- The parts and their files:
-- - Ui: store/ui.ts. `World` (Ui/State.antt) is the store's state, localStorage, the theme classes
--   of the page's root and whether the system's color preference is followed. The actions are in
--   Ui/Contexts (contexts and namespaces), Ui/Inspector (views and resources), Ui/Appearance (theme
--   and read-only mode), Ui/Sidebar, Ui/Tags and Ui/Groups; Ui/Actions lists all of them as data,
--   with `act`, `run` and the state at the start, `boot`. Ui/Views and Ui/Types are
--   store/ui.types.ts, Ui/Themes is features/_shared/themes.ts, and Ui/Persistence is
--   store/ui.persistence.ts: the writers, with the readers in Ui/Persistence/Read. Its `Settings`
--   are what a start reads of localStorage, `settings_of` (Ui/Actions/Saved) what the store holds
--   of them. Ui/Actions/Sessions chains sessions, each from a start until the program is closed,
--   on the localStorage that the last one left.
-- - Resources: store/resources.ts. The setters of the 57 kinds are one function of the kind.
-- - Metrics, Access, TablePrefs, Terminals, Crds, Favorites: the stores metrics.ts, access.ts,
--   tablePrefs.ts, terminals.ts, crds.ts and namespaceFavorites.ts.
-- - Events: lib/events.ts. A change from the backend is an event; the result holds the calls that
--   it makes of the handlers.
-- - PodDiagnosis, NamespaceFilter, Time: features/pods/podDiagnosis.ts, lib/namespaceFilter.ts and
--   lib/time.ts.
-- - ContextTags: features/contexts/contextTagMeta.ts, with the ids of new tags in ContextTags/Slug
--   and the form of ContextTagPicker.tsx in ContextTags/Picker.
-- - Connections: features/contexts/ConnectionsScreen.tsx. Sections is the list by tag, Connect the
--   buttons, the last session and the number keys.
-- - AccessReview: features/accessreview/AccessReviewView.tsx. Matrix is the table of resources and
--   verbs, Subjects the list to choose from.
-- - ResourceTable: features/_shared/ResourceTable.tsx (Columns, Rows, Selection, and Loading, the
--   effect that loads the contexts) and features/_shared/BulkActionDialogs.tsx (Bulk).
-- - Polling: features/pods/usePodMetricsPoll.ts (PodMetrics) and
--   features/nodes/useNodeMetricsPoll.ts (NodeMetrics) over the store of Metrics, and
--   features/_shared/useResourceDetail.ts (Detail).
-- - ArgoSync: features/argocd/SyncArgoApplicationDialog.tsx, the dialog that synchronizes an
--   application and polls its operation. `Date.parse` of a time is a field of the state.
-- - Navigation: the sidebar of App.tsx (groups, what is shown of them, arrow keys), with the groups
--   of features/_shared/resourceGroups.ts in Navigation/Groups, and
--   features/_shared/HiddenSidebarItemsButton.tsx in Navigation/Hidden.
-- - Dict, Storage, Collation, Prelude: objects used as dictionaries, localStorage with JSON,
--   sorting by `localeCompare`, and what all files share.
--
-- How they interact: the backend's change event (Events) makes the views fetch lists that they put
-- in Resources, Metrics or Crds by context; the UI store says which contexts are active, and
-- merging, accessibility, the sidebar and the metrics selectors take that list of contexts. The
-- connection screen calls the UI store's actions, the form for tags adds to it, and the table takes
-- its namespace query, writes the answers to the resource store and orders its columns by
-- TablePrefs.
--
-- What the model leaves to parameters: the order of `localeCompare` (`Collation`: a total preorder,
-- antisymmetric where a theorem says so; Collation/CodePoints is an instance), and the text of JSON
-- (`JsonText`: what the readers do on texts that the store did not write). What a writer stores as
-- JSON is kept as the JSON value, so reading it back parses what was printed.
--
-- An effect that asks the backend is a machine over events: a new run of the effect, an answer to
-- one of the requests under way, a refusal, a change event, a timer. A run is any list of events,
-- so answers come in any order and after the clean-up of the effect that asked. The state of a
-- dialog is modelled in the same way, by what the user does.
--
-- Time is an argument of the operations that read the clock, and a change of the system's color
-- preference is an event. Pixel widths and heights are integers, rounded already. JSON numbers, of
-- which the stores write only times, are natural numbers; `parseInt` (Prelude/Numerals) is exact
-- above 2^53. Printing a number takes as many steps of fuel as the number plus one, which is more
-- than it has digits. The search for a free tag id has as much fuel as there are names, plus one.
-- `toLowerCase` is modelled as far as a tag's id depends on it; elsewhere it and `toUpperCase` are
-- parameters, since they read the runtime's Unicode tables. Objects have their own entries only:
-- names that JavaScript objects inherit ("constructor") are special only where tags are shown
-- (ContextTags), and the order in which array indices are enumerated first is not modelled. A
-- handler of an event is the number of a function object.
--
-- Not modelled: the Go backend and the generated bindings, rendering by React components, xterm
-- palettes, zustand's middleware (`persist`), the two plain stores helm.ts and portForwards.ts, and
-- lib/quantity.ts (floating-point numbers).
pub mod Prelude
pub mod Dict
pub mod Collation
pub mod Storage
pub mod Ui
pub mod Resources
pub mod Metrics
pub mod Access
pub mod TablePrefs
pub mod Terminals
pub mod Crds
pub mod Favorites
pub mod Events
pub mod ContextTags
pub mod Connections
pub mod AccessReview
pub mod ResourceTable
pub mod Polling
pub mod ArgoSync
pub mod Navigation
pub mod PodDiagnosis
pub mod NamespaceFilter
pub mod Time
