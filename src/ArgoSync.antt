-- ===== src/ArgoSync.antt =====
-- features/argocd/SyncArgoApplicationDialog.tsx: the dialog that synchronizes an application, as a
-- machine over what the user does, what the backend answers, and the clock.
pub mod Laws
mod Current
mod Timeout
mod Tests
use klustr.Prelude.{
  ℕ, ◌+◌, String, ◌==◌, Bool, true, false, ◌&&◌, Option, none, some, ◌⊎◌, inl, inr, List, [], ◌∷◌,
  ◌++◌, if◌then◌else◌, eqb, leb, get_elem?, drop_at, or_else, includes, without, keep, map, length,
}
use Prim.Native.String as Str

-- The fields that are read of `ArgoApplicationResource`, which are those of
-- `ArgoSyncResourceSelector`.
pub record Resource : Type 0 where
  pub group : String
  pub kind : String
  pub namespace : String
  pub name : String

-- The fields that are read of `ArgoOperationState`. `startedAt` is the moment that it denotes in
-- milliseconds, 0 where it is empty, and `none` where `Date.parse` gives no number.
pub record OperationState : Type 0 where
  pub phase : String
  pub started_at_ms : Option ℕ

pub data Strategy : Type 0 where
  hook apply : Strategy

-- The set of selected keys is a list without repetitions.
pub record FormState : Type 0 where
  pub revision : String
  pub dry_run : Bool
  pub prune : Bool
  pub force : Bool
  pub replace : Bool
  pub server_side_apply : Bool
  pub strategy : Strategy
  pub selected : List String

abbrev pub default_form : FormState
default_form = record {
  revision = "";
  dry_run = false;
  prune = true;
  force = false;
  replace = false;
  server_side_apply = false;
  strategy = hook;
  selected = [];
}

-- `${r.group}|${r.kind}|${r.namespace}|${r.name}`
abbrev pub resource_key : Resource → String
resource_key r =
    Str.◌++◌ r.group
      (Str.◌++◌ "|" (Str.◌++◌ r.kind (Str.◌++◌ "|" (Str.◌++◌ r.namespace (Str.◌++◌ "|" r.name)))))

abbrev pub terminal_phases : List String
terminal_phases = "Succeeded" ∷ "Failed" ∷ "Error" ∷ []

pub data Phase : Type 0 where
  form : Phase
  polling : ℕ → Bool → Phase
  results : OperationState → Bool → Phase
  timeout : Bool → Phase

-- `selectedResources`: none stands for all.
unfoldable pub selected_resources : List String → List Resource → List Resource
unfolding includes
selected_resources [] managed = []
selected_resources (k ∷ ks) managed = keep (λ r. includes (resource_key r) (k ∷ ks)) managed

-- A question about the operation that is not answered: the run of the effect that asked it, and the
-- phase that the effect closes over.
pub record Poll : Type 0 where
  pub run : ℕ
  pub kickoff_ms : ℕ
  pub was_dry_run : Bool

-- `run` counts the runs of the polling effect, one for every new phase or target: `cancelled` holds
-- in all but the last. `syncs` has the dry-run flag of each synchronization that is under way.
pub record Dialog : Type 0 where
  pub is_open : Bool
  pub context_name : Option String
  pub form_state : FormState
  pub phase : Phase
  pub run : ℕ
  pub polls : List Poll
  pub syncs : List Bool

pub data Event : Type 0 where
  set_open : Bool → Event
  edit : FormState → Event
  toggle_selected : String → Event
  synchronize : Event
  sync_done : ℕ → ℕ → Bool → Event
  tick : Event
  answer : ℕ → Option OperationState → Event
  time_out : Event
  run_for_real : Event

-- `!contextName`
abbrev pub has_name : Option String → Bool
has_name none = false
has_name (some name) = if name == "" then false else true

abbrev pub is_polling : Phase → Bool
is_polling (Phase.polling kickoff_ms was_dry_run) = true
is_polling _ = false

abbrev pub ask_in : Phase → Dialog → Dialog
ask_in (Phase.polling kickoff_ms was_dry_run) d =
    if has_name d.context_name
    then record d {
      polls =
          d.polls
          ++ record { run = d.run; kickoff_ms = kickoff_ms; was_dry_run = was_dry_run } ∷ [];
    }
    else d
ask_in _ d = d

-- `tick` of the effect's last run
unfoldable pub asked : Dialog → Dialog
asked d = ask_in d.phase d

-- `setPhase`, and the run of the polling effect that follows.
unfoldable pub set_phase : Phase → Dialog → Dialog
unfolding asked
set_phase phase d = asked (record d { phase = phase; run = d.run + 1 })

abbrev pub toggled : String → FormState → FormState
toggled key s = record s {
  selected = if includes key s.selected then without key s.selected else s.selected ++ key ∷ [];
}

-- `startedAtMs >= phase.kickoffMs - 2_000`
abbrev pub is_fresh : ℕ → OperationState → Bool
is_fresh kickoff_ms state = elim state.started_at_ms [
  | none ↦ false
  | some ms ↦ leb kickoff_ms (ms + 2000)
]

abbrev pub is_final : ℕ → OperationState → Bool
is_final kickoff_ms state = includes state.phase terminal_phases && is_fresh kickoff_ms state

abbrev pub heard : Poll → OperationState → Dialog → Dialog
heard q state d =
    if is_final q.kickoff_ms state then set_phase (Phase.results state q.was_dry_run) d else d

-- A question that fails is ignored.
abbrev pub answered : Option Poll → ℕ → Option OperationState → Dialog → Dialog
answered none i reply d = d
answered (some q) i none d = record d { polls = drop_at d.polls i }
answered (some q) i (some state) d =
    if eqb q.run d.run
    then heard q state (record d { polls = drop_at d.polls i })
    else record d { polls = drop_at d.polls i }

-- `onSuccess` and `onError`
abbrev pub sync_settled : Option Bool → ℕ → ℕ → Bool → Dialog → Dialog
sync_settled none i now ok d = d
sync_settled (some was_dry_run) i now ok d =
    if ok
    then set_phase (Phase.polling now was_dry_run) (record d { syncs = drop_at d.syncs i })
    else record d { syncs = drop_at d.syncs i }

abbrev pub timed_out : Phase → Dialog → Dialog
timed_out (Phase.polling kickoff_ms was_dry_run) d =
    if has_name d.context_name then set_phase (Phase.timeout was_dry_run) d else d
timed_out _ d = d

-- The button stands below the results of a dry-run that succeeded.
abbrev pub ran_for_real : Phase → Dialog → Dialog
ran_for_real (Phase.results state was_dry_run) d =
    if was_dry_run && state.phase == "Succeeded"
    then set_phase Phase.form (record d { form_state = record d.form_state { dry_run = false } })
    else d
ran_for_real _ d = d

-- One event: the dialog is opened or closed, the form is changed, a synchronization is started or is
-- done, the interval of the polling runs out, a question is answered or fails, the polling times out,
-- or the user goes on after a dry-run.
unfoldable pub handle : Event → Dialog → Dialog
unfolding includes
handle (Event.set_open true) d = record d { is_open = true }
handle (Event.set_open false) d =
    set_phase Phase.form (record d { is_open = false; form_state = default_form })
handle (Event.edit form_state) d = record d { form_state = form_state }
handle (Event.toggle_selected key) d = record d { form_state = toggled key d.form_state }
handle Event.synchronize d =
    if has_name d.context_name then record d { syncs = d.syncs ++ d.form_state.dry_run ∷ [] } else d
handle (Event.sync_done i now ok) d = sync_settled (get_elem? d.syncs i) i now ok d
handle Event.tick d = asked d
handle (Event.answer i reply) d = answered (get_elem? d.polls i) i reply d
handle Event.time_out d = timed_out d.phase d
handle Event.run_for_real d = ran_for_real d.phase d

unfoldable pub handle_all : List Event → Dialog → Dialog
unfolding handle
handle_all [] d = d
handle_all (e ∷ events) d = handle_all events (handle e d)

-- The dialog of one application, closed.
abbrev pub mounted : Option String → Dialog
mounted context_name = record {
  is_open = false;
  context_name = context_name;
  form_state = default_form;
  phase = Phase.form;
  run = 0;
  polls = [];
  syncs = [];
}
