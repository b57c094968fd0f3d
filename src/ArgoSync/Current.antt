-- ===== src/ArgoSync/Current.antt =====
-- features/argocd/SyncArgoApplicationDialog.tsx: the results that a run of the dialog shows.
use klustr.Prelude.{
  ℕ, ◌+◌, String, ◌≡◌, refl, Bool, true, false, ◌&&◌, ◌==◌, Option, none, some, List, [], ◌∷◌,
  arith, eqb, get_elem?, drop_at, inl, inr, Bool-cases, All, All-append, All-drop_at,
}
use klustr.ArgoSync.{
  OperationState, Phase, Poll, Dialog, Event, has_name, is_final, ask_in, asked, set_phase, heard,
  answered, sync_settled, timed_out, ran_for_real, handle, handle_all, mounted, default_form,
}
use klustr.ArgoSync.Laws.{IsAskedIn, IsCurrent, IsShownAfter, handle-IsShownAfter}

-- After a new run, the older questions are of older runs.
IsAskedIn-older :
    (old new : Phase) (run : ℕ) (qs : List Poll)
    → All (IsAskedIn old run) qs
    → All (IsAskedIn new (run + 1)) qs
IsAskedIn-older old new run [] h = tt
IsAskedIn-older old new run (q ∷ qs) ((le, c), h) =
    ((omega arith, λ e. absurd (ground arith)), IsAskedIn-older old new run qs h)

ask_in-IsCurrent : (p : Phase) (d : Dialog) → d.phase ≡ p → IsCurrent d → IsCurrent (ask_in p d)
ask_in-IsCurrent (Phase.polling kickoff_ms flag) d at h =
    elim (Bool-cases (has_name d.context_name)) [
      | inl e ↦
          rw e (All-append (IsAskedIn d.phase d.run) d.polls _ h ((omega arith, λ same. at), tt))
      | inr e ↦ rw e h
    ]
ask_in-IsCurrent Phase.form d at h = h
ask_in-IsCurrent (Phase.results state flag) d at h = h
ask_in-IsCurrent (Phase.timeout flag) d at h = h

set_phase-IsCurrent : (p : Phase) (d : Dialog) → IsCurrent d → IsCurrent (set_phase p d)
unfolding set_phase asked
set_phase-IsCurrent p d h =
    ask_in-IsCurrent p (record d { phase = p; run = d.run + 1 }) refl
      (IsAskedIn-older d.phase p d.run d.polls h)

heard-IsCurrent :
    (q : Poll) (state : OperationState) (d : Dialog) → IsCurrent d → IsCurrent (heard q state d)
heard-IsCurrent q state d h = elim (Bool-cases (is_final q.kickoff_ms state)) [
  | inl e ↦ rw e (set_phase-IsCurrent (Phase.results state q.was_dry_run) d h)
  | inr e ↦ rw e h
]

dropped-IsCurrent :
    (i : ℕ) (d : Dialog) → IsCurrent d → IsCurrent (record d { polls = drop_at d.polls i })
dropped-IsCurrent i d h = All-drop_at (IsAskedIn d.phase d.run) d.polls i h

answered-IsCurrent :
    (o : Option Poll) (i : ℕ) (reply : Option OperationState) (d : Dialog)
    → IsCurrent d
    → IsCurrent (answered o i reply d)
answered-IsCurrent none i reply d h = h
answered-IsCurrent (some q) i none d h = dropped-IsCurrent i d h
answered-IsCurrent (some q) i (some state) d h = elim (Bool-cases (eqb q.run d.run)) [
  | inl e ↦ rw e (heard-IsCurrent q state _ (dropped-IsCurrent i d h))
  | inr e ↦ rw e (dropped-IsCurrent i d h)
]

sync_settled-IsCurrent :
    (o : Option Bool) (i now : ℕ) (ok : Bool) (d : Dialog)
    → IsCurrent d
    → IsCurrent (sync_settled o i now ok d)
sync_settled-IsCurrent none i now ok d h = h
sync_settled-IsCurrent (some flag) i now true d h =
    set_phase-IsCurrent (Phase.polling now flag) (record d { syncs = drop_at d.syncs i }) h
sync_settled-IsCurrent (some flag) i now false d h = h

timed_out-IsCurrent : (p : Phase) (d : Dialog) → IsCurrent d → IsCurrent (timed_out p d)
timed_out-IsCurrent (Phase.polling kickoff_ms flag) d h =
    elim (Bool-cases (has_name d.context_name)) [
      | inl e ↦ rw e (set_phase-IsCurrent (Phase.timeout flag) d h)
      | inr e ↦ rw e h
    ]
timed_out-IsCurrent Phase.form d h = h
timed_out-IsCurrent (Phase.results state flag) d h = h
timed_out-IsCurrent (Phase.timeout flag) d h = h

ran_for_real-IsCurrent : (p : Phase) (d : Dialog) → IsCurrent d → IsCurrent (ran_for_real p d)
ran_for_real-IsCurrent (Phase.results state flag) d h =
    elim (Bool-cases (flag && state.phase == "Succeeded")) [
      | inl e ↦ rw e (
          set_phase-IsCurrent Phase.form
            (record d { form_state = record d.form_state { dry_run = false } }) h)
      | inr e ↦ rw e h
    ]
ran_for_real-IsCurrent Phase.form d h = h
ran_for_real-IsCurrent (Phase.polling kickoff_ms flag) d h = h
ran_for_real-IsCurrent (Phase.timeout flag) d h = h

handle-IsCurrent : (e : Event) (d : Dialog) → IsCurrent d → IsCurrent (handle e d)
unfolding handle asked
handle-IsCurrent (Event.set_open true) d h = h
handle-IsCurrent (Event.set_open false) d h =
    set_phase-IsCurrent Phase.form (record d { is_open = false; form_state = default_form }) h
handle-IsCurrent (Event.edit form_state) d h = h
handle-IsCurrent (Event.toggle_selected key) d h = h
handle-IsCurrent Event.synchronize d h = elim (Bool-cases (has_name d.context_name)) [
  | inl e ↦ rw e h
  | inr e ↦ rw e h
]
handle-IsCurrent (Event.sync_done i now ok) d h =
    sync_settled-IsCurrent (get_elem? d.syncs i) i now ok d h
handle-IsCurrent Event.tick d h = ask_in-IsCurrent d.phase d refl h
handle-IsCurrent (Event.answer i reply) d h = answered-IsCurrent (get_elem? d.polls i) i reply d h
handle-IsCurrent Event.time_out d h = timed_out-IsCurrent d.phase d h
handle-IsCurrent Event.run_for_real d h = ran_for_real-IsCurrent d.phase d h

handle_all-IsCurrent :
    (events : List Event) (d : Dialog) → IsCurrent d → IsCurrent (handle_all events d)
unfolding handle_all
handle_all-IsCurrent [] d h = h
handle_all-IsCurrent (e ∷ events) d h =
    handle_all-IsCurrent events (handle e d) (handle-IsCurrent e d h)

-- Whatever happened since the dialog was mounted, late answers included: when an event brings new
-- results, the dialog was polling, the results are those of a state with a terminal phase that did not
-- start more than two seconds before the synchronization that was polled, and they are labelled with
-- the dry-run flag of that synchronization.
pub handle-handle_all-IsShownAfter :
    (context_name : Option String) (events : List Event) (e : Event)
    → IsShownAfter
        (handle e (handle_all events (mounted context_name))).phase
        (handle_all events (mounted context_name)).phase
handle-handle_all-IsShownAfter context_name events e =
    handle-IsShownAfter e (handle_all events (mounted context_name))
      (handle_all-IsCurrent events (mounted context_name) tt)
