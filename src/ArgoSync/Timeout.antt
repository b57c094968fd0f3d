-- ===== src/ArgoSync/Timeout.antt =====
-- features/argocd/SyncArgoApplicationDialog.tsx: the polling ends when its time is out.
use klustr.Prelude.{
  ℕ, ◌≡◌, refl, ap, ◌∙◌, Bool, true, false, ◌&&◌, ◌==◌, Option, none, some, List, [], ◌∷◌, eqb,
  get_elem?, inl, inr, Bool-cases, All,
}
use klustr.ArgoSync.{
  OperationState, Phase, Poll, Dialog, Event, has_name, is_polling, is_final, set_phase, heard,
  answered, sync_settled, timed_out, ran_for_real, handle, handle_all,
}
use klustr.ArgoSync.Laws.{phase-asked, phase-set_phase}

-- An event other than a synchronization that succeeds.
abbrev pub IsQuiet : Event → Type 0
IsQuiet (Event.sync_done i now ok) = ok ≡ false
IsQuiet e = Unit

abbrev pub polls_now : Dialog → Bool
polls_now d = is_polling d.phase

polls_now-set_phase :
    (p : Phase) (d : Dialog) → is_polling p ≡ false → polls_now (set_phase p d) ≡ false
polls_now-set_phase p d h = ap is_polling (phase-set_phase p d) ∙ h

polls_now-sync_settled :
    (o : Option Bool) (i now : ℕ) (ok : Bool) (d : Dialog)
    → ok ≡ false
    → polls_now d ≡ false
    → polls_now (sync_settled o i now ok d) ≡ false
polls_now-sync_settled none i now ok d q h = h
polls_now-sync_settled (some flag) i now ok d q h = rw q h

polls_now-heard :
    (q : Poll) (state : OperationState) (d : Dialog)
    → polls_now d ≡ false
    → polls_now (heard q state d) ≡ false
polls_now-heard q state d h = elim (Bool-cases (is_final q.kickoff_ms state)) [
  | inl e ↦ rw e (polls_now-set_phase (Phase.results state q.was_dry_run) d refl)
  | inr e ↦ rw e h
]

polls_now-answered :
    (o : Option Poll) (i : ℕ) (reply : Option OperationState) (d : Dialog)
    → polls_now d ≡ false
    → polls_now (answered o i reply d) ≡ false
polls_now-answered none i reply d h = h
polls_now-answered (some q) i none d h = h
polls_now-answered (some q) i (some state) d h = elim (Bool-cases (eqb q.run d.run)) [
  | inl e ↦ rw e (polls_now-heard q state _ h)
  | inr e ↦ rw e h
]

timed_out-ends :
    (p : Phase) (d : Dialog)
    → d.phase ≡ p
    → has_name d.context_name ≡ true
    → polls_now (timed_out p d) ≡ false
timed_out-ends (Phase.polling kickoff_ms flag) d at known =
    rw known (polls_now-set_phase (Phase.timeout flag) d refl)
timed_out-ends Phase.form d at known = ap is_polling at
timed_out-ends (Phase.results state flag) d at known = ap is_polling at
timed_out-ends (Phase.timeout flag) d at known = ap is_polling at

polls_now-timed_out :
    (p : Phase) (d : Dialog) → polls_now d ≡ false → polls_now (timed_out p d) ≡ false
polls_now-timed_out (Phase.polling kickoff_ms flag) d h =
    elim (Bool-cases (has_name d.context_name)) [
      | inl e ↦ rw e (polls_now-set_phase (Phase.timeout flag) d refl)
      | inr e ↦ rw e h
    ]
polls_now-timed_out Phase.form d h = h
polls_now-timed_out (Phase.results state flag) d h = h
polls_now-timed_out (Phase.timeout flag) d h = h

polls_now-ran_for_real :
    (p : Phase) (d : Dialog) → polls_now d ≡ false → polls_now (ran_for_real p d) ≡ false
polls_now-ran_for_real (Phase.results state flag) d h =
    elim (Bool-cases (flag && state.phase == "Succeeded")) [
      | inl e ↦ rw e (polls_now-set_phase Phase.form _ refl)
      | inr e ↦ rw e h
    ]
polls_now-ran_for_real Phase.form d h = h
polls_now-ran_for_real (Phase.polling kickoff_ms flag) d h = h
polls_now-ran_for_real (Phase.timeout flag) d h = h

polls_now-handle :
    (e : Event) (d : Dialog) → IsQuiet e → polls_now d ≡ false → polls_now (handle e d) ≡ false
unfolding handle
polls_now-handle (Event.set_open true) d q h = h
polls_now-handle (Event.set_open false) d q h = polls_now-set_phase Phase.form _ refl
polls_now-handle (Event.edit form_state) d q h = h
polls_now-handle (Event.toggle_selected key) d q h = h
polls_now-handle Event.synchronize d q h = elim (Bool-cases (has_name d.context_name)) [
  | inl e ↦ rw e h
  | inr e ↦ rw e h
]
polls_now-handle (Event.sync_done i now ok) d q h =
    polls_now-sync_settled (get_elem? d.syncs i) i now ok d q h
polls_now-handle Event.tick d q h = ap is_polling (phase-asked d) ∙ h
polls_now-handle (Event.answer i reply) d q h = polls_now-answered (get_elem? d.polls i) i reply d h
polls_now-handle Event.time_out d q h = polls_now-timed_out d.phase d h
polls_now-handle Event.run_for_real d q h = polls_now-ran_for_real d.phase d h

polls_now-handle_all :
    (events : List Event) (d : Dialog)
    → All IsQuiet events
    → polls_now d ≡ false
    → polls_now (handle_all events d) ≡ false
unfolding handle_all
polls_now-handle_all [] d q h = h
polls_now-handle_all (e ∷ events) d (q, qs) h =
    polls_now-handle_all events (handle e d) qs (polls_now-handle e d q h)

polls_now-time_out :
    (d : Dialog) → has_name d.context_name ≡ true → polls_now (handle Event.time_out d) ≡ false
unfolding handle
polls_now-time_out d known = timed_out-ends d.phase d refl known

-- In a dialog with a context, the polling is over when its time is out, and stays over whatever is
-- answered and done later, until another synchronization succeeds.
pub polls_now-handle_all-time_out :
    (d : Dialog) (later : List Event)
    → has_name d.context_name ≡ true
    → All IsQuiet later
    → polls_now (handle_all later (handle Event.time_out d)) ≡ false
polls_now-handle_all-time_out d later known q =
    polls_now-handle_all later (handle Event.time_out d) q (polls_now-time_out d known)
