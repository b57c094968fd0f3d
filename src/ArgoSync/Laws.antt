-- ===== src/ArgoSync/Laws.antt =====
-- features/argocd/SyncArgoApplicationDialog.tsx: what results are shown, and when polling ends.
use klustr.Prelude.{
  ℕ, ◌+◌, ◌≡◌, refl, sym, ap, subst, ◌∙◌, Bool, true, false, ◌&&◌, ◌==◌, Option, none, some, List,
  [], ◌∷◌, eqb, get_elem?, drop_at, inl, inr, Bool-cases, All, All-get_elem?, ◌≤◌, includes, leb,
  arith,
}
use klustr.ArgoSync.{
  OperationState, Phase, Poll, Dialog, Event, has_name, is_final, ask_in, asked, set_phase, heard,
  answered, sync_settled, timed_out, ran_for_real, handle, handle_all,
}

abbrev IsStartedSince : ℕ → Option ℕ → Type 0
IsStartedSince kickoff_ms none = ⊥
IsStartedSince kickoff_ms (some ms) = kickoff_ms ≤ ms + 2000

-- The operation has ended, and was started two seconds before `kickoff_ms` at the earliest.
abbrev pub IsEndedSince : ℕ → OperationState → Type 0
IsEndedSince kickoff_ms state =
    (includes state.phase ("Succeeded" ∷ "Failed" ∷ "Error" ∷ []) ≡ true)
    × IsStartedSince kickoff_ms state.started_at_ms

-- New results are those of an operation that has ended and belongs to the synchronization that was
-- polled, with the flag of that synchronization; else the results are as they were.
abbrev pub IsShownAfter : Phase → Phase → Type 0
IsShownAfter (Phase.results state flag) (Phase.polling kickoff_ms was_dry_run) =
    (was_dry_run ≡ flag) × IsEndedSince kickoff_ms state
IsShownAfter (Phase.results state flag) (Phase.results old was_dry_run) =
    (old ≡ state) × (was_dry_run ≡ flag)
IsShownAfter (Phase.results state flag) Phase.form = ⊥
IsShownAfter (Phase.results state flag) (Phase.timeout was_dry_run) = ⊥
IsShownAfter Phase.form old = Unit
IsShownAfter (Phase.polling kickoff_ms was_dry_run) old = Unit
IsShownAfter (Phase.timeout was_dry_run) old = Unit

same-IsShownAfter : (p : Phase) → IsShownAfter p p
same-IsShownAfter Phase.form = tt
same-IsShownAfter (Phase.polling kickoff_ms was_dry_run) = tt
same-IsShownAfter (Phase.results state was_dry_run) = (refl, refl)
same-IsShownAfter (Phase.timeout was_dry_run) = tt

pub ask_in-fields :
    (p : Phase) (d : Dialog)
    → ((ask_in p d).phase ≡ d.phase) × ((ask_in p d).syncs ≡ d.syncs) × ((ask_in p d).run ≡ d.run)
ask_in-fields (Phase.polling kickoff_ms was_dry_run) d =
    elim (Bool-cases (has_name d.context_name)) [
      | inl e ↦ rw e (refl, refl, refl)
      | inr e ↦ rw e (refl, refl, refl)
    ]
ask_in-fields Phase.form d = (refl, refl, refl)
ask_in-fields (Phase.results state was_dry_run) d = (refl, refl, refl)
ask_in-fields (Phase.timeout was_dry_run) d = (refl, refl, refl)

pub phase-asked : (d : Dialog) → (asked d).phase ≡ d.phase
unfolding asked
phase-asked d = (ask_in-fields d.phase d).0

pub phase-set_phase : (p : Phase) (d : Dialog) → (set_phase p d).phase ≡ p
unfolding set_phase
phase-set_phase p d = phase-asked (record d { phase = p; run = d.run + 1 })

IsShownAfter-set_phase :
    (p old : Phase) (d : Dialog) → IsShownAfter p old → IsShownAfter (set_phase p d).phase old
IsShownAfter-set_phase p old d h = subst (λ q. IsShownAfter q old) (sym (phase-set_phase p d)) h

-- A question of the last run was asked in the phase that is current.
abbrev pub IsAskedIn : Phase → ℕ → Poll → Type 0
IsAskedIn phase run q =
    (q.run ≤ run) × (eqb q.run run ≡ true → phase ≡ Phase.polling q.kickoff_ms q.was_dry_run)

abbrev pub IsCurrent : Dialog → Type 0
IsCurrent d = All (IsAskedIn d.phase d.run) d.polls

is_final-IsEndedSince :
    (kickoff_ms : ℕ) (state : OperationState)
    → is_final kickoff_ms state ≡ true
    → IsEndedSince kickoff_ms state
is_final-IsEndedSince kickoff_ms state h =
    (ground arith, started state.started_at_ms (ground arith))
  where
    started :
        (o : Option ℕ)
        → (elim o as (λ o. Bool) [ none ↦ false | some ms ↦ leb kickoff_ms (ms + 2000) ]) ≡ true
        → IsStartedSince kickoff_ms o
    started none e = absurd (cc)
    started (some ms) e = ground arith

heard-IsShownAfter :
    (q : Poll) (state : OperationState) (d : Dialog) (p : Phase)
    → d.phase ≡ p
    → p ≡ Phase.polling q.kickoff_ms q.was_dry_run
    → IsShownAfter (heard q state d).phase p
heard-IsShownAfter q state d p same at = elim (Bool-cases (is_final q.kickoff_ms state)) [
  | inl e ↦
      rw (e, at)
        (IsShownAfter-set_phase (Phase.results state q.was_dry_run) _ d
          (refl, is_final-IsEndedSince q.kickoff_ms state e))
  | inr e ↦ rw (e, same) (same-IsShownAfter p)
]

answered-IsShownAfter :
    (o : Option Poll) (i : ℕ) (reply : Option OperationState) (d : Dialog)
    → get_elem? d.polls i ≡ o
    → IsCurrent d
    → IsShownAfter (answered o i reply d).phase d.phase
answered-IsShownAfter none i reply d at c = same-IsShownAfter d.phase
answered-IsShownAfter (some q) i none d at c = same-IsShownAfter d.phase
answered-IsShownAfter (some q) i (some state) d at c = elim (Bool-cases (eqb q.run d.run)) [
  | inl e ↦ rw e (
      heard-IsShownAfter q state (record d { polls = drop_at d.polls i }) d.phase refl
        ((All-get_elem? (IsAskedIn d.phase d.run) d.polls i q c at).1 e))
  | inr e ↦ rw e (same-IsShownAfter d.phase)
]

sync_settled-IsShownAfter :
    (o : Option Bool) (i now : ℕ) (ok : Bool) (d : Dialog)
    → IsShownAfter (sync_settled o i now ok d).phase d.phase
sync_settled-IsShownAfter none i now ok d = same-IsShownAfter d.phase
sync_settled-IsShownAfter (some flag) i now true d =
    IsShownAfter-set_phase (Phase.polling now flag) d.phase _ tt
sync_settled-IsShownAfter (some flag) i now false d = same-IsShownAfter d.phase

timed_out-IsShownAfter :
    (p : Phase) (d : Dialog) → d.phase ≡ p → IsShownAfter (timed_out p d).phase d.phase
timed_out-IsShownAfter (Phase.polling kickoff_ms flag) d at =
    elim (Bool-cases (has_name d.context_name)) [
      | inl e ↦ rw e (IsShownAfter-set_phase (Phase.timeout flag) d.phase d tt)
      | inr e ↦ rw e (same-IsShownAfter d.phase)
    ]
timed_out-IsShownAfter Phase.form d at = same-IsShownAfter d.phase
timed_out-IsShownAfter (Phase.results state flag) d at = same-IsShownAfter d.phase
timed_out-IsShownAfter (Phase.timeout flag) d at = same-IsShownAfter d.phase

ran_for_real-IsShownAfter : (p : Phase) (d : Dialog) → IsShownAfter (ran_for_real p d).phase d.phase
ran_for_real-IsShownAfter (Phase.results state flag) d =
    elim (Bool-cases (flag && state.phase == "Succeeded")) [
      | inl e ↦ rw e (IsShownAfter-set_phase Phase.form d.phase _ tt)
      | inr e ↦ rw e (same-IsShownAfter d.phase)
    ]
ran_for_real-IsShownAfter Phase.form d = same-IsShownAfter d.phase
ran_for_real-IsShownAfter (Phase.polling kickoff_ms flag) d = same-IsShownAfter d.phase
ran_for_real-IsShownAfter (Phase.timeout flag) d = same-IsShownAfter d.phase

pub handle-IsShownAfter :
    (e : Event) (d : Dialog) → IsCurrent d → IsShownAfter (handle e d).phase d.phase
unfolding handle
handle-IsShownAfter (Event.set_open true) d c = same-IsShownAfter d.phase
handle-IsShownAfter (Event.set_open false) d c = IsShownAfter-set_phase Phase.form d.phase _ tt
handle-IsShownAfter (Event.edit form_state) d c = same-IsShownAfter d.phase
handle-IsShownAfter (Event.toggle_selected key) d c = same-IsShownAfter d.phase
handle-IsShownAfter Event.synchronize d c = elim (Bool-cases (has_name d.context_name)) [
  | inl e ↦ rw e (same-IsShownAfter d.phase)
  | inr e ↦ rw e (same-IsShownAfter d.phase)
]
handle-IsShownAfter (Event.sync_done i now ok) d c =
    sync_settled-IsShownAfter (get_elem? d.syncs i) i now ok d
handle-IsShownAfter Event.tick d c =
    subst (λ q. IsShownAfter q d.phase) (sym (phase-asked d)) (same-IsShownAfter d.phase)
handle-IsShownAfter (Event.answer i reply) d c =
    answered-IsShownAfter (get_elem? d.polls i) i reply d refl c
handle-IsShownAfter Event.time_out d c = timed_out-IsShownAfter d.phase d refl
handle-IsShownAfter Event.run_for_real d c = ran_for_real-IsShownAfter d.phase d

syncs-set_phase : (p : Phase) (d : Dialog) → (set_phase p d).syncs ≡ d.syncs
unfolding set_phase asked
syncs-set_phase p d = (ask_in-fields p (record d { phase = p; run = d.run + 1 })).1

polled-sync_settled :
    (o : Option Bool) (flag : Bool) (i now : ℕ) (d : Dialog)
    → o ≡ some flag
    → (sync_settled o i now true d).phase ≡ Phase.polling now flag
polled-sync_settled o flag i now d e = rw e (phase-set_phase (Phase.polling now flag) _)

-- When the dialog is closed while a synchronization is under way, and that one succeeds afterwards,
-- the dialog opens the next time with the polling of it, not with the form.
pub phase-set_open-sync_done :
    (d : Dialog) (flag : Bool) (others : List Bool) (now : ℕ)
    → d.syncs ≡ flag ∷ others
    → (handle_all
        (Event.set_open false ∷ Event.sync_done 0 now true ∷ Event.set_open true ∷ [])
        d).phase
      ≡ Phase.polling now flag
unfolding handle_all handle
phase-set_open-sync_done d flag others now under_way =
    polled-sync_settled _ flag 0 now _
      (ap (λ (l : List Bool). get_elem? l 0) (syncs-set_phase Phase.form _ ∙ under_way))
