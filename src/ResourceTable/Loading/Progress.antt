-- ===== src/ResourceTable/Loading/Progress.antt =====
-- features/_shared/ResourceTable.tsx: the table stops loading, at the latest when its timer runs out.
use klustr.Prelude.{
  ℕ, ◌≡◌, refl, ◌∙◌, true, false, Option, none, some, List, [], ◌∷◌, arith, get_elem?, includes,
  All, all_of,
}
use klustr.Resources.{ByContext}
use klustr.ResourceTable.Loading.{
  Request, Loader, Event, refused, settle, handle, handle_all, mounted, all_loaded,
}
use klustr.ResourceTable.Loading.Laws.{IsSound, handle_all-IsSound, handle-IsSound, mounted-IsSound}

module _ {T : Type 0} where
  -- An event other than a new run of the effect.
  abbrev pub IsQuiet : Event T → Type 0
  IsQuiet (Event.rerun active ns) = ⊥
  IsQuiet e = Unit

  waiting-settle :
      (then_do : Request → Loader T → Loader T) (i : ℕ) (l : Loader T) (o : Option Request)
      → ((r : Request) (m : Loader T) → (then_do r m).is_waiting ≡ m.is_waiting)
      → (settle o then_do i l).is_waiting ≡ l.is_waiting
  waiting-settle then_do i l none keep = refl
  waiting-settle then_do i l (some r) keep = keep r _

  waiting-handle :
      (e : Event T) (l : Loader T)
      → IsQuiet e
      → l.is_waiting ≡ false
      → (handle e l).is_waiting ≡ false
  unfolding handle
  waiting-handle (Event.rerun active ns) l q w = absurd q
  waiting-handle (Event.answer i list synced) l q w =
      waiting-settle _ i l (get_elem? l.pending i) (λ r m. ground arith) ∙ w
  waiting-handle (Event.refuse i) l q w =
      waiting-settle refused i l (get_elem? l.pending i) (λ r m. ground arith) ∙ w
  waiting-handle (Event.change c) l q w = ground arith
  waiting-handle Event.grace l q w = ground arith

  waiting-handle_all :
      (events : List (Event T)) (l : Loader T)
      → All IsQuiet events
      → l.is_waiting ≡ false
      → (handle_all events l).is_waiting ≡ false
  unfolding handle_all
  waiting-handle_all [] l q w = w
  waiting-handle_all (e ∷ events) l (q, qs) w =
      waiting-handle_all events (handle e l) qs (waiting-handle e l q w)

  waiting-grace : (l : Loader T) → (handle Event.grace l).is_waiting ≡ false
  unfolding handle
  waiting-grace l = ground arith

  all_loaded_of_IsSound : (l : Loader T) → IsSound l → l.is_waiting ≡ false → all_loaded l ≡ true
  unfolding all_loaded
  all_loaded_of_IsSound l s w =
      all_of (λ c. includes c l.loaded) l.active (λ c active. ground (arith, s.settled c))

  -- Once the timer of the last run has run out, every active context counts as loaded, whatever the
  -- backend has answered so far and whatever it answers later, until the contexts or the query change.
  pub all_loaded-grace :
      (by_context : ByContext T) (events later : List (Event T))
      → All IsQuiet later
      → all_loaded (handle_all later (handle Event.grace (handle_all events (mounted by_context))))
        ≡ true
  all_loaded-grace by_context events later quiet =
      let before = handle_all events (mounted by_context) in
      let sound = handle_all-IsSound events (mounted by_context) (mounted-IsSound by_context) in
      all_loaded_of_IsSound (handle_all later (handle Event.grace before))
        (handle_all-IsSound later _ (handle-IsSound Event.grace before sound))
        (waiting-handle_all later _ quiet (waiting-grace before))
