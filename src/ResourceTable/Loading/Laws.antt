-- ===== src/ResourceTable/Loading/Laws.antt =====
-- features/_shared/ResourceTable.tsx: late answers do no harm, and no context waits for ever.
use klustr.Prelude.{
  ℕ, ◌+◌, ◌≤◌, String, ◌≡◌, refl, Bool, true, false, not, ◌||◌, Option, none, some, List, [], ◌∷◌,
  arith, ◌==◌, eq_iff, eq_refl, Bool-cases, inl, inr, eqb, get_elem?, or_else, includes,
  includes-append, All, All-append, All-drop_at, All-get_elem?,
}
use klustr.Dict
use klustr.Dict.{get-put}
use klustr.Resources.{ByContext, with_ctx}
use klustr.ResourceTable.Loading.{
  Request, Loader, Event, mark_loaded, requests_for, is_any, answered, refused, settle, handle,
  handle_all, mounted,
}

-- A request of the last run is for an active context.
abbrev pub IsCurrent : List String → ℕ → Request → Type 0
IsCurrent active run r = (r.run ≤ run) × ((not (eqb r.run run) || includes r.ctx active) ≡ true)

module _ {T : Type 0} where
  -- While no timer is set, every active context is loaded.
  pub record IsSound (l : Loader T) : Type 0 where
    pub current : All (IsCurrent l.active l.run) l.pending
    pub settled :
        (c : String) → (l.is_waiting || not (includes c l.active) || includes c l.loaded) ≡ true

requests_for-IsCurrent :
    (run : ℕ) (ns : String) (active asked : List String)
    → ((c : String) → includes c asked ≡ true → includes c active ≡ true)
    → All (IsCurrent active run) (requests_for run ns asked)
unfolding includes
requests_for-IsCurrent run ns active [] h = tt
requests_for-IsCurrent run ns active (c ∷ asked) h = (
  (omega arith, ground (arith, h c, eq_refl c)),
  requests_for-IsCurrent run ns active asked (λ d e. h d (ground arith)),
)

-- After a new run, the older requests are of older runs.
IsCurrent-older :
    (active active' : List String) (run : ℕ) (rs : List Request)
    → All (IsCurrent active run) rs
    → All (IsCurrent active' (run + 1)) rs
IsCurrent-older active active' run [] h = tt
IsCurrent-older active active' run (r ∷ rs) ((le, c), h) =
    ((omega arith, ground arith), IsCurrent-older active active' run rs h)

pub includes-mark_loaded :
    (c ctx : String) (prev : List String)
    → includes c (mark_loaded ctx prev) ≡ (ctx == c || includes c prev)
unfolding mark_loaded includes
includes-mark_loaded c ctx prev = ground (arith, includes-append c prev (ctx ∷ []), eq_iff ctx c)

waiting_or_none :
    (active : List String) (c : String) → (is_any active || not (includes c active)) ≡ true
unfolding includes
waiting_or_none [] c = refl
waiting_or_none (a ∷ active) c = refl

module _ {T : Type 0} where
  answered-IsSound :
      (r : Request) (items : List T) (synced : Bool) (l : Loader T)
      → IsSound l
      → IsSound (answered r items synced l)
  answered-IsSound r items synced l s = elim (Bool-cases (eqb r.run l.run)) [
    | inl e ↦ rw e (record {
      current = s.current;
      settled = λ c. ground (arith, s.settled c, includes-mark_loaded c r.ctx l.loaded);
    })
    | inr e ↦ rw e s
  ]

  refused-IsSound : (r : Request) (l : Loader T) → IsSound l → IsSound (refused r l)
  refused-IsSound r l s = elim (Bool-cases (eqb r.run l.run)) [
    | inl e ↦ rw e (record {
      current = s.current;
      settled = λ c. ground (arith, s.settled c, includes-mark_loaded c r.ctx l.loaded);
    })
    | inr e ↦ rw e s
  ]

  settle-IsSound :
      (o : Option Request) (then_do : Request → Loader T → Loader T) (i : ℕ) (l : Loader T)
      → ((r : Request) (m : Loader T) → IsSound m → IsSound (then_do r m))
      → IsSound l
      → IsSound (settle o then_do i l)
  settle-IsSound none then_do i l keep s = s
  settle-IsSound (some r) then_do i l keep s = keep r _ (record {
    current = All-drop_at (IsCurrent l.active l.run) l.pending i s.current;
    settled = s.settled;
  })

  pub handle-IsSound : (e : Event T) (l : Loader T) → IsSound l → IsSound (handle e l)
  unfolding handle
  handle-IsSound (Event.rerun active ns) l s = record {
    current =
        All-append (IsCurrent active (l.run + 1)) l.pending _
          (IsCurrent-older l.active active l.run l.pending s.current)
          (requests_for-IsCurrent (l.run + 1) ns active active (λ c h. h));
    settled = λ c. ground (arith, waiting_or_none active c);
  }
  handle-IsSound (Event.answer i list synced) l s =
      settle-IsSound (get_elem? l.pending i) _ i l
        (λ r m sm. answered-IsSound r (or_else list []) synced m sm) s
  handle-IsSound (Event.refuse i) l s =
      settle-IsSound (get_elem? l.pending i) _ i l (λ r m sm. refused-IsSound r m sm) s
  handle-IsSound (Event.change ctx) l s = elim (Bool-cases (includes ctx l.active)) [
    | inl e ↦ rw e (record {
      current =
          All-append (IsCurrent l.active l.run) l.pending _ s.current
            ((omega arith, ground arith), tt);
      settled = s.settled;
    })
    | inr e ↦ rw e s
  ]
  handle-IsSound Event.grace l s = elim (Bool-cases l.is_waiting) [
    | inl e ↦ rw e (record { current = s.current; settled = λ c. ground arith })
    | inr e ↦ simp e s
  ]

  pub handle_all-IsSound :
      (events : List (Event T)) (l : Loader T) → IsSound l → IsSound (handle_all events l)
  unfolding handle_all
  handle_all-IsSound [] l s = s
  handle_all-IsSound (e ∷ events) l s =
      handle_all-IsSound events (handle e l) (handle-IsSound e l s)

  pub mounted-IsSound : (by_context : ByContext T) → IsSound (mounted by_context)
  unfolding includes
  mounted-IsSound by_context = record { current = tt; settled = λ c. refl }

  -- An answer writes to the store only for a context of the last run.
  kept-answered :
      (r : Request) (items : List T) (synced : Bool) (l : Loader T) (ctx : String)
      → IsCurrent l.active l.run r
      → includes ctx l.active ≡ false
      → Dict.get (answered r items synced l).by_context ctx ≡ Dict.get l.by_context ctx
  unfolding with_ctx
  kept-answered r items synced l ctx (le, c) other =
      ground (arith, get-put l.by_context r.ctx ctx items, eq_iff r.ctx ctx)

  kept-refused :
      (r : Request) (l : Loader T) (ctx : String)
      → IsCurrent l.active l.run r
      → includes ctx l.active ≡ false
      → Dict.get (refused r l).by_context ctx ≡ Dict.get l.by_context ctx
  unfolding with_ctx
  kept-refused r l ctx (le, c) other =
      ground (arith, get-put l.by_context r.ctx ctx [], eq_iff r.ctx ctx)

  kept-settle :
      (then_do : Request → Loader T → Loader T) (i : ℕ) (l : Loader T) (ctx : String)
      (o : Option Request)
      → get_elem? l.pending i ≡ o
      → IsSound l
      → ((r : Request) (m : Loader T)
          → IsCurrent m.active m.run r
          → includes ctx m.active ≡ false
          → Dict.get (then_do r m).by_context ctx ≡ Dict.get m.by_context ctx)
      → includes ctx l.active ≡ false
      → Dict.get (settle o then_do i l).by_context ctx ≡ Dict.get l.by_context ctx
  kept-settle then_do i l ctx none at s keep other = refl
  kept-settle then_do i l ctx (some r) at s keep other =
      keep r _ (All-get_elem? (IsCurrent l.active l.run) l.pending i r s.current at) other

  kept-handle :
      (e : Event T) (l : Loader T) (ctx : String)
      → IsSound l
      → includes ctx l.active ≡ false
      → Dict.get (handle e l).by_context ctx ≡ Dict.get l.by_context ctx
  unfolding handle
  kept-handle (Event.rerun active ns) l ctx s other = refl
  kept-handle (Event.answer i list synced) l ctx s other =
      kept-settle _ i l ctx (get_elem? l.pending i) refl s
        (λ r m. kept-answered r (or_else list []) synced m ctx) other
  kept-handle (Event.refuse i) l ctx s other =
      kept-settle refused i l ctx (get_elem? l.pending i) refl s (λ r m. kept-refused r m ctx) other
  kept-handle (Event.change c) l ctx s other = ground arith
  kept-handle Event.grace l ctx s other = ground arith

  -- In every run from the mounting of the table, no event changes the stored resources of a context
  -- that is not active: an answer that arrives after its context was left is dropped.
  pub by_context-handle :
      (by_context : ByContext T) (events : List (Event T)) (e : Event T) (ctx : String)
      → includes ctx (handle_all events (mounted by_context)).active ≡ false
      → Dict.get (handle e (handle_all events (mounted by_context))).by_context ctx
        ≡ Dict.get (handle_all events (mounted by_context)).by_context ctx
  by_context-handle by_context events e ctx other =
      kept-handle e (handle_all events (mounted by_context)) ctx
        (handle_all-IsSound events _ (mounted-IsSound by_context)) other
