-- ===== src/Polling/Detail/Laws.antt =====
-- features/_shared/useResourceDetail.ts: what the panel is given, whenever the answers come.
use klustr.Prelude.{
  ℕ, zero, suc, ◌+◌, ◌≤◌, String, ◌==◌, ◌≡◌, refl, subst, Bool, true, false, not, ◌&&◌, ◌||◌,
  Option, none, some, ◌⊎◌, inl, inr, List, [], ◌∷◌, ◌++◌, arith, eqb, get_elem?, drop_at, any,
  is_some, All, All-append, All-drop_at, All-get_elem?, Bool-cases,
}
use klustr.Polling.Detail.{
  DetailState, Event, named, reload, loaded, settled, started, changed, handle, handle_all, mounted,
}

-- A call of the last run was made for a context.
abbrev pub IsCall : Option String → ℕ → ℕ → Type 0
IsCall context_name run r = (r ≤ run) × ((not (eqb r run) || is_some context_name) ≡ true)

abbrev pub is_called : ℕ → List ℕ → Bool
is_called run pending = any (eqb run) pending

IsCall-older :
    (old new : Option String) (run : ℕ) (rs : List ℕ)
    → All (IsCall old run) rs
    → All (IsCall new (run + 1)) rs
IsCall-older old new run [] h = tt
IsCall-older old new run (r ∷ rs) ((le, c), h) =
    ((omega arith, ground arith), IsCall-older old new run rs h)

is_called-append : (run : ℕ) (rs : List ℕ) → is_called run (rs ++ run ∷ []) ≡ true
is_called-append run [] = ground arith
is_called-append run (r ∷ rs) = ground (arith, is_called-append run rs)

eqb-first : (run x r : ℕ) → some x ≡ some r → eqb r run ≡ false → eqb run x ≡ false
eqb-first run x r at e = subst (λ y. eqb run y ≡ false) {x = r} {y = x} (cc) (ground arith)

is_called-drop_at :
    (run : ℕ) (rs : List ℕ) (i r : ℕ)
    → get_elem? rs i ≡ some r
    → eqb r run ≡ false
    → is_called run (drop_at rs i) ≡ is_called run rs
is_called-drop_at run [] i r at e = refl
is_called-drop_at run (x ∷ rs) zero r at e = ground (arith, eqb-first run x r at e)
is_called-drop_at run (x ∷ rs) (suc i) r at e = rw (is_called-drop_at run rs i r at e)

module _ {T : Type 0} where
  -- Not a detail and an error together, none of them without a context, and with a context one of
  -- them or a call that is to bring it.
  pub record IsShown (s : DetailState T) : Type 0 where
    pub calls : All (IsCall s.context_name s.run) s.pending
    pub exclusive : (is_some s.detail && is_some s.error) ≡ false
    pub quiet : (is_some s.context_name || (not (is_some s.detail) && not (is_some s.error))) ≡ true
    pub awaited :
        (not (is_some s.context_name)
          || (is_some s.detail || (is_some s.error || is_called s.run s.pending)))
        ≡ true

  loaded-IsShown :
      (result : T ⊎ String) (s : DetailState T)
      → is_some s.context_name ≡ true
      → All (IsCall s.context_name s.run) s.pending
      → IsShown (loaded result s)
  loaded-IsShown (inl d) s known calls = record {
    calls = calls;
    exclusive = refl;
    quiet = ground arith;
    awaited = ground arith;
  }
  loaded-IsShown (inr e) s known calls = record {
    calls = calls;
    exclusive = refl;
    quiet = ground arith;
    awaited = ground arith;
  }

  settled-IsShown :
      (o : Option ℕ) (i : ℕ) (result : T ⊎ String) (s : DetailState T)
      → get_elem? s.pending i ≡ o
      → IsShown s
      → IsShown (settled o i result s)
  settled-IsShown none i result s at h = h
  settled-IsShown (some run) i result s at h = elim (Bool-cases (eqb run s.run)) [
    | inl e ↦ rw e (
        loaded-IsShown result _
          (ground
            (arith, (All-get_elem? (IsCall s.context_name s.run) s.pending i run h.calls at).1))
          (All-drop_at (IsCall s.context_name s.run) s.pending i h.calls))
    | inr e ↦ rw e (record {
      calls = All-drop_at (IsCall s.context_name s.run) s.pending i h.calls;
      exclusive = h.exclusive;
      quiet = h.quiet;
      awaited = ground (arith, h.awaited, is_called-drop_at s.run s.pending i run at e);
    })
  ]

  reload-IsShown :
      (context_name : Option String) (s : DetailState T)
      → s.context_name ≡ context_name
      → is_some context_name ≡ true
      → IsShown s
      → IsShown (reload s)
  reload-IsShown context_name s e known h = record {
    calls =
        All-append (IsCall s.context_name s.run) s.pending _ h.calls
          ((omega arith, ground arith), tt);
    exclusive = h.exclusive;
    quiet = h.quiet;
    awaited = ground (arith, is_called-append s.run s.pending);
  }

  changed-IsShown :
      (context_name : Option String) (ctx : String) (s : DetailState T)
      → s.context_name ≡ context_name
      → IsShown s
      → IsShown (changed context_name ctx s)
  changed-IsShown none ctx s e h = h
  changed-IsShown (some context_name) ctx s e h = elim (Bool-cases (ctx == context_name)) [
    | inl same ↦ rw same (reload-IsShown (some context_name) s e refl h)
    | inr other ↦ rw other h
  ]

  started-IsShown :
      (context_name : Option String) (kind : String) (s : DetailState T)
      → IsShown s
      → IsShown (
          started context_name
            (record s { context_name = context_name; kind = kind; run = s.run + 1 }))
  started-IsShown none kind s h = record {
    calls = IsCall-older s.context_name none s.run s.pending h.calls;
    exclusive = refl;
    quiet = refl;
    awaited = refl;
  }
  started-IsShown (some ctx) kind s h = record {
    calls =
        All-append (IsCall (some ctx) (s.run + 1)) s.pending _
          (IsCall-older s.context_name (some ctx) s.run s.pending h.calls)
          ((omega arith, ground arith), tt);
    exclusive = h.exclusive;
    quiet = refl;
    awaited = ground (arith, is_called-append (s.run + 1) s.pending);
  }

  handle-IsShown : (e : Event T) (s : DetailState T) → IsShown s → IsShown (handle e s)
  unfolding handle
  handle-IsShown (Event.rerun context_name kind) s h = started-IsShown (named context_name) kind s h
  handle-IsShown (Event.change kind ctx) s h = elim (Bool-cases (kind == s.kind)) [
    | inl e ↦ rw e (changed-IsShown s.context_name ctx s refl h)
    | inr e ↦ rw e h
  ]
  handle-IsShown (Event.answer i result) s h =
      settled-IsShown (get_elem? s.pending i) i result s refl h

  handle_all-IsShown :
      (events : List (Event T)) (s : DetailState T) → IsShown s → IsShown (handle_all events s)
  unfolding handle_all
  handle_all-IsShown [] s h = h
  handle_all-IsShown (e ∷ events) s h =
      handle_all-IsShown events (handle e s) (handle-IsShown e s h)

  mounted-IsShown : IsShown (mounted {T = T})
  mounted-IsShown = record { calls = tt; exclusive = refl; quiet = refl; awaited = refl }

  -- Not a detail and an error together, and neither without a context.
  abbrev pub IsOneAnswer : DetailState T → Type 0
  IsOneAnswer s =
      ((is_some s.detail && is_some s.error) ≡ false)
      × ((is_some s.context_name || (not (is_some s.detail) && not (is_some s.error))) ≡ true)

  -- There is a detail or an error, or a call of the last run is to bring one.
  abbrev pub is_answered_or_awaited : DetailState T → Bool
  is_answered_or_awaited s = is_some s.detail || (is_some s.error || is_called s.run s.pending)

  -- Whatever happened since the panel was opened, late answers included, there is never a detail and
  -- an error together, and there is neither while the hook has no context.
  pub handle_all-IsOneAnswer : (events : List (Event T)) → IsOneAnswer (handle_all events mounted)
  handle_all-IsOneAnswer events =
      let h = handle_all-IsShown events mounted mounted-IsShown in (h.exclusive, h.quiet)

  -- Whatever happened since the panel was opened, while the hook has a context, it gives a detail or an
  -- error, or a call of `load` whose answer will be taken is not answered yet.
  pub is_answered_or_awaited-handle_all :
      (events : List (Event T))
      → is_some (handle_all events (mounted {T = T})).context_name ≡ true
      → is_answered_or_awaited (handle_all events (mounted {T = T})) ≡ true
  is_answered_or_awaited-handle_all events known =
      ground (arith, (handle_all-IsShown events mounted mounted-IsShown).awaited)
