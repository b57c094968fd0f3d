-- ===== src/Polling/Detail.antt =====
-- features/_shared/useResourceDetail.ts: the hook that loads one resource for its panel.
mod Laws
mod Tests
use klustr.Prelude.{
  ℕ, ◌+◌, String, ◌==◌, Bool, true, false, ◌&&◌, Option, none, some, ◌⊎◌, inl, inr, List, [], ◌∷◌,
  ◌++◌, if◌then◌else◌, eqb, get_elem?, drop_at,
}

-- `run` counts the runs of the effect: `cancelled` holds in all but the last. A pending call of
-- `load` has the run that made it. `context_name` and `kind` are those of the last run.
pub record DetailState (T : Type 0) : Type 0 where
  pub context_name : Option String
  pub kind : String
  pub run : ℕ
  pub pending : List ℕ
  pub detail : Option T
  pub error : Option String

-- `contextName` may be null.
pub data Event (T : Type 0) : Type 0 where
  rerun : Option String → String → Event T
  change : String → String → Event T
  answer : ℕ → T ⊎ String → Event T

-- `contextName` where it counts as true.
abbrev pub named : Option String → Option String
named none = none
named (some ctx) = if ctx == "" then none else some ctx

module _ {T : Type 0} where
  abbrev pub reload : DetailState T → DetailState T
  reload s = record s { pending = s.pending ++ s.run ∷ [] }

  -- `.then(...)` and `.catch(...)`
  abbrev pub loaded : T ⊎ String → DetailState T → DetailState T
  loaded (inl d) s = record s { detail = some d; error = none }
  loaded (inr e) s = record s { detail = none; error = some e }

  abbrev pub settled : Option ℕ → ℕ → T ⊎ String → DetailState T → DetailState T
  settled none i result s = s
  settled (some run) i result s =
      if eqb run s.run
      then loaded result (record s { pending = drop_at s.pending i })
      else record s { pending = drop_at s.pending i }

  -- The effect after the cleanup of its last run.
  abbrev pub started : Option String → DetailState T → DetailState T
  started none s = record s { detail = none; error = none }
  started (some ctx) s = reload s

  -- The subscription of the last run, where it made one.
  abbrev pub changed : Option String → String → DetailState T → DetailState T
  changed none ctx s = s
  changed (some context_name) ctx s = if ctx == context_name then reload s else s

  -- One event: the arguments of the hook change, a `kube:change` of a kind in a context arrives, or a
  -- call of `load` is done.
  unfoldable pub handle : Event T → DetailState T → DetailState T
  handle (Event.rerun context_name kind) s =
      started (named context_name)
        (record s { context_name = named context_name; kind = kind; run = s.run + 1 })
  handle (Event.change kind ctx) s = if kind == s.kind then changed s.context_name ctx s else s
  handle (Event.answer i result) s = settled (get_elem? s.pending i) i result s

  unfoldable pub handle_all : List (Event T) → DetailState T → DetailState T
  unfolding handle
  handle_all [] s = s
  handle_all (e ∷ events) s = handle_all events (handle e s)

  -- Before the first run of the effect.
  abbrev pub mounted : DetailState T
  mounted = record {
    context_name = none;
    kind = "";
    run = 0;
    pending = [];
    detail = none;
    error = none;
  }
