-- ===== src/ResourceTable/Loading.antt =====
-- features/_shared/ResourceTable.tsx: the effect that loads the resources of the active contexts.
-- The runtime's choices are a sequence of events: answers may come in any order, and after the
-- effect that asked for them was cleaned up.
pub mod Laws
pub mod Progress
mod Tests
use klustr.Prelude.{
  ℕ, zero, suc, ◌+◌, String, Bool, true, false, not, ◌&&◌, ◌||◌, Option, none, some, List, [], ◌∷◌,
  ◌++◌, if◌then◌else◌, eqb, ltb, length, get_elem?, drop_at, or_else, includes, all,
}
use klustr.Dict
use klustr.Resources.{ByContext, with_ctx}

-- A request that is not answered yet, with the run of the effect that made it.
pub record Request : Type 0 where
  pub run : ℕ
  pub ctx : String
  pub api_namespace : String

-- `run` counts the runs of the effect: `cancelled` holds in all but the last. `is_waiting` says that
-- the timer of the last run is set.
pub record Loader (T : Type 0) : Type 0 where
  pub active : List String
  pub api_namespace : String
  pub run : ℕ
  pub pending : List Request
  pub is_waiting : Bool
  pub loaded : List String
  pub by_context : ByContext T

pub data Event (T : Type 0) : Type 0 where
  rerun : List String → String → Event T
  answer : ℕ → Option (List T) → Bool → Event T
  refuse : ℕ → Event T
  change : String → Event T
  grace : Event T

-- `markLoaded`
unfoldable pub mark_loaded : String → List String → List String
unfolding includes
mark_loaded ctx prev = if includes ctx prev then prev else prev ++ ctx ∷ []

abbrev pub requests_for : ℕ → String → List String → List Request
requests_for run api_namespace [] = []
requests_for run api_namespace (ctx ∷ ctxs) =
    record { run = run; ctx = ctx; api_namespace = api_namespace }
    ∷ requests_for run api_namespace ctxs

abbrev pub is_any : {A : Type 0} → List A → Bool
is_any [] = false
is_any (x ∷ xs) = true

module _ {T : Type 0} where
  abbrev pub started : List String → String → Loader T → Loader T
  started active api_namespace l = record l {
    active = active;
    api_namespace = api_namespace;
    run = l.run + 1;
    pending = l.pending ++ requests_for (l.run + 1) api_namespace active;
    is_waiting = is_any active;
    loaded = [];
  }

  -- `.then(...)` with the items of a list that may be null; an empty list counts once the kind is synced.
  abbrev pub answered : Request → List T → Bool → Loader T → Loader T
  answered r items synced l =
      if eqb r.run l.run
      then record l {
        by_context = with_ctx l.by_context r.ctx items;
        loaded = if ltb 0 (length items) || synced then mark_loaded r.ctx l.loaded else l.loaded;
      }
      else l

  -- `.catch(...)`
  abbrev pub refused : Request → Loader T → Loader T
  refused r l =
      if eqb r.run l.run
      then record l {
        by_context = with_ctx l.by_context r.ctx [];
        loaded = mark_loaded r.ctx l.loaded;
      }
      else l

  abbrev pub settle : Option Request → (Request → Loader T → Loader T) → ℕ → Loader T → Loader T
  settle none then_do i l = l
  settle (some r) then_do i l = then_do r (record l { pending = drop_at l.pending i })

  -- One event: the dependencies change, a request is answered or refused, a `kube:change` of the
  -- kind arrives, or the timer of five seconds runs out.
  unfoldable pub handle : Event T → Loader T → Loader T
  unfolding mark_loaded with_ctx includes
  handle (Event.rerun active api_namespace) l = started active api_namespace l
  handle (Event.answer i list synced) l =
      settle (get_elem? l.pending i) (λ r. answered r (or_else list []) synced) i l
  handle (Event.refuse i) l = settle (get_elem? l.pending i) refused i l
  handle (Event.change ctx) l =
      if includes ctx l.active
      then record l { pending = l.pending ++ requests_for l.run l.api_namespace (ctx ∷ []) }
      else l
  handle Event.grace l =
      if l.is_waiting then record l { is_waiting = false; loaded = l.active } else l

  unfoldable pub handle_all : List (Event T) → Loader T → Loader T
  unfolding handle
  handle_all [] l = l
  handle_all (e ∷ events) l = handle_all events (handle e l)

  -- Before the first run of the effect.
  abbrev pub mounted : ByContext T → Loader T
  mounted by_context = record {
    active = [];
    api_namespace = "";
    run = 0;
    pending = [];
    is_waiting = false;
    loaded = [];
    by_context = by_context;
  }

  -- `activeContexts.every((c) => loadedSet.has(c))`
  unfoldable pub all_loaded : Loader T → Bool
  unfolding includes
  all_loaded l = all (λ c. includes c l.loaded) l.active
