-- ===== src/Events.antt =====
-- lib/events.ts: which kinds have synced in each context, and who is told of a change. A handler is
-- the number of a function object; a set is the list of its elements in their order of insertion.
mod Laws
mod Tests
use Prim.Native.String
use text.Mathlib.Text.{starts_with}
use klustr.Prelude.{
  ℕ, String, Bool, true, false, not, Option, none, some, List, [], ◌∷◌, ◌++◌, ◌==◌, if◌then◌else◌,
  or_else, includes, keep, eqb, any, map,
}
use klustr.Dict
use klustr.Dict.{Dict}

pub record Events : Type 0 where
  pub synced_kinds : List String
  pub handlers : Dict (List ℕ)
  pub installed : Bool

abbrev pub sync_key : String → String → String
sync_key context_name kind = String.◌++◌ context_name (String.◌++◌ " " kind)

-- `Set.prototype.add`
abbrev pub added : String → List String → List String
added key set = if includes key set then set else set ++ key ∷ []

unfoldable pub install : Events → Events
install s = record s { installed = true }

-- The listener of `kube:change`, which the runtime calls once it is installed: the state after it,
-- and the handlers that are called, each with the context.
unfoldable pub kube_change : String → String → Events → Events × List (ℕ × String)
kube_change context_name kind s =
    if s.installed
    then (
      record s { synced_kinds = added (sync_key context_name kind) s.synced_kinds },
      map (λ h. (h, context_name)) (or_else (Dict.get s.handlers kind) []),
    )
    else (s, [])

unfoldable pub is_kind_synced : String → String → Events → Bool
is_kind_synced context_name kind s = includes (sync_key context_name kind) s.synced_kinds

abbrev pub lacks_prefix : String → String → Bool
lacks_prefix prefix key = not (starts_with key prefix)

-- the loops of `resetSyncState`
unfoldable pub reset_from : List String → List String → List String
reset_from [] synced = synced
reset_from (ctx ∷ ctxs) synced = reset_from ctxs (keep (lacks_prefix (sync_key ctx "")) synced)

unfoldable pub reset_sync_state : List String → Events → Events
unfolding install reset_from
reset_sync_state context_names s =
    let t = install s in record t { synced_kinds = reset_from context_names t.synced_kinds }

abbrev pub is_among : ℕ → List ℕ → Bool
is_among h hs = any (eqb h) hs

unfoldable pub on_kube_change : String → ℕ → Events → Events
unfolding install
on_kube_change kind handler s =
    let t = install s in
    let set = or_else (Dict.get t.handlers kind) [] in
    record t {
      handlers =
          Dict.put t.handlers kind (if is_among handler set then set else set ++ handler ∷ []);
    }

-- What the function that `onKubeChange` returns does. The set that it captured is the map's: a set
-- of the map is never replaced.
unfoldable pub unsubscribe : String → ℕ → Events → Events
unsubscribe kind handler s = record s {
  handlers = elim (Dict.get s.handlers kind) [
    | none ↦ s.handlers
    | some set ↦ Dict.put s.handlers kind (keep (λ h. not (eqb handler h)) set)
  ];
}
