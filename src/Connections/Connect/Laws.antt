-- ===== src/Connections/Connect/Laws.antt =====
-- features/contexts/ConnectionsScreen.tsx with store/ui.ts: which contexts are active after a click.
use klustr.Prelude.{
  ◌<◌, ◌-◌, length, ℕ, String, ◌≡◌, refl, sym, ap, ◌∙◌, Bool, true, false, ◌&&◌, Option, none, some,
  List, [], ◌∷◌, arith, eq_refl, if◌then◌else◌, same_list, keep, includes, includes-keep,
}
use klustr.Collation.{Collation, dedupe_sorted}
use klustr.Collation.Order.{includes-dedupe_sorted}
use klustr.Collation.Canonical.{dedupe_sorted-IsCanonical, dedupe_sorted_of_IsCanonical}
use klustr.Ui.Types.{ContextGroup, LastSession}
use klustr.Ui.State.{World, single_context}
use klustr.Ui.Contexts.{
  same_group, with_group, session_if_any, normalize_contexts, with_session, set_aggregated_contexts,
}
use klustr.Ui.Contexts.Selection.{
  active, active-set_selected_context, active-set_aggregated_contexts,
}
use klustr.Connections.Defs.{ContextInfo, is_listed}
use klustr.Connections.Connect.{
  connect_members, resolved_last_session, connect_group, reconnect_last_session,
  ResolvedLastSession, resolved, group_still_exists,
}

-- The contexts that are active once `members` are connected.
abbrev pub connected : Collation → List String → World → List String
connected coll [] w = active w
connected coll (m ∷ ms) w = dedupe_sorted coll (m ∷ ms)

module _ (coll : Collation) (now : ℕ) where
  active-connect_members :
      (members : List String) (group_id : Option String) (w : World)
      → includes "" members ≡ false
      → active (connect_members coll now members group_id w) ≡ connected coll members w
  unfolding connect_members
  active-connect_members [] group_id w h = refl
  active-connect_members (m ∷ []) group_id w h =
      active-set_selected_context coll now (some m) w
      ∙ (unfold single_context includes dedupe_sorted in ground arith)
  active-connect_members (m ∷ n ∷ ms) group_id w h =
      (active-set_aggregated_contexts coll now (m ∷ n ∷ ms) group_id w h).0

  -- Connecting a group, none of whose names is empty, makes active exactly those of its contexts that
  -- the kubeconfig still lists, sorted and without repetitions; where it lists none of them, the active
  -- contexts stay.
  pub active-connect_group :
      (contexts : List ContextInfo) (group : ContextGroup) (w : World)
      → includes "" group.contexts ≡ false
      → active (connect_group coll now contexts group w)
        ≡ connected coll (keep (is_listed contexts) group.contexts) w
  unfolding connect_group
  active-connect_group contexts group w h =
      active-connect_members (keep (is_listed contexts) group.contexts) (some group.id) w
        (includes-keep "" (is_listed contexts) group.contexts ∙ ground (arith))

keep_of_all :
    (p : String → Bool) (xs : List String)
    → ((x : String) → includes x xs ≡ true → p x ≡ true)
    → keep p xs ≡ xs
unfolding includes
keep_of_all p [] h = refl
keep_of_all p (x ∷ xs) h =
    ground (arith, h x, eq_refl x, keep_of_all p xs (λ y e. h y (ground arith)))

-- `contexts.some((c) => c.name === name)` for each of the names
abbrev pub AreListed : List ContextInfo → List String → Type 0
AreListed contexts names = (n : String) → includes n names ≡ true → is_listed contexts n ≡ true

-- A session with several contexts that are still there is offered, whatever the default context is.
resolved_of_several :
    (s : LastSession) (hero : Option ContextInfo) (present : List String)
    → 1 < length present
    → resolved s hero present
      ≡ some (record {
        contexts = present;
        group_id = s.group_id;
        at = s.at;
        missing = length s.contexts - length present;
      })
resolved_of_several s hero [] h = absurd (omega (arith, h))
resolved_of_several s hero (c ∷ []) h = absurd (omega (arith, h))
resolved_of_several s none (c ∷ d ∷ cs) h = refl
resolved_of_several s (some hero) (c ∷ d ∷ cs) h = refl

connected_of_several :
    (coll : Collation) (cs : List String) (w : World)
    → 1 < length cs
    → connected coll cs w ≡ dedupe_sorted coll cs
connected_of_several coll [] w h = absurd (omega (arith, h))
connected_of_several coll (c ∷ cs) w h = refl

last_session-session_if_any :
    (next : List String) (g : Option String) (now : ℕ) (w : World)
    → 1 < length next
    → (session_if_any next g now w).ui.last_session
      ≡ some (record { contexts = next; group_id = g; at = now })
unfolding with_session
last_session-session_if_any [] g now w h = absurd (omega (arith, h))
last_session-session_if_any (c ∷ cs) g now w h = refl

-- What is offered after `next` was selected at the time `now`.
abbrev pub offer : List String → Option String → ℕ → ResolvedLastSession
offer next group_id now = record { contexts = next; group_id = group_id; at = now; missing = 0 }

module _ (coll : Collation) (now later : ℕ) where
  last_session-set_aggregated_contexts :
      (names : List String) (group_id : Option String) (w : World)
      → 1 < length (dedupe_sorted coll names)
      → (same_list (dedupe_sorted coll names) (active w)
          && same_group w.ui.active_group_id group_id)
        ≡ false
      → (set_aggregated_contexts coll now names group_id w).ui.last_session
        ≡ some (record { contexts = dedupe_sorted coll names; group_id = group_id; at = now })
  unfolding set_aggregated_contexts
  last_session-set_aggregated_contexts names group_id w several differ =
      let next = dedupe_sorted coll names in
      rw differ (
        last_session-session_if_any next group_id now
          (with_group group_id (normalize_contexts coll next w)) several)

  kept_of_listed :
      (names : List String) (contexts : List ContextInfo)
      → AreListed contexts names
      → keep (is_listed contexts) (dedupe_sorted coll names) ≡ dedupe_sorted coll names
  kept_of_listed names contexts listed =
      keep_of_all (is_listed contexts) (dedupe_sorted coll names)
        (λ x e. listed x (sym (includes-dedupe_sorted coll x names) ∙ e))

  offered-last_session :
      (names : List String) (group_id : Option String) (w : World) (contexts : List ContextInfo)
      (hero : Option ContextInfo)
      → AreListed contexts names
      → 1 < length (dedupe_sorted coll names)
      → (same_list (dedupe_sorted coll names) (active w)
          && same_group w.ui.active_group_id group_id)
        ≡ false
      → resolved_last_session contexts hero
          (set_aggregated_contexts coll now names group_id w).ui.last_session
        ≡ some (offer (dedupe_sorted coll names) group_id now)
  unfolding resolved_last_session
  offered-last_session names group_id w contexts hero listed several differ =
      let next = dedupe_sorted coll names in
      let s : LastSession = record { contexts = next; group_id = group_id; at = now } in
      ap (resolved_last_session contexts hero)
        (last_session-set_aggregated_contexts names group_id w several differ)
      ∙ ap (resolved s hero) (kept_of_listed names contexts listed)
      ∙ resolved_of_several s hero next several
      ∙ ap (λ m. some (record { contexts = next; group_id = group_id; at = now; missing = m }))
          (omega arith)

  -- Selecting two or more different contexts, none with an empty name, where that changes the active
  -- contexts or the active group, stores a session. As long as the kubeconfig lists all of them, the
  -- connection screen offers it, whatever the default context is, with just these contexts and none of
  -- them missing, and reconnecting it makes the same contexts active, in whatever state.
  pub reconnect_last_session-set_aggregated_contexts :
      (names : List String) (group_id : Option String) (w v : World) (contexts : List ContextInfo)
      (hero : Option ContextInfo)
      → includes "" names ≡ false
      → AreListed contexts names
      → 1 < length (dedupe_sorted coll names)
      → (same_list (dedupe_sorted coll names) (active w)
          && same_group w.ui.active_group_id group_id)
        ≡ false
      → (resolved_last_session contexts hero
            (set_aggregated_contexts coll now names group_id w).ui.last_session
          ≡ some (offer (dedupe_sorted coll names) group_id now))
        × (active (
              reconnect_last_session coll later contexts
                (offer (dedupe_sorted coll names) group_id now)
                v)
            ≡ active (set_aggregated_contexts coll now names group_id w))
  unfolding reconnect_last_session
  reconnect_last_session-set_aggregated_contexts names group_id w v contexts hero ne listed several
        differ =
      let next = dedupe_sorted coll names in
      let group = if group_still_exists v.ui.context_groups group_id then group_id else none in
      (
        offered-last_session names group_id w contexts hero listed several differ,
        ap (λ ms. active (connect_members coll later ms group v))
              (kept_of_listed names contexts listed)
            ∙ active-connect_members coll later next group v
                (includes-dedupe_sorted coll "" names ∙ ne)
            ∙ connected_of_several coll next v several
            ∙ dedupe_sorted_of_IsCanonical coll next (dedupe_sorted-IsCanonical coll names)
            ∙ sym (active-set_aggregated_contexts coll now names group_id w ne).0,
      )
