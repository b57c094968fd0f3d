-- ===== src/Resources/Laws.antt =====
-- The lists of store/resources.ts after each operation, and merged lists.
use mathlib.Core.List.{append_assoc}
use klustr.Prelude.{
  String, ◌≡◌, refl, ◌∙◌, ap, sym, ◌&&◌, none, some, List, [], ◌∷◌, ◌++◌, ◌==◌, arith, eq_iff,
  if◌then◌else◌, is_some, or_else, includes, without, Distinct,
}
use klustr.Dict
use klustr.Dict.{get-put, get-remove, has-eq-is_some, keys, Distinct-keys-put, get_of_absent}
use klustr.Resources.Kinds.{KindKey, key_name, kind_keys}
use klustr.Resources.Keys.{includes-key_name}
use klustr.Resources.{
  ByContext, ResourcesState, without_ctx, merge_for_contexts, map_of, set_kind, cleared_from,
  assigned, clear_context, empty_maps, empty_from, reset,
}

module _ {T : Type 0} where
  -- The items of a kind in a context.
  abbrev pub items : ResourcesState T → String → String → List T
  items s k ctx = or_else (Dict.get (map_of s k) ctx) []

  -- A setter replaces the list of its kind in one context, and no other list.
  pub items-set_kind :
      (kind : KindKey) (ctx : String) (list : List T) (s : ResourcesState T) (k c : String)
      → items (set_kind kind ctx list s) k c
        ≡ (if key_name kind == k && ctx == c then list else items s k c)
  unfolding set_kind
  items-set_kind kind ctx list s k c =
      let m = map_of s (key_name kind) in
      ground (
        arith,
        get-put s (key_name kind) k (Dict.put m ctx list),
        get-put m ctx c list,
        eq_iff (key_name kind) k,
      )

  get-without_ctx :
      (m : ByContext T) (ctx c : String)
      → Dict.get (without_ctx m ctx) c ≡ (if ctx == c then none else Dict.get m c)
  unfolding without_ctx
  get-without_ctx m ctx c = ground (arith, get-remove m ctx c, has-eq-is_some m ctx, eq_iff ctx c)

  get-assigned :
      (s partial : ResourcesState T) (j : String)
      → Distinct (keys partial)
      → Dict.get (assigned s partial) j
        ≡ (if is_some (Dict.get partial j) then Dict.get partial j else Dict.get s j)
  unfolding assigned keys Dict.get
  get-assigned s [] j d = refl
  get-assigned s ((k, m) ∷ partial) j d =
      get-assigned (Dict.put s k m) partial j d.1
      ∙ ground (arith, get-put s k j m, get_of_absent partial k d.0, eq_iff k j)

  -- The map that the loop of `clearContext` builds for a key.
  get-cleared_from :
      (ctx : String) (s : ResourcesState T) (ks : List String) (next : ResourcesState T)
      (j : String)
      → Dict.get (cleared_from ctx s ks next) j ≡ (
          if includes j ks && Dict.has (map_of s j) ctx
          then some (without_ctx (map_of s j) ctx)
          else Dict.get next j)
  unfolding cleared_from includes
  get-cleared_from ctx s [] next j = refl
  get-cleared_from ctx s (k ∷ ks) next j =
      get-cleared_from ctx s ks _ j
      ∙ ground (arith, get-put next k j (without_ctx (map_of s k) ctx), eq_iff k j)

  Distinct-cleared_from :
      (ctx : String) (s : ResourcesState T) (ks : List String) (next : ResourcesState T)
      → Distinct (keys next)
      → Distinct (keys (cleared_from ctx s ks next))
  unfolding cleared_from
  Distinct-cleared_from ctx s [] next d = d
  Distinct-cleared_from ctx s (k ∷ ks) next d =
      Distinct-cleared_from ctx s ks _
        (ground (arith, Distinct-keys-put next k (without_ctx (map_of s k) ctx) d, d))

  map_of-clear_context :
      (ctx : String) (s : ResourcesState T) (k : String)
      → map_of (clear_context ctx s) k ≡ (
          if includes k kind_keys && Dict.has (map_of s k) ctx
          then without_ctx (map_of s k) ctx
          else map_of s k)
  unfolding clear_context
  map_of-clear_context ctx s k = ground (
    arith,
    get-assigned s (cleared_from ctx s kind_keys []) k
        (Distinct-cleared_from ctx s kind_keys [] (unfold keys in tt)),
    get-cleared_from ctx s kind_keys [] k,
    get-nil k,
  )
    where
      get-nil : (k : String) → Dict.get {V = ByContext T} [] k ≡ none
      get-nil k = unfold Dict.get in refl

  -- Clearing a context empties its list of every kind, and changes no list of another context.
  pub items-clear_context :
      (ctx : String) (s : ResourcesState T) (kind : KindKey) (c : String)
      → items (clear_context ctx s) (key_name kind) c
        ≡ (if ctx == c then [] else items s (key_name kind) c)
  items-clear_context ctx s kind c =
      let m = map_of s (key_name kind) in
      ground (
        arith,
        ap (λ m. or_else (Dict.get m c) []) (map_of-clear_context ctx s (key_name kind)),
        includes-key_name kind,
        get-without_ctx m ctx c,
        has-eq-is_some m ctx,
        eq_iff ctx c,
      )

  map_of-empty_from :
      (ks : List String) (out : ResourcesState T) (k : String)
      → Dict.get (empty_from ks out) k ≡ (if includes k ks then some [] else Dict.get out k)
  unfolding empty_from includes
  map_of-empty_from [] out k = refl
  map_of-empty_from (j ∷ ks) out k =
      map_of-empty_from ks _ k ∙ ground (arith, get-put out j k [], eq_iff j k)

  Distinct-empty_from :
      (ks : List String) (out : ResourcesState T)
      → Distinct (keys out)
      → Distinct (keys (empty_from ks out))
  unfolding empty_from
  Distinct-empty_from [] out d = d
  Distinct-empty_from (k ∷ ks) out d = Distinct-empty_from ks _ (Distinct-keys-put out k [] d)

  -- A reset leaves no item of any kind in any context.
  pub items-reset :
      (s : ResourcesState T) (kind : KindKey) (c : String) → items (reset s) (key_name kind) c ≡ []
  unfolding reset empty_maps
  items-reset s kind c =
      ap (λ m. or_else (Dict.get (or_else m []) c) []) {y = some []}
        (get-assigned s (empty_from kind_keys []) (key_name kind)
            (Distinct-empty_from kind_keys [] (unfold keys in tt))
          ∙ ground (arith, map_of-empty_from kind_keys [] (key_name kind), includes-key_name kind))
      ∙ get-nil
    where
      get-nil : or_else (Dict.get {V = List T} [] c) [] ≡ []
      get-nil = unfold Dict.get in refl

  -- The merged list is a concatenation, context by context.
  pub merge-append :
      (m : ByContext T) (cs ds : List String)
      → merge_for_contexts m (cs ++ ds) ≡ merge_for_contexts m cs ++ merge_for_contexts m ds
  unfolding merge_for_contexts
  merge-append m [] ds = refl
  merge-append m (c ∷ cs) ds =
      ap (or_else (Dict.get m c) [] ++◌) (merge-append m cs ds)
      ∙ sym (
          append_assoc (or_else (Dict.get m c) []) (merge_for_contexts m cs)
            (merge_for_contexts m ds))

  merge-cons :
      (m : ByContext T) (c : String) (cs : List String)
      → merge_for_contexts m (c ∷ cs) ≡ or_else (Dict.get m c) [] ++ merge_for_contexts m cs
  unfolding merge_for_contexts
  merge-cons m c cs = refl

  -- The merged list after a context is cleared is that of the other contexts, in their order.
  pub merge-without_ctx :
      (m : ByContext T) (ctx : String) (cs : List String)
      → merge_for_contexts (without_ctx m ctx) cs ≡ merge_for_contexts m (without ctx cs)
  unfolding merge_for_contexts without
  merge-without_ctx m ctx [] = refl
  merge-without_ctx m ctx (c ∷ cs) =
      ap (or_else (Dict.get (without_ctx m ctx) c) [] ++◌) (merge-without_ctx m ctx cs) ∙ split
    where
      split :
          or_else (Dict.get (without_ctx m ctx) c) [] ++ merge_for_contexts m (without ctx cs)
          ≡ merge_for_contexts m (without ctx (c ∷ cs))
      split = ground (
        arith,
        get-without_ctx m ctx c,
        eq_iff c ctx,
        eq_iff ctx c,
        merge-cons m c (without ctx cs),
      )
