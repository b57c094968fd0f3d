-- ===== src/Connections/Sections/Spread.antt =====
-- features/contexts/ConnectionsScreen.tsx: the contexts of the sections, counted key by key.
use klustr.Prelude.{
  ℕ, ◌+◌, String, ◌≡◌, refl, sym, Bool, true, ◌&&◌, ◌||◌, List, [], ◌∷◌, ◌++◌, arith, ◌==◌, eq_iff,
  if◌then◌else◌, keep, any, includes, Distinct, All,
}
use mathlib.Core.List.{append_assoc, append-nil}
use klustr.Dict
use klustr.Dict.{Dict, get-put, includes-keys-put, Distinct-keys-put}
use klustr.Ui.Types.{CustomTagDef}
use klustr.Ui.Tags.{TagMap}
use klustr.Connections.Defs.{ContextInfo}
use klustr.Connections.Sections.{
  GroupedSection, primary, items_at, by_key_of, with_section, sections_in, ordered_visible,
}

-- How many items of a list pass a test.
abbrev pub count {ℓ} : {A : Type ℓ} → (A → Bool) → List A → ℕ
count p [] = 0
count p (x ∷ xs) = (if p x then 1 else 0) + count p xs

count-append {ℓ} :
    {A : Type ℓ} (p : A → Bool) (xs ys : List A) → count p (xs ++ ys) ≡ count p xs + count p ys
count-append p [] ys = omega arith
count-append p (x ∷ xs) ys = omega (arith, count-append p xs ys)

-- The contexts whose first tag is `key`.
abbrev pub tagged : TagMap → String → List ContextInfo → List ContextInfo
tagged context_tags key cs = keep (λ c. primary context_tags c == key) cs

module _ (context_tags : TagMap) where
  pub items_at-by_key_of :
      (cs : List ContextInfo) (m : Dict (List ContextInfo)) (key : String)
      → items_at (by_key_of context_tags cs m) key ≡ items_at m key ++ tagged context_tags key cs
  unfolding by_key_of
  items_at-by_key_of [] m key = sym (append-nil (items_at m key))
  items_at-by_key_of (c ∷ cs) m key =
      let k = primary context_tags c in
      let v = items_at m k ++ c ∷ [] in
      ground (
        arith,
        items_at-by_key_of cs (Dict.put m k v) key,
        get-put m k key v,
        append_assoc (items_at m key) (c ∷ []) (tagged context_tags key cs),
        eq_iff k key,
      )

  pub includes-keys-by_key_of :
      (cs : List ContextInfo) (m : Dict (List ContextInfo)) (key : String)
      → includes key (Dict.keys (by_key_of context_tags cs m))
        ≡ (includes key (Dict.keys m) || any (λ c. primary context_tags c == key) cs)
  unfolding by_key_of
  includes-keys-by_key_of [] m key = ground arith
  includes-keys-by_key_of (c ∷ cs) m key =
      let k = primary context_tags c in
      ground (
        arith,
        includes-keys-by_key_of cs (Dict.put m k (items_at m k ++ c ∷ [])) key,
        includes-keys-put m k key (items_at m k ++ c ∷ []),
      )

  pub Distinct-keys-by_key_of :
      (cs : List ContextInfo) (m : Dict (List ContextInfo))
      → Distinct (Dict.keys m)
      → Distinct (Dict.keys (by_key_of context_tags cs m))
  unfolding by_key_of
  Distinct-keys-by_key_of [] m d = d
  Distinct-keys-by_key_of (c ∷ cs) m d =
      let k = primary context_tags c in
      Distinct-keys-by_key_of cs (Dict.put m k (items_at m k ++ c ∷ []))
        (Distinct-keys-put m k (items_at m k ++ c ∷ []) d)

-- The sections' items, key by key.
unfoldable pub spread : TagMap → List String → List ContextInfo → List ContextInfo
spread context_tags [] cs = []
spread context_tags (key ∷ order) cs = tagged context_tags key cs ++ spread context_tags order cs

ordered_visible-with_section :
    (custom_tags : Dict CustomTagDef) (key : String) (items : List ContextInfo)
    (rest : List GroupedSection)
    → ordered_visible (with_section custom_tags key items rest) ≡ items ++ ordered_visible rest
unfolding ordered_visible
ordered_visible-with_section custom_tags key [] rest = refl
ordered_visible-with_section custom_tags key (c ∷ cs) rest = refl

pub ordered_visible-sections_in :
    (context_tags : TagMap) (custom_tags : Dict CustomTagDef) (cs : List ContextInfo)
    (order : List String)
    → ordered_visible (sections_in custom_tags (by_key_of context_tags cs []) order)
      ≡ spread context_tags order cs
unfolding spread sections_in ordered_visible Dict.get
ordered_visible-sections_in context_tags custom_tags cs [] = refl
ordered_visible-sections_in context_tags custom_tags cs (key ∷ order) =
    let m = by_key_of context_tags cs [] in
    cc (
      ordered_visible-with_section custom_tags key (items_at m key)
          (sections_in custom_tags m order),
      items_at-by_key_of context_tags cs [] key,
      ordered_visible-sections_in context_tags custom_tags cs order,
    )

times : String → List String → ℕ
times key order = count (λ k. k == key) order

times_of_Distinct :
    (key : String) (order : List String)
    → Distinct order
    → times key order ≡ (if includes key order then 1 else 0)
unfolding times includes
times_of_Distinct key [] d = refl
times_of_Distinct key (k ∷ order) (h, d) =
    ground (arith, times_of_Distinct key order d, eq_iff k key)

module _ (context_tags : TagMap) (P : ContextInfo → Bool) where
  count-tagged :
      (key : String) (c : ContextInfo) (cs : List ContextInfo)
      → count P (tagged context_tags key (c ∷ cs))
        ≡ (if primary context_tags c == key && P c then 1 else 0)
          + count P (tagged context_tags key cs)
  count-tagged key c cs = ground arith

  -- A further context is shown once for each time that its key stands in the order.
  count-spread :
      (order : List String) (c : ContextInfo) (cs : List ContextInfo)
      → count P (spread context_tags order (c ∷ cs))
        ≡ (if P c then times (primary context_tags c) order else 0)
          + count P (spread context_tags order cs)
  unfolding spread times
  count-spread [] c cs = ground arith
  count-spread (key ∷ order) c cs = ground (
    arith,
    count-spread order c cs,
    count-tagged key c cs,
    count-append P (tagged context_tags key (c ∷ cs)) (spread context_tags order (c ∷ cs)),
    count-append P (tagged context_tags key cs) (spread context_tags order cs),
    eq_iff (primary context_tags c) key,
    eq_iff key (primary context_tags c),
  )

  count-spread_nil : (order : List String) → count P (spread context_tags order []) ≡ 0
  unfolding spread
  count-spread_nil [] = refl
  count-spread_nil (key ∷ order) = count-spread_nil order

  pub count-spread_of_Distinct :
      (order : List String) (cs : List ContextInfo)
      → Distinct order
      → All (λ c. includes (primary context_tags c) order ≡ true) cs
      → count P (spread context_tags order cs) ≡ count P cs
  count-spread_of_Distinct order [] d h = count-spread_nil order
  count-spread_of_Distinct order (c ∷ cs) d (h, hs) = ground (
    arith,
    count-spread order c cs,
    times_of_Distinct (primary context_tags c) order d,
    count-spread_of_Distinct order cs d hs,
  )
