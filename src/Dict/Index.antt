-- ===== src/Dict/Index.antt =====
-- The loops `for (const x of list) out[key(x)] = x` of store/metrics.ts and store/crds.ts.
use klustr.Prelude.{
  String, ◌≡◌, refl, ◌∙◌, Option, none, some, List, [], ◌∷◌, ◌==◌, arith, eq_iff, if◌then◌else◌,
  is_some,
}
use klustr.Dict
use klustr.Dict.{Dict, get-put}

module _ {A : Type 0} (key : A → String) where
  unfoldable pub indexed : List A → Dict A → Dict A
  indexed [] out = out
  indexed (x ∷ xs) out = indexed xs (Dict.put out (key x) x)

  -- The last item of a list that has a key.
  abbrev pub last_with : String → List A → Option A
  last_with k [] = none
  last_with k (x ∷ xs) =
      let rest = last_with k xs in
      if is_some rest then rest else if key x == k then some x else none

  pub get-indexed :
      (xs : List A) (out : Dict A) (k : String)
      → Dict.get (indexed xs out) k
        ≡ (if is_some (last_with k xs) then last_with k xs else Dict.get out k)
  unfolding indexed
  get-indexed [] out k = refl
  get-indexed (x ∷ xs) out k =
      get-indexed xs _ k ∙ ground (arith, get-put out (key x) k x, eq_iff (key x) k)
