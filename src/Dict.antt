-- ===== src/Dict.antt =====
-- A JavaScript object used as a dictionary (`Record<string, V>`): its own entries, in the order in
-- which their keys were first assigned. Keys that spell an array index, which engines enumerate
-- first, keep their place here; no store depends on that order.
pub mod Index
use klustr.Prelude.{
  String, ◌≡◌, refl, Bool, true, false, not, ◌&&◌, ◌||◌, Option, none, some, List, [], ◌∷◌, ◌++◌,
  arith, ◌==◌, eq_iff, eq_refl, if◌then◌else◌, is_some, includes, Distinct,
}

abbrev pub Dict {ℓ} : Type ℓ → Type ℓ
Dict V = List (String × V)

module _ {ℓ} {V : Type ℓ} where
  -- `m[k]`, `undefined` where the key is missing
  unfoldable pub get : Dict V → String → Option V
  get [] k = none
  get ((j, v) ∷ m) k = if j == k then some v else get m k

  -- `k in m`
  unfoldable pub has : Dict V → String → Bool
  has [] k = false
  has ((j, v) ∷ m) k = j == k || has m k

  -- `m[k] = v`, and `{ ...m, [k]: v }`
  unfoldable pub put : Dict V → String → V → Dict V
  put [] k v = (k, v) ∷ []
  put ((j, w) ∷ m) k v = if j == k then (k, v) ∷ m else (j, w) ∷ put m k v

  -- `delete m[k]`
  unfoldable pub remove : Dict V → String → Dict V
  remove [] k = []
  remove ((j, w) ∷ m) k =
      let rest = remove m k in elim (j == k) [ true ↦ rest | false ↦ (j, w) ∷ rest ]

  pub get-put :
      (m : Dict V) (k j : String) (v : V) → get (put m k v) j ≡ (if k == j then some v else get m j)
  unfolding get put
  get-put [] k j v = refl
  get-put ((i, w) ∷ m) k j v = ground (arith, eq_iff k j, eq_iff i k, eq_iff i j, get-put m k j v)

  pub get-remove :
      (m : Dict V) (k j : String) → get (remove m k) j ≡ (if k == j then none else get m j)
  unfolding get remove
  get-remove [] k j = ground arith
  get-remove ((i, w) ∷ m) k j = ground (arith, eq_iff k j, eq_iff i k, eq_iff i j, get-remove m k j)

  pub has-eq-is_some : (m : Dict V) (k : String) → has m k ≡ is_some (get m k)
  unfolding has get
  has-eq-is_some [] k = refl
  has-eq-is_some ((i, w) ∷ m) k = ground (arith, has-eq-is_some m k)

  -- Assigning a key twice keeps the second value, and the first place.
  pub put-put : (m : Dict V) (k : String) (v w : V) → put (put m k v) k w ≡ put m k w
  unfolding put
  put-put [] k v w = ground (arith, eq_refl k)
  put-put ((i, u) ∷ m) k v w = ground (arith, put-put m k v w, eq_refl k)

pub ruleset dict_laws = (get-put, get-remove)

-- `Object.keys(m)`. The keys of an object are distinct, and stay so.
unfoldable pub keys {ℓ} : {V : Type ℓ} → Dict V → List String
keys [] = []
keys ((k, v) ∷ m) = k ∷ keys m

module _ {ℓ} {V : Type ℓ} where
  pub includes-keys-put :
      (m : Dict V) (k j : String) (v : V)
      → includes j (keys (put m k v)) ≡ (k == j || includes j (keys m))
  unfolding keys put includes
  includes-keys-put [] k j v = refl
  includes-keys-put ((i, w) ∷ m) k j v = ground (arith, eq_iff i k, includes-keys-put m k j v)

  includes-keys-remove :
      (m : Dict V) (k j : String)
      → includes j (keys (remove m k)) ≡ (not (k == j) && includes j (keys m))
  unfolding keys remove includes
  includes-keys-remove [] k j = ground arith
  includes-keys-remove ((i, w) ∷ m) k j =
      ground (arith, eq_iff i k, eq_iff i j, eq_iff k j, includes-keys-remove m k j)

  pub Distinct-keys-put :
      (m : Dict V) (k : String) (v : V) → Distinct (keys m) → Distinct (keys (put m k v))
  unfolding keys put includes
  Distinct-keys-put [] k v d = (refl, tt)
  Distinct-keys-put ((i, w) ∷ m) k v d =
      ground (arith, eq_iff i k, eq_iff k i, includes-keys-put m k i v, Distinct-keys-put m k v)

  pub Distinct-keys-remove :
      (m : Dict V) (k : String) → Distinct (keys m) → Distinct (keys (remove m k))
  unfolding keys remove
  Distinct-keys-remove [] k d = tt
  Distinct-keys-remove ((i, w) ∷ m) k d =
      ground (arith, includes-keys-remove m k i, Distinct-keys-remove m k)

  pub get_of_absent : (m : Dict V) (k : String) → includes k (keys m) ≡ false → get m k ≡ none
  unfolding keys get includes
  get_of_absent [] k h = refl
  get_of_absent ((i, w) ∷ m) k h = ground (arith, get_of_absent m k)

module _ {ℓ} {V : Type ℓ} where
  -- A new key goes to the end.
  pub put_of_absent :
      (m : Dict V) (k : String) (v : V) → includes k (keys m) ≡ false → put m k v ≡ m ++ (k, v) ∷ []
  unfolding put keys includes
  put_of_absent [] k v h = refl
  put_of_absent ((i, w) ∷ m) k v h = ground (arith, put_of_absent m k v)

  pub includes-keys-append :
      (m n : Dict V) (k : String)
      → includes k (keys (m ++ n)) ≡ (includes k (keys m) || includes k (keys n))
  unfolding keys includes
  includes-keys-append [] n k = refl
  includes-keys-append ((i, w) ∷ m) n k = ground (arith, includes-keys-append m n k)
