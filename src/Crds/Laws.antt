-- ===== src/Crds/Laws.antt =====
-- What store/crds.ts finds under a key after each operation.
use klustr.Prelude.{String, ◌≡◌, refl, none, some, List, [], arith, ◌==◌, if◌then◌else◌}
use klustr.Dict
use klustr.Dict.{Dict, get-put}
use klustr.Dict.Index.{last_with, get-indexed}
use klustr.Crds
use klustr.Crds.{CrdInfo, CrdState, crd_key, index_by_key, set_crds, set_custom_resources}

-- The index is that of the list.
abbrev pub IsIndexed : {I R : Type 0} → CrdState I R → Type 0
IsIndexed s = (k : String) → Dict.get s.by_key k ≡ last_with crd_key k s.crds

get-index_by_key :
    {I : Type 0}
    → (list : List (CrdInfo I)) (k : String)
    → Dict.get (index_by_key list) k ≡ last_with crd_key k list
unfolding index_by_key Dict.get
get-index_by_key list k = ground (arith, get-indexed crd_key list [] k)

-- Every operation keeps the index in step with the list: a key finds the last definition with that
-- key, and nothing if there is none.
pub IsIndexed-actions :
    {I R : Type 0}
    → (list : List (CrdInfo I)) (key : String) (resources : List R) (s : CrdState I R) → IsIndexed s
    → IsIndexed (set_crds list s)
      × IsIndexed (set_custom_resources key resources s)
      × IsIndexed (Crds.reset s)
unfolding set_crds set_custom_resources Crds.reset Dict.get
IsIndexed-actions list key resources s h = (λ k. get-index_by_key list k, h, λ k. refl)

-- The custom resources under a key after each operation.
pub custom_resources-actions :
    {I R : Type 0}
    → (list : List (CrdInfo I)) (key : String) (resources : List R) (s : CrdState I R) (k : String)
    → (Dict.get (set_crds list s).custom_resources k ≡ Dict.get s.custom_resources k)
      × (Dict.get (set_custom_resources key resources s).custom_resources k
          ≡ (if key == k then some resources else Dict.get s.custom_resources k))
      × (Dict.get (Crds.reset s).custom_resources k ≡ none)
unfolding set_crds set_custom_resources Crds.reset Dict.get
custom_resources-actions list key resources s k =
    (refl, get-put s.custom_resources key k resources, refl)
