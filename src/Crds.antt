-- ===== src/Crds.antt =====
-- store/crds.ts: the custom resource definitions of the cluster, and their resources.
mod Laws
mod Tests
use Prim.Native.String
use klustr.Prelude.{String, List, []}
use klustr.Dict
use klustr.Dict.{Dict}
use klustr.Dict.Index.{indexed}

-- A definition is read by its group and its resource only; `I` is the rest of it, and `R` a custom
-- resource.
pub record CrdInfo (I : Type 0) : Type 0 where
  pub group : String
  pub resource : String
  pub info : I

pub record CrdState (I R : Type 0) : Type 0 where
  pub crds : List (CrdInfo I)
  pub by_key : Dict (CrdInfo I)
  pub custom_resources : Dict (List R)

abbrev pub crd_key : {I : Type 0} → CrdInfo I → String
crd_key c = String.◌++◌ c.group (String.◌++◌ "/" c.resource)

unfoldable pub index_by_key : {I : Type 0} → List (CrdInfo I) → Dict (CrdInfo I)
index_by_key list = indexed crd_key list []

module _ {I R : Type 0} where
  unfoldable pub set_crds : List (CrdInfo I) → CrdState I R → CrdState I R
  unfolding index_by_key
  set_crds list s = record s { crds = list; by_key = index_by_key list }

  unfoldable pub set_custom_resources : String → List R → CrdState I R → CrdState I R
  set_custom_resources key list s = record s {
    custom_resources = Dict.put s.custom_resources key list;
  }

  unfoldable pub reset : CrdState I R → CrdState I R
  reset s = record s { crds = []; by_key = []; custom_resources = [] }
