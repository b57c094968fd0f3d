-- ===== src/Crds/Tests.antt =====
-- A cluster with one custom resource definition.
use klustr.Prelude.{ℕ, refl, []}
use klustr.Dict
use klustr.Dict.{Dict, get}
use klustr.Crds.{CrdInfo, CrdState}
use klustr.Crds.Laws.{IsIndexed}

abbrev gateway : CrdInfo ℕ
gateway = record { group = "gw"; resource = "gateways"; info = 1 }

abbrev no_crds : CrdState ℕ ℕ
no_crds = record { crds = []; by_key = []; custom_resources = [] }

no_crds-IsIndexed : IsIndexed no_crds
unfolding Dict.get
no_crds-IsIndexed k = refl
