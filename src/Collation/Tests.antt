-- ===== src/Collation/Tests.antt =====
-- Two lists with the same members.
use klustr.Prelude.{arith, includes, ◌∷◌, []}
use klustr.Collation.Canonical.{SameMembers}
use klustr.Collation.CodePoints.{code_points}

same_members : SameMembers code_points ("b" ∷ "a" ∷ "b" ∷ []) ("a" ∷ "b" ∷ [])
unfolding includes
same_members a = ground arith
