-- ===== src/Collation/CodePoints.antt =====
-- A concrete collation, by code points: the parameter's laws can be met, antisymmetry included.
use Prim.Native.Char.{Char, code}
use Prim.Native.String.{[], ◌∷◌}
use text.Mathlib.TextEquality.{Char-path}
use klustr.Prelude.{String, ◌≡◌, refl, Bool, true, false, arith, ltb, eqb, if◌then◌else◌}
use klustr.Collation.Defs.{Collation, IsAntisymm}

unfoldable pub code_le : String → String → Bool
code_le [] t = true
code_le (c ∷ s) [] = false
code_le (c ∷ s) (d ∷ t) = if eqb (code c) (code d) then code_le s t else ltb (code c) (code d)

pub code_le_total : (s t : String) → code_le s t ≡ false → code_le t s ≡ true
unfolding code_le
code_le_total [] t h = cc
code_le_total (c ∷ s) [] h = refl
code_le_total (c ∷ s) (d ∷ t) h = ground (arith, code_le_total s t)

pub code_le_transitive :
    (s t u : String) → code_le s t ≡ true → code_le t u ≡ true → code_le s u ≡ true
unfolding code_le
code_le_transitive [] t u h k = refl
code_le_transitive (c ∷ s) [] u h k = cc
code_le_transitive (c ∷ s) (d ∷ t) [] h k = cc
code_le_transitive (c ∷ s) (d ∷ t) (e ∷ u) h k = ground (arith, code_le_transitive s t u)

code_of_le :
    (c d : Char) (s t : String)
    → code_le (c ∷ s) (d ∷ t) ≡ true
    → code_le (d ∷ t) (c ∷ s) ≡ true
    → (code c ≡ code d) × (code_le s t ≡ true) × (code_le t s ≡ true)
unfolding code_le
code_of_le c d s t h k = ground arith

code_le_unique : (s t : String) → code_le s t ≡ true → code_le t s ≡ true → s ≡ t
unfolding code_le
code_le_unique [] [] h k = refl
code_le_unique [] (d ∷ t) h k = cc
code_le_unique (c ∷ s) [] h k = cc
code_le_unique (c ∷ s) (d ∷ t) h k =
    let (e, st, ts) = code_of_le c d s t h k in
    let same : c ≡ d = Char-path c d e in
    let rest : s ≡ t = code_le_unique s t st ts in λ i. same i ∷ rest i

abbrev pub code_points : Collation
code_points = record { le = code_le; le_total = code_le_total; le_trans = code_le_transitive }

pub code_points-IsAntisymm : IsAntisymm code_points
code_points-IsAntisymm = code_le_unique
