-- ===== src/Ui/Persistence/Tests.antt =====
-- Reading back concrete data.
use klustr.Prelude.{
  String, false, none, List, arith, eq_iff, includes, Distinct, All, refl, ◌≡◌, ◌≢◌, ◌==◌, ◌∷◌, [],
}
use klustr.Dict.{Dict, keys}
use klustr.Ui.Types.{LastSession}
use klustr.Ui.Persistence.{is_valid_group_color}
use klustr.Ui.Persistence.Records.{IsReadable, IsSession}
use klustr.Ui.Fixtures.{fleet}

abbrev selection : Dict (List String)
selection = ("prod", "web" ∷ []) ∷ ("stage", []) ∷ []

selection-keys : Distinct (keys selection)
unfolding keys includes
selection-keys = (refl, (refl, tt))

abbrev last : LastSession
last = record { contexts = "prod" ∷ []; group_id = none; at = 3 }

text_apart : (s t : String) → (s == t) ≡ false → s ≢ t
text_apart s t h = ground (arith, h, eq_iff s t)

fleet-IsReadable : All IsReadable (fleet ∷ [])
unfolding includes is_valid_group_color
fleet-IsReadable = ((text_apart "g1" "" refl, text_apart "Fleet" "" refl, refl, refl), tt)

last-IsSession : IsSession last
unfolding includes
last-IsSession = (λ e. cc, refl, λ e. cc)
