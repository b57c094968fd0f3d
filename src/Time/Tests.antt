-- ===== src/Time/Tests.antt =====
-- A date, an age and an expiry.
use klustr.Prelude.{some, refl, ◌≡◌}
use klustr.Prelude.Numerals.{decimal}
use klustr.Time.{format_age, format_expiry}
use klustr.Time.{expired}

an_age : format_age (some 0) 100_000_000 ≡ "1d3h"
unfolding format_age decimal
an_age = refl

an_expiry :
    format_expiry (some 1000) 61_000 ≡ some (record { label = "expired 1m ago"; tone = expired })
unfolding format_expiry decimal
an_expiry = refl
