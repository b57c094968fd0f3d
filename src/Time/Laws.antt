-- ===== src/Time/Laws.antt =====
-- The parts of an age and the tones of an expiry, from lib/time.ts.
use klustr.Prelude.{ℕ, ◌≡◌, Option, none, some, arith, if◌then◌else◌, ltb, ◌+◌, ◌*◌, ◌<◌}
use klustr.Time.{age_parts, Expiry, ExpiryTone, tone_of, format_expiry, ok, warn, crit, expired}

-- The parts of an age add up to it, with fewer than 24 hours, 60 minutes and 60 seconds.
pub age_parts_lem :
    (diff : ℕ)
    → ((age_parts diff).days * 86400
          + (age_parts diff).hours * 3600
          + (age_parts diff).minutes * 60
          + (age_parts diff).seconds
        ≡ diff)
      × ((age_parts diff).hours < 24)
      × ((age_parts diff).minutes < 60)
      × ((age_parts diff).seconds < 60)
unfolding age_parts
age_parts_lem diff = (omega arith, omega arith, omega arith, omega arith)

abbrev pub tone : Option Expiry → Option ExpiryTone
tone none = none
tone (some e) = some e.tone

-- The tone of an expiry: expired until a full second is left, critical below seven days, a warning
-- below thirty, in milliseconds of the time that is left.
pub tone-format_expiry :
    (target now : ℕ)
    → tone (format_expiry (some target) now)
      ≡ some (
          if ltb target (now + 1000)
          then expired
          else if ltb target (now + 604800000)
          then crit
          else if ltb target (now + 2592000000)
          then warn
          else ok)
unfolding format_expiry tone_of
tone-format_expiry target now = ground arith
