-- ===== src/Time.antt =====
-- lib/time.ts: ages and expiries. An ISO time enters as the milliseconds since 1970 that it denotes,
-- and `none` stands for an empty or unparseable text; `now` is `Date.now()`. Printing a local date
-- (`formatTimestamp`) is the runtime's.
mod Laws
mod Tests
use Prim.Native.String.{◌++◌}
use klustr.Prelude.{ℕ, String, Option, none, some, if◌then◌else◌, ltb, ◌&&◌, ◌+◌, ◌-◌, ◌*◌, ◌/◌}
use klustr.Prelude.Numerals.{decimal}

pub record AgeParts : Type 0 where
  pub days : ℕ
  pub hours : ℕ
  pub minutes : ℕ
  pub seconds : ℕ

-- `Math.max(0, Math.floor((Date.now() - created) / 1000))`
abbrev pub age_seconds : ℕ → ℕ → ℕ
age_seconds created now = (now - created) / 1000

-- the subtractions of `formatAge`
unfoldable pub age_parts : ℕ → AgeParts
age_parts diff =
    let days = diff / 86400 in
    let below_day = diff - days * 86400 in
    let hours = below_day / 3600 in
    let below_hour = below_day - hours * 3600 in
    let minutes = below_hour / 60 in
    record { days = days; hours = hours; minutes = minutes; seconds = below_hour - minutes * 60 }

abbrev unit : ℕ → String → String
unit n u = decimal n ++ u

unfoldable pub age_text : AgeParts → String
age_text p =
    if ltb 0 p.days
    then (if ltb 0 p.hours then unit p.days "d" ++ unit p.hours "h" else unit p.days "d")
    else if ltb 0 p.hours
    then (if ltb 0 p.minutes then unit p.hours "h" ++ unit p.minutes "m" else unit p.hours "h")
    else if ltb 0 p.minutes
    then (if ltb 0 p.seconds then unit p.minutes "m" ++ unit p.seconds "s" else unit p.minutes "m")
    else unit p.seconds "s"

unfoldable pub format_age : Option ℕ → ℕ → String
unfolding age_parts age_text
format_age none now = "—"
format_age (some created) now = age_text (age_parts (age_seconds created now))

unfoldable pub rough_duration : ℕ → String
rough_duration secs =
    let days = secs / 86400 in
    let hours = (secs - days * 86400) / 3600 in
    if ltb 0 days
    then (if ltb days 2 && ltb 0 hours then unit days "d" ++ unit hours "h" else unit days "d")
    else if ltb 0 (secs / 3600)
    then unit (secs / 3600) "h"
    else if ltb 0 (secs / 60)
    then unit (secs / 60) "m"
    else unit secs "s"

pub data ExpiryTone : Type 0 where
  ok warn crit expired : ExpiryTone

pub record Expiry : Type 0 where
  pub label : String
  pub tone : ExpiryTone

unfoldable pub tone_of : ℕ → ExpiryTone
tone_of secs = if ltb secs (7 * 86400) then crit else if ltb secs (30 * 86400) then warn else ok

-- Before the target, `secs` is the rest of the seconds, rounded down; after it `-secs` is what has
-- passed, rounded up, since `Math.floor` rounds a negative number away from 0.
unfoldable pub format_expiry : Option ℕ → ℕ → Option Expiry
unfolding rough_duration tone_of
format_expiry none now = none
format_expiry (some target) now =
    let secs = (target - now) / 1000 in
    if ltb 0 secs
    then some (record { label = "in " ++ rough_duration secs; tone = tone_of secs })
    else some (record {
      label = "expired " ++ rough_duration ((now - target + 999) / 1000) ++ " ago";
      tone = expired;
    })
