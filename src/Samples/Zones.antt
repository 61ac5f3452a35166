-- ===== src/Samples/Zones.antt =====
-- The times of a report at a time of the sample log, in a zone an hour ahead.
use storing_devices_logs_tfm.Base.{
  ℕ, ◌+◌, ◌-◌, ◌*◌, ltb, if◌then◌else◌, arith, ◌≡◌, refl, ℤ, pos, negsuc, Bytes, text, done,
}
use storing_devices_logs_tfm.Decimal.{to_string, natural, digits_onto}
use storing_devices_logs_tfm.Output.Times.{
  Tm, Clock, get_string_from_tm, subtract, convert_syslog_timestamp_to_tm,
  get_utc_time_from_local_time, get_est_time_from_utc_time,
}
use storing_devices_logs_tfm.Output.Html.{local_string, utc_string, est_string}
use storing_devices_logs_tfm.Output.Zones.{HasOffset, IsOfThisYear, IsShownAs, strings_of_instant}
use storing_devices_logs_tfm.Samples.Report.{broken_down, seconds_of}

abbrev an_hour_ahead : ℤ → ℤ
an_hour_ahead (pos a) = pos (a + 3600)
an_hour_ahead (negsuc a) = if ltb a 3600 then pos (3599 - a) else negsuc (a - 3600)

abbrev local_seconds : Tm → ℤ
local_seconds t = pos (
    seconds_of t.tm_sec
    + 60 * seconds_of t.tm_min
    + 3600 * seconds_of t.tm_hour
    + 86400 * (seconds_of t.tm_mday - 1)
    + 2592000 * seconds_of t.tm_mon)

-- Months of 30 days, and a `strptime` for the one text.
abbrev zone_clock : Clock
zone_clock = record {
  now = pos 0;
  strptime = λ t format tm. record tm {
    tm_mon = pos 2;
    tm_mday = pos 12;
    tm_hour = pos 10;
    tm_min = pos 15;
    tm_sec = pos 1;
  };
  localtime = λ t. broken_down (an_hour_ahead t);
  gmtime = broken_down;
  mktime = λ t. subtract (local_seconds t) 3600;
}

ahead_back : (t : ℤ) → an_hour_ahead (subtract t 3600) ≡ t
unfolding subtract
ahead_back (pos a) = ground arith
ahead_back (negsuc a) = ground arith

ahead-subtract_all : (t : ℤ) (n : ℕ) → an_hour_ahead (subtract t n) ≡ subtract (an_hour_ahead t) n
unfolding subtract
ahead-subtract_all (pos a) n = ground arith
ahead-subtract_all (negsuc a) n = ground arith

abbrev hour_zone : HasOffset zone_clock
hour_zone = record {
  ahead = an_hour_ahead;
  behind = λ t. subtract t 3600;
  localtime_ahead = λ t. refl;
  ahead-behind = ahead_back;
  ahead-subtract = ahead-subtract_all;
}

-- Mar 12 09:15:01, universal time.
abbrev instant : ℤ
instant = pos 6167701

abbrev shown_time : Bytes
shown_time = text "Mar 12 10:15:01"

instant-IsOfThisYear : IsOfThisYear zone_clock instant
unfolding broken_down subtract
instant-IsOfThisYear = refl

before-IsOfThisYear : IsOfThisYear zone_clock (subtract instant 3600)
unfolding broken_down subtract
before-IsOfThisYear = refl

instant-IsShownAs : IsShownAs zone_clock hour_zone instant shown_time
unfolding broken_down convert_syslog_timestamp_to_tm
instant-IsShownAs = refl

est_run : est_string zone_clock shown_time ≡ done (text "March 12 at 4:15:1")
unfolding est_string broken_down text subtract get_string_from_tm convert_syslog_timestamp_to_tm
    get_est_time_from_utc_time get_utc_time_from_local_time to_string natural digits_onto
est_run = refl

strings_of_instant_example :
    (local_string zone_clock shown_time ≡ get_string_from_tm (zone_clock.localtime instant))
    × (utc_string zone_clock shown_time ≡ get_string_from_tm (zone_clock.gmtime instant))
    × (est_string zone_clock shown_time
        ≡ get_string_from_tm (zone_clock.gmtime (subtract instant 18000)))
strings_of_instant_example =
    strings_of_instant zone_clock hour_zone instant shown_time instant-IsShownAs
      instant-IsOfThisYear before-IsOfThisYear
