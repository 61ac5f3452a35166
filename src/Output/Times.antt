-- ===== src/Output/Times.antt =====
-- The times of the report: convertSyslogTimestampToTm, getUTCTimeFromLocalTime,
-- getESTTimeFromUTCTime and GetStringFromTM.
use storing_devices_logs_tfm.Base.{
  ℕ, ◌+◌, ◌-◌, ltb, if◌then◌else◌, List, [], ◌∷◌, ◌++◌, get_elem?, ℤ, pos, negsuc, Bytes, text,
  Outcome, done, fault, bad_index, or_fault, ◌>>=◌,
}
use storing_devices_logs_tfm.Decimal.{to_string}

-- The fields of `struct tm`.
pub record Tm : Type 0 where
  pub tm_sec : ℤ
  pub tm_min : ℤ
  pub tm_hour : ℤ
  pub tm_mday : ℤ
  pub tm_mon : ℤ
  pub tm_year : ℤ
  pub tm_wday : ℤ
  pub tm_yday : ℤ
  pub tm_isdst : ℤ

abbrev pub zero_tm : Tm
zero_tm = record {
  tm_sec = pos 0;
  tm_min = pos 0;
  tm_hour = pos 0;
  tm_mday = pos 0;
  tm_mon = pos 0;
  tm_year = pos 0;
  tm_wday = pos 0;
  tm_yday = pos 0;
  tm_isdst = pos 0;
}

-- The clock and the time zone of the machine. `now` is what `time` answers; `strptime` is given
-- the text, the format and the structure that it fills.
pub record Clock : Type 0 where
  pub now : ℤ
  pub strptime : Bytes → Bytes → Tm → Tm
  pub localtime : ℤ → Tm
  pub gmtime : ℤ → Tm
  pub mktime : Tm → ℤ

-- Subtraction of a natural number, in a `time_t` that does not overflow.
unfoldable pub subtract : ℤ → ℕ → ℤ
subtract (pos a) b = if ltb a b then negsuc (b - a - 1) else pos (a - b)
subtract (negsuc a) b = negsuc (a + b)

unfoldable pub convert_syslog_timestamp_to_tm : Clock → Bytes → Tm
convert_syslog_timestamp_to_tm clock input_str = clock.strptime input_str (text "%b %d %T") zero_tm

-- The month, the day and the time of `t` in what `localtime` says of now: its year and its
-- daylight saving time.
abbrev pub this_year : Clock → Tm → Tm
this_year clock t = record (clock.localtime clock.now) {
  tm_mon = t.tm_mon;
  tm_mday = t.tm_mday;
  tm_hour = t.tm_hour;
  tm_min = t.tm_min;
  tm_sec = t.tm_sec;
}

unfoldable pub get_utc_time_from_local_time : Clock → Tm → Tm
get_utc_time_from_local_time clock local_time =
    clock.gmtime (clock.mktime (this_year clock local_time))

-- `HOURS_DIFFERENCE_UTC_EST * 3600` is -18000.
unfoldable pub get_est_time_from_utc_time : Clock → Tm → Tm
unfolding subtract
get_est_time_from_utc_time clock utc =
    clock.localtime (subtract (clock.mktime (this_year clock utc)) 18000)

abbrev pub month : List Bytes
month =
    text "January"
    ∷ text "February"
    ∷ text "March"
    ∷ text "April"
    ∷ text "May"
    ∷ text "June"
    ∷ text "July"
    ∷ text "August"
    ∷ text "September"
    ∷ text "October"
    ∷ text "November"
    ∷ text "December"
    ∷ []

unfoldable pub month_name : ℤ → Outcome Bytes
month_name (pos n) = or_fault (get_elem? month n) bad_index
month_name (negsuc n) = fault bad_index

unfoldable pub get_string_from_tm : Tm → Outcome Bytes
unfolding month_name
get_string_from_tm date = month_name date.tm_mon >>= λ name. done (
    name
    ++ (text " "
        ++ (to_string date.tm_mday
            ++ (text " at "
                ++ (to_string date.tm_hour
                    ++ (text ":"
                        ++ (to_string date.tm_min ++ (text ":" ++ to_string date.tm_sec))))))))
