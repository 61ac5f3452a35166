-- ===== src/Output/Zones.antt =====
-- The three times that the report shows of one line of the log, in a zone with a fixed offset.
use storing_devices_logs_tfm.Base.{ℕ, ◌≡◌, refl, sym, ap, ◌∙◌, ℤ, Bytes}
use storing_devices_logs_tfm.Output.Times.{
  Tm, Clock, subtract, this_year, convert_syslog_timestamp_to_tm, get_string_from_tm,
  get_utc_time_from_local_time, get_est_time_from_utc_time,
}
use storing_devices_logs_tfm.Output.Html.{local_string, utc_string, est_string}

-- The local time is the universal time of an instant that is ahead by the offset; behind by it is
-- the way back.
pub record HasOffset (clock : Clock) : Type 0 where
  pub ahead : ℤ → ℤ
  pub behind : ℤ → ℤ
  pub localtime_ahead : (t : ℤ) → clock.localtime t ≡ clock.gmtime (ahead t)
  pub ahead-behind : (t : ℤ) → ahead (behind t) ≡ t
  pub ahead-subtract : (t : ℤ) (n : ℕ) → ahead (subtract t n) ≡ subtract (ahead t) n

-- `mktime` gives the instant back whose local time is taken apart, if its year and its daylight
-- saving time are those of now.
abbrev pub IsOfThisYear : Clock → ℤ → Type 0
IsOfThisYear clock t = clock.mktime (this_year clock (clock.localtime t)) ≡ t

module _ (clock : Clock) (zone : HasOffset clock) (t : ℤ) where
  utc_instant :
      IsOfThisYear clock t → get_utc_time_from_local_time clock (clock.localtime t) ≡ clock.gmtime t
  unfolding get_utc_time_from_local_time
  utc_instant h = ap clock.gmtime h

  gmtime_local : clock.gmtime t ≡ clock.localtime (zone.behind t)
  gmtime_local = sym (zone.localtime_ahead (zone.behind t) ∙ ap clock.gmtime (zone.ahead-behind t))

  est_instant :
      IsOfThisYear clock (zone.behind t)
      → get_est_time_from_utc_time clock (clock.gmtime t) ≡ clock.gmtime (subtract t 18000)
  unfolding get_est_time_from_utc_time
  est_instant h =
      let back : clock.mktime (this_year clock (clock.gmtime t)) ≡ zone.behind t =
        ap (λ (x : Tm). clock.mktime (this_year clock x)) gmtime_local ∙ h in
      let shifted : zone.ahead (subtract (zone.behind t) 18000) ≡ subtract t 18000 =
        zone.ahead-subtract (zone.behind t) 18000
        ∙ ap (λ x. subtract x 18000) (zone.ahead-behind t) in
      ap (λ x. clock.localtime (subtract x 18000)) back
      ∙ zone.localtime_ahead (subtract (zone.behind t) 18000)
      ∙ ap clock.gmtime shifted

  -- The line shows the local time of the instant: the month, the day and the time are read from it.
  abbrev pub IsShownAs : Bytes → Type 0
  IsShownAs time =
      this_year clock (convert_syslog_timestamp_to_tm clock time)
      ≡ this_year clock (clock.localtime t)

  string_this_year : (x : Tm) → get_string_from_tm (this_year clock x) ≡ get_string_from_tm x
  unfolding get_string_from_tm
  string_this_year x = refl

  utc_shown :
      (time : Bytes)
      → IsShownAs time
      → IsOfThisYear clock t
      → get_utc_time_from_local_time clock (convert_syslog_timestamp_to_tm clock time)
        ≡ clock.gmtime t
  unfolding get_utc_time_from_local_time
  utc_shown time s h = ap (λ (x : Tm). clock.gmtime (clock.mktime x)) s ∙ utc_instant h

  -- For a clock whose local time is ahead of universal time by a fixed offset, a text from which
  -- the month, the day and the time of an instant's local time are read is shown in the report as
  -- the local time of that instant, as its universal time and as the universal time of five hours
  -- before, if mktime gives back the instant, and the one behind by the offset, from its local
  -- time in the year of now.
  pub strings_of_instant :
      (time : Bytes)
      → IsShownAs time
      → IsOfThisYear clock t
      → IsOfThisYear clock (zone.behind t)
      → (local_string clock time ≡ get_string_from_tm (clock.localtime t))
        × (utc_string clock time ≡ get_string_from_tm (clock.gmtime t))
        × (est_string clock time ≡ get_string_from_tm (clock.gmtime (subtract t 18000)))
  unfolding local_string utc_string est_string
  strings_of_instant time s h k =
      let read = convert_syslog_timestamp_to_tm clock time in
      let utc = utc_shown time s h in
      (
        sym (string_this_year read)
            ∙ ap get_string_from_tm s
            ∙ string_this_year (clock.localtime t),
        ap get_string_from_tm utc,
        ap (λ (x : Tm). get_string_from_tm (get_est_time_from_utc_time clock x)) utc
            ∙ ap get_string_from_tm (est_instant k),
      )
