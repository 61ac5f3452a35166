-- ===== src/Output/Calendar.antt =====
-- The times of the report, where the library's months are those of the calendar.
use storing_devices_logs_tfm.Base.{
  ℕ, zero, suc, ◌+◌, ◌<◌, ◌≡◌, refl, ap, ◌∙◌, arith, List, [], ◌∷◌, length, get_elem?, some, ℤ, pos,
  Bytes, text, bad_index, or_fault, Finishes, Finishes-bind,
}
use storing_devices_logs_tfm.Usb.{Usbs}
use storing_devices_logs_tfm.Output.Times.{
  Tm, Clock, zero_tm, month, month_name, get_string_from_tm, convert_syslog_timestamp_to_tm,
  get_utc_time_from_local_time, get_est_time_from_utc_time,
}
use storing_devices_logs_tfm.Output.Html.{local_string, utc_string, est_string, next}
use storing_devices_logs_tfm.Output.Report.{zones, zones_of_first, times_report, usbs_report}

abbrev pub HasMonth : Tm → Type 0
HasMonth t = (n : ℕ) × (t.tm_mon ≡ pos n) × (n < 12)

-- The months that the library's functions give are those of the calendar, whatever they are given.
pub record IsCalendar (clock : Clock) : Type 0 where
  pub strptime_month : (t : Bytes) → HasMonth (clock.strptime t (text "%b %d %T") zero_tm)
  pub localtime_month : (t : ℤ) → HasMonth (clock.localtime t)
  pub gmtime_month : (t : ℤ) → HasMonth (clock.gmtime t)

get_elem?-some :
    {A : Type 0} (xs : List A) (n : ℕ) → n < length xs → (a : A) × (get_elem? xs n ≡ some a)
get_elem?-some [] n h = absurd (omega arith)
get_elem?-some (x ∷ xs) zero h = (x, refl)
get_elem?-some (x ∷ xs) (suc n) h = get_elem?-some xs n (omega arith)

get_string_from_tm-Finishes : (t : Tm) → HasMonth t → Finishes (get_string_from_tm t)
unfolding get_string_from_tm month_name
get_string_from_tm-Finishes t (n, e, h) =
    let (name, k) = get_elem?-some month n h in
    Finishes-bind (month_name t.tm_mon) _ (name, ap month_name e ∙ ap (λ o. or_fault o bad_index) k)
      (λ a. (_, refl))

module _ (clock : Clock) (c : IsCalendar clock) where
  zones-Finishes : (t : Bytes) → Finishes (zones clock t)
  unfolding zones local_string utc_string est_string convert_syslog_timestamp_to_tm
      get_utc_time_from_local_time get_est_time_from_utc_time
  zones-Finishes t =
      Finishes-bind (local_string clock t) _ (get_string_from_tm-Finishes _ (c.strptime_month t))
        (λ l.
          Finishes-bind (utc_string clock t) _ (get_string_from_tm-Finishes _ (c.gmtime_month _))
            (λ u.
              Finishes-bind (est_string clock t) _
                (get_string_from_tm-Finishes _ (c.localtime_month _)) (λ e. (_, refl))))

  zones_of_first-Finishes : (ts : List Bytes) → Finishes (zones_of_first clock ts)
  unfolding zones_of_first
  zones_of_first-Finishes [] = (_, refl)
  zones_of_first-Finishes (t ∷ ts) = zones-Finishes t

  times_report-Finishes : (ts ds : List Bytes) → Finishes (times_report clock ts ds)
  unfolding times_report
  times_report-Finishes [] ds = (_, refl)
  times_report-Finishes (t ∷ ts) ds = Finishes-bind (zones clock t) _ (zones-Finishes t) (λ z.
      Finishes-bind (zones_of_first clock ds) _ (zones_of_first-Finishes ds) (λ z'.
        Finishes-bind (times_report clock ts (next ds)) _ (times_report-Finishes ts (next ds))
          (λ b. (_, refl))))

  pub usbs_report-Finishes : (n : ℕ) (m : Usbs) → Finishes (usbs_report clock n m)
  unfolding usbs_report
  usbs_report-Finishes n [] = (_, refl)
  usbs_report-Finishes n ((k, i) ∷ m) =
      Finishes-bind (times_report clock i.connection_times i.disconnection_times) _
        (times_report-Finishes i.connection_times i.disconnection_times)
        (λ b.
          Finishes-bind (usbs_report clock (n + 1) m) _ (usbs_report-Finishes (n + 1) m)
            (λ r. (_, refl)))
