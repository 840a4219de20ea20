-- ===== src/Tests/Times.antt =====
-- A concrete instant: noon of the first of July 2026.
use oig_proxy.Common.{◌≡◌, refl, arith, not, ◌&&◌, if◌then◌else◌}
use oig_proxy.Frame.CzechTime.{
  Instant, IsLastSunday, first_day_after, weekday, is_since, shift, czech_local_datetime_from_utc,
  czech_local_datetime_from_utc_lem,
}

abbrev in_july : Instant
in_july = record { year = 2026; day = 739798; second = 43200 }

in_march-IsLastSunday : IsLastSunday 2026 3 739704
unfolding first_day_after weekday
in_march-IsLastSunday = record { sunday = refl; late = omega arith; within = omega arith }

in_october-IsLastSunday : IsLastSunday 2026 10 739914
unfolding first_day_after weekday
in_october-IsLastSunday = record { sunday = refl; late = omega arith; within = omega arith }

in_july_local : czech_local_datetime_from_utc in_july ≡ (739798, 50400)
unfolding czech_local_datetime_from_utc
in_july_local = refl

czech_local_datetime_from_utc_example :
    czech_local_datetime_from_utc in_july
    ≡ shift (if is_since 739704 1 in_july && not (is_since 739914 1 in_july) then 2 else 1) in_july
czech_local_datetime_from_utc_example =
    czech_local_datetime_from_utc_lem in_july 739704 739914 in_march-IsLastSunday
      in_october-IsLastSunday
