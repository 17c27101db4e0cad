-- ===== src/TimeStamp.antt =====
-- core/time_stamp.h: the time stamp of a line. The clock and the conversions of a time to calendar
-- fields are the time provider's; the k-th reading of its clock is `now k`.
pub mod Reading
use vnelogging.Common.{ℕ, ◌+◌, ◌/◌, ◌%◌, [], ◌∷◌, ◌++◌, ◌≡◌, refl, Text, codes}
use vnelogging.Common.Decimal.{to_string}

pub data TimeStampType : Type 0 where
  local utc : TimeStampType

-- The fields of `std::tm` that the pattern reads: years since 1900, months since January.
pub record Tm : Type 0 where
  pub tm_year : ℕ
  pub tm_mon : ℕ
  pub tm_mday : ℕ
  pub tm_hour : ℕ
  pub tm_min : ℕ
  pub tm_sec : ℕ

-- `ITimeProvider`
pub record TimeProvider : Type 0 where
  pub now : ℕ → ℕ
  pub local_time : ℕ → Tm
  pub gm_time : ℕ → Tm

-- Two digits with a leading zero.
unfoldable pub two_digits : ℕ → Text
two_digits n = (48 + n / 10 % 10) ∷ (48 + n % 10) ∷ []

-- `std::put_time(ptm, "%Y-%m-%d %H:%M:%S")`, and with other separators in `createLoggingFolder`.
unfoldable pub put_time : ℕ → ℕ → ℕ → Tm → Text
put_time date_sep between time_sep tm =
    to_string (1900 + tm.tm_year)
    ++ date_sep
      ∷ (two_digits (1 + tm.tm_mon)
          ++ date_sep
            ∷ (two_digits tm.tm_mday
                ++ between
                  ∷ (two_digits tm.tm_hour
                      ++ time_sep ∷ (two_digits tm.tm_min ++ time_sep ∷ two_digits tm.tm_sec))))

unfoldable pub calendar : TimeStampType → TimeProvider → ℕ → Tm
calendar local provider time = provider.local_time time
calendar utc provider time = provider.gm_time time

-- The stamp of the k-th reading of the clock.
unfoldable pub get_time_stamp : TimeStampType → TimeProvider → ℕ → Text
unfolding calendar put_time
get_time_stamp type provider k = put_time b'-' b' ' b':' (calendar type provider (provider.now k))

put_time_test :
    put_time b'-' b' ' b':'
      (record { tm_year = 124; tm_mon = 6; tm_mday = 9; tm_hour = 23; tm_min = 5; tm_sec = 0 })
    ≡ codes "2024-07-09 23:05:00"
unfolding put_time to_string two_digits
put_time_test = refl
