-- ===== src/TimeStamp/Reading.antt =====
-- A time stamp read back: what it keeps of the calendar, and how long it is.
use vnelogging.Common.{
  ℕ, ◌+◌, ◌-◌, ◌*◌, ◌/◌, ◌%◌, ◌≤◌, ◌<◌, ◌≡◌, refl, ap, ◌⊎◌, inl, inr, [], ◌∷◌, ◌++◌, arith, Text,
  All, length, length-append, ◌==◌, if◌then◌else◌, true, false,
}
use vnelogging.Common.Decimal.{
  to_string, value_from, value_from-to_string, IsDigit, to_string-IsDigit, HasDigits,
  length-to_string,
}
use vnelogging.TimeStamp.{
  TimeStampType, Tm, TimeProvider, two_digits, put_time, calendar, get_time_stamp,
}

-- A byte that is no digit.
abbrev pub IsSeparator : ℕ → Type 0
IsSeparator sep = (sep < 48) ⊎ (57 < sep)

-- The number up to the first `sep`, behind `acc`, and what follows.
read_until : ℕ → ℕ → Text → ℕ × Text
read_until sep acc [] = (acc, [])
read_until sep acc (c ∷ text) =
    let next = read_until sep (acc * 10 + (c - 48)) text in if c == sep then (acc, text) else next

-- The fields of a stamp with these separators.
unfoldable pub read_stamp : ℕ → ℕ → ℕ → Text → Tm
unfolding read_until
read_stamp date_sep between time_sep text =
    let year = read_until date_sep 0 text in
    let month = read_until date_sep 0 year.1 in
    let day = read_until between 0 month.1 in
    let hour = read_until time_sep 0 day.1 in
    let minute = read_until time_sep 0 hour.1 in
    record {
      tm_year = year.0 - 1900;
      tm_mon = month.0 - 1;
      tm_mday = day.0;
      tm_hour = hour.0;
      tm_min = minute.0;
      tm_sec = (read_until time_sep 0 minute.1).0;
    }

-- The fields of a calendar time, each in its range; a leap second is the 61st.
pub record IsCalendar (tm : Tm) : Type 0 where
  pub month : tm.tm_mon < 12
  pub day : tm.tm_mday ≤ 31
  pub hour : tm.tm_hour < 24
  pub minute : tm.tm_min < 60
  pub second : tm.tm_sec ≤ 60

read_until-digits :
    (sep acc : ℕ) (digits rest : Text)
    → IsSeparator sep
    → All IsDigit digits
    → read_until sep acc (digits ++ sep ∷ rest) ≡ (value_from acc digits, rest)
unfolding read_until value_from
read_until-digits sep acc [] rest s d =
    let found : (sep == sep) ≡ true = ground arith in rw found refl
read_until-digits sep acc (c ∷ digits) rest s d =
    let other : (c == sep) ≡ false = ground (arith, s, d.0) in
    rw (other, read_until-digits sep (acc * 10 + (c - 48)) digits rest s d.1) refl

read_until-to_string :
    (sep n : ℕ) (rest : Text)
    → IsSeparator sep
    → read_until sep 0 (to_string n ++ sep ∷ rest) ≡ (n, rest)
read_until-to_string sep n rest s =
    rw (read_until-digits sep 0 (to_string n) rest s (to_string-IsDigit n), value_from-to_string n)
      refl

read_until-two_digits :
    (sep n : ℕ) (rest : Text)
    → IsSeparator sep
    → n < 100
    → read_until sep 0 (two_digits n ++ sep ∷ rest) ≡ (n, rest)
unfolding value_from two_digits
read_until-two_digits sep n rest s h =
    let value : value_from 0 (two_digits n) ≡ n = omega arith in
    rw
      (read_until-digits sep 0 (two_digits n) rest s
        ((omega arith, omega arith), ((omega arith, omega arith), tt)))
      (ap (λ v. (v, rest)) value)

-- Two digits at the end of the text.
read_until-last : (sep n : ℕ) → IsSeparator sep → n < 100 → (read_until sep 0 (two_digits n)).0 ≡ n
unfolding read_until two_digits
read_until-last sep n s h =
    let tens : (48 + n / 10 % 10 == sep) ≡ false = ground (arith, s) in
    let ones : (48 + n % 10 == sep) ≡ false = ground (arith, s) in rw (tens, ones) (omega arith)

-- A calendar time put with separators that are no digits reads back as it was.
pub read_stamp-put_time :
    (date_sep between time_sep : ℕ) (tm : Tm)
    → IsSeparator date_sep
    → IsSeparator between
    → IsSeparator time_sep
    → IsCalendar tm
    → read_stamp date_sep between time_sep (put_time date_sep between time_sep tm) ≡ tm
unfolding read_stamp put_time
read_stamp-put_time d b t tm ds bs ts v =
    let year : 1900 + tm.tm_year - 1900 ≡ tm.tm_year = omega arith in
    let month : 1 + tm.tm_mon - 1 ≡ tm.tm_mon = omega arith in
    rw
      (
        read_until-to_string d (1900 + tm.tm_year) _ ds,
        read_until-two_digits d (1 + tm.tm_mon) _ ds (omega (arith, v.month)),
        read_until-two_digits b (tm.tm_mday) _ bs (omega (arith, v.day)),
        read_until-two_digits t (tm.tm_hour) _ ts (omega (arith, v.hour)),
        read_until-two_digits t (tm.tm_min) _ ts (omega (arith, v.minute)),
        read_until-last t (tm.tm_sec) ts (omega (arith, v.second)),
        year,
        month,
      )
      refl

-- The stamp of a line gives back the calendar time that the provider answered for it, field by
-- field, if the fields are in their ranges.
pub get_time_stamp-reads_back :
    (type : TimeStampType) (provider : TimeProvider) (k : ℕ)
    → IsCalendar (calendar type provider (provider.now k))
    → read_stamp b'-' b' ' b':' (get_time_stamp type provider k)
      ≡ calendar type provider (provider.now k)
unfolding get_time_stamp
get_time_stamp-reads_back type provider k v =
    read_stamp-put_time b'-' b' ' b':' _ (inl (omega arith)) (inl (omega arith)) (inr (omega arith))
      v

-- The stamp of a line is 19 bytes long in the years 1900 to 9999.
pub get_time_stamp-length :
    (type : TimeStampType) (provider : TimeProvider) (k : ℕ)
    → (calendar type provider (provider.now k)).tm_year < 8100
    → length (get_time_stamp type provider k) ≡ 19
unfolding get_time_stamp put_time two_digits
get_time_stamp-length type provider k h =
    let year = 1900 + (calendar type provider (provider.now k)).tm_year in
    let four : HasDigits 3 year = (omega arith, (omega arith, (omega arith, omega arith))) in
    rw (length-append (to_string year), length-to_string 3 year four) refl
