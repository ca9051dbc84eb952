-- ===== src/Time/Format.antt =====
-- `_format_time` of src/oncemesh/cache.py: `isoformat` of a UTC datetime, with `Z` for its offset.
use Prim.Native.Char.{Char}
use once_mesh.Base.{
  ℕ, zero, suc, ◌+◌, ◌-◌, ◌*◌, ◌/◌, ◌%◌, ◌≡◌, refl, String, some, ltb, nat_eq, if◌then◌else◌, ◌||◌,
}
use once_mesh.Time.{microsecond, instant, is_leap, days_before_month, days_in_month, leap_day}

digit : ℕ → Char
digit zero = "0"
digit (suc zero) = "1"
digit (suc (suc zero)) = "2"
digit (suc (suc (suc zero))) = "3"
digit (suc (suc (suc (suc zero)))) = "4"
digit (suc (suc (suc (suc (suc zero))))) = "5"
digit (suc (suc (suc (suc (suc (suc zero)))))) = "6"
digit (suc (suc (suc (suc (suc (suc (suc zero))))))) = "7"
digit (suc (suc (suc (suc (suc (suc (suc (suc zero)))))))) = "8"
digit n = "9"

-- The last `k` decimal digits, with leading zeros.
pad_digits : ℕ → ℕ → String → String
unfolding digit
pad_digits zero n rest = rest
pad_digits (suc k) n rest = pad_digits k (n / 10) (String.◌∷◌ (digit (n % 10)) rest)

-- The year, month and day of a day counted from 0001-01-01.
month_day : ℕ → ℕ → ℕ × ℕ
unfolding days_before_month days_in_month is_leap
month_day year n =
    let month = (n + 50) / 32 in
    let before = days_before_month month + leap_day year month in
    if ltb n before
    then (month - 1, n - (before - days_in_month year (month - 1)) + 1)
    else (month, n - before + 1)

year_day : ℕ → ℕ × ℕ × ℕ
unfolding month_day
year_day day =
    let n400 = day / 146097 in
    let in400 = day % 146097 in
    let n100 = in400 / 36524 in
    let in100 = in400 % 36524 in
    let n4 = in100 / 1461 in
    let in4 = in100 % 1461 in
    let n1 = in4 / 365 in
    let year = n400 * 400 + n100 * 100 + n4 * 4 + n1 + 1 in
    if nat_eq n1 4 || nat_eq n100 4
    then (year - 1, 12, 31)
    else (let (month, d) = month_day year (in4 % 365) in (year, month, d))

time_of_day : ℕ → String → String
unfolding pad_digits
time_of_day seconds rest = pad_digits 2 (seconds / 3600) (
    String.◌∷◌ ":"
      (pad_digits 2 (seconds / 60 % 60) (String.◌∷◌ ":" (pad_digits 2 (seconds % 60) rest))))

unfoldable pub format_time : ℕ → String
unfolding pad_digits year_day time_of_day
format_time t =
    let (year, month, day) = year_day (t / (86400 * microsecond)) in
    let micro = t % microsecond in
    let offset : String = if nat_eq micro 0 then "Z" else String.◌∷◌ "." (pad_digits 6 micro "Z") in
    pad_digits 4 year (
      String.◌∷◌ "-" (
        pad_digits 2 month (
          String.◌∷◌ "-"
            (pad_digits 2 day (String.◌∷◌ "T" (time_of_day (t / microsecond % 86400) offset))))))

format_time_examples :
    (format_time (738944 * 86400 * microsecond + 86399500000) ≡ "2024-02-29T23:59:59.500000Z")
    × (instant (format_time (738944 * 86400 * microsecond)) ≡ some (738944 * 86400 * microsecond))
    × (format_time (739250 * 86400 * microsecond) ≡ "2024-12-31T00:00:00Z")
unfolding format_time instant
format_time_examples = (refl, refl, refl)
