-- ===== src/Time.antt =====
-- Timestamps: `datetime.fromisoformat` and `isoformat` on the texts that the code reads and writes
-- (UTC_TIMESTAMP_PATTERN of src/oncemesh/canonical.py, `_parse_time` and `_format_time` of
-- src/oncemesh/cache.py). An aware datetime is the number of microseconds since 0001-01-01T00:00Z.
pub mod Format
use once_mesh.Base.{
  ℕ, zero, suc, ◌+◌, ◌-◌, ◌*◌, ◌/◌, ◌%◌, ◌≡◌, refl, ap, String, Bool, not, ◌&&◌, ◌||◌, List, [],
  ◌∷◌, Option, none, some, ltb, leb, nat_eq, if◌then◌else◌, codes,
}
use once_mesh.Base.Result.{Result, ok, raise, value_error}

abbrev pub microsecond : ℕ
microsecond = 1000000

infixl 5 ◌>>=◌
abbrev ◌>>=◌ : {A B : Type 0} → Option A → (A → Option B) → Option B
none >>= f = none
some a >>= f = f a

is_digit : ℕ → Bool
is_digit c = leb b'0' c && leb c b'9'

-- `\d{n}`: the number, and the text that follows it.
digits : ℕ → ℕ → List ℕ → Option (ℕ × List ℕ)
unfolding is_digit
digits zero n cs = some (n, cs)
digits (suc k) n [] = none
digits (suc k) n (c ∷ cs) =
    let rest = digits k (n * 10 + (c - b'0')) cs in if is_digit c then rest else none

expect : ℕ → List ℕ → Option (List ℕ)
expect d [] = none
expect d (c ∷ cs) = if nat_eq c d then some cs else none

-- `\d*`; the first six digits count, at the weight that is left.
fraction : ℕ → ℕ → List ℕ → ℕ × List ℕ
unfolding is_digit
fraction weight n [] = (n, [])
fraction weight n (c ∷ cs) =
    let rest = fraction (weight / 10) (n + (c - b'0') * weight) cs in
    if is_digit c then rest else (n, c ∷ cs)

-- `(?:\.\d+)?Z$`: the microseconds.
tail_of : List ℕ → Option ℕ
unfolding fraction is_digit expect
tail_of (c ∷ d ∷ cs) =
    if nat_eq c b'.' && is_digit d
    then (let (micro, rest) = fraction 100000 0 (d ∷ cs) in
        elim (expect b'Z' rest) [ some [] ↦ some micro | _ ↦ none ])
    else none
tail_of (c ∷ []) = if nat_eq c b'Z' then some 0 else none
tail_of [] = none

is_leap : ℕ → Bool
is_leap year = nat_eq (year % 4) 0 && (not (nat_eq (year % 100) 0) || nat_eq (year % 400) 0)

abbrev leap_day : ℕ → ℕ → ℕ
leap_day year month = if ltb 2 month && is_leap year then 1 else 0

-- The days of a common year before the month, from 1.
days_before_month : ℕ → ℕ
days_before_month month = (367 * month - 362) / 12 - (if ltb 2 month then 2 else 0)

days_in_month : ℕ → ℕ → ℕ
unfolding days_before_month is_leap
days_in_month year month =
    if nat_eq month 12
    then 31
    else days_before_month (month + 1)
      + leap_day year (month + 1)
      - (days_before_month month + leap_day year month)

days_before_year : ℕ → ℕ
days_before_year year = let y = year - 1 in y * 365 + y / 4 - y / 100 + y / 400

-- The fields of a datetime, if they name one.
from_fields : ℕ → ℕ → ℕ → ℕ → ℕ → ℕ → ℕ → Option ℕ
unfolding days_before_year days_in_month days_before_month is_leap
from_fields year month day hour minute second micro =
    if leb 1 year
      && leb 1 month
      && leb month 12
      && leb 1 day
      && leb day (days_in_month year month)
      && ltb hour 24
      && ltb minute 60
      && ltb second 60
    then some (
        (((days_before_year year + days_before_month month + leap_day year month + (day - 1)) * 24
                + hour)
              * 60
            + minute)
          * 60
          * microsecond
        + second * microsecond
        + micro)
    else none

parse_codes : List ℕ → Option ℕ
unfolding digits expect tail_of from_fields
parse_codes cs = do
  (year, cs) ← digits 4 0 cs
  cs ← expect b'-' cs
  (month, cs) ← digits 2 0 cs
  cs ← expect b'-' cs
  (day, cs) ← digits 2 0 cs
  cs ← expect b'T' cs
  (hour, cs) ← digits 2 0 cs
  cs ← expect b':' cs
  (minute, cs) ← digits 2 0 cs
  cs ← expect b':' cs
  (second, cs) ← digits 2 0 cs
  micro ← tail_of cs
  from_fields year month day hour minute second micro

-- The instant of a text that matches UTC_TIMESTAMP_PATTERN and names a datetime; `none` where the
-- pattern fails or `fromisoformat` raises.
unfoldable pub instant : String → Option ℕ
unfolding parse_codes
instant text = parse_codes (codes text)

read_instant : Option ℕ → Result ℕ
read_instant none = raise (value_error "invalid isoformat string")
read_instant (some t) = ok t

-- `_parse_time`
unfoldable pub parse_time : String → Result ℕ
unfolding instant read_instant
parse_time text = read_instant (instant text)

-- `_parse_time` at a text with an instant, and at one with none.
pub parse_time-some : (text : String) (t : ℕ) → instant text ≡ some t → parse_time text ≡ ok t
unfolding read_instant parse_time
parse_time-some text t e = ap read_instant e

pub parse_time-none :
    (text : String)
    → instant text ≡ none
    → parse_time text ≡ raise (value_error "invalid isoformat string")
unfolding read_instant parse_time
parse_time-none text e = ap read_instant e

parse_time_examples :
    (instant "1970-01-01T00:00:00Z" ≡ some (719162 * 86400 * microsecond))
    × (instant "2024-02-29T23:59:59.5Z" ≡ some (738944 * 86400 * microsecond + 86399500000))
    × (instant "2023-02-29T00:00:00Z" ≡ none)
    × (instant "2024-12-31T00:00:00.1234567Z" ≡ some (739250 * 86400 * microsecond + 123456))
    × (instant "2024-01-01T00:00:00" ≡ none)
unfolding instant
parse_time_examples = (refl, refl, refl, refl, refl)
