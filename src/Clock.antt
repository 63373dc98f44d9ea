-- ===== src/Clock.antt =====
-- The clock: `read_RTC_time` and `read_RTC_date` of kernel/bios.c, and `time` of kernel/kernel.c. The
-- bytes that INT 1Ah returns in CH, CL, DH and DL are arguments.
pub mod Line
use rml.Base.{ℕ, ◌+◌, ◌*◌, ◌/◌, ◌%◌, ◌^◌, ◌<◌, bit_and, [], Outcome, ◌>>=◌, literal, ◌≡◌, arith}
use rml.Base.Masks.{field_of, bit_and-ones}
use rml.Console.{Console, printk, print_uint, line}

-- `((b & 0xF0) >> 4) * 10 + (b & 0x0F)`
unfoldable pub from_bcd : ℕ → ℕ
from_bcd b = bit_and b 0xf0 / 2 ^ 4 * 10 + bit_and b 0x0f

pub record Time : Type 0 where
  pub hours : ℕ
  pub minutes : ℕ
  pub seconds : ℕ

pub record Date : Type 0 where
  pub year : ℕ
  pub month : ℕ
  pub day : ℕ

unfoldable pub read_rtc_time : ℕ → ℕ → ℕ → Time
unfolding from_bcd
read_rtc_time hours minutes seconds = record {
  hours = from_bcd hours;
  minutes = from_bcd minutes;
  seconds = from_bcd seconds;
}

unfoldable pub read_rtc_date : ℕ → ℕ → ℕ → ℕ → Date
unfolding from_bcd
read_rtc_date century year month day = record {
  year = bit_and century 0xf0 / 2 ^ 4 * 1000 + bit_and century 0x0f * 100 + from_bcd year;
  month = from_bcd month;
  day = from_bcd day;
}

-- What `time` prints for what the two functions above read.
unfoldable pub time : Date → Time → Console → Outcome Console
time d t con = do
  c1 ← print_uint d.year con
  c2 ← printk (literal "/") c1
  c3 ← print_uint d.month c2
  c4 ← printk (literal "/") c3
  c5 ← print_uint d.day c4
  c6 ← printk (literal " ") c5
  c7 ← print_uint t.hours c6
  c8 ← printk (literal ":") c7
  c9 ← print_uint t.minutes c8
  c10 ← printk (literal ":") c9
  c11 ← print_uint t.seconds c10
  printk (line []) c11

-- Two decimal digits in a byte.
abbrev pub bcd : ℕ → ℕ
bcd n = n / 10 * 16 + n % 10

high_digit : (n : ℕ) → n < 100 → bit_and (bcd n) 0xf0 / 2 ^ 4 ≡ n / 10
high_digit n h = omega (arith, field_of 4 4 (bcd n))

low_digit : (n : ℕ) → bit_and (bcd n) 0x0f ≡ n % 10
low_digit n = omega (arith, bit_and-ones 4 (bcd n))

pub from_bcd_lem : (n : ℕ) → n < 100 → from_bcd (bcd n) ≡ n
unfolding from_bcd
from_bcd_lem n h = omega (arith, high_digit n h, low_digit n)

-- The clock's packed decimal digits of an hour, a minute and a second below 100 are read as those
-- numbers.
pub read_rtc_time_lem :
    (hours minutes seconds : ℕ)
    → hours < 100
    → minutes < 100
    → seconds < 100
    → read_rtc_time (bcd hours) (bcd minutes) (bcd seconds)
      ≡ record { hours = hours; minutes = minutes; seconds = seconds }
unfolding read_rtc_time
read_rtc_time_lem hours minutes seconds h m s =
    rw (from_bcd_lem hours h, from_bcd_lem minutes m, from_bcd_lem seconds s)

-- The packed digits of a century, of a year in it, of a month and of a day are read as the year
-- with its century, for years below 10000, the month and the day.
pub read_rtc_date_lem :
    (year month day : ℕ)
    → year < 10000
    → month < 100
    → day < 100
    → read_rtc_date (bcd (year / 100)) (bcd (year % 100)) (bcd month) (bcd day)
      ≡ record { year = year; month = month; day = day }
unfolding read_rtc_date
read_rtc_date_lem year month day y m d =
    let whole : year / 100 / 10 * 1000 + year / 100 % 10 * 100 + year % 100 ≡ year = omega arith in
    rw (
      high_digit (year / 100) (omega arith),
      low_digit (year / 100),
      from_bcd_lem (year % 100) (omega arith),
      from_bcd_lem month m,
      from_bcd_lem day d,
      whole,
    )
