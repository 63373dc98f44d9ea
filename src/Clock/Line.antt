-- ===== src/Clock/Line.antt =====
-- The line that the system call for the time prints.
use rml.Base.{ℕ, ◌/◌, ◌%◌, ◌^◌, ◌<◌, List, [], ◌∷◌, ◌++◌, codes, literal, ok, ◌≡◌, refl, arith}
use rml.Clib.Text.Scan.{text_of, has_nul}
use rml.Clock.{
  Time, Date, bcd, read_rtc_time, read_rtc_date, read_rtc_time_lem, read_rtc_date_lem, time,
}
use rml.Console.{Console}
use rml.Console.Numbers.{IsReady}
use rml.Console.Lines.{
  Exactly, Decimal, Space, ◌followed_by◌, Writes, ◌then_write◌, printk-Writes, print_uint-Writes,
  Space-Writes, line-Writes,
}

-- year/month/day hours:minutes:seconds
abbrev pub TimeLine : Date → Time → List ℕ → Type 0
TimeLine d t =
    Decimal d.year
    followed_by Exactly (codes "/")
    followed_by Decimal d.month
    followed_by Exactly (codes "/")
    followed_by Decimal d.day
    followed_by Space
    followed_by Decimal t.hours
    followed_by Exactly (codes ":")
    followed_by Decimal t.minutes
    followed_by Exactly (codes ":")
    followed_by Decimal t.seconds
    followed_by Exactly (13 ∷ 10 ∷ [])

time-Writes :
    (year month day hours minutes seconds : ℕ)
    → year < 10 ^ 6
    → month < 10 ^ 6
    → day < 10 ^ 6
    → hours < 10 ^ 6
    → minutes < 10 ^ 6
    → seconds < 10 ^ 6
    → let d : Date = record { year = year; month = month; day = day } in
      let t : Time = record { hours = hours; minutes = minutes; seconds = seconds } in
      Writes (TimeLine d t) (time d t)
unfolding time text_of has_nul
time-Writes year month day hours minutes seconds y m d h i s =
    print_uint-Writes year y
    then_write printk-Writes (literal "/") refl
    then_write print_uint-Writes month m
    then_write printk-Writes (literal "/") refl
    then_write print_uint-Writes day d
    then_write Space-Writes
    then_write print_uint-Writes hours h
    then_write printk-Writes (literal ":") refl
    then_write print_uint-Writes minutes i
    then_write printk-Writes (literal ":") refl
    then_write print_uint-Writes seconds s
    then_write line-Writes

-- The clock holds the packed decimal digits of a date with a year below 10000 and of a time, and the
-- console's buffer for digits is ready. `time`, on what the two functions read, ends and puts the
-- line year/month/day hours:minutes:seconds of that date and that time behind the screen.
pub time_lem :
    (year month day hours minutes seconds : ℕ) (con : Console)
    → year < 10000
    → month < 100
    → day < 100
    → hours < 100
    → minutes < 100
    → seconds < 100
    → IsReady con
    → let d : Date = record { year = year; month = month; day = day } in
      let t : Time = record { hours = hours; minutes = minutes; seconds = seconds } in
      (con' : Console) × (s : List ℕ) × (time
          (read_rtc_date (bcd (year / 100)) (bcd (year % 100)) (bcd month) (bcd day))
          (read_rtc_time (bcd hours) (bcd minutes) (bcd seconds))
          con
        ≡ ok con')
      × TimeLine d t s
      × (con'.screen ≡ con.screen ++ s)
      × IsReady con'
time_lem year month day hours minutes seconds con y m d h i s r =
    rw (read_rtc_date_lem year month day y m d, read_rtc_time_lem hours minutes seconds h i s)
      (time-Writes year month day hours minutes seconds (omega arith) (omega arith) (omega arith)
        (omega arith) (omega arith) (omega arith) con r)
