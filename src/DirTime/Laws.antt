-- ===== src/DirTime/Laws.antt =====
-- Directory dates: what is stored is read back, and which dates are stored wrongly.
use rt11fs.Base.{
  ℕ, ◌+◌, ◌-◌, ◌*◌, ◌/◌, ◌%◌, ◌^◌, ◌≤◌, ◌<◌, ◌≡◌, refl, sym, ap, ◌∙◌, Option, none, some, Bool,
  true, false, ◌||◌, ltb, leb, if◌then◌else◌, leb→le, arith,
}
use rt11fs.Base.Int.{ℤ, pos, pos_part, neg_part, ◌+ℤ◌, ◌-ℤ◌, ltb_ℤ, pos-+ℤ}
use rt11fs.Base.Table.{every_below, every_below-true}
use rt11fs.DirTime.{
  Tm, month_length, is_leap, dir_time_to_time, Stamp, invalid, stamp, pack_year, time_to_dir_time,
}
use rt11fs.DirTime.Fields.{year_field, day_field, mon_field, age_field, pack_sum}

-- The `struct tm` of a day, counted as people count.
abbrev pub date : ℕ → ℕ → ℕ → Tm
date y m d = record { tm_year = pos y -ℤ pos 1900; tm_mon = pos (m - 1); tm_mday = pos d }

-- A day of the Gregorian calendar.
pub record IsDate (y m d : ℕ) : Type 0 where
  pub month_low : 1 ≤ m
  pub month_high : m ≤ 12
  pub day_low : 1 ≤ d
  pub day_high : d ≤ month_length (is_leap y) m

-- The rule for leap years of the stored year is that of the real one.
leap-offset : (r a : ℕ) → r < 32 → a < 4 → is_leap (1972 + r + a * 32) ≡ is_leap r
unfolding is_leap
leap-offset r a hr ha = ground arith

month_length-le : (b : Bool) (m : ℕ) → m ≤ 12 → month_length b m ≤ 31
unfolding month_length every_below
month_length-le true m h =
    leb→le _ _ (every_below-true (λ m. leb (month_length true m) 31) 13 m (omega arith) refl)
month_length-le false m h =
    leb→le _ _ (every_below-true (λ m. leb (month_length false m) 31) 13 m (omega arith) refl)

month_length_mono :
    (b c : Bool) (m : ℕ) → (b ≡ true → c ≡ true) → m ≤ 12 → month_length b m ≤ month_length c m
unfolding month_length every_below
month_length_mono true true m h k = omega arith
month_length_mono false false m h k = omega arith
month_length_mono true false m h k = cc (h refl)
month_length_mono false true m h k = leb→le _ _ (
    every_below-true (λ m. leb (month_length false m) (month_length true m)) 13 m (omega arith)
      refl)

-- What `dir_time_to_time` does with the four numbers of a word.
abbrev from_fields : ℕ → ℕ → ℕ → ℕ → Option Tm
from_fields year day mon age =
    if ltb mon 1 || ltb 12 mon
    then none
    else if ltb day 1 || ltb (month_length (is_leap year) mon) day
    then none
    else some (record {
      tm_year = pos (1972 + year + age * 32 - 1900);
      tm_mon = pos (mon - 1);
      tm_mday = pos day;
    })

read_word :
    (w : ℕ)
    → dir_time_to_time w ≡ from_fields (w % 32) (w / 32 % 32) (w / 1024 % 16) (w / 16384 % 4)
unfolding dir_time_to_time
read_word w = rw (year_field w, day_field w, mon_field w, age_field w)

date-eq :
    (y m d : ℕ)
    → 1900 ≤ y
    → date y m d ≡ record { tm_year = pos (y - 1900); tm_mon = pos (m - 1); tm_mday = pos d }
unfolding ◌-ℤ◌
date-eq y m d h = ground arith

-- Reading a word, in terms of its four numbers.
read_fields :
    (a m d r : ℕ)
    → a < 4
    → r < 32
    → IsDate (1972 + r + a * 32) m d
    → dir_time_to_time (a * 16384 + m * 1024 + d * 32 + r) ≡ some (date (1972 + r + a * 32) m d)
read_fields a m d r ha hr v =
    let small = month_length-le (is_leap r) m v.month_high in
    let leap = leap-offset r a hr ha in
    let w : ℕ = a * 16384 + m * 1024 + d * 32 + r in
    let fits : d ≤ month_length (is_leap r) m = rw leap at v.day_high in
    let e1 : w % 32 ≡ r = omega arith in
    let e2 : w / 32 % 32 ≡ d = omega arith in
    let e3 : w / 1024 % 16 ≡ m = omega arith in
    let e4 : w / 16384 % 4 ≡ a = omega arith in
    rw (read_word w, e1, e2, e3, e4, date-eq (1972 + r + a * 32) m d (omega arith)) (ground arith)

-- What `time_to_dir_time` does past the computation of the calendar year.
abbrev from_year : ℤ → Tm → Stamp
from_year year tm =
    let leap = is_leap (pos_part year + neg_part year) in
    if ltb_ℤ tm.tm_mon (pos 0) || ltb_ℤ (pos 11) tm.tm_mon
    then invalid
    else if ltb_ℤ tm.tm_mday (pos 1)
        || ltb_ℤ (pos (month_length leap (pos_part tm.tm_mon + 1))) tm.tm_mday
    then invalid
    else if ltb_ℤ (pos 2131) year
    then invalid
    else pack_year (year -ℤ pos 1972) (1 + pos_part tm.tm_mon) (pos_part tm.tm_mday)

write_year :
    (y m d : ℕ)
    → 1900 ≤ y
    → time_to_dir_time (date y m d)
      ≡ from_year
          (pos y)
          (record { tm_year = pos (y - 1900); tm_mon = pos (m - 1); tm_mday = pos d })
unfolding time_to_dir_time
write_year y m d h =
    let e : pos (y - 1900) +ℤ pos 1900 ≡ pos y = pos-+ℤ (y - 1900) 1900 ∙ ap pos (omega arith) in
    ap time_to_dir_time (date-eq y m d h) ∙ rw e

write_valid :
    (y m d : ℕ)
    → 1900 ≤ y
    → y ≤ 2131
    → IsDate y m d
    → time_to_dir_time (date y m d) ≡ pack_year (pos y -ℤ pos 1972) m d
write_valid y m d lo hi v =
    let e : m - 1 + 1 ≡ m = omega (arith, v.month_low) in
    let e' : 1 + (m - 1) ≡ m = omega (arith, v.month_low) in
    let e0 : y + 0 ≡ y = omega arith in rw (write_year y m d lo, e, e', e0) (ground arith)

-- Writing a date from 1972 to 2131: two bits are kept of the age.
write_fields :
    (y m d : ℕ)
    → 1972 ≤ y
    → y ≤ 2131
    → IsDate y m d
    → time_to_dir_time (date y m d)
      ≡ stamp ((y - 1972) / 32 % 4 * 16384 + m * 1024 + d * 32 + (y - 1972) % 32)
unfolding pack_year
write_fields y m d lo hi v =
    let e : pos y -ℤ pos 1972 ≡ pos (y - 1972) = unfold ◌-ℤ◌ in ground arith in
    let small = month_length-le (is_leap y) m v.month_high in
    rw (write_valid y m d (omega arith) hi v, e)
      (rw (pack_sum ((y - 1972) / 32) m d (y - 1972 - (y - 1972) / 32 * 32))
        (ap stamp (omega (arith, v.month_high, v.day_high))))

-- A date from 1972 to 2099 is stored as a 16-bit word, which is read as the same date.
pub read-write :
    (y m d : ℕ)
    → 1972 ≤ y
    → y ≤ 2099
    → IsDate y m d
    → (w : ℕ) × (time_to_dir_time (date y m d) ≡ stamp w)
      × (w < 2 ^ 16)
      × (dir_time_to_time w ≡ some (date y m d))
read-write y m d lo hi v =
    let small = month_length-le (is_leap y) m v.month_high in
    let a : ℕ = (y - 1972) / 32 in
    let r : ℕ = (y - 1972) % 32 in
    let e : 1972 + r + a * 32 ≡ y = omega arith in
    let e' : a % 4 ≡ a = omega arith in
    let v' : IsDate (1972 + r + a * 32) m d = rw e v in
    (
      a * 16384 + m * 1024 + d * 32 + r,
      write_fields y m d lo (omega arith) v ∙ rw e',
      omega (arith, v.month_high, v.day_high),
      read_fields a m d r (omega arith) (omega arith) v' ∙ rw e,
    )

earlier_leap : (r : ℕ) → r < 32 → is_leap (r + 2100) ≡ true → is_leap r ≡ true
unfolding is_leap
earlier_leap r h e = ground arith

earlier-IsDate :
    (y m d : ℕ) → 2100 ≤ y → y ≤ 2131 → IsDate y m d → IsDate (1972 + (y - 2100) + 0 * 32) m d
earlier-IsDate y m d lo hi v =
    let r : ℕ = y - 2100 in
    let e : r + 2100 ≡ y = omega arith in
    let leap : is_leap y ≡ true → is_leap (1972 + r + 0 * 32) ≡ true = λ t.
      leap-offset r 0 (omega arith) (omega arith)
      ∙ earlier_leap r (omega arith) (ap is_leap e ∙ t) in
    let grows = month_length_mono (is_leap y) (is_leap (1972 + r + 0 * 32)) m leap v.month_high in
    record {
      month_low = v.month_low;
      month_high = v.month_high;
      day_low = v.day_low;
      day_high = omega (arith, v.day_high);
    }

-- The range test lets the years 2100 to 2131 through, whose age does not fit its two bits: the
-- word is read as the date 128 years before.
pub read-write_late :
    (y m d : ℕ)
    → 2100 ≤ y
    → y ≤ 2131
    → IsDate y m d
    → (w : ℕ) × (time_to_dir_time (date y m d) ≡ stamp w)
      × (dir_time_to_time w ≡ some (date (y - 128) m d))
read-write_late y m d lo hi v =
    let small = month_length-le (is_leap y) m v.month_high in
    let r : ℕ = y - 2100 in
    let e : 1972 + r + 0 * 32 ≡ y - 128 = omega arith in
    let e0 : (y - 1972) / 32 % 4 ≡ 0 = omega arith in
    let e1 : (y - 1972) % 32 ≡ r = omega arith in
    let v' : IsDate (1972 + r + 0 * 32) m d = earlier-IsDate y m d lo hi v in
    (
      0 * 16384 + m * 1024 + d * 32 + r,
      write_fields y m d (omega arith) hi v ∙ rw (e0, e1),
      read_fields 0 m d r (omega arith) (omega arith) v' ∙ rw e,
    )

from_fields-some :
    (r d m a : ℕ) (tm : Tm)
    → r < 32
    → a < 4
    → from_fields r d m a ≡ some tm
    → IsDate (1972 + r + a * 32) m d × (tm ≡ date (1972 + r + a * 32) m d)
from_fields-some r d m a tm hr ha h =
    let leap = leap-offset r a hr ha in
    let v : IsDate (1972 + r + a * 32) m d = record {
      month_low = ground arith;
      month_high = ground arith;
      day_low = ground arith;
      day_high = rw leap (ground arith);
    } in
    (v, ground (arith, date-eq (1972 + r + a * 32) m d))

-- A 16-bit word that is read as a date is read as one from 1972 to 2099, and that date is stored as
-- the same word.
pub write-read :
    (w : ℕ) (tm : Tm)
    → w < 2 ^ 16
    → dir_time_to_time w ≡ some tm
    → (y : ℕ) × (m : ℕ) × (d : ℕ) × (1972 ≤ y)
      × (y ≤ 2099)
      × IsDate y m d
      × (tm ≡ date y m d)
      × (time_to_dir_time tm ≡ stamp w)
write-read w tm hw h =
    let r : ℕ = w % 32 in
    let a : ℕ = w / 16384 % 4 in
    let m : ℕ = w / 1024 % 16 in
    let d : ℕ = w / 32 % 32 in
    let e = sym (read_word w) ∙ h in
    let (v, t) = from_fields-some r d m a tm (omega arith) (omega arith) e in
    let y : ℕ = 1972 + r + a * 32 in
    (
      y,
      m,
      d,
      omega arith,
      omega arith,
      v,
      t,
      ap time_to_dir_time t
          ∙ write_fields y m d (omega arith) (omega arith) v
          ∙ ap stamp (omega arith),
    )
