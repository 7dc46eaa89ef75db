-- ===== src/DirTime.antt =====
-- fslib/Directory.cpp, `dirTimeToTime` and `timeToDirTime`: the packed date of a directory entry,
-- age (2 bits), month (4), day (5) and year (5), and the three fields of `struct tm` that it sets.
pub mod Fields
pub mod Laws
use rt11fs.Base.{
  ℕ, suc, ◌+◌, ◌-◌, ◌*◌, ◌/◌, ◌%◌, ◌^◌, bit_and, bit_or, Option, none, some, List, [], ◌∷◌, Bool,
  not, ◌&&◌, ◌||◌, get_or, set, ltb, ◌==◌, if◌then◌else◌,
}
use rt11fs.Base.Int.{ℤ, pos, negsuc, pos_part, neg_part, ◌+ℤ◌, ◌-ℤ◌, ltb_ℤ}

pub record Tm : Type 0 where
  pub tm_year : ℤ
  pub tm_mon : ℤ
  pub tm_mday : ℤ

-- `monthLengths`, with the entry of February raised in a leap year.
unfoldable pub month_lengths : Bool → List ℕ
month_lengths leap =
    let lengths = 0 ∷ 31 ∷ 28 ∷ 31 ∷ 30 ∷ 31 ∷ 30 ∷ 31 ∷ 31 ∷ 30 ∷ 31 ∷ 30 ∷ 31 ∷ [] in
    if leap then set lengths 2 29 else lengths

-- `monthLengths.at(mon)`; both callers have tested that `mon` is from 1 to 12.
unfoldable pub month_length : Bool → ℕ → ℕ
unfolding month_lengths
month_length leap mon = get_or (month_lengths leap) mon 0

unfoldable pub is_leap : ℕ → Bool
is_leap year = (year % 4 == 0) && (not (year % 100 == 0) || (year % 400 == 0))

-- `none` is the result false, where the caller's `tm` stays as it was.
unfoldable pub dir_time_to_time : ℕ → Option Tm
dir_time_to_time dir_time =
    let year = bit_and dir_time 0b0000000000011111 in
    let day = bit_and dir_time 0b0000001111100000 / 2 ^ 5 in
    let mon = bit_and dir_time 0b0011110000000000 / 2 ^ 10 in
    let age = bit_and dir_time 0b1100000000000000 / 2 ^ 14 in
    if ltb mon 1 || ltb 12 mon
    then none
    else if ltb day 1 || ltb (month_length (is_leap year) mon) day
    then none
    else some (record {
      tm_year = pos (1972 + year + age * 32 - 1900);
      tm_mon = pos (mon - 1);
      tm_mday = pos day;
    })

-- The results false and true, and the shift of a negative `age`, which C++ leaves undefined.
pub data Stamp : Type 0 where
  invalid : Stamp
  stamp : ℕ → Stamp
  negative_shift : Stamp

abbrev pub max_year : ℕ
max_year = 1972 + 4 * 32 + 31

-- The word from `age`, `mon`, `day` and `year`, the last as its low 32 bits.
unfoldable pub pack : ℕ → ℕ → ℕ → ℕ → ℕ
pack age mon day year =
    bit_or
      (bit_or
        (bit_or (bit_and (age * 2 ^ 14) 0b1100000000000000)
          (bit_and (mon * 2 ^ 10) 0b0011110000000000))
        (bit_and (day * 2 ^ 5) 0b0000001111100000))
      (bit_and year 0b0000000000011111)

-- `year - 1972` and what follows; `/` rounds towards zero, and a negative remainder is masked in
-- two's complement.
unfoldable pub pack_year : ℤ → ℕ → ℕ → Stamp
pack_year (pos n) mon day = stamp (pack (n / 32) mon day (n - n / 32 * 32))
pack_year (negsuc n) mon day =
    if ltb (suc n) 32 then stamp (pack 0 mon day (2 ^ 32 - suc n)) else negative_shift

-- The tests on the month and the day leave numbers that are not negative.
unfoldable pub time_to_dir_time : Tm → Stamp
time_to_dir_time tm =
    let year = tm.tm_year +ℤ pos 1900 in
    let leap = is_leap (pos_part year + neg_part year) in
    if ltb_ℤ tm.tm_mon (pos 0) || ltb_ℤ (pos 11) tm.tm_mon
    then invalid
    else if ltb_ℤ tm.tm_mday (pos 1)
        || ltb_ℤ (pos (month_length leap (pos_part tm.tm_mon + 1))) tm.tm_mday
    then invalid
    else if ltb_ℤ (pos max_year) year
    then invalid
    else pack_year (year -ℤ pos 1972) (1 + pos_part tm.tm_mon) (pos_part tm.tm_mday)
