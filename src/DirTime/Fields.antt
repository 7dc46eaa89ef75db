-- ===== src/DirTime/Fields.antt =====
-- The fields of a packed date as arithmetic.
use rt11fs.Base.{ℕ, ◌+◌, ◌*◌, ◌/◌, ◌%◌, ◌^◌, ◌<◌, bit_and, bit_or, ◌≡◌, arith}
use rt11fs.Base.Bits.{bit_and_low, bit_and_high, bit_or_high}
use rt11fs.DirTime.{pack}

pub year_field : (w : ℕ) → bit_and w 0x1f ≡ w % 32
year_field w = bit_and_low 5 w

pub day_field : (w : ℕ) → bit_and w 0x3e0 / 2 ^ 5 ≡ w / 32 % 32
day_field w = omega (arith, bit_and_high 5 w 31, bit_and_low 5 (w / 32))

pub mon_field : (w : ℕ) → bit_and w 0x3c00 / 2 ^ 10 ≡ w / 1024 % 16
mon_field w = omega (arith, bit_and_high 10 w 15, bit_and_low 4 (w / 1024))

pub age_field : (w : ℕ) → bit_and w 0xc000 / 2 ^ 14 ≡ w / 16384 % 4
age_field w = omega (arith, bit_and_high 14 w 3, bit_and_low 2 (w / 16384))

cut_age : (n : ℕ) → bit_and (n * 2 ^ 14) 0xc000 ≡ n % 4 * 2 ^ 14
cut_age n = omega (arith, age_field (n * 2 ^ 14), bit_and_high 14 (n * 2 ^ 14) 3)

cut_mon : (n : ℕ) → bit_and (n * 2 ^ 10) 0x3c00 ≡ n % 16 * 2 ^ 10
cut_mon n = omega (arith, mon_field (n * 2 ^ 10), bit_and_high 10 (n * 2 ^ 10) 15)

cut_day : (n : ℕ) → bit_and (n * 2 ^ 5) 0x3e0 ≡ n % 32 * 2 ^ 5
cut_day n = omega (arith, day_field (n * 2 ^ 5), bit_and_high 5 (n * 2 ^ 5) 31)

join_four :
    (a m d y : ℕ)
    → m < 16
    → d < 32
    → y < 32
    → bit_or (bit_or (bit_or (a * 2 ^ 14) (m * 2 ^ 10)) (d * 2 ^ 5)) y
      ≡ a * 16384 + m * 1024 + d * 32 + y
join_four a m d y hm hd hy =
    let e1 : bit_or (a * 2 ^ 14) (m * 2 ^ 10) ≡ (a * 16 + m) * 2 ^ 10 =
      omega (arith, bit_or_high 14 a (m * 2 ^ 10) (omega arith)) in
    let e2 : bit_or ((a * 16 + m) * 2 ^ 10) (d * 2 ^ 5) ≡ ((a * 16 + m) * 32 + d) * 2 ^ 5 =
      omega (arith, bit_or_high 10 (a * 16 + m) (d * 2 ^ 5) (omega arith)) in
    rw (e1, e2, bit_or_high 5 ((a * 16 + m) * 32 + d) y hy) (omega arith)

-- The masks cut each part to its width, and the parts do not overlap.
pub pack_sum :
    (age mon day year : ℕ)
    → pack age mon day year ≡ age % 4 * 16384 + mon % 16 * 1024 + day % 32 * 32 + year % 32
unfolding pack
pack_sum age mon day year =
    rw (cut_age age, cut_mon mon, cut_day day, bit_and_low 5 year)
      (join_four (age % 4) (mon % 16) (day % 32) (year % 32) (omega arith) (omega arith)
        (omega arith))
