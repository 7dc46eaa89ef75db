-- ===== src/Examples/Codes.antt =====
-- Rad50 words, dates, names and paths at concrete inputs.
use rt11fs.Base.{
  ℕ, ◌≤◌, ◌<◌, ◌≡◌, refl, ◌^◌, ◌↔◌, ◌≢◌, Option, none, some, length, arith, List, [], ◌∷◌,
}
use rt11fs.Base.{ok}
use rt11fs.Base.Text.{Text, find, codes}
use rt11fs.Rad50.{from_rad50, to_rad50}
use rt11fs.Rad50.Laws.{to_rad50-from_rad50, from_rad50-to_rad50}
use rt11fs.DirTime.{stamp, month_length, is_leap, dir_time_to_time, time_to_dir_time}
use rt11fs.DirTime.Laws.{date, IsDate, read-write, read-write_late, write-read}
use rt11fs.FileSystem.{slash, validate_path}
use rt11fs.FileSystem.Paths.{validate_path_ok}

to_rad50-from_rad50_example :
    (s : Text) × (from_rad50 1683 ≡ some s) × (length s ≡ 3) × (to_rad50 s ≡ some 1683)
to_rad50-from_rad50_example = to_rad50-from_rad50 1683 (omega arith)

from_rad50-to_rad50_example : (1683 < 64000) × (from_rad50 1683 ≡ some (codes "ABC"))
unfolding to_rad50
from_rad50-to_rad50_example = from_rad50-to_rad50 (codes "ABC") 1683 refl

leap_day-IsDate : IsDate 2024 2 29
unfolding month_length is_leap
leap_day-IsDate = record {
  month_low = omega arith;
  month_high = omega arith;
  day_low = omega arith;
  day_high = omega arith;
}

read-write_example :
    (w : ℕ) × (time_to_dir_time (date 2024 2 29) ≡ stamp w)
    × (w < 2 ^ 16)
    × (dir_time_to_time w ≡ some (date 2024 2 29))
read-write_example = read-write 2024 2 29 (omega arith) (omega arith) leap_day-IsDate

christmas-IsDate : IsDate 2110 12 25
unfolding month_length is_leap
christmas-IsDate = record {
  month_low = omega arith;
  month_high = omega arith;
  day_low = omega arith;
  day_high = omega arith;
}

read-write_late_example :
    (w : ℕ) × (time_to_dir_time (date 2110 12 25) ≡ stamp w)
    × (dir_time_to_time w ≡ some (date 1982 12 25))
read-write_late_example = read-write_late 2110 12 25 (omega arith) (omega arith) christmas-IsDate

write-read_example :
    (y : ℕ) × (m : ℕ) × (d : ℕ) × (1972 ≤ y)
    × (y ≤ 2099)
    × IsDate y m d
    × (date 1972 1 1 ≡ date y m d)
    × (time_to_dir_time (date 1972 1 1) ≡ stamp 1056)
unfolding dir_time_to_time month_length is_leap rt11fs.Base.Int.◌-ℤ◌
write-read_example = write-read 1056 (date 1972 1 1) (omega arith) refl

validate_path_ok_example : (validate_path (codes "/A.B") ≡ ok (codes "A.B")) ↔ (
    (codes "/A.B" ≡ slash ∷ codes "A.B") × (codes "A.B" ≢ []) × (find (codes "A.B") slash ≡ none))
validate_path_ok_example = validate_path_ok (codes "/A.B") (codes "A.B")
