-- ===== src/DirConst.antt =====
-- fslib/DirConst.h: the layout of the directory on disk.
use rt11fs.Base.{ℕ, Bool, ◌&&◌, ◌==◌}

abbrev pub e_tent : ℕ
e_tent = 0o400

abbrev pub e_mpty : ℕ
e_mpty = 0o1000

abbrev pub e_perm : ℕ
e_perm = 0o2000

abbrev pub e_eos : ℕ
e_eos = 0o4000

abbrev pub e_read : ℕ
e_read = 0o40000

abbrev pub e_prot : ℕ
e_prot = 0o100000

abbrev pub e_pre : ℕ
e_pre = 0o20

abbrev pub total_segments : ℕ
total_segments = 0

abbrev pub next_segment : ℕ
next_segment = 2

abbrev pub highest_segment : ℕ
highest_segment = 4

abbrev pub extra_bytes : ℕ
extra_bytes = 6

abbrev pub segment_data_block : ℕ
segment_data_block = 8

abbrev pub first_entry_offset : ℕ
first_entry_offset = 10

abbrev pub status_word : ℕ
status_word = 0

abbrev pub filename_words : ℕ
filename_words = 2

abbrev pub total_length_word : ℕ
total_length_word = 8

abbrev pub job_byte : ℕ
job_byte = 10

abbrev pub channel_byte : ℕ
channel_byte = 11

abbrev pub creation_date_word : ℕ
creation_date_word = 12

abbrev pub entry_length : ℕ
entry_length = 14

abbrev pub first_segment_sector : ℕ
first_segment_sector = 6

abbrev pub sectors_per_segment : ℕ
sectors_per_segment = 2

-- `Rad50Name`, an array of three words.
pub record Rad50Name : Type 0 where
  pub first : ℕ
  pub second : ℕ
  pub extension : ℕ

unfoldable pub eq_name : Rad50Name → Rad50Name → Bool
eq_name left right =
    left.first == right.first && left.second == right.second && left.extension == right.extension
