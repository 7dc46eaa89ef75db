-- ===== src/Directory/Scan.antt =====
-- fslib/Directory.cpp: the functions that walk the directory and change nothing.
use rt11fs.Base.{
  ℕ, zero, suc, ◌+◌, ◌-◌, ◌*◌, ◌/◌, bit_and, Option, none, some, List, [], ◌∷◌, Bool, true, false,
  not, ◌==◌, if◌then◌else◌,
}
use rt11fs.Base.{
  einval, enoent, out_of_range, no_fuel, Status, ok, err, Action, pure, fail, ◌>>=◌, of_option,
}
use rt11fs.Base.Int.{ℤ, pos, negsuc, ◌-ℤ◌, ◌*ℤ◌, ltb_ℤ, leb_ℤ}
use mathlib.Core.Option
use rt11fs.Base.Text.{Text}
use rt11fs.Block.{Block, extract_word, sector_size}
use rt11fs.DirConst.{
  e_mpty, e_eos, total_segments, extra_bytes, first_entry_offset, status_word, filename_words,
  total_length_word, creation_date_word, entry_length, first_segment_sector, sectors_per_segment,
  Rad50Name,
}
use rt11fs.DirPtr.{DirPtr, after_end, is_valid, new_dir_ptr, get_word, has_status, next, fuel_of}
use rt11fs.DirTime.{Tm, dir_time_to_time}
use rt11fs.FileName.{parse_filename, print_name}

-- `create_time` is what `mktime` makes of `create_tm`.
pub record DirEnt : Type 0 where
  pub status : ℕ
  pub rad50_name : Rad50Name
  pub name : Text
  pub length_in_bytes : ℕ
  pub sector0 : ℤ
  pub create_tm : Tm

unfoldable pub start_scan : Action Block DirPtr
start_scan = new_dir_ptr

-- `while (++ptr) { if (found(ptr)) break; }`, from the pointer before the first one looked at.
unfoldable pub scan_for : ℕ → (DirPtr → Action Block Bool) → DirPtr → Action Block DirPtr
scan_for zero found p = fail no_fuel
scan_for (suc fuel) found p = next p >>= λ q. elim (is_valid q) [
  | false ↦ pure q
  | true ↦ found q >>= λ hit. elim hit [ true ↦ pure q | false ↦ scan_for fuel found q ]
]

unfoldable pub scan : (DirPtr → Action Block Bool) → DirPtr → Action Block DirPtr
unfolding scan_for
scan found p = do fuel ← fuel_of; scan_for fuel found p

-- `&&` of a word of the entry with what follows.
abbrev pub word_is : DirPtr → ℕ → ℕ → Action Block Bool → Action Block Bool
word_is p offs expected rest =
    get_word p offs >>= λ w. elim (expected == w) [ true ↦ rest | false ↦ pure false ]

unfoldable pub has_name : Rad50Name → DirPtr → Action Block Bool
has_name name p = word_is p filename_words name.first (
    word_is p (filename_words + 2) name.second
      (word_is p (filename_words + 4) name.extension (pure true)))

unfoldable pub is_other_than : List ℕ → (DirPtr → Action Block Bool) → DirPtr → Action Block Bool
is_other_than [] found p = found p
is_other_than (mask ∷ masks) found p =
    has_status p mask >>= λ b. elim b [ true ↦ pure false | false ↦ is_other_than masks found p ]

-- `getDirPointer(const Rad50Name &)`
unfoldable pub get_dir_pointer : Rad50Name → Action Block DirPtr
unfolding scan has_name is_other_than
get_dir_pointer name = do ds ← start_scan; scan (is_other_than (e_eos ∷ []) (has_name name)) ds

-- `getDirPointer(const std::string &, …)`
unfoldable pub get_dir_pointer_named : Text → Action Block (Status DirPtr)
unfolding scan has_name is_other_than
get_dir_pointer_named name = elim (parse_filename name) [
  | none ↦ pure (err einval)
  | some rad50_name ↦ do
    start ← start_scan
    dirp ← scan (is_other_than (e_mpty ∷ e_eos ∷ []) (has_name rad50_name)) start
    pure (if is_valid dirp then ok dirp else err enoent)
]

abbrev pub no_time : Tm
no_time = record { tm_year = pos 0; tm_mon = pos 0; tm_mday = pos 0 }

-- `getEnt(const DirPtr &, …)`; `none` is the result false.
unfoldable pub get_ent_at : DirPtr → Action Block (Option DirEnt)
get_ent_at p = if after_end p then pure none else (do
  first ← get_word p filename_words
  second ← get_word p (filename_words + 2)
  extension ← get_word p (filename_words + 4)
  name ←
      of_option (print_name (record { first = first; second = second; extension = extension }))
        out_of_range
  status ← get_word p status_word
  len ← get_word p total_length_word
  date_word ← get_word p creation_date_word
  pure (
      some (record {
        status = status;
        rad50_name = record { first = first; second = second; extension = extension };
        name = name;
        length_in_bytes = len * sector_size;
        sector0 = p.datasec;
        create_tm = Option.get_or (dir_time_to_time date_word) no_time;
      })))

-- `getEnt(const std::string &, …)`
unfoldable pub get_ent : Text → Action Block (Status DirEnt)
get_ent name = elim (parse_filename name) [
  | none ↦ pure (err einval)
  | some rad50_name ↦ do
    dirp ← get_dir_pointer rad50_name
    ent ← get_ent_at dirp
    pure (elim ent [ some e ↦ ok e | none ↦ err enoent ])
]

-- The pointer to the next entry with any of the bits, or one that is no longer valid.
unfoldable pub move_next_filtered : DirPtr → ℕ → Action Block DirPtr
unfolding scan
move_next_filtered p mask =
    scan (λ q. get_word q status_word >>= λ status. pure (not (bit_and status mask == 0))) p

-- The names that a loop over `moveNextFiltered` and `getEnt` lists.
unfoldable pub list_names : ℕ → ℕ → DirPtr → Action Block (List Text)
list_names zero mask p = fail no_fuel
list_names (suc fuel) mask p = move_next_filtered p mask >>= λ q. elim (is_valid q) [
  | false ↦ pure []
  | true ↦ get_ent_at q >>= λ ent. elim ent [
    | none ↦ list_names fuel mask q
    | some e ↦ list_names fuel mask q >>= λ names. pure (e.name ∷ names)
  ]
]

-- The fields of `struct statvfs` that are set, as the `int` values before their conversion.
pub record StatVfs : Type 0 where
  pub f_bsize : ℕ
  pub f_namemax : ℕ
  pub f_blocks : ℤ
  pub f_bfree : ℕ
  pub f_files : ℤ
  pub f_ffree : ℤ

pub record Usage : Type 0 where
  pub used_inodes : ℕ
  pub used_blocks : ℕ
  pub free_blocks : ℕ

-- One round of the loop of `statfs`.
unfoldable pub count_entry : ℕ → ℕ → Usage → Usage
count_entry status len u =
    if not (bit_and status e_mpty == 0)
    then record u { free_blocks = u.free_blocks + len }
    else record u {
      used_blocks = u.used_blocks + len;
      used_inodes = if bit_and status e_eos == 0 then u.used_inodes + 1 else u.used_inodes;
    }

unfoldable pub count_from : ℕ → DirPtr → Usage → Action Block Usage
count_from zero p u = fail no_fuel
count_from (suc fuel) p u = next p >>= λ q. elim (is_valid q) [
  | false ↦ pure u
  | true ↦ do
    status ← get_word q status_word
    len ← get_word q total_length_word
    count_from fuel q (count_entry status len u)
]

unfoldable pub statfs : ℕ → Action Block StatVfs
statfs volume_sectors = do
  segs ← extract_word (pos total_segments)
  xtra ← extract_word (pos extra_bytes)
  let perseg =
      pos ((sectors_per_segment * sector_size - first_entry_offset) / (entry_length + xtra))
      -ℤ pos 1
  let inodes = perseg *ℤ segs
  start ← start_scan
  fuel ← fuel_of
  u ← count_from fuel start (record { used_inodes = 0; used_blocks = 0; free_blocks = 0 })
  pure (record {
    f_bsize = sector_size;
    f_namemax = 10;
    f_blocks = pos volume_sectors -ℤ pos (first_segment_sector + segs * sectors_per_segment);
    f_bfree = u.free_blocks;
    f_files = inodes;
    f_ffree = inodes -ℤ pos u.used_inodes;
  })

-- The loop of `findLargestFreeBlock` from behind `p`: the largest free entry so far with its
-- length, or none, and at the end the pointer that left the directory.
unfoldable pub largest_from : ℕ → DirPtr → ℤ → DirPtr → Action Block (ℤ × DirPtr × DirPtr)
largest_from zero p largest at = fail no_fuel
largest_from (suc fuel) p largest at = next p >>= λ q. elim (is_valid q) [
  | false ↦ pure (largest, at, q)
  | true ↦ has_status q e_mpty >>= λ free. elim free [
    | false ↦ largest_from fuel q largest at
    | true ↦ get_word q total_length_word >>= λ len. elim (ltb_ℤ largest (pos len)) [
      | true ↦ largest_from fuel q (pos len) q
      | false ↦ largest_from fuel q largest at
    ]
  ]
]

unfoldable pub find_largest_free_block : Action Block DirPtr
unfolding largest_from
find_largest_free_block = do
  largest ← new_dir_ptr
  dirp ← start_scan
  fuel ← fuel_of
  (len, at, last) ← largest_from fuel dirp (negsuc 0) largest
  pure (if leb_ℤ len (pos 0) then last else at)
