-- ===== src/Directory/Segment.antt =====
-- fslib/Directory.cpp: entries moved within a segment and between segments, and new segments.
use rt11fs.Base.{
  ℕ, zero, suc, ◌+◌, ◌-◌, ◌*◌, ◌/◌, ◌%◌, ◌^◌, true, false, not, ◌&&◌, ltb, leb, ◌==◌, if◌then◌else◌,
}
use rt11fs.Base.{
  enospc, no_fuel, Status, ok, err, Action, pure, fail, ◌>>=◌, ◌>>◌, assert, or_return, loop_until,
}
use rt11fs.Base.Int.{ℤ, pos, negsuc, ◌+ℤ◌, ◌-ℤ◌, ltb_ℤ, leb_ℤ, eq_ℤ}
use rt11fs.Block.{Block, extract_word, set_byte, set_word, copy_within_block, sector_size}
use rt11fs.DirConst.{
  e_mpty, e_eos, total_segments, next_segment, highest_segment, extra_bytes, segment_data_block,
  first_entry_offset, status_word, filename_words, total_length_word, creation_date_word, job_byte,
  channel_byte, sectors_per_segment,
}
use rt11fs.DirPtr.{
  DirPtr, after_end, offset, get_word, set_word_of, set_byte_of, set_segment_word, inc_index,
  has_status, next, prev, fuel_of,
}
use rt11fs.DirChangeTracker.{Editing, on_block, begin_transaction, move_dir_entry, end_transaction}
use rt11fs.Directory.Scan.{start_scan}

-- `maxEntriesPerSegment`, from the member `entrySize`.
unfoldable pub max_entries_per_segment : ℕ → ℕ
max_entries_per_segment entry_size =
    (sector_size * sectors_per_segment - first_entry_offset) / entry_size

unfoldable pub advance_to_end_of_segment : DirPtr → Action Block DirPtr
advance_to_end_of_segment dirp = do
  fuel ← fuel_of
  loop_until fuel (λ p. has_status p e_eos) next dirp

-- The loop over the pairs of entries; `left` rounds are left.
unfoldable pub track_moves : ℕ → DirPtr → DirPtr → Action Editing (Unit {0})
track_moves zero s d = pure tt
track_moves (suc left) s d = do
  move_dir_entry s d
  s' ← on_block (next s)
  d' ← on_block (next d)
  track_moves left s' d'

-- `entry_size` is the member of the directory. The count is that of its callers, which is not
-- negative.
unfoldable pub move_entries_within_segment : ℕ → DirPtr → DirPtr → ℕ → Action Editing (Unit {0})
unfolding track_moves
move_entries_within_segment entry_size src dst count = do
  let most = max_entries_per_segment entry_size
  assert (eq_ℤ src.segment dst.segment)
  assert (ltb 0 count && leb count most)
  assert (leb (src.index + count) most)
  assert (leb (dst.index + count) most)
  begin_transaction
  track_moves count src dst
  end_transaction
  on_block (copy_within_block (offset src 0) (offset dst 0) (pos (count * entry_size)))

unfoldable pub move_entry_across_segments : ℕ → DirPtr → DirPtr → Action Editing (Unit {0})
move_entry_across_segments entry_size src dst = do
  begin_transaction
  move_dir_entry src dst
  end_transaction
  on_block (copy_within_block (offset src 0) (offset dst 0) (pos entry_size))

-- The entry without a name, the job and channel, and the date.
unfoldable pub clear_name : DirPtr → Action Block (Unit {0})
clear_name p = do
  set_word_of p filename_words 0
  set_word_of p (filename_words + 2) 0
  set_word_of p (filename_words + 4) 0

unfoldable pub clear_rest : DirPtr → Action Block (Unit {0})
clear_rest p = do
  set_byte_of p job_byte 0
  set_byte_of p channel_byte 0
  set_word_of p creation_date_word 0

unfoldable pub make_empty_entry : DirPtr → Action Block (Unit {0})
unfolding clear_name clear_rest
make_empty_entry p = do
  set_word_of p status_word e_mpty
  clear_name p
  set_word_of p total_length_word 0
  clear_rest p

-- `while (true) { nextp = eos.next(); if (nextp.afterEnd()) break; eos = nextp; }`
unfoldable pub last_entry_from : ℕ → DirPtr → Action Block DirPtr
last_entry_from zero p = fail no_fuel
last_entry_from (suc fuel) p = next p >>= λ nextp. elim (after_end nextp) [
  | true ↦ pure p
  | false ↦ last_entry_from fuel nextp
]

-- An `int` passed as a `uint16_t`.
unfoldable pub as_word : ℤ → ℕ
as_word (pos n) = n % 2 ^ 16
as_word (negsuc n) = 2 ^ 16 - 1 - n % 2 ^ 16

-- The header and the only entry of a new segment.
unfoldable pub write_new_segment : ℤ → ℕ → ℤ → Action Block (Unit {0})
write_new_segment header segs data_sector = do
  set_word (header +ℤ pos total_segments) segs
  set_word (header +ℤ pos next_segment) 0
  set_word (header +ℤ pos highest_segment) 0
  extra ← extract_word (pos extra_bytes)
  set_word (header +ℤ pos extra_bytes) extra
  set_word (header +ℤ pos segment_data_block) (as_word data_sector)
  let entry0 = header +ℤ pos first_entry_offset
  set_word (entry0 +ℤ pos status_word) e_eos
  set_word (entry0 +ℤ pos filename_words) 0
  set_word (entry0 +ℤ pos (filename_words + 2)) 0
  set_word (entry0 +ℤ pos (filename_words + 4)) 0
  set_word (entry0 +ℤ pos total_length_word) 0
  set_byte (entry0 +ℤ pos job_byte) 0
  set_byte (entry0 +ℤ pos channel_byte) 0
  set_word (entry0 +ℤ pos creation_date_word) 0

unfoldable pub allocate_new_segment : Action Block (Status (Unit {0}))
unfolding write_new_segment last_entry_from
allocate_new_segment = do
  highest ← extract_word (pos highest_segment)
  segs ← extract_word (pos total_segments)
  let following = 1 + highest
  (if ltb segs following then pure (err enospc) else (do
    fuel ← fuel_of
    start ← start_scan
    eos ← last_entry_from fuel start
    write_new_segment (pos (highest * (sectors_per_segment * sector_size))) segs eos.datasec
    set_segment_word eos next_segment (as_word (pos following))
    set_word (pos highest_segment) (as_word (pos following))
    pure (ok tt)))

-- The pointer behind the end marker, for which a segment is allocated where there is none.
unfoldable pub next_or_new : DirPtr → Action Editing (Status DirPtr)
unfolding allocate_new_segment
next_or_new eos = do
  following ← on_block (next eos)
  (if after_end following
      then (or_return (on_block allocate_new_segment)
          λ _. do again ← on_block (next eos); assert (not (after_end again)); pure (ok again))
      else pure (ok following))

-- `spillLastEntry`; `insert_empty` is the call of `insertEmptyAt`.
unfoldable pub spill_last_entry :
    (DirPtr → Action Editing (Status (Unit {0}))) → ℕ → DirPtr → Action Editing (Status (Unit {0}))
spill_last_entry insert_empty entry_size dirp = do
  eos ← on_block (advance_to_end_of_segment dirp)
  (if eos.index == 0
      then pure (ok tt)
      else or_return (next_or_new eos) λ following. do
        last ← on_block (prev eos)
        len ← on_block (get_word last total_length_word)
        assert (eq_ℤ (last.datasec +ℤ pos len) following.datasec)
        or_return (insert_empty following) λ _. do
          assert (following.index == 0)
          move_entry_across_segments entry_size last following
          on_block (set_segment_word following segment_data_block (as_word last.datasec))
          on_block (set_word_of last status_word e_eos)
          on_block (clear_name last)
          on_block (set_word_of last total_length_word 0)
          pure (ok tt))

-- `insertEmptyAt` and `spillLastEntry` call each other, once for each segment that is full.
unfoldable pub insert_empty_at : ℕ → ℕ → DirPtr → Action Editing (Status (Unit {0}))
insert_empty_at zero entry_size dirp = fail no_fuel
insert_empty_at (suc fuel) entry_size dirp = do
  eos ← on_block (advance_to_end_of_segment dirp)
  let most = pos (max_entries_per_segment entry_size) -ℤ pos 1
  or_return
      (elim (leb_ℤ most (pos eos.index)) [
        | true ↦ or_return (spill_last_entry (insert_empty_at fuel entry_size) entry_size dirp) λ _.
            do
              moved ← on_block (advance_to_end_of_segment dirp)
              assert (ltb_ℤ moved.segment most)
              pure (ok moved)
        | false ↦ pure (ok eos)
      ])
      λ end. do
        move_entries_within_segment entry_size dirp (inc_index dirp) (end.index + 1 - dirp.index)
        on_block (make_empty_entry dirp)
        pure (ok tt)

-- The count is not negative: the end marker stands at `dirp` or behind it.
unfoldable pub delete_empty_at : ℕ → DirPtr → Action Editing (Unit {0})
delete_empty_at entry_size dirp = do
  len ← on_block (get_word dirp total_length_word)
  assert (len == 0)
  eos ← on_block (advance_to_end_of_segment dirp)
  let srcp = inc_index dirp
  move_entries_within_segment entry_size srcp dirp (eos.index + 1 - srcp.index)
