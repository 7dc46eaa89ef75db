-- ===== src/Block.antt =====
-- fslib/Block.h and fslib/Block.cpp: a run of sectors in memory. An offset is a C++ `int`, so it
-- may be negative; bytes are numbers below 256.
pub mod Words
pub mod Invariant
pub mod Copies
pub mod Sectors
use rt11fs.Base.{
  ℕ, ◌-◌, ◌*◌, ◌/◌, ◌%◌, ◌^◌, bit_and, bit_or, Option, none, List, Bool, true, false, ◌||◌, length,
  get_elem?, set, take, replicate, ltb, if◌then◌else◌,
}
use rt11fs.Base.{
  eio, fs_error, out_of_range, undefined, Status, ok, err, Outcome, done, throw, Action, pure,
  ◌>>=◌, ◌>>◌, get_state, put_state, throw_if, of_option,
}
use rt11fs.Base.Int.{ℤ, pos, negsuc, pos_part, ◌+ℤ◌, ◌-ℤ◌, ◌*ℤ◌, ltb_ℤ, leb_ℤ}
use rt11fs.Base.Memory.{splice, slice, resize_bytes}
use rt11fs.DataSource.{DataSource}

abbrev pub sector_size : ℕ
sector_size = 512

-- `bytes` is the member `data`.
pub record Block : Type 0 where
  pub sector : ℤ
  pub count : ℕ
  pub refcount : ℤ
  pub dirty : Bool
  pub bytes : List ℕ

unfoldable pub new_block : ℤ → ℕ → Block
new_block sector count = record {
  sector = sector;
  count = count;
  refcount = pos 0;
  dirty = false;
  bytes = replicate (count * sector_size) 0;
}

-- `data.at(offset)`: a negative `int` becomes a `size_t` past every size.
abbrev pub at : List ℕ → ℤ → Option ℕ
at bytes (pos n) = get_elem? bytes n
at bytes (negsuc n) = none

-- A sum of two `int` compared with `data.size()`, to which a negative sum is very large.
abbrev pub past_end : ℤ → Block → Bool
past_end end b = ltb_ℤ end (pos 0) || ltb_ℤ (pos (length b.bytes)) end

unfoldable pub get_byte : ℤ → Action Block ℕ
get_byte offset = do b ← get_state; of_option (at b.bytes offset) out_of_range

unfoldable pub extract_word : ℤ → Action Block ℕ
unfolding get_byte
extract_word offset = do
  low ← get_byte offset
  high ← get_byte (offset +ℤ pos 1)
  pure (bit_or low (high * 2 ^ 8) % 2 ^ 16)

-- `data.at(offset) = value`
unfoldable pub poke : ℤ → ℕ → Action Block (Unit {0})
unfolding get_byte
poke offset value = do
  _ ← get_byte offset
  b ← get_state
  put_state (record b { bytes = set b.bytes (pos_part offset) value })

unfoldable pub mark_dirty : Action Block (Unit {0})
mark_dirty = do b ← get_state; put_state (record b { dirty = true })

unfoldable pub set_byte : ℤ → ℕ → Action Block (Unit {0})
unfolding poke mark_dirty
set_byte offset value = do poke offset value; mark_dirty

unfoldable pub set_word : ℤ → ℕ → Action Block (Unit {0})
unfolding poke mark_dirty
set_word offset value = do
  poke offset (bit_and value 0o377)
  poke (offset +ℤ pos 1) (bit_and (value / 2 ^ 8) 0o377)
  mark_dirty

-- The copy is returned. An `offset` or a number of bytes that is negative, with a sum that is not,
-- passes the test, and the copy is then undefined.
unfoldable pub copy_out : ℤ → ℤ → Action Block (List ℕ)
copy_out offset count = do
  b ← get_state
  throw_if (past_end (offset +ℤ count) b) (fs_error eio)
  throw_if (ltb_ℤ offset (pos 0) || ltb_ℤ count (pos 0)) undefined
  pure (slice b.bytes (pos_part offset) (pos_part count))

-- `src` is what the caller's buffer holds from the pointer on.
unfoldable pub copy_in : ℤ → ℤ → List ℕ → Action Block (Unit {0})
copy_in offset count src = do
  b ← get_state
  throw_if (past_end (offset +ℤ count) b) (fs_error eio)
  throw_if (ltb_ℤ offset (pos 0) || ltb_ℤ count (pos 0) || ltb_ℤ (pos (length src)) count) undefined
  put_state (record b {
    bytes = splice b.bytes (pos_part offset) (take (pos_part count) src);
    dirty = true;
  })

-- The test of both copies between ranges.
abbrev pub bad_ranges : Block → ℤ → ℤ → ℤ → Block → Bool
bad_ranges source source_offset dest_offset count dest =
    ltb_ℤ source_offset (pos 0)
    || ltb_ℤ dest_offset (pos 0)
    || leb_ℤ count (pos 0)
    || leb_ℤ (source_offset +ℤ count) (pos 0)
    || leb_ℤ (dest_offset +ℤ count) (pos 0)
    || ltb_ℤ (pos (length source.bytes)) (source_offset +ℤ count)
    || ltb_ℤ (pos (length dest.bytes)) (dest_offset +ℤ count)

-- memmove and memcpy; past the test the numbers are positive.
abbrev pub move_bytes : Block → ℤ → ℤ → ℤ → Block → Block
move_bytes source source_offset dest_offset count dest = record dest {
  bytes =
      splice dest.bytes (pos_part dest_offset)
        (slice source.bytes (pos_part source_offset) (pos_part count));
  dirty = true;
}

unfoldable pub copy_within_block : ℤ → ℤ → ℤ → Action Block (Unit {0})
copy_within_block source_offset dest_offset count = do
  b ← get_state
  throw_if (bad_ranges b source_offset dest_offset count b) (fs_error eio)
  put_state (move_bytes b source_offset dest_offset count b)

unfoldable pub copy_from_other_block : Block → ℤ → ℤ → ℤ → Action Block (Unit {0})
copy_from_other_block source source_offset dest_offset count = do
  b ← get_state
  throw_if (bad_ranges source source_offset dest_offset count b) (fs_error eio)
  put_state (move_bytes source source_offset dest_offset count b)

-- A negative `count` with a positive sum passes the test, and `memset` is then undefined.
unfoldable pub zero_fill : ℤ → ℤ → Action Block (Unit {0})
zero_fill offset count = do
  b ← get_state
  throw_if
      (ltb_ℤ offset (pos 0)
        || leb_ℤ (offset +ℤ count) (pos 0)
        || ltb_ℤ (pos (length b.bytes)) (offset +ℤ count))
      (fs_error eio)
  throw_if (ltb_ℤ count (pos 0)) undefined
  put_state (record b {
    bytes = splice b.bytes (pos_part offset) (replicate (pos_part count) 0);
    dirty = true;
  })

unfoldable pub add_ref : Block → Block
add_ref b = record b { refcount = b.refcount +ℤ pos 1 }

unfoldable pub release : Block → Block
release b = record b { refcount = b.refcount -ℤ pos 1 }

-- A block together with the source that it is read from and written to.
pub record Device (D : Type 0) : Type 0 where
  pub block : Block
  pub source : D

module _ {D : Type 0} (ds : DataSource D) where
  read_result : Block → Status (List ℕ) × D → Outcome (Device D) (Unit {0})
  read_result b (err e, d) = throw (fs_error e) (record { block = b; source = d })
  read_result b (ok buffer, d) =
      done tt
        (record { block = record b { bytes = splice b.bytes 0 buffer; dirty = false }; source = d })

  -- What the source leaves in the buffer of a read that fails is not modelled: the only caller
  -- drops the block then. `sector * SECTOR_SIZE`, here, in `write` and in `resize`, is an `int` of C++,
  -- and does not overflow for sectors below 2 ^ 22.
  unfoldable pub read : Action (Device D) (Unit {0})
  unfolding read_result
  read s =
      read_result s.block
        (ds.read s.source (s.block.count * sector_size) (s.block.sector *ℤ sector_size))

  -- The buffer has the size that is written, except after a failed growth.
  write_result : Block → Status ℕ × D → Outcome (Device D) (Unit {0})
  write_result b (err e, d) = throw (fs_error e) (record { block = b; source = d })
  write_result b (ok n, d) = done tt (record { block = record b { dirty = false }; source = d })

  unfoldable pub write : Action (Device D) (Unit {0})
  unfolding write_result
  write s = write_result s.block (
      ds.write s.source (take (s.block.count * sector_size) s.block.bytes)
        (s.block.sector *ℤ sector_size))

  -- The handler of the failed read shrinks the data to `count` bytes, not sectors.
  resize_result : Block → ℕ → Status (List ℕ) × D → Outcome (Device D) (Unit {0})
  resize_result b new_count (err e, d) =
      throw (fs_error e)
        (record { block = record b { bytes = resize_bytes b.bytes b.count }; source = d })
  resize_result b new_count (ok buffer, d) = done tt (record {
    block = record b { bytes = splice b.bytes (b.count * sector_size) buffer; count = new_count };
    source = d;
  })

  unfoldable pub resize : ℕ → Action (Device D) (Unit {0})
  unfolding resize_result
  resize new_count s =
      let b = record s.block { bytes = resize_bytes s.block.bytes (new_count * sector_size) } in
      if ltb b.count new_count
      then resize_result b new_count (
          ds.read s.source ((new_count - b.count) * sector_size)
            ((b.sector +ℤ pos b.count) *ℤ sector_size))
      else done tt (record { block = record b { count = new_count }; source = s.source })
