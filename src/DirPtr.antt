-- ===== src/DirPtr.antt =====
-- fslib/DirPtr.h and fslib/DirPtr.cpp: a pointer to a directory entry. The block that holds the
-- whole directory is the state of the actions.
pub mod Moves
pub mod Invariant
use rt11fs.Base.{
  ℕ, zero, suc, ◌+◌, ◌-◌, ◌*◌, bit_and, Bool, true, false, not, ◌&&◌, ◌||◌, length, ◌==◌,
  if◌then◌else◌,
}
use rt11fs.Base.{no_fuel, done, Action, pure, fail, ◌>>=◌, ◌>>◌, assert}
use rt11fs.Base.Int.{ℤ, pos, negsuc, ◌+ℤ◌, ◌-ℤ◌, ◌*ℤ◌, eq_ℤ}
use rt11fs.Block.{Block, get_byte, extract_word, set_byte, set_word, sector_size}
use rt11fs.DirConst.{
  e_eos, next_segment, extra_bytes, segment_data_block, first_entry_offset, status_word,
  total_length_word, entry_length, sectors_per_segment,
}

-- `segment` is -1 before the start and 0 after the end.
pub record DirPtr : Type 0 where
  pub entry_size : ℕ
  pub segment : ℤ
  pub index : ℕ
  pub segbase : ℤ
  pub datasec : ℤ

abbrev pub before_start : DirPtr → Bool
before_start p = eq_ℤ p.segment (negsuc 0)

abbrev pub after_end : DirPtr → Bool
after_end p = eq_ℤ p.segment (pos 0)

-- `operator bool`
abbrev pub is_valid : DirPtr → Bool
is_valid p = not (before_start p) && not (after_end p)

unfoldable pub new_dir_ptr : Action Block DirPtr
new_dir_ptr = do
  extra ← extract_word (pos extra_bytes)
  data_block ← extract_word (pos segment_data_block)
  pure (record {
    entry_size = entry_length + extra;
    segment = negsuc 0;
    index = 0;
    segbase = pos 0;
    datasec = pos data_block;
  })

unfoldable pub offset : DirPtr → ℕ → ℤ
offset p delta = p.segbase +ℤ pos (first_entry_offset + p.index * p.entry_size + delta)

unfoldable pub get_word : DirPtr → ℕ → Action Block ℕ
unfolding offset
get_word p offs = extract_word (offset p offs)

unfoldable pub get_byte_of : DirPtr → ℕ → Action Block ℕ
unfolding offset
get_byte_of p offs = get_byte (offset p offs)

unfoldable pub set_byte_of : DirPtr → ℕ → ℕ → Action Block (Unit {0})
unfolding offset
set_byte_of p offs v = set_byte (offset p offs) v

unfoldable pub set_word_of : DirPtr → ℕ → ℕ → Action Block (Unit {0})
unfolding offset
set_word_of p offs v = set_word (offset p offs) v

unfoldable pub set_segment_word : DirPtr → ℕ → ℕ → Action Block (Unit {0})
set_segment_word p offs v = set_word (p.segbase +ℤ pos offs) v

unfoldable pub get_segment_word : DirPtr → ℕ → Action Block ℕ
get_segment_word p offs = extract_word (p.segbase +ℤ pos offs)

unfoldable pub has_status : DirPtr → ℕ → Action Block Bool
has_status p mask = do status ← get_word p status_word; pure (bit_and status mask == mask)

unfoldable pub set_segment : ℤ → DirPtr → DirPtr
set_segment seg p = record p {
  segment = seg;
  segbase = (seg -ℤ pos 1) *ℤ (sectors_per_segment * sector_size);
}

abbrev pub set_index : ℕ → DirPtr → DirPtr
set_index idx p = record p { index = idx }

abbrev pub inc_index : DirPtr → DirPtr
inc_index p = record p { index = p.index + 1 }

-- `index = 0` and the first data sector of the segment.
unfoldable pub start_segment : DirPtr → Action Block DirPtr
start_segment p = do
  data_block ← extract_word (p.segbase +ℤ pos segment_data_block)
  pure (record p { index = 0; datasec = pos data_block })

-- The step from an entry of a segment: to the entry after it, or from the end marker on.
unfoldable pub step_entry : DirPtr → ℕ → Action Block DirPtr
step_entry p status =
    if bit_and status e_eos == 0
    then (do
      len ← get_word p total_length_word
      pure (record p { datasec = p.datasec +ℤ pos len; index = p.index + 1 }))
    else (do
      seg ← extract_word (p.segbase +ℤ pos next_segment)
      if seg == 0
          then pure (record p { segment = pos seg })
          else start_segment (set_segment (pos seg) p))

-- `increment`, and with it `++ptr` and `ptr.next()`; the pointer before it stays with the caller.
unfoldable pub next : DirPtr → Action Block DirPtr
next p =
    if after_end p
    then pure p
    else if before_start p
    then start_segment (set_segment (pos 1) p)
    else (do
      _ ← extract_word (pos extra_bytes)
      status ← get_word p status_word
      step_entry p status)

-- `while (true) { next = …; if (next == goal) break; setSegment(next); }`, where on the way to
-- another segment than 0 the end of the chain fails the assertion.
unfoldable pub find_segment : ℕ → ℤ → DirPtr → Action Block DirPtr
find_segment zero goal p = fail no_fuel
find_segment (suc fuel) goal p = do
  following ← extract_word (p.segbase +ℤ pos next_segment)
  assert (not (following == 0) || eq_ℤ goal (pos 0))
  elim (eq_ℤ (pos following) goal) [
    | true ↦ pure p
    | false ↦ find_segment fuel goal (set_segment (pos following) p)
  ]

-- `while ((getWord(STATUS_WORD) & E_EOS) == 0) increment();`
unfoldable pub find_eos : ℕ → DirPtr → Action Block DirPtr
find_eos zero p = fail no_fuel
find_eos (suc fuel) p = do
  status ← get_word p status_word
  elim (bit_and status e_eos == 0) [ true ↦ next p >>= find_eos fuel | false ↦ pure p ]

-- Every segment of a chain without a cycle, and every entry of a segment, has bytes of its own.
unfoldable pub fuel_of : Action Block ℕ
fuel_of b = done (suc (length b.bytes)) b

-- To the end marker of the segment that `goal` follows, `goal` being 0 for the last one.
unfoldable pub last_before : ℤ → DirPtr → Action Block DirPtr
last_before goal p = do
  fuel ← fuel_of
  last ← find_segment fuel goal (set_segment (pos 1) p)
  start ← start_segment last
  find_eos fuel start

-- `decrement`, and with it `--ptr` and `ptr.prev()`.
unfoldable pub prev : DirPtr → Action Block DirPtr
prev p =
    if before_start p
    then pure p
    else if after_end p
    then last_before (pos 0) p
    else if not (p.index == 0)
    then (let q = record p { index = p.index - 1 } in
        do len ← get_word q total_length_word; pure (record q { datasec = q.datasec -ℤ pos len }))
    else if eq_ℤ p.segment (pos 1)
    then pure (record p { segment = negsuc 0 })
    else last_before p.segment p
