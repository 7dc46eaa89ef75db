-- ===== src/Block/Invariant.antt =====
-- What the operations on a block keep: its sector, its number of sectors and the size of its data.
use rt11fs.Base.{
  ℕ, ◌-◌, ◌*◌, if_intro, ltb, ltb→lt, ◌<◌, ◌≡◌, refl, ◌∙◌, List, true, false, ◌||◌, length, take,
  set, replicate, length-set, length-take, length-replicate, arith,
}
use rt11fs.Base.{
  IfDone, Keeps, keeps_rules, Keeps-bind, Keeps-checked, Keeps-checked_twice, Keeps-of_option, pure,
  fs_error, eio, undefined, done, state_of, put_state, get_state, ◌>>=◌, Status, ok, err,
}
use rt11fs.Base.Int.{ℤ, pos, pos_part, ◌+ℤ◌, ◌*ℤ◌, +ℤ_parts, ltb_ℤ, leb_ℤ}
use rt11fs.Base.Memory.{
  resize_bytes, length-resize_bytes, splice, slice, length-splice, length-slice,
}
use rt11fs.Block.{
  Block, past_end, get_byte, extract_word, poke, mark_dirty, set_byte, set_word, copy_out, copy_in,
  bad_ranges, move_bytes, copy_within_block, copy_from_other_block, zero_fill, release, Device,
  read, read_result, write, write_result, resize, resize_result,
}
use rt11fs.DataSource.{DataSource, ReadsInFull}
use rt11fs.Block.Sectors.{IsSized}

pub record HasShape (sector : ℤ) (count size : ℕ) (b : Block) : Type 0 where
  pub same_sector : b.sector ≡ sector
  pub same_count : b.count ≡ count
  pub same_size : length b.bytes ≡ size

-- Reads keep whatever holds of the block.
module _ {P : Block → Type 0} where
  pub get_byte-Keeps : (i : ℤ) → Keeps P (get_byte i)
  unfolding get_byte
  get_byte-Keeps i = record { at = λ s h. (Keeps-of_option {P = P} _ _).at s h }

  pub extract_word-Keeps : (i : ℤ) → Keeps P (extract_word i)
  unfolding extract_word
  extract_word-Keeps i = search (keeps_rules, get_byte-Keeps)

  pub get_state-Keeps : Keeps P (get_state {S = Block})
  get_state-Keeps = record { at = λ s h. h }

  pub copy_out-Keeps : (i n : ℤ) → Keeps P (copy_out i n)
  unfolding copy_out
  copy_out-Keeps i n =
      Keeps-checked_twice (past_end (i +ℤ n)) (λ b. ltb_ℤ i (pos 0) || ltb_ℤ n (pos 0))
        (fs_error eio) undefined (λ b. pure (slice b.bytes (pos_part i) (pos_part n)))
        (λ b in_block plain h. h)

module _ {sector : ℤ} {count size : ℕ} where
  same_length :
      (b : Block) (out : List ℕ)
      → HasShape sector count size b
      → length out ≡ length b.bytes
      → HasShape sector count size (record b { bytes = out; dirty = true })
  same_length b out h e = record {
    same_sector = h.same_sector;
    same_count = h.same_count;
    same_size = e ∙ h.same_size;
  }

  mark_dirty-Keeps : Keeps (HasShape sector count size) mark_dirty
  unfolding mark_dirty
  mark_dirty-Keeps = record { at = λ b h. same_length b b.bytes h refl }

  poke-Keeps : (i : ℤ) (v : ℕ) → Keeps (HasShape sector count size) (poke i v)
  unfolding poke
  poke-Keeps i v = Keeps-bind (get_byte i) _ (get_byte-Keeps i) (λ _. set_bytes)
    where
      set_bytes :
          Keeps
            (HasShape sector count size)
            (get_state >>= λ b. put_state (record b { bytes = set b.bytes (pos_part i) v }))
      set_bytes = record {
        at = λ b h. record {
          same_sector = h.same_sector;
          same_count = h.same_count;
          same_size = length-set b.bytes (pos_part i) v ∙ h.same_size;
        };
      }

  pub set_byte-Keeps : (i : ℤ) (v : ℕ) → Keeps (HasShape sector count size) (set_byte i v)
  unfolding set_byte
  set_byte-Keeps i v = search (keeps_rules, poke-Keeps, mark_dirty-Keeps)

  pub set_word-Keeps : (i : ℤ) (v : ℕ) → Keeps (HasShape sector count size) (set_word i v)
  unfolding set_word
  set_word-Keeps i v = search (keeps_rules, poke-Keeps, mark_dirty-Keeps)

  pub release-Keeps : Keeps (HasShape sector count size) (λ b. done tt (release b))
  unfolding release
  release-Keeps = record {
    at = λ b h. record {
      same_sector = h.same_sector;
      same_count = h.same_count;
      same_size = h.same_size;
    };
  }

  pub copy_in-Keeps :
      (i n : ℤ) (src : List ℕ) → Keeps (HasShape sector count size) (copy_in i n src)
  unfolding copy_in
  copy_in-Keeps i n src =
      Keeps-checked_twice (past_end (i +ℤ n))
        (λ b. ltb_ℤ i (pos 0) || ltb_ℤ n (pos 0) || ltb_ℤ (pos (length src)) n) (fs_error eio)
        undefined
        (λ b.
          put_state (record b {
            bytes = splice b.bytes (pos_part i) (take (pos_part n) src);
            dirty = true;
          }))
        λ b in_block plain h. same_length b _ h (
          length-splice b.bytes (pos_part i) (take (pos_part n) src)
            (ground (arith, length-take (pos_part n) src, +ℤ_parts i n)))

  pub zero_fill-Keeps : (i n : ℤ) → Keeps (HasShape sector count size) (zero_fill i n)
  unfolding zero_fill
  zero_fill-Keeps i n =
      Keeps-checked_twice
        (λ b. ltb_ℤ i (pos 0) || leb_ℤ (i +ℤ n) (pos 0) || ltb_ℤ (pos (length b.bytes)) (i +ℤ n))
        (λ b. ltb_ℤ n (pos 0)) (fs_error eio) undefined
        (λ b. put_state (record b {
          bytes = splice b.bytes (pos_part i) (replicate (pos_part n) 0);
          dirty = true;
        }))
        λ b in_block plain h. same_length b _ h (
          length-splice b.bytes (pos_part i) (replicate (pos_part n) 0)
            (ground (arith, length-replicate {A = ℕ} (pos_part n) 0, +ℤ_parts i n)))

  moved-HasShape :
      (source b : Block) (i j n : ℤ)
      → bad_ranges source i j n b ≡ false
      → HasShape sector count size b
      → HasShape sector count size (move_bytes source i j n b)
  moved-HasShape source b i j n good h = same_length b _ h (
      length-splice b.bytes (pos_part j) (slice source.bytes (pos_part i) (pos_part n)) (
        ground
          (arith, length-slice source.bytes (pos_part i) (pos_part n), +ℤ_parts i n, +ℤ_parts j n)))

  pub copy_within_block-Keeps :
      (i j n : ℤ) → Keeps (HasShape sector count size) (copy_within_block i j n)
  unfolding copy_within_block
  copy_within_block-Keeps i j n =
      Keeps-checked (λ b. bad_ranges b i j n b) (fs_error eio)
        (λ b. put_state (move_bytes b i j n b)) (λ b good h. moved-HasShape b b i j n good h)

  pub copy_from_other_block-Keeps :
      (source : Block) (i j n : ℤ)
      → Keeps (HasShape sector count size) (copy_from_other_block source i j n)
  unfolding copy_from_other_block
  copy_from_other_block-Keeps source i j n =
      Keeps-checked (λ b. bad_ranges source i j n b) (fs_error eio)
        (λ b. put_state (move_bytes source i j n b))
        (λ b good h. moved-HasShape source b i j n good h)

-- A full read fills the block, and a write changes nothing of it but the mark.
module _ {D : Type 0} (ds : DataSource D) where
  pub read-IsSized :
      (full : ReadsInFull ds) (s : Device D)
      → IsSized s.block
      → IsSized (state_of (read ds s)).block
  unfolding read
  read-IsSized full s sized =
      by_result (ds.read s.source (s.block.count * 512) (s.block.sector *ℤ 512)) refl
    where
      by_result :
          (r : Status (List ℕ) × D)
          → ds.read s.source (s.block.count * 512) (s.block.sector *ℤ 512) ≡ r
          → IsSized (state_of (read_result ds s.block r)).block
      by_result (err e, d) h = sized
      by_result (ok buffer, d) h =
          let size : length buffer ≡ s.block.count * 512 = full s.source d _ _ buffer h in
          length-splice s.block.bytes 0 buffer (omega arith) ∙ sized

  pub write-HasShape :
      (s : Device D)
      → HasShape s.block.sector s.block.count (length s.block.bytes) (state_of (write ds s)).block
  unfolding write
  write-HasShape s =
      by_result
        (ds.write s.source (take (s.block.count * 512) s.block.bytes) (s.block.sector *ℤ 512))
    where
      by_result :
          (r : Status ℕ × D)
          → HasShape s.block.sector s.block.count
              (length s.block.bytes)
              (state_of (write_result ds s.block r)).block
      by_result (err e, d) = record { same_sector = refl; same_count = refl; same_size = refl }
      by_result (ok n, d) = record { same_sector = refl; same_count = refl; same_size = refl }

  -- What a change of the size that does not throw leaves.
  pub resize-IsSized :
      (full : ReadsInFull ds) (n : ℕ) (s : Device D)
      → IsSized s.block
      → IfDone (λ t. IsSized t.block) (resize ds n s)
  unfolding resize
  resize-IsSized full n s sized =
      let out : List ℕ = resize_bytes s.block.bytes (n * 512) in
      let size : length out ≡ n * 512 = length-resize_bytes s.block.bytes (n * 512) in
      if_intro (IfDone (λ t. IsSized t.block)) (ltb s.block.count n)
        (λ more.
          by_result (ltb→lt _ _ more) size
            (ds.read s.source ((n - s.block.count) * 512)
              ((s.block.sector +ℤ pos s.block.count) *ℤ 512))
            refl)
        (λ _. size)
    where
      by_result :
          s.block.count < n
          → length (resize_bytes s.block.bytes (n * 512)) ≡ n * 512
          → (r : Status (List ℕ) × D)
          → ds.read s.source
              ((n - s.block.count) * 512)
              ((s.block.sector +ℤ pos s.block.count) *ℤ 512)
            ≡ r
          → IfDone
              (λ t. IsSized t.block)
              (resize_result ds
                (record s.block { bytes = resize_bytes s.block.bytes (n * 512) })
                n
                r)
      by_result more size (err e, d) h = tt
      by_result more size (ok buffer, d) h =
          let got : length buffer ≡ (n - s.block.count) * 512 = full s.source d _ _ buffer h in
          length-splice (resize_bytes s.block.bytes (n * 512)) (s.block.count * 512) buffer
            (omega arith)
          ∙ size
