-- ===== src/Block/Sectors.antt =====
-- Blocks against their data source: write and read back, growing, and a failed growth.
use rt11fs.Base.{
  ℕ, ◌+◌, ◌-◌, ◌*◌, ◌≤◌, ◌<◌, ◌≡◌, refl, sym, ap, ap₂, ◌∙◌, ◌⊎◌, inl, inr, List, ◌++◌, false,
  length, take, replicate, ltb, lt→ltb, if_intro, arith, length-take, length-replicate,
}
use rt11fs.Base.{Errno, fs_error, Status, ok, err, Outcome, done, throw}
use rt11fs.Base.Int.{pos, ◌+ℤ◌, ◌*ℤ◌, pos-+ℤ, pos-*ℤ}
use rt11fs.Base.Memory.{
  splice, take_all, splice_all, splice-append, resize_bytes, resize_bytes_grow, resize_bytes_back,
  slice, length-splice, length-slice, slice-splice,
}
use rt11fs.DataSource.{DataSource, memory_source, memory_read, memory_write}
use rt11fs.Block.{read_result, resize_result, Block, Device, read, write, resize}

-- The data of a block has the size that its number of sectors says.
abbrev pub IsSized : Block → Type 0
IsSized b = length b.bytes ≡ b.count * 512

pub memory_read_lem :
    (memory : List ℕ) (n at : ℕ)
    → at + n ≤ length memory
    → memory_read memory n (pos at) ≡ (ok (slice memory at n), memory)
unfolding memory_read slice
memory_read_lem memory n at h = rw (pos-+ℤ at n) (ground arith)

pub memory_write_lem :
    (memory buffer : List ℕ) (at : ℕ)
    → at + length buffer ≤ length memory
    → memory_write memory buffer (pos at) ≡ (ok (length buffer), splice memory at buffer)
unfolding memory_write
memory_write_lem memory buffer at h = rw (pos-+ℤ at (length buffer)) (ground arith)

-- A block whose data has the size of its sectors, written to a memory image that holds them.
pub write_block_lem :
    (b : Block) (s : ℕ) (memory : List ℕ)
    → b.sector ≡ pos s
    → IsSized b
    → s * 512 + length b.bytes ≤ length memory
    → write memory_source (record { block = b; source = memory })
      ≡ done tt
          (record { block = record b { dirty = false }; source = splice memory (s * 512) b.bytes })
unfolding write
write_block_lem b s memory eb hb fits =
    let stored : memory_write memory (take (b.count * 512) b.bytes) (b.sector *ℤ 512)
        ≡ (ok (length b.bytes), splice memory (s * 512) b.bytes) =
      ap₂ (memory_write memory) (take_all b.bytes (b.count * 512) (omega arith))
        (ap (λ z. z *ℤ 512) eb ∙ pos-*ℤ s 512)
      ∙ memory_write_lem memory b.bytes (s * 512) fits in
    rw stored

-- When a block whose data has the size of its sectors is written to a memory image that holds
-- these sectors, it is marked as clean, and a block of the same sectors that is read then has the
-- same data; the image keeps its size.
pub read-write_block :
    (b c : Block) (s : ℕ) (memory : List ℕ)
    → b.sector ≡ pos s
    → c.sector ≡ pos s
    → c.count ≡ b.count
    → IsSized b
    → IsSized c
    → (s + b.count) * 512 ≤ length memory
    → (image : List ℕ) × (write memory_source (record { block = b; source = memory })
        ≡ done tt (record { block = record b { dirty = false }; source = image }))
      × (read memory_source (record { block = c; source = image })
          ≡ done tt
              (record { block = record c { bytes = b.bytes; dirty = false }; source = image }))
      × (length image ≡ length memory)
unfolding read write
read-write_block b c s memory eb ec n hb hc h =
    let image : List ℕ = splice memory (s * 512) b.bytes in
    let start : pos s *ℤ 512 ≡ pos (s * 512) = pos-*ℤ s 512 in
    let fits : s * 512 + length b.bytes ≤ length memory = omega arith in
    let size : length image ≡ length memory = length-splice memory (s * 512) b.bytes fits in
    let asked : c.count * 512 ≡ length b.bytes = omega arith in
    let back : memory_read image (c.count * 512) (c.sector *ℤ 512) ≡ (ok b.bytes, image) =
      ap₂ (memory_read image) asked (ap (λ z. z *ℤ 512) ec ∙ start)
      ∙ memory_read_lem image (length b.bytes) (s * 512) (omega arith)
      ∙ ap (λ (t : List ℕ). (ok t, image)) (slice-splice memory (s * 512) b.bytes (omega arith)) in
    (
      image,
      write_block_lem b s memory eb hb fits,
      rw back (
          ap
            (λ (t : List ℕ).
              done tt (record { block = record c { bytes = t; dirty = false }; source = image }))
            (splice_all c.bytes b.bytes (omega arith))),
      size,
    )

grown :
    (b : Block) (n : ℕ)
    → IsSized b
    → b.count < n
    → resize_bytes b.bytes (n * 512) ≡ b.bytes ++ replicate ((n - b.count) * 512) 0
grown b n hb h =
    let e : n * 512 - length b.bytes ≡ (n - b.count) * 512 = omega arith in
    resize_bytes_grow b.bytes (n * 512) (omega arith) ∙ rw e

-- A block whose data has the size of its sectors keeps its data when it grows within a memory
-- image, and the sectors behind it are read from the image.
pub resize_grow :
    (b : Block) (s n : ℕ) (memory : List ℕ)
    → b.sector ≡ pos s
    → IsSized b
    → b.count < n
    → (s + n) * 512 ≤ length memory
    → resize memory_source n (record { block = b; source = memory })
      ≡ done tt (record {
        block = record b {
          bytes = b.bytes ++ slice memory ((s + b.count) * 512) ((n - b.count) * 512);
          count = n;
        };
        source = memory;
      })
unfolding resize
resize_grow b s n memory eb hb h fits =
    let size : ℕ = (n - b.count) * 512 in
    let buffer : List ℕ = slice memory ((s + b.count) * 512) size in
    let start : (b.sector +ℤ pos b.count) *ℤ 512 ≡ pos ((s + b.count) * 512) =
      ap (λ z. (z +ℤ pos b.count) *ℤ 512) eb
      ∙ ap (λ z. z *ℤ 512) (pos-+ℤ s b.count)
      ∙ pos-*ℤ (s + b.count) 512 in
    let got : memory_read memory size ((b.sector +ℤ pos b.count) *ℤ 512) ≡ (ok buffer, memory) =
      ap (memory_read memory size) start
      ∙ memory_read_lem memory size ((s + b.count) * 512) (omega arith) in
    let zeros : length {A = ℕ} (replicate size 0) ≡ length buffer =
      length-replicate size 0
      ∙ sym (length-slice memory ((s + b.count) * 512) size (omega arith)) in
    let filled : splice (resize_bytes b.bytes (n * 512)) (b.count * 512) buffer
        ≡ b.bytes ++ buffer =
      ap₂ (λ (t : List ℕ) (i : ℕ). splice t i buffer) (grown b n hb h) (sym hb)
      ∙ splice-append b.bytes (replicate size 0) buffer zeros in
    rw (lt→ltb b.count n h, got, filled) refl

-- When the read of the new sectors fails, the error is thrown on, and the data is cut to as many
-- bytes as the block has sectors: the rest of what it held is lost.
pub resize_failure :
    {D : Type 0} (ds : DataSource D) (b : Block) (n : ℕ) (d d' : D) (e : Errno)
    → IsSized b
    → 0 < b.count
    → b.count < n
    → ds.read d ((n - b.count) * 512) ((b.sector +ℤ pos b.count) *ℤ 512) ≡ (err e, d')
    → (s : Device D) × (resize ds n (record { block = b; source = d }) ≡ throw (fs_error e) s)
      × (s.block.bytes ≡ take b.count b.bytes)
      × (s.block.count ≡ b.count)
      × (¬ IsSized s.block)
unfolding resize
resize_failure ds b n d d' e hb some_sectors h failed = (
  record { block = record b { bytes = take b.count b.bytes }; source = d' },
  rw
      (
        lt→ltb b.count n h,
        failed,
        grown b n hb h,
        resize_bytes_back b.bytes (replicate ((n - b.count) * 512) 0) b.count (omega arith),
      )
      refl,
  refl,
  refl,
  λ sized. omega (arith, length-take b.count b.bytes),
)

-- A read throws and leaves the block, or returns a clean block of the same sectors.
abbrev pub IsRead : {D : Type 0} → Device D → Outcome (Device D) (Unit {0}) → Type 0
IsRead {D} s r =
    ((e : Errno) × (d : D) × (r ≡ throw (fs_error e) (record { block = s.block; source = d })))
    ⊎ ((b : Block) × (d : D) × (r ≡ done tt (record { block = b; source = d }))
        × (b.sector ≡ s.block.sector)
        × (b.count ≡ s.block.count)
        × (b.refcount ≡ s.block.refcount)
        × (b.dirty ≡ false))

pub read-IsRead : {D : Type 0} (ds : DataSource D) (s : Device D) → IsRead s (read ds s)
unfolding read
read-IsRead {D} ds s = by_result (ds.read s.source (s.block.count * 512) (s.block.sector *ℤ 512))
  where
    by_result : (r : Status (List ℕ) × D) → IsRead s (read_result ds s.block r)
    by_result (err e, d) = inl (e, d, refl)
    by_result (ok buffer, d) = inr (
      record s.block { bytes = splice s.block.bytes 0 buffer; dirty = false },
      d,
      refl,
      refl,
      refl,
      refl,
      refl,
    )

-- A resize throws and leaves the sectors, or returns a block of as many as were asked for.
abbrev pub IsResized : {D : Type 0} → Block → ℕ → Outcome (Device D) (Unit {0}) → Type 0
IsResized {D} b n r =
    ((e : Errno) × (s : Device D) × (r ≡ throw (fs_error e) s)
      × (s.block.sector ≡ b.sector)
      × (s.block.count ≡ b.count))
    ⊎ ((s : Device D) × (r ≡ done tt s) × (s.block.sector ≡ b.sector) × (s.block.count ≡ n))

pub resize-IsResized :
    {D : Type 0} (ds : DataSource D) (n : ℕ) (s : Device D) → IsResized s.block n (resize ds n s)
unfolding resize
resize-IsResized {D} ds n s =
    if_intro (IsResized s.block n) (ltb s.block.count n)
      (λ _. by_result (
        ds.read s.source ((n - s.block.count) * 512)
          ((s.block.sector +ℤ pos s.block.count) *ℤ 512)))
      (λ _. inr (_, refl, refl, refl))
  where
    b : Block
    b = record s.block { bytes = resize_bytes s.block.bytes (n * 512) }

    by_result : (r : Status (List ℕ) × D) → IsResized s.block n (resize_result ds b n r)
    by_result (err e, d) = inl (e, _, refl, refl, refl)
    by_result (ok buffer, d) = inr (_, refl, refl, refl)
