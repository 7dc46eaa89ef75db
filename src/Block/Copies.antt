-- ===== src/Block/Copies.antt =====
-- Copies within and between blocks, in terms of the bytes at each index.
use rt11fs.Base.{
  ℕ, zero, suc, ◌+◌, ◌-◌, ◌≤◌, ◌<◌, ◌≡◌, refl, ap, ◌⊎◌, List, ◌∷◌, true, ◌&&◌, length, get_elem?,
  take, replicate, ltb, leb, if◌then◌else◌, arith, length-take, length-replicate,
}
use rt11fs.Base.{eio, fs_error, undefined, done, throw}
use rt11fs.Base.Int.{ℤ, pos, negsuc, ◌+ℤ◌, ◌≤ℤ◌, +ℤ_parts, pos-+ℤ}
use rt11fs.Base.Memory.{
  splice, slice, length-splice, length-slice, get_elem?-splice, get_elem?-slice, slice-splice,
}
use rt11fs.Block.{
  Block, past_end, copy_out, copy_in, copy_within_block, copy_from_other_block, zero_fill,
}

-- `out` is `bytes` with `n` bytes from `d` on taken from `source` at `s`.
pub record IsCopied (source : List ℕ) (s d n : ℕ) (bytes out : List ℕ) : Type 0 where
  pub same_length : length out ≡ length bytes
  pub inside : (i : ℕ) → i < n → get_elem? out (d + i) ≡ get_elem? source (s + i)
  pub outside : (i : ℕ) → (i < d) ⊎ (d + n ≤ i) → get_elem? out i ≡ get_elem? bytes i

splice-IsCopied :
    (source : List ℕ) (s d n : ℕ) (bytes : List ℕ)
    → s + n ≤ length source
    → d + n ≤ length bytes
    → IsCopied source s d n bytes (splice bytes d (slice source s n))
splice-IsCopied source s d n bytes hs hd =
    let size = length-slice source s n hs in
    let fits : d + length (slice source s n) ≤ length bytes = rw size hd in
    record {
      same_length = length-splice bytes d (slice source s n) fits;
      inside = λ i h. within i h (get_elem?-splice bytes d (slice source s n) (d + i) fits);
      outside = λ i h. ground (arith, get_elem?-splice bytes d (slice source s n) i fits, size);
    }
  where
    within :
        (i : ℕ)
        → i < n
        → get_elem? (splice bytes d (slice source s n)) (d + i) ≡ (
            if leb d (d + i) && ltb (d + i) (d + length (slice source s n))
            then get_elem? (slice source s n) (d + i - d)
            else get_elem? bytes (d + i))
        → get_elem? (splice bytes d (slice source s n)) (d + i) ≡ get_elem? source (s + i)
    within i h e =
        let back : d + i - d ≡ i = omega arith in
        ground (arith, e, back, length-slice source s n hs, get_elem?-slice source s n i h)

-- A move of one byte or more inside a block, both ranges within the block and overlapping or not,
-- puts at each place of the destination the byte that stood at the place of the source before,
-- changes no other byte and marks the block as changed.
pub copy_within_block-IsCopied :
    (b : Block) (s d n : ℕ)
    → 0 < n
    → s + n ≤ length b.bytes
    → d + n ≤ length b.bytes
    → (out : List ℕ) × (copy_within_block (pos s) (pos d) (pos n) b
        ≡ done tt (record b { bytes = out; dirty = true }))
      × IsCopied b.bytes s d n b.bytes out
unfolding copy_within_block
copy_within_block-IsCopied b s d n hn hs hd = (
  splice b.bytes d (slice b.bytes s n),
  rw (pos-+ℤ s n, pos-+ℤ d n) (ground arith),
  splice-IsCopied b.bytes s d n b.bytes hs hd,
)

-- A copy of one byte or more from a block to another, each range within its block, puts the bytes
-- of the source at the destination, changes no other byte and marks the block as changed.
copy_from_other_block-IsCopied :
    (source b : Block) (s d n : ℕ)
    → 0 < n
    → s + n ≤ length source.bytes
    → d + n ≤ length b.bytes
    → (out : List ℕ) × (copy_from_other_block source (pos s) (pos d) (pos n) b
        ≡ done tt (record b { bytes = out; dirty = true }))
      × IsCopied source.bytes s d n b.bytes out
unfolding copy_from_other_block
copy_from_other_block-IsCopied source b s d n hn hs hd = (
  splice b.bytes d (slice source.bytes s n),
  rw (pos-+ℤ s n, pos-+ℤ d n) (ground arith),
  splice-IsCopied source.bytes s d n b.bytes hs hd,
)

-- A range of `n` bytes from `at` on within `size` bytes.
abbrev pub InRange : ℤ → ℤ → ℕ → Type 0
InRange at n size = (pos 0 ≤ℤ at) × (pos 1 ≤ℤ n) × (at +ℤ n ≤ℤ pos size)

-- A move inside a block of which the range of the source or of the destination is not a range of
-- one byte or more within the block throws EIO, and the block is as it was.
copy_within_block_rejects :
    (b : Block) (s d n : ℤ)
    → (¬ InRange s n (length b.bytes)) ⊎ (¬ InRange d n (length b.bytes))
    → copy_within_block s d n b ≡ throw (fs_error eio) b
unfolding copy_within_block
copy_within_block_rejects b s d n h = ground (arith, +ℤ_parts s n, +ℤ_parts d n)

-- `zeroFill` of a range that is within the block and does not end at 0 clears the range, keeps
-- the other bytes and marks the block as changed.
pub zero_fill_lem :
    (b : Block) (d n : ℕ)
    → 0 < d + n
    → d + n ≤ length b.bytes
    → (out : List ℕ) × (zero_fill (pos d) (pos n) b
        ≡ done tt (record b { bytes = out; dirty = true }))
      × IsCopied (replicate n 0) 0 d n b.bytes out
unfolding zero_fill
zero_fill_lem b d n hn hd =
    let size : length {A = ℕ} (replicate n 0) ≡ n = length-replicate n 0 in
    let all : slice (replicate n 0) 0 n ≡ replicate n 0 = unfold slice in take_all n in
    (
      splice b.bytes d (replicate n 0),
      rw (pos-+ℤ d n) (ground arith),
      rw all at (splice-IsCopied (replicate n 0) 0 d n b.bytes (omega (arith, size)) hd),
    )
  where
    take_all : (n : ℕ) → take {A = ℕ} n (replicate n 0) ≡ replicate n 0
    take_all zero = refl
    take_all (suc n) = ap (◌∷◌ 0) (take_all n)

-- What a caller copies into a range within a block, from a buffer that is long enough, it copies
-- out of the same place again; the other bytes stay, and the block is marked as changed.
pub copy_out-copy_in :
    (b : Block) (d n : ℕ) (src : List ℕ)
    → n ≤ length src
    → d + n ≤ length b.bytes
    → (b' : Block) × (copy_in (pos d) (pos n) src b ≡ done tt b')
      × (copy_out (pos d) (pos n) b' ≡ done (take n src) b')
      × IsCopied src 0 d n b.bytes b'.bytes
      × (b'.dirty ≡ true)
unfolding copy_in copy_out
copy_out-copy_in b d n src hn hd =
    let size : length (take n src) ≡ n = omega (arith, length-take n src) in
    let out : List ℕ = splice b.bytes d (take n src) in
    let b' : Block = record b { bytes = out; dirty = true } in
    let same : length out ≡ length b.bytes = length-splice b.bytes d (take n src) (rw size hd) in
    (
      b',
      rw (pos-+ℤ d n) (ground arith),
      rw (pos-+ℤ d n, past_end)
          (ground (arith, same, rw size at (slice-splice b.bytes d (take n src) (omega arith)))),
      unfold slice in splice-IsCopied src 0 d n b.bytes (omega arith) hd,
      refl,
    )

-- The test of `copyOut` reads only the sum: a negative offset passes it when the number of bytes
-- is larger, and no larger than the block, and the copy starts before the data, which C++ leaves
-- undefined.
copy_out_negative :
    (b : Block) (k n : ℕ)
    → k < n
    → n ≤ length b.bytes
    → copy_out (negsuc k) (pos n) b ≡ throw undefined b
unfolding copy_out ◌+ℤ◌
copy_out_negative b k n hk hn = ground arith
