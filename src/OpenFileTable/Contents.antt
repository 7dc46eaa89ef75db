-- ===== src/OpenFileTable/Contents.antt =====
-- `readFile`: the bytes that it copies out are those of the disk as the users of the cache see it.
use rt11fs.Base.{
  ℕ, zero, suc, ◌+◌, ◌-◌, ◌*◌, ◌/◌, ◌%◌, ◌≤◌, ◌<◌, ◌≡◌, refl, sym, ap, ◌∙◌, inl, inr, List, [],
  ◌++◌, true, ◌||◌, Option, min, length, length-append, get_elem?, get_elem?-append, ltb, leb, ◌==◌,
  arith, Bool-cases,
}
use rt11fs.Base.{done, then_do}
use rt11fs.Base.Int.{pos, ◌+ℤ◌, pos-+ℤ}
use rt11fs.Base.Memory.{slice, length-slice, get_elem?-slice}
use rt11fs.DataSource.{memory_source}
use rt11fs.Block.{Block, copy_out, past_end}
use rt11fs.BlockCache.{Cache, get_block, with_block, put_block}
use rt11fs.BlockCache.Order.{Above, get_from-Above}
use rt11fs.BlockCache.View.{view, IsCoherent}
use rt11fs.BlockCache.Coherence.{get_from-IsKept}
use rt11fs.BlockCache.Access.{
  Singles, get_from-IsFound, block_at-low, block_at-view, run_at_same, run_at-IsPut,
}
use rt11fs.Directory.Operations.{Directory}
use rt11fs.OpenFileTable.{read_from}

-- The blocks ascend and do not overlap, agree with the image, and hold the sectors from `low` to
-- `high` one by one if at all.
abbrev pub IsReady : List ℕ → ℕ → ℕ → List Block → Type 0
IsReady image low high bs = Above (pos 0) bs × IsCoherent image bs × Singles low high bs

copy_out_lem :
    (b : Block) (d n : ℕ)
    → d + n ≤ length b.bytes
    → copy_out (pos d) (pos n) b ≡ done (slice b.bytes d n) b
unfolding copy_out
copy_out_lem b d n h = rw (pos-+ℤ d n, past_end) (ground arith)

-- One round: the sector is looked for, bytes of it are copied out, and it is put back.
abbrev IsRound : Cache (List ℕ) → ℕ → ℕ → ℕ → ℕ → ℕ → Type 0
IsRound c low high s d n =
    (bs1 bs2 : List Block) × (got : List ℕ) × (get_block memory_source (pos s) 1 c
      ≡ done (pos s) (record c { blocks = bs1 }))
    × (with_block (pos s) (copy_out (pos d) (pos n)) (record c { blocks = bs1 })
        ≡ done got (record c { blocks = bs1 }))
    × (put_block (pos s) (record c { blocks = bs1 }) ≡ done tt (record c { blocks = bs2 }))
    × IsReady c.source low high bs2
    × ((x : ℕ) → view c.source bs2 x ≡ view c.source c.blocks x)
    × (length got ≡ n)
    × ((i : ℕ) → i < n → get_elem? got i ≡ view c.source c.blocks (s * 512 + (d + i)))

get_block-IsRound :
    (c : Cache (List ℕ)) (low high s d n : ℕ)
    → low ≤ s
    → s < high
    → (s + 1) * 512 ≤ length c.source
    → d + n ≤ 512
    → IsReady c.source low high c.blocks
    → IsRound c low high s d n
unfolding get_block with_block put_block
get_block-IsRound c low high s d n ge lt fits small (a, h, o) =
    let (bs1, b, q, at, one, o1) =
      get_from-IsFound c.source 0 low high s c.blocks (omega arith) ge lt fits a h o in
    let kept = rw q at (get_from-IsKept c.source 0 s c.blocks (omega arith) fits a h) in
    let a1 =
      rw q at (get_from-Above memory_source (pos 0) (pos s) c.blocks c.source (omega arith) a) in
    let (bs2, put, a2, h2, o2, seen2) =
      run_at-IsPut c.source (pos 0) low high (pos s) bs1 b a1 kept.1 o1 at in
    let (_, _, held) = block_at-low c.source 0 s bs1 b a1 kept.1 at in
    let size : length b.bytes ≡ 512 = omega (arith, held.sized, one) in
    let out = copy_out_lem b d n (omega arith) in
    (
      bs1,
      bs2,
      slice b.bytes d n,
      rw q refl,
      rw (run_at_same (pos s) (copy_out (pos d) (pos n)) b bs1 (slice b.bytes d n) at out) refl,
      rw put refl,
      (a2, h2, o2),
      λ x. seen2 x ∙ kept.2 x,
      length-slice b.bytes d n (omega arith),
      λ i lt'.
          get_elem?-slice b.bytes d n i lt'
          ∙ sym (block_at-view c.source 0 s (d + i) bs1 b a1 kept.1 at (omega arith))
          ∙ kept.2 (s * 512 + (d + i)),
    )

-- The bytes of a file of so many sectors from sector `s0` on, at an offset into it, as far as it goes.
abbrev pub IsContents : Cache (List ℕ) → ℕ → ℕ → ℕ → ℕ → List ℕ → Type 0
IsContents c s0 file_length left offset got =
    (length got ≡ min left (file_length * 512 - offset))
    × ((i : ℕ)
        → i < length got
        → get_elem? got i ≡ view c.source c.blocks (s0 * 512 + (offset + i)))

bytes-append :
    (f : ℕ → Option ℕ) (xs ys : List ℕ) (n : ℕ)
    → length xs ≡ n
    → ((i : ℕ) → i < n → get_elem? xs i ≡ f i)
    → ((i : ℕ) → i < length ys → get_elem? ys i ≡ f (n + i))
    → (i : ℕ) → i < length (xs ++ ys)
    → get_elem? (xs ++ ys) i ≡ f i
bytes-append f xs ys n size first second i lt = elim (Bool-cases (ltb i (length xs))) [
  | inl e ↦ get_elem?-append xs ys i ∙ rw e (first i (ground arith))
  | inr e ↦
      let back : n + (i - length xs) ≡ i = ground arith in
      get_elem?-append xs ys i
      ∙ rw e (second (i - length xs) (ground (arith, length-append xs ys)) ∙ ap f back)
]

-- With a memory image as the source that holds the sectors of the file, when the blocks of the cache
-- ascend and do not overlap, agree with the image unless they are marked as changed, and hold the
-- sectors of the file one by one if at all: the loop of `readFile`, with as much fuel as bytes asked
-- for, gives the bytes of the file from the offset on that the users of the cache see, as many as
-- were asked for or as the file has, and changes nothing that they see.
pub read_from-IsContents :
    (dir : Directory) (fuel s0 file_length left offset : ℕ) (c : Cache (List ℕ))
    → left ≤ fuel
    → (s0 + file_length) * 512 ≤ length c.source
    → IsReady c.source s0 (s0 + file_length) c.blocks
    → (bs : List Block) × (got : List ℕ) × (read_from memory_source dir fuel file_length
          (pos s0)
          left
          offset
          c
        ≡ done got (record c { blocks = bs }))
      × IsContents c s0 file_length left offset got
      × IsReady c.source s0 (s0 + file_length) bs
      × ((x : ℕ) → view c.source bs x ≡ view c.source c.blocks x)
unfolding read_from
read_from-IsContents dir zero s0 file_length left offset c h fits ready =
    let none_left : (left == 0) ≡ true = ground arith in
    (c.blocks, [], rw none_left refl, (omega arith, λ i lt. absurd (omega arith)), ready, λ x. refl)
read_from-IsContents dir (suc fuel) s0 file_length left offset c h fits ready =
    elim (Bool-cases ((left == 0) || leb file_length (offset / 512))) [
      | inl stop ↦ (
        c.blocks,
        [],
        rw stop refl,
        (ground arith, λ i lt. absurd (omega arith)),
        ready,
        λ x. refl,
      )
      | inr more ↦
          let sector : ℕ = offset / 512 in
          let d : ℕ = offset % 512 in
          let n : ℕ = min (512 - d) left in
          let split : offset ≡ sector * 512 + d = omega arith in
          let some_left : 1 ≤ left = ground arith in
          let inside : sector < file_length = ground arith in
          let at : pos s0 +ℤ pos sector ≡ pos (s0 + sector) = pos-+ℤ s0 sector in
          let (bs1, bs2, some_bytes, get, out, put, ready2, seen2, size, bytes) =
            get_block-IsRound c s0 (s0 + file_length) (s0 + sector) d n (omega arith) (omega arith)
              (omega arith) (omega arith) ready in
          let (bs, rest, run, contents, ready3, seen3) =
            read_from-IsContents dir fuel s0 file_length (left - n) (offset + n)
              (record c { blocks = bs2 }) (omega arith) fits ready2 in
          (
            bs,
            some_bytes ++ rest,
            rw (more, at, get, then_do, out, then_do, put, then_do, run, then_do) refl,
            (
              omega (arith, length-append some_bytes rest, contents.0),
              bytes-append (λ j. view c.source c.blocks (s0 * 512 + (offset + j))) some_bytes rest n
                  size (λ i lt. bytes i lt ∙ ap (view c.source c.blocks) (omega (arith, split)))
                  (λ i lt.
                    contents.1 i lt
                    ∙ seen2 (s0 * 512 + (offset + n + i))
                    ∙ ap (view c.source c.blocks) (omega arith)),
            ),
            ready3,
            λ x. seen3 x ∙ seen2 x,
          )
    ]
