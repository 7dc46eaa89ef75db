-- ===== src/OpenFileTable/Updates.antt =====
-- `writeFile`: what it writes into a file takes its place on the disk as the users of the cache see
-- it, and is read back.
use rt11fs.Base.{
  ℕ, zero, suc, ◌+◌, ◌-◌, ◌*◌, ◌/◌, ◌%◌, ◌≤◌, ◌<◌, ◌≡◌, refl, ap, ap₂, ◌∙◌, inl, inr, List, [], ◌∷◌,
  true, false, ◌&&◌, Option, some, min, length, take, drop, length-take, length-drop, get_elem?,
  ltb, leb, ◌==◌, arith, Bool-cases, if◌then◌else◌,
}
use rt11fs.Base.{done, then_do}
use rt11fs.Base.Int.{pos, ◌+ℤ◌, pos-+ℤ}
use rt11fs.Base.Memory.{splice, length-splice}
use rt11fs.DataSource.{memory_source}
use rt11fs.Block.{Block, copy_in, past_end}
use rt11fs.BlockCache.{Cache, get_block, with_block, put_block}
use rt11fs.BlockCache.Order.{get_from-Above}
use rt11fs.BlockCache.View.{view}
use rt11fs.BlockCache.Coherence.{get_from-IsKept}
use rt11fs.BlockCache.Access.{get_from-IsFound, block_at-low, block_at-view, run_at-IsPut}
use rt11fs.BlockCache.Change.{over, changed, run_at-IsChanged, over-splice, over-over}
use rt11fs.Directory.Operations.{Directory}
use rt11fs.OpenFileTable.{read_from, write_from}
use rt11fs.OpenFileTable.Contents.{IsReady, read_from-IsContents}

copy_in_lem :
    (b : Block) (d n : ℕ) (src : List ℕ)
    → n ≤ length src
    → d + n ≤ length b.bytes
    → copy_in (pos d) (pos n) src b ≡ done tt (changed b (splice b.bytes d (take n src)))
unfolding copy_in
copy_in_lem b d n src h h' = rw (pos-+ℤ d n, past_end) (ground arith)

-- One round: the sector is looked for, bytes are copied in, and it is put back.
abbrev IsRound : Cache (List ℕ) → ℕ → ℕ → ℕ → ℕ → ℕ → List ℕ → Type 0
IsRound c low high s d n src =
    (bs1 bs2 bs3 : List Block) × (get_block memory_source (pos s) 1 c
      ≡ done (pos s) (record c { blocks = bs1 }))
    × (with_block (pos s) (copy_in (pos d) (pos n) src) (record c { blocks = bs1 })
        ≡ done tt (record c { blocks = bs2 }))
    × (put_block (pos s) (record c { blocks = bs2 }) ≡ done tt (record c { blocks = bs3 }))
    × IsReady c.source low high bs3
    × ((x : ℕ) → view c.source bs3 x ≡ over (view c.source c.blocks) (s * 512 + d) (take n src) x)

get_block-IsRound :
    (c : Cache (List ℕ)) (low high s d n : ℕ) (src : List ℕ)
    → low ≤ s
    → s < high
    → (s + 1) * 512 ≤ length c.source
    → d + n ≤ 512
    → n ≤ length src
    → IsReady c.source low high c.blocks
    → IsRound c low high s d n src
unfolding get_block with_block put_block
get_block-IsRound c low high s d n src ge lt fits small enough (a, h, o) =
    let (bs1, b, q, at, one, o1) =
      get_from-IsFound c.source 0 low high s c.blocks (omega arith) ge lt fits a h o in
    let kept = rw q at (get_from-IsKept c.source 0 s c.blocks (omega arith) fits a h) in
    let a1 =
      rw q at (get_from-Above memory_source (pos 0) (pos s) c.blocks c.source (omega arith) a) in
    let (_, _, held) = block_at-low c.source 0 s bs1 b a1 kept.1 at in
    let size : length b.bytes ≡ 512 = omega (arith, held.sized, one) in
    let part : length (take n src) ≡ n = omega (arith, length-take n src) in
    let out : List ℕ = splice b.bytes d (take n src) in
    let same : length out ≡ length b.bytes = length-splice b.bytes d (take n src) (omega arith) in
    let (bs2, b2, run, a2, h2, o2, at2, seen2) =
      run_at-IsChanged c.source 0 low high s (copy_in (pos d) (pos n) src) bs1 b out a1 kept.1 o1 at
        same (copy_in_lem b d n src enough (omega arith)) in
    let (bs3, put, a3, h3, o3, seen3) =
      run_at-IsPut c.source (pos 0) low high (pos s) bs2 b2 a2 h2 o2 at2 in
    (
      bs1,
      bs2,
      bs3,
      rw q refl,
      rw run refl,
      rw put refl,
      (a3, h3, o3),
      λ x.
          seen3 x
          ∙ seen2 x
          ∙ over-splice (view c.source bs1) (s * 512) d b.bytes (take n src) x (omega arith)
              (λ i lt'. block_at-view c.source 0 s i bs1 b a1 kept.1 at lt')
          ∙ ap
              (λ (t : Option ℕ).
                if leb (s * 512 + d) x && ltb x (s * 512 + d + length (take n src))
                then get_elem? (take n src) (x - (s * 512 + d))
                else t)
              (kept.2 x),
    )

over-inside :
    (f : ℕ → Option ℕ) (at : ℕ) (ys : List ℕ) (x i : ℕ)
    → x ≡ at + i
    → i < length ys
    → over f at ys x ≡ get_elem? ys i
over-inside f at ys x i e lt =
    let inside : (leb at x && ltb x (at + length ys)) ≡ true = ground arith in
    let off : x - at ≡ i = omega arith in rw (inside, off) refl

over-first :
    (f g : ℕ → Option ℕ) (at n : ℕ) (ys : List ℕ) (x : ℕ)
    → n ≤ length ys
    → g x ≡ over f at (take n ys) x
    → over g (at + n) (drop n ys) x ≡ over f at ys x
over-first f g at n ys x le h =
    ap
      (λ (t : Option ℕ).
        if leb (at + n) x && ltb x (at + n + length (drop n ys))
        then get_elem? (drop n ys) (x - (at + n))
        else t)
      h
    ∙ over-over f at n ys x le

over-nothing :
    (f : ℕ → Option ℕ) (at : ℕ) (ys : List ℕ) (x : ℕ) → length ys ≡ 0 → f x ≡ over f at ys x
over-nothing f at ys x h =
    let outside : (leb at x && ltb x (at + length ys)) ≡ false = ground arith in rw outside refl

-- With a memory image as the source that holds the sectors of the file, when the blocks of the cache
-- ascend and do not overlap, agree with the image unless they are marked as changed, and hold the
-- sectors of the file one by one if at all: the loop of `writeFile` within the file, with as much
-- fuel as bytes to write, puts the bytes of the buffer in the place of those of the file from the
-- offset on, as the users of the cache see the disk, and changes no other that they see.
pub write_from-over :
    (dir : Directory) (fuel s0 file_length offset : ℕ) (buffer : List ℕ) (c : Cache (List ℕ))
    → length buffer ≤ fuel
    → offset + length buffer ≤ file_length * 512
    → (s0 + file_length) * 512 ≤ length c.source
    → IsReady c.source s0 (s0 + file_length) c.blocks
    → (bs : List Block) × (write_from memory_source dir fuel false (pos s0) buffer offset c
        ≡ done tt (record c { blocks = bs }))
      × IsReady c.source s0 (s0 + file_length) bs
      × ((x : ℕ) → view c.source bs x ≡ over (view c.source c.blocks) (s0 * 512 + offset) buffer x)
unfolding write_from
write_from-over dir zero s0 file_length offset buffer c h room fits ready =
    let none_left : (length buffer == 0) ≡ true = ground arith in
    (
      c.blocks,
      rw none_left refl,
      ready,
      λ x. over-nothing (view c.source c.blocks) (s0 * 512 + offset) buffer x (ground arith),
    )
write_from-over dir (suc fuel) s0 file_length offset buffer c h room fits ready =
    elim (Bool-cases (length buffer == 0)) [
      | inl stop ↦ (
        c.blocks,
        rw stop refl,
        ready,
        λ x. over-nothing (view c.source c.blocks) (s0 * 512 + offset) buffer x (ground arith),
      )
      | inr more ↦
          let sector : ℕ = offset / 512 in
          let d : ℕ = offset % 512 in
          let n : ℕ = min (512 - d) (length buffer) in
          let split : offset ≡ sector * 512 + d = omega arith in
          let some_left : 1 ≤ length buffer = ground arith in
          let at : pos s0 +ℤ pos sector ≡ pos (s0 + sector) = pos-+ℤ s0 sector in
          let (bs1, bs2, bs3, get, in_place, put, ready3, seen3) =
            get_block-IsRound c s0 (s0 + file_length) (s0 + sector) d n buffer (omega arith)
              (omega arith) (omega arith) (omega arith) (omega arith) ready in
          let left = length-drop n buffer in
          let (bs, run, ready4, seen4) =
            write_from-over dir fuel s0 file_length (offset + n) (drop n buffer)
              (record c { blocks = bs3 }) (omega arith) (omega arith) fits ready3 in
          (
            bs,
            rw (more, at, get, then_do, in_place, then_do, put, then_do, run) refl,
            ready4,
            λ x.
                seen4 x
                ∙ ap (λ k. over (view c.source bs3) k (drop n buffer) x) (omega arith)
                ∙ over-first (view c.source c.blocks) (view c.source bs3) (s0 * 512 + offset) n
                    buffer x (omega arith)
                    (seen3 x
                      ∙ ap (λ k. over (view c.source c.blocks) k (take n buffer) x)
                          (omega (arith, split))),
          )
    ]

same_elements :
    (xs ys : List ℕ)
    → length xs ≡ length ys
    → ((i : ℕ) → i < length xs → get_elem? xs i ≡ get_elem? ys i)
    → xs ≡ ys
same_elements [] [] h e = refl
same_elements [] (y ∷ ys) h e = absurd (omega arith)
same_elements (x ∷ xs) [] h e = absurd (omega arith)
same_elements (x ∷ xs) (y ∷ ys) h e =
    let head : some x ≡ some y = e 0 (omega arith) in
    let same : x ≡ y = cc in
    ap₂ ◌∷◌ same (same_elements xs ys (omega arith) (λ i lt. e (suc i) (omega arith)))

-- With a memory image as the source that holds the sectors of the file, when the blocks of the cache
-- ascend and do not overlap, agree with the image unless they are marked as changed, and hold the
-- sectors of the file one by one if at all: what is written within a file is what a read of as many
-- bytes at the same offset then gives.
pub read_from-write_from :
    (dir : Directory) (fuel s0 file_length offset : ℕ) (buffer : List ℕ) (c : Cache (List ℕ))
    → length buffer ≤ fuel
    → offset + length buffer ≤ file_length * 512
    → (s0 + file_length) * 512 ≤ length c.source
    → IsReady c.source s0 (s0 + file_length) c.blocks
    → (bs : List Block) × (then_do
          (write_from memory_source dir fuel false (pos s0) buffer offset c)
          (λ _. read_from memory_source dir fuel file_length (pos s0) (length buffer) offset)
        ≡ done buffer (record c { blocks = bs }))
read_from-write_from dir fuel s0 file_length offset buffer c h room fits ready =
    let (bs, wrote, ready1, seen) =
      write_from-over dir fuel s0 file_length offset buffer c h room fits ready in
    let (bs', got, run, contents, _, _) =
      read_from-IsContents dir fuel s0 file_length (length buffer) offset (record c { blocks = bs })
        h fits ready1 in
    let size : length got ≡ length buffer = omega (arith, contents.0) in
    let same : got ≡ buffer = same_elements got buffer size λ i lt.
      contents.1 i lt
      ∙ seen (s0 * 512 + (offset + i))
      ∙ over-inside (view c.source c.blocks) (s0 * 512 + offset) buffer (s0 * 512 + (offset + i)) i
          (omega arith) (omega arith) in
    (bs', rw (wrote, then_do, run, same) refl)
