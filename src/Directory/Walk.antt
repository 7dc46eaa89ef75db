-- ===== src/Directory/Walk.antt =====
-- A directory whose bytes are in order is walked entry by entry.
use rt11fs.Base.{
  ℕ, zero, suc, ◌+◌, ◌-◌, ◌*◌, ◌≤◌, ◌<◌, bit_and, ◌≡◌, refl, sym, ap, ◌∙◌, List, [], ◌∷◌, ◌++◌,
  true, false, length, ◌==◌, arith, length-append,
}
use native.Mathlib.Nat.{mul-le-mul_left, mul-le-mul_right}
use rt11fs.Base.{done}
use rt11fs.Base.Int.{ℤ, pos, negsuc, ◌+ℤ◌, ◌-ℤ◌, ◌*ℤ◌, pos-+ℤ}
use rt11fs.Block.{Block}
use rt11fs.Block.Words.{word_at, IsBytes, extract_word_lem}
use rt11fs.DirConst.{e_eos}
use rt11fs.DirPtr.{DirPtr, is_valid, next, set_segment, start_segment, step_entry, new_dir_ptr}
use rt11fs.DirPtr.Moves.{IsEntry, get_word_lem, next-IsEntry, not_at_ends}
use rt11fs.Directory.View.{
  Seg, base_of, status_at, length_at, first_of, IsSegment, IsChain, IsDirectory, pointer,
  pointers_from, pointers, IsWalk,
}

-- Where a segment begins.
pub segment_base : (number : ℕ) → 1 ≤ number → (pos number -ℤ pos 1) *ℤ 1024 ≡ pos (base_of number)
unfolding ◌-ℤ◌ ◌*ℤ◌
segment_base number h = ground arith

-- A pointer to a place of a segment where an entry fits.
pub pointer-IsEntry :
    (b : Block) (e number i : ℕ) (sector : ℤ)
    → IsBytes b.bytes
    → 1 ≤ number
    → number * 1024 ≤ length b.bytes
    → 24 + i * e ≤ 1024
    → IsEntry b (pointer e number i sector) (base_of number)
pointer-IsEntry b e number i sector bs lo hi fits = record {
  in_directory = (number - 1, ap pos (omega arith));
  begins = refl;
  fits = omega arith;
  bytes = bs;
}

pub in_block : (b : Block) (e : ℕ) (segs : List Seg) → IsDirectory b e segs → 1024 ≤ length b.bytes
in_block b e [] h = absurd (omega (arith, h.begins))
in_block b e (s ∷ segs) h = omega (arith, h.room)

-- To the first entry of a segment.
pub start_segment_lem :
    (b : Block) (p : DirPtr) (number : ℕ)
    → IsBytes b.bytes
    → 1 ≤ number
    → number * 1024 ≤ length b.bytes
    → start_segment (set_segment (pos number) p) b
      ≡ done (pointer p.entry_size number 0 (pos (word_at b.bytes (base_of number + 8)))) b
unfolding start_segment set_segment
start_segment_lem b p number bs lo hi =
    rw
      (
        segment_base number lo,
        pos-+ℤ (base_of number) 8,
        extract_word_lem b (base_of number + 8) (omega arith) bs,
      )
      refl

module _ (b : Block) (e : ℕ) (s : Seg) (following : ℕ) (bs : IsBytes b.bytes)
    (h : IsSegment b e s following) where
  -- The entry at an index of the segment lies in the block.
  pub at_or_before :
      (i : ℕ) (sector : ℤ)
      → i ≤ s.count
      → IsEntry b (pointer e s.number i sector) (base_of s.number)
  at_or_before i sector le =
      pointer-IsEntry b e s.number i sector bs h.numbered h.in_block
        (omega (arith, h.fits, mul-le-mul_right e le))

  -- From before an end marker to the entry behind.
  pub next_plain :
      (i : ℕ) (sector : ℤ)
      → i < s.count
      → next (pointer e s.number i sector) b
        ≡ done (pointer e s.number (i + 1) (sector +ℤ pos (length_at b e s.number i))) b
  next_plain i sector lt =
      next-IsEntry b (pointer e s.number i sector) (base_of s.number)
        (at_or_before i sector (omega arith)) (h.plain i lt)

  -- From an entry with the mark out of the directory, or to the next segment.
  pub next_marked_last :
      (i : ℕ) (sector : ℤ)
      → IsEntry b (pointer e s.number i sector) (base_of s.number)
      → (bit_and (status_at b e s.number i) e_eos == 0) ≡ false
      → following ≡ 0
      → next (pointer e s.number i sector) b
        ≡ done (record (pointer e s.number i sector) { segment = pos 0 }) b
  unfolding next step_entry
  next_marked_last i sector entry mark last =
      let p : DirPtr = pointer e s.number i sector in
      let (t1, t2) = not_at_ends p (s.number - 1) (ap pos (omega (arith, h.numbered))) in
      rw
        (
          t1,
          t2,
          extract_word_lem b 6 (omega (arith, entry.fits)) bs,
          get_word_lem b p (base_of s.number) 0 entry (omega arith),
          mark,
          pos-+ℤ (base_of s.number) 2,
          extract_word_lem b (base_of s.number + 2) (omega (arith, entry.fits)) bs,
          h.chained ∙ last,
        )
        refl

  pub next_marked :
      (i : ℕ) (sector : ℤ)
      → IsEntry b (pointer e s.number i sector) (base_of s.number)
      → (bit_and (status_at b e s.number i) e_eos == 0) ≡ false
      → 1 ≤ following
      → following * 1024 ≤ length b.bytes
      → next (pointer e s.number i sector) b
        ≡ done (pointer e following 0 (pos (word_at b.bytes (base_of following + 8)))) b
  unfolding next step_entry
  next_marked i sector entry mark lo hi =
      let p : DirPtr = pointer e s.number i sector in
      let (t1, t2) = not_at_ends p (s.number - 1) (ap pos (omega (arith, h.numbered))) in
      let t3 : (following == 0) ≡ false = ground arith in
      rw
        (
          t1,
          t2,
          extract_word_lem b 6 (omega (arith, entry.fits)) bs,
          get_word_lem b p (base_of s.number) 0 entry (omega arith),
          mark,
          pos-+ℤ (base_of s.number) 2,
          extract_word_lem b (base_of s.number + 2) (omega (arith, entry.fits)) bs,
          h.chained,
          t3,
        )
        (start_segment_lem b p following bs lo hi)

  pub mark : (bit_and (status_at b e s.number s.count) e_eos == 0) ≡ false
  mark = rw h.marked refl

pub pointer-is_valid :
    (e number i : ℕ) (sector : ℤ) → 1 ≤ number → is_valid (pointer e number i sector) ≡ true
pointer-is_valid e number i sector h =
    let (t1, t2) = not_at_ends (pointer e number i sector) (number - 1) (ap pos (omega arith)) in
    rw (t1, t2) refl

-- The first pointer of a list of segments.
abbrev pub start_of : Block → ℕ → ℕ → DirPtr
start_of b e number = pointer e number 0 (pos (word_at b.bytes (base_of number + 8)))

-- From an entry of a segment over the rest of it, and over what is behind its end marker.
IsWalk-from :
    (b : Block) (e : ℕ) (s : Seg) (following : ℕ) (rest : List DirPtr) (i left : ℕ) (sector : ℤ)
    → IsBytes b.bytes
    → IsSegment b e s following
    → i + left ≡ s.count
    → ((end : ℤ) → IsWalk b (pointer e s.number s.count end) rest)
    → (p : DirPtr) → next p b ≡ done (pointer e s.number i sector) b
    → IsWalk b p (pointers_from b e s.number i sector left ++ rest)
IsWalk-from b e s following rest i zero sector bs h end behind p step =
    let here : i ≡ s.count = omega arith in
    (
      step,
      pointer-is_valid e s.number i sector h.numbered,
      at_or_before b e s following bs h i sector (omega arith),
      rw here (behind sector),
    )
IsWalk-from b e s following rest i (suc left) sector bs h end behind p step = (
  step,
  pointer-is_valid e s.number i sector h.numbered,
  at_or_before b e s following bs h i sector (omega arith),
  IsWalk-from b e s following rest (i + 1) left _ bs h (omega arith) behind _
      (next_plain b e s following bs h i sector (omega arith)),
)

IsWalk-behind :
    (b : Block) (e : ℕ) (s : Seg) (segs : List Seg)
    → IsBytes b.bytes
    → IsSegment b e s (first_of segs)
    → IsChain b e segs
    → (sector : ℤ) → IsWalk b (pointer e s.number s.count sector) (pointers b e segs)
IsWalk-behind b e s [] bs h c sector = (
  _,
  next_marked_last b e s 0 bs h s.count sector
      (at_or_before b e s 0 bs h s.count sector (omega arith)) (mark b e s 0 bs h) refl,
  refl,
)
IsWalk-behind b e s (t ∷ segs) bs h c sector =
    IsWalk-from b e t (first_of segs) (pointers b e segs) 0 t.count _ bs c.0 (omega arith)
      (IsWalk-behind b e t segs bs c.0 c.1) _
      (next_marked b e s t.number bs h s.count sector
        (at_or_before b e s t.number bs h s.count sector (omega arith)) (mark b e s t.number bs h)
        c.0.numbered c.0.in_block)

-- The pointer that a scan starts from.
abbrev pub start : Block → ℕ → DirPtr
start b e = record {
  entry_size = e;
  segment = negsuc 0;
  index = 0;
  segbase = pos 0;
  datasec = pos (word_at b.bytes 8);
}

pub new_dir_ptr_lem :
    (b : Block) (e : ℕ) (segs : List Seg)
    → IsDirectory b e segs
    → new_dir_ptr b ≡ done (start b e) b
unfolding new_dir_ptr
new_dir_ptr_lem b e segs h =
    let size = in_block b e segs h in
    rw
      (
        extract_word_lem b 6 (omega arith) h.bytes,
        extract_word_lem b 8 (omega arith) h.bytes,
        h.sized,
      )
      refl

-- From before the start, a scan meets the entries of every segment of the chain in order.
pub start-IsWalk :
    (b : Block) (e : ℕ) (segs : List Seg)
    → IsDirectory b e segs
    → IsWalk b (start b e) (pointers b e segs)
unfolding next
start-IsWalk b e [] h = absurd (omega (arith, h.begins))
start-IsWalk b e (s ∷ segs) h =
    IsWalk-from b e s (first_of segs) (pointers b e segs) 0 s.count _ h.bytes h.chain.0
      (omega arith) (IsWalk-behind b e s segs h.bytes h.chain.0 h.chain.1) (start b e)
      (ap (λ n. start_segment (set_segment (pos n) (start b e)) b) (sym h.begins)
        ∙ start_segment_lem b (start b e) s.number h.bytes h.chain.0.numbered h.chain.0.in_block)

length-pointers_from :
    (b : Block) (e number i : ℕ) (sector : ℤ) (left : ℕ)
    → length (pointers_from b e number i sector left) ≡ left + 1
length-pointers_from b e number i sector zero = refl
length-pointers_from b e number i sector (suc left) =
    omega
      (arith, length-pointers_from b e number (i + 1) (sector +ℤ pos (length_at b e number i)) left)

length-pointers-le :
    (b : Block) (e : ℕ) (segs : List Seg)
    → 14 ≤ e
    → IsChain b e segs
    → length (pointers b e segs) ≤ length segs * 1024
length-pointers-le b e [] h c = omega arith
length-pointers-le b e (s ∷ segs) h (c, cs) =
    let one : List DirPtr =
      pointers_from b e s.number 0 (pos (word_at b.bytes (base_of s.number + 8))) s.count in
    omega (
      arith,
      length-append one (pointers b e segs),
      length-pointers_from b e s.number 0 (pos (word_at b.bytes (base_of s.number + 8))) s.count,
      length-pointers-le b e segs h cs,
      c.fits,
      mul-le-mul_left s.count h,
    )

-- The fuel of the loops over the directory is more than it has entries.
pub pointers-fuel :
    (b : Block) (e : ℕ) (segs : List Seg)
    → IsDirectory b e segs
    → length (pointers b e segs) < suc (length b.bytes)
pointers-fuel b e segs h =
    omega (arith, length-pointers-le b e segs (omega (arith, h.sized)) h.chain, h.room)
