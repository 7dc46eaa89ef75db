-- ===== src/DirPtr/Moves.antt =====
-- Pointers within a segment: a step forward and back.
use rt11fs.Base.{
  ℕ, suc, ◌+◌, ◌-◌, ◌*◌, ◌≤◌, bit_and, ◌≡◌, refl, ap, ◌∙◌, false, length, ◌==◌, arith,
}
use rt11fs.Base.{done, then_do}
use rt11fs.Base.Int.{ℤ, pos, pos_part, neg_part, ◌+ℤ◌, pos-+ℤ, +ℤ-cancel}
use rt11fs.Block.{Block}
use rt11fs.Block.Words.{word_at, IsBytes, extract_word_lem}
use rt11fs.DirConst.{e_eos}
use rt11fs.DirPtr.{DirPtr, before_start, after_end, offset, get_word, step_entry, next, prev}

-- Where the entry stands in the block of the directory, for a segment that begins at `base`.
abbrev pub entry_at : DirPtr → ℕ → ℕ
entry_at p base = base + (10 + p.index * p.entry_size)

-- `p` points to an entry of a segment that begins at `base`, and the entry lies in the block.
pub record IsEntry (b : Block) (p : DirPtr) (base : ℕ) : Type 0 where
  pub in_directory : (s : ℕ) × (p.segment ≡ pos (suc s))
  pub begins : p.segbase ≡ pos base
  pub fits : entry_at p base + 14 ≤ length b.bytes
  pub bytes : IsBytes b.bytes

pub offset_lem :
    (p : DirPtr) (base d : ℕ) → p.segbase ≡ pos base → offset p d ≡ pos (entry_at p base + d)
unfolding offset
offset_lem p base d h =
    ap (λ z. z +ℤ pos (10 + p.index * p.entry_size + d)) h
    ∙ pos-+ℤ base (10 + p.index * p.entry_size + d)
    ∙ ap pos (omega arith)

-- A word of the entry is the word of the block at its place.
pub get_word_lem :
    (b : Block) (p : DirPtr) (base d : ℕ)
    → IsEntry b p base
    → d ≤ 12
    → get_word p d b ≡ done (word_at b.bytes (entry_at p base + d)) b
unfolding get_word
get_word_lem b p base d e h =
    rw (offset_lem p base d e.begins)
      (extract_word_lem b (entry_at p base + d) (omega (arith, e.fits)) e.bytes)

-- The pointer to the entry behind one that is not the end marker of its segment.
abbrev pub following : Block → DirPtr → ℕ → DirPtr
following b p base = record p {
  datasec = p.datasec +ℤ pos (word_at b.bytes (entry_at p base + 8));
  index = p.index + 1;
}

pub not_at_ends :
    (p : DirPtr) (s : ℕ)
    → p.segment ≡ pos (suc s)
    → (before_start p ≡ false) × (after_end p ≡ false)
not_at_ends p s h = ground (arith, ap pos_part h, ap neg_part h)

-- From an entry that is not an end marker, `next` goes to the entry behind it, and counts its
-- sectors.
pub next-IsEntry :
    (b : Block) (p : DirPtr) (base : ℕ)
    → IsEntry b p base
    → bit_and (word_at b.bytes (entry_at p base + 0)) e_eos ≡ 0
    → next p b ≡ done (following b p base) b
unfolding next step_entry
next-IsEntry b p base e plain =
    let (s, at) = e.in_directory in
    let (t1, t2) = not_at_ends p s at in
    rw
      (
        t2,
        t1,
        extract_word_lem b 6 (omega (arith, e.fits)) e.bytes,
        get_word_lem b p base 0 e (omega arith),
        plain,
        get_word_lem b p base 8 e (omega arith),
      )
      refl

-- For an entry of a segment that lies in the directory block and is not an end marker, a step
-- forward and a step back end where they began, with the same first data sector; the directory is
-- not changed.
pub prev-next :
    (b : Block) (p : DirPtr) (base : ℕ)
    → IsEntry b p base
    → bit_and (word_at b.bytes (entry_at p base + 0)) e_eos ≡ 0
    → then_do (next p b) prev ≡ done p b
prev-next b p base e plain = rw (next-IsEntry b p base e plain) (back e.in_directory)
  where
    back : (s : ℕ) × (p.segment ≡ pos (suc s)) → prev (following b p base) b ≡ done p b
    back (s, at) =
        unfold prev in
        let x : ℤ = p.datasec +ℤ pos (word_at b.bytes (entry_at p base + 8)) in
        let (t1, t2) = not_at_ends p s at in
        let t3 : ((p.index + 1) == 0) ≡ false = ground arith in
        let t4 : p.index + 1 - 1 ≡ p.index = omega arith in
        let moved : IsEntry b (record p { datasec = x }) base = record {
          in_directory = e.in_directory;
          begins = e.begins;
          fits = e.fits;
          bytes = e.bytes;
        } in
        rw
          (
            t1,
            t2,
            t3,
            t4,
            get_word_lem b (record p { datasec = x }) base 8 moved (omega arith),
            +ℤ-cancel p.datasec (pos (word_at b.bytes (entry_at p base + 8))),
          )
          refl
