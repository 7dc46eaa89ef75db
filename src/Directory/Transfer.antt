-- ===== src/Directory/Transfer.antt =====
-- Sectors that go from an entry to the one behind it, or back: `shrinkEntry` before a free entry, and
-- `growEntry` into one.
use native.Mathlib.Nat.{mul-le-mul_right}
use rt11fs.Base.{
  ℕ, ◌+◌, ◌-◌, ◌*◌, ◌^◌, ◌≤◌, ◌<◌, ◌≡◌, ◌≢◌, refl, ap, ◌∙◌, ◌⊎◌, inl, inr, List, ◌∷◌, ◌++◌, length,
  arith,
}
use rt11fs.Base.{done}
use rt11fs.Base.Int.{ℤ, pos, ◌+ℤ◌}
use rt11fs.Block.{Block}
use rt11fs.Block.Words.{word_at, length-put_word}
use rt11fs.DirPtr.{DirPtr, get_word, set_word_of}
use rt11fs.DirPtr.Moves.{get_word_lem}
use rt11fs.Directory.Segment.{as_word}
use rt11fs.Directory.View.{
  Seg, base_of, place, length_at, IsDirectory, IsSegment, first_of, pointer,
}
use rt11fs.Directory.Walk.{at_or_before}
use rt11fs.Directory.Empty.{set_word_of_lem}
use rt11fs.Directory.Lengths.{
  with_length, with_length-IsDirectory, length_written, entry_kept, sectors_written,
}
use rt11fs.Directory.Refinement.{sectors_to, IsChain-from}
use rt11fs.Directory.Carve.{as_word_lem}

-- The entry at `i` has `size` sectors, and it and the one behind have together what they had; nothing
-- else that the entries of the segment say has changed.
pub record IsTransferred (b b' : Block) (e number i count size : ℕ) : Type 0 where
  pub first : length_at b' e number i ≡ size
  pub second :
      length_at b' e number i + length_at b' e number (i + 1)
      ≡ length_at b e number i + length_at b e number (i + 1)
  pub same :
      (j d : ℕ)
      → (d + 1 < 8) ⊎ ((j ≢ i) × (j ≢ (i + 1)))
      → d + 1 < e
      → word_at b'.bytes (place e number j + d) ≡ word_at b.bytes (place e number j + d)
  pub sectors : sectors_to b' e number (count + 1) ≡ sectors_to b e number (count + 1)

module _ (b : Block) (e : ℕ) (before rest : List Seg) (s : Seg) (i size : ℕ) (sector : ℤ)
    (d : IsDirectory b e (before ++ s ∷ rest)) (lt : i < s.count) (small : size < 2 ^ 16)
    (enough : size ≤ length_at b e s.number i + length_at b e s.number (i + 1))
    (word : length_at b e s.number i + length_at b e s.number (i + 1) < size + 2 ^ 16) where
  abbrev pub behind_size : ℕ
  behind_size = length_at b e s.number i + length_at b e s.number (i + 1) - size

  abbrev pub one : Block
  one = with_length b e s.number i size

  abbrev pub two : Block
  two = with_length one e s.number (i + 1) behind_size

  abbrev pub here : DirPtr
  here = pointer e s.number i sector

  abbrev pub behind : DirPtr
  behind = pointer e s.number (i + 1) (sector +ℤ pos (length_at b e s.number i))

  pub entry_fits : 14 ≤ e
  entry_fits = omega (arith, d.sized)

  pub segment : IsSegment b e s (first_of rest)
  segment = (IsChain-from b e before (s ∷ rest) d.chain).0

  in_one : s.number * 1024 ≤ length one.bytes
  in_one = omega (arith, segment.in_block, length-put_word b.bytes (place e s.number i + 8) size)

  pub one-IsDirectory : IsDirectory one e (before ++ s ∷ rest)
  one-IsDirectory =
      with_length-IsDirectory b e s.number i size s.count entry_fits segment.numbered (omega arith)
        segment.fits segment.in_block _ small d

  pub two-IsDirectory : IsDirectory two e (before ++ s ∷ rest)
  two-IsDirectory =
      with_length-IsDirectory one e s.number (i + 1) behind_size s.count entry_fits segment.numbered
        (omega arith) segment.fits in_one _ (omega (arith, word)) one-IsDirectory

  kept1 :
      (k n : ℕ)
      → (n + 1 < 8) ⊎ (k ≢ i)
      → n + 1 < e
      → word_at one.bytes (place e s.number k + n) ≡ word_at b.bytes (place e s.number k + n)
  kept1 k n o nn =
      entry_kept b e s.number i size s.count entry_fits segment.numbered (omega arith) segment.fits
        segment.in_block k n o nn

  kept2 :
      (k n : ℕ)
      → (n + 1 < 8) ⊎ (k ≢ (i + 1))
      → n + 1 < e
      → word_at two.bytes (place e s.number k + n) ≡ word_at one.bytes (place e s.number k + n)
  kept2 k n o nn =
      entry_kept one e s.number (i + 1) behind_size s.count entry_fits segment.numbered
        (omega arith) segment.fits in_one k n o nn

  first1 : length_at one e s.number i ≡ size
  first1 =
      length_written b e s.number i size s.count entry_fits segment.numbered (omega arith)
        segment.fits segment.in_block

  second1 : length_at one e s.number (i + 1) ≡ length_at b e s.number (i + 1)
  second1 = kept1 (i + 1) 8 (inr (λ same. absurd (omega (arith, same)))) (omega (arith, entry_fits))

  first2 : length_at two e s.number i ≡ size
  first2 =
      kept2 i 8 (inr (λ same. absurd (omega (arith, same)))) (omega (arith, entry_fits)) ∙ first1

  second2 : length_at two e s.number (i + 1) ≡ behind_size
  second2 =
      length_written one e s.number (i + 1) behind_size s.count entry_fits segment.numbered
        (omega arith) segment.fits in_one

  pub two-IsTransferred : IsTransferred b two e s.number i s.count size
  two-IsTransferred = record {
    first = first2;
    second = omega (arith, first2, second2, enough);
    same = λ j n o nn. elim o [
      | inl low ↦ kept2 j n (inl low) nn ∙ kept1 j n (inl low) nn
      | inr (ne, ne') ↦ kept2 j n (inr ne') nn ∙ kept1 j n (inr ne) nn
    ];
    sectors = omega (
      arith,
      enough,
      second1,
      sectors_written b e s.number i size s.count entry_fits segment.numbered (omega arith)
          segment.fits segment.in_block (s.count + 1) (omega arith),
      sectors_written one e s.number (i + 1) behind_size s.count entry_fits segment.numbered
          (omega arith) segment.fits in_one (s.count + 1) (omega arith),
    );
  }

  -- The words that are read and written.
  pub read_here : get_word here 8 b ≡ done (length_at b e s.number i) b
  read_here =
      get_word_lem b here (base_of s.number) 8
        (at_or_before b e s (first_of rest) d.bytes segment i sector (omega arith)) (omega arith)

  entry_behind :
      (c : Block)
      → IsDirectory c e (before ++ s ∷ rest)
      → (n : ℕ) → n ≤ 12
      → get_word behind n c ≡ done (word_at c.bytes (place e s.number (i + 1) + n)) c
  entry_behind c dc n le =
      get_word_lem c behind (base_of s.number) n
        (at_or_before c e s (first_of rest) dc.bytes (IsChain-from c e before (s ∷ rest) dc.chain).0
          (i + 1) _ (omega arith))
        le

  pub read_behind : get_word behind 8 one ≡ done (length_at b e s.number (i + 1)) one
  read_behind = entry_behind one one-IsDirectory 8 (omega arith) ∙ ap (λ n. done n one) second1

  pub read_left : get_word behind 8 two ≡ done behind_size two
  read_left = entry_behind two two-IsDirectory 8 (omega arith) ∙ ap (λ n. done n two) second2

  pub read_status : get_word behind 0 b ≡ done (word_at b.bytes (place e s.number (i + 1) + 0)) b
  read_status = entry_behind b d 0 (omega arith)

  pub write_here : set_word_of here 8 (as_word (pos size)) b ≡ done tt one
  write_here =
      let le : i ≤ s.count = omega arith in
      let low = mul-le-mul_right e le in
      ap (λ n. set_word_of here 8 n b) (as_word_lem size small)
      ∙ set_word_of_lem b here (base_of s.number) 8 size (place e s.number i + 8) refl (omega arith)
          (omega (arith, low, segment.fits, segment.in_block, segment.numbered))
          (omega (arith, small))

  pub write_behind : set_word_of behind 8 (as_word (pos behind_size)) one ≡ done tt two
  write_behind =
      let le : i + 1 ≤ s.count = omega arith in
      let low = mul-le-mul_right e le in
      let fits : behind_size < 2 ^ 16 = omega (arith, word) in
      ap (λ n. set_word_of behind 8 n one) (as_word_lem behind_size fits)
      ∙ set_word_of_lem one behind (base_of s.number) 8 behind_size (place e s.number (i + 1) + 8)
          refl (omega arith) (omega (arith, low, segment.fits, in_one, segment.numbered)) fits
