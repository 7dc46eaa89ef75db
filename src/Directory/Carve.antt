-- ===== src/Directory/Carve.antt =====
-- `carveFreeBlock` divides an entry, and keeps a directory in order.
use rt11fs.Base.{ℕ, ◌+◌, ◌-◌, ◌*◌, ◌^◌, ◌≤◌, ◌<◌, ◌≡◌, ◌∙◌, ◌⊎◌, inl, inr, length, arith, ◌≢◌}
use rt11fs.Base.Int.{pos, ◌-ℤ◌}
use rt11fs.Block.{Block}
use rt11fs.Block.Words.{word_at, length-put_word}
use rt11fs.DirPtr.{DirPtr}
use rt11fs.Directory.Segment.{as_word}
use rt11fs.Directory.View.{place, length_at, status_at}
use rt11fs.Directory.Inserted.{IsInserted}
use rt11fs.Directory.Lengths.{with_length, length_written, entry_kept, sectors_written}
use rt11fs.Directory.Refinement.{sectors_to}

-- The entry at `i` keeps the first `size` sectors of its own, the others go to a free entry behind
-- it, and the entries from there on stand one place further.
pub record IsCarved (b b' : Block) (e number i count size : ℕ) : Type 0 where
  pub first : length_at b' e number i ≡ size
  pub second : length_at b' e number (i + 1) + size ≡ length_at b e number i
  pub free : status_at b' e number (i + 1) ≡ 512
  pub same :
      (d : ℕ)
      → d + 1 < 8
      → word_at b'.bytes (place e number i + d) ≡ word_at b.bytes (place e number i + d)
  pub before :
      (j d : ℕ)
      → j < i
      → d + 1 < e
      → word_at b'.bytes (place e number j + d) ≡ word_at b.bytes (place e number j + d)
  pub behind :
      (j d : ℕ)
      → i < j
      → j ≤ count
      → d + 1 < e
      → word_at b'.bytes (place e number (j + 1) + d) ≡ word_at b.bytes (place e number j + d)
  pub sectors : sectors_to b' e number (count + 2) ≡ sectors_to b e number (count + 1)

pub pos-difference : (a c : ℕ) → c ≤ a → pos a -ℤ pos c ≡ pos (a - c)
unfolding ◌-ℤ◌
pos-difference a c h = ground arith

pub as_word_lem : (n : ℕ) → n < 2 ^ 16 → as_word (pos n) ≡ n
unfolding as_word
as_word_lem n h = omega arith

module _ (b0 b1 : Block) (e number i count size : ℕ) (h : 14 ≤ e) (lo : 1 ≤ number) (lt : i < count)
    (fits : 24 + (count + 1) * e ≤ 1024) (in_block : number * 1024 ≤ length b0.bytes)
    (small : size < length_at b0 e number i)
    (sums : sectors_to b1 e number (count + 2) ≡ sectors_to b0 e number (count + 1))
    (ins : IsInserted b0 b1 e number (i + 1) count) where
  abbrev pub rest_of : ℕ
  rest_of = length_at b0 e number i - size

  abbrev pub b2 : Block
  b2 = with_length b1 e number i size

  abbrev pub b3 : Block
  b3 = with_length b2 e number (i + 1) rest_of

  in_block1 : number * 1024 ≤ length b1.bytes
  in_block1 = omega (arith, ins.same_length, in_block)

  in_block2 : number * 1024 ≤ length b2.bytes
  in_block2 = omega (arith, in_block1, length-put_word b1.bytes (place e number i + 8) size)

  kept2 :
      (k d : ℕ)
      → (d + 1 < 8) ⊎ (k ≢ i)
      → d + 1 < e
      → word_at b2.bytes (place e number k + d) ≡ word_at b1.bytes (place e number k + d)
  kept2 k d o dd =
      entry_kept b1 e number i size (count + 1) h lo (omega arith) fits in_block1 k d o dd

  kept3 :
      (k d : ℕ)
      → (d + 1 < 8) ⊎ (k ≢ (i + 1))
      → d + 1 < e
      → word_at b3.bytes (place e number k + d) ≡ word_at b2.bytes (place e number k + d)
  kept3 k d o dd =
      entry_kept b2 e number (i + 1) rest_of (count + 1) h lo (omega arith) fits in_block2 k d o dd

  ne : (k j : ℕ) → (k < j) ⊎ (j < k) → k ≢ j
  ne k j (inl less) same = absurd (omega (arith, less, same))
  ne k j (inr more) same = absurd (omega (arith, more, same))

  was : length_at b1 e number i ≡ length_at b0 e number i
  was = ins.before i 8 (omega arith) (omega arith)

  none : length_at b2 e number (i + 1) ≡ 0
  none =
      kept2 (i + 1) 8 (inr (ne (i + 1) i (inr (omega arith)))) (omega arith)
      ∙ ins.empty 8 (omega arith) (omega arith)

  pub carved : IsCarved b0 b3 e number i count size
  carved = record {
    first =
        kept3 i 8 (inr (ne i (i + 1) (inl (omega arith)))) (omega arith)
        ∙ length_written b1 e number i size (count + 1) h lo (omega arith) fits in_block1;
    second = omega (
      arith,
      small,
      length_written b2 e number (i + 1) rest_of (count + 1) h lo (omega arith) fits in_block2,
    );
    free =
        kept3 (i + 1) 0 (inl (omega arith)) (omega arith)
        ∙ kept2 (i + 1) 0 (inl (omega arith)) (omega arith)
        ∙ ins.free;
    same = λ d low.
        kept3 i d (inl low) (omega arith)
        ∙ kept2 i d (inl low) (omega arith)
        ∙ ins.before i d (omega arith) (omega arith);
    before = λ j d less dd.
        kept3 j d (inr (ne j (i + 1) (inl (omega arith)))) dd
        ∙ kept2 j d (inr (ne j i (inl less))) dd
        ∙ ins.before j d (omega arith) dd;
    behind = λ j d more le dd.
        kept3 (j + 1) d (inr (ne (j + 1) (i + 1) (inr (omega arith)))) dd
        ∙ kept2 (j + 1) d (inr (ne (j + 1) i (inr (omega arith)))) dd
        ∙ ins.behind j d (omega arith) le dd;
    sectors = omega (
      arith,
      small,
      sums,
      was,
      none,
      sectors_written b1 e number i size (count + 1) h lo (omega arith) fits in_block1 (count + 2)
          (omega arith),
      sectors_written b2 e number (i + 1) rest_of (count + 1) h lo (omega arith) fits in_block2
          (count + 2) (omega arith),
    );
  }
