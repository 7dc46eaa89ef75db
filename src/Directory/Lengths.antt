-- ===== src/Directory/Lengths.antt =====
-- The number of sectors of one entry is written: what the directory says then.
use native.Mathlib.Nat.{mul-le-mul_right}
use rt11fs.Base.{
  ℕ, zero, suc, ◌+◌, ◌*◌, ◌^◌, ◌≤◌, ◌<◌, bit_and, ◌≡◌, ◌≢◌, refl, sym, ap, ap₂, ◌∙◌, ◌⊎◌, inl, inr,
  List, [], ◌∷◌, length, ltb, ◌==◌, arith, Bool-cases,
}
use rt11fs.Block.{Block}
use rt11fs.Block.Words.{
  word_at, put_word, length-put_word, put_word-IsBytes, word_at-put_word_self, word_at-put_word_ne,
}
use rt11fs.DirConst.{e_eos}
use rt11fs.Directory.View.{
  Seg, base_of, place, status_at, length_at, first_of, IsSegment, IsChain, IsDirectory,
}
use rt11fs.Directory.Refinement.{is_file_status, sectors_to}
use rt11fs.Directory.Empty.{with_bytes}

-- The block with `v` as the number of sectors of the entry at `j`.
abbrev pub with_length : Block → ℕ → ℕ → ℕ → ℕ → Block
with_length b e number j v = with_bytes b (put_word b.bytes (place e number j + 8) v)

module _ (b : Block) (e number j v count : ℕ) (h : 14 ≤ e) (lo : 1 ≤ number) (le : j ≤ count)
    (fits : 24 + count * e ≤ 1024) (in_block : number * 1024 ≤ length b.bytes) where
  abbrev after : Block
  after = with_length b e number j v

  inside : place e number j + 9 < length b.bytes
  inside = omega (arith, mul-le-mul_right e le)

  pub word_kept :
      (x : ℕ)
      → (place e number j + 9 < x) ⊎ (x + 1 < place e number j + 8)
      → word_at after.bytes x ≡ word_at b.bytes x
  word_kept x (inl more) =
      word_at-put_word_ne b.bytes (place e number j + 8) v x (omega (arith, inside))
        (inl (omega arith))
  word_kept x (inr less) =
      word_at-put_word_ne b.bytes (place e number j + 8) v x (omega (arith, inside)) (inr less)

  -- A word of another entry of the segment, or a status word.
  pub entry_kept :
      (k d : ℕ)
      → (d + 1 < 8) ⊎ (k ≢ j)
      → d + 1 < e
      → word_at after.bytes (place e number k + d) ≡ word_at b.bytes (place e number k + d)
  entry_kept k d other dd = elim (Bool-cases (ltb k j)) [
    | inl less ↦
        let low : suc k ≤ j = ground arith in
        word_kept (place e number k + d) (inr (omega (arith, mul-le-mul_right e low)))
    | inr not_less ↦ elim (Bool-cases (k == j)) [
      | inl here ↦
          let same : k ≡ j = ground arith in
          word_kept (place e number k + d) (inr (low_word same other))
      | inr more ↦
          let high : suc j ≤ k = ground arith in
          word_kept (place e number k + d) (inl (omega (arith, mul-le-mul_right e high)))
    ]
  ]
    where
      low_word : k ≡ j → (d + 1 < 8) ⊎ (k ≢ j) → place e number k + d + 1 < place e number j + 8
      low_word same (inl low) = omega (arith, ap (λ n. n * e) same)
      low_word same (inr ne) = absurd (ne same)

  status_kept :
      (t : Seg) (k : ℕ)
      → 1 ≤ t.number
      → k ≤ t.count
      → 24 + t.count * e ≤ 1024
      → status_at after e t.number k ≡ status_at b e t.number k
  status_kept t k lo' le' fits' =
      let here = mul-le-mul_right e le in
      let there = mul-le-mul_right e le' in
      elim (Bool-cases (ltb t.number number)) [
        | inl less ↦
            let low : suc t.number ≤ number = ground arith in
            word_kept (place e t.number k + 0) (inr (omega (arith, here, there)))
        | inr not_less ↦ elim (Bool-cases (t.number == number)) [
          | inl same ↦
              let at : t.number ≡ number = ground arith in
              ap (λ n. status_at after e n k) at
              ∙ entry_kept k 0 (inl (omega arith)) (omega arith)
              ∙ ap (λ n. status_at b e n k) (sym at)
          | inr more ↦
              let high : suc number ≤ t.number = ground arith in
              word_kept (place e t.number k + 0) (inl (omega (arith, here, there)))
        ]
      ]

  header_kept :
      (n d : ℕ)
      → 1 ≤ n
      → d + 1 < 10
      → word_at after.bytes (base_of n + d) ≡ word_at b.bytes (base_of n + d)
  header_kept n d lo' low =
      let here = mul-le-mul_right e le in
      elim (Bool-cases (ltb number n)) [
        | inl less ↦
            let high : suc number ≤ n = ground arith in
            word_kept (base_of n + d) (inl (omega (arith, here)))
        | inr not_less ↦
            let high : n ≤ number = ground arith in
            word_kept (base_of n + d) (inr (omega (arith, here)))
      ]

  IsSegment-kept :
      (t : Seg) (following : ℕ) → IsSegment b e t following → IsSegment after e t following
  IsSegment-kept t following g = record {
    numbered = g.numbered;
    fits = g.fits;
    in_block = omega (arith, g.in_block, length-put_word b.bytes (place e number j + 8) v);
    plain = λ k lt.
        ap (λ w. bit_and w e_eos) (status_kept t k g.numbered (omega arith) g.fits) ∙ g.plain k lt;
    marked =
        ap (λ w. bit_and w e_eos) (status_kept t t.count g.numbered (omega arith) g.fits)
        ∙ g.marked;
    unfiled = ap is_file_status (status_kept t t.count g.numbered (omega arith) g.fits) ∙ g.unfiled;
    chained = header_kept t.number 2 g.numbered (omega arith) ∙ g.chained;
  }

  IsChain-kept : (segs : List Seg) → IsChain b e segs → IsChain after e segs
  IsChain-kept [] c = tt
  IsChain-kept (t ∷ segs) (g, c) = (IsSegment-kept t (first_of segs) g, IsChain-kept segs c)

  pub with_length-IsDirectory :
      (segs : List Seg) → v < 2 ^ 16 → IsDirectory b e segs → IsDirectory after e segs
  with_length-IsDirectory segs small d = record {
    bytes = put_word-IsBytes b.bytes (place e number j + 8) v (omega (arith, inside)) small d.bytes;
    sized = d.sized ∙ ap (λ w. 14 + w) (sym (header_kept 1 6 (omega arith) (omega arith)));
    begins = d.begins;
    chain = IsChain-kept segs d.chain;
    room = omega (arith, d.room, length-put_word b.bytes (place e number j + 8) v);
  }

  pub length_written : length_at after e number j ≡ v
  length_written = word_at-put_word_self b.bytes (place e number j + 8) v (omega (arith, inside))

  sectors_below : (n : ℕ) → n ≤ j → sectors_to after e number n ≡ sectors_to b e number n
  sectors_below zero le' = refl
  sectors_below (suc n) le' =
      ap₂ ◌+◌ (sectors_below n (omega arith))
        (entry_kept n 8 (inr (λ same. absurd (omega (arith, same)))) (omega arith))

  -- The sectors that the entries name change by as much as those of the entry.
  pub sectors_written :
      (n : ℕ)
      → j < n
      → sectors_to after e number n + length_at b e number j ≡ sectors_to b e number n + v
  sectors_written zero lt = absurd (omega arith)
  sectors_written (suc n) lt = elim (Bool-cases (n == j)) [
    | inl here ↦
        let same : n ≡ j = ground arith in
        omega (
          arith,
          sectors_below n (omega arith),
          ap (length_at b e number) same,
          ap (length_at after e number) same ∙ length_written,
        )
    | inr other ↦
        let more : j < n = ground arith in
        omega (
          arith,
          sectors_written n more,
          entry_kept n 8 (inr (λ same. absurd (omega (arith, same, more)))) (omega arith),
        )
  ]
