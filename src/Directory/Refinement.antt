-- ===== src/Directory/Refinement.antt =====
-- `insertEmptyAt` keeps a directory in order, and its sectors.
use native.Mathlib.Nat.{mul-le-mul_right}
use rt11fs.Base.{
  ℕ, zero, suc, ◌+◌, ◌-◌, ◌*◌, ◌≤◌, ◌<◌, bit_and, ◌≡◌, refl, sym, ap, ap₂, ◌∙◌, ◌≢◌, ◌⊎◌, inl, inr,
  List, [], ◌∷◌, ◌++◌, Bool, true, false, length, ltb, leb, ◌==◌, ==_iff, ltb→lt, leb→le, arith,
  Bool-cases, if◌then◌else◌,
}
use rt11fs.Base.{done, ok}
use rt11fs.Base.Int.{ℤ}
use rt11fs.Block.{Block}
use rt11fs.Block.Words.{word_at}
use rt11fs.DirConst.{e_tent, e_perm, e_eos}
use rt11fs.DirChangeTracker.{Tracker}
use rt11fs.Directory.Segment.{insert_empty_at}
use rt11fs.Directory.View.{
  Seg, base_of, place, status_at, length_at, first_of, IsSegment, IsChain, IsDirectory, pointer,
}
use rt11fs.Directory.Insert.{HasRoom, room_fits, room_whole, tracked_shift, insert_empty_at_lem}
use rt11fs.Directory.Inserted.{IsInserted, inserted}
use rt11fs.Directory.Empty.{with_bytes, emptied}

-- No segment has that number.
abbrev pub Others : ℕ → List Seg → Type 0
Others number [] = Unit {0}
Others number (t ∷ segs) = (t.number ≢ number) × Others number segs

-- The sectors that the first `n` entries of a segment name.
abbrev pub sectors_to : Block → ℕ → ℕ → ℕ → ℕ
sectors_to b e number zero = 0
sectors_to b e number (suc n) = sectors_to b e number n + length_at b e number n

abbrev pub is_file_status : ℕ → Bool
is_file_status w = if bit_and w e_tent == e_tent then true else bit_and w e_perm == e_perm

module _ (b b' : Block) (e number i count : ℕ) (h : 14 ≤ e) (le : i ≤ count)
    (fits : 24 + (count + 1) * e ≤ 1024) (ins : IsInserted b b' e number i count) where
  word_elsewhere :
      (x : ℕ)
      → (x + 1 < base_of number + 10) ⊎ (base_of number + 1024 ≤ x)
      → word_at b'.bytes x ≡ word_at b.bytes x
  unfolding word_at
  word_elsewhere x (inl lo) =
      rw (ins.elsewhere x (inl (omega arith)), ins.elsewhere (x + 1) (inl (omega arith))) refl
  word_elsewhere x (inr hi) =
      rw (ins.elsewhere x (inr hi), ins.elsewhere (x + 1) (inr (omega arith))) refl

  word_of_other :
      (t : Seg) (x : ℕ)
      → 1 ≤ number
      → 1 ≤ t.number
      → t.number ≢ number
      → base_of t.number ≤ x
      → x + 1 < base_of t.number + 1024
      → word_at b'.bytes x ≡ word_at b.bytes x
  word_of_other t x lo lo' ne low high = elim (Bool-cases (ltb t.number number)) [
    | inl less ↦ word_elsewhere x (inl (ground arith))
    | inr more ↦ word_elsewhere x (inr (ground arith))
  ]

  -- Another segment is as it was.
  IsSegment-other :
      (t : Seg) (following : ℕ)
      → 1 ≤ number
      → t.number ≢ number
      → IsSegment b e t following
      → IsSegment b' e t following
  IsSegment-other t following lo ne g =
      let status : (k : ℕ) → k ≤ t.count → status_at b' e t.number k ≡ status_at b e t.number k =
        λ k lt.
          word_of_other t (place e t.number k + 0) lo g.numbered ne (omega arith)
            (omega (arith, g.fits, mul-le-mul_right e lt)) in
      record {
        numbered = g.numbered;
        fits = g.fits;
        in_block = omega (arith, g.in_block, ins.same_length);
        plain = λ k lt. ap (λ w. bit_and w e_eos) (status k (omega arith)) ∙ g.plain k lt;
        marked = ap (λ w. bit_and w e_eos) (status t.count (omega arith)) ∙ g.marked;
        unfiled = ap is_file_status (status t.count (omega arith)) ∙ g.unfiled;
        chained =
            word_of_other t (base_of t.number + 2) lo g.numbered ne (omega arith) (omega arith)
            ∙ g.chained;
      }

  -- The segment has one entry more.
  IsSegment-inserted :
      (following : ℕ)
      → IsSegment b e (record { number = number; count = count }) following
      → IsSegment b' e (record { number = number; count = count + 1 }) following
  IsSegment-inserted following g = record {
    numbered = g.numbered;
    fits = fits;
    in_block = omega (arith, g.in_block, ins.same_length);
    plain = λ k lt. elim (Bool-cases (ltb k i)) [
      | inl before ↦
          ap (λ w. bit_and w e_eos) (ins.before k 0 (ltb→lt k i before) (omega arith))
          ∙ g.plain k (ground arith)
      | inr not_before ↦ elim (Bool-cases (k == i)) [
        | inl here ↦
            ap (λ n. bit_and (status_at b' e number n) e_eos) ((==_iff k i).0 here)
            ∙ ap (λ w. bit_and w e_eos) ins.free
        | inr behind ↦
            let j : ℕ = k - 1 in
            let k' : j + 1 ≡ k = ground arith in
            ap (λ n. bit_and (status_at b' e number n) e_eos) (sym k')
            ∙ ap (λ w. bit_and w e_eos) (ins.behind j 0 (ground arith) (omega arith) (omega arith))
            ∙ g.plain j (omega arith)
      ]
    ];
    marked =
        ap (λ w. bit_and w e_eos) (ins.behind count 0 le (omega arith) (omega arith)) ∙ g.marked;
    unfiled = ap is_file_status (ins.behind count 0 le (omega arith) (omega arith)) ∙ g.unfiled;
    chained = word_elsewhere (base_of number + 2) (inl (omega arith)) ∙ g.chained;
  }

  IsChain-Others :
      (segs : List Seg) → 1 ≤ number → Others number segs → IsChain b e segs → IsChain b' e segs
  IsChain-Others [] lo o c = tt
  IsChain-Others (t ∷ segs) lo (ne, o) (g, c) =
      (IsSegment-other t (first_of segs) lo ne g, IsChain-Others segs lo o c)

  IsChain-inserted :
      (before rest : List Seg)
      → 1 ≤ number
      → Others number before
      → Others number rest
      → IsChain b e (before ++ record { number = number; count = count } ∷ rest)
      → IsChain b' e (before ++ record { number = number; count = count + 1 } ∷ rest)
  IsChain-inserted [] rest lo o o' (g, c) =
      (IsSegment-inserted (first_of rest) g, IsChain-Others rest lo o' c)
  IsChain-inserted (t ∷ []) rest lo (ne, o) o' (g, c) =
      (IsSegment-other t number lo ne g, IsChain-inserted [] rest lo o o' c)
  IsChain-inserted (t ∷ u ∷ before) rest lo (ne, o) o' (g, c) =
      (IsSegment-other t u.number lo ne g, IsChain-inserted (u ∷ before) rest lo o o' c)

  first_inserted :
      (before rest : List Seg)
      → first_of (before ++ record { number = number; count = count + 1 } ∷ rest)
        ≡ first_of (before ++ record { number = number; count = count } ∷ rest)
  first_inserted [] rest = refl
  first_inserted (t ∷ before) rest = refl

  length_inserted :
      (before rest : List Seg)
      → length (before ++ record { number = number; count = count + 1 } ∷ rest)
        ≡ length (before ++ record { number = number; count = count } ∷ rest)
  length_inserted [] rest = refl
  length_inserted (t ∷ before) rest = ap suc (length_inserted before rest)

  IsDirectory-inserted :
      (before rest : List Seg)
      → 1 ≤ number
      → Others number before
      → Others number rest
      → IsDirectory b e (before ++ record { number = number; count = count } ∷ rest)
      → IsDirectory b' e (before ++ record { number = number; count = count + 1 } ∷ rest)
  IsDirectory-inserted before rest lo o o' d = record {
    bytes = ins.bytes;
    sized = d.sized ∙ ap (λ w. 14 + w) (sym (word_elsewhere 6 (inl (omega arith))));
    begins = first_inserted before rest ∙ d.begins;
    chain = IsChain-inserted before rest lo o o' d.chain;
    room = omega (arith, length_inserted before rest, d.room, ins.same_length);
  }

  sectors_before : (n : ℕ) → n ≤ i → sectors_to b' e number n ≡ sectors_to b e number n
  sectors_before zero le' = refl
  sectors_before (suc n) le' =
      ap₂ ◌+◌ (sectors_before n (omega arith)) (ins.before n 8 (omega arith) (omega arith))

  -- The new entry names no sectors.
  sectors_here : (n : ℕ) → n ≡ i → length_at b' e number n ≡ 0
  sectors_here n here = ap (length_at b' e number) here ∙ ins.empty 8 (omega arith) (omega arith)

  sectors_behind :
      (n : ℕ) → i ≤ n → n ≤ count + 1 → sectors_to b' e number (suc n) ≡ sectors_to b e number n
  sectors_behind zero le' le'' = omega (arith, sectors_here zero (omega arith))
  sectors_behind (suc n) le' le'' = elim (Bool-cases (leb i n)) [
    | inl more ↦
        let low = leb→le i n more in
        ap₂ ◌+◌ (sectors_behind n low (omega arith)) (
          ap (length_at b' e number) (omega arith) ∙ ins.behind n 8 low (omega arith) (omega arith))
    | inr here ↦
        let at : suc n ≡ i = ground arith in
        omega (arith, sectors_here (suc n) at, sectors_before (suc n) (omega arith))
  ]

-- The segments from some place of the chain on.
pub IsChain-from :
    (b : Block) (e : ℕ) (before rest : List Seg) → IsChain b e (before ++ rest) → IsChain b e rest
IsChain-from b e [] rest c = c
IsChain-from b e (t ∷ before) rest c = IsChain-from b e before rest c.1

-- In a directory whose bytes are in order, `insertEmptyAt` at an entry, or at the end marker, of a
-- segment that has room for one more and has a number of its own, outside a transaction, puts an
-- empty entry of free space there and moves the rest of the segment one place on. Every other entry
-- stays, the directory is in order again, the entries of the segment name as many sectors as before,
-- and the tracker has recorded the moves of the files as one transaction.
pub insert_empty_at-IsInserted :
    (b : Block) (e : ℕ) (before rest : List Seg) (s : Seg) (fuel i : ℕ) (sector : ℤ) (t : Tracker)
    → IsDirectory b e (before ++ s ∷ rest)
    → Others s.number before
    → Others s.number rest
    → HasRoom e s
    → i ≤ s.count
    → t.in_transaction ≡ false
    → (b' : Block) × (insert_empty_at
          (suc fuel)
          e
          (pointer e s.number i sector)
          (record { block = b; tracker = t })
        ≡ done
            (ok tt)
            (record { block = b'; tracker = tracked_shift b e s.number i (s.count - i) t }))
      × IsInserted b b' e s.number i s.count
      × IsDirectory b' e (before ++ record s { count = s.count + 1 } ∷ rest)
      × (sectors_to b' e s.number (s.count + 2) ≡ sectors_to b e s.number (s.count + 1))
insert_empty_at-IsInserted b e before rest s fuel i sector t d o o' room le off =
    let left : ℕ = s.count - i in
    let sum : i + left ≡ s.count = omega arith in
    let h : 14 ≤ e = omega (arith, d.sized) in
    let c = IsChain-from b e before (s ∷ rest) d.chain in
    let (out, run, is) =
      insert_empty_at_lem b e s rest d.bytes c h room fuel i left sector t sum off in
    let fits = room_fits e s h room in
    let two : s.count + 2 ≡ suc (s.count + 1) = omega arith in
    let whole : 10 + (i + left + 2) * e ≤ 1024 =
      omega (arith, room_whole e s room, ap (λ n. (n + 2) * e) sum) in
    let b' : Block = with_bytes b (emptied out (place e s.number i)) in
    let ins : IsInserted b b' e s.number i s.count =
      rw sum at (inserted b out e s.number i left d.bytes h c.0.numbered whole c.0.in_block is) in
    (
      b',
      run,
      ins,
      IsDirectory-inserted b b' e s.number i s.count h le fits ins before rest c.0.numbered o o' d,
      ap (sectors_to b' e s.number) two
          ∙ sectors_behind b b' e s.number i s.count h le fits ins (s.count + 1) (omega arith)
              (omega arith),
    )
