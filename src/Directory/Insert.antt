-- ===== src/Directory/Insert.antt =====
-- `insertEmptyAt` in a segment that has room for one more entry.
use native.Mathlib.Nat.{add-mul, mul-le-mul_left, mul-le-mul_right, mul-div-le}
use rt11fs.Base.{
  ℕ, zero, suc, ◌+◌, ◌-◌, ◌*◌, ◌/◌, ◌≤◌, ◌<◌, ◌≡◌, refl, sym, ap, ◌∙◌, List, ◌∷◌, true, false, ◌&&◌,
  length, ltb, leb, arith,
}
use rt11fs.Base.{done, then_do, ok}
use rt11fs.Base.Int.{ℤ, pos, ◌+ℤ◌, ◌-ℤ◌, -ℤ_parts, leb_ℤ, eq_ℤ}
use rt11fs.Block.{Block}
use rt11fs.Block.Words.{IsBytes}
use rt11fs.Block.Copies.{IsCopied, copy_within_block-IsCopied}
use rt11fs.DirPtr.{DirPtr, offset, fuel_of}
use rt11fs.DirPtr.Moves.{offset_lem}
use rt11fs.DirChangeTracker.{Tracker, begin_transaction, erase_returned, end_transaction}
use rt11fs.DirChangeTracker.Transactions.{run_moves}
use rt11fs.Directory.Segment.{
  max_entries_per_segment, advance_to_end_of_segment, track_moves, move_entries_within_segment,
  insert_empty_at,
}
use rt11fs.Directory.View.{Seg, base_of, place, IsChain, pointer}
use rt11fs.Directory.Empty.{with_bytes, emptied, make_empty_entry_lem}
use rt11fs.Directory.Shift.{
  shifts, with_moves, next_total, advance_from, track_last, track_moves_lem,
}

-- A segment that has room for one more entry: what the test of `insertEmptyAt` lets through.
abbrev pub HasRoom : ℕ → Seg → Type 0
HasRoom e s = s.count + 2 ≤ 1014 / e

-- The tracker after the insertion: one transaction more, in which the files from `i` on move on.
abbrev pub tracked_shift : Block → ℕ → ℕ → ℕ → ℕ → Tracker → Tracker
tracked_shift b e number i left t = record {
  transaction = t.transaction +ℤ pos 1;
  in_transaction = false;
  moves = erase_returned (run_moves (t.transaction +ℤ pos 1) (shifts b e number i left) t.moves);
}

pub room_fits : (e : ℕ) (s : Seg) → 14 ≤ e → HasRoom e s → 24 + (s.count + 1) * e ≤ 1024
room_fits e s h r =
    let whole = mul-le-mul_right e r in let most = mul-div-le 1014 e in grind (arith, whole, most)

pub room_whole : (e : ℕ) (s : Seg) → HasRoom e s → 10 + (s.count + 2) * e ≤ 1024
room_whole e s r =
    let whole = mul-le-mul_right e r in let most = mul-div-le 1014 e in grind (arith, whole, most)

module _ (b : Block) (e : ℕ) (s : Seg) (segs : List Seg) (bs : IsBytes b.bytes)
    (c : IsChain b e (s ∷ segs)) (h : 14 ≤ e) (room : HasRoom e s) where
  -- All rounds of the loop over the entries from `i` to the end marker.
  track_all :
      (left i : ℕ) (sector sector' : ℤ) (t : Tracker)
      → i + left ≡ s.count
      → t.in_transaction ≡ true
      → track_moves
          (suc left)
          (pointer e s.number i sector)
          (pointer e s.number (i + 1) sector')
          (record { block = b; tracker = t })
        ≡ done tt (record { block = b; tracker = with_moves t (shifts b e s.number i left) })
  track_all zero i sector sector' t at on =
      let here : i ≡ s.count = omega arith in
      ap
        (λ n.
          track_moves 1 (pointer e s.number n sector) (pointer e s.number (n + 1) sector')
            (record { block = b; tracker = t }))
        here
      ∙ track_last b e s segs bs c sector (pointer e s.number (s.count + 1) sector') t c.0.unfiled
          on (next_total b e s segs (s.count + 1) sector' bs c (room_fits e s h room))
  track_all (suc left) i sector sector' t at on =
      track_moves_lem b e s segs bs c left i sector sector' t at c.0.unfiled on

  range_fits :
      (left i : ℕ)
      → i + left ≡ s.count
      → (0 < suc left * e) × (place e s.number (i + 1) + suc left * e ≤ length b.bytes)
  range_fits left i at =
      let whole = mul-le-mul_right e room in
      let most = mul-div-le 1014 e in
      let parts : (i + 1) * e + suc left * e ≡ (s.count + 2) * e =
        sym (add-mul (i + 1) (suc left) e) ∙ ap (λ n. n * e) (omega arith) in
      (grind arith, omega (arith, c.0.in_block, c.0.numbered, whole, most, parts))

  -- The move of the entries.
  move_lem :
      (left i : ℕ) (sector : ℤ) (t : Tracker)
      → i + left ≡ s.count
      → t.in_transaction ≡ false
      → (out : List ℕ) × (move_entries_within_segment e
            (pointer e s.number i sector)
            (pointer e s.number (i + 1) sector)
            (suc left)
            (record { block = b; tracker = t })
          ≡ done tt
              (record { block = with_bytes b out; tracker = tracked_shift b e s.number i left t }))
        × IsCopied b.bytes
            (place e s.number i)
            (place e s.number (i + 1))
            (suc left * e)
            b.bytes
            out
  unfolding move_entries_within_segment max_entries_per_segment begin_transaction end_transaction
  move_lem left i sector t at off =
      let (lo, hi) = range_fits left i at in
      let (out, copy, is) =
        copy_within_block-IsCopied b (place e s.number i) (place e s.number (i + 1)) (suc left * e)
          (omega (arith, lo)) (omega (arith, hi)) hi in
      let on : Tracker = record t { transaction = t.transaction +ℤ pos 1; in_transaction = true } in
      let from : DirPtr = pointer e s.number i sector in
      let to : DirPtr = pointer e s.number (i + 1) sector in
      let t1 : eq_ℤ (pos s.number) (pos s.number) ≡ true = ground arith in
      let t2 : (ltb 0 (suc left) && leb (suc left) (1014 / e)) ≡ true = ground arith in
      let t3 : leb (i + suc left) (1014 / e) ≡ true = ground arith in
      let t4 : leb (i + 1 + suc left) (1014 / e) ≡ true = ground arith in
      let o1 : offset from 0 ≡ pos (place e s.number i) =
        offset_lem from (base_of s.number) 0 refl ∙ ap pos (omega arith) in
      let o2 : offset to 0 ≡ pos (place e s.number (i + 1)) =
        offset_lem to (base_of s.number) 0 refl ∙ ap pos (omega arith) in
      (
        out,
        rw
            (
              t1,
              then_do,
              t2,
              then_do,
              t3,
              then_do,
              t4,
              then_do,
              off,
              then_do,
              track_all left i sector sector on at refl,
              then_do,
            )
            (rw (o1, o2, copy) refl),
        is,
      )

  -- `insertEmptyAt` before the end marker or at it.
  pub insert_empty_at_lem :
      (fuel i left : ℕ) (sector : ℤ) (t : Tracker)
      → i + left ≡ s.count
      → t.in_transaction ≡ false
      → (out : List ℕ) × (insert_empty_at
            (suc fuel)
            e
            (pointer e s.number i sector)
            (record { block = b; tracker = t })
          ≡ done (ok tt) (record {
            block = with_bytes b (emptied out (place e s.number i));
            tracker = tracked_shift b e s.number i left t;
          }))
        × IsCopied b.bytes
            (place e s.number i)
            (place e s.number (i + 1))
            (suc left * e)
            b.bytes
            out
  unfolding insert_empty_at max_entries_per_segment advance_to_end_of_segment fuel_of
  insert_empty_at_lem fuel i left sector t at off =
      let (end, advance) =
        advance_from b e s segs bs c (suc (length b.bytes)) left i sector at
          (omega (arith, mul-le-mul_left s.count h, c.0.fits, c.0.in_block, c.0.numbered)) in
      let (out, move, is) = move_lem left i sector t at off in
      let spare : leb_ℤ (pos (1014 / e) -ℤ pos 1) (pos s.count) ≡ false =
        ground (arith, -ℤ_parts (pos (1014 / e)) (pos 1)) in
      let many : s.count + 1 - i ≡ suc left = omega arith in
      let (lo, hi) = range_fits left i at in
      (
        out,
        rw
            (
              advance,
              then_do,
              spare,
              then_do,
              many,
              move,
              then_do,
              make_empty_entry_lem (with_bytes b out) (pointer e s.number i sector)
                  (base_of s.number) (place e s.number i) refl refl
                  (omega (arith, is.same_length, hi, lo)),
              then_do,
            )
            refl,
        is,
      )
