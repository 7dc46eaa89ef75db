-- ===== src/Directory/Shift.antt =====
-- The entries of a segment from some place on, moved one place on: the pointers that run along, and
-- what the change tracker records.
use rt11fs.Base.{
  ℕ, zero, suc, ◌+◌, ◌*◌, ◌≤◌, ◌<◌, bit_and, ◌≡◌, refl, ap, ◌∙◌, ◌⊎◌, inl, inr, List, [], ◌∷◌, true,
  false, ◌==◌, arith, Bool-cases, if_intro, if◌then◌else◌,
}
use rt11fs.Base.{done, then_do, loop_until}
use rt11fs.Base.Int.{ℤ, pos, pos_part, neg_part, ◌+ℤ◌}
use rt11fs.Block.{Block}
use rt11fs.Block.Words.{word_at, IsBytes}
use rt11fs.DirConst.{e_tent, e_perm, e_eos}
use rt11fs.DirPtr.{DirPtr, next, has_status, after_end}
use rt11fs.DirPtr.Moves.{IsEntry, get_word_lem, next-IsEntry}
use rt11fs.DirChangeTracker.{Slot, slot_of, Tracker, with_tracker, record_move, move_dir_entry}
use rt11fs.DirChangeTracker.Transactions.{run_moves}
use rt11fs.Directory.Segment.{track_moves}
use rt11fs.Directory.View.{
  Seg, base_of, status_at, length_at, first_of, IsChain, pointer, bit_at, is_file_at,
}
use rt11fs.Directory.Walk.{
  start_of, pointer-IsEntry, at_or_before, next_plain, next_marked, next_marked_last, mark,
}

abbrev pub slot : ℕ → ℕ → Slot
slot number i = record { segment = pos number; index = i }

-- The moves of the files among `left` entries from `i` on, each to the place behind it.
abbrev pub shifts : Block → ℕ → ℕ → ℕ → ℕ → List (Slot × Slot)
shifts b e number i zero = []
shifts b e number i (suc left) =
    let rest = shifts b e number (i + 1) left in
    if is_file_at b e number i then (slot number i, slot number (i + 1)) ∷ rest else rest

abbrev pub with_moves : Tracker → List (Slot × Slot) → Tracker
with_moves t ms = record t { moves = run_moves t.transaction ms t.moves }

-- A pointer out of the directory, or to the first entry of a segment.
abbrev IsOutOrStart : Block → ℕ → DirPtr → Type 0
IsOutOrStart b e q =
    (q.segment ≡ pos 0)
    ⊎ ((t : Seg) × (rest : List Seg) × IsChain b e (t ∷ rest) × (q ≡ start_of b e t.number))

-- A step from an entry with the mark.
next_over :
    (b : Block) (e : ℕ) (s : Seg) (segs : List Seg) (i : ℕ) (sector : ℤ)
    → IsBytes b.bytes
    → IsChain b e (s ∷ segs)
    → 24 + i * e ≤ 1024
    → (bit_and (status_at b e s.number i) e_eos == 0) ≡ false
    → (q : DirPtr) × (next (pointer e s.number i sector) b ≡ done q b) × IsOutOrStart b e q
next_over b e s [] i sector bs c fits marked =
    let entry = pointer-IsEntry b e s.number i sector bs c.0.numbered c.0.in_block fits in
    (_, next_marked_last b e s 0 bs c.0 i sector entry marked refl, inl refl)
next_over b e s (t ∷ segs) i sector bs c fits marked =
    let entry = pointer-IsEntry b e s.number i sector bs c.0.numbered c.0.in_block fits in
    (
      start_of b e t.number,
      next_marked b e s t.number bs c.0 i sector entry marked c.1.0.numbered c.1.0.in_block,
      inr (t, segs, c.1, refl),
    )

-- A step from a place of a segment does not fail, whatever stands there.
pub next_total :
    (b : Block) (e : ℕ) (s : Seg) (segs : List Seg) (i : ℕ) (sector : ℤ)
    → IsBytes b.bytes
    → IsChain b e (s ∷ segs)
    → 24 + i * e ≤ 1024
    → (q : DirPtr) × (next (pointer e s.number i sector) b ≡ done q b)
next_total b e s segs i sector bs c fits =
    let entry = pointer-IsEntry b e s.number i sector bs c.0.numbered c.0.in_block fits in
    elim (Bool-cases (bit_and (status_at b e s.number i) e_eos == 0)) [
      | inl plain ↦ (_, next-IsEntry b _ (base_of s.number) entry (ground arith))
      | inr marked ↦ let (q, step, _) = next_over b e s segs i sector bs c fits marked in (q, step)
    ]

next_again :
    (b : Block) (e : ℕ) (q : DirPtr)
    → IsBytes b.bytes
    → IsOutOrStart b e q
    → (r : DirPtr) × (next q b ≡ done r b)
unfolding next
next_again b e q bs (inl out) =
    let there : after_end q ≡ true = ground (arith, ap pos_part out, ap neg_part out) in
    (q, rw there refl)
next_again b e q bs (inr (t, rest, c, same)) =
    let (r, step) =
      next_total b e t rest 0 (pos (word_at b.bytes (base_of t.number + 8))) bs c (omega arith) in
    (r, ap (λ x. next x b) same ∙ step)

-- One round of the loop over the pairs of entries.
round :
    (b : Block) (left : ℕ) (s d s' d' : DirPtr) (t t' : Tracker)
    → move_dir_entry s d (record { block = b; tracker = t })
      ≡ done tt (record { block = b; tracker = t' })
    → next s b ≡ done s' b
    → next d b ≡ done d' b
    → track_moves (suc left) s d (record { block = b; tracker = t })
      ≡ track_moves left s' d' (record { block = b; tracker = t' })
unfolding track_moves
round b left s d s' d' t t' m hs hd =
    rw (m, then_do, hs, with_tracker, then_do, hd, with_tracker, then_do) refl

module _ (b : Block) (e : ℕ) (s : Seg) (segs : List Seg) (bs : IsBytes b.bytes)
    (c : IsChain b e (s ∷ segs)) where
  status_lem :
      (i m : ℕ) (sector : ℤ)
      → IsEntry b (pointer e s.number i sector) (base_of s.number)
      → has_status (pointer e s.number i sector) m b ≡ done (bit_at b e s.number i m) b
  unfolding has_status
  status_lem i m sector entry = rw (get_word_lem b _ (base_of s.number) 0 entry (omega arith)) refl

  -- The end of the segment is reached from any entry of it.
  pub advance_from :
      (fuel left i : ℕ) (sector : ℤ)
      → i + left ≡ s.count
      → left < fuel
      → (end : ℤ) × (loop_until fuel (λ p. has_status p e_eos) next (pointer e s.number i sector) b
          ≡ done (pointer e s.number s.count end) b)
  unfolding loop_until
  advance_from zero left i sector at h = absurd (omega arith)
  advance_from (suc fuel) zero i sector at h =
      let here : i ≡ s.count = omega arith in
      (
        sector,
        rw
            (
              status_lem i e_eos sector
                  (at_or_before b e s (first_of segs) bs c.0 i sector (omega arith)),
              then_do,
              ap (λ n. bit_and (status_at b e s.number n) e_eos) here ∙ c.0.marked,
            )
            (ap (λ n. done (pointer e s.number n sector) b) here),
      )
  advance_from (suc fuel) (suc left) i sector at h =
      let (end, run) =
        advance_from fuel left (i + 1) (sector +ℤ pos (length_at b e s.number i)) (omega arith)
          (omega arith) in
      (
        end,
        rw
            (
              status_lem i e_eos sector
                  (at_or_before b e s (first_of segs) bs c.0 i sector (omega arith)),
              then_do,
              c.0.plain i (omega arith),
              next_plain b e s (first_of segs) bs c.0 i sector (omega arith),
              then_do,
            )
            run,
      )

  -- A file is recorded as moved, anything else is not.
  move_dir_entry_lem :
      (i : ℕ) (sector : ℤ) (dst : DirPtr) (t : Tracker)
      → i ≤ s.count
      → t.in_transaction ≡ true
      → move_dir_entry (pointer e s.number i sector) dst (record { block = b; tracker = t })
        ≡ done tt (record {
          block = b;
          tracker =
              if is_file_at b e s.number i
              then record t {
                moves = record_move t.transaction (slot s.number i) (slot_of dst) t.moves;
              }
              else t;
        })
  unfolding move_dir_entry
  move_dir_entry_lem i sector dst t le on =
      let entry = at_or_before b e s (first_of segs) bs c.0 i sector le in
      elim (Bool-cases (bit_at b e s.number i e_tent)) [
        | inl tent ↦ rw (on, status_lem i e_tent sector entry, tent) refl
        | inr not_tent ↦ elim (Bool-cases (bit_at b e s.number i e_perm)) [
          | inl perm ↦
              rw
                (
                  on,
                  status_lem i e_tent sector entry,
                  not_tent,
                  status_lem i e_perm sector entry,
                  perm,
                )
                refl
          | inr other ↦
              rw
                (
                  on,
                  status_lem i e_tent sector entry,
                  not_tent,
                  status_lem i e_perm sector entry,
                  other,
                )
                refl
        ]
      ]

  -- The last round, from the end marker: nothing is recorded.
  pub track_last :
      (sector : ℤ) (d : DirPtr) (t : Tracker)
      → is_file_at b e s.number s.count ≡ false
      → t.in_transaction ≡ true
      → (q : DirPtr) × (next d b ≡ done q b)
      → track_moves 1 (pointer e s.number s.count sector) d (record { block = b; tracker = t })
        ≡ done tt (record { block = b; tracker = t })
  unfolding track_moves
  track_last sector d t not_file on (q, step) =
      let (r, behind, _) =
        next_over b e s segs s.count sector bs c (omega (arith, c.0.fits))
          (mark b e s (first_of segs) bs c.0) in
      round b 0 (pointer e s.number s.count sector) d r q t t
        (move_dir_entry_lem s.count sector d t (omega arith) on ∙ rw not_file refl) behind step

  -- What is recorded for one entry.
  after_move : ℕ → Tracker → Tracker
  after_move i t =
      if is_file_at b e s.number i
      then record t {
        moves = record_move t.transaction (slot s.number i) (slot s.number (i + 1)) t.moves;
      }
      else t

  after_move-shifts :
      (i left : ℕ) (t : Tracker)
      → with_moves (after_move i t) (shifts b e s.number (i + 1) left)
        ≡ with_moves t (shifts b e s.number i (suc left))
  unfolding after_move
  after_move-shifts i left t = elim (Bool-cases (is_file_at b e s.number i)) [
    | inl f ↦ rw f refl
    | inr f ↦ rw f refl
  ]

  after_move_on :
      (i : ℕ) (t : Tracker) → t.in_transaction ≡ true → (after_move i t).in_transaction ≡ true
  unfolding after_move
  after_move_on i t on =
      if_intro (λ (x : Tracker). x.in_transaction ≡ true) (is_file_at b e s.number i) (λ _. on)
        (λ _. on)

  -- The rounds for the entries from `i` on, when `d` runs along one place further.
  pub track_moves_lem :
      (left i : ℕ) (sector sector' : ℤ) (t : Tracker)
      → i + suc left ≡ s.count
      → is_file_at b e s.number s.count ≡ false
      → t.in_transaction ≡ true
      → track_moves
          (suc (suc left))
          (pointer e s.number i sector)
          (pointer e s.number (i + 1) sector')
          (record { block = b; tracker = t })
        ≡ done tt (record { block = b; tracker = with_moves t (shifts b e s.number i (suc left)) })
  unfolding after_move
  track_moves_lem zero i sector sector' t at not_file on =
      let s' : ℤ = sector +ℤ pos (length_at b e s.number i) in
      let here : i + 1 ≡ s.count = omega arith in
      let (q, stepd, further) =
        next_over b e s segs s.count sector' bs c (omega (arith, c.0.fits))
          (mark b e s (first_of segs) bs c.0) in
      round b 1 (pointer e s.number i sector) (pointer e s.number (i + 1) sector')
        (pointer e s.number (i + 1) s') q t (after_move i t)
        (move_dir_entry_lem i sector (pointer e s.number (i + 1) sector') t (omega arith) on)
        (next_plain b e s (first_of segs) bs c.0 i sector (omega arith))
        (ap (λ n. next (pointer e s.number n sector') b) here ∙ stepd)
      ∙ ap
          (λ n.
            track_moves 1 (pointer e s.number n s') q
              (record { block = b; tracker = after_move i t }))
          here
      ∙ track_last s' q (after_move i t) not_file (after_move_on i t on)
          (next_again b e q bs further)
      ∙ ap (λ (x : Tracker). done tt (record { block = b; tracker = x })) (after_move-shifts i 0 t)
  track_moves_lem (suc left) i sector sector' t at not_file on =
      let s' : ℤ = sector +ℤ pos (length_at b e s.number i) in
      let d' : ℤ = sector' +ℤ pos (length_at b e s.number (i + 1)) in
      round b (suc (suc left)) (pointer e s.number i sector) (pointer e s.number (i + 1) sector')
        (pointer e s.number (i + 1) s') (pointer e s.number (i + 1 + 1) d') t (after_move i t)
        (move_dir_entry_lem i sector (pointer e s.number (i + 1) sector') t (omega arith) on)
        (next_plain b e s (first_of segs) bs c.0 i sector (omega arith))
        (next_plain b e s (first_of segs) bs c.0 (i + 1) sector' (omega arith))
      ∙ track_moves_lem left (i + 1) s' d' (after_move i t) (omega arith) not_file
          (after_move_on i t on)
      ∙ ap (λ (x : Tracker). done tt (record { block = b; tracker = x }))
          (after_move-shifts i (suc left) t)
