-- ===== src/DirChangeTracker/Transactions.antt =====
-- The tracker: a transaction moves the files all at once, whatever the order of its moves.
use rt11fs.Base.{
  ℕ, ◌+◌, ◌≤◌, ◌≡◌, refl, sym, ap, ◌∙◌, ◌↔◌, inl, inr, List, [], ◌∷◌, Bool, true, false, not, ◌&&◌,
  ◌||◌, if◌then◌else◌, Bool-cases, arith,
}
use rt11fs.Base.Int.{ℤ, eq_ℤ, eq_of_parts}
use rt11fs.DirChangeTracker.{Entry, Slot, eq_slot, record_move, erase_returned}

pub eq_slot_iff : (a b : Slot) → (eq_slot a b ≡ true) ↔ (a ≡ b)
unfolding eq_slot
eq_slot_iff a b = (to_eq, λ e. ground arith)
  where
    to_eq : eq_slot a b ≡ true → a ≡ b
    to_eq h =
        let es : a.segment ≡ b.segment = eq_of_parts a.segment b.segment (ground arith) in
        let ei : a.index ≡ b.index = ground arith in cc

eq_slot_sym : (a b : Slot) → eq_slot a b ≡ eq_slot b a
unfolding eq_slot
eq_slot_sym a b = ground arith

-- Where the recorded moves together take a place, all of them at once.
abbrev pub relocate : List Entry → Slot → Slot
relocate [] s = s
relocate (m ∷ moves) s = let rest = relocate moves s in if eq_slot m.old s then m.new else rest

-- The moves of a transaction in order, each from a place to another, and what they do at once.
abbrev pub run_moves : ℤ → List (Slot × Slot) → List Entry → List Entry
run_moves t [] moves = moves
run_moves t ((src, dst) ∷ ms) moves = run_moves t ms (record_move t src dst moves)

abbrev pub shift : List (Slot × Slot) → Slot → Slot
shift [] s = s
shift ((src, dst) ∷ ms) s = let rest = shift ms s in if eq_slot src s then dst else rest

abbrev pub is_tracked : Slot → List Entry → Bool
is_tracked o [] = false
is_tracked o (e ∷ moves) = eq_slot e.old o || is_tracked o moves

-- Whether the file that was first at `o` has moved in the transaction.
abbrev pub is_moved : ℤ → Slot → List Entry → Bool
is_moved t o [] = false
is_moved t o (e ∷ moves) =
    let rest = is_moved t o moves in if eq_slot e.old o then eq_ℤ e.move_transaction t else rest

-- The entry that a move from `s` finds.
abbrev pub is_pending : ℤ → Slot → Entry → Bool
is_pending t s e = eq_slot e.new s && not (eq_ℤ e.move_transaction t)

-- How many files stand at `s` since before the transaction.
abbrev pub pending : ℤ → Slot → List Entry → ℕ
pending t s [] = 0
pending t s (e ∷ moves) = (if is_pending t s e then 1 else 0) + pending t s moves

-- A file that has not moved in the transaction is pending at its place.
not_pending :
    (t : ℤ) (s o : Slot) (moves : List Entry)
    → pending t s moves ≡ 0
    → is_tracked o moves ≡ true
    → is_moved t o moves ≡ false
    → eq_slot s (relocate moves o) ≡ false
not_pending t s o [] h tr mv = cc
not_pending t s o (e ∷ moves) h tr mv = elim (Bool-cases (eq_slot e.old o)) [
  | inl hit ↦ rw hit (ground (arith, eq_slot_sym s e.new))
  | inr miss ↦ rw miss (not_pending t s o moves (omega arith) (ground arith) (ground arith))
]

untracked : (o : Slot) (moves : List Entry) → is_tracked o moves ≡ false → relocate moves o ≡ o
untracked o [] h = refl
untracked o (e ∷ moves) h = ground (arith, untracked o moves)

-- One move takes along the file that stands where it begins.
relocate-record_move :
    (t : ℤ) (s d o : Slot) (moves : List Entry)
    → pending t s moves ≤ 1
    → (is_tracked o moves ≡ false → eq_slot s o ≡ true → pending t s moves ≡ 0)
    → relocate (record_move t s d moves) o
      ≡ (if not (is_moved t o moves) && eq_slot s (relocate moves o) then d else relocate moves o)
unfolding record_move
relocate-record_move t s d o [] h fresh = ground arith
relocate-record_move t s d o (e ∷ moves) h fresh = elim (Bool-cases (is_pending t s e)) [
  | inl hit ↦ ground (arith, eq_slot_sym s e.new, fresh, not_pending t s o moves, untracked o moves)
  | inr miss ↦ ground (arith, eq_slot_sym s e.new, fresh, relocate-record_move t s d o moves)
]

is_moved-record_move :
    (t : ℤ) (s d o : Slot) (moves : List Entry)
    → pending t s moves ≤ 1
    → (is_tracked o moves ≡ false → eq_slot s o ≡ true → pending t s moves ≡ 0)
    → is_moved t o (record_move t s d moves) ≡ is_moved t o moves || eq_slot s (relocate moves o)
unfolding record_move
is_moved-record_move t s d o [] h fresh = ground arith
is_moved-record_move t s d o (e ∷ moves) h fresh = elim (Bool-cases (is_pending t s e)) [
  | inl hit ↦ ground (arith, eq_slot_sym s e.new, fresh, not_pending t s o moves, untracked o moves)
  | inr miss ↦ ground (arith, eq_slot_sym s e.new, fresh, is_moved-record_move t s d o moves)
]

is_tracked-record_move :
    (t : ℤ) (s d o : Slot) (moves : List Entry)
    → is_tracked o (record_move t s d moves) ≡ false
    → is_tracked o moves ≡ false
unfolding record_move
is_tracked-record_move t s d o [] h = refl
is_tracked-record_move t s d o (e ∷ moves) h = ground (arith, is_tracked-record_move t s d o moves)

pending-record_move :
    (t : ℤ) (s d x : Slot) (moves : List Entry)
    → pending t x (record_move t s d moves) ≤ pending t x moves
unfolding record_move
pending-record_move t s d x [] = ground arith
pending-record_move t s d x (e ∷ moves) = ground (arith, pending-record_move t s d x moves)

-- At most one file stands where a move of the transaction begins.
abbrev pub EachPending : ℤ → List (Slot × Slot) → List Entry → Type 0
EachPending t [] moves = Unit {0}
EachPending t ((src, dst) ∷ ms) moves = (pending t src moves ≤ 1) × EachPending t ms moves

EachPending-record_move :
    (t : ℤ) (s d : Slot) (ms : List (Slot × Slot)) (moves : List Entry)
    → EachPending t ms moves
    → EachPending t ms (record_move t s d moves)
EachPending-record_move t s d [] moves h = tt
EachPending-record_move t s d ((src, dst) ∷ ms) moves h =
    (omega (arith, pending-record_move t s d src moves), EachPending-record_move t s d ms moves h.1)

fresh_at :
    (t : ℤ) (s o : Slot) (moves : List Entry)
    → (is_tracked o moves ≡ false → pending t o moves ≡ 0)
    → is_tracked o moves ≡ false
    → eq_slot s o ≡ true
    → pending t s moves ≡ 0
fresh_at t s o moves h tr e = ap (λ x. pending t x moves) ((eq_slot_iff s o).0 e) ∙ h tr

-- If at most one file stands where each move of a transaction begins, not counting those that have
-- moved in it, and if no other file stood at `o` while the file that was first at `o` had not moved,
-- then the moves take that file from where it stood to where the transaction as a whole moves that
-- place; if it had moved in the transaction before, it stays where that move put it.
pub relocate-run_moves :
    (t : ℤ) (o : Slot) (ms : List (Slot × Slot)) (moves : List Entry)
    → EachPending t ms moves
    → (is_tracked o moves ≡ false → pending t o moves ≡ 0)
    → relocate (run_moves t ms moves) o
      ≡ (if is_moved t o moves then relocate moves o else shift ms (relocate moves o))
relocate-run_moves t o [] moves h fresh = ground arith
relocate-run_moves t o ((src, dst) ∷ ms) moves h fresh =
    let f = fresh_at t src o moves fresh in
    ground (
      arith,
      relocate-run_moves t o ms (record_move t src dst moves)
          (EachPending-record_move t src dst ms moves h.1)
          (λ tr.
            let old = is_tracked-record_move t src dst o moves tr in
            omega (arith, fresh old, pending-record_move t src dst o moves)),
      relocate-record_move t src dst o moves h.0 f,
      is_moved-record_move t src dst o moves h.0 f,
    )

abbrev pub count_old : Slot → List Entry → ℕ
count_old o [] = 0
count_old o (e ∷ moves) = (if eq_slot e.old o then 1 else 0) + count_old o moves

relocate-none : (o : Slot) (moves : List Entry) → count_old o moves ≡ 0 → relocate moves o ≡ o
relocate-none o [] h = refl
relocate-none o (e ∷ moves) h = ground (arith, relocate-none o moves)

count_old-erase :
    (o : Slot) (moves : List Entry) → count_old o (erase_returned moves) ≤ count_old o moves
unfolding erase_returned
count_old-erase o [] = omega arith
count_old-erase o (e ∷ moves) = ground (arith, count_old-erase o moves)

relocate-erased :
    (o : Slot) (moves : List Entry)
    → count_old o moves ≤ 1
    → relocate (erase_returned moves) o ≡ relocate moves o
unfolding erase_returned
relocate-erased o [] h = refl
relocate-erased o (e ∷ moves) h = ground (
  arith,
  relocate-erased o moves,
  relocate-none o (erase_returned moves),
  count_old-erase o moves,
  eq_slot_iff e.old e.new,
  eq_slot_iff e.old o,
)

is_tracked-none :
    (o : Slot) (moves : List Entry) → count_old o moves ≡ 0 → is_tracked o moves ≡ false
is_tracked-none o [] h = refl
is_tracked-none o (e ∷ moves) h = ground (arith, is_tracked-none o moves)

is_tracked-erased :
    (o : Slot) (moves : List Entry)
    → count_old o moves ≤ 1
    → is_tracked o (erase_returned moves) ≡ not (eq_slot o (relocate moves o))
unfolding erase_returned
is_tracked-erased o [] h = ap not (sym ((eq_slot_iff o o).1 refl))
is_tracked-erased o (e ∷ moves) h = elim (Bool-cases (eq_slot e.old o)) [
  | inr miss ↦ ground (arith, is_tracked-erased o moves)
  | inl hit ↦
      let same : e.old ≡ o = (eq_slot_iff e.old o).0 hit in
      let gone =
        is_tracked-none o (erase_returned moves) (ground (arith, count_old-erase o moves)) in
      let here : eq_slot e.old e.new ≡ eq_slot o e.new = ap (λ s. eq_slot s e.new) same in
      ground (arith, gone, here)
]

-- If at most one entry of the tracker begins at `o`, dropping the entries of the files that are back
-- where they were changes nothing about where the file of `o` is taken, and leaves an entry that
-- begins at `o` exactly if the file is taken elsewhere.
pub relocate-erase_returned :
    (o : Slot) (moves : List Entry)
    → count_old o moves ≤ 1
    → (relocate (erase_returned moves) o ≡ relocate moves o)
      × (is_tracked o (erase_returned moves) ≡ not (eq_slot o (relocate moves o)))
relocate-erase_returned o moves h = (relocate-erased o moves h, is_tracked-erased o moves h)
