-- ===== src/OpenFileTable/Moves.antt =====
-- `applyMoves`: when it moves the open files as the directory moved them.
use rt11fs.Base.{
  ℕ, ◌+◌, ◌≤◌, ◌≡◌, refl, sym, ap, ap₂, ◌∙◌, inl, inr, List, [], ◌∷◌, false, if◌then◌else◌,
  Bool-cases, arith,
}
use rt11fs.DirPtr.{set_segment}
use rt11fs.DirChangeTracker.{Entry, Slot, slot_of, eq_slot}
use rt11fs.DirChangeTracker.Transactions.{relocate}
use rt11fs.OpenFileTable.{OpenFileEntry, is_at, apply_move, apply_moves}

-- Where the open files stand.
abbrev pub slots : List OpenFileEntry → List Slot
slots [] = []
slots (e ∷ files) = slot_of e.dirp ∷ slots files

-- Where one move takes a place.
abbrev pub move_slot : Entry → Slot → Slot
move_slot m s = if eq_slot m.old s then m.new else s

abbrev pub map_slots : (Slot → Slot) → List Slot → List Slot
map_slots f [] = []
map_slots f (s ∷ ss) = f s ∷ map_slots f ss

abbrev pub count_at : Slot → List Slot → ℕ
count_at s [] = 0
count_at s (x ∷ ss) = (if eq_slot s x then 1 else 0) + count_at s ss

-- No file starts a move at that place.
abbrev pub NotMoved : Slot → List Entry → Type 0
NotMoved s [] = Unit {0}
NotMoved s (m ∷ moves) = (eq_slot m.old s ≡ false) × NotMoved s moves

-- No move ends where a later move begins.
abbrev pub Unchained : List Entry → Type 0
Unchained [] = Unit {0}
Unchained (m ∷ moves) = NotMoved m.new moves × Unchained moves

-- No two entries of the table stand where a move begins.
abbrev pub EachOnce : List Entry → List Slot → Type 0
EachOnce [] ss = Unit {0}
EachOnce (m ∷ moves) ss = (count_at m.old ss ≤ 1) × EachOnce moves ss

map_slots-none :
    (m : Entry) (ss : List Slot) → count_at m.old ss ≡ 0 → map_slots (move_slot m) ss ≡ ss
map_slots-none m [] h = refl
map_slots-none m (s ∷ ss) h = ground (arith, map_slots-none m ss)

slots-apply_move :
    (m : Entry) (files : List OpenFileEntry)
    → count_at m.old (slots files) ≤ 1
    → slots (apply_move m files) ≡ map_slots (move_slot m) (slots files)
unfolding apply_move is_at set_segment
slots-apply_move m [] h = refl
slots-apply_move m (e ∷ files) h = elim (Bool-cases (eq_slot m.old (slot_of e.dirp))) [
  | inl hit ↦
      rw hit (ap (◌∷◌ m.new) (sym (map_slots-none m (slots files) (none_left (rw hit at h)))))
  | inr miss ↦
      rw miss (ap (◌∷◌ (slot_of e.dirp)) (slots-apply_move m files (same_left (rw miss at h))))
]
  where
    none_left : 1 + count_at m.old (slots files) ≤ 1 → count_at m.old (slots files) ≡ 0
    none_left h = omega arith

    same_left : 0 + count_at m.old (slots files) ≤ 1 → count_at m.old (slots files) ≤ 1
    same_left h = omega arith

NotMoved-relocate : (s : Slot) (moves : List Entry) → NotMoved s moves → relocate moves s ≡ s
NotMoved-relocate s [] h = refl
NotMoved-relocate s (m ∷ moves) h = rw h.0 (NotMoved-relocate s moves h.1)

relocate-move_slot :
    (m : Entry) (moves : List Entry) (s : Slot)
    → NotMoved m.new moves
    → relocate moves (move_slot m s) ≡ relocate (m ∷ moves) s
relocate-move_slot m moves s h = elim (Bool-cases (eq_slot m.old s)) [
  | inl hit ↦ rw hit (NotMoved-relocate m.new moves h)
  | inr miss ↦ rw miss
]

map_slots-map_slots :
    (m : Entry) (moves : List Entry) (ss : List Slot)
    → NotMoved m.new moves
    → map_slots (relocate moves) (map_slots (move_slot m) ss) ≡ map_slots (relocate (m ∷ moves)) ss
map_slots-map_slots m moves [] h = refl
map_slots-map_slots m moves (s ∷ ss) h =
    ap₂ ◌∷◌ (relocate-move_slot m moves s h) (map_slots-map_slots m moves ss h)

map_slots_id : (ss : List Slot) → map_slots (relocate []) ss ≡ ss
map_slots_id [] = refl
map_slots_id (s ∷ ss) = ap (◌∷◌ s) (map_slots_id ss)

-- A move does not bring a second file to a place that is not its end.
count_at-move_slot :
    (m : Entry) (s : Slot) (ss : List Slot)
    → eq_slot s m.new ≡ false
    → count_at s (map_slots (move_slot m) ss) ≤ count_at s ss
count_at-move_slot m s [] h = omega arith
count_at-move_slot m s (x ∷ ss) h = elim (Bool-cases (eq_slot m.old x)) [
  | inl hit ↦ rw (hit, h) (omega (arith, count_at-move_slot m s ss h))
  | inr miss ↦ rw miss (omega (arith, count_at-move_slot m s ss h))
]

EachOnce-move_slot :
    (m : Entry) (moves : List Entry) (ss : List Slot)
    → NotMoved m.new moves
    → EachOnce moves ss
    → EachOnce moves (map_slots (move_slot m) ss)
EachOnce-move_slot m [] ss h once = tt
EachOnce-move_slot m (n ∷ moves) ss h once =
    (omega (arith, count_at-move_slot m n.old ss h.0), EachOnce-move_slot m moves ss h.1 once.1)

-- If no move ends where a later move begins, and no two entries of the table, closed ones included,
-- stand where a move begins, then applying the moves one by one takes every entry of the table to
-- where all the moves at once take its place.
pub slots-apply_moves :
    (moves : List Entry) (files : List OpenFileEntry)
    → Unchained moves
    → EachOnce moves (slots files)
    → slots (apply_moves moves files) ≡ map_slots (relocate moves) (slots files)
unfolding apply_moves
slots-apply_moves [] files u once = sym (map_slots_id (slots files))
slots-apply_moves (m ∷ moves) files u once =
    let one = slots-apply_move m files once.0 in
    slots-apply_moves moves (apply_move m files) u.1
      (rw one (EachOnce-move_slot m moves (slots files) u.0 once.1))
    ∙ ap (map_slots (relocate moves)) one
    ∙ map_slots-map_slots m moves (slots files) u.0
