-- ===== src/DirChangeTracker.antt =====
-- fslib/DirChangeTracker.h and fslib/DirChangeTracker.cpp: how the files of a directory moved.
pub mod Transactions
use rt11fs.Base.{ℕ, List, [], ◌∷◌, Bool, true, false, not, ◌&&◌, ◌==◌, if◌then◌else◌}
use rt11fs.Base.{Outcome, done, throw, Action, pure, ◌>>=◌, ◌>>◌, get_state, put_state, assert}
use rt11fs.Base.Int.{ℤ, pos, negsuc, ◌+ℤ◌, eq_ℤ}
use rt11fs.Block.{Block}
use rt11fs.DirConst.{e_tent, e_perm}
use rt11fs.DirPtr.{DirPtr, has_status}

-- A place in the directory.
pub record Slot : Type 0 where
  pub segment : ℤ
  pub index : ℕ

abbrev pub slot_of : DirPtr → Slot
slot_of p = record { segment = p.segment; index = p.index }

unfoldable pub eq_slot : Slot → Slot → Bool
eq_slot a b = eq_ℤ a.segment b.segment && (a.index == b.index)

-- `Entry`; `old` is `oldSegment` and `oldIndex`, `new` is `newSegment` and `newIndex`.
pub record Entry : Type 0 where
  pub old : Slot
  pub move_transaction : ℤ
  pub new : Slot

pub record Tracker : Type 0 where
  pub transaction : ℤ
  pub in_transaction : Bool
  pub moves : List Entry

abbrev pub new_tracker : Tracker
new_tracker = record { transaction = negsuc 0; in_transaction = false; moves = [] }

-- The directory block and the tracker of the operation at work on it.
pub record Editing : Type 0 where
  pub block : Block
  pub tracker : Tracker

abbrev pub with_tracker : {A : Type 0} → Tracker → Outcome Block A → Outcome Editing A
with_tracker t (done a b) = done a (record { block = b; tracker = t })
with_tracker t (throw e b) = throw e (record { block = b; tracker = t })

-- An action on the block alone.
abbrev pub on_block : {A : Type 0} → Action Block A → Action Editing A
on_block m s = with_tracker s.tracker (m s.block)

unfoldable pub begin_transaction : Action Editing (Unit {0})
begin_transaction = do
  s ← get_state
  assert (not s.tracker.in_transaction)
  put_state (record s {
    tracker = record s.tracker {
      transaction = s.tracker.transaction +ℤ pos 1;
      in_transaction = true;
    };
  })

-- `find_if` for an entry that stands at `src` since another transaction, and the two branches.
unfoldable pub record_move : ℤ → Slot → Slot → List Entry → List Entry
record_move transaction src dst [] =
    record { old = src; move_transaction = transaction; new = dst } ∷ []
record_move transaction src dst (e ∷ moves) =
    if eq_slot e.new src && not (eq_ℤ e.move_transaction transaction)
    then record e { move_transaction = transaction; new = dst } ∷ moves
    else e ∷ record_move transaction src dst moves

-- Only files are tracked.
unfoldable pub move_dir_entry : DirPtr → DirPtr → Action Editing (Unit {0})
move_dir_entry src dst = do
  s ← get_state
  assert s.tracker.in_transaction
  tentative ← on_block (has_status src e_tent)
  file ← (if tentative then pure true else on_block (has_status src e_perm))
  (if file
      then put_state (record s {
        tracker = record s.tracker {
          moves = record_move s.tracker.transaction (slot_of src) (slot_of dst) s.tracker.moves;
        };
      })
      else pure tt)

-- The loop that erases the entries that are back where they were.
unfoldable pub erase_returned : List Entry → List Entry
erase_returned [] = []
erase_returned (e ∷ moves) =
    let rest = erase_returned moves in if eq_slot e.old e.new then rest else e ∷ rest

unfoldable pub end_transaction : Action Editing (Unit {0})
end_transaction = do
  s ← get_state
  assert s.tracker.in_transaction
  put_state (record s {
    tracker = record s.tracker { in_transaction = false; moves = erase_returned s.tracker.moves };
  })
