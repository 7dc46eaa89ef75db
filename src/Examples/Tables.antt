-- ===== src/Examples/Tables.antt =====
-- Moves of files and the table of open files at concrete inputs.
use rt11fs.Base.{ℕ, ◌≡◌, refl, List, [], ◌∷◌, true, false, if◌then◌else◌, not, arith}
use rt11fs.Base.{replicate}
use rt11fs.Base.Int.{pos}
use rt11fs.DataSource.{memory_source}
use rt11fs.BlockCache.{Cache}
use rt11fs.DirPtr.{DirPtr}
use rt11fs.Block.{Block}
use rt11fs.DirChangeTracker.{Slot, Entry, eq_slot, erase_returned}
use rt11fs.DirChangeTracker.Transactions.{
  relocate, is_tracked, run_moves, shift, is_moved, relocate-run_moves, relocate-erase_returned,
}
use rt11fs.Directory.Operations.{Directory}
use rt11fs.OpenFileTable.{write_from, read_from, OpenFileEntry, apply_moves}
use rt11fs.OpenFileTable.Fuel.{IsFueled, read_from-IsFueled, write_from-IsFueled}
use rt11fs.OpenFileTable.Moves.{slots, map_slots, slots-apply_moves}

abbrev slot : ℕ → Slot
slot i = record { segment = pos 1; index = i }

-- The shift of the entries 3, 4 and 5 to the next ones, the last first.
abbrev shifts : List (Slot × Slot)
shifts = (slot 5, slot 6) ∷ (slot 4, slot 5) ∷ (slot 3, slot 4) ∷ []

relocate-run_moves_example :
    relocate (run_moves (pos 0) shifts []) (slot 4)
    ≡ (if is_moved (pos 0) (slot 4) [] then slot 4 else shift shifts (slot 4))
relocate-run_moves_example =
    relocate-run_moves (pos 0) (slot 4) shifts [] (omega arith, (omega arith, (omega arith, tt)))
      (λ _. refl)

abbrev move : ℕ → ℕ → Entry
move i j = record { old = slot i; move_transaction = pos 0; new = slot j }

relocate-erase_returned_example :
    (relocate (erase_returned (move 2 2 ∷ move 3 4 ∷ [])) (slot 2)
      ≡ relocate (move 2 2 ∷ move 3 4 ∷ []) (slot 2))
    × (is_tracked (slot 2) (erase_returned (move 2 2 ∷ move 3 4 ∷ []))
        ≡ not (eq_slot (slot 2) (relocate (move 2 2 ∷ move 3 4 ∷ []) (slot 2))))
unfolding eq_slot
relocate-erase_returned_example =
    relocate-erase_returned (slot 2) (move 2 2 ∷ move 3 4 ∷ []) (ground arith)

abbrev pointer : ℕ → ℕ → DirPtr
pointer i sector = record {
  entry_size = 14;
  segment = pos 1;
  index = i;
  segbase = pos 0;
  datasec = pos sector;
}

abbrev file : ℕ → ℕ → OpenFileEntry
file refs i = record { refcnt = refs; dirp = pointer i 20 }

slots-apply_moves_example :
    slots (apply_moves (move 4 5 ∷ move 3 4 ∷ []) (file 1 3 ∷ file 2 4 ∷ []))
    ≡ map_slots (relocate (move 4 5 ∷ move 3 4 ∷ [])) (slots (file 1 3 ∷ file 2 4 ∷ []))
unfolding eq_slot
slots-apply_moves_example =
    slots-apply_moves (move 4 5 ∷ move 3 4 ∷ []) (file 1 3 ∷ file 2 4 ∷ []) (ground arith)
      (ground arith)

abbrev cache : Cache (List ℕ)
cache = record { source = []; sectors = 0; blocks = [] }

abbrev volume : Directory
volume = record { entry_size = 14; dirblk = pos 6 }

-- A directory of one segment with a free entry of 50 sectors and the end marker.
abbrev free_directory : Block
free_directory = record {
  sector = pos 6;
  count = 2;
  refcount = pos 1;
  dirty = false;
  bytes =
      1
      ∷ 0
      ∷ 0
      ∷ 0
      ∷ 1
      ∷ 0
      ∷ 0
      ∷ 0
      ∷ 14
      ∷ 0
      ∷ 0
      ∷ 2
      ∷ 0
      ∷ 0
      ∷ 0
      ∷ 0
      ∷ 0
      ∷ 0
      ∷ 50
      ∷ 0
      ∷ 0
      ∷ 0
      ∷ 0
      ∷ 0
      ∷ 0
      ∷ 8
      ∷ replicate 40 0;
}

abbrev free_cache : Cache (List ℕ)
free_cache = record { source = []; sectors = 64; blocks = free_directory ∷ [] }

read_from-IsFueled_example :
    IsFueled (read_from memory_source volume 600 2 (pos 14) 600 100 free_cache)
read_from-IsFueled_example =
    read_from-IsFueled memory_source volume 600 2 (pos 14) 600 100 free_cache (omega arith)

write_from-IsFueled_example :
    IsFueled (write_from memory_source volume 3 true (pos 14) (7 ∷ 8 ∷ 9 ∷ []) 100 free_cache)
write_from-IsFueled_example =
    write_from-IsFueled memory_source volume 3 true (pos 14) (7 ∷ 8 ∷ 9 ∷ []) 100 free_cache
      (omega arith)
