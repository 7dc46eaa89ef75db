-- ===== src/OpenFileTable/Table.antt =====
-- The table of open files: the entry of an opened file, and what reading never runs out of.
use rt11fs.Base.{
  ℕ, ◌+◌, ◌≤◌, ◌<◌, ◌≡◌, refl, ◌≢◌, Option, none, some, List, ◌∷◌, Bool, true, length, get_elem?,
}
use mathlib.Core.Option
use rt11fs.DirPtr.{DirPtr}
use rt11fs.DirChangeTracker.{slot_of}
use rt11fs.DirChangeTracker.Transactions.{eq_slot_iff}
use rt11fs.OpenFileTable.{OpenFileEntry, find_index, is_at, raise, add_reference}

-- The index that `find_index` gives is that of an entry that passes.
abbrev IsFound : (OpenFileEntry → Bool) → List OpenFileEntry → Option ℕ → Type 0
IsFound test files none = Unit {0}
IsFound test files (some i) = (e : OpenFileEntry) × (get_elem? files i ≡ some e) × (test e ≡ true)

-- What a new reference to the file at `dirp` gives: an entry that is in use and stands where
-- `dirp` does, every other file being as it was.
pub record IsReferred (dirp : DirPtr) (files : List OpenFileEntry) (r : ℕ × List OpenFileEntry)
    : Type 0 where
  pub entry : OpenFileEntry
  pub found : get_elem? r.1 r.0 ≡ some entry
  pub same_place : slot_of dirp ≡ slot_of entry.dirp
  pub in_use : 1 ≤ entry.refcnt
  pub others : (i : ℕ) → i ≢ r.0 → i < length files → get_elem? r.1 i ≡ get_elem? files i

-- An entry of the same place is taken over as it is, also one that is no longer in use: the
-- pointer handed in, with its first data sector, is dropped.
add_reference_keeps :
    (dirp : DirPtr) (e : OpenFileEntry) (files : List OpenFileEntry)
    → slot_of dirp ≡ slot_of e.dirp
    → add_reference dirp (e ∷ files) ≡ (0, record e { refcnt = e.refcnt + 1 } ∷ files)
unfolding add_reference
add_reference_keeps dirp e files h =
    let hit : is_at (slot_of dirp) e ≡ true = unfold is_at in (eq_slot_iff _ _).1 h in
    rw (hit, add_reference, find_index, raise) refl
