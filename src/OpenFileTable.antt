-- ===== src/OpenFileTable.antt =====
-- fslib/OpenFileTable.h and fslib/OpenFileTable.cpp: the open files. A file reference is an index
-- into the table. The debug output to cerr is left out.
pub mod Table
pub mod Moves
pub mod Fuel
pub mod Contents
pub mod Updates
pub mod Whole
pub mod Invariant
use rt11fs.Base.{
  ℕ, zero, suc, ◌+◌, ◌-◌, ◌*◌, ◌/◌, ◌%◌, min, Option, none, some, List, [], ◌∷◌, ◌++◌, Bool, ◌&&◌,
  ◌||◌, length, get_elem?, set, drop, ltb, leb, ◌==◌, if◌then◌else◌,
}
use rt11fs.Base.{
  einval, out_of_range, no_fuel, Status, ok, err, Outcome, done, throw, Action, pure, fail, ◌>>=◌,
  ◌>>◌, get_state, put_state, of_option, or_return,
}
use rt11fs.Base.Int.{ℤ, pos, ◌+ℤ◌}
use mathlib.Core.Option
use rt11fs.Base.Text.{Text}
use rt11fs.DataSource.{DataSource}
use rt11fs.Block.{copy_out, copy_in, zero_fill, sector_size}
use rt11fs.BlockCache.{Cache, get_block, put_block, sync, with_block}
use rt11fs.DirConst.{total_length_word}
use rt11fs.DirPtr.{DirPtr, get_word, set_segment, set_index}
use rt11fs.DirTime.{Tm}
use rt11fs.DirChangeTracker.{Entry, Slot, slot_of, eq_slot}
use rt11fs.Directory.Scan.{get_dir_pointer_named}
use rt11fs.Directory.Operations.{
  Directory, Pointed, truncate, remove_entry, create_entry, make_entry_permanent,
}

pub record OpenFileEntry : Type 0 where
  pub refcnt : ℕ
  pub dirp : DirPtr

-- The table with the cache under it.
pub record Files (D : Type 0) : Type 0 where
  pub cache : Cache D
  pub open_files : List OpenFileEntry

abbrev pub files_with : {D A : Type 0} → Files D → Outcome (Cache D) A → Outcome (Files D) A
files_with f (done a c) = done a (record f { cache = c })
files_with f (throw e c) = throw e (record f { cache = c })

abbrev pub on_cache : {D A : Type 0} → Action (Cache D) A → Action (Files D) A
on_cache m f = files_with f (m f.cache)

-- `find_if`: the index of the first entry that passes.
unfoldable pub find_index : (OpenFileEntry → Bool) → List OpenFileEntry → Option ℕ
find_index test [] = none
find_index test (e ∷ files) = if test e then some 0 else Option.map suc (find_index test files)

unfoldable pub is_at : Slot → OpenFileEntry → Bool
is_at slot e = eq_slot slot (slot_of e.dirp)

abbrev pub one_more : OpenFileEntry → OpenFileEntry
one_more e = record e { refcnt = e.refcnt + 1 }

unfoldable pub raise : ℕ → List OpenFileEntry → List OpenFileEntry
raise i [] = []
raise zero (e ∷ files) = one_more e ∷ files
raise (suc i) (e ∷ files) = e ∷ raise i files

-- `iter->refcnt++` for an entry of the same place, else the first unused slot, else a new one.
unfoldable pub add_reference : DirPtr → List OpenFileEntry → ℕ × List OpenFileEntry
unfolding find_index is_at raise
add_reference dirp files = elim (find_index (is_at (slot_of dirp)) files) [
  | some i ↦ (i, raise i files)
  | none ↦
      let entry : OpenFileEntry = record { refcnt = 1; dirp = dirp } in
      elim (find_index (λ e. e.refcnt == 0) files) [
        | some i ↦ (i, set files i entry)
        | none ↦ (length files, files ++ entry ∷ [])
      ]
]

-- `setSegment` and `setIndex` of the first file that stands where the move began.
unfoldable pub apply_move : Entry → List OpenFileEntry → List OpenFileEntry
unfolding is_at
apply_move move [] = []
apply_move move (e ∷ files) =
    if is_at move.old e
    then record e { dirp = set_index move.new.index (set_segment move.new.segment e.dirp) } ∷ files
    else e ∷ apply_move move files

unfoldable pub apply_moves : List Entry → List OpenFileEntry → List OpenFileEntry
unfolding apply_move
apply_moves [] files = files
apply_moves (move ∷ moves) files = apply_moves moves (apply_move move files)

abbrev pub change_files :
    {D : Type 0} → (List OpenFileEntry → List OpenFileEntry) → Action (Files D) (Unit {0})
change_files f = do s ← get_state; put_state (record s { open_files = f s.open_files })

-- `openFiles.at(fd)`
abbrev pub entry_at : {D : Type 0} → ℕ → Action (Files D) OpenFileEntry
entry_at fd = do s ← get_state; of_option (get_elem? s.open_files fd) out_of_range

abbrev pub entry_end :
    {D A : Type 0} → Files D → ℕ → OpenFileEntry → Outcome (Pointed D) A → Outcome (Files D) A
entry_end f fd e (done a p) =
    done a
      (record f { cache = p.cache; open_files = set f.open_files fd (record e { dirp = p.dirp }) })
entry_end f fd e (throw k p) =
    throw k
      (record f { cache = p.cache; open_files = set f.open_files fd (record e { dirp = p.dirp }) })

-- An operation that takes the pointer of an entry by reference: what it makes of the pointer stays in
-- the entry, also when it throws.
abbrev pub on_entry : {D A : Type 0} → ℕ → OpenFileEntry → Action (Pointed D) A → Action (Files D) A
on_entry fd e m f = entry_end f fd e (m (record { cache = f.cache; dirp = e.dirp }))

-- `open(const DirPtr &)`
unfoldable pub open_at : {D : Type 0} → DirPtr → Action (Files D) ℕ
unfolding add_reference
open_at dirp = do
  s ← get_state
  let (fd, files) = add_reference dirp s.open_files
  put_state (record s { open_files = files })
  pure fd

module _ {D : Type 0} (ds : DataSource D) (dir : Directory) where
  unfoldable pub open_file : Text → Action (Files D) (Status ℕ)
  open_file name =
      or_return (on_cache (with_block dir.dirblk (get_dir_pointer_named name)))
        λ dirp. do fd ← open_at dirp; pure (ok fd)

  -- `truncate`; the pointer of the entry is changed in place.
  unfoldable pub truncate_file : ℕ → ℕ → Action (Files D) (Status (Unit {0}))
  truncate_file fd new_size = do
    e ← entry_at fd
    (if e.refcnt == 0
        then pure (err einval)
        else or_return (on_entry fd e (truncate ds dir new_size []))
            λ moves. do change_files (apply_moves moves); pure (ok tt))

  -- `now` is what `localtime` gives for the current time.
  unfoldable pub create_file : Text → Tm → Action (Files D) (Status ℕ)
  create_file name now = do
    found ← on_cache (with_block dir.dirblk (get_dir_pointer_named name))
    elim found [
      | ok dirp ↦ do fd ← open_at dirp; or_return (truncate_file fd 0) λ _. pure (ok fd)
      | err _ ↦
          or_return (on_cache (create_entry ds dir name now []))
            λ made. do change_files (apply_moves made.1); fd ← open_at made.0; pure (ok fd)
    ]

  unfoldable pub close_file : ℕ → Action (Files D) (Status (Unit {0}))
  close_file fd = do
    slot ← entry_at fd
    (if slot.refcnt == 0 then pure (err einval) else (do
      change_files (λ files. set files fd (record slot { refcnt = slot.refcnt - 1 }))
      (if slot.refcnt == 1
          then (do
            on_cache (with_block dir.dirblk (make_entry_permanent slot.dirp))
            on_cache (sync ds))
          else pure tt)
      pure (ok tt)))

  -- The loop of `readFile` at `offset` with `left` bytes to go; the bytes that it copies out. The
  -- sector fits the `int` of `getBlock`, here and in `writeFile`, when it is below 2 ^ 31.
  unfoldable pub read_from : ℕ → ℕ → ℤ → ℕ → ℕ → Action (Cache D) (List ℕ)
  read_from zero file_length sector0 left offset = if left == 0 then pure [] else fail no_fuel
  read_from (suc fuel) file_length sector0 left offset =
      let sector = offset / sector_size in
      let secoffs = offset % sector_size in
      let tocopy = min (sector_size - secoffs) left in
      let round = (do
        blk ← get_block ds (sector0 +ℤ pos sector) 1
        some_bytes ← with_block blk (copy_out (pos secoffs) (pos tocopy))
        put_block blk
        rest ← read_from fuel file_length sector0 (left - tocopy) (offset + tocopy)
        pure (some_bytes ++ rest)) in
      if (left == 0) || leb file_length sector then pure [] else round

  unfoldable pub read_file : ℕ → ℕ → ℕ → Action (Files D) (Status (List ℕ))
  unfolding read_from
  read_file fd count offset = do
    e ← entry_at fd
    (if e.refcnt == 0 then pure (err einval) else (do
      file_length ← on_cache (with_block dir.dirblk (get_word e.dirp total_length_word))
      got ← on_cache (read_from count file_length e.dirp.datasec count offset)
      pure (ok got)))

  -- The loop of `writeFile`; `buffer` is what is still to be written.
  unfoldable pub write_from : ℕ → Bool → ℤ → List ℕ → ℕ → Action (Cache D) (Unit {0})
  write_from zero extend_file sector0 buffer offset =
      if length buffer == 0 then pure tt else fail no_fuel
  write_from (suc fuel) extend_file sector0 buffer offset =
      let secoffs = offset % sector_size in
      let tocopy = min (sector_size - secoffs) (length buffer) in
      let round = (do
        blk ← get_block ds (sector0 +ℤ pos (offset / sector_size)) 1
        with_block blk (copy_in (pos secoffs) (pos tocopy) buffer)
        (if extend_file && ltb (secoffs + tocopy) sector_size
            then with_block blk
                (zero_fill (pos (secoffs + tocopy)) (pos (sector_size - (secoffs + tocopy))))
            else pure tt)
        put_block blk
        write_from fuel extend_file sector0 (drop tocopy buffer) (offset + tocopy)) in
      if length buffer == 0 then pure tt else round

  unfoldable pub write_file : ℕ → List ℕ → ℕ → Action (Files D) (Status ℕ)
  unfolding write_from
  write_file fd buffer offset = do
    e ← entry_at fd
    (if e.refcnt == 0 then pure (err einval) else (do
      len ← on_cache (with_block dir.dirblk (get_word e.dirp total_length_word))
      let end = offset + length buffer
      let extend_file = ltb (len * sector_size) end
      or_return (if extend_file then truncate_file fd end else pure (ok tt)) λ _. do
        e' ← entry_at fd
        on_cache (write_from (length buffer) extend_file e'.dirp.datasec buffer offset)
        pure (ok (length buffer))))

  unfoldable pub unlink : Text → Action (Files D) (Status (Unit {0}))
  unlink name =
      or_return (on_cache (remove_entry ds dir name []))
        λ moves. do change_files (apply_moves moves); pure (ok tt)
