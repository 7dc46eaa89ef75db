-- ===== src/Directory/Operations.antt =====
-- fslib/Directory.cpp: the constructor, and the operations that change the directory.
use rt11fs.Base.{
  ℕ, zero, suc, ◌+◌, ◌-◌, ◌*◌, ◌/◌, none, some, List, true, false, not, ltb, ◌==◌, if◌then◌else◌,
}
use rt11fs.Base.{
  einval, enoent, enospc, fs_error, undefined, no_fuel, Status, ok, err, Outcome, done, throw,
  Action, pure, fail, ◌>>=◌, ◌>>◌, get_state, throw_if, assert, or_return,
}
use rt11fs.Base.Int.{ℤ, pos, negsuc, ◌+ℤ◌, ◌-ℤ◌, ◌*ℤ◌, leb_ℤ, as_int}
use rt11fs.Base.Text.{Text}
use rt11fs.DataSource.{DataSource}
use rt11fs.Block.{Block, extract_word, sector_size}
use rt11fs.BlockCache.{Cache, get_block, resize_block, sync, with_block}
use rt11fs.DirConst.{
  e_tent, e_mpty, e_perm, total_segments, next_segment, extra_bytes, status_word, filename_words,
  total_length_word, creation_date_word, entry_length, first_segment_sector, sectors_per_segment,
  Rad50Name,
}
use rt11fs.DirPtr.{
  DirPtr, before_start, after_end, get_word, set_word_of, has_status, next, prev, fuel_of,
}
use rt11fs.DirTime.{Tm, Stamp, time_to_dir_time}
use rt11fs.DirChangeTracker.{Entry, new_tracker, Editing, on_block}
use rt11fs.FileName.{parse_filename}
use rt11fs.Directory.Scan.{get_dir_pointer, get_dir_pointer_named, find_largest_free_block}
use rt11fs.Directory.Segment.{clear_name}
use rt11fs.Directory.Space.{
  Session, edit, insert_empty, carve_free_block, coalesce_neighboring_free_blocks, shrink_entry,
  grow_entry,
}

-- The members; `dirblk` is the pointer to the block of the directory.
pub record Directory : Type 0 where
  pub entry_size : ℕ
  pub dirblk : ℤ

-- The loop of the constructor over the chain of segments, from the one at hand on.
unfoldable pub check_segments : ℕ → ℕ → ℕ → ℕ → Action Block (Unit {0})
check_segments zero totseg extra segment = fail no_fuel
check_segments (suc fuel) totseg extra segment = elim (segment == 0) [
  | true ↦ pure tt
  | false ↦ do
    let base = (pos segment -ℤ pos 1) *ℤ (sectors_per_segment * sector_size)
    this_extra ← extract_word (base +ℤ pos extra_bytes)
    throw_if (not (this_extra == extra)) (fs_error einval)
    following ← extract_word (base +ℤ pos next_segment)
    throw_if (ltb totseg following) (fs_error einval)
    check_segments fuel totseg extra following
]

-- `/` of an `int` that may be negative rounds towards zero.
unfoldable pub quotient : ℤ → ℕ → ℤ
quotient (pos n) k = pos (n / k)
quotient (negsuc n) k = pos 0 -ℤ pos (suc n / k)

abbrev pub session_end : {D A : Type 0} → Outcome (Session D) A → Outcome (Cache D) (A × List Entry)
session_end (done a s) = done (a, s.tracker.moves) s.cache
session_end (throw e s) = throw e s.cache

-- A tracker of its own for one operation; its moves are the second result. The pointer is a local
-- variable of the operation.
abbrev pub tracked :
    {D A : Type 0} → DirPtr → Action (Session D) A → Action (Cache D) (A × List Entry)
tracked dirp m c = session_end (m (record { cache = c; tracker = new_tracker; dirp = dirp }))

-- The cache, and a pointer of the caller that is passed by reference.
pub record Pointed (D : Type 0) : Type 0 where
  pub cache : Cache D
  pub dirp : DirPtr

abbrev pub pointed_with : {D A : Type 0} → Pointed D → Outcome (Cache D) A → Outcome (Pointed D) A
pointed_with p (done a c) = done a (record p { cache = c })
pointed_with p (throw e c) = throw e (record p { cache = c })

abbrev pub on_pointed : {D A : Type 0} → Action (Cache D) A → Action (Pointed D) A
on_pointed m p = pointed_with p (m p.cache)

abbrev pub pointed_end :
    {D A : Type 0} → Outcome (Session D) A → Outcome (Pointed D) (A × List Entry)
pointed_end (done a s) = done (a, s.tracker.moves) (record { cache = s.cache; dirp = s.dirp })
pointed_end (throw e s) = throw e (record { cache = s.cache; dirp = s.dirp })

-- A tracker of its own for an operation on the caller's pointer.
abbrev pub tracked_at : {D A : Type 0} → Action (Session D) A → Action (Pointed D) (A × List Entry)
tracked_at m p = pointed_end (m (record { cache = p.cache; tracker = new_tracker; dirp = p.dirp }))

unfoldable pub set_name : DirPtr → Rad50Name → Action Block (Unit {0})
set_name p name = do
  set_word_of p filename_words name.first
  set_word_of p (filename_words + 2) name.second
  set_word_of p (filename_words + 4) name.extension

-- The rest of `createEntry` once the free entry is found; `now` is the local time.
unfoldable pub create_at : ℕ → Rad50Name → Tm → DirPtr → Action Editing (Status DirPtr)
unfolding set_name
create_at entry_size name now dirp = do
  before ← on_block (prev dirp)
  crowded ← (if before_start before then pure false else on_block (has_status before e_tent))
  or_return
      (if crowded
        then (do
          len ← on_block (get_word dirp total_length_word)
          or_return (carve_free_block entry_size dirp (pos (len / 2))) λ _. do
            following ← on_block (next dirp)
            assert (not (after_end following))
            free ← on_block (has_status following e_mpty)
            assert free
            pure (ok following))
        else pure (ok dirp))
      λ place. or_return (insert_empty entry_size place) λ _. do
        on_block (set_word_of place status_word e_tent)
        on_block (set_name place name)
        stamped ← elim (time_to_dir_time now) [
          | Stamp.invalid ↦ pure 0
          | Stamp.stamp w ↦ pure w
          | Stamp.negative_shift ↦ fail undefined
        ]
        on_block (set_word_of place creation_date_word stamped)
        pure (ok place)

-- `makeEntryPermanent`
unfoldable pub make_entry_permanent : DirPtr → Action Block (Unit {0})
make_entry_permanent p = do
  tentative ← has_status p e_tent
  (if tentative then set_word_of p status_word e_perm else pure tt)

module _ {D : Type 0} (ds : DataSource D) where
  unfoldable pub new_directory : Action (Cache D) Directory
  unfolding check_segments
  new_directory = do
    c ← get_state
    let max_seg = quotient (pos c.sectors -ℤ pos first_segment_sector) sectors_per_segment
    dirblk ← get_block ds (pos first_segment_sector) 1
    totseg ← with_block dirblk (extract_word (pos total_segments))
    throw_if (leb_ℤ max_seg (pos totseg)) (fs_error einval)
    resize_block ds dirblk (pos (totseg * sectors_per_segment))
    extra ← with_block dirblk (extract_word (pos extra_bytes))
    fuel ← with_block dirblk fuel_of
    with_block dirblk (check_segments fuel totseg extra 1)
    pure (record { entry_size = entry_length + extra; dirblk = dirblk })

  module _ (dir : Directory) where
    -- `moves` is what the caller's vector holds before and, on success, after the call. A size is
    -- not negative; `growEntry` takes it as an `int`.
    unfoldable pub truncate : ℕ → List Entry → Action (Pointed D) (Status (List Entry))
    truncate bytes moves = do
      p ← get_state
      let new_size = (bytes + sector_size - 1) / sector_size
      old_size ← on_pointed (with_block dir.dirblk (get_word p.dirp total_length_word))
      (if new_size == old_size then pure (ok moves) else (do
        (result, got) ← tracked_at (
            if ltb new_size old_size
            then edit dir.dirblk (shrink_entry dir.entry_size p.dirp new_size)
            else grow_entry ds dir.dirblk dir.entry_size p.dirp (as_int new_size))
        pure (elim result [ ok _ ↦ ok got | err e ↦ err e ])))

    unfoldable pub remove_entry : Text → List Entry → Action (Cache D) (Status (List Entry))
    remove_entry name moves = or_return (with_block dir.dirblk (get_dir_pointer_named name)) λ dirp.
        do
          with_block dir.dirblk (set_word_of dirp status_word e_mpty)
          with_block dir.dirblk (clear_name dirp)
          (_, got) ←
              tracked dirp (edit dir.dirblk (coalesce_neighboring_free_blocks dir.entry_size dirp))
          pure (ok got)

    unfoldable pub rename : Text → Text → Action (Cache D) (Status (Unit {0}))
    unfolding set_name
    rename old_name new_name = elim (parse_filename old_name) [
      | none ↦ pure (err einval)
      | some old_rad50 ↦ elim (parse_filename new_name) [
        | none ↦ pure (err einval)
        | some new_rad50 ↦ do
          oldp ← with_block dir.dirblk (get_dir_pointer old_rad50)
          _ ← with_block dir.dirblk (get_dir_pointer new_rad50)
          (if after_end oldp
              then pure (err enoent)
              else (do with_block dir.dirblk (set_name oldp new_rad50); sync ds; pure (ok tt)))
      ]
    ]

    -- The tracker of the operation ends with it: `moves` comes back as it was given.
    unfoldable pub create_entry :
        Text → Tm → List Entry → Action (Cache D) (Status (DirPtr × List Entry))
    unfolding create_at
    create_entry name now moves = elim (parse_filename name) [
      | none ↦ pure (err einval)
      | some rad50_name ↦ do
        dirp ← with_block dir.dirblk find_largest_free_block
        (if after_end dirp then pure (err enospc) else (do
          (result, _) ←
              tracked dirp (edit dir.dirblk (create_at dir.entry_size rad50_name now dirp))
          pure (elim result [ ok p ↦ ok (p, moves) | err e ↦ err e ])))
    ]
