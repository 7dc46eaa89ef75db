-- ===== src/Directory/Space.antt =====
-- fslib/Directory.cpp: free space carved, joined, and taken or given back by a file.
use rt11fs.Base.{
  ℕ, zero, suc, ◌+◌, List, [], ◌∷◌, Bool, true, false, ◌&&◌, ltb, ◌==◌, if◌then◌else◌,
}
use rt11fs.Base.{
  einval, enospc, undefined, no_fuel, Status, ok, err, Outcome, done, throw, Action, pure, fail,
  ◌>>=◌, ◌>>◌, get_state, put_state, assert, or_return,
}
use rt11fs.Base.Int.{ℤ, pos, ◌+ℤ◌, ◌-ℤ◌, ltb_ℤ, leb_ℤ, eq_ℤ}
use rt11fs.DataSource.{DataSource}
use rt11fs.Block.{Block, copy_from_other_block, sector_size}
use rt11fs.BlockCache.{Cache, get_block, put_block, with_block}
use rt11fs.DirConst.{e_mpty, status_word, filename_words, total_length_word}
use rt11fs.DirPtr.{
  DirPtr, before_start, after_end, get_word, set_word_of, inc_index, has_status, next, prev,
  fuel_of,
}
use rt11fs.DirChangeTracker.{Tracker, Editing, on_block}
use rt11fs.Directory.Scan.{find_largest_free_block, get_dir_pointer}
use rt11fs.Directory.Segment.{
  as_word, insert_empty_at, delete_empty_at, clear_name, clear_rest, move_entry_across_segments,
}

-- An entry goes to another segment at most once for each segment: the bytes of the block are
-- more than enough fuel.
unfoldable pub insert_empty : ℕ → DirPtr → Action Editing (Status (Unit {0}))
unfolding insert_empty_at
insert_empty entry_size dirp = do fuel ← on_block fuel_of; insert_empty_at fuel entry_size dirp

-- The result is the number of entries inserted.
unfoldable pub carve_free_block : ℕ → DirPtr → ℤ → Action Editing (Status ℕ)
carve_free_block entry_size dirp size = do
  len ← on_block (get_word dirp total_length_word)
  (if ltb_ℤ (pos len) size
      then pure (err einval)
      else if ltb_ℤ size (pos len)
      then (do
        following ← on_block (next dirp)
        or_return (insert_empty entry_size following) λ _. do
          len' ← on_block (get_word dirp total_length_word)
          let delta = pos len' -ℤ size
          on_block (set_word_of dirp total_length_word (as_word (pos len' -ℤ delta)))
          on_block (set_word_of following total_length_word (as_word delta))
          pure (ok 1))
      else pure (ok 0))

-- The loop back to the first of the free entries.
unfoldable pub first_free : ℕ → DirPtr → Action Block DirPtr
first_free zero first = fail no_fuel
first_free (suc fuel) first = prev first >>= λ p. elim (before_start p) [
  | true ↦ pure first
  | false ↦
      has_status p e_mpty >>= λ free. elim free [ true ↦ first_free fuel p | false ↦ pure first ]
]

-- The loop that joins what follows `first` to it.
unfoldable pub join_free : ℕ → ℕ → DirPtr → Action Editing (Unit {0})
join_free zero entry_size first = fail no_fuel
join_free (suc fuel) entry_size first = on_block (next first) >>= λ following.
    elim (after_end following) [
      | true ↦ pure tt
      | false ↦ on_block (has_status following e_mpty) >>= λ free. elim free [
        | false ↦ pure tt
        | true ↦ do
          len ← on_block (get_word first total_length_word)
          more ← on_block (get_word following total_length_word)
          on_block (set_word_of first total_length_word (as_word (pos (len + more))))
          on_block (set_word_of following total_length_word 0)
          delete_empty_at entry_size following
          join_free fuel entry_size first
      ]
    ]

unfoldable pub coalesce_neighboring_free_blocks : ℕ → DirPtr → Action Editing (Unit {0})
unfolding join_free first_free
coalesce_neighboring_free_blocks entry_size p = do
  free ← on_block (has_status p e_mpty)
  (if free
      then (do
        fuel ← on_block fuel_of
        first ← on_block (first_free fuel p)
        join_free fuel entry_size first)
      else pure tt)

unfoldable pub shrink_entry : ℕ → DirPtr → ℕ → Action Editing (Status (Unit {0}))
shrink_entry entry_size dirp new_size = do
  nextp ← on_block (next dirp)
  free ← on_block (has_status nextp e_mpty)
  or_return (if free then pure (ok tt) else insert_empty entry_size nextp) λ _. do
    len ← on_block (get_word dirp total_length_word)
    let delta = pos len -ℤ pos new_size
    assert (ltb_ℤ (pos 0) delta)
    on_block (set_word_of dirp total_length_word (as_word (pos new_size)))
    more ← on_block (get_word nextp total_length_word)
    on_block (set_word_of nextp total_length_word (as_word (pos more +ℤ delta)))
    pure (ok tt)

-- The cache of the volume, the tracker of the operation at work, and the caller's pointer to the
-- entry, which `growEntry` takes by reference.
pub record Session (D : Type 0) : Type 0 where
  pub cache : Cache D
  pub tracker : Tracker
  pub dirp : DirPtr

-- The tracker and the blocks after an edit of one block, the others staying.
abbrev pub edited : {A : Type 0} → List Block → Outcome Editing A → Outcome (List Block × Tracker) A
edited rest (done a s) = done a (s.block ∷ rest, s.tracker)
edited rest (throw e s) = throw e (s.block ∷ rest, s.tracker)

abbrev pub kept :
    {A : Type 0} → Block → Outcome (List Block × Tracker) A → Outcome (List Block × Tracker) A
kept b (done a (bs, t)) = done a (b ∷ bs, t)
kept b (throw e (bs, t)) = throw e (b ∷ bs, t)

-- `dirblk` is a block of the cache: edits of the directory are edits of that block in place.
unfoldable pub edit_at :
    {A : Type 0} → ℤ → Action Editing A → List Block → Tracker → Outcome (List Block × Tracker) A
edit_at bp m [] t = throw undefined ([], t)
edit_at bp m (b ∷ rest) t =
    if eq_ℤ b.sector bp
    then edited rest (m (record { block = b; tracker = t }))
    else kept b (edit_at bp m rest t)

abbrev pub session_with :
    {D A : Type 0} → Session D → Outcome (List Block × Tracker) A → Outcome (Session D) A
session_with s (done a (bs, t)) =
    done a (record s { cache = record s.cache { blocks = bs }; tracker = t })
session_with s (throw e (bs, t)) =
    throw e (record s { cache = record s.cache { blocks = bs }; tracker = t })

unfoldable pub edit : {D A : Type 0} → ℤ → Action Editing A → Action (Session D) A
unfolding edit_at
edit bp m s = session_with s (edit_at bp m s.cache.blocks s.tracker)

abbrev pub session_of : {D A : Type 0} → Session D → Outcome (Cache D) A → Outcome (Session D) A
session_of s (done a c) = done a (record s { cache = c })
session_of s (throw e c) = throw e (record s { cache = c })

abbrev pub on_cache : {D A : Type 0} → Action (Cache D) A → Action (Session D) A
on_cache m s = session_of s (m s.cache)

-- An assignment to the caller's pointer.
abbrev pub set_dirp : {D : Type 0} → DirPtr → Action (Session D) (Unit {0})
set_dirp p = do s ← get_state; put_state (record s { dirp = p })

module _ {D : Type 0} (ds : DataSource D) where
  -- The loop that copies the sectors of a file, `count` of them being left.
  unfoldable pub copy_sectors : ℕ → ℤ → ℤ → Action (Cache D) (Unit {0})
  copy_sectors zero src dst = pure tt
  copy_sectors (suc count) src dst = do
    src_blk ← get_block ds src 1
    dst_blk ← get_block ds dst 1
    source ← with_block src_blk get_state
    with_block dst_blk (copy_from_other_block source (pos 0) (pos 0) (pos sector_size))
    put_block src_blk
    put_block dst_blk
    copy_sectors count (src +ℤ pos 1) (dst +ℤ pos 1)

  -- The first branch of `growEntry`: the free entry behind the file gives the space.
  unfoldable pub grow_in_place : ℕ → DirPtr → DirPtr → ℤ → Action Editing (Unit {0})
  grow_in_place entry_size dirp following new_size = do
    len ← on_block (get_word dirp total_length_word)
    let delta = new_size -ℤ pos len
    on_block (set_word_of dirp total_length_word (as_word new_size))
    free ← on_block (get_word following total_length_word)
    on_block (set_word_of following total_length_word (as_word (pos free -ℤ delta)))
    left ← on_block (get_word following total_length_word)
    (if left == 0 then delete_empty_at entry_size following else pure tt)

  -- Whether the entry behind the file is free and has room.
  unfoldable pub has_room_behind : DirPtr → DirPtr → ℤ → Action Block Bool
  has_room_behind dirp following new_size = has_status following e_mpty >>= λ free. elim free [
    | false ↦ pure false
    | true ↦ do
      len ← get_word dirp total_length_word
      more ← get_word following total_length_word
      pure (leb_ℤ new_size (pos (len + more)))
  ]

  -- The second branch of `growEntry`: the file moves to the largest free entry.
  unfoldable pub grow_by_move : ℤ → ℕ → DirPtr → ℤ → Action (Session D) (Status (Unit {0}))
  unfolding copy_sectors
  grow_by_move dirblk entry_size dirp new_size = do
    newp ← edit dirblk (on_block find_largest_free_block)
    small ←
        (if after_end newp
          then pure true
          else edit dirblk (
              on_block
                (get_word newp total_length_word >>= λ len. pure (ltb_ℤ (pos len) new_size))))
    (if small then pure (err enospc) else (do
      first ← edit dirblk (on_block (get_word dirp filename_words))
      second ← edit dirblk (on_block (get_word dirp (filename_words + 2)))
      extension ← edit dirblk (on_block (get_word dirp (filename_words + 4)))
      or_return (edit dirblk (carve_free_block entry_size newp new_size)) λ inserted. do
        let shifted = (inserted == 1) && eq_ℤ newp.segment dirp.segment && ltb newp.index dirp.index
        let old = if shifted then inc_index dirp else dirp
        set_dirp old
        count ← edit dirblk (on_block (get_word old total_length_word))
        on_cache (copy_sectors count old.datasec newp.datasec)
        edit dirblk (move_entry_across_segments entry_size old newp)
        edit dirblk (on_block (set_word_of newp total_length_word (as_word new_size)))
        edit dirblk (on_block (set_word_of old status_word e_mpty))
        edit dirblk (on_block (clear_name old))
        edit dirblk (on_block (clear_rest old))
        edit dirblk (coalesce_neighboring_free_blocks entry_size old)
        landed ← edit dirblk (
            on_block
              (get_dir_pointer (record { first = first; second = second; extension = extension })))
        set_dirp landed
        pure (ok tt)))

  -- `growEntry` of the entry at the caller's pointer.
  unfoldable pub grow_entry : ℤ → ℕ → DirPtr → ℤ → Action (Session D) (Status (Unit {0}))
  unfolding grow_by_move grow_in_place has_room_behind
  grow_entry dirblk entry_size dirp new_size = do
    following ← edit dirblk (on_block (next dirp))
    fits ← edit dirblk (on_block (has_room_behind dirp following new_size))
    (if fits
        then (do edit dirblk (grow_in_place entry_size dirp following new_size); pure (ok tt))
        else grow_by_move dirblk entry_size dirp new_size)
