-- ===== src/Directory/Invariant/Volume.antt =====
-- The operations of the directory on the cache: each keeps its blocks in order, apart and of the
-- size that their sectors say.
use rt11fs.Base.{ℕ, zero, suc, ◌+◌, ◌*◌, inl, inr, List, ◌==◌, Option-cases, Bool-cases}
use rt11fs.Base.{
  KeepsIfDone, KeepsIfDone-bind, Keeps-KeepsIfDone, throw_if, fs_error, einval, Keeps-throw_if,
  Keeps, keeps_rules, Keeps-bind, pure, ◌>>=◌, ◌>>◌,
}
use rt11fs.Base.Int.{ℤ, pos, ◌-ℤ◌, leb_ℤ}
use rt11fs.Base.Text.{Text}
use rt11fs.DataSource.{DataSource, ReadsInFull}
use rt11fs.Block.{extract_word, Block}
use rt11fs.Block.Invariant.{extract_word-Keeps, get_state-Keeps, copy_from_other_block-Keeps}
use rt11fs.BlockCache.{with_block, get_block, resize_block}
use rt11fs.BlockCache.Invariant.{
  IsWellFormed, with_block-Keeps, put_block-Keeps, get_block-Keeps, sync-Keeps,
  resize_block-KeepsIfDone,
}
use rt11fs.DirConst.{
  extra_bytes, entry_length, total_segments, sectors_per_segment, first_segment_sector,
}
use rt11fs.DirPtr.{fuel_of, DirPtr}
use rt11fs.DirPtr.Invariant.{get_word-Keeps, next-Keeps, fuel_of-Keeps, writes_rules}
use rt11fs.DirTime.{Tm}
use rt11fs.DirChangeTracker.{Entry}
use rt11fs.FileName.{parse_filename}
use rt11fs.Directory.Space.{copy_sectors, grow_by_move, grow_entry}
use rt11fs.Directory.Operations.{
  Directory, check_segments, new_directory, quotient, truncate, remove_entry, rename, create_entry,
}
use rt11fs.Directory.Invariant.{scans_rules}
use rt11fs.Directory.Invariant.Edits.{
  clear_name-Keeps, clear_rest-Keeps, move_entry_across_segments-Keeps,
}
use rt11fs.Directory.Invariant.Space.{
  carve_free_block-Keeps, coalesce-Keeps, shrink_entry-Keeps, grow_in_place-Keeps, set_name-Keeps,
  create_at-Keeps, has_room_behind-Keeps,
}
use rt11fs.Directory.Invariant.Sessions.{
  HasCache, PointsInto, edit-Keeps, look-Keeps, on_cache-Keeps, set_dirp-Keeps, tracked-Keeps,
  on_pointed-Keeps, get_pointed-Keeps, tracked_at-Keeps,
}

module _ {D : Type 0} (ds : DataSource D) (full : ReadsInFull ds) where
  copy_sectors-Keeps :
      (count : ℕ) (src dst : ℤ) → Keeps IsWellFormed (copy_sectors ds count src dst)
  unfolding copy_sectors
  copy_sectors-Keeps zero src dst = search keeps_rules
  copy_sectors-Keeps (suc count) src dst = Keeps-bind _ _ (get_block-Keeps ds full src) λ src_blk.
      Keeps-bind _ _ (get_block-Keeps ds full dst) λ dst_blk.
        Keeps-bind _ _ (with_block-Keeps src_blk _ (λ _ _ _. get_state-Keeps)) λ source.
          Keeps-bind _ _
            (with_block-Keeps dst_blk _ (λ _ _ _. copy_from_other_block-Keeps source _ _ _))
            λ _. search (keeps_rules, put_block-Keeps, copy_sectors-Keeps count)

  ruleset volume_rules = (keeps_rules, look-Keeps, edit-Keeps)

  grow_by_move-Keeps :
      (dirblk : ℤ) (entry_size : ℕ) (p : DirPtr) (n : ℤ)
      → Keeps HasCache (grow_by_move ds dirblk entry_size p n)
  unfolding grow_by_move
  grow_by_move-Keeps dirblk entry_size p n =
      search
        (
          volume_rules, scans_rules, writes_rules, carve_free_block-Keeps, on_cache-Keeps,
          copy_sectors-Keeps, move_entry_across_segments-Keeps, clear_name-Keeps, clear_rest-Keeps,
          coalesce-Keeps, set_dirp-Keeps,
        )
        depth 44

  grow_entry-Keeps :
      (dirblk : ℤ) (entry_size : ℕ) (p : DirPtr) (n : ℤ)
      → Keeps HasCache (grow_entry ds dirblk entry_size p n)
  unfolding grow_entry
  grow_entry-Keeps dirblk entry_size p n =
      search
        (volume_rules, next-Keeps, has_room_behind-Keeps, grow_in_place-Keeps, grow_by_move-Keeps)
        depth 12

  module _ (dir : Directory) where
    pub truncate-Keeps : (n : ℕ) (moves : List Entry) → Keeps PointsInto (truncate ds dir n moves)
    unfolding truncate
    truncate-Keeps n moves =
        search
          (
            keeps_rules, get_pointed-Keeps, on_pointed-Keeps, with_block-Keeps, get_word-Keeps,
            tracked_at-Keeps, volume_rules, shrink_entry-Keeps, grow_entry-Keeps,
          )
          depth 16

    pub remove_entry-Keeps :
        (name : Text) (moves : List Entry) → Keeps IsWellFormed (remove_entry ds dir name moves)
    unfolding remove_entry
    remove_entry-Keeps name moves =
        search
          (
            keeps_rules, with_block-Keeps, scans_rules, writes_rules, clear_name-Keeps,
            tracked-Keeps, edit-Keeps, coalesce-Keeps,
          )
          depth 16

    pub rename-Keeps :
        (old_name new_name : Text) → Keeps IsWellFormed (rename ds dir old_name new_name)
    unfolding rename
    rename-Keeps old_name new_name = elim (Option-cases (parse_filename old_name)) [
      | inl e ↦ rw (rename, e) (search keeps_rules)
      | inr (old, e) ↦ elim (Option-cases (parse_filename new_name)) [
        | inl e' ↦ rw (rename, e, e') (search keeps_rules)
        | inr (new, e') ↦
            rw (rename, e, e')
              (search (keeps_rules, with_block-Keeps, scans_rules, set_name-Keeps, sync-Keeps) depth
                16)
      ]
    ]

    pub create_entry-Keeps :
        (name : Text) (now : Tm) (moves : List Entry)
        → Keeps IsWellFormed (create_entry ds dir name now moves)
    unfolding create_entry
    create_entry-Keeps name now moves = elim (Option-cases (parse_filename name)) [
      | inl e ↦ rw (create_entry, e) (search keeps_rules)
      | inr (rad50, e) ↦
          rw (create_entry, e)
            (search
              (
                keeps_rules, with_block-Keeps, scans_rules, tracked-Keeps, edit-Keeps,
                create_at-Keeps,
              )
              depth 16)
    ]

  check_segments-Keeps :
      (P : Block → Type 0) (fuel totseg extra segment : ℕ)
      → Keeps P (check_segments fuel totseg extra segment)
  unfolding check_segments
  check_segments-Keeps P zero totseg extra segment = search keeps_rules
  check_segments-Keeps P (suc fuel) totseg extra segment = elim (Bool-cases (segment == 0)) [
    | inl e ↦ rw (check_segments, e) (search keeps_rules)
    | inr e ↦
        rw (check_segments, e)
          (search (keeps_rules, extract_word-Keeps, check_segments-Keeps P fuel) depth 12)
  ]

  checked-Keeps :
      (dirblk : ℤ) (totseg : ℕ)
      → Keeps {A = Directory} (IsWellFormed {D = D}) (do
        extra ← with_block dirblk (extract_word (pos extra_bytes))
        fuel ← with_block dirblk fuel_of
        with_block dirblk (check_segments fuel totseg extra 1)
        pure (record { entry_size = entry_length + extra; dirblk = dirblk }))
  checked-Keeps dirblk totseg =
      search
        (keeps_rules, with_block-Keeps, extract_word-Keeps, fuel_of-Keeps, check_segments-Keeps)
        depth 12

  -- The constructor, if it does not throw.
  pub new_directory-KeepsIfDone : KeepsIfDone IsWellFormed (new_directory ds)
  unfolding new_directory
  new_directory-KeepsIfDone = record { at = λ c h. (built c.sectors).at c h }
    where
      built :
          (sectors : ℕ)
          → KeepsIfDone {A = Directory} (IsWellFormed {D = D}) (do
            let max_seg = quotient (pos sectors -ℤ pos first_segment_sector) sectors_per_segment
            dirblk ← get_block ds (pos first_segment_sector) 1
            totseg ← with_block dirblk (extract_word (pos total_segments))
            throw_if (leb_ℤ max_seg (pos totseg)) (fs_error einval)
            resize_block ds dirblk (pos (totseg * sectors_per_segment))
            extra ← with_block dirblk (extract_word (pos extra_bytes))
            fuel ← with_block dirblk fuel_of
            with_block dirblk (check_segments fuel totseg extra 1)
            pure (record { entry_size = entry_length + extra; dirblk = dirblk }))
      built sectors =
          search
            (
              KeepsIfDone-bind, Keeps-KeepsIfDone, resize_block-KeepsIfDone, get_block-Keeps,
              with_block-Keeps, extract_word-Keeps, Keeps-throw_if, checked-Keeps,
            )
            depth 16
