-- ===== src/OpenFileTable/Invariant.antt =====
-- The operations on open files: each keeps the blocks of the cache in order, apart and of the size
-- that their sectors say, whatever it ends in.
use rt11fs.Base.{ℕ, zero, suc, List, [], Bool}
use rt11fs.Base.{
  Keeps, keeps_rules, Keeps-bind, Keeps-of_option, Status, ok, err, Outcome, done, throw, Action,
  state_of, pure, or_return, ◌>>=◌, ◌>>◌,
}
use rt11fs.Base.Int.{ℤ}
use rt11fs.Base.Text.{Text}
use rt11fs.DataSource.{DataSource, ReadsInFull}
use rt11fs.Block.Invariant.{copy_out-Keeps, copy_in-Keeps, zero_fill-Keeps}
use rt11fs.BlockCache.{Cache, with_block}
use rt11fs.BlockCache.Invariant.{
  IsWellFormed, with_block-Keeps, put_block-Keeps, get_block-Keeps, sync-Keeps,
}
use rt11fs.DirPtr.{DirPtr}
use rt11fs.DirPtr.Invariant.{get_word-Keeps}
use rt11fs.DirTime.{Tm}
use rt11fs.Directory.Invariant.{get_dir_pointer_named-Keeps}
use rt11fs.Directory.Scan.{get_dir_pointer_named}
use rt11fs.Directory.Operations.{Directory, Pointed, create_entry}
use rt11fs.Directory.Invariant.Space.{make_entry_permanent-Keeps}
use rt11fs.Directory.Invariant.Sessions.{PointsInto}
use rt11fs.Directory.Invariant.Volume.{truncate-Keeps, remove_entry-Keeps, create_entry-Keeps}
use rt11fs.OpenFileTable.{
  OpenFileEntry, Files, files_with, entry_end, on_entry, on_cache, change_files, apply_moves,
  entry_at, open_at, open_file, truncate_file, create_file, close_file, read_from, read_file,
  write_from, write_file, unlink,
}

abbrev pub HasCache : {D : Type 0} → Files D → Type 0
HasCache f = IsWellFormed f.cache

module _ {D : Type 0} where
  pub on_cache-Keeps :
      {A : Type 0} (m : Action (Cache D) A)
      → Keeps IsWellFormed m
      → Keeps (HasCache {D = D}) (on_cache m)
  on_cache-Keeps {A} m k = record { at = λ f h. step f (m f.cache) (k.at f.cache h) }
    where
      step :
          (f : Files D) (o : Outcome (Cache D) A)
          → IsWellFormed (state_of o)
          → HasCache (state_of (files_with f o))
      step f (done a c) h = h
      step f (throw e c) h = h

  on_entry-Keeps :
      {A : Type 0} (fd : ℕ) (e : OpenFileEntry) (m : Action (Pointed D) A)
      → Keeps PointsInto m
      → Keeps (HasCache {D = D}) (on_entry fd e m)
  on_entry-Keeps {A} fd e m k = record { at = λ f h. step f (m (begun f)) (k.at (begun f) h) }
    where
      begun : Files D → Pointed D
      begun f = record { cache = f.cache; dirp = e.dirp }

      step :
          (f : Files D) (o : Outcome (Pointed D) A)
          → PointsInto (state_of o)
          → HasCache (state_of (entry_end f fd e o))
      step f (done a p) h = h
      step f (throw x p) h = h

  change_files-Keeps :
      (g : List OpenFileEntry → List OpenFileEntry) → Keeps (HasCache {D = D}) (change_files g)
  change_files-Keeps g = record { at = λ f h. h }

  open_at-Keeps : (p : DirPtr) → Keeps (HasCache {D = D}) (open_at p)
  unfolding open_at
  open_at-Keeps p = record { at = λ f h. h }

  entry_at-Keeps : (fd : ℕ) → Keeps (HasCache {D = D}) (entry_at fd)
  entry_at-Keeps fd = record { at = λ f h. (Keeps-of_option {P = HasCache} _ _).at f h }

module _ {D : Type 0} (ds : DataSource D) (full : ReadsInFull ds) (dir : Directory) where
  ruleset files_rules = (
    keeps_rules, on_cache-Keeps, change_files-Keeps, open_at-Keeps, entry_at-Keeps,
    with_block-Keeps,
  )

  pub open_file-Keeps : (name : Text) → Keeps HasCache (open_file ds dir name)
  unfolding open_file
  open_file-Keeps name = search (files_rules, get_dir_pointer_named-Keeps) depth 8

  pub truncate_file-Keeps : (fd n : ℕ) → Keeps HasCache (truncate_file ds dir fd n)
  unfolding truncate_file
  truncate_file-Keeps fd n = search (files_rules, on_entry-Keeps, truncate-Keeps) depth 12

  created-Keeps :
      (name : Text) (now : Tm) (found : Status DirPtr)
      → Keeps HasCache (elim found [
        | ok dirp ↦ do fd ← open_at dirp; or_return (truncate_file ds dir fd 0) λ _. pure (ok fd)
        | err _ ↦
            or_return
              (on_cache (create_entry ds dir name now []))
              λ made. do change_files (apply_moves made.1); fd ← open_at made.0; pure (ok fd)
      ])
  created-Keeps name now (ok p) = search (files_rules, truncate_file-Keeps) depth 8
  created-Keeps name now (err e) = search (files_rules, create_entry-Keeps) depth 8

  pub create_file-Keeps : (name : Text) (now : Tm) → Keeps HasCache (create_file ds dir name now)
  unfolding create_file
  create_file-Keeps name now =
      Keeps-bind (on_cache (with_block dir.dirblk (get_dir_pointer_named name))) _
        (search (files_rules, get_dir_pointer_named-Keeps) depth 8) (created-Keeps name now)

  pub close_file-Keeps : (fd : ℕ) → Keeps HasCache (close_file ds dir fd)
  unfolding close_file
  close_file-Keeps fd = search (files_rules, make_entry_permanent-Keeps, sync-Keeps) depth 12

  read_from-Keeps :
      (fuel file_length : ℕ) (sector0 : ℤ) (left offset : ℕ)
      → Keeps IsWellFormed (read_from ds dir fuel file_length sector0 left offset)
  unfolding read_from
  read_from-Keeps zero file_length sector0 left offset = search keeps_rules
  read_from-Keeps (suc fuel) file_length sector0 left offset =
      search
        (
          keeps_rules,
          get_block-Keeps,
          with_block-Keeps,
          copy_out-Keeps,
          put_block-Keeps,
          read_from-Keeps fuel,
        )
        depth 12

  pub read_file-Keeps : (fd count offset : ℕ) → Keeps HasCache (read_file ds dir fd count offset)
  unfolding read_file
  read_file-Keeps fd count offset = search (files_rules, get_word-Keeps, read_from-Keeps) depth 12

  write_from-Keeps :
      (fuel : ℕ) (extend_file : Bool) (sector0 : ℤ) (buffer : List ℕ) (offset : ℕ)
      → Keeps IsWellFormed (write_from ds dir fuel extend_file sector0 buffer offset)
  unfolding write_from
  write_from-Keeps zero extend_file sector0 buffer offset = search keeps_rules
  write_from-Keeps (suc fuel) extend_file sector0 buffer offset =
      search
        (
          keeps_rules,
          get_block-Keeps,
          with_block-Keeps,
          copy_in-Keeps,
          zero_fill-Keeps,
          put_block-Keeps,
          write_from-Keeps fuel,
        )
        depth 16

  pub write_file-Keeps :
      (fd : ℕ) (buffer : List ℕ) (offset : ℕ) → Keeps HasCache (write_file ds dir fd buffer offset)
  unfolding write_file
  write_file-Keeps fd buffer offset =
      search (files_rules, get_word-Keeps, truncate_file-Keeps, write_from-Keeps) depth 16

  pub unlink-Keeps : (name : Text) → Keeps HasCache (unlink ds dir name)
  unfolding unlink
  unlink-Keeps name = search (files_rules, remove_entry-Keeps) depth 12
