-- ===== src/FileSystem.antt =====
-- fslib/FileSystem.cpp: the calls of FUSE. The messages on cerr are left out.
pub mod Paths
pub mod Listing
pub mod Lsdir
pub mod Truncation
use rt11fs.Base.{
  ℕ, bit_and, bit_or, Option, none, some, List, [], ◌∷◌, Bool, false, ◌==◌, if◌then◌else◌,
}
use rt11fs.Base.{
  einval, enoent, fs_error, out_of_range, Status, ok, err, Outcome, done, throw, Action, pure,
  ◌>>=◌, ◌>>◌, get_state, or_return,
}
use rt11fs.Base.Text.{Text, find}
use rt11fs.DataSource.{DataSource}
use rt11fs.FileDataSource.{Descriptor, file_source}
use rt11fs.BlockCache.{Cache, new_cache, sync, with_block}
use rt11fs.DirConst.{e_read, e_perm}
use rt11fs.DirPtr.{fuel_of}
use rt11fs.DirTime.{Tm}
use rt11fs.Directory.Scan.{StatVfs, get_ent, start_scan, list_names, statfs}
use rt11fs.Directory.Operations.{Directory, new_directory, rename}
use rt11fs.OpenFileTable.{
  Files, on_cache, open_file, create_file, close_file, read_file, write_file, truncate_file, unlink,
}

abbrev pub slash : ℕ
slash = b'/'

abbrev pub is_root : Text → Bool
is_root [] = false
is_root (c ∷ []) = c == slash
is_root (c ∷ d ∷ s) = false

-- The tests for `path == "/"` and for a slash from index 1 on, once the path starts with a slash.
abbrev pub after_slash : Text → Status Text
after_slash [] = err enoent
after_slash (c ∷ s) = elim (find (c ∷ s) slash) [ some i ↦ err enoent | none ↦ ok (c ∷ s) ]

-- `ok` is the changed path, an `err` leaves it as it was.
unfoldable pub validate_path : Text → Status Text
unfolding find
validate_path [] = err einval
validate_path (c ∷ s) = if c == slash then after_slash s else err einval

-- The exceptions that a call may end in are caught; what is no exception stays.
abbrev pub caught : {S A : Type 0} → Outcome S (Status A) → Outcome S (Status A)
caught (done r s) = done r s
caught (throw (fs_error e) s) = done (err e) s
caught (throw out_of_range s) = done (err einval) s
caught (throw f s) = throw f s

abbrev pub wrapper : {S A : Type 0} → Action S (Status A) → Action S (Status A)
wrapper fn s = caught (fn s)

abbrev pub with_path : {S A : Type 0} → Text → (Text → Action S (Status A)) → Action S (Status A)
with_path path f = elim (validate_path path) [ ok p ↦ f p | err e ↦ pure (err e) ]

-- The members of `struct stat` that `getattr` sets, without the bits of the file type.
pub data Attributes : Type 0 where
  folder : Attributes
  regular : (perm size : ℕ) (mtime : Tm) → Attributes

module _ {D : Type 0} (ds : DataSource D) where
  -- The constructor once the volume is open: the cache, the directory and an empty table.
  unfoldable pub mount : D → Status (Outcome (Cache D) Directory)
  mount d = elim (new_cache ds d) [ err e ↦ err e | ok c ↦ ok (new_directory ds c) ]

-- The constructor; `open_image` is `open` of the operating system, `none` its result -1. `err` is an
-- exception that it throws.
unfoldable pub new_file_system :
    {S : Type 0} → (Text → Option S) → Descriptor S → Text → Status (Outcome (Cache S) Directory)
new_file_system open_image fd name = elim (open_image name) [
  | none ↦ err enoent
  | some s ↦ mount (file_source fd) s
]

module _ {D : Type 0} (ds : DataSource D) where
  module _ (dir : Directory) where
    unfoldable pub getattr : Text → Action (Files D) (Status Attributes)
    getattr path = wrapper (
        if is_root path
        then pure (ok folder)
        else with_path path λ p. or_return (on_cache (with_block dir.dirblk (get_ent p))) λ ent.
          pure (
            ok (
              regular (if bit_and ent.status e_read == 0 then bit_or 0o444 0o222 else 0o444)
                ent.length_in_bytes ent.create_tm)))

    unfoldable pub fgetattr : Text → Action (Files D) (Status Attributes)
    unfolding getattr
    fgetattr path = getattr path

    unfoldable pub statfs_of : Text → Action (Files D) (Status StatVfs)
    statfs_of path = wrapper (
        if is_root path
        then (do
          f ← get_state
          v ← on_cache (with_block dir.dirblk (statfs f.cache.sectors))
          pure (ok v))
        else pure (err enoent))

    unfoldable pub chmod : Text → ℕ → Action (Files D) (Status (Unit {0}))
    chmod path mode = pure (ok tt)

    -- The result of `validatePath` is not looked at.
    unfoldable pub unlink_path : Text → Action (Files D) (Status (Unit {0}))
    unlink_path path =
        wrapper (unlink ds dir (elim (validate_path path) [ ok p ↦ p | err e ↦ path ]))

    unfoldable pub rename_path : Text → Text → Action (Files D) (Status (Unit {0}))
    rename_path old_name new_name =
        wrapper
          (with_path old_name λ old. with_path new_name λ new. on_cache (rename ds dir old new))

    -- The names handed to the filler, behind those of the directory itself and its parent.
    unfoldable pub readdir : Text → Action (Files D) (Status (List Text))
    readdir path = wrapper (
        if is_root path
        then (do
          start ← on_cache (with_block dir.dirblk start_scan)
          fuel ← on_cache (with_block dir.dirblk fuel_of)
          names ← on_cache (with_block dir.dirblk (list_names fuel e_perm start))
          pure (ok names))
        else pure (err enoent))

    -- `open`; the result is what is stored into `fi->fh`.
    unfoldable pub open_path : Text → Action (Files D) (Status ℕ)
    open_path path = wrapper (with_path path (open_file ds dir))

    -- `create`; `is_regular` is the test of the mode.
    unfoldable pub create_path : Text → Bool → Tm → Action (Files D) (Status ℕ)
    create_path path is_regular now =
        wrapper
          (with_path path λ p. if is_regular then create_file ds dir p now else pure (err einval))

    unfoldable pub release : ℕ → Action (Files D) (Status (Unit {0}))
    release fd = wrapper (close_file ds dir fd)

    unfoldable pub read : ℕ → ℕ → ℕ → Action (Files D) (Status (List ℕ))
    read fd count offset = wrapper (read_file ds dir fd count offset)

    unfoldable pub write : ℕ → List ℕ → ℕ → Action (Files D) (Status ℕ)
    write fd buffer offset = wrapper (write_file ds dir fd buffer offset)

    unfoldable pub ftruncate : ℕ → ℕ → Action (Files D) (Status (Unit {0}))
    ftruncate fd size = wrapper (truncate_file ds dir fd size)

    unfoldable pub fsync : Action (Files D) (Status (Unit {0}))
    fsync = wrapper (do on_cache (sync ds); pure (ok tt))
