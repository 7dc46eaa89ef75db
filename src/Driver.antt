-- ===== src/Driver.antt =====
-- rt11fs/rt11fs.cpp: the functions that FUSE calls, each of which hands its arguments to the file
-- system. FUSE is told to make one call at a time.
pub mod Exceptions
pub mod Invariant
pub mod Main
use rt11fs.Base.{ℕ, List, [], ◌∷◌, Bool}
use rt11fs.Base.{Status, ok, err, Action, pure, then_do, ◌>>=◌}
use rt11fs.Base.Text.{Text}
use rt11fs.DataSource.{DataSource}
use rt11fs.DirTime.{Tm}
use rt11fs.Directory.Scan.{StatVfs}
use rt11fs.Directory.Operations.{Directory}
use rt11fs.OpenFileTable.{Files}
use rt11fs.Callbacks.{Callback, call_stub}
use rt11fs.FileSystem.{
  Attributes, getattr, fgetattr, statfs_of, chmod, unlink_path, rename_path, readdir, open_path,
  create_path, release, read, write, ftruncate, fsync,
}

-- A call of FUSE, by the function of rt11fs.cpp; `fd` is `fi->fh`, `is_regular` the test of the mode
-- and `now` the local time. The last is a call of a callback that only has its stub. Sizes and offsets
-- are not negative: the kernel refuses those that are before it calls FUSE.
pub data Request : Type 0 where
  rt11_getattr rt11_fgetattr rt11_statfs rt11_unlink rt11_readdir rt11_open :
      (path : Text) → Request
  rt11_chmod : (path : Text) (mode : ℕ) → Request
  rt11_rename : (old_name new_name : Text) → Request
  rt11_opendir rt11_releasedir rt11_fsync : Request
  rt11_create : (path : Text) (is_regular : Bool) (now : Tm) → Request
  rt11_release : (fd : ℕ) → Request
  rt11_ftruncate : (fd size : ℕ) → Request
  rt11_read : (fd count offset : ℕ) → Request
  rt11_write : (fd : ℕ) (buffer : List ℕ) (offset : ℕ) → Request
  unimplemented : Callback → Request

-- What a call hands back.
pub data Reply : Type 0 where
  nothing : Reply
  attributes : Attributes → Reply
  volume : StatVfs → Reply
  names : List Text → Reply
  handle written : ℕ → Reply
  bytes : List ℕ → Reply

abbrev pub replied : {S A : Type 0} → (A → Reply) → Action S (Status A) → Action S (Status Reply)
replied f m s = then_do (m s) (λ r. pure (elim r [ ok a ↦ ok (f a) | err e ↦ err e ]))

module _ {D : Type 0} (ds : DataSource D) (dir : Directory) where
  unfoldable pub serve : Request → Action (Files D) (Status Reply)
  unfolding fgetattr chmod
  serve (rt11_getattr path) = replied attributes (getattr ds dir path)
  serve (rt11_fgetattr path) = replied attributes (fgetattr ds dir path)
  serve (rt11_statfs path) = replied volume (statfs_of ds dir path)
  serve (rt11_unlink path) = replied (λ _. nothing) (unlink_path ds dir path)
  serve (rt11_readdir path) = replied names (readdir ds dir path)
  serve (rt11_open path) = replied handle (open_path ds dir path)
  serve (rt11_chmod path mode) = replied (λ _. nothing) (chmod ds dir path mode)
  serve (rt11_rename old_name new_name) =
      replied (λ _. nothing) (rename_path ds dir old_name new_name)
  serve rt11_opendir = pure (ok nothing)
  serve rt11_releasedir = pure (ok nothing)
  serve rt11_fsync = replied (λ _. nothing) (fsync ds dir)
  serve (rt11_create path is_regular now) = replied handle (create_path ds dir path is_regular now)
  serve (rt11_release fd) = replied (λ _. nothing) (release ds dir fd)
  serve (rt11_ftruncate fd size) = replied (λ _. nothing) (ftruncate ds dir fd size)
  serve (rt11_read fd count offset) = replied bytes (read ds dir fd count offset)
  serve (rt11_write fd buffer offset) = replied written (write ds dir fd buffer offset)
  serve (unimplemented c) = pure (elim (call_stub c) [ ok _ ↦ ok nothing | err e ↦ err e ])

  -- Calls one after another, each on what the one before left, until one ends in a fault.
  unfoldable pub serve_all : List Request → Action (Files D) (List (Status Reply))
  unfolding serve
  serve_all [] = pure []
  serve_all (request ∷ requests) =
      serve request >>= λ reply. serve_all requests >>= λ replies. pure (reply ∷ replies)
