-- ===== src/Driver/Invariant.antt =====
-- What every call of FUSE keeps, in any order and with any arguments.
use rt11fs.Base.{ℕ, ◌≡◌, ◌/◌, List, [], ◌∷◌, Bool}
use rt11fs.Base.{
  IfDone, Keeps, keeps_rules, Keeps-bind, Keeps-get_state, Fault, fs_error, out_of_range, Status,
  ok, err, Outcome, done, throw, Action, state_of, pure, then_do,
}
use rt11fs.Base.Text.{Text}
use rt11fs.DataSource.{DataSource, ReadsInFull}
use rt11fs.DirPtr.Invariant.{fuel_of-Keeps}
use rt11fs.DirTime.{Tm}
use rt11fs.BlockCache.Invariant.{IsWellFormed, with_block-Keeps, sync-Keeps}
use rt11fs.Directory.Invariant.{get_ent-Keeps, statfs-Keeps, start_scan-Keeps, list_names-Keeps}
use rt11fs.Directory.Operations.{Directory, new_directory}
use rt11fs.Base.Int.{pos}
use rt11fs.Block.{sector_size}
use rt11fs.BlockCache.{Cache, new_cache, from_stat}
use rt11fs.Directory.Invariant.Volume.{rename-Keeps, new_directory-KeepsIfDone}
use rt11fs.OpenFileTable.{Files}
use rt11fs.OpenFileTable.Invariant.{
  HasCache, on_cache-Keeps, open_file-Keeps, create_file-Keeps, close_file-Keeps, read_file-Keeps,
  write_file-Keeps, truncate_file-Keeps, unlink-Keeps,
}
use rt11fs.FileSystem.{
  wrapper, caught, with_path, validate_path, getattr, fgetattr, statfs_of, chmod, unlink_path,
  rename_path, readdir, open_path, create_path, release, read, write, ftruncate, fsync, mount,
}
use rt11fs.Driver.{Request, Reply, replied, serve, serve_all}

module _ {S A : Type 0} {P : S → Type 0} where
  wrapper-Keeps : (m : Action S (Status A)) → Keeps P m → Keeps P (wrapper m)
  wrapper-Keeps m k = record { at = λ s h. step (m s) (k.at s h) }
    where
      step : (o : Outcome S (Status A)) → P (state_of o) → P (state_of (caught o))
      step (done r s) h = h
      step (throw (fs_error e) s) h = h
      step (throw out_of_range s) h = h
      step (throw Fault.assertion s) h = h
      step (throw Fault.undefined s) h = h
      step (throw Fault.no_fuel s) h = h

  with_path-Keeps :
      (path : Text) (f : Text → Action S (Status A))
      → ((p : Text) → Keeps P (f p))
      → Keeps P (with_path path f)
  with_path-Keeps path f k = by_path (validate_path path)
    where
      by_path : (r : Status Text) → Keeps P (elim r [ ok p ↦ f p | err e ↦ pure (err e) ])
      by_path (ok p) = k p
      by_path (err e) = record { at = λ s h. h }

  replied-Keeps : (f : A → Reply) (m : Action S (Status A)) → Keeps P m → Keeps P (replied f m)
  replied-Keeps f m k = record { at = λ s h. step (m s) (k.at s h) }
    where
      step :
          (o : Outcome S (Status A))
          → P (state_of o)
          → P (state_of (then_do o (λ r. pure (elim r [ ok a ↦ ok (f a) | err e ↦ err e ]))))
      step (done r s) h = h
      step (throw e s) h = h

module _ {D : Type 0} (ds : DataSource D) (full : ReadsInFull ds) (dir : Directory) where
  ruleset calls_rules =
      (keeps_rules, wrapper-Keeps, with_path-Keeps, on_cache-Keeps, with_block-Keeps)

  getattr-Keeps : (path : Text) → Keeps HasCache (getattr ds dir path)
  unfolding getattr
  getattr-Keeps path = search (calls_rules, get_ent-Keeps) depth 12

  statfs_of-Keeps : (path : Text) → Keeps HasCache (statfs_of ds dir path)
  unfolding statfs_of
  statfs_of-Keeps path = search (calls_rules, Keeps-get_state, statfs-Keeps) depth 12

  unlink_path-Keeps : (path : Text) → Keeps HasCache (unlink_path ds dir path)
  unfolding unlink_path
  unlink_path-Keeps path = search (calls_rules, unlink-Keeps) depth 12

  rename_path-Keeps :
      (old_name new_name : Text) → Keeps HasCache (rename_path ds dir old_name new_name)
  unfolding rename_path
  rename_path-Keeps old_name new_name = search (calls_rules, rename-Keeps) depth 12

  readdir-Keeps : (path : Text) → Keeps HasCache (readdir ds dir path)
  unfolding readdir
  readdir-Keeps path =
      search (calls_rules, start_scan-Keeps, fuel_of-Keeps, list_names-Keeps) depth 12

  open_path-Keeps : (path : Text) → Keeps HasCache (open_path ds dir path)
  unfolding open_path
  open_path-Keeps path = search (calls_rules, open_file-Keeps)

  create_path-Keeps :
      (path : Text) (is_regular : Bool) (now : Tm)
      → Keeps HasCache (create_path ds dir path is_regular now)
  unfolding create_path
  create_path-Keeps path is_regular now = search (calls_rules, create_file-Keeps)

  release-Keeps : (fd : ℕ) → Keeps HasCache (release ds dir fd)
  unfolding release
  release-Keeps fd = search (calls_rules, close_file-Keeps)

  read-Keeps : (fd count offset : ℕ) → Keeps HasCache (read ds dir fd count offset)
  unfolding read
  read-Keeps fd count offset = search (calls_rules, read_file-Keeps)

  write-Keeps :
      (fd : ℕ) (buffer : List ℕ) (offset : ℕ) → Keeps HasCache (write ds dir fd buffer offset)
  unfolding write
  write-Keeps fd buffer offset = search (calls_rules, write_file-Keeps)

  ftruncate-Keeps : (fd size : ℕ) → Keeps HasCache (ftruncate ds dir fd size)
  unfolding ftruncate
  ftruncate-Keeps fd size = search (calls_rules, truncate_file-Keeps)

  fsync-Keeps : Keeps HasCache (fsync ds dir)
  unfolding fsync
  fsync-Keeps = search (calls_rules, sync-Keeps)

  serve-Keeps : (request : Request) → Keeps HasCache (serve ds dir request)
  unfolding serve fgetattr chmod
  serve-Keeps (Request.rt11_getattr path) = search (replied-Keeps, getattr-Keeps)
  serve-Keeps (Request.rt11_fgetattr path) = search (replied-Keeps, getattr-Keeps)
  serve-Keeps (Request.rt11_statfs path) = search (replied-Keeps, statfs_of-Keeps)
  serve-Keeps (Request.rt11_unlink path) = search (replied-Keeps, unlink_path-Keeps)
  serve-Keeps (Request.rt11_readdir path) = search (replied-Keeps, readdir-Keeps)
  serve-Keeps (Request.rt11_open path) = search (replied-Keeps, open_path-Keeps)
  serve-Keeps (Request.rt11_chmod path mode) = search (replied-Keeps, keeps_rules)
  serve-Keeps (Request.rt11_rename old_name new_name) = search (replied-Keeps, rename_path-Keeps)
  serve-Keeps Request.rt11_opendir = search keeps_rules
  serve-Keeps Request.rt11_releasedir = search keeps_rules
  serve-Keeps Request.rt11_fsync = search (replied-Keeps, fsync-Keeps)
  serve-Keeps (Request.rt11_create path is_regular now) = search (replied-Keeps, create_path-Keeps)
  serve-Keeps (Request.rt11_release fd) = search (replied-Keeps, release-Keeps)
  serve-Keeps (Request.rt11_ftruncate fd size) = search (replied-Keeps, ftruncate-Keeps)
  serve-Keeps (Request.rt11_read fd count offset) = search (replied-Keeps, read-Keeps)
  serve-Keeps (Request.rt11_write fd buffer offset) = search (replied-Keeps, write-Keeps)
  serve-Keeps (Request.unimplemented c) = search keeps_rules

  served-Keeps : (requests : List Request) → Keeps HasCache (serve_all ds dir requests)
  unfolding serve_all
  served-Keeps [] = search keeps_rules
  served-Keeps (request ∷ requests) =
      Keeps-bind (serve ds dir request) _ (serve-Keeps request) λ reply.
        Keeps-bind (serve_all ds dir requests) _ (served-Keeps requests)
          λ replies. search keeps_rules

-- Any sequence of calls of FUSE, whatever it ends in, keeps the blocks of the cache in
-- ascending order, apart, and each with as many bytes as its sectors say, provided that a read
-- of the data source that does not fail gives all the bytes that were asked for. The calls are
-- those with sizes and offsets that are not negative, and the code is taken as far as no `int`
-- of it exceeds 32 bits other than the size that `growEntry` is handed, so for sectors below 2
-- ^ 22.
pub serve_all-IsWellFormed :
    {D : Type 0} (ds : DataSource D) (dir : Directory) (requests : List Request) (f : Files D)
    → ReadsInFull ds
    → IsWellFormed f.cache
    → IsWellFormed (state_of (serve_all ds dir requests f)).cache
serve_all-IsWellFormed ds dir requests f full h = (served-Keeps ds full dir requests).at f h

-- On a volume that was opened without an error, and whatever is stored on it, the blocks of the
-- cache are in ascending order, apart, and each has as many bytes as its sectors say after any
-- sequence of calls of FUSE, whatever it ends in, provided that a read of the data source that does
-- not fail gives all the bytes that were asked for.
pub mount-serve_all :
    {D : Type 0} (ds : DataSource D) (d : D) (dir : Directory) (c : Cache D)
    (requests : List Request)
    → ReadsInFull ds
    → mount ds d ≡ ok (done dir c)
    → IsWellFormed
        (state_of (serve_all ds dir requests (record { cache = c; open_files = [] }))).cache
unfolding mount new_cache
mount-serve_all {D} ds d dir c requests full h =
    serve_all-IsWellFormed ds dir requests (record { cache = c; open_files = [] }) full
      (opened (ds.stat d) h)
  where
    opened :
        (r : Status ℕ × D)
        → elim (from_stat r) [ err e ↦ err e | ok c0 ↦ ok (new_directory ds c0) ] ≡ ok (done dir c)
        → IsWellFormed c
    opened (err e, d') h = cc
    opened (ok size, d') h =
        let c0 : Cache D = record { source = d'; sectors = size / sector_size; blocks = [] } in
        let same : new_directory ds c0 ≡ done dir c = cc in
        let built : IfDone IsWellFormed (new_directory ds c0) =
          (new_directory-KeepsIfDone ds full).at c0 (pos 0, (tt, tt)) in
        (rw same at built)
