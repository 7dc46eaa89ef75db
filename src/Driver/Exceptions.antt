-- ===== src/Driver/Exceptions.antt =====
-- No exception of the library leaves a call of FUSE.
use rt11fs.Base.{List, [], ◌∷◌}
use rt11fs.Base.{
  fs_error, out_of_range, assertion, undefined, no_fuel, Status, ok, err, Outcome, done, throw,
  Action, pure, then_do,
}
use rt11fs.DataSource.{DataSource}
use rt11fs.Directory.Operations.{Directory}
use rt11fs.OpenFileTable.{Files}
use rt11fs.FileSystem.{
  caught, getattr, fgetattr, statfs_of, chmod, unlink_path, rename_path, readdir, open_path,
  create_path, release, read, write, ftruncate, fsync,
}
use rt11fs.Driver.{
  Request, rt11_getattr, rt11_fgetattr, rt11_statfs, rt11_unlink, rt11_readdir, rt11_open,
  rt11_chmod, rt11_rename, rt11_opendir, rt11_releasedir, rt11_fsync, rt11_create, rt11_release,
  rt11_ftruncate, rt11_read, rt11_write, unimplemented, Reply, serve, serve_all,
}

-- The outcome is no exception.
abbrev pub IsCaught : {S A : Type 0} → Outcome S A → Type 0
IsCaught (done a s) = Unit {0}
IsCaught (throw (fs_error e) s) = ⊥
IsCaught (throw out_of_range s) = ⊥
IsCaught (throw assertion s) = Unit {0}
IsCaught (throw undefined s) = Unit {0}
IsCaught (throw no_fuel s) = Unit {0}

replied_caught :
    {S A : Type 0} (f : A → Reply) (o : Outcome S (Status A))
    → IsCaught (then_do (caught o) (λ r. pure (elim r [ ok a ↦ ok (f a) | err e ↦ err e ])))
replied_caught f (done r s) = tt
replied_caught f (throw (fs_error e) s) = tt
replied_caught f (throw out_of_range s) = tt
replied_caught f (throw assertion s) = tt
replied_caught f (throw undefined s) = tt
replied_caught f (throw no_fuel s) = tt

module _ {D : Type 0} (ds : DataSource D) (dir : Directory) where
  serve-IsCaught : (request : Request) (f : Files D) → IsCaught (serve ds dir request f)
  unfolding serve getattr fgetattr statfs_of chmod unlink_path rename_path readdir open_path
      create_path release read write ftruncate fsync
  serve-IsCaught (rt11_getattr path) f = replied_caught _ _
  serve-IsCaught (rt11_fgetattr path) f = replied_caught _ _
  serve-IsCaught (rt11_statfs path) f = replied_caught _ _
  serve-IsCaught (rt11_unlink path) f = replied_caught _ _
  serve-IsCaught (rt11_readdir path) f = replied_caught _ _
  serve-IsCaught (rt11_open path) f = replied_caught _ _
  serve-IsCaught (rt11_chmod path mode) f = tt
  serve-IsCaught (rt11_rename old_name new_name) f = replied_caught _ _
  serve-IsCaught rt11_opendir f = tt
  serve-IsCaught rt11_releasedir f = tt
  serve-IsCaught rt11_fsync f = replied_caught _ _
  serve-IsCaught (rt11_create path is_regular now) f = replied_caught _ _
  serve-IsCaught (rt11_release fd) f = replied_caught _ _
  serve-IsCaught (rt11_ftruncate fd size) f = replied_caught _ _
  serve-IsCaught (rt11_read fd count offset) f = replied_caught _ _
  serve-IsCaught (rt11_write fd buffer offset) f = replied_caught _ _
  serve-IsCaught (unimplemented c) f = tt

  then_do-IsCaught :
      {S A B : Type 0} (o : Outcome S A) (k : A → Action S B)
      → IsCaught o
      → ((a : A) (s : S) → IsCaught (k a s))
      → IsCaught (then_do o k)
  then_do-IsCaught (done a s) k h h' = h' a s
  then_do-IsCaught (throw (fs_error e) s) k h h' = h
  then_do-IsCaught (throw out_of_range s) k h h' = h
  then_do-IsCaught (throw assertion s) k h h' = tt
  then_do-IsCaught (throw undefined s) k h h' = tt
  then_do-IsCaught (throw no_fuel s) k h h' = tt

  -- Whatever FUSE calls, in whatever order, no FilesystemException and no std::out_of_range leaves
  -- the functions that it calls.
  pub serve_all-IsCaught :
      (requests : List Request) (f : Files D) → IsCaught (serve_all ds dir requests f)
  unfolding serve_all
  serve_all-IsCaught [] f = tt
  serve_all-IsCaught (request ∷ requests) f =
      then_do-IsCaught _ _ (serve-IsCaught request f)
        λ reply f'. then_do-IsCaught _ _ (serve_all-IsCaught requests f') λ replies f''. tt
