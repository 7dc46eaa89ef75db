-- ===== src/Callbacks/Complete.antt =====
-- The table of callbacks once `build_oper` is done.
use rt11fs.Base.{◌≡◌, refl, some, ◌⊎◌, inl, inr}
use rt11fs.Base.{enosys, err}
use rt11fs.Callbacks.{
  getattr, readlink, getdir, mknod, mkdir, unlink, rmdir, symlink, rename, link, chmod, chown,
  truncate, utime, open_file, read, write, statfs, flush, release, fsync, setxattr, getxattr,
  listxattr, removexattr, opendir, readdir, releasedir, fsyncdir, access, create, ftruncate,
  fgetattr, lock, utimens, bmap, setvolname, exchange, getxtimes, setbkuptime, setchgtime,
  setcrtime, chflags, setattr_x, fsetattr_x,
}
use rt11fs.Callbacks.{
  Callback, rt11, stub, FuseOperations, build_oper, call_stub, assign, add_unimpl,
}

-- Whatever the table held before, every member points to the function of rt11fs.cpp of its name, or
-- to a stub of its name that answers ENOSYS.
build_oper_complete :
    (oper : FuseOperations) (c : Callback)
    → (build_oper oper c ≡ some (rt11 c))
      ⊎ ((build_oper oper c ≡ some (stub c)) × (call_stub c ≡ err enosys))
unfolding build_oper assign add_unimpl call_stub
build_oper_complete oper getattr = inl refl
build_oper_complete oper readlink = inr (refl, refl)
build_oper_complete oper getdir = inr (refl, refl)
build_oper_complete oper mknod = inr (refl, refl)
build_oper_complete oper mkdir = inr (refl, refl)
build_oper_complete oper unlink = inl refl
build_oper_complete oper rmdir = inr (refl, refl)
build_oper_complete oper symlink = inr (refl, refl)
build_oper_complete oper rename = inl refl
build_oper_complete oper link = inr (refl, refl)
build_oper_complete oper chmod = inl refl
build_oper_complete oper chown = inr (refl, refl)
build_oper_complete oper truncate = inr (refl, refl)
build_oper_complete oper utime = inr (refl, refl)
build_oper_complete oper open_file = inl refl
build_oper_complete oper read = inl refl
build_oper_complete oper write = inl refl
build_oper_complete oper statfs = inl refl
build_oper_complete oper flush = inr (refl, refl)
build_oper_complete oper release = inl refl
build_oper_complete oper fsync = inl refl
build_oper_complete oper setxattr = inr (refl, refl)
build_oper_complete oper getxattr = inr (refl, refl)
build_oper_complete oper listxattr = inr (refl, refl)
build_oper_complete oper removexattr = inr (refl, refl)
build_oper_complete oper opendir = inl refl
build_oper_complete oper readdir = inl refl
build_oper_complete oper releasedir = inl refl
build_oper_complete oper fsyncdir = inr (refl, refl)
build_oper_complete oper access = inr (refl, refl)
build_oper_complete oper create = inl refl
build_oper_complete oper ftruncate = inl refl
build_oper_complete oper fgetattr = inl refl
build_oper_complete oper lock = inr (refl, refl)
build_oper_complete oper utimens = inr (refl, refl)
build_oper_complete oper bmap = inr (refl, refl)
build_oper_complete oper setvolname = inr (refl, refl)
build_oper_complete oper exchange = inr (refl, refl)
build_oper_complete oper getxtimes = inr (refl, refl)
build_oper_complete oper setbkuptime = inr (refl, refl)
build_oper_complete oper setchgtime = inr (refl, refl)
build_oper_complete oper setcrtime = inr (refl, refl)
build_oper_complete oper chflags = inr (refl, refl)
build_oper_complete oper setattr_x = inr (refl, refl)
build_oper_complete oper fsetattr_x = inr (refl, refl)
