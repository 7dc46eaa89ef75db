-- ===== src/Callbacks.antt =====
-- fslib/LogUnimpl.cpp and `build_oper` of rt11fs/rt11fs.cpp: the table of callbacks that FUSE is
-- given. What the stubs print is left out.
pub mod Complete
use rt11fs.Base.{ℕ, Option, some, List, [], ◌∷◌, ◌==◌, if◌then◌else◌}
use rt11fs.Base.{enosys, Status, ok, err}

-- The members of `struct fuse_operations` that the code sets; `open_file` is `open`.
pub data Callback : Type 0 where
  getattr readlink getdir mknod mkdir unlink rmdir symlink rename link chmod chown truncate utime
        open_file read write statfs flush release fsync setxattr getxattr listxattr removexattr
        opendir readdir releasedir fsyncdir access create ftruncate fgetattr lock utimens bmap
        setvolname exchange getxtimes setbkuptime setchgtime setcrtime chflags setattr_x
        fsetattr_x :
      Callback

abbrev pub member_index : Callback → ℕ
member_index getattr = 0
member_index readlink = 1
member_index getdir = 2
member_index mknod = 3
member_index mkdir = 4
member_index unlink = 5
member_index rmdir = 6
member_index symlink = 7
member_index rename = 8
member_index link = 9
member_index chmod = 10
member_index chown = 11
member_index truncate = 12
member_index utime = 13
member_index open_file = 14
member_index read = 15
member_index write = 16
member_index statfs = 17
member_index flush = 18
member_index release = 19
member_index fsync = 20
member_index setxattr = 21
member_index getxattr = 22
member_index listxattr = 23
member_index removexattr = 24
member_index opendir = 25
member_index readdir = 26
member_index releasedir = 27
member_index fsyncdir = 28
member_index access = 29
member_index create = 30
member_index ftruncate = 31
member_index fgetattr = 32
member_index lock = 33
member_index utimens = 34
member_index bmap = 35
member_index setvolname = 36
member_index exchange = 37
member_index getxtimes = 38
member_index setbkuptime = 39
member_index setchgtime = 40
member_index setcrtime = 41
member_index chflags = 42
member_index setattr_x = 43
member_index fsetattr_x = 44

-- The function that a member points to: the stub of a callback, or the function of rt11fs.cpp.
pub data Handler : Type 0 where
  stub rt11 : Callback → Handler

-- The table; `none` is a member that nothing has been stored to, as the table is not cleared.
abbrev pub FuseOperations : Type 0
FuseOperations = Callback → Option Handler

unfoldable pub assign : Callback → Handler → FuseOperations → FuseOperations
assign member handler oper c =
    if member_index member == member_index c then some handler else oper c

abbrev pub stubs : List Callback
stubs =
    getattr ∷ readlink ∷ getdir ∷ mknod ∷ mkdir ∷ unlink ∷ rmdir ∷ symlink ∷ rename ∷ link ∷ chmod
    ∷ chown ∷ truncate ∷ utime ∷ open_file ∷ read ∷ write ∷ statfs ∷ flush ∷ release ∷ fsync
    ∷ setxattr ∷ getxattr ∷ listxattr ∷ removexattr ∷ opendir ∷ readdir ∷ releasedir ∷ fsyncdir
    ∷ access ∷ create ∷ ftruncate ∷ fgetattr ∷ lock ∷ utimens ∷ bmap ∷ setvolname ∷ exchange
    ∷ getxtimes ∷ setbkuptime ∷ setchgtime ∷ setcrtime ∷ chflags ∷ setattr_x ∷ fsetattr_x ∷ []

abbrev pub assign_all : (Callback → Handler) → List Callback → FuseOperations → FuseOperations
assign_all handler [] oper = oper
assign_all handler (c ∷ cs) oper = assign_all handler cs (assign c (handler c) oper)

unfoldable pub add_unimpl : FuseOperations → FuseOperations
unfolding assign
add_unimpl oper = assign_all stub stubs oper

abbrev pub served : List Callback
served =
    getattr ∷ fgetattr ∷ statfs ∷ chmod ∷ unlink ∷ rename ∷ opendir ∷ releasedir ∷ readdir
    ∷ open_file ∷ create ∷ release ∷ ftruncate ∷ read ∷ write ∷ fsync ∷ []

unfoldable pub build_oper : FuseOperations → FuseOperations
unfolding add_unimpl assign
build_oper oper = assign_all rt11 served (add_unimpl oper)

-- What a stub answers: 0, and the members of `struct statvfs` that it sets, or ENOSYS.
pub data Answer : Type 0 where
  nothing : Answer
  volume : (f_namemax f_bsize : ℕ) → Answer

unfoldable pub call_stub : Callback → Status Answer
call_stub getattr = err enosys
call_stub readlink = err enosys
call_stub getdir = err enosys
call_stub mknod = err enosys
call_stub mkdir = err enosys
call_stub unlink = err enosys
call_stub rmdir = err enosys
call_stub symlink = err enosys
call_stub rename = err enosys
call_stub link = err enosys
call_stub chmod = err enosys
call_stub chown = err enosys
call_stub truncate = err enosys
call_stub utime = err enosys
call_stub open_file = err enosys
call_stub read = err enosys
call_stub write = err enosys
call_stub statfs = ok (volume 255 512)
call_stub flush = err enosys
call_stub release = err enosys
call_stub fsync = err enosys
call_stub setxattr = err enosys
call_stub getxattr = err enosys
call_stub listxattr = err enosys
call_stub removexattr = err enosys
call_stub opendir = ok nothing
call_stub readdir = err enosys
call_stub releasedir = err enosys
call_stub fsyncdir = err enosys
call_stub access = err enosys
call_stub create = err enosys
call_stub ftruncate = err enosys
call_stub fgetattr = err enosys
call_stub lock = err enosys
call_stub utimens = err enosys
call_stub bmap = err enosys
call_stub setvolname = err enosys
call_stub exchange = err enosys
call_stub getxtimes = err enosys
call_stub setbkuptime = err enosys
call_stub setchgtime = err enosys
call_stub setcrtime = err enosys
call_stub chflags = err enosys
call_stub setattr_x = err enosys
call_stub fsetattr_x = err enosys
