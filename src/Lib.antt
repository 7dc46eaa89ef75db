-- ===== src/Lib.antt =====
-- A model of the RT-11 file system driver: the library fslib, which serves an RT-11 volume image to
-- FUSE. A FUSE call comes to FileSystem, which tests the path and calls the open file table and the
-- directory; the directory keeps its segments in one block of the block cache, and walks them by
-- directory pointers; changes of the directory are recorded by a change tracker, and its moves are
-- applied to the open files; the cache reads and writes blocks of sectors by the data source.
--
--   Base                 shared names; Base/Actions: an operation of a class is a function of its
--                        state with a result or a fault (an exception, a failed assertion, or
--                        behaviour that C++ leaves undefined); Base/Int: C++ `int` and `off_t`;
--                        Base/Invariants: what an operation keeps, with a rule for each way to
--                        build one
--   Rad50                fslib/Rad50.cpp: fromRad50, toRad50
--   DirTime              fslib/Directory.cpp: dirTimeToTime, timeToDirTime
--   FileName             fslib/Directory.cpp: parseFilename, rtrim, the name that getEnt prints
--   DataSource           fslib/DataSource.h, fslib/MemoryDataSource.cpp
--   FileDataSource       fslib/FileDataSource.cpp; Contents: a regular file against the memory image
--   Block                fslib/Block.cpp, fslib/Block.h
--   BlockCache           fslib/BlockCache.cpp, fslib/BlockCache.h; View: the disk as the users of the
--                        cache see it; Coherence, Sync, Access and Change: requests, writes to the
--                        image, and uses of one sector against that view
--   DirConst             fslib/DirConst.h
--   DirPtr               fslib/DirPtr.cpp, fslib/DirPtr.h
--   DirChangeTracker     fslib/DirChangeTracker.cpp, fslib/DirChangeTracker.h
--   Directory            fslib/Directory.cpp: Scan reads, Segment and Space change entries, Operations
--                        are what the other classes call. View: a directory block as a list of
--                        segments, with the pointers to all entries in order; Walk: steps of a
--                        pointer over them; Lookup and Totals: scans against that list; Empty, Shift,
--                        Insert, Inserted and Refinement: the parts of an insertion; Lengths,
--                        Carve, Transfer, Resize and Truncate: sectors that entries take and give;
--                        Names: the names that are listed
--   OpenFileTable        fslib/OpenFileTable.cpp, fslib/OpenFileTable.h; Contents, Updates and Whole:
--                        the bytes of files under reads and writes
--   FileSystem           fslib/FileSystem.cpp; Lsdir: the rows that lsdir prints; Truncation:
--                        ftruncate down to the bytes of the directory
--   Callbacks            fslib/LogUnimpl.cpp, and build_oper of rt11fs/rt11fs.cpp
--   Driver               rt11fs/rt11fs.cpp: the functions that FUSE calls, one call after another;
--                        Main: `main`
--   Invariant            under Block, DirPtr, Directory, BlockCache, OpenFileTable and Driver: what the
--                        operations of each keep of the blocks of the cache, from the bytes of one
--                        block up to all calls (Driver/Main/Safety)
--   Examples             the theorems at concrete inputs
--
-- Definitions keep the names of the functions, in snake case; `operator++` is `next`, `operator--` is
-- `prev`, and the private `open` of the open file table is `open_at`. A result that is a negated errno
-- is `err`, any other is `ok`. A `Block *` is the first sector of the block. A `DirPtr &` of an open
-- file is part of the state of the operations that change it, so that a change stays when one throws.
--
-- Bytes and 16-bit words are numbers, with the wrap-around written out. An `int` is an unbounded
-- integer: C++ leaves the overflow of `sector * SECTOR_SIZE` (fslib/Block.cpp) undefined, and the
-- model is that of the code on sectors below 2 ^ 22, so volumes up to 2 GB (a 16-bit sector
-- number of RT-11 reaches 32 MB), where no `int` exceeds 32 bits. One `int` can lose its value
-- there: the size that `growEntry` is handed by `truncate`, an `off_t`. It is narrowed to 32 bits
-- (Base/Int, `as_int`). Offsets and sizes of the calls are not negative, as the kernel refuses
-- those that are; the sums of an offset and a size stay below 2 ^ 63. The loops over a directory
-- run on the number of bytes of its block and one as fuel: more than it has entries, so that a
-- walk that does not go in a circle never runs out; a directory whose segments form a circle ends
-- in `no_fuel`, where the code does not end. The loops over a file's bytes run on the number of
-- bytes, of which each round takes at least one.
--
-- The calls of the operating system on the volume file are a record of functions over the state of
-- the system (FileDataSource.Descriptor), so that nothing is known of them but what a theorem asks
-- for; what the FUSE library makes of the command line, and the calls that it makes, are arguments.
--
-- Not modelled: output to cerr, `dump`, what `usage` prints, and how `lsdir` lays out its rows; the
-- destructors, which close the file; the clock, which is an argument.
mod Base
pub mod Rad50
pub mod DirTime
pub mod DataSource
pub mod FileDataSource
pub mod Block
pub mod BlockCache
pub mod DirConst
pub mod DirPtr
pub mod DirChangeTracker
pub mod FileName
pub mod Directory
pub mod OpenFileTable
pub mod FileSystem
pub mod Callbacks
pub mod Driver
mod Examples
