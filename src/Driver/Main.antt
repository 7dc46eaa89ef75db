-- ===== src/Driver/Main.antt =====
-- `main` of rt11fs/rt11fs.cpp. What the FUSE library makes of the command line is given: the options
-- that it parses, the calls that it makes. So are the calls of the operating system.
pub mod Safety
use rt11fs.Base.{ℕ, Option, none, some, List, [], Bool, if◌then◌else◌}
use rt11fs.Base.{Fault, fs_error, Status, ok, err, Outcome, done, throw}
use rt11fs.Base.Text.{Text}
use rt11fs.FileDataSource.{Descriptor, file_source}
use rt11fs.BlockCache.{Cache, with_block}
use rt11fs.Directory.Operations.{Directory}
use rt11fs.OpenFileTable.{Files}
use rt11fs.FileSystem.{new_file_system}
use rt11fs.FileSystem.Lsdir.{Row, lsdir}
use rt11fs.Driver.{Request, Reply, serve_all}

-- `struct rt11_config`: no image is NULL.
pub record Config : Type 0 where
  pub image : Option Text
  pub listdir : Bool

-- How `main` goes on: the hint on how to call the program, an exception that nothing catches, the
-- listing of the directory, or the calls of FUSE.
pub data Course (S : Type 0) : Type 0 where
  usage : Course S
  uncaught : Fault → Course S
  listed : Outcome (Cache S) (List Row) → Course S
  mounted : Outcome (Files S) (List (Status Reply)) → Course S

module _ {S : Type 0} (open_image : Text → Option S) (fd : Descriptor S) where
  -- What follows the construction of the file system.
  unfoldable pub started : Bool → List Request → Status (Outcome (Cache S) Directory) → Course S
  started listdir requests (err e) = uncaught (fs_error e)
  started listdir requests (ok (throw f c)) = uncaught f
  started listdir requests (ok (done dir c)) =
      if listdir
      then listed (with_block dir.dirblk lsdir c)
      else mounted (serve_all (file_source fd) dir requests (record { cache = c; open_files = [] }))

  -- `none` is the result -1 of `fuse_opt_parse`.
  unfoldable pub main : Option Config → List Request → Course S
  unfolding started
  main parsed requests = elim parsed [
    | none ↦ usage
    | some config ↦ elim config.image [
      | none ↦ usage
      | some image ↦ started config.listdir requests (new_file_system open_image fd image)
    ]
  ]
