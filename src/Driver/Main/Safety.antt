-- ===== src/Driver/Main/Safety.antt =====
-- The program as a whole: the cache under every sequence of calls.
use rt11fs.Base.{◌≡◌, refl, Option, none, some, List, Bool, true, false}
use rt11fs.Base.{enoent, ok, err, Outcome, done, throw, state_of, Status}
use rt11fs.Base.Text.{Text}
use rt11fs.FileDataSource.{Descriptor, file_source}
use rt11fs.FileDataSource.Contents.{file_source-ReadsInFull}
use rt11fs.BlockCache.{Cache}
use rt11fs.BlockCache.Invariant.{IsWellFormed}
use rt11fs.Directory.Operations.{Directory}
use rt11fs.OpenFileTable.{Files}
use rt11fs.FileSystem.{mount, new_file_system}
use rt11fs.Driver.{Request, Reply}
use rt11fs.Driver.Invariant.{mount-serve_all}
use rt11fs.Driver.Main.{Config, Course, started, main}

-- What holds of the cache when FUSE was served.
abbrev pub AfterCalls : {S : Type 0} → (Cache S → Type 0) → Course S → Type 0
AfterCalls P Course.usage = Unit {0}
AfterCalls P (Course.uncaught f) = Unit {0}
AfterCalls P (Course.listed o) = Unit {0}
AfterCalls P (Course.mounted o) = P (state_of o).cache

module _ {S : Type 0} (open_image : Text → Option S) (fd : Descriptor S) where
  started-AfterCalls :
      (listdir : Bool) (requests : List Request) (s : S) (r : Status (Outcome (Cache S) Directory))
      → mount (file_source fd) s ≡ r
      → AfterCalls IsWellFormed (started open_image fd listdir requests r)
  unfolding started
  started-AfterCalls listdir requests s (err e) h = tt
  started-AfterCalls listdir requests s (ok (throw f c)) h = tt
  started-AfterCalls true requests s (ok (done dir c)) h = tt
  started-AfterCalls false requests s (ok (done dir c)) h =
      mount-serve_all (file_source fd) s dir c requests (file_source-ReadsInFull fd) h

  named-AfterCalls :
      (listdir : Bool) (requests : List Request) (image : Text)
      → AfterCalls IsWellFormed
          (started open_image fd listdir requests (new_file_system open_image fd image))
  unfolding new_file_system started
  named-AfterCalls listdir requests image = opened (open_image image)
    where
      opened :
          (o : Option S)
          → AfterCalls IsWellFormed (
              started open_image fd listdir requests
                (elim o [ none ↦ err enoent | some s ↦ mount (file_source fd) s ]))
      opened none = tt
      opened (some s) = started-AfterCalls listdir requests s _ refl

  parsed-AfterCalls :
      (parsed : Option Config) (requests : List Request)
      → AfterCalls IsWellFormed (main open_image fd parsed requests)
  unfolding main
  parsed-AfterCalls none requests = tt
  parsed-AfterCalls (some config) requests = imaged config.image
    where
      imaged :
          (image : Option Text)
          → AfterCalls IsWellFormed (elim image [
            | none ↦ Course.usage
            | some name ↦
                started open_image fd config.listdir requests (new_file_system open_image fd name)
          ])
      imaged none = tt
      imaged (some name) = named-AfterCalls config.listdir requests name

  -- Whatever the command line and the operating system do, when `main` serves the calls of
  -- FUSE, then the blocks of the cache are in ascending order, apart, and each has as many
  -- bytes as its sectors say at the end of them, whatever they end in. The calls are those with
  -- sizes and offsets that are not negative, and the code is taken as far as no `int` of it
  -- exceeds 32 bits other than the size that `growEntry` is handed, so for sectors below 2 ^
  -- 22.
  pub main-IsWellFormed :
      (parsed : Option Config) (requests : List Request)
      (o : Outcome (Files S) (List (Status Reply)))
      → main open_image fd parsed requests ≡ Course.mounted o
      → IsWellFormed (state_of o).cache
  main-IsWellFormed parsed requests o h =
      let all : AfterCalls IsWellFormed (main open_image fd parsed requests) =
        parsed-AfterCalls parsed requests in
      (rw h at all)
