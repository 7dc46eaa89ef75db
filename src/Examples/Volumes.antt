-- ===== src/Examples/Volumes.antt =====
-- Witnesses: a volume that is opened and used.
use rt11fs.Base.{
  ℕ, ◌+◌, ◌≡◌, refl, Option, some, List, [], ◌∷◌, ◌++◌, true, false, length, take, drop, replicate,
  arith,
}
use rt11fs.Base.{einval, ok, err, Outcome, state_of, Status}
use rt11fs.Base.Int.{ℤ, pos, negsuc}
use rt11fs.Base.Memory.{splice}
use rt11fs.Base.Text.{Text}
use rt11fs.Block.{Block}
use rt11fs.BlockCache.{Cache}
use rt11fs.BlockCache.Invariant.{IsWellFormed}
use rt11fs.DataSource.{memory_read, memory_write}
use rt11fs.DirTime.{Tm}
use rt11fs.FileDataSource.{Descriptor, file_read, file_write, file_source}
use rt11fs.FileDataSource.Contents.{IsRegular, file_source-ReadsInFull, file_source-memory_source}
use rt11fs.Directory.Operations.{Directory}
use rt11fs.OpenFileTable.{Files}
use rt11fs.Driver.{Request, Reply, serve_all}
use rt11fs.Driver.Invariant.{serve_all-IsWellFormed}
use rt11fs.Driver.Main.{Config, Course, main}
use rt11fs.Driver.Main.Safety.{main-IsWellFormed}

-- The header of the directory, a free entry of four sectors and the end marker.
abbrev listing : List ℕ
listing =
    1 ∷ 0 ∷ 0 ∷ 0 ∷ 1 ∷ 0 ∷ 0 ∷ 0 ∷ 8 ∷ 0 ∷ 0 ∷ 2 ∷ 0 ∷ 0 ∷ 0 ∷ 0 ∷ 0 ∷ 0 ∷ 4 ∷ 0 ∷ 0 ∷ 0 ∷ 0 ∷ 0
    ∷ 0 ∷ 8 ∷ []

-- Twelve sectors, of which the directory takes two.
abbrev volume : List ℕ
volume = replicate 3072 0 ++ listing ++ replicate 3046 0

abbrev directory : Directory
directory = record { entry_size = 14; dirblk = pos 6 }

abbrev listed : Block
listed = record {
  sector = pos 6;
  count = 2;
  refcount = pos 0;
  dirty = false;
  bytes = listing ++ replicate 998 0;
}

-- A regular file: its bytes and the file offset.
abbrev File : Type 0
File = List ℕ × ℕ

abbrev seek_to : File → ℤ → Status ℤ × File
seek_to (bytes, offset) (pos n) = (ok (pos n), (bytes, n))
seek_to (bytes, offset) (negsuc n) = (err einval, (bytes, offset))

abbrev regular_file : Descriptor File
regular_file = record {
  fstat = λ f. (ok (length f.0), f);
  lseek = seek_to;
  read = λ f n. (ok (take n (drop f.1 f.0)), (f.0, f.1 + length (take n (drop f.1 f.0))));
  write = λ f buffer. (ok (length buffer), (splice f.0 f.1 buffer, f.1 + length buffer));
}

regular_file-IsRegular : IsRegular regular_file (λ f. f.0) (λ f. f.1)
regular_file-IsRegular = record {
  seeks = λ f n. ((f.0, n), refl, refl, refl);
  reads = λ f n. (_, refl, refl);
  writes = λ f buffer fits. (_, refl, refl);
}

file_source-memory_source_example :
    ((t : File) × (file_read regular_file (1 ∷ 2 ∷ 3 ∷ [], 3) 3 (pos 1)
        ≡ ((memory_read (1 ∷ 2 ∷ 3 ∷ []) 3 (pos 1)).0, t))
      × (t.0 ≡ 1 ∷ 2 ∷ 3 ∷ []))
    × ((t : File) × (file_write regular_file (1 ∷ 2 ∷ 3 ∷ [], 3) (8 ∷ 9 ∷ []) (pos 1)
          ≡ ((memory_write (1 ∷ 2 ∷ 3 ∷ []) (8 ∷ 9 ∷ []) (pos 1)).0, t))
        × (t.0 ≡ (memory_write (1 ∷ 2 ∷ 3 ∷ []) (8 ∷ 9 ∷ []) (pos 1)).1))
file_source-memory_source_example =
    file_source-memory_source regular_file (λ f. f.0) (λ f. f.1) regular_file-IsRegular
      (1 ∷ 2 ∷ 3 ∷ [], 3) 1 3 (8 ∷ 9 ∷ []) (omega arith) (omega arith)

length-listed : length (listed.bytes) ≡ 1024
length-listed = refl

abbrev first_of_may : Tm
first_of_may = record { tm_year = pos 87; tm_mon = pos 4; tm_mday = pos 1 }

abbrev mounted : Cache File
mounted = record { source = (volume, 4096); sectors = 12; blocks = listed ∷ [] }

abbrev calls : List Request
calls =
    Request.rt11_create (b'/' ∷ b'A' ∷ b'.' ∷ b'B' ∷ []) true first_of_may
    ∷ Request.rt11_write 0 (1 ∷ 2 ∷ []) 510
    ∷ Request.rt11_fsync
    ∷ Request.rt11_read 0 4 509
    ∷ []

abbrev after_calls : Outcome (Files File) (List (Status Reply))
after_calls =
    serve_all (file_source regular_file) directory calls
      (record { cache = mounted; open_files = [] })

abbrev command_line : Config
command_line = record { image = some (b'd' ∷ []); listdir = false }

abbrev disk : Text → Option File
disk name = some (volume, 0)

volume-main : main disk regular_file (some command_line) calls ≡ Course.mounted after_calls
unfolding rt11fs.Driver.Main.main rt11fs.Driver.Main.started rt11fs.FileSystem.new_file_system
    rt11fs.FileSystem.mount rt11fs.BlockCache.new_cache rt11fs.FileDataSource.file_stat
    rt11fs.Directory.Operations.new_directory rt11fs.BlockCache.get_block rt11fs.BlockCache.get_from
    rt11fs.Block.read rt11fs.FileDataSource.file_read rt11fs.Base.Int.◌*ℤ◌ rt11fs.Block.new_block
    rt11fs.Base.Int.◌+ℤ◌ rt11fs.BlockCache.with_block rt11fs.Block.extract_word
    rt11fs.Base.Memory.splice rt11fs.Directory.Operations.quotient rt11fs.Base.Int.◌-ℤ◌
    rt11fs.BlockCache.resize_block rt11fs.BlockCache.resize_from rt11fs.Base.Memory.resize_bytes
    rt11fs.Block.add_ref rt11fs.Block.get_byte rt11fs.Block.resize rt11fs.BlockCache.run_at
    rt11fs.DirPtr.fuel_of rt11fs.Directory.Operations.check_segments
volume-main = refl

main-IsWellFormed_example : IsWellFormed (state_of after_calls).cache
main-IsWellFormed_example =
    main-IsWellFormed disk regular_file (some command_line) calls after_calls volume-main

mounted-IsWellFormed : IsWellFormed mounted
mounted-IsWellFormed = (pos 0, ((omega arith, omega arith, tt), (length-listed, tt)))

serve_all-IsWellFormed_example : IsWellFormed (state_of after_calls).cache
serve_all-IsWellFormed_example =
    serve_all-IsWellFormed (file_source regular_file) directory calls
      (record { cache = mounted; open_files = [] }) (file_source-ReadsInFull regular_file)
      mounted-IsWellFormed
