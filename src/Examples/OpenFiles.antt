-- ===== src/Examples/OpenFiles.antt =====
-- The file A.B of five sectors, open, with its directory changed in memory.
use rt11fs.Base.{
  ℕ, ◌+◌, ◌≡◌, refl, inl, inr, List, [], ◌∷◌, true, length, replicate, length-replicate, arith,
}
use rt11fs.Base.{ok, done}
use rt11fs.Base.Int.{pos}
use rt11fs.DataSource.{memory_source}
use rt11fs.Block.{Block}
use rt11fs.Block.Words.{word_at}
use rt11fs.BlockCache.View.{view}
use rt11fs.BlockCache.Change.{over}
use rt11fs.DirPtr.Moves.{IsEntry}
use rt11fs.Directory.Operations.{Directory}
use rt11fs.Directory.View.{pointer}
use rt11fs.OpenFileTable.{Files, OpenFileEntry, read_file, write_file}
use rt11fs.OpenFileTable.Contents.{IsReady, IsContents}
use rt11fs.OpenFileTable.Whole.{IsOpen, sectors_of, read_file-IsContents, write_file-over}
use rt11fs.Examples.Directories.{listed, padded, length-listed, written}

abbrev in_memory : Block
in_memory = record listed { dirty = true }

abbrev opened : OpenFileEntry
opened = record { refcnt = 1; dirp = pointer 14 1 0 (pos 14) }

abbrev tape : List ℕ
tape = replicate 10000 5

length-tape : length tape ≡ 10000
length-tape = length-replicate {A = ℕ} 10000 5

abbrev mounted_files : Files (List ℕ)
mounted_files = record {
  cache = record { source = tape; sectors = 19; blocks = in_memory ∷ [] };
  open_files = opened ∷ [];
}

abbrev at_six : Directory
at_six = record { entry_size = 14; dirblk = pos 6 }

sectors_of-opened : sectors_of in_memory opened ≡ 5
unfolding word_at
sectors_of-opened = refl

opened-IsEntry : IsEntry in_memory opened.dirp 0
opened-IsEntry = record {
  in_directory = (0, refl);
  begins = refl;
  fits = omega (arith, length-listed);
  bytes = λ i. padded written 984 i refl;
}

mounted_files-IsReady : IsReady tape 14 (14 + sectors_of in_memory opened) (in_memory ∷ [])
mounted_files-IsReady = (
  (omega arith, omega arith, tt),
  (
    record {
      at = refl;
      sized = length-listed;
      fits = omega (arith, length-listed, length-tape);
      clean = inl refl;
    },
    tt,
  ),
  (inr (inl (omega arith)), tt),
)

opened-IsOpen : IsOpen at_six mounted_files 0 opened in_memory 14
opened-IsOpen = record {
  found = refl;
  in_use = omega arith;
  directory = refl;
  entry = opened-IsEntry;
  begins = refl;
  fits = omega (arith, sectors_of-opened, length-tape);
  ready = mounted_files-IsReady;
}

read_file-IsContents_example :
    (bs : List Block) × (got : List ℕ) × (read_file memory_source at_six 0 600 100 mounted_files
      ≡ done (ok got) (record mounted_files { cache = record mounted_files.cache { blocks = bs } }))
    × IsContents mounted_files.cache 14 (sectors_of in_memory opened) 600 100 got
    × ((x : ℕ) → view tape bs x ≡ view tape (in_memory ∷ []) x)
read_file-IsContents_example =
    read_file-IsContents at_six mounted_files 0 opened in_memory 14 opened-IsOpen 600 100

write_file-over_example :
    (bs : List Block) × (write_file memory_source at_six 0 (7 ∷ 8 ∷ 9 ∷ []) 510 mounted_files
      ≡ done (ok 3) (record mounted_files { cache = record mounted_files.cache { blocks = bs } }))
    × IsReady tape 14 (14 + sectors_of in_memory opened) bs
    × ((x : ℕ) → view tape bs x ≡ over (view tape (in_memory ∷ [])) 7678 (7 ∷ 8 ∷ 9 ∷ []) x)
write_file-over_example =
    write_file-over at_six mounted_files 0 opened in_memory 14 opened-IsOpen (7 ∷ 8 ∷ 9 ∷ []) 510
      (omega (arith, sectors_of-opened))
