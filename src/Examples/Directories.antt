-- ===== src/Examples/Directories.antt =====
-- A directory of one segment with the file A.B, a free entry and the end marker.
use rt11fs.Base.{
  ℕ, zero, suc, ◌+◌, ◌<◌, ◌≡◌, refl, ap, bit_and, ◌∙◌, List, [], ◌∷◌, ◌++◌, Bool, true, false, not,
  ◌&&◌, some, length, ltb, get_or, replicate, length-replicate, length-append, arith,
}
use rt11fs.Base.{ok, done}
use rt11fs.Base.Int.{pos, ◌-ℤ◌}
use rt11fs.Base.Text.{Text, codes}
use rt11fs.Block.{Block}
use rt11fs.Block.Words.{word_at}
use rt11fs.DirConst.{e_eos, e_perm, Rad50Name}
use rt11fs.DirPtr.{DirPtr}
use rt11fs.DirChangeTracker.{new_tracker}
use rt11fs.FileName.{parse_filename, print_name, rtrim, split_name, dot}
use rt11fs.FileName.Laws.{print_name-parse_filename}
use rt11fs.Directory.Scan.{get_dir_pointer_named, statfs, StatVfs, find_largest_free_block}
use rt11fs.Directory.Segment.{insert_empty_at}
use rt11fs.Directory.Operations.{Directory}
use rt11fs.Directory.View.{Seg, status_at, IsDirectory, pointer, pointers, is_file_of}
use rt11fs.Directory.Lookup.{first_match, named_result, get_dir_pointer_named-first_match}
use rt11fs.Directory.Totals.{
  sectors_if, count_if, is_free, is_used, IsLargest, statfs-totals,
  find_largest_free_block-IsLargest,
}
use rt11fs.Directory.Insert.{tracked_shift}
use rt11fs.Directory.Inserted.{IsInserted}
use rt11fs.Directory.Refinement.{sectors_to, insert_empty_at-IsInserted}
use rt11fs.Directory.Names.{names_of}
use rt11fs.DataSource.{memory_source}
use rt11fs.OpenFileTable.{Files, OpenFileEntry}
use rt11fs.FileSystem.{readdir, slash}
use rt11fs.FileSystem.Listing.{listing, readdir-names_of}
use rt11fs.Driver.{serve_all, rt11_unlink, rt11_read, rt11_fsync}
use rt11fs.Driver.Exceptions.{IsCaught, serve_all-IsCaught}

abbrev pub written : List ℕ
written =
    1 ∷ 0 ∷ 0 ∷ 0 ∷ 1 ∷ 0 ∷ 0 ∷ 0 ∷ 14 ∷ 0 ∷ 0 ∷ 4 ∷ 64 ∷ 6 ∷ 0 ∷ 0 ∷ 128 ∷ 12 ∷ 5 ∷ 0 ∷ 0 ∷ 0 ∷ 173
    ∷ 20 ∷ 0 ∷ 2 ∷ 0 ∷ 0 ∷ 0 ∷ 0 ∷ 0 ∷ 0 ∷ 50 ∷ 0 ∷ 0 ∷ 0 ∷ 0 ∷ 0 ∷ 0 ∷ 8 ∷ []

abbrev all_bytes : List ℕ → Bool
all_bytes [] = true
all_bytes (x ∷ xs) = ltb x 256 && all_bytes xs

-- Bytes, and zeros behind them.
pub padded : (xs : List ℕ) (n i : ℕ) → all_bytes xs ≡ true → get_or (xs ++ replicate n 0) i 0 < 256
padded [] zero i h = omega arith
padded [] (suc n) zero h = omega arith
padded [] (suc n) (suc i) h = padded [] n i h
padded (x ∷ xs) n zero h = ground arith
padded (x ∷ xs) n (suc i) h = padded xs n i (ground arith)

abbrev pub listed : Block
listed = record {
  sector = pos 6;
  count = 2;
  refcount = pos 1;
  dirty = false;
  bytes = written ++ replicate 984 0;
}

abbrev only : Seg
only = record { number = 1; count = 2 }

pub length-listed : length listed.bytes ≡ 1024
length-listed =
    length-append written (replicate 984 0) ∙ ap (λ n. 40 + n) (length-replicate {A = ℕ} 984 0)

listed_plain : (i : ℕ) → i < 2 → bit_and (status_at listed 14 1 i) e_eos ≡ 0
unfolding word_at
listed_plain zero h = refl
listed_plain (suc zero) h = refl
listed_plain (suc (suc i)) h = absurd (omega arith)

listed-IsDirectory : IsDirectory listed 14 (only ∷ [])
unfolding word_at
listed-IsDirectory = record {
  bytes = λ i. padded written 984 i refl;
  sized = refl;
  begins = refl;
  chain = (
    record {
      numbered = omega arith;
      fits = omega arith;
      in_block = omega (arith, length-listed);
      plain = listed_plain;
      marked = refl;
      unfiled = refl;
      chained = refl;
    },
    tt,
  );
  room = omega (arith, length-listed);
}

abbrev name_ab : Rad50Name
name_ab = record { first = 1600; second = 0; extension = 3200 }

parsed_ab : parse_filename (codes "A.B") ≡ some name_ab
unfolding parse_filename rt11fs.FileName.split_name rt11fs.FileName.pad rt11fs.Rad50.to_rad50
    rt11fs.Rad50.encode rt11fs.Base.Text.find
parsed_ab = refl

get_dir_pointer_named-first_match_example :
    get_dir_pointer_named (codes "A.B") listed
    ≡ done
        (named_result (first_match (is_file_of listed name_ab) (pointers listed 14 (only ∷ []))))
        listed
get_dir_pointer_named-first_match_example =
    get_dir_pointer_named-first_match listed 14 (only ∷ []) (codes "A.B") name_ab listed-IsDirectory
      parsed_ab

statfs-totals_example :
    (st : StatVfs) × (statfs 1000 listed ≡ done st listed)
    × (st.f_bfree ≡ sectors_if listed (is_free listed) (pointers listed 14 (only ∷ [])))
    × (st.f_ffree ≡ st.f_files -ℤ pos (count_if (is_used listed) (pointers listed 14 (only ∷ []))))
    × (st.f_bfree + sectors_if listed (λ q. not (is_free listed q)) (pointers listed 14 (only ∷ []))
        ≡ sectors_if listed (λ _. true) (pointers listed 14 (only ∷ [])))
statfs-totals_example = statfs-totals listed 14 (only ∷ []) 1000 listed-IsDirectory

find_largest_free_block-IsLargest_example :
    (q : DirPtr) × (find_largest_free_block listed ≡ done q listed)
    × IsLargest listed (pointers listed 14 (only ∷ [])) q
find_largest_free_block-IsLargest_example =
    find_largest_free_block-IsLargest listed 14 (only ∷ []) listed-IsDirectory

print_name-parse_filename_example :
    print_name name_ab
    ≡ some ((rtrim (split_name (codes "A.B")).0 ++ dot ∷ []) ++ rtrim (split_name (codes "A.B")).1)
print_name-parse_filename_example = print_name-parse_filename (codes "A.B") name_ab parsed_ab

insert_empty_at-IsInserted_example :
    (b : Block) × (insert_empty_at 1 14
        (pointer 14 1 1 (pos 19))
        (record { block = listed; tracker = new_tracker })
      ≡ done (ok tt) (record { block = b; tracker = tracked_shift listed 14 1 1 1 new_tracker }))
    × IsInserted listed b 14 1 1 2
    × IsDirectory b 14 (record only { count = 3 } ∷ [])
    × (sectors_to b 14 1 4 ≡ sectors_to listed 14 1 3)
insert_empty_at-IsInserted_example =
    insert_empty_at-IsInserted listed 14 [] [] only 0 1 (pos 19) new_tracker listed-IsDirectory tt
      tt (omega arith) (omega arith) refl

abbrev open_volume : Files (List ℕ)
open_volume = record {
  cache = record { source = []; sectors = 64; blocks = listed ∷ [] };
  open_files = [];
}

abbrev at_six : Directory
at_six = record { entry_size = 14; dirblk = pos 6 }

abbrev opened : OpenFileEntry
opened = record { refcnt = 1; dirp = pointer 14 1 0 (pos 14) }

abbrev with_file : Files (List ℕ)
with_file = record open_volume { open_files = opened ∷ [] }

readdir-names_of_example :
    readdir memory_source (record { entry_size = 14; dirblk = pos 6 }) (slash ∷ []) open_volume
    ≡ done (listing (names_of listed e_perm (pointers listed 14 (only ∷ [])))) open_volume
readdir-names_of_example =
    readdir-names_of memory_source (record { entry_size = 14; dirblk = pos 6 }) open_volume listed
      14 (only ∷ []) refl listed-IsDirectory

serve_all-IsCaught_example : IsCaught (
    serve_all memory_source
      (record { entry_size = 14; dirblk = pos 6 })
      (rt11_unlink (codes "/A.B") ∷ rt11_read 3 10 0 ∷ rt11_fsync ∷ [])
      open_volume)
serve_all-IsCaught_example =
    serve_all-IsCaught memory_source (record { entry_size = 14; dirblk = pos 6 })
      (rt11_unlink (codes "/A.B") ∷ rt11_read 3 10 0 ∷ rt11_fsync ∷ []) open_volume
