-- ===== src/Examples/Blocks.antt =====
-- Blocks, the cache and directory pointers at concrete inputs.
use rt11fs.Base.{
  ℕ, zero, suc, get_or, ◌<◌, ◌≡◌, refl, inl, length, length-replicate, replicate, take, true, false,
  arith, List, [], ◌∷◌, ◌++◌,
}
use rt11fs.Base.{ok, err, eio, fs_error, done, throw, then_do, state_of}
use rt11fs.Base.Int.{ℤ, pos, ◌+ℤ◌}
use rt11fs.Base.Memory.{slice}
use rt11fs.DataSource.{DataSource, memory_source}
use rt11fs.Block.{
  zero_fill, copy_in, copy_out, Block, Device, new_block, set_word, extract_word, copy_within_block,
  read, write, resize,
}
use rt11fs.Block.Words.{IsBytes, word_at, extract_word-set_word}
use rt11fs.Block.Copies.{zero_fill_lem, copy_out-copy_in, IsCopied, copy_within_block-IsCopied}
use rt11fs.Block.Sectors.{IsSized, read-write_block, resize_grow, resize_failure}
use rt11fs.BlockCache.{Cache, get_from}
use rt11fs.BlockCache.Order.{Above, overlap_admitted}
use rt11fs.DirPtr.{DirPtr, next, prev}
use rt11fs.DirPtr.Moves.{IsEntry, prev-next}

-- A block of eight bytes.
abbrev small : Block
small = record {
  sector = pos 6;
  count = 1;
  refcount = pos 1;
  dirty = false;
  bytes = 1 ∷ 2 ∷ 3 ∷ 4 ∷ 5 ∷ 6 ∷ 7 ∷ 8 ∷ [];
}

small-IsBytes : IsBytes small.bytes
small-IsBytes i = ground arith

extract_word-set_word_example :
    (b' : Block) × (set_word (pos 2) 770 small ≡ done tt b')
    × (extract_word (pos 2) b' ≡ done 770 b')
    × (extract_word (pos 4) b' ≡ done (word_at small.bytes 4) b')
    × (length b'.bytes ≡ length small.bytes)
    × (b'.sector ≡ pos 6)
    × (b'.dirty ≡ true)
extract_word-set_word_example =
    extract_word-set_word small 2 770 4 (omega arith) (omega arith) small-IsBytes (omega arith)
      (inl (omega arith))

copy_within_block-IsCopied_example :
    (out : List ℕ) × (copy_within_block (pos 0) (pos 2) (pos 5) small
      ≡ done tt (record small { bytes = out; dirty = true }))
    × IsCopied small.bytes 0 2 5 small.bytes out
copy_within_block-IsCopied_example =
    copy_within_block-IsCopied small 0 2 5 (omega arith) (omega arith) (omega arith)

zero_fill_lem_example :
    (out : List ℕ) × (zero_fill (pos 1) (pos 3) small
      ≡ done tt (record small { bytes = out; dirty = true }))
    × IsCopied (replicate 3 0) 0 1 3 small.bytes out
zero_fill_lem_example = zero_fill_lem small 1 3 (omega arith) (omega arith)

copy_out-copy_in_example :
    (b : Block) × (copy_in (pos 1) (pos 3) (7 ∷ 8 ∷ 9 ∷ 10 ∷ []) small ≡ done tt b)
    × (copy_out (pos 1) (pos 3) b ≡ done (7 ∷ 8 ∷ 9 ∷ []) b)
    × IsCopied (7 ∷ 8 ∷ 9 ∷ 10 ∷ []) 0 1 3 small.bytes b.bytes
    × (b.dirty ≡ true)
copy_out-copy_in_example =
    copy_out-copy_in small 1 3 (7 ∷ 8 ∷ 9 ∷ 10 ∷ []) (omega arith) (omega arith)

-- One sector, and an image of three.
abbrev sector : ℕ → Block
sector byte = record {
  sector = pos 1;
  count = 1;
  refcount = pos 1;
  dirty = true;
  bytes = replicate 512 byte;
}

sector-IsSized : (byte : ℕ) → IsSized (sector byte)
sector-IsSized byte = length-replicate 512 byte

abbrev image : List ℕ
image = replicate 1536 5

length-image : length image ≡ 1536
length-image = length-replicate {A = ℕ} 1536 5

read-write_block_example :
    (after : List ℕ) × (write memory_source (record { block = sector 3; source = image })
      ≡ done tt (record { block = record (sector 3) { dirty = false }; source = after }))
    × (read memory_source (record { block = sector 4; source = after })
        ≡ done tt (record {
          block = record (sector 4) { bytes = replicate 512 3; dirty = false };
          source = after;
        }))
    × (length after ≡ length image)
read-write_block_example =
    read-write_block (sector 3) (sector 4) 1 image refl refl refl (sector-IsSized 3)
      (sector-IsSized 4) (omega (arith, length-image))

resize_grow_example :
    resize memory_source 2 (record { block = sector 3; source = image })
    ≡ done tt (record {
      block = record (sector 3) { bytes = replicate 512 3 ++ slice image 1024 512; count = 2 };
      source = image;
    })
resize_grow_example =
    resize_grow (sector 3) 1 2 image refl (sector-IsSized 3) (omega arith)
      (omega (arith, length-image))

-- A source that cannot be read.
abbrev broken : DataSource ℕ
broken = record {
  stat = λ d. (ok 1024, d);
  read = λ d bytes offset. (err eio, d);
  write = λ d buffer offset. (err eio, d);
}

resize_failure_example :
    (s : Device ℕ) × (resize broken 2 (record { block = sector 3; source = 0 })
      ≡ throw (fs_error eio) s)
    × (s.block.bytes ≡ take 1 (replicate 512 3))
    × (s.block.count ≡ 1)
    × (¬ IsSized s.block)
resize_failure_example =
    resize_failure broken (sector 3) 2 0 0 eio (sector-IsSized 3) (omega arith) (omega arith) refl

abbrev shelved : Cache (List ℕ)
shelved = record { source = image; sectors = 3; blocks = sector 3 ∷ [] }

shelved-Above : Above (pos 0) shelved.blocks
shelved-Above = (omega arith, omega arith, tt)

-- A source that gives any number of zero bytes.
abbrev zeros : DataSource ℕ
zeros = record {
  stat = λ d. (ok 1024, d);
  read = λ d bytes offset. (ok (replicate bytes 0), d);
  write = λ d buffer offset. (ok (length buffer), d);
}

-- Two sectors from the first on, and the device after a read of two from the second on.
abbrev wide : Block
wide = record {
  sector = pos 0;
  count = 2;
  refcount = pos 1;
  dirty = false;
  bytes = replicate 1024 0;
}

abbrev read_in : Device ℕ
read_in = state_of (read zeros (record { block = new_block (pos 1) 2; source = 0 }))

overlap_admitted_example :
    (get_from zeros (pos 1) 2 (wide ∷ []) 0
      ≡ done tt (record { shelf = wide ∷ read_in.block ∷ []; source = read_in.source }))
    × ((low : ℤ) → ¬ Above low (wide ∷ read_in.block ∷ []))
unfolding read ◌+ℤ◌
overlap_admitted_example = overlap_admitted zeros wide [] (pos 1) 0 read_in refl refl tt refl

-- A directory block of one segment whose entries are all of status 0.
abbrev directory : Block
directory = record {
  sector = pos 6;
  count = 2;
  refcount = pos 1;
  dirty = false;
  bytes = replicate 1024 0;
}

abbrev first_entry : DirPtr
first_entry = record {
  entry_size = 14;
  segment = pos 1;
  index = 0;
  segbase = pos 0;
  datasec = pos 14;
}

get_or-zeros : (n i : ℕ) → get_or (replicate n 0) i 0 < 256
get_or-zeros zero i = omega arith
get_or-zeros (suc n) zero = omega arith
get_or-zeros (suc n) (suc i) = get_or-zeros n i

first_entry-IsEntry : IsEntry directory first_entry 0
first_entry-IsEntry = record {
  in_directory = (0, refl);
  begins = refl;
  fits = omega (arith, length-replicate {A = ℕ} 1024 0);
  bytes = λ i. get_or-zeros 1024 i;
}

prev-next_example : then_do (next first_entry directory) prev ≡ done first_entry directory
unfolding word_at
prev-next_example = prev-next directory first_entry 0 first_entry-IsEntry refl
