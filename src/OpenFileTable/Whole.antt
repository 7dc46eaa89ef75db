-- ===== src/OpenFileTable/Whole.antt =====
-- `readFile` and `writeFile` of an open file, over the directory block in the cache.
use rt11fs.Base.{
  ℕ, ◌+◌, ◌*◌, ◌≤◌, ◌≡◌, refl, List, some, false, length, get_elem?, ltb, ◌==◌, arith,
}
use rt11fs.Base.{ok, done, pure, then_do, of_option}
use rt11fs.Base.Int.{pos, pos_part}
use rt11fs.DataSource.{memory_source}
use rt11fs.Block.{Block}
use rt11fs.BlockCache.{with_block}
use rt11fs.BlockCache.View.{view}
use rt11fs.BlockCache.Access.{block_at, run_at_same}
use rt11fs.BlockCache.Change.{over}
use rt11fs.DirPtr.{get_word}
use rt11fs.DirPtr.Moves.{IsEntry}
use rt11fs.DirConst.{total_length_word}
use rt11fs.Directory.Operations.{Directory}
use rt11fs.Directory.View.{field}
use rt11fs.Directory.Lookup.{field_lem}
use rt11fs.OpenFileTable.{Files, OpenFileEntry, on_cache, read_file, write_file}
use rt11fs.OpenFileTable.Contents.{IsReady, IsContents, read_from-IsContents}
use rt11fs.OpenFileTable.Updates.{write_from-over}

-- The length of the file in sectors, as the directory block `b` says.
abbrev pub sectors_of : Block → OpenFileEntry → ℕ
sectors_of b e = field b e.dirp 8

-- The file `fd` is open, its entry `e` points into the directory block `b`, which is in the cache,
-- its data begin at the sector `s0` and end within the image, and the cache is ready for them.
pub record IsOpen (dir : Directory) (f : Files (List ℕ)) (fd : ℕ) (e : OpenFileEntry) (b : Block)
    (s0 : ℕ) : Type 0 where
  pub found : get_elem? f.open_files fd ≡ some e
  pub in_use : 1 ≤ e.refcnt
  pub directory : block_at dir.dirblk f.cache.blocks ≡ some b
  pub entry : IsEntry b e.dirp (pos_part e.dirp.segbase)
  pub begins : e.dirp.datasec ≡ pos s0
  pub fits : (s0 + sectors_of b e) * 512 ≤ length f.cache.source
  pub ready : IsReady f.cache.source s0 (s0 + sectors_of b e) f.cache.blocks

module _ (dir : Directory) (f : Files (List ℕ)) (fd : ℕ) (e : OpenFileEntry) (b : Block) (s0 : ℕ)
    (h : IsOpen dir f fd e b s0) where
  length_lem :
      on_cache (with_block dir.dirblk (get_word e.dirp total_length_word)) f
      ≡ done (sectors_of b e) f
  unfolding with_block
  length_lem =
      rw
        (run_at_same dir.dirblk (get_word e.dirp total_length_word) b f.cache.blocks
          (sectors_of b e) h.directory (field_lem b e.dirp 8 h.entry (omega arith)))
        refl

  -- For an open file whose entry in the directory block, which is in the cache, puts its data
  -- within the memory image, when the blocks of the cache ascend and do not overlap, agree with
  -- the image unless they are marked as changed, and hold the sectors of the file one by one if
  -- at all: `readFile` gives the bytes of the file from the offset on that the users of the
  -- cache see, as many as were asked for or as the file has, and changes nothing that they see.
  pub read_file-IsContents :
      (count offset : ℕ)
      → (bs : List Block) × (got : List ℕ) × (read_file memory_source dir fd count offset f
          ≡ done (ok got) (record f { cache = record f.cache { blocks = bs } }))
        × IsContents f.cache s0 (sectors_of b e) count offset got
        × ((x : ℕ) → view f.cache.source bs x ≡ view f.cache.source f.cache.blocks x)
  unfolding read_file
  read_file-IsContents count offset =
      let (bs, got, run, contents, _, seen) =
        read_from-IsContents dir count s0 (sectors_of b e) count offset f.cache (omega arith) h.fits
          h.ready in
      let used : (e.refcnt == 0) ≡ false = ground (arith, h.in_use) in
      (
        bs,
        got,
        rw (h.found, of_option, then_do, used, length_lem, then_do, h.begins, run) refl,
        contents,
        seen,
      )

  -- For an open file whose entry in the directory block, which is in the cache, puts its data
  -- within the memory image, when the blocks of the cache ascend and do not overlap, agree with
  -- the image unless they are marked as changed, and hold the sectors of the file one by one if
  -- at all: `writeFile` within the file puts the bytes of the buffer in the place of those of
  -- the file from the offset on, as the users of the cache see the disk, changes no other that
  -- they see, keeps the cache in this state, and reports as many bytes as the buffer has.
  pub write_file-over :
      (buffer : List ℕ) (offset : ℕ)
      → offset + length buffer ≤ sectors_of b e * 512
      → (bs : List Block) × (write_file memory_source dir fd buffer offset f
          ≡ done (ok (length buffer)) (record f { cache = record f.cache { blocks = bs } }))
        × IsReady f.cache.source s0 (s0 + sectors_of b e) bs
        × ((x : ℕ)
            → view f.cache.source bs x
              ≡ over (view f.cache.source f.cache.blocks) (s0 * 512 + offset) buffer x)
  unfolding write_file
  write_file-over buffer offset room =
      let (bs, run, ready, seen) =
        write_from-over dir (length buffer) s0 (sectors_of b e) offset buffer f.cache (omega arith)
          room h.fits h.ready in
      let used : (e.refcnt == 0) ≡ false = ground (arith, h.in_use) in
      let within_file : ltb (sectors_of b e * 512) (offset + length buffer) ≡ false =
        ground arith in
      (
        bs,
        rw
            (
              h.found, of_option, then_do, used, length_lem, then_do, within_file, pure, then_do,
              h.found, of_option, then_do, within_file, h.begins, run,
            )
            refl,
        ready,
        seen,
      )
