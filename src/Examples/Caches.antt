-- ===== src/Examples/Caches.antt =====
-- A cache over an image of three sectors, with the second one changed in memory.
use rt11fs.Base.{
  ℕ, ◌≡◌, refl, inl, List, [], ◌∷◌, true, get_elem?, length, length-replicate, replicate, arith,
}
use rt11fs.Base.{done, state_of}
use rt11fs.Base.Int.{pos}
use rt11fs.DataSource.{memory_source}
use rt11fs.Block.{Block}
use rt11fs.BlockCache.{Cache, get_block, sync}
use rt11fs.BlockCache.Order.{Above}
use rt11fs.BlockCache.View.{view, IsCoherent}
use rt11fs.BlockCache.Sync.{cleaned, sync-IsSynced}
use rt11fs.BlockCache.Coherence.{get_block-view}
use rt11fs.Base.{then_do, false}
use rt11fs.Directory.Operations.{Directory}
use rt11fs.OpenFileTable.{read_from, write_from}
use rt11fs.OpenFileTable.Contents.{IsReady}
use rt11fs.OpenFileTable.Updates.{read_from-write_from}

abbrev disk : List ℕ
disk = replicate 1536 5

length-disk : length disk ≡ 1536
length-disk = length-replicate {A = ℕ} 1536 5

abbrev changed : Block
changed = record {
  sector = pos 1;
  count = 1;
  refcount = pos 0;
  dirty = true;
  bytes = replicate 512 3;
}

abbrev mounted : Cache (List ℕ)
mounted = record { source = disk; sectors = 3; blocks = changed ∷ [] }

mounted-Above : Above (pos 0) mounted.blocks
mounted-Above = (omega arith, omega arith, tt)

mounted-IsCoherent : IsCoherent disk mounted.blocks
mounted-IsCoherent = (
  record {
    at = refl;
    sized = length-replicate {A = ℕ} 512 3;
    fits = omega (arith, length-disk, length-replicate {A = ℕ} 512 3);
    clean = inl refl;
  },
  tt,
)

get_block-view_example :
    ((state_of (get_block memory_source (pos 2) 1 mounted)).source ≡ disk)
    × IsCoherent disk (state_of (get_block memory_source (pos 2) 1 mounted)).blocks
    × ((x : ℕ)
        → view disk (state_of (get_block memory_source (pos 2) 1 mounted)).blocks x
          ≡ view disk (changed ∷ []) x)
get_block-view_example =
    get_block-view 2 mounted (omega (arith, length-disk)) mounted-Above mounted-IsCoherent

sync-IsSynced_example :
    (image : List ℕ) × (sync memory_source mounted
      ≡ done tt (record mounted { source = image; blocks = cleaned (changed ∷ []) }))
    × (length image ≡ length disk)
    × IsCoherent image (cleaned (changed ∷ []))
    × ((x : ℕ) → get_elem? image x ≡ view disk (changed ∷ []) x)
sync-IsSynced_example = sync-IsSynced mounted mounted-Above mounted-IsCoherent

-- A file of the last two sectors.
mounted-IsReady : IsReady disk 1 3 mounted.blocks
mounted-IsReady = (mounted-Above, mounted-IsCoherent, (inl refl, tt))

abbrev volume : Directory
volume = record { entry_size = 14; dirblk = pos 6 }

read_from-write_from_example :
    (bs : List Block) × (then_do
        (write_from memory_source volume 3 false (pos 1) (7 ∷ 8 ∷ 9 ∷ []) 510 mounted)
        (λ _. read_from memory_source volume 3 2 (pos 1) 3 510)
      ≡ done (7 ∷ 8 ∷ 9 ∷ []) (record mounted { blocks = bs }))
read_from-write_from_example =
    read_from-write_from volume 3 1 2 510 (7 ∷ 8 ∷ 9 ∷ []) mounted (omega arith) (omega arith)
      (omega (arith, length-disk)) mounted-IsReady
