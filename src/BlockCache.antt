-- ===== src/BlockCache.antt =====
-- fslib/BlockCache.h and fslib/BlockCache.cpp: the blocks in memory, by ascending sector. Blocks
-- are never evicted. A `Block *` is modelled by the first sector of the block: no two blocks of a
-- cache whose blocks do not overlap have the same one.
pub mod Order
pub mod View
pub mod Sync
pub mod Coherence
pub mod Access
pub mod Change
pub mod Invariant
use rt11fs.Base.{ℕ, ◌/◌, List, [], ◌∷◌, Bool, false, ◌==◌, if◌then◌else◌}
use rt11fs.Base.{
  einval, fs_error, undefined, Status, ok, err, Outcome, done, throw, Action, then_do, pure, ◌>>=◌,
  ◌>>◌, get_state, throw_if,
}
use rt11fs.Base.Int.{ℤ, pos, pos_part, ◌+ℤ◌, ltb_ℤ, leb_ℤ, eq_ℤ}
use rt11fs.DataSource.{DataSource}
use rt11fs.Block.{Block, Device, new_block, read, write, resize, add_ref, release, sector_size}

pub record Cache (D : Type 0) : Type 0 where
  pub source : D
  pub sectors : ℕ
  pub blocks : List Block

-- The blocks from some place of the list on, with the source.
pub record Shelf (D : Type 0) : Type 0 where
  pub shelf : List Block
  pub source : D

-- A result for the rest of the list is one for the list with `b` in front.
abbrev pub behind : {D A : Type 0} → Block → Outcome (Shelf D) A → Outcome (Shelf D) A
behind b (done a s) = done a (record s { shelf = b ∷ s.shelf })
behind b (throw e s) = throw e (record s { shelf = b ∷ s.shelf })

-- A result for one block of the list is one for the list.
abbrev pub in_front : {D A : Type 0} → List Block → Outcome (Device D) A → Outcome (Shelf D) A
in_front rest (done a s) = done a (record { shelf = s.block ∷ rest; source = s.source })
in_front rest (throw e s) = throw e (record { shelf = s.block ∷ rest; source = s.source })

-- So for a block that joins the list only if no exception is thrown.
abbrev pub if_read : {D A : Type 0} → List Block → Outcome (Device D) A → Outcome (Shelf D) A
if_read rest (done a s) = done a (record { shelf = s.block ∷ rest; source = s.source })
if_read rest (throw e s) = throw e (record { shelf = rest; source = s.source })

abbrev pub on_shelf : {D A : Type 0} → Cache D → Outcome (Shelf D) A → Outcome (Cache D) A
on_shelf c (done a s) = done a (record c { blocks = s.shelf; source = s.source })
on_shelf c (throw e s) = throw e (record c { blocks = s.shelf; source = s.source })

abbrev pub in_place : {A : Type 0} → List Block → Outcome Block A → Outcome (List Block) A
in_place rest (done a b) = done a (b ∷ rest)
in_place rest (throw e b) = throw e (b ∷ rest)

abbrev pub after_block : {A : Type 0} → Block → Outcome (List Block) A → Outcome (List Block) A
after_block b (done a bs) = done a (b ∷ bs)
after_block b (throw e bs) = throw e (b ∷ bs)

-- A use of the block that the pointer names; a pointer to no block of the cache is dangling.
unfoldable pub run_at : {A : Type 0} → ℤ → Action Block A → List Block → Outcome (List Block) A
run_at bp m [] = throw undefined []
run_at bp m (b ∷ rest) =
    if eq_ℤ b.sector bp then in_place rest (m b) else after_block b (run_at bp m rest)

abbrev pub on_blocks : {D A : Type 0} → Cache D → Outcome (List Block) A → Outcome (Cache D) A
on_blocks c (done a bs) = done a (record c { blocks = bs })
on_blocks c (throw e bs) = throw e (record c { blocks = bs })

-- `bp->` for a member function of the block.
unfoldable pub with_block : {D A : Type 0} → ℤ → Action Block A → Action (Cache D) A
unfolding run_at
with_block bp m c = on_blocks c (run_at bp m c.blocks)

unfoldable pub put_block : {D : Type 0} → ℤ → Action (Cache D) (Unit {0})
unfolding with_block
put_block bp = with_block bp (λ b. done tt (release b))

-- Whether the next block of the cache begins before the end of a block of that size.
abbrev pub runs_into : Block → ℤ → List Block → Bool
runs_into b count [] = false
runs_into b count (next ∷ rest) = ltb_ℤ next.sector (b.sector +ℤ count)

abbrev pub from_stat : {D : Type 0} → Status ℕ × D → Status (Cache D)
from_stat (err e, d) = err e
from_stat (ok size, d) = ok (record { source = d; sectors = size / sector_size; blocks = [] })

-- The rest of the list is written after its first block, unless that write throws.
abbrev pub write_rest :
    {D : Type 0}
    → List Block
    → (D → Outcome (Shelf D) (Unit {0}))
    → Outcome (Device D) (Unit {0})
    → Outcome (Shelf D) (Unit {0})
write_rest rest next (done _ s) = behind s.block (next s.source)
write_rest rest next (throw e s) = throw e (record { shelf = s.block ∷ rest; source = s.source })

module _ {D : Type 0} (ds : DataSource D) where
  -- The constructor: `err` is the exception that it throws.
  unfoldable pub new_cache : D → Status (Cache D)
  new_cache d = from_stat (ds.stat d)

  -- The loop of `getBlock` over the rest of the list, and what follows it.
  unfoldable pub get_from : ℤ → ℕ → List Block → D → Outcome (Shelf D) (Unit {0})
  get_from sector count [] d =
      if_read [] (read ds (record { block = new_block sector count; source = d }))
  get_from sector count (bp ∷ rest) d =
      let later = behind bp (get_from sector count rest d) in
      if eq_ℤ bp.sector sector
      then (if bp.count == count
          then done tt (record { shelf = add_ref bp ∷ rest; source = d })
          else throw (fs_error einval) (record { shelf = bp ∷ rest; source = d }))
      else if leb_ℤ (bp.sector +ℤ pos bp.count) sector
      then later
      else if leb_ℤ (sector +ℤ pos count) bp.sector
      then if_read (bp ∷ rest) (read ds (record { block = new_block sector count; source = d }))
      else if bp.count == count
      then later
      else throw (fs_error einval) (record { shelf = bp ∷ rest; source = d })

  unfoldable pub get_block : ℤ → ℕ → Action (Cache D) ℤ
  get_block sector count c =
      then_do (on_shelf c (get_from sector count c.blocks c.source)) (λ _. pure sector)

  -- `find_if` for the block, and what follows it; `count` is positive.
  unfoldable pub resize_from : ℤ → ℤ → List Block → D → Outcome (Shelf D) (Unit {0})
  resize_from bp count [] d = throw (fs_error einval) (record { shelf = []; source = d })
  resize_from bp count (b ∷ rest) d =
      let later = behind b (resize_from bp count rest d) in
      if eq_ℤ b.sector bp
      then (if runs_into b count rest
          then throw (fs_error einval) (record { shelf = b ∷ rest; source = d })
          else in_front rest (resize ds (pos_part count) (record { block = b; source = d })))
      else later

  unfoldable pub resize_block : ℤ → ℤ → Action (Cache D) (Unit {0})
  resize_block bp count = do
    throw_if (leb_ℤ count (pos 0)) (fs_error einval)
    c ← get_state
    λ _. on_shelf c (resize_from bp count c.blocks c.source)

  unfoldable pub sync_from : List Block → D → Outcome (Shelf D) (Unit {0})
  sync_from [] d = done tt (record { shelf = []; source = d })
  sync_from (b ∷ rest) d =
      if b.dirty
      then write_rest rest (sync_from rest) (write ds (record { block = b; source = d }))
      else behind b (sync_from rest d)

  unfoldable pub sync : Action (Cache D) (Unit {0})
  sync c = on_shelf c (sync_from c.blocks c.source)
