-- ===== src/Directory/Truncate.antt =====
-- `truncate` of the directory, on a cache that holds its block.
use rt11fs.Base.{
  ℕ, ◌+◌, ◌-◌, ◌/◌, ◌%◌, ◌^◌, ◌≤◌, ◌<◌, ◌≡◌, refl, inl, inr, List, [], ◌∷◌, ◌++◌, true, false, some,
  ◌==◌, ltb, Bool-cases, arith, if◌then◌else◌,
}
use rt11fs.Base.{done, ok, then_do, Action}
use rt11fs.Base.Int.{ℤ, pos, ◌+ℤ◌, leb_ℤ, eq_ℤ, as_int, as_int_lem}
use rt11fs.DataSource.{DataSource}
use rt11fs.Block.{Block}
use rt11fs.Block.Words.{word_at}
use rt11fs.BlockCache.{Cache, with_block}
use rt11fs.BlockCache.Access.{block_at, run_at_same}
use rt11fs.DirConst.{e_mpty}
use rt11fs.DirPtr.{DirPtr, get_word, has_status, next}
use rt11fs.DirPtr.Moves.{get_word_lem}
use rt11fs.DirChangeTracker.{Tracker, Entry, Editing, new_tracker, on_block}
use rt11fs.Directory.Space.{edit_at, edit, shrink_entry, has_room_behind, grow_in_place, grow_entry}
use rt11fs.Directory.Operations.{Directory, truncate}
use rt11fs.Directory.View.{Seg, base_of, place, length_at, bit_at, IsDirectory, first_of, pointer}
use rt11fs.Directory.Walk.{at_or_before, next_plain}
use rt11fs.Directory.Refinement.{IsChain-from}
use rt11fs.Directory.Transfer.{IsTransferred}
use rt11fs.Directory.Resize.{grow_in_place-IsTransferred, shrink_entry-IsTransferred}

-- The blocks with another one in the place of the one that the pointer names.
abbrev pub put_at : ℤ → Block → List Block → List Block
put_at bp b' [] = []
put_at bp b' (b ∷ rest) = if eq_ℤ b.sector bp then b' ∷ rest else b ∷ put_at bp b' rest

edit_at_lem :
    {A : Type 0} (bp : ℤ) (m : Action Editing A) (b b' : Block) (bs : List Block) (t t' : Tracker)
    (a : A)
    → block_at bp bs ≡ some b
    → m (record { block = b; tracker = t }) ≡ done a (record { block = b'; tracker = t' })
    → edit_at bp m bs t ≡ done a (put_at bp b' bs, t')
unfolding edit_at
edit_at_lem bp m b b' [] t t' a h run = cc
edit_at_lem bp m b b' (d ∷ rest) t t' a h run = elim (Bool-cases (eq_ℤ d.sector bp)) [
  | inl e ↦
      let h' : some d ≡ some b = (rw e at h) in let here : d ≡ b = cc in rw (e, here, run) refl
  | inr e ↦
      let h' : block_at bp rest ≡ some b = (rw e at h) in
      rw (e, edit_at_lem bp m b b' rest t t' a h' run) refl
]

-- In a cache that holds the block of a directory whose bytes are in order, `truncate` of a file to
-- fewer sectors, where the entry behind it is free and what it then has fits a word, gives that entry
-- the sectors that are over, and changes nothing else of the cache; the pointer stays, no move is
-- handed back, no sector is lost, and the directory is in order again.
pub truncate-IsTransferred_less :
    {D : Type 0} (ds : DataSource D) (dir : Directory) (c : Cache D) (b : Block)
    (before rest : List Seg) (s : Seg) (i bytes : ℕ) (sector : ℤ) (moves : List Entry)
    → block_at dir.dirblk c.blocks ≡ some b
    → IsDirectory b dir.entry_size (before ++ s ∷ rest)
    → i < s.count
    → bit_at b dir.entry_size s.number (i + 1) e_mpty ≡ true
    → (bytes + 511) / 512 < length_at b dir.entry_size s.number i
    → length_at b dir.entry_size s.number i + length_at b dir.entry_size s.number (i + 1)
      < (bytes + 511) / 512 + 2 ^ 16
    → (b' : Block) × (truncate ds dir bytes moves
          (record { cache = c; dirp = pointer dir.entry_size s.number i sector })
        ≡ done (ok []) (record {
          cache = record c { blocks = put_at dir.dirblk b' c.blocks };
          dirp = pointer dir.entry_size s.number i sector;
        }))
      × IsTransferred b b' dir.entry_size s.number i s.count ((bytes + 511) / 512)
      × IsDirectory b' dir.entry_size (before ++ s ∷ rest)
unfolding truncate edit with_block
truncate-IsTransferred_less ds dir c b before rest s i bytes sector moves found d lt free less
      word =
    let e : ℕ = dir.entry_size in
    let p : DirPtr = pointer e s.number i sector in
    let (b', run, is, d') =
      shrink_entry-IsTransferred b e before rest s i ((bytes + 511) / 512) sector new_tracker d lt
        free less word in
    let g = (IsChain-from b e before (s ∷ rest) d.chain).0 in
    let read : get_word p 8 b ≡ done (length_at b e s.number i) b =
      get_word_lem b p (base_of s.number) 8
        (at_or_before b e s (first_of rest) d.bytes g i sector (omega arith)) (omega arith) in
    let looked =
      run_at_same dir.dirblk (get_word p 8) b c.blocks (length_at b e s.number i) found read in
    let sum : bytes + 512 - 1 ≡ bytes + 511 = omega arith in
    let c1 : ((bytes + 511) / 512 == length_at b e s.number i) ≡ false = ground (arith, less) in
    let c2 : ltb ((bytes + 511) / 512) (length_at b e s.number i) ≡ true = ground (arith, less) in
    let put =
      edit_at_lem dir.dirblk (shrink_entry e p ((bytes + 511) / 512)) b b' c.blocks new_tracker
        new_tracker (ok tt) found run in
    (b', rw (looked, then_do, sum, c1, c2, put, then_do) refl, is, d')

edit_at_same :
    {A : Type 0} (bp : ℤ) (m : Action Editing A) (b : Block) (bs : List Block) (t : Tracker) (a : A)
    → block_at bp bs ≡ some b
    → m (record { block = b; tracker = t }) ≡ done a (record { block = b; tracker = t })
    → edit_at bp m bs t ≡ done a (bs, t)
unfolding edit_at
edit_at_same bp m b [] t a h run = cc
edit_at_same bp m b (d ∷ rest) t a h run = elim (Bool-cases (eq_ℤ d.sector bp)) [
  | inl e ↦
      let h' : some d ≡ some b = (rw e at h) in
      let here : d ≡ b = cc in
      let run' : m (record { block = d; tracker = t })
          ≡ done a (record { block = d; tracker = t }) =
        rw here run in
      rw (e, run') refl
  | inr e ↦
      let h' : block_at bp rest ≡ some b = (rw e at h) in
      rw (e, edit_at_same bp m b rest t a h' run) refl
]

module _ {D : Type 0} (ds : DataSource D) (b : Block) (e : ℕ) (before rest : List Seg) (s : Seg)
    (i : ℕ) (sector : ℤ) (d : IsDirectory b e (before ++ s ∷ rest)) (lt : i < s.count) where
  abbrev here : DirPtr
  here = pointer e s.number i sector

  abbrev behind : DirPtr
  behind = pointer e s.number (i + 1) (sector +ℤ pos (length_at b e s.number i))

  read_entry :
      (n : ℕ) → n ≤ 12 → get_word here n b ≡ done (word_at b.bytes (place e s.number i + n)) b
  read_entry n le =
      get_word_lem b here (base_of s.number) n
        (at_or_before b e s (first_of rest) d.bytes (IsChain-from b e before (s ∷ rest) d.chain).0 i
          sector (omega arith))
        le

  read_next :
      (n : ℕ)
      → n ≤ 12
      → get_word behind n b ≡ done (word_at b.bytes (place e s.number (i + 1) + n)) b
  read_next n le =
      get_word_lem b behind (base_of s.number) n
        (at_or_before b e s (first_of rest) d.bytes (IsChain-from b e before (s ∷ rest) d.chain).0
          (i + 1) _ (omega arith))
        le

  step_lem : next here b ≡ done behind b
  step_lem =
      next_plain b e s (first_of rest) d.bytes (IsChain-from b e before (s ∷ rest) d.chain).0 i
        sector lt

  room_lem :
      (size : ℕ)
      → bit_at b e s.number (i + 1) e_mpty ≡ true
      → size ≤ length_at b e s.number i + length_at b e s.number (i + 1)
      → has_room_behind ds here behind (pos size) b ≡ done true b
  unfolding has_room_behind has_status
  room_lem size free enough =
      let k : leb_ℤ (pos size) (pos (length_at b e s.number i + length_at b e s.number (i + 1)))
          ≡ true =
        ground (arith, enough) in
      rw
        (
          read_next 0 (omega arith),
          then_do,
          free,
          read_entry 8 (omega arith),
          then_do,
          read_next 8 (omega arith),
          then_do,
          k,
        )
        refl

  -- The first branch of `growEntry`, on the cache.
  grown :
      (bp : ℤ) (c : Cache D) (size : ℕ)
      → block_at bp c.blocks ≡ some b
      → bit_at b e s.number (i + 1) e_mpty ≡ true
      → size < 2 ^ 16
      → length_at b e s.number i + length_at b e s.number (i + 1) < size + 2 ^ 16
      → size < length_at b e s.number i + length_at b e s.number (i + 1)
      → (b' : Block) × (grow_entry ds bp e here
            (pos size)
            (record { cache = c; tracker = new_tracker; dirp = here })
          ≡ done (ok tt) (record {
            cache = record c { blocks = put_at bp b' c.blocks };
            tracker = new_tracker;
            dirp = here;
          }))
        × IsTransferred b b' e s.number i s.count size
        × IsDirectory b' e (before ++ s ∷ rest)
  unfolding grow_entry edit
  grown bp c size found free small word enough =
      let (b', run, is, d') =
        grow_in_place-IsTransferred ds b e before rest s i size sector new_tracker d lt small word
          enough in
      let stepped : on_block (next here) (record { block = b; tracker = new_tracker })
          ≡ done behind (record { block = b; tracker = new_tracker }) =
        rw step_lem refl in
      let roomy : on_block (has_room_behind ds here behind (pos size))
            (record { block = b; tracker = new_tracker })
          ≡ done true (record { block = b; tracker = new_tracker }) =
        rw (room_lem size free (omega arith)) refl in
      let step =
        edit_at_same bp (on_block (next here)) b c.blocks new_tracker behind found stepped in
      let room =
        edit_at_same bp (on_block (has_room_behind ds here behind (pos size))) b c.blocks
          new_tracker true found roomy in
      let put =
        edit_at_lem bp (grow_in_place ds e here behind (pos size)) b b' c.blocks new_tracker
          new_tracker tt found run in
      (b', rw (step, then_do, room, then_do, put, then_do) refl, is, d')

-- In a cache that holds the block of a directory whose bytes are in order, `truncate` of a file to a
-- greater number of sectors of which `size` is left by the narrowing to an `int`, where the entry behind
-- it is free, leaves `size` sectors to the file, and the others to the entry behind, if these are one
-- or more and both fit a word. Nothing else of the cache changes; the pointer stays, no move is handed
-- back, no sector is lost, and the directory is in order again.
pub truncate-IsTransferred_narrowed :
    {D : Type 0} (ds : DataSource D) (dir : Directory) (c : Cache D) (b : Block)
    (before rest : List Seg) (s : Seg) (i bytes size : ℕ) (sector : ℤ) (moves : List Entry)
    → block_at dir.dirblk c.blocks ≡ some b
    → IsDirectory b dir.entry_size (before ++ s ∷ rest)
    → i < s.count
    → bit_at b dir.entry_size s.number (i + 1) e_mpty ≡ true
    → length_at b dir.entry_size s.number i < (bytes + 511) / 512
    → (bytes + 511) / 512 % 2 ^ 32 ≡ size
    → size < 2 ^ 16
    → length_at b dir.entry_size s.number i + length_at b dir.entry_size s.number (i + 1)
      < size + 2 ^ 16
    → size < length_at b dir.entry_size s.number i + length_at b dir.entry_size s.number (i + 1)
    → (b' : Block) × (truncate ds dir bytes moves
          (record { cache = c; dirp = pointer dir.entry_size s.number i sector })
        ≡ done (ok []) (record {
          cache = record c { blocks = put_at dir.dirblk b' c.blocks };
          dirp = pointer dir.entry_size s.number i sector;
        }))
      × IsTransferred b b' dir.entry_size s.number i s.count size
      × IsDirectory b' dir.entry_size (before ++ s ∷ rest)
unfolding truncate with_block
truncate-IsTransferred_narrowed ds dir c b before rest s i bytes size sector moves found d lt free
      more left small word enough =
    let e : ℕ = dir.entry_size in
    let asked : ℕ = (bytes + 511) / 512 in
    let p : DirPtr = pointer e s.number i sector in
    let (b', run, is, d') =
      grown ds b e before rest s i sector d lt dir.dirblk c size found free small word enough in
    let looked =
      run_at_same dir.dirblk (get_word p 8) b c.blocks (length_at b e s.number i) found
        (read_entry ds b e before rest s i sector d lt 8 (omega arith)) in
    let sum : bytes + 512 - 1 ≡ bytes + 511 = omega arith in
    let c1 : (asked == length_at b e s.number i) ≡ false = ground (arith, more) in
    let c2 : ltb asked (length_at b e s.number i) ≡ false = ground (arith, more) in
    let narrow : as_int asked ≡ pos size = as_int_lem asked size left (omega arith) in
    (b', rw (looked, then_do, sum, c1, c2, narrow, run, then_do) refl, is, d')
