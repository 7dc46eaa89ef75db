-- ===== src/BlockCache/Sync.antt =====
-- What `sync` leaves on the disk, with the memory image as the source.
use rt11fs.Base.{
  ℕ, ◌+◌, ◌-◌, ◌*◌, ◌≤◌, ◌≡◌, refl, sym, ap, ◌∙◌, inl, inr, List, [], ◌∷◌, Bool, true, false,
  length, get_elem?, arith, Bool-cases, if◌then◌else◌,
}
use rt11fs.Base.{Outcome, done}
use rt11fs.Base.Int.{pos, pos_part}
use rt11fs.Base.Memory.{length-splice}
use rt11fs.DataSource.{memory_source}
use rt11fs.Block.{Block, write}
use rt11fs.Block.Sectors.{write_block_lem}
use rt11fs.BlockCache.{Cache, Shelf, sync_from, sync, behind, write_rest}
use rt11fs.BlockCache.Order.{Above}
use rt11fs.BlockCache.View.{
  start, within, view, Agrees, IsHeld, IsCoherent, pass, view-below, view-image, stored, stored-lem,
  stored-IsCoherent,
}

abbrev pub clean : Block → Block
clean b = record b { dirty = false }

abbrev pub cleaned : List Block → List Block
cleaned [] = []
cleaned (b ∷ bs) = clean b ∷ cleaned bs

-- The bytes of the block are in the image.
abbrev pub Has : List ℕ → Block → List ℕ → Type 0
Has image1 b image =
    (x : ℕ)
    → get_elem? image1 x
      ≡ (if within b x then get_elem? b.bytes (x - start b) else get_elem? image x)

view-Has :
    (image image1 : List ℕ) (b : Block) (l : ℕ) (bs : List Block) (x : ℕ)
    → Has image1 b image
    → start b + length b.bytes ≤ l * 512
    → Above (pos l) bs
    → IsCoherent image1 bs
    → view image1 bs x ≡ view image (b ∷ bs) x
view-Has image image1 b l bs x has h a c = elim (Bool-cases (within b x)) [
  | inl e ↦ view-below image1 l bs x a c (ground arith) ∙ has x ∙ rw e refl
  | inr e ↦ rw e (view-image image image1 bs x (has x ∙ rw e refl))
]

-- All that the users saw of the disk is in the image, and the blocks are clean copies of it.
abbrev pub IsSynced : List ℕ → List Block → Outcome (Shelf (List ℕ)) (Unit {0}) → Type 0
IsSynced image bs r =
    (image' : List ℕ) × (r ≡ done tt (record { shelf = cleaned bs; source = image' }))
    × (length image' ≡ length image)
    × IsCoherent image' (cleaned bs)
    × ((x : ℕ) → get_elem? image' x ≡ view image bs x)

Agrees-Has :
    (image image1 image' : List ℕ) (b : Block) (l : ℕ) (bs : List Block)
    → Has image1 b image
    → start b + length b.bytes ≤ l * 512
    → Above (pos l) bs
    → IsCoherent image1 bs
    → ((x : ℕ) → get_elem? image' x ≡ view image1 bs x)
    → Agrees image' b
Agrees-Has image image1 image' b l bs has h a c seen i lt =
    let e : within b (start b + i) ≡ true = ground arith in
    let at : start b + i - start b ≡ i = omega arith in
    sym
      (seen (start b + i) ∙ view-Has image image1 b l bs (start b + i) has h a c ∙ rw (e, at) refl)

module _ (image image1 : List ℕ) (b : Block) (l : ℕ) (bs : List Block) where
  synced :
      (r : Outcome (Shelf (List ℕ)) (Unit {0}))
      → IsHeld image b
      → Has image1 b image
      → length image1 ≡ length image
      → start b + length b.bytes ≤ l * 512
      → Above (pos l) bs
      → IsCoherent image1 bs
      → IsSynced image1 bs r
      → IsSynced image (b ∷ bs) (behind (clean b) r)
  synced r held has size h a c (image', q, size', c', seen) = (
    image',
    rw q,
    size' ∙ size,
    (
      record {
        at = held.at;
        sized = held.sized;
        fits = omega (arith, held.fits);
        clean = inr (Agrees-Has image image1 image' b l bs has h a c seen);
      },
      c',
    ),
    λ x. seen x ∙ view-Has image image1 b l bs x has h a c,
  )

Has-clean : (image : List ℕ) (b : Block) → Agrees image b → Has image b image
Has-clean image b same x = elim (Bool-cases (within b x)) [
  | inl e ↦
      let at : start b + (x - start b) ≡ x = ground arith in
      rw e (sym (same (x - start b) (ground arith) ∙ ap (get_elem? image) at))
  | inr e ↦ rw e refl
]

sync_dirty :
    (image : List ℕ) (b : Block) (bs : List Block)
    → IsHeld image b
    → b.dirty ≡ true
    → sync_from memory_source (b ∷ bs) image
      ≡ behind (clean b) (sync_from memory_source bs (stored image b))
unfolding sync_from
sync_dirty image b bs held e =
    ap
      (λ (t : Bool).
        if t
        then write_rest bs (sync_from memory_source bs)
            (write memory_source (record { block = b; source = image }))
        else behind b (sync_from memory_source bs image))
      e
    ∙ ap (write_rest bs (sync_from memory_source bs))
        (write_block_lem b (pos_part b.sector) image held.at held.sized held.fits)

sync_clean :
    (image : List ℕ) (b : Block) (bs : List Block)
    → b.dirty ≡ false
    → sync_from memory_source (b ∷ bs) image ≡ behind (clean b) (sync_from memory_source bs image)
unfolding sync_from
sync_clean image b bs e =
    ap
      (λ (t : Bool).
        if t
        then write_rest bs (sync_from memory_source bs)
            (write memory_source (record { block = b; source = image }))
        else behind b (sync_from memory_source bs image))
      e
    ∙ ap (λ (t : Bool). behind (record b { dirty = t }) (sync_from memory_source bs image)) e

sync_from-IsSynced :
    (image : List ℕ) (l : ℕ) (bs : List Block)
    → Above (pos l) bs
    → IsCoherent image bs
    → IsSynced image bs (sync_from memory_source bs image)
unfolding sync_from
sync_from-IsSynced image l [] a c = (image, refl, refl, tt, λ x. refl)
sync_from-IsSynced image l (b ∷ bs) a (held, c) =
    let (_, ends, above) = pass image l b bs held a in
    let image1 : List ℕ = stored image b in
    let c1 : IsCoherent image1 bs =
      stored-IsCoherent image b (pos_part b.sector + b.count) bs held.fits (omega arith) above c in
    let next = sync_from-IsSynced image1 (pos_part b.sector + b.count) bs above c1 in
    let same = sync_from-IsSynced image (pos_part b.sector + b.count) bs above c in
    elim (Bool-cases b.dirty) [
      | inl e ↦ rw (sync_dirty image b bs held e) (
          synced image image1 b (pos_part b.sector + b.count) bs _ held
            (λ x. stored-lem image b x held.fits) (length-splice image (start b) b.bytes held.fits)
            (omega arith) above c1 next)
      | inr e ↦
          let agrees : Agrees image b = elim held.clean [
            | inl dirty ↦ absurd (cc)
            | inr agrees ↦ agrees
          ] in
          rw (sync_clean image b bs e) (
            synced image image b (pos_part b.sector + b.count) bs _ held (Has-clean image b agrees)
              refl (omega arith) above c same)
    ]

-- With a memory image as the source, when the blocks of the cache ascend and do not overlap, have
-- the data of their sectors, which the image holds, and agree with the image unless they are marked
-- as changed: `sync` does not throw, and leaves an image of the same size with every byte that the
-- users of the cache saw before, the blocks with their data, none marked as changed, and a cache
-- that agrees with the image.
pub sync-IsSynced :
    (c : Cache (List ℕ))
    → Above (pos 0) c.blocks
    → IsCoherent c.source c.blocks
    → (image : List ℕ) × (sync memory_source c
        ≡ done tt (record c { source = image; blocks = cleaned c.blocks }))
      × (length image ≡ length c.source)
      × IsCoherent image (cleaned c.blocks)
      × ((x : ℕ) → get_elem? image x ≡ view c.source c.blocks x)
unfolding sync
sync-IsSynced c a h =
    let (image, q, size, coherent, seen) = sync_from-IsSynced c.source 0 c.blocks a h in
    (image, rw q, size, coherent, seen)
