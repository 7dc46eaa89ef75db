-- ===== src/BlockCache/Coherence.antt =====
-- What `getBlock` does to the disk that the users of the cache see.
use rt11fs.Base.{
  ℕ, ◌+◌, ◌-◌, ◌*◌, ◌≤◌, ◌≡◌, refl, sym, ap, ◌∙◌, inl, inr, List, [], ◌∷◌, false, Option, length,
  get_elem?, ◌==◌, arith, Bool-cases, if_intro, if◌then◌else◌, replicate, length-replicate,
}
use rt11fs.Base.{ok, fs_error, einval, Outcome, done, throw, then_do, pure, state_of}
use rt11fs.Base.Int.{pos, pos_part, neg_part, ◌+ℤ◌, ◌*ℤ◌, pos-+ℤ, pos-*ℤ, eq_ℤ, leb_ℤ}
use rt11fs.Base.Memory.{splice, slice, splice_all, length-slice, get_elem?-slice}
use rt11fs.DataSource.{memory_source, memory_read}
use rt11fs.Block.{Block, new_block, read, add_ref}
use rt11fs.Block.Sectors.{memory_read_lem}
use rt11fs.BlockCache.{Cache, Shelf, get_from, get_block, on_shelf, behind, if_read}
use rt11fs.BlockCache.Order.{Above, shelf_of}
use rt11fs.BlockCache.View.{start, within, view, Agrees, IsHeld, IsCoherent, pass, view-below}

-- The image, the agreement with it, and all that the users see of the disk are as before.
abbrev pub IsKept : List ℕ → List Block → Outcome (Shelf (List ℕ)) (Unit {0}) → Type 0
IsKept image bs r =
    ((state_of r).source ≡ image)
    × IsCoherent image (shelf_of r)
    × ((x : ℕ) → view image (shelf_of r) x ≡ view image bs x)

IsKept-err :
    (image : List ℕ) (bs : List Block)
    → IsCoherent image bs
    → IsKept image bs (throw (fs_error einval) (record { shelf = bs; source = image }))
IsKept-err image bs c = (refl, c, λ x. refl)

behind-IsKept :
    (image : List ℕ) (b : Block) (bs : List Block) (r : Outcome (Shelf (List ℕ)) (Unit {0}))
    → IsHeld image b
    → IsKept image bs r
    → IsKept image (b ∷ bs) (behind b r)
behind-IsKept image b bs (done a s) h (e, c, seen) = (
  e,
  (h, c),
  λ x. ap (λ (o : Option ℕ). if within b x then get_elem? b.bytes (x - start b) else o) (seen x),
)
behind-IsKept image b bs (throw a s) h (e, c, seen) = (
  e,
  (h, c),
  λ x. ap (λ (o : Option ℕ). if within b x then get_elem? b.bytes (x - start b) else o) (seen x),
)

-- The block of one sector, as it is read.
abbrev pub sector_of : List ℕ → ℕ → Block
sector_of image s = record (new_block (pos s) 1) {
  bytes = slice image (s * 512) 512;
  dirty = false;
}

pub read_sector :
    (image : List ℕ) (s : ℕ)
    → (s + 1) * 512 ≤ length image
    → read memory_source (record { block = new_block (pos s) 1; source = image })
      ≡ done tt (record { block = sector_of image s; source = image })
unfolding read new_block
read_sector image s fits =
    let got : memory_read image 512 (pos s *ℤ 512) ≡ (ok (slice image (s * 512) 512), image) =
      ap (memory_read image 512) (pos-*ℤ s 512)
      ∙ memory_read_lem image 512 (s * 512) (omega arith) in
    let whole : splice (replicate 512 0) 0 (slice image (s * 512) 512) ≡ slice image (s * 512) 512 =
      splice_all (replicate 512 0) (slice image (s * 512) 512)
        (length-replicate {A = ℕ} 512 0 ∙ sym (length-slice image (s * 512) 512 (omega arith))) in
    rw (got, whole) refl

read_in-IsKept :
    (image : List ℕ) (s : ℕ) (bs : List Block)
    → (s + 1) * 512 ≤ length image
    → Above (pos (s + 1)) bs
    → IsCoherent image bs
    → IsKept image bs
        (if_read bs (read memory_source (record { block = new_block (pos s) 1; source = image })))
unfolding new_block
read_in-IsKept image s bs fits a c =
    let size = length-slice image (s * 512) 512 (omega arith) in
    let same : Agrees image (sector_of image s) =
      λ i lt. get_elem?-slice image (s * 512) 512 i (omega arith) in
    rw (read_sector image s fits) (
      refl,
      (record { at = refl; sized = size; fits = omega arith; clean = inr same }, c),
      λ x. elim (Bool-cases (within (sector_of image s) x)) [
        | inl e ↦
            let at : s * 512 + (x - s * 512) ≡ x = ground arith in
            rw e (
              same (x - s * 512) (ground arith)
              ∙ ap (get_elem? image) at
              ∙ sym (view-below image (s + 1) bs x a c (ground arith)))
        | inr e ↦ rw e refl
      ],
    )

pub get_from-IsKept :
    (image : List ℕ) (l s : ℕ) (bs : List Block)
    → l ≤ s
    → (s + 1) * 512 ≤ length image
    → Above (pos l) bs
    → IsCoherent image bs
    → IsKept image bs (get_from memory_source (pos s) 1 bs image)
unfolding get_from add_ref
get_from-IsKept image l s [] h fits a c = read_in-IsKept image s [] fits tt tt
get_from-IsKept image l s (b ∷ bs) h fits a c =
    let P : Outcome (Shelf (List ℕ)) (Unit {0}) → Type 0 = IsKept image (b ∷ bs) in
    let (_, _, above) = pass image l b bs c.0 a in
    let ends : b.sector +ℤ pos b.count ≡ pos (pos_part b.sector + b.count) =
      ap (λ z. z +ℤ pos b.count) c.0.at ∙ pos-+ℤ (pos_part b.sector) b.count in
    let later : pos_part b.sector + b.count ≤ s
        → P (behind b (get_from memory_source (pos s) 1 bs image)) =
      λ k.
        behind-IsKept image b bs _ c.0
          (get_from-IsKept image (pos_part b.sector + b.count) s bs k fits above c.1) in
    if_intro P (eq_ℤ b.sector (pos s))
      (λ _.
        if_intro P (b.count == 1)
          (λ _. (
            refl,
            (record { at = c.0.at; sized = c.0.sized; fits = c.0.fits; clean = c.0.clean }, c.1),
            λ x. refl,
          ))
          (λ _. IsKept-err image (b ∷ bs) c))
      (λ other.
        if_intro P (leb_ℤ (b.sector +ℤ pos b.count) (pos s))
          (λ k. later (ground (arith, ap pos_part ends)))
          (λ before.
            if_intro P (leb_ℤ (pos s +ℤ pos 1) b.sector)
              (λ k. read_in-IsKept image s (b ∷ bs) fits (ground (arith, pos-+ℤ s 1), a.1, a.2) c)
              (λ after.
                if_intro P (b.count == 1)
                  (λ one. absurd (
                    ground (
                      arith,
                      ap pos_part ends,
                      ap neg_part ends,
                      ap neg_part c.0.at,
                      ap pos_part (pos-+ℤ s 1),
                      ap neg_part (pos-+ℤ s 1),
                    )))
                  (λ _. IsKept-err image (b ∷ bs) c))))

-- With a memory image as the source that holds the sector asked for, when the blocks of the cache
-- ascend and do not overlap, have the data of their sectors, which the image holds, and agree with
-- the image unless they are marked as changed: a request for one sector, whatever it ends in,
-- leaves the image as it is, keeps this agreement, and changes no byte that the users of the cache
-- see.
pub get_block-view :
    (s : ℕ) (c : Cache (List ℕ))
    → (s + 1) * 512 ≤ length c.source
    → Above (pos 0) c.blocks
    → IsCoherent c.source c.blocks
    → ((state_of (get_block memory_source (pos s) 1 c)).source ≡ c.source)
      × IsCoherent c.source (state_of (get_block memory_source (pos s) 1 c)).blocks
      × ((x : ℕ)
          → view c.source (state_of (get_block memory_source (pos s) 1 c)).blocks x
            ≡ view c.source c.blocks x)
unfolding get_block
get_block-view s c fits a h =
    lift (get_from memory_source (pos s) 1 c.blocks c.source)
      (get_from-IsKept c.source 0 s c.blocks (omega arith) fits a h)
  where
    lift :
        (r : Outcome (Shelf (List ℕ)) (Unit {0}))
        → IsKept c.source c.blocks r
        → ((state_of (then_do (on_shelf c r) (λ _. pure (pos s)))).source ≡ c.source)
          × IsCoherent c.source (state_of (then_do (on_shelf c r) (λ _. pure (pos s)))).blocks
          × ((x : ℕ)
              → view c.source (state_of (then_do (on_shelf c r) (λ _. pure (pos s)))).blocks x
                ≡ view c.source c.blocks x)
    lift (done x s') k = k
    lift (throw e s') k = k
