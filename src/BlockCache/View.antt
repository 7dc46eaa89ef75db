-- ===== src/BlockCache/View.antt =====
-- The disk as the users of the cache see it: a byte of a block in memory, or else of the image.
use rt11fs.Base.{
  ℕ, ◌+◌, ◌-◌, ◌*◌, ◌≤◌, ◌<◌, ◌≡◌, refl, sym, ap, ◌∙◌, ◌⊎◌, inl, inr, List, [], ◌∷◌, Bool, true,
  false, ◌&&◌, Option, length, get_elem?, ltb, leb, arith, if◌then◌else◌,
}
use rt11fs.Base.Int.{pos, pos_part, neg_part, ◌+ℤ◌, pos-+ℤ}
use rt11fs.Base.Memory.{splice, get_elem?-splice, length-splice}
use rt11fs.Block.{Block}
use rt11fs.Block.Sectors.{IsSized}
use rt11fs.BlockCache.Order.{Above}

-- Where the data of a block begins in the image.
abbrev pub start : Block → ℕ
start b = pos_part b.sector * 512

abbrev pub within : Block → ℕ → Bool
within b x = leb (start b) x && ltb x (start b + length b.bytes)

-- The byte at an offset into the disk.
abbrev pub view : List ℕ → List Block → ℕ → Option ℕ
view image [] x = get_elem? image x
view image (b ∷ bs) x =
    let rest = view image bs x in if within b x then get_elem? b.bytes (x - start b) else rest

-- The data of the block is that of the image.
abbrev pub Agrees : List ℕ → Block → Type 0
Agrees image b = (i : ℕ) → i < length b.bytes → get_elem? b.bytes i ≡ get_elem? image (start b + i)

-- A block of sectors of the image; if it is not marked as changed, it agrees with the image.
pub record IsHeld (image : List ℕ) (b : Block) : Type 0 where
  pub at : b.sector ≡ pos (pos_part b.sector)
  pub sized : IsSized b
  pub fits : start b + length b.bytes ≤ length image
  pub clean : (b.dirty ≡ true) ⊎ Agrees image b

-- Every block of the cache is one of the image.
abbrev pub IsCoherent : List ℕ → List Block → Type 0
IsCoherent image [] = Unit {0}
IsCoherent image (b ∷ bs) = IsHeld image b × IsCoherent image bs

pub pass :
    (image : List ℕ) (l : ℕ) (b : Block) (bs : List Block)
    → IsHeld image b
    → Above (pos l) (b ∷ bs)
    → (l * 512 ≤ start b)
      × (start b + length b.bytes ≡ (pos_part b.sector + b.count) * 512)
      × Above (pos (pos_part b.sector + b.count)) bs
pass image l b bs held (le, one, a) = (
  omega (arith, ap neg_part held.at),
  omega (arith, held.sized),
  (let e : b.sector +ℤ pos b.count ≡ pos (pos_part b.sector + b.count) =
        ap (λ z. z +ℤ pos b.count) held.at ∙ pos-+ℤ (pos_part b.sector) b.count in
      rw (sym e) a),
)

-- Before the first block the users see the image.
pub view-below :
    (image : List ℕ) (l : ℕ) (bs : List Block) (x : ℕ)
    → Above (pos l) bs
    → IsCoherent image bs
    → x < l * 512
    → view image bs x ≡ get_elem? image x
view-below image l [] x a c h = refl
view-below image l (b ∷ bs) x a c h =
    let p = pass image l b bs c.0 a in
    let before : within b x ≡ false = ground (arith, p.0) in
    rw before
      (view-below image (pos_part b.sector + b.count) bs x p.2 c.1 (omega (arith, p.0, p.1)))

-- What the users see of the blocks depends on the image where no block is in memory.
pub view-image :
    (image image' : List ℕ) (bs : List Block) (x : ℕ)
    → get_elem? image' x ≡ get_elem? image x
    → view image' bs x ≡ view image bs x
view-image image image' [] x h = h
view-image image image' (b ∷ bs) x h =
    ap (λ (o : Option ℕ). if within b x then get_elem? b.bytes (x - start b) else o)
      (view-image image image' bs x h)

-- The image after a block is written.
abbrev pub stored : List ℕ → Block → List ℕ
stored image b = splice image (start b) b.bytes

pub stored-lem :
    (image : List ℕ) (b : Block) (x : ℕ)
    → start b + length b.bytes ≤ length image
    → get_elem? (stored image b) x
      ≡ (if within b x then get_elem? b.bytes (x - start b) else get_elem? image x)
stored-lem image b x h = get_elem?-splice image (start b) b.bytes x h

-- Blocks behind a block keep their data when it is written.
pub stored-IsCoherent :
    (image : List ℕ) (b : Block) (l : ℕ) (bs : List Block)
    → start b + length b.bytes ≤ length image
    → start b + length b.bytes ≤ l * 512
    → Above (pos l) bs
    → IsCoherent image bs
    → IsCoherent (stored image b) bs
stored-IsCoherent image b l [] fits h a c = tt
stored-IsCoherent image b l (d ∷ bs) fits h a (held, c) =
    let p = pass image l d bs held a in
    (
      record {
        at = held.at;
        sized = held.sized;
        fits = omega (arith, held.fits, length-splice image (start b) b.bytes fits);
        clean = elim held.clean [
          | inl dirty ↦ inl dirty
          | inr same ↦ inr λ i lt.
              let out : within b (start d + i) ≡ false = ground (arith, p.0) in
              same i lt ∙ sym (stored-lem image b (start d + i) fits ∙ rw out refl)
        ];
      },
      stored-IsCoherent image b (pos_part d.sector + d.count) bs fits (omega (arith, p.0, p.1)) p.2
          c,
    )
