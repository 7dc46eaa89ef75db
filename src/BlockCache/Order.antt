-- ===== src/BlockCache/Order.antt =====
-- The order of the cache: blocks ascend and do not overlap.
use rt11fs.Base.{
  ℕ, ◌≤◌, ◌≡◌, refl, sym, ap, ◌∙◌, inl, inr, List, [], ◌∷◌, true, false, ◌==◌, Bool-cases, if_intro,
  arith,
}
use rt11fs.Base.{Outcome, done, throw, then_do, pure, state_of}
use rt11fs.Base.Int.{ℤ, pos, pos_part, neg_part, ◌+ℤ◌, ◌≤ℤ◌, leb_ℤ, ltb_ℤ, eq_ℤ, +ℤ_parts}
use rt11fs.DataSource.{DataSource}
use rt11fs.Block.{Block, Device, new_block, read, add_ref}
use rt11fs.Block.Sectors.{IsRead, read-IsRead, IsResized, resize-IsResized}
use rt11fs.BlockCache.{
  Cache, Shelf, behind, in_front, if_read, on_shelf, get_from, get_block, runs_into, resize_from,
  resize_block,
}

-- Every block begins at or after the end of the one before; the first begins at `low` or after.
abbrev pub Above : ℤ → List Block → Type 0
Above low [] = Unit {0}
Above low (b ∷ bs) = (low ≤ℤ b.sector) × (1 ≤ b.count) × Above (b.sector +ℤ pos b.count) bs

pub Above-mono : (l m : ℤ) (bs : List Block) → l ≤ℤ m → Above m bs → Above l bs
Above-mono l m [] h a = tt
Above-mono l m (b ∷ bs) h a = (omega arith, a.1, a.2)

abbrev pub shelf_of : {D A : Type 0} → Outcome (Shelf D) A → List Block
shelf_of r = (state_of r).shelf

room-Above :
    (b : Block) (count end : ℤ) (rest : List Block)
    → pos 1 ≤ℤ count
    → runs_into b count rest ≡ false
    → Above end rest
    → Above (b.sector +ℤ pos (pos_part count)) rest
room-Above b count end [] h free a = tt
room-Above b count end (next ∷ rest) h free a =
    (ground (arith, +ℤ_parts b.sector count, +ℤ_parts b.sector (pos (pos_part count))), a.1, a.2)

module _ {D : Type 0} (ds : DataSource D) where
  read_in-Above :
      (low sector : ℤ) (count : ℕ) (rest : List Block) (d : D)
      → low ≤ℤ sector
      → 1 ≤ count
      → Above (sector +ℤ pos count) rest
      → Above low (
          shelf_of (if_read rest (read ds (record { block = new_block sector count; source = d }))))
  unfolding new_block
  read_in-Above low sector count rest d h hc a =
      by_read _ (read-IsRead ds (record { block = new_block sector count; source = d }))
    where
      by_read :
          (r : Outcome (Device D) (Unit {0}))
          → IsRead (record { block = new_block sector count; source = d }) r
          → Above low (shelf_of (if_read rest r))
      by_read r (inl (e, d', q)) =
          rw q (
            Above-mono low (sector +ℤ pos count) rest (omega (arith, +ℤ_parts sector (pos count)))
              a)
      by_read r (inr (b, d', q, es, ec, _, _)) = rw q (rw es h, rw ec hc, rw (es, ec) a)

  -- `behind` keeps the order if the rest does.
  behind-Above :
      {A : Type 0} (low : ℤ) (b : Block) (r : Outcome (Shelf D) A)
      → low ≤ℤ b.sector
      → 1 ≤ b.count
      → Above (b.sector +ℤ pos b.count) (shelf_of r)
      → Above low (shelf_of (behind b r))
  behind-Above low b (done a s) h hc rest = (h, hc, rest)
  behind-Above low b (throw e s) h hc rest = (h, hc, rest)

  pub get_from-Above :
      (low sector : ℤ) (bs : List Block) (d : D)
      → low ≤ℤ sector
      → Above low bs
      → Above low (shelf_of (get_from ds sector 1 bs d))
  unfolding get_from add_ref
  get_from-Above low sector [] d h a = read_in-Above low sector 1 [] d h (omega arith) tt
  get_from-Above low sector (b ∷ rest) d h a =
      let P : Outcome (Shelf D) (Unit {0}) → Type 0 = λ r. Above low (shelf_of r) in
      let later : b.sector +ℤ pos b.count ≤ℤ sector → P (behind b (get_from ds sector 1 rest d)) =
        λ k.
          behind-Above low b _ a.0 a.1
            (get_from-Above (b.sector +ℤ pos b.count) sector rest d k a.2) in
      if_intro P (eq_ℤ b.sector sector)
        (λ _. if_intro P (b.count == 1) (λ _. (a.0, a.1, a.2)) (λ _. a))
        (λ other.
          if_intro P (leb_ℤ (b.sector +ℤ pos b.count) sector) (λ k. later (ground arith))
            (λ before.
              if_intro P (leb_ℤ (sector +ℤ pos 1) b.sector)
                (λ k.
                  read_in-Above low sector 1 (b ∷ rest) d h (omega arith) (ground arith, a.1, a.2))
                (λ after.
                  if_intro P (b.count == 1)
                    (λ one.
                      absurd
                        (ground (arith, +ℤ_parts b.sector (pos b.count), +ℤ_parts sector (pos 1))))
                    (λ _. a))))

  pub resize_from-Above :
      (low bp count : ℤ) (bs : List Block) (d : D)
      → pos 1 ≤ℤ count
      → Above low bs
      → Above low (shelf_of (resize_from ds bp count bs d))
  unfolding resize_from
  resize_from-Above low bp count [] d h a = tt
  resize_from-Above low bp count (b ∷ rest) d h a =
      let P : Outcome (Shelf D) (Unit {0}) → Type 0 = λ r. Above low (shelf_of r) in
      if_intro P (eq_ℤ b.sector bp)
        (λ _.
          if_intro P (runs_into b count rest) (λ _. a)
            (λ free.
              fit _ (resize-IsResized ds (pos_part count) (record { block = b; source = d })) free))
        (λ _.
          behind-Above low b _ a.0 a.1
            (resize_from-Above (b.sector +ℤ pos b.count) bp count rest d h a.2))
    where
      fit :
          (r : Outcome (Device D) (Unit {0}))
          → IsResized b (pos_part count) r
          → runs_into b count rest ≡ false
          → Above low (shelf_of (in_front rest r))
      fit r (inl (e, s, q, es, ec)) free = rw q (rw es a.0, rw ec a.1, rw (es, ec) a.2)
      fit r (inr (s, q, es, ec)) free =
          rw q (rw es a.0, rw ec (omega arith), rw (es, ec) (room-Above b count _ rest h free a.2))

  -- Whatever it ends in, a request for one sector, of a number that is not negative, keeps the
  -- blocks of the cache in order and apart, if they were.
  get_block-Above :
      (sector : ℤ) (c : Cache D)
      → pos 0 ≤ℤ sector
      → Above (pos 0) c.blocks
      → Above (pos 0) (state_of (get_block ds sector 1 c)).blocks
  unfolding get_block
  get_block-Above sector c h a =
      lift (get_from ds sector 1 c.blocks c.source)
        (get_from-Above (pos 0) sector c.blocks c.source h a)
    where
      lift :
          (r : Outcome (Shelf D) (Unit {0}))
          → Above (pos 0) (shelf_of r)
          → Above (pos 0) (state_of (then_do (on_shelf c r) (λ _. pure sector))).blocks
      lift (done x s) a = a
      lift (throw e s) a = a

  -- Whatever it ends in, a change of the size of a block, to whatever size, keeps the blocks of
  -- the cache in order and apart, if they were.
  resize_block-Above :
      (bp count : ℤ) (c : Cache D)
      → Above (pos 0) c.blocks
      → Above (pos 0) (state_of (resize_block ds bp count c)).blocks
  unfolding resize_block
  resize_block-Above bp count c a = elim (Bool-cases (leb_ℤ count (pos 0))) [
    | inl e ↦ rw e a
    | inr e ↦ rw e (
        lift (resize_from ds bp count c.blocks c.source)
          (resize_from-Above (pos 0) bp count c.blocks c.source (ground arith) a))
  ]
    where
      lift :
          (r : Outcome (Shelf D) (Unit {0}))
          → Above (pos 0) (shelf_of r)
          → Above (pos 0) (state_of (on_shelf c r)).blocks
      lift (done x s) a = a
      lift (throw e s) a = a

  -- The cache behind a block has room for the sectors.
  abbrev pub IsFree : ℤ → List Block → Type 0
  IsFree end [] = Unit {0}
  IsFree end (next ∷ rest) = end ≤ℤ next.sector

  read_before :
      (sector : ℤ) (count : ℕ) (rest : List Block) (d : D)
      → 1 ≤ count
      → IsFree (sector +ℤ pos count) rest
      → get_from ds sector count rest d
        ≡ if_read rest (read ds (record { block = new_block sector count; source = d }))
  unfolding get_from
  read_before sector count [] d h free = refl
  read_before sector count (n ∷ rest) d h free =
      let e1 : eq_ℤ n.sector sector ≡ false = ground (arith, +ℤ_parts sector (pos count)) in
      let e2 : leb_ℤ (n.sector +ℤ pos n.count) sector ≡ false =
        ground (arith, +ℤ_parts sector (pos count), +ℤ_parts n.sector (pos n.count)) in
      let e3 : leb_ℤ (sector +ℤ pos count) n.sector ≡ true = ground (arith, free) in
      rw (e1, e2, e3) refl

  -- A request for as many sectors as a block of the cache has that begins inside that block, and
  -- that is free of the blocks behind it, is not refused: if the sectors can be read, the new block
  -- joins the cache, and the blocks of the cache overlap.
  pub overlap_admitted :
      (b : Block) (rest : List Block) (sector : ℤ) (d : D) (s : Device D)
      → ltb_ℤ b.sector sector ≡ true
      → ltb_ℤ sector (b.sector +ℤ pos b.count) ≡ true
      → IsFree (sector +ℤ pos b.count) rest
      → read ds (record { block = new_block sector b.count; source = d }) ≡ done tt s
      → (get_from ds sector b.count (b ∷ rest) d
          ≡ done tt (record { shelf = b ∷ s.block ∷ rest; source = s.source }))
        × ((low : ℤ) → ¬ Above low (b ∷ s.block ∷ rest))
  unfolding get_from new_block
  overlap_admitted b rest sector d s more inside free found =
      let e1 : eq_ℤ b.sector sector ≡ false = ground (arith, more) in
      let e2 : leb_ℤ (b.sector +ℤ pos b.count) sector ≡ false = ground (arith, inside) in
      let e3 : leb_ℤ (sector +ℤ pos b.count) b.sector ≡ false =
        ground (arith, more, +ℤ_parts sector (pos b.count)) in
      let e4 : (b.count == b.count) ≡ true = ground arith in
      let some_sectors : 1 ≤ b.count =
        ground (arith, more, inside, +ℤ_parts b.sector (pos b.count)) in
      (
        rw (e1, e2, e3, e4, read_before sector b.count rest d some_sectors free, found) refl,
        λ low a.
            clash low a (read-IsRead ds (record { block = new_block sector b.count; source = d })),
      )
    where
      clash :
          (low : ℤ)
          → Above low (b ∷ s.block ∷ rest)
          → IsRead
              (record { block = new_block sector b.count; source = d })
              (read ds (record { block = new_block sector b.count; source = d }))
          → ⊥
      clash low a (inl (e, d', q)) = cc
      clash low a (inr (n, d', q, es, _, _, _)) =
          let same : n ≡ s.block = cc in
          let at : s.block.sector ≡ sector = ap (λ (t : Block). t.sector) (sym same) ∙ es in
          absurd (ground (arith, a.2.0, ap pos_part at, ap neg_part at, inside))
