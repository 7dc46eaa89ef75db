-- ===== src/BlockCache/Invariant.antt =====
-- What every use of the cache keeps: the blocks ascend, do not overlap, and each has the data of
-- its sectors.
use rt11fs.Base.{
  ℕ, ◌*◌, ◌≡◌, refl, inl, inr, List, [], ◌∷◌, length, ◌==◌, Bool-cases, if_intro, arith,
  length-replicate,
}
use rt11fs.Base.{IfDone, KeepsIfDone, Keeps, Outcome, done, throw, Action, then_do, pure, state_of}
use rt11fs.Base.Int.{ℤ, pos, pos_part, ◌≤ℤ◌, leb_ℤ, eq_ℤ, ◌+ℤ◌}
use rt11fs.DataSource.{DataSource, ReadsInFull}
use rt11fs.Block.{Block, Device, new_block, read, write, add_ref}
use rt11fs.Block.Sectors.{IsSized}
use rt11fs.Block.Invariant.{HasShape, read-IsSized, resize-IsSized, write-HasShape, release-Keeps}
use rt11fs.BlockCache.{
  Cache, Shelf, behind, if_read, on_shelf, on_blocks, in_place, after_block, run_at, with_block,
  put_block, write_rest, get_from, get_block, sync_from, sync, in_front, resize_from, resize_block,
  runs_into,
}
use rt11fs.BlockCache.Order.{Above, Above-mono, shelf_of, get_from-Above, resize_from-Above}

abbrev pub AllSized : List Block → Type 0
AllSized [] = Unit {0}
AllSized (b ∷ bs) = IsSized b × AllSized bs

-- The blocks from `low` on.
abbrev pub IsLaidOut : ℤ → List Block → Type 0
IsLaidOut low bs = Above low bs × AllSized bs

abbrev pub IsWellFormed : {D : Type 0} → Cache D → Type 0
IsWellFormed c = (low : ℤ) × IsLaidOut low c.blocks

-- An action on a block that changes neither its place nor its size.
abbrev pub KeepsShape : {A : Type 0} → Action Block A → Type 0
KeepsShape m = (sector : ℤ) (count size : ℕ) → Keeps (HasShape sector count size) m

pub IsLaidOut-again :
    (low : ℤ) (b b' : Block) (rest : List Block)
    → HasShape b.sector b.count (length b.bytes) b'
    → IsLaidOut low (b ∷ rest)
    → IsLaidOut low (b' ∷ rest)
IsLaidOut-again low b b' rest h ((le, one, above), (sized, all)) =
    let es : b'.sector ≡ b.sector = h.same_sector in
    let ec : b'.count ≡ b.count = h.same_count in
    let el : length b'.bytes ≡ length b.bytes = h.same_size in
    ((rw es le, rw ec one, rw (es, ec) above), (rw (el, ec) sized, all))

pub same_shape : (b : Block) → HasShape b.sector b.count (length b.bytes) b
same_shape b = record { same_sector = refl; same_count = refl; same_size = refl }

run_at-IsLaidOut :
    {A : Type 0} (low bp : ℤ) (m : Action Block A) (bs : List Block)
    → KeepsShape m
    → IsLaidOut low bs
    → IsLaidOut low (state_of (run_at bp m bs))
unfolding run_at
run_at-IsLaidOut low bp m [] k h = h
run_at-IsLaidOut {A} low bp m (b ∷ rest) k h = elim (Bool-cases (eq_ℤ b.sector bp)) [
  | inl e ↦ rw e (here (m b) ((k b.sector b.count (length b.bytes)).at b (same_shape b)))
  | inr e ↦ rw e (
      there (run_at bp m rest)
        (run_at-IsLaidOut (b.sector +ℤ pos b.count) bp m rest k (h.0.2, h.1.1)))
]
  where
    here :
        (o : Outcome Block A)
        → HasShape b.sector b.count (length b.bytes) (state_of o)
        → IsLaidOut low (state_of (in_place rest o))
    here (done a b') s = IsLaidOut-again low b b' rest s h
    here (throw e b') s = IsLaidOut-again low b b' rest s h

    there :
        (o : Outcome (List Block) A)
        → IsLaidOut (b.sector +ℤ pos b.count) (state_of o)
        → IsLaidOut low (state_of (after_block b o))
    there (done a bs) (above, all) = ((h.0.0, h.0.1, above), (h.1.0, all))
    there (throw e bs) (above, all) = ((h.0.0, h.0.1, above), (h.1.0, all))

module _ {D : Type 0} where
  pub with_block-Keeps :
      {A : Type 0} (bp : ℤ) (m : Action Block A)
      → KeepsShape m
      → Keeps (IsWellFormed {D = D}) (with_block bp m)
  unfolding with_block
  with_block-Keeps {A} bp m k = record {
    at = λ c (low, h).
        (low, step c low (run_at bp m c.blocks) (run_at-IsLaidOut low bp m c.blocks k h));
  }
    where
      step :
          (c : Cache D) (low : ℤ) (o : Outcome (List Block) A)
          → IsLaidOut low (state_of o)
          → IsLaidOut low (state_of (on_blocks c o)).blocks
      step c low (done a bs) h = h
      step c low (throw e bs) h = h

  pub put_block-Keeps : (bp : ℤ) → Keeps (IsWellFormed {D = D}) (put_block bp)
  unfolding put_block
  put_block-Keeps bp = with_block-Keeps bp _ (λ sector count size. release-Keeps)

module _ {D : Type 0} (ds : DataSource D) where
  if_read-AllSized :
      {A : Type 0} (rest : List Block) (r : Outcome (Device D) A)
      → AllSized rest
      → IsSized (state_of r).block
      → AllSized (shelf_of (if_read rest r))
  if_read-AllSized rest (done a s) all sized = (sized, all)
  if_read-AllSized rest (throw e s) all sized = all

  read_in-AllSized :
      (full : ReadsInFull ds) (sector : ℤ) (count : ℕ) (rest : List Block) (d : D)
      → AllSized rest
      → AllSized (
          shelf_of (if_read rest (read ds (record { block = new_block sector count; source = d }))))
  unfolding new_block
  read_in-AllSized full sector count rest d all = if_read-AllSized rest _ all (
      read-IsSized ds full (record { block = new_block sector count; source = d })
        (length-replicate (count * 512) 0))

  behind-AllSized :
      {A : Type 0} (b : Block) (r : Outcome (Shelf D) A)
      → IsSized b
      → AllSized (shelf_of r)
      → AllSized (shelf_of (behind b r))
  behind-AllSized b (done a s) sized all = (sized, all)
  behind-AllSized b (throw e s) sized all = (sized, all)

  get_from-AllSized :
      (full : ReadsInFull ds) (sector : ℤ) (count : ℕ) (bs : List Block) (d : D)
      → AllSized bs
      → AllSized (shelf_of (get_from ds sector count bs d))
  unfolding get_from add_ref
  get_from-AllSized full sector count [] d all = read_in-AllSized full sector count [] d all
  get_from-AllSized full sector count (b ∷ rest) d all =
      let P : Outcome (Shelf D) (Unit {0}) → Type 0 = λ r. AllSized (shelf_of r) in
      let later : P (behind b (get_from ds sector count rest d)) =
        behind-AllSized b _ all.0 (get_from-AllSized full sector count rest d all.1) in
      if_intro P (eq_ℤ b.sector sector) (λ _. if_intro P (b.count == count) (λ _. all) (λ _. all))
        (λ _.
          if_intro P (leb_ℤ (b.sector +ℤ pos b.count) sector) (λ _. later)
            (λ _.
              if_intro P (leb_ℤ (sector +ℤ pos count) b.sector)
                (λ _. read_in-AllSized full sector count (b ∷ rest) d all)
                (λ _. if_intro P (b.count == count) (λ _. later) (λ _. all))))

  pub get_block-Keeps :
      (full : ReadsInFull ds) (sector : ℤ) → Keeps IsWellFormed (get_block ds sector 1)
  unfolding get_block
  get_block-Keeps full sector = record {
    at = λ c (low, (above, all)). elim (Bool-cases (leb_ℤ low sector)) [
      | inl e ↦ (low, found c low above all (ground arith))
      | inr e ↦ (
        sector,
        found c sector (Above-mono sector low c.blocks (ground arith) above) all (ground arith),
      )
    ];
  }
    where
      lift :
          (c : Cache D) (low : ℤ) (r : Outcome (Shelf D) (Unit {0}))
          → IsLaidOut low (shelf_of r)
          → IsLaidOut low (state_of (then_do (on_shelf c r) (λ _. pure sector))).blocks
      lift c low (done x s) h = h
      lift c low (throw e s) h = h

      found :
          (c : Cache D) (low : ℤ)
          → Above low c.blocks
          → AllSized c.blocks
          → low ≤ℤ sector
          → IsLaidOut low (state_of (get_block ds sector 1 c)).blocks
      found c low above all h = lift c low (get_from ds sector 1 c.blocks c.source) (
        get_from-Above ds low sector c.blocks c.source h above,
        get_from-AllSized full sector 1 c.blocks c.source all,
      )

  behind-IsLaidOut :
      {A : Type 0} (low : ℤ) (b b' : Block) (rest : List Block) (r : Outcome (Shelf D) A)
      → HasShape b.sector b.count (length b.bytes) b'
      → IsLaidOut low (b ∷ rest)
      → IsLaidOut (b.sector +ℤ pos b.count) (shelf_of r)
      → IsLaidOut low (shelf_of (behind b' r))
  behind-IsLaidOut low b b' rest (done a s) shape h (above, all) =
      IsLaidOut-again low b b' s.shelf shape ((h.0.0, h.0.1, above), (h.1.0, all))
  behind-IsLaidOut low b b' rest (throw e s) shape h (above, all) =
      IsLaidOut-again low b b' s.shelf shape ((h.0.0, h.0.1, above), (h.1.0, all))

  write_rest-IsLaidOut :
      (low : ℤ) (b : Block) (rest : List Block) (next : D → Outcome (Shelf D) (Unit {0}))
      (r : Outcome (Device D) (Unit {0}))
      → IsLaidOut low (b ∷ rest)
      → ((t : D) → IsLaidOut (b.sector +ℤ pos b.count) (shelf_of (next t)))
      → HasShape b.sector b.count (length b.bytes) (state_of r).block
      → IsLaidOut low (shelf_of (write_rest rest next r))
  write_rest-IsLaidOut low b rest next (done x s) h k shape =
      behind-IsLaidOut low b s.block rest (next s.source) shape h (k s.source)
  write_rest-IsLaidOut low b rest next (throw e s) h k shape =
      IsLaidOut-again low b s.block rest shape h

  sync_from-IsLaidOut :
      (low : ℤ) (bs : List Block) (d : D)
      → IsLaidOut low bs
      → IsLaidOut low (shelf_of (sync_from ds bs d))
  unfolding sync_from
  sync_from-IsLaidOut low [] d h = h
  sync_from-IsLaidOut low (b ∷ rest) d ((le, one, above), (sized, all)) =
      let next : (t : D) → IsLaidOut (b.sector +ℤ pos b.count) (shelf_of (sync_from ds rest t)) =
        λ t. sync_from-IsLaidOut (b.sector +ℤ pos b.count) rest t (above, all) in
      let P : Outcome (Shelf D) (Unit {0}) → Type 0 = λ r. IsLaidOut low (shelf_of r) in
      let written : Outcome (Device D) (Unit {0}) = write ds (record { block = b; source = d }) in
      if_intro P b.dirty
        (λ _.
          write_rest-IsLaidOut low b rest (sync_from ds rest) written
            ((le, one, above), (sized, all)) next
            (write-HasShape ds (record { block = b; source = d })))
        (λ _.
          behind-IsLaidOut low b b rest (sync_from ds rest d) (same_shape b)
            ((le, one, above), (sized, all)) (next d))

  pub sync-Keeps : Keeps IsWellFormed (sync ds)
  unfolding sync
  sync-Keeps = record {
    at = λ c (low, h). (
      low,
      lift c low (sync_from ds c.blocks c.source) (sync_from-IsLaidOut low c.blocks c.source h),
    );
  }
    where
      lift :
          (c : Cache D) (low : ℤ) (r : Outcome (Shelf D) (Unit {0}))
          → IsLaidOut low (shelf_of r)
          → IsLaidOut low (state_of (on_shelf c r)).blocks
      lift c low (done x s) h = h
      lift c low (throw e s) h = h

  in_front-AllSized :
      (rest : List Block) (r : Outcome (Device D) (Unit {0}))
      → AllSized rest
      → IfDone (λ t. IsSized t.block) r
      → IfDone (λ t. AllSized t.shelf) (in_front rest r)
  in_front-AllSized rest (done x s) all sized = (sized, all)
  in_front-AllSized rest (throw e s) all sized = tt

  behind-IfDone :
      (b : Block) (r : Outcome (Shelf D) (Unit {0}))
      → IsSized b
      → IfDone (λ t. AllSized t.shelf) r
      → IfDone (λ t. AllSized t.shelf) (behind b r)
  behind-IfDone b (done x s) sized all = (sized, all)
  behind-IfDone b (throw e s) sized all = tt

  resize_from-AllSized :
      (full : ReadsInFull ds) (bp count : ℤ) (bs : List Block) (d : D)
      → AllSized bs
      → IfDone (λ t. AllSized t.shelf) (resize_from ds bp count bs d)
  unfolding resize_from
  resize_from-AllSized full bp count [] d all = tt
  resize_from-AllSized full bp count (b ∷ rest) d all =
      let P : Outcome (Shelf D) (Unit {0}) → Type 0 = IfDone (λ t. AllSized t.shelf) in
      if_intro P (eq_ℤ b.sector bp)
        (λ _.
          if_intro P (runs_into b count rest) (λ _. tt)
            (λ _.
              in_front-AllSized rest _ all.1
                (resize-IsSized ds full (pos_part count) (record { block = b; source = d }) all.0)))
        (λ _. behind-IfDone b _ all.0 (resize_from-AllSized full bp count rest d all.1))

  -- A change of the size of a block that does not throw keeps them as well.
  pub resize_block-KeepsIfDone :
      (full : ReadsInFull ds) (bp count : ℤ) → KeepsIfDone IsWellFormed (resize_block ds bp count)
  unfolding resize_block
  resize_block-KeepsIfDone full bp count = record {
    at = λ c (low, (above, all)). elim (Bool-cases (leb_ℤ count (pos 0))) [
      | inl e ↦ rw e tt
      | inr e ↦ rw e (
          lift c low (resize_from ds bp count c.blocks c.source)
            (resize_from-Above ds low bp count c.blocks c.source (ground arith) above)
            (resize_from-AllSized full bp count c.blocks c.source all))
    ];
  }
    where
      lift :
          (c : Cache D) (low : ℤ) (r : Outcome (Shelf D) (Unit {0}))
          → Above low (shelf_of r)
          → IfDone (λ t. AllSized t.shelf) r
          → IfDone IsWellFormed (on_shelf c r)
      lift c low (done x s) above all = (low, (above, all))
      lift c low (throw e s) above all = tt
