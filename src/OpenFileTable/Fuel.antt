-- ===== src/OpenFileTable/Fuel.antt =====
-- `readFile` and `writeFile`: the loops end after at most as many rounds as they have bytes to copy.
use rt11fs.Base.{
  if◌then◌else◌, length, drop, length-drop, ltb, ◌&&◌, ℕ, zero, suc, ◌+◌, ◌-◌, ◌/◌, ◌%◌, ◌≤◌, ◌≡◌,
  refl, min, List, [], ◌∷◌, Bool, true, false, ◌||◌, ◌==◌, leb, if_intro, inl, inr, arith,
}
use rt11fs.Base.{
  Fault, fs_error, out_of_range, assertion, undefined, no_fuel, Outcome, done, throw, Action,
  then_do, pure,
}
use rt11fs.Base.Int.{ℤ, pos, ◌+ℤ◌, leb_ℤ, eq_ℤ}
use rt11fs.DataSource.{DataSource}
use rt11fs.Block.{Block, Device, read, release, copy_out, copy_in, zero_fill}
use rt11fs.Block.Sectors.{read-IsRead}
use rt11fs.BlockCache.{
  Cache, Shelf, behind, if_read, on_shelf, in_place, after_block, on_blocks, run_at, with_block,
  put_block, get_from, get_block,
}
use rt11fs.Directory.Operations.{Directory}
use rt11fs.OpenFileTable.{read_from, write_from}

abbrev is_fuel : Fault → Bool
is_fuel no_fuel = true
is_fuel (fs_error e) = false
is_fuel out_of_range = false
is_fuel assertion = false
is_fuel undefined = false

-- The fuel did not run out.
abbrev pub IsFueled : {S A : Type 0} → Outcome S A → Type 0
IsFueled (done a s) = Unit {0}
IsFueled (throw e s) = is_fuel e ≡ false

then_do-IsFueled :
    {S A B : Type 0} (o : Outcome S A) (f : A → Action S B)
    → IsFueled o
    → ((a : A) (s : S) → IsFueled (f a s))
    → IsFueled (then_do o f)
then_do-IsFueled (done a s) f h g = g a s
then_do-IsFueled (throw e s) f h g = h

in_place-IsFueled :
    {A : Type 0} (bs : List Block) (o : Outcome Block A) → IsFueled o → IsFueled (in_place bs o)
in_place-IsFueled bs (done a b) h = tt
in_place-IsFueled bs (throw e b) h = h

after_block-IsFueled :
    {A : Type 0} (b : Block) (o : Outcome (List Block) A) → IsFueled o → IsFueled (after_block b o)
after_block-IsFueled b (done a bs) h = tt
after_block-IsFueled b (throw e bs) h = h

run_at-IsFueled :
    {A : Type 0} (bp : ℤ) (m : Action Block A) (bs : List Block)
    → ((b : Block) → IsFueled (m b))
    → IsFueled (run_at bp m bs)
unfolding run_at
run_at-IsFueled bp m [] h = refl
run_at-IsFueled bp m (b ∷ bs) h =
    if_intro IsFueled (eq_ℤ b.sector bp) (λ _. in_place-IsFueled bs (m b) (h b))
      (λ _. after_block-IsFueled b (run_at bp m bs) (run_at-IsFueled bp m bs h))

with_block-IsFueled :
    {D A : Type 0} (bp : ℤ) (m : Action Block A) (c : Cache D)
    → ((b : Block) → IsFueled (m b))
    → IsFueled (with_block bp m c)
unfolding with_block
with_block-IsFueled {D} {A} bp m c h = lift (run_at bp m c.blocks) (run_at-IsFueled bp m c.blocks h)
  where
    lift : (o : Outcome (List Block) A) → IsFueled o → IsFueled (on_blocks c o)
    lift (done a bs) k = tt
    lift (throw e bs) k = k

copy_out-IsFueled : (i n : ℤ) (b : Block) → IsFueled (copy_out i n b)
unfolding copy_out
copy_out-IsFueled i n b = ground arith

copy_in-IsFueled : (i n : ℤ) (src : List ℕ) (b : Block) → IsFueled (copy_in i n src b)
unfolding copy_in
copy_in-IsFueled i n src b = ground arith

zero_fill-IsFueled : (i n : ℤ) (b : Block) → IsFueled (zero_fill i n b)
unfolding zero_fill
zero_fill-IsFueled i n b = ground arith

module _ {D : Type 0} (ds : DataSource D) where
  read-IsFueled : (s : Device D) → IsFueled (read ds s)
  read-IsFueled s = elim (read-IsRead ds s) [
    | inl (e, d, q) ↦ rw q refl
    | inr (b, d, q, _, _, _, _) ↦ rw q tt
  ]

  if_read-IsFueled : (bs : List Block) (s : Device D) → IsFueled (if_read bs (read ds s))
  if_read-IsFueled bs s = lift (read ds s) (read-IsFueled s)
    where
      lift : (o : Outcome (Device D) (Unit {0})) → IsFueled o → IsFueled (if_read bs o)
      lift (done a t) k = tt
      lift (throw e t) k = k

  behind-IsFueled :
      (b : Block) (o : Outcome (Shelf D) (Unit {0})) → IsFueled o → IsFueled (behind b o)
  behind-IsFueled b (done a t) h = tt
  behind-IsFueled b (throw e t) h = h

  get_from-IsFueled :
      (sector : ℤ) (count : ℕ) (bs : List Block) (d : D) → IsFueled (get_from ds sector count bs d)
  unfolding get_from
  get_from-IsFueled sector count [] d = if_read-IsFueled [] _
  get_from-IsFueled sector count (bp ∷ rest) d =
      let later =
        behind-IsFueled bp (get_from ds sector count rest d)
          (get_from-IsFueled sector count rest d) in
      if_intro IsFueled (eq_ℤ bp.sector sector)
        (λ _. if_intro IsFueled (bp.count == count) (λ _. tt) (λ _. refl))
        (λ _.
          if_intro IsFueled (leb_ℤ (bp.sector +ℤ pos bp.count) sector) (λ _. later)
            (λ _.
              if_intro IsFueled (leb_ℤ (sector +ℤ pos count) bp.sector)
                (λ _. if_read-IsFueled (bp ∷ rest) _)
                (λ _. if_intro IsFueled (bp.count == count) (λ _. later) (λ _. refl))))

  get_block-IsFueled :
      (sector : ℤ) (count : ℕ) (c : Cache D) → IsFueled (get_block ds sector count c)
  unfolding get_block
  get_block-IsFueled sector count c =
      then_do-IsFueled (on_shelf c (get_from ds sector count c.blocks c.source)) _
        (lift (get_from ds sector count c.blocks c.source)
          (get_from-IsFueled sector count c.blocks c.source))
        (λ _ _. tt)
    where
      lift : (o : Outcome (Shelf D) (Unit {0})) → IsFueled o → IsFueled (on_shelf c o)
      lift (done a t) k = tt
      lift (throw e t) k = k

  -- The loop of `readFile` with as much fuel as bytes to read, or more, does not run out of it,
  -- whatever the cache, the source and the file.
  pub read_from-IsFueled :
      (dir : Directory) (fuel file_length : ℕ) (sector0 : ℤ) (left offset : ℕ) (c : Cache D)
      → left ≤ fuel
      → IsFueled (read_from ds dir fuel file_length sector0 left offset c)
  unfolding read_from put_block
  read_from-IsFueled dir zero file_length sector0 left offset c h = ground arith
  read_from-IsFueled dir (suc fuel) file_length sector0 left offset c h =
      let n : ℕ = min (512 - offset % 512) left in
      if_intro {A = Action (Cache D) (List ℕ)} (λ m. IsFueled (m c))
        ((left == 0) || leb file_length (offset / 512)) (λ _. tt)
        (λ more.
          then_do-IsFueled (get_block ds (sector0 +ℤ pos (offset / 512)) 1 c) _
            (get_block-IsFueled _ 1 c)
            λ blk c1.
              then_do-IsFueled (with_block blk (copy_out (pos (offset % 512)) (pos n)) c1) _
                (with_block-IsFueled blk _ c1 (copy_out-IsFueled _ _))
                λ bytes c2.
                  then_do-IsFueled (put_block blk c2) _
                    (with_block-IsFueled blk (λ b. done tt (release b)) c2 (λ _. tt))
                    λ _ c3.
                      then_do-IsFueled
                        (read_from ds dir fuel file_length sector0 (left - n) (offset + n) c3) _
                        (read_from-IsFueled dir fuel file_length sector0 (left - n) (offset + n) c3
                          (ground arith))
                        λ _ _. tt)

  -- The loop of `writeFile` with as much fuel as bytes to write, or more, does not run out of it,
  -- whatever the cache, the source and the file.
  pub write_from-IsFueled :
      (dir : Directory) (fuel : ℕ) (extend_file : Bool) (sector0 : ℤ) (buffer : List ℕ) (offset : ℕ)
      (c : Cache D)
      → length buffer ≤ fuel
      → IsFueled (write_from ds dir fuel extend_file sector0 buffer offset c)
  unfolding write_from put_block
  write_from-IsFueled dir zero extend_file sector0 buffer offset c h = ground arith
  write_from-IsFueled dir (suc fuel) extend_file sector0 buffer offset c h =
      let at : ℕ = offset % 512 in
      let n : ℕ = min (512 - at) (length buffer) in
      if_intro {A = Action (Cache D) (Unit {0})} (λ m. IsFueled (m c)) (length buffer == 0)
        (λ _. tt)
        (λ more.
          then_do-IsFueled (get_block ds (sector0 +ℤ pos (offset / 512)) 1 c) _
            (get_block-IsFueled _ 1 c)
            λ blk c1.
              then_do-IsFueled (with_block blk (copy_in (pos at) (pos n) buffer) c1) _
                (with_block-IsFueled blk _ c1 (copy_in-IsFueled _ _ buffer))
                λ _ c2.
                  then_do-IsFueled
                    ((if extend_file && ltb (at + n) 512
                        then with_block blk (zero_fill (pos (at + n)) (pos (512 - (at + n))))
                        else pure tt)
                      c2)
                    _
                    (if_intro {A = Action (Cache D) (Unit {0})} (λ m. IsFueled (m c2))
                      (extend_file && ltb (at + n) 512)
                      (λ _.
                        with_block-IsFueled blk (zero_fill (pos (at + n)) (pos (512 - (at + n)))) c2
                          (zero_fill-IsFueled _ _))
                      (λ _. tt))
                    λ _ c3.
                      then_do-IsFueled (put_block blk c3) _
                        (with_block-IsFueled blk (λ b. done tt (release b)) c3 (λ _. tt))
                        λ _ c4.
                          write_from-IsFueled dir fuel extend_file sector0 (drop n buffer)
                            (offset + n) c4 (ground (arith, length-drop n buffer)))
