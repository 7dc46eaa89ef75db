-- ===== src/Directory/Resize.antt =====
-- `shrinkEntry` before a free entry, and the first branch of `growEntry`, keep a directory in order.
use rt11fs.Base.{
  ℕ, refl, ◌+◌, ◌-◌, ◌^◌, ◌≤◌, ◌<◌, ◌≡◌, ap, ◌∙◌, List, ◌∷◌, ◌++◌, true, false, ◌==◌, arith,
}
use rt11fs.Base.{done, ok, then_do}
use rt11fs.Base.Int.{ℤ, pos, ◌+ℤ◌, ◌-ℤ◌, ltb_ℤ, pos-+ℤ}
use rt11fs.DataSource.{DataSource}
use rt11fs.Block.{Block}
use rt11fs.Block.Words.{word_at-lt}
use rt11fs.DirConst.{e_mpty}
use rt11fs.DirPtr.{has_status}
use rt11fs.DirChangeTracker.{Tracker}
use rt11fs.Directory.Space.{shrink_entry, grow_in_place}
use rt11fs.Directory.View.{Seg, place, length_at, bit_at, IsDirectory, first_of, pointer}
use rt11fs.Directory.Walk.{next_plain}
use rt11fs.Directory.Carve.{pos-difference}
use rt11fs.Directory.Transfer.{
  IsTransferred, two, segment, two-IsDirectory, two-IsTransferred, read_here, read_behind,
  read_left, read_status, write_here, write_behind,
}

given : (a c size : ℕ) → size ≤ a → pos c +ℤ (pos a -ℤ pos size) ≡ pos (a + c - size)
given a c size h =
    ap (λ z. pos c +ℤ z) (pos-difference a size h) ∙ pos-+ℤ c (a - size) ∙ ap pos (omega arith)

taken : (a c size : ℕ) → size ≤ a + c → pos c -ℤ (pos size -ℤ pos a) ≡ pos (a + c - size)
unfolding ◌-ℤ◌
taken a c size enough = ground arith

-- In a directory whose bytes are in order, `shrinkEntry` of an entry to fewer sectors, where the
-- entry behind it is free and what it then has fits a word, gives it the sectors, and changes nothing
-- else; no sector is lost, and the directory is in order again.
pub shrink_entry-IsTransferred :
    (b : Block) (e : ℕ) (before rest : List Seg) (s : Seg) (i size : ℕ) (sector : ℤ) (t : Tracker)
    → IsDirectory b e (before ++ s ∷ rest)
    → i < s.count
    → bit_at b e s.number (i + 1) e_mpty ≡ true
    → size < length_at b e s.number i
    → length_at b e s.number i + length_at b e s.number (i + 1) < size + 2 ^ 16
    → (b' : Block) × (shrink_entry e
          (pointer e s.number i sector)
          size
          (record { block = b; tracker = t })
        ≡ done (ok tt) (record { block = b'; tracker = t }))
      × IsTransferred b b' e s.number i s.count size
      × IsDirectory b' e (before ++ s ∷ rest)
unfolding shrink_entry has_status
shrink_entry-IsTransferred b e before rest s i size sector t d lt free less word =
    let len : ℕ = length_at b e s.number i in
    let more : ℕ = length_at b e s.number (i + 1) in
    let bound : len < 2 ^ 16 = word_at-lt b.bytes (place e s.number i + 8) d.bytes in
    let small : size < 2 ^ 16 = omega arith in
    let enough : size ≤ len + more = omega arith in
    let step =
      next_plain b e s (first_of rest) d.bytes
        (segment b e before rest s i size sector d lt small enough word) i sector lt in
    let less' : ltb_ℤ (pos 0) (pos len -ℤ pos size) ≡ true =
      ap (ltb_ℤ (pos 0)) (pos-difference len size (omega arith)) ∙ ground arith in
    (
      two b e before rest s i size sector d lt small enough word,
      rw
          (
            step,
            then_do,
            read_status b e before rest s i size sector d lt small enough word,
            then_do,
            free,
            then_do,
            read_here b e before rest s i size sector d lt small enough word,
            then_do,
            less',
            then_do,
            write_here b e before rest s i size sector d lt small enough word,
            then_do,
            read_behind b e before rest s i size sector d lt small enough word,
            then_do,
            given len more size (omega arith),
            write_behind b e before rest s i size sector d lt small enough word,
          )
          refl,
      two-IsTransferred b e before rest s i size sector d lt small enough word,
      two-IsDirectory b e before rest s i size sector d lt small enough word,
    )

-- In a directory whose bytes are in order, the first branch of `growEntry`, to a number of sectors
-- that fits a word, where the entry behind then has one sector or more and fits a word as well, takes
-- the sectors from that entry, or gives it those that are over, and changes nothing else; no sector is
-- lost, and the directory is in order again.
pub grow_in_place-IsTransferred :
    {D : Type 0} (ds : DataSource D) (b : Block) (e : ℕ) (before rest : List Seg) (s : Seg)
    (i size : ℕ) (sector : ℤ) (t : Tracker)
    → IsDirectory b e (before ++ s ∷ rest)
    → i < s.count
    → size < 2 ^ 16
    → length_at b e s.number i + length_at b e s.number (i + 1) < size + 2 ^ 16
    → size < length_at b e s.number i + length_at b e s.number (i + 1)
    → (b' : Block) × (grow_in_place ds e
          (pointer e s.number i sector)
          (pointer e s.number (i + 1) (sector +ℤ pos (length_at b e s.number i)))
          (pos size)
          (record { block = b; tracker = t })
        ≡ done tt (record { block = b'; tracker = t }))
      × IsTransferred b b' e s.number i s.count size
      × IsDirectory b' e (before ++ s ∷ rest)
unfolding grow_in_place
grow_in_place-IsTransferred ds b e before rest s i size sector t d lt small word enough =
    let len : ℕ = length_at b e s.number i in
    let free : ℕ = length_at b e s.number (i + 1) in
    let some_left : (len + free - size == 0) ≡ false = ground arith in
    let enough' : size ≤ len + free = omega arith in
    (
      two b e before rest s i size sector d lt small enough' word,
      rw
          (
            read_here b e before rest s i size sector d lt small enough' word,
            then_do,
            write_here b e before rest s i size sector d lt small enough' word,
            then_do,
            read_behind b e before rest s i size sector d lt small enough' word,
            then_do,
            taken len free size enough',
            write_behind b e before rest s i size sector d lt small enough' word,
            then_do,
            read_left b e before rest s i size sector d lt small enough' word,
            then_do,
            some_left,
          )
          refl,
      two-IsTransferred b e before rest s i size sector d lt small enough' word,
      two-IsDirectory b e before rest s i size sector d lt small enough' word,
    )
