-- ===== src/Directory/View.antt =====
-- What the bytes of the directory block say: the segments of the chain, and the entries of each.
use rt11fs.Base.{
  ℕ, zero, suc, ◌+◌, ◌-◌, ◌*◌, ◌≤◌, ◌<◌, bit_and, ◌≡◌, List, [], ◌∷◌, ◌++◌, Bool, true, false, not,
  ◌&&◌, length, ◌==◌, if◌then◌else◌,
}
use rt11fs.Base.{done}
use rt11fs.Base.Int.{ℤ, pos, pos_part, ◌+ℤ◌}
use rt11fs.Block.{Block}
use rt11fs.Block.Words.{word_at, IsBytes}
use rt11fs.DirConst.{e_tent, e_mpty, e_perm, e_eos, Rad50Name}
use rt11fs.DirPtr.{DirPtr, is_valid, next}
use rt11fs.DirPtr.Moves.{IsEntry, entry_at}

-- A segment by its number in the directory, from 1 on, and how many entries stand before its end
-- marker.
pub record Seg : Type 0 where
  pub number : ℕ
  pub count : ℕ

abbrev pub base_of : ℕ → ℕ
base_of number = (number - 1) * 1024

-- Where the entry at an index of a segment begins, for entries of size `e`.
abbrev pub place : ℕ → ℕ → ℕ → ℕ
place e number i = base_of number + (10 + i * e)

abbrev pub status_at : Block → ℕ → ℕ → ℕ → ℕ
status_at b e number i = word_at b.bytes (place e number i + 0)

abbrev pub length_at : Block → ℕ → ℕ → ℕ → ℕ
length_at b e number i = word_at b.bytes (place e number i + 8)

-- The number of the segment that comes after those before it; 0 behind the last.
abbrev pub first_of : List Seg → ℕ
first_of [] = 0
first_of (s ∷ segs) = s.number

abbrev pub bit_at : Block → ℕ → ℕ → ℕ → ℕ → Bool
bit_at b e number i m = bit_and (status_at b e number i) m == m

-- What the change tracker takes for a file.
abbrev pub is_file_at : Block → ℕ → ℕ → ℕ → Bool
is_file_at b e number i = if bit_at b e number i e_tent then true else bit_at b e number i e_perm

-- The segment lies within the block, its end marker is the first of its entries that has the bit
-- and is no file, and it names the next one.
pub record IsSegment (b : Block) (e : ℕ) (s : Seg) (following : ℕ) : Type 0 where
  pub numbered : 1 ≤ s.number
  pub fits : 24 + s.count * e ≤ 1024
  pub in_block : s.number * 1024 ≤ length b.bytes
  pub plain : (i : ℕ) → i < s.count → bit_and (status_at b e s.number i) e_eos ≡ 0
  pub marked : bit_and (status_at b e s.number s.count) e_eos ≡ e_eos
  pub unfiled : is_file_at b e s.number s.count ≡ false
  pub chained : word_at b.bytes (base_of s.number + 2) ≡ following

abbrev pub IsChain : Block → ℕ → List Seg → Type 0
IsChain b e [] = Unit {0}
IsChain b e (s ∷ segs) = IsSegment b e s (first_of segs) × IsChain b e segs

-- A directory of these segments, whose entries have size `e`.
pub record IsDirectory (b : Block) (e : ℕ) (segs : List Seg) : Type 0 where
  pub bytes : IsBytes b.bytes
  pub sized : e ≡ 14 + word_at b.bytes 6
  pub begins : first_of segs ≡ 1
  pub chain : IsChain b e segs
  pub room : length segs * 1024 ≤ length b.bytes

abbrev pub pointer : ℕ → ℕ → ℕ → ℤ → DirPtr
pointer e number i sector = record {
  entry_size = e;
  segment = pos number;
  index = i;
  segbase = pos (base_of number);
  datasec = sector;
}

-- The pointers to an entry of a segment, the data of which begin at `sector`, and to the `left`
-- entries behind it.
abbrev pub pointers_from : Block → ℕ → ℕ → ℕ → ℤ → ℕ → List DirPtr
pointers_from b e number i sector zero = pointer e number i sector ∷ []
pointers_from b e number i sector (suc left) =
    pointer e number i sector
    ∷ pointers_from b e number (i + 1) (sector +ℤ pos (length_at b e number i)) left

-- The pointers to all entries, the end markers among them, in order.
abbrev pub pointers : Block → ℕ → List Seg → List DirPtr
pointers b e [] = []
pointers b e (s ∷ segs) =
    pointers_from b e s.number 0 (pos (word_at b.bytes (base_of s.number + 8))) s.count
    ++ pointers b e segs

-- A word of the entry that the pointer points to.
abbrev pub field : Block → DirPtr → ℕ → ℕ
field b p d = word_at b.bytes (entry_at p (pos_part p.segbase) + d)

abbrev pub has_bit : Block → ℕ → DirPtr → Bool
has_bit b mask p = bit_and (field b p 0) mask == mask

abbrev pub is_named : Block → Rad50Name → DirPtr → Bool
is_named b name p =
    (name.first == field b p 2) && (name.second == field b p 4) && (name.extension == field b p 6)

-- A file, permanent or not, of that name.
abbrev pub is_file_of : Block → Rad50Name → DirPtr → Bool
is_file_of b name p = not (has_bit b e_mpty p) && (not (has_bit b e_eos p) && is_named b name p)

-- Steps forward from `p` lead over these pointers in order, and then out of the directory.
abbrev pub IsWalk : Block → DirPtr → List DirPtr → Type 0
IsWalk b p [] = (q : DirPtr) × (next p b ≡ done q b) × (is_valid q ≡ false)
IsWalk b p (q ∷ qs) =
    (next p b ≡ done q b) × (is_valid q ≡ true) × IsEntry b q (pos_part q.segbase) × IsWalk b q qs
