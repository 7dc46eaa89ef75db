-- ===== src/Block/Words.antt =====
-- Words in a block: what is read after a write, at the same place and elsewhere.
use rt11fs.Base.{
  ℕ, zero, suc, ◌+◌, ◌*◌, ◌/◌, ◌%◌, ◌^◌, ◌≤◌, ◌<◌, bit_and, bit_or, ◌≡◌, refl, ap, ◌∙◌, ◌⊎◌, inl,
  inr, some, List, [], ◌∷◌, true, length, get_elem?, get_or, set, ◌==◌, if◌then◌else◌, Option-cases,
  arith, length-set, get_elem?-lt, get_elem?-ge,
}
use rt11fs.Base.{out_of_range, done, throw}
use rt11fs.Base.Int.{pos, pos-+ℤ}
use rt11fs.Base.Bits.{bit_and_low, bit_or_low}
use rt11fs.Block.{Block, get_byte, extract_word, set_word}

abbrev pub byte_at : List ℕ → ℕ → ℕ
byte_at bytes i = get_or bytes i 0

-- A word in PDP-11 order: the low byte first.
unfoldable pub word_at : List ℕ → ℕ → ℕ
word_at bytes i = byte_at bytes (i + 1) * 256 + byte_at bytes i

unfoldable pub put_word : List ℕ → ℕ → ℕ → List ℕ
put_word bytes i v = set (set bytes i (v % 256)) (i + 1) (v / 256)

abbrev pub IsBytes : List ℕ → Type 0
IsBytes bytes = (i : ℕ) → byte_at bytes i < 256

pub get_elem?-byte_at :
    (bytes : List ℕ) (i : ℕ) → i < length bytes → get_elem? bytes i ≡ some (byte_at bytes i)
get_elem?-byte_at [] i h = absurd (omega arith)
get_elem?-byte_at (x ∷ xs) zero h = refl
get_elem?-byte_at (x ∷ xs) (suc i) h = get_elem?-byte_at xs i (omega arith)

pub byte_at-set :
    (bytes : List ℕ) (i v j : ℕ)
    → i < length bytes
    → byte_at (set bytes i v) j ≡ (if i == j then v else byte_at bytes j)
byte_at-set [] i v j h = absurd (omega arith)
byte_at-set (x ∷ xs) zero v zero h = ground arith
byte_at-set (x ∷ xs) zero v (suc j) h = ground arith
byte_at-set (x ∷ xs) (suc i) v zero h = ground arith
byte_at-set (x ∷ xs) (suc i) v (suc j) h = ground (arith, byte_at-set xs i v j)

pub byte_at-put_word :
    (bytes : List ℕ) (i v j : ℕ)
    → i + 1 < length bytes
    → byte_at (put_word bytes i v) j
      ≡ (if i == j then v % 256 else if (i + 1) == j then v / 256 else byte_at bytes j)
unfolding put_word
byte_at-put_word bytes i v j h = ground (
  arith,
  byte_at-set (set bytes i (v % 256)) (i + 1) (v / 256) j,
  byte_at-set bytes i (v % 256) j,
  length-set bytes i (v % 256),
)

pub length-put_word : (bytes : List ℕ) (i v : ℕ) → length (put_word bytes i v) ≡ length bytes
unfolding put_word
length-put_word bytes i v =
    length-set (set bytes i (v % 256)) (i + 1) (v / 256) ∙ length-set bytes i (v % 256)

pub put_word-IsBytes :
    (bytes : List ℕ) (i v : ℕ)
    → i + 1 < length bytes
    → v < 2 ^ 16
    → IsBytes bytes
    → IsBytes (put_word bytes i v)
put_word-IsBytes bytes i v h hv b j = ground (arith, byte_at-put_word bytes i v j, b j)

pub word_at-put_word_self :
    (bytes : List ℕ) (i v : ℕ) → i + 1 < length bytes → word_at (put_word bytes i v) i ≡ v
unfolding word_at
word_at-put_word_self bytes i v h =
    ground (arith, byte_at-put_word bytes i v i, byte_at-put_word bytes i v (i + 1))

pub word_at-put_word_ne :
    (bytes : List ℕ) (i v j : ℕ)
    → i + 1 < length bytes
    → (i + 1 < j) ⊎ (j + 1 < i)
    → word_at (put_word bytes i v) j ≡ word_at bytes j
unfolding word_at
word_at-put_word_ne bytes i v j h d =
    ground (arith, byte_at-put_word bytes i v j, byte_at-put_word bytes i v (j + 1))

pub word_at-lt : (bytes : List ℕ) (i : ℕ) → IsBytes bytes → word_at bytes i < 2 ^ 16
unfolding word_at
word_at-lt bytes i b = omega (arith, b i, b (i + 1))

get_byte_pos :
    (b : Block) (i : ℕ) → i < length b.bytes → get_byte (pos i) b ≡ done (byte_at b.bytes i) b
unfolding get_byte
get_byte_pos b i h = rw (get_elem?-byte_at b.bytes i h)

combine :
    (low high : ℕ) → low < 256 → high < 256 → bit_or low (high * 2 ^ 8) % 2 ^ 16 ≡ high * 256 + low
combine low high p q = rw (bit_or_low 8 high low p) (omega arith)

-- Within the block `extract_word` reads the two bytes, and changes nothing.
pub extract_word_lem :
    (b : Block) (i : ℕ)
    → i + 1 < length b.bytes
    → IsBytes b.bytes
    → extract_word (pos i) b ≡ done (word_at b.bytes i) b
unfolding extract_word word_at
extract_word_lem b i h v =
    rw
      (
        get_elem?-byte_at b.bytes i (omega arith),
        pos-+ℤ i 1,
        get_elem?-byte_at b.bytes (i + 1) h,
        combine (byte_at b.bytes i) (byte_at b.bytes (i + 1)) (v i) (v (i + 1)),
      )
      refl

-- Past the last word of the block it throws, and changes nothing.
pub extract_word_past :
    (b : Block) (i : ℕ) → length b.bytes ≤ i + 1 → extract_word (pos i) b ≡ throw out_of_range b
unfolding extract_word get_byte
extract_word_past b i h = elim (Option-cases (get_elem? b.bytes i)) [
  | inl e ↦ rw e
  | inr (v, e) ↦ rw (e, pos-+ℤ i 1, get_elem?-ge b.bytes (i + 1) h)
]

low_byte : (v : ℕ) → bit_and v 0o377 ≡ v % 256
low_byte v = bit_and_low 8 v

high_byte : (v : ℕ) → v < 2 ^ 16 → bit_and (v / 2 ^ 8) 0o377 ≡ v / 256
high_byte v h = omega (arith, bit_and_low 8 (v / 2 ^ 8))

-- Within the block `set_word` stores the two bytes and marks the block.
pub set_word_lem :
    (b : Block) (i v : ℕ)
    → i + 1 < length b.bytes
    → v < 2 ^ 16
    → set_word (pos i) v b ≡ done tt (record b { bytes = put_word b.bytes i v; dirty = true })
unfolding set_word put_word
set_word_lem b i v h hv =
    let (x, e) = get_elem?-lt b.bytes i (omega arith) in
    let (y, e') =
      get_elem?-lt (set b.bytes i (v % 256)) (i + 1)
        (omega (arith, length-set b.bytes i (v % 256))) in
    rw (low_byte v, high_byte v hv, e, pos-+ℤ i 1, e') refl

-- A 16-bit word that is written at the last byte of a block throws only after the low byte is
-- stored, and the block is not marked as changed.
set_word_at_last_byte :
    (b : Block) (i v : ℕ)
    → i + 1 ≡ length b.bytes
    → v < 2 ^ 16
    → set_word (pos i) v b ≡ throw out_of_range (record b { bytes = set b.bytes i (v % 256) })
unfolding set_word
set_word_at_last_byte b i v h hv =
    let (x, e) = get_elem?-lt b.bytes i (omega arith) in
    let e' =
      get_elem?-ge (set b.bytes i (v % 256)) (i + 1)
        (omega (arith, length-set b.bytes i (v % 256))) in
    rw (low_byte v, e, pos-+ℤ i 1, e') refl

-- A 16-bit word that is written within a block of bytes is read back; a word of the block apart
-- from it, the size and the sectors of the block stay, and the block is marked as changed.
pub extract_word-set_word :
    (b : Block) (i v j : ℕ)
    → i + 1 < length b.bytes
    → v < 2 ^ 16
    → IsBytes b.bytes
    → j + 1 < length b.bytes
    → (i + 1 < j) ⊎ (j + 1 < i)
    → (b' : Block) × (set_word (pos i) v b ≡ done tt b')
      × (extract_word (pos i) b' ≡ done v b')
      × (extract_word (pos j) b' ≡ done (word_at b.bytes j) b')
      × (length b'.bytes ≡ length b.bytes)
      × (b'.sector ≡ b.sector)
      × (b'.dirty ≡ true)
extract_word-set_word b i v j h hv bs hj d =
    let b' : Block = record b { bytes = put_word b.bytes i v; dirty = true } in
    let same = length-put_word b.bytes i v in
    let bs' = put_word-IsBytes b.bytes i v h hv bs in
    (
      b',
      set_word_lem b i v h hv,
      extract_word_lem b' i (omega arith) bs'
          ∙ ap (λ (w : ℕ). done w b') (word_at-put_word_self b.bytes i v h),
      extract_word_lem b' j (omega arith) bs'
          ∙ ap (λ (w : ℕ). done w b') (word_at-put_word_ne b.bytes i v j h d),
      same,
      refl,
      refl,
    )
