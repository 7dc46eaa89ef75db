-- ===== src/Directory/Empty.antt =====
-- `makeEmptyEntry`, as it stands in `insertEmptyAt`: the bytes of an entry of free space.
use rt11fs.Base.{
  ℕ, ◌+◌, ◌^◌, ◌≤◌, ◌<◌, ◌≡◌, refl, ap, ◌∙◌, List, true, ◌&&◌, length, set, ltb, leb, ◌==◌, arith,
  if◌then◌else◌, length-set, get_elem?-lt,
}
use rt11fs.Base.{done, then_do}
use rt11fs.Base.Int.{pos}
use rt11fs.Block.{Block, set_byte, set_word}
use rt11fs.Block.Words.{
  byte_at, put_word, byte_at-put_word, byte_at-set, length-put_word, set_word_lem,
}
use rt11fs.DirPtr.{DirPtr, set_word_of, set_byte_of}
use rt11fs.DirPtr.Moves.{entry_at, offset_lem}
use rt11fs.Directory.Segment.{make_empty_entry}

pub set_byte_lem :
    (b : Block) (i v : ℕ)
    → i < length b.bytes
    → set_byte (pos i) v b ≡ done tt (record b { bytes = set b.bytes i v; dirty = true })
unfolding set_byte
set_byte_lem b i v h = let (x, e) = get_elem?-lt b.bytes i h in rw e refl

abbrev pub with_bytes : Block → List ℕ → Block
with_bytes b bytes = record b { bytes = bytes; dirty = true }

-- A word of an entry is written.
pub set_word_of_lem :
    (b : Block) (p : DirPtr) (base d v at : ℕ)
    → p.segbase ≡ pos base
    → entry_at p base + d ≡ at
    → at + 1 < length b.bytes
    → v < 2 ^ 16
    → set_word_of p d v b ≡ done tt (with_bytes b (put_word b.bytes at v))
unfolding set_word_of
set_word_of_lem b p base d v at h e fits small =
    ap (λ z. set_word z v b) (offset_lem p base d h ∙ ap pos e) ∙ set_word_lem b at v fits small

set_byte_of_lem :
    (b : Block) (p : DirPtr) (base d v at : ℕ)
    → p.segbase ≡ pos base
    → entry_at p base + d ≡ at
    → at < length b.bytes
    → set_byte_of p d v b ≡ done tt (with_bytes b (set b.bytes at v))
unfolding set_byte_of
set_byte_of_lem b p base d v at h e fits =
    ap (λ z. set_byte z v b) (offset_lem p base d h ∙ ap pos e) ∙ set_byte_lem b at v fits

abbrev named : List ℕ → ℕ → List ℕ
named bytes at =
    put_word
      (put_word (put_word (put_word (put_word bytes at 512) (at + 2) 0) (at + 4) 0) (at + 6) 0)
      (at + 8) 0

-- The bytes after `makeEmptyEntry` at `at`.
abbrev pub emptied : List ℕ → ℕ → List ℕ
emptied bytes at = put_word (set (set (named bytes at) (at + 10) 0) (at + 11) 0) (at + 12) 0

length-named : (bytes : List ℕ) (at : ℕ) → length (named bytes at) ≡ length bytes
length-named bytes at =
    length-put_word _ (at + 8) 0
    ∙ length-put_word _ (at + 6) 0
    ∙ length-put_word _ (at + 4) 0
    ∙ length-put_word _ (at + 2) 0
    ∙ length-put_word bytes at 512

pub length-emptied : (bytes : List ℕ) (at : ℕ) → length (emptied bytes at) ≡ length bytes
length-emptied bytes at =
    length-put_word _ (at + 12) 0
    ∙ length-set _ (at + 11) 0
    ∙ length-set _ (at + 10) 0
    ∙ length-named bytes at

byte_at-named :
    (bytes : List ℕ) (at i : ℕ)
    → at + 14 ≤ length bytes
    → byte_at (named bytes at) i
      ≡ (if leb at i && ltb i (at + 10) then (if i == (at + 1) then 2 else 0) else byte_at bytes i)
byte_at-named bytes at i h =
    let b1 : List ℕ = put_word bytes at 512 in
    let b2 : List ℕ = put_word b1 (at + 2) 0 in
    let b3 : List ℕ = put_word b2 (at + 4) 0 in
    let b4 : List ℕ = put_word b3 (at + 6) 0 in
    let l1 = length-put_word bytes at 512 in
    let l2 = length-put_word b1 (at + 2) 0 in
    let l3 = length-put_word b2 (at + 4) 0 in
    let l4 = length-put_word b3 (at + 6) 0 in
    let e1 = byte_at-put_word bytes at 512 i (omega arith) in
    let e2 = byte_at-put_word b1 (at + 2) 0 i (omega arith) in
    let e3 = byte_at-put_word b2 (at + 4) 0 i (omega arith) in
    let e4 = byte_at-put_word b3 (at + 6) 0 i (omega arith) in
    let e5 = byte_at-put_word b4 (at + 8) 0 i (omega arith) in ground (arith, e1, e2, e3, e4, e5)

-- The entry is a free one of no sectors and no name; the other bytes stay.
pub byte_at-emptied :
    (bytes : List ℕ) (at i : ℕ)
    → at + 14 ≤ length bytes
    → byte_at (emptied bytes at) i
      ≡ (if leb at i && ltb i (at + 14) then (if i == (at + 1) then 2 else 0) else byte_at bytes i)
byte_at-emptied bytes at i h =
    let b5 : List ℕ = named bytes at in
    let b6 : List ℕ = set b5 (at + 10) 0 in
    let b7 : List ℕ = set b6 (at + 11) 0 in
    let l5 = length-named bytes at in
    let l6 = length-set b5 (at + 10) 0 in
    let l7 = length-set b6 (at + 11) 0 in
    let e5 = byte_at-named bytes at i h in
    let e6 = byte_at-set b5 (at + 10) 0 i (omega arith) in
    let e7 = byte_at-set b6 (at + 11) 0 i (omega arith) in
    let e8 = byte_at-put_word b7 (at + 12) 0 i (omega arith) in ground (arith, e5, e6, e7, e8)

pub make_empty_entry_lem :
    (b : Block) (p : DirPtr) (base at : ℕ)
    → p.segbase ≡ pos base
    → entry_at p base ≡ at
    → at + 14 ≤ length b.bytes
    → make_empty_entry p b ≡ done tt (with_bytes b (emptied b.bytes at))
unfolding make_empty_entry
make_empty_entry_lem b p base at h e fits =
    let b1 : List ℕ = put_word b.bytes at 512 in
    let b2 : List ℕ = put_word b1 (at + 2) 0 in
    let b3 : List ℕ = put_word b2 (at + 4) 0 in
    let b4 : List ℕ = put_word b3 (at + 6) 0 in
    let b5 : List ℕ = put_word b4 (at + 8) 0 in
    let b6 : List ℕ = set b5 (at + 10) 0 in
    let b7 : List ℕ = set b6 (at + 11) 0 in
    let l1 = length-put_word b.bytes at 512 in
    let l2 = length-put_word b1 (at + 2) 0 in
    let l3 = length-put_word b2 (at + 4) 0 in
    let l4 = length-put_word b3 (at + 6) 0 in
    let l5 = length-put_word b4 (at + 8) 0 in
    let l6 = length-set b5 (at + 10) 0 in
    let l7 = length-set b6 (at + 11) 0 in
    rw
      (
        set_word_of_lem b p base 0 512 at h (omega arith) (omega arith) (omega arith),
        then_do,
        set_word_of_lem (with_bytes b b1) p base 2 0 (at + 2) h (omega arith) (omega arith)
            (omega arith),
        then_do,
        set_word_of_lem (with_bytes b b2) p base 4 0 (at + 4) h (omega arith) (omega arith)
            (omega arith),
        then_do,
        set_word_of_lem (with_bytes b b3) p base 6 0 (at + 6) h (omega arith) (omega arith)
            (omega arith),
        then_do,
        set_word_of_lem (with_bytes b b4) p base 8 0 (at + 8) h (omega arith) (omega arith)
            (omega arith),
        then_do,
        set_byte_of_lem (with_bytes b b5) p base 10 0 (at + 10) h (omega arith) (omega arith),
        then_do,
        set_byte_of_lem (with_bytes b b6) p base 11 0 (at + 11) h (omega arith) (omega arith),
        then_do,
        set_word_of_lem (with_bytes b b7) p base 12 0 (at + 12) h (omega arith) (omega arith)
            (omega arith),
      )
      refl
