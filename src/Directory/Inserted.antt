-- ===== src/Directory/Inserted.antt =====
-- What a segment says after `insertEmptyAt`.
use native.Mathlib.Nat.{add-mul, mul-le-mul_right}
use rt11fs.Base.{
  ℕ, zero, suc, ◌+◌, ◌-◌, ◌*◌, ◌≤◌, ◌<◌, ◌≡◌, refl, sym, ap, ◌∙◌, ◌⊎◌, inl, inr, List, [], ◌∷◌,
  false, ◌&&◌, Option, length, get_elem?, ltb, leb, ◌==◌, arith, Bool-cases, if◌then◌else◌,
}
use mathlib.Core.Option
use rt11fs.Block.{Block}
use rt11fs.Block.Words.{word_at, byte_at, IsBytes}
use rt11fs.Block.Copies.{IsCopied}
use rt11fs.Directory.View.{base_of, place}
use rt11fs.Directory.Empty.{with_bytes, emptied, length-emptied, byte_at-emptied}

byte_at_lem : (xs : List ℕ) (i : ℕ) → byte_at xs i ≡ Option.get_or (get_elem? xs i) 0
byte_at_lem [] i = refl
byte_at_lem (x ∷ xs) zero = refl
byte_at_lem (x ∷ xs) (suc i) = byte_at_lem xs i

byte_at_same :
    (xs ys : List ℕ) (i j : ℕ) → get_elem? xs i ≡ get_elem? ys j → byte_at xs i ≡ byte_at ys j
byte_at_same xs ys i j h =
    byte_at_lem xs i ∙ ap (λ (o : Option ℕ). Option.get_or o 0) h ∙ sym (byte_at_lem ys j)

not_within : (lo hi x : ℕ) → (leb lo x && ltb x hi) ≡ false → (x < lo) ⊎ (hi ≤ x)
not_within lo hi x h = elim (Bool-cases (leb lo x)) [
  | inl above ↦ inr (ground arith)
  | inr below ↦ inl (ground arith)
]

-- Byte by byte: an entry of `e` bytes at `at` and what is behind it moved on by `e`, and an empty
-- entry put in its place.
byte_after :
    (bytes out : List ℕ) (at e n x : ℕ)
    → IsCopied bytes at (at + e) n bytes out
    → at + 14 ≤ length bytes
    → byte_at (emptied out at) x ≡ (
        if leb at x && ltb x (at + 14)
        then (if x == (at + 1) then 2 else 0)
        else if leb (at + e) x && ltb x (at + e + n)
        then byte_at bytes (x - e)
        else byte_at bytes x)
byte_after bytes out at e n x c fits =
    let all = byte_at-emptied out at x (omega (arith, c.same_length)) in
    elim (Bool-cases (leb (at + e) x && ltb x (at + e + n))) [
      | inl t ↦
          let k : at + e + (x - (at + e)) ≡ x = ground arith in
          let k' : at + (x - (at + e)) ≡ x - e = ground arith in
          let moved : byte_at out x ≡ byte_at bytes (x - e) = byte_at_same out bytes x (x - e) (
            ap (get_elem? out) (sym k)
            ∙ c.inside (x - (at + e)) (ground arith)
            ∙ ap (get_elem? bytes) k') in
          all ∙ rw (t, moved) refl
      | inr f ↦
          let kept : byte_at out x ≡ byte_at bytes x =
            byte_at_same out bytes x x (c.outside x (not_within (at + e) (at + e + n) x f)) in
          all ∙ rw (f, kept) refl
    ]

-- The words of a segment of `count` entries before the end marker, in `b` and in `b'`: an empty entry
-- stands at `i`, the entries from there on stand one place further, and nothing else has changed.
pub record IsInserted (b b' : Block) (e number i count : ℕ) : Type 0 where
  pub before :
      (j d : ℕ)
      → j < i
      → d + 1 < e
      → word_at b'.bytes (place e number j + d) ≡ word_at b.bytes (place e number j + d)
  pub free : word_at b'.bytes (place e number i + 0) ≡ 512
  pub empty : (d : ℕ) → 2 ≤ d → d ≤ 12 → word_at b'.bytes (place e number i + d) ≡ 0
  pub behind :
      (j d : ℕ)
      → i ≤ j
      → j ≤ count
      → d + 1 < e
      → word_at b'.bytes (place e number (j + 1) + d) ≡ word_at b.bytes (place e number j + d)
  pub elsewhere :
      (x : ℕ)
      → (x < base_of number + 10) ⊎ (base_of number + 1024 ≤ x)
      → byte_at b'.bytes x ≡ byte_at b.bytes x
  pub same_length : length b'.bytes ≡ length b.bytes
  pub bytes : IsBytes b'.bytes

next_place : (e number i : ℕ) → place e number (i + 1) ≡ place e number i + e
next_place e number i = omega (arith, add-mul i 1 e)

place-le : (e number i j : ℕ) → i ≤ j → place e number i ≤ place e number j
place-le e number i j h = omega (arith, mul-le-mul_right e h)

place-plus : (e number i n : ℕ) → place e number (i + n) ≡ place e number i + n * e
place-plus e number i n = omega (arith, add-mul i n e)

one_more : (i left : ℕ) → i + 1 ≤ i + left + 2
one_more i left = omega arith

module _ (b : Block) (out : List ℕ) (e number i left : ℕ) (bs : IsBytes b.bytes) (h : 14 ≤ e)
    (lo : 1 ≤ number) (fits : 10 + (i + left + 2) * e ≤ 1024)
    (in_block : number * 1024 ≤ length b.bytes)
    (c : IsCopied b.bytes
      (place e number i)
      (place e number (i + 1))
      (suc left * e)
      b.bytes
      out) where
  abbrev pub after : Block
  after = with_bytes b (emptied out (place e number i))

  byte_lem :
      (x : ℕ)
      → byte_at after.bytes x ≡ (
          if leb (place e number i) x && ltb x (place e number i + 14)
          then (if x == (place e number i + 1) then 2 else 0)
          else if leb (place e number i + e) x && ltb x (place e number i + e + suc left * e)
          then byte_at b.bytes (x - e)
          else byte_at b.bytes x)
  byte_lem x =
      byte_after b.bytes out (place e number i) e (suc left * e) x (rw (next_place e number i) at c)
        (omega (arith, fits, lo, in_block, mul-le-mul_right e (one_more i left), add-mul i 1 e))

  pub inserted : IsInserted b after e number i (i + left)
  unfolding word_at
  inserted = record {
    before = λ j d lt dd.
        let k = place-le e number (j + 1) i (omega arith) in
        let k' = next_place e number j in
        ground (arith, byte_lem (place e number j + d), byte_lem (place e number j + d + 1));
    free = ground (arith, byte_lem (place e number i + 0), byte_lem (place e number i + 0 + 1));
    empty = λ d low high.
        ground (arith, byte_lem (place e number i + d), byte_lem (place e number i + d + 1));
    behind = λ j d le le' dd.
        let k1 = place-le e number i j le in
        let k2 = place-le e number (j + 1) (i + suc left) (omega arith) in
        let k3 = place-plus e number i (suc left) in
        let k4 = next_place e number j in
        ground
          (arith, byte_lem (place e number (j + 1) + d), byte_lem (place e number (j + 1) + d + 1));
    elsewhere = λ x o.
        let k3 = place-plus e number i (suc left) in
        let k5 : e + (i * e + suc left * e) ≤ 1014 =
          omega (arith, fits, add-mul (i + left) 2 e, add-mul i left e, add-mul left 1 e) in
        ground (arith, byte_lem x);
    same_length = length-emptied out (place e number i) ∙ c.same_length;
    bytes = λ x. ground (arith, byte_lem x, bs x, bs (x - e));
  }
