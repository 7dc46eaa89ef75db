-- ===== src/Base/Memory.antt =====
-- Copies between arrays of bytes: memcpy, memmove and memset.
use Prim.Native.Nat.{ℕ, zero, suc, ◌+◌, ◌-◌, ◌≤◌, ◌<◌}
use mathlib.Core.Path.{◌≡◌, refl, ap, ◌∙◌}
use mathlib.Core.Bool.{◌&&◌}
use mathlib.Core.List.{List, [], ◌∷◌, ◌++◌}
use mathlib.Core.List.{append-nil}
use native.Mathlib.Omega.{arith}
use rt11fs.Base.Tests.{ltb, leb, if◌then◌else◌}
use rt11fs.Base.Lists.{
  length, get_elem?, take, drop, replicate, length-append, length-take, length-drop,
  length-replicate, get_elem?-append, get_elem?-take, get_elem?-drop,
}

-- `ys` written over `xs` from index `at` on.
unfoldable pub splice : List ℕ → ℕ → List ℕ → List ℕ
splice xs at ys = take at xs ++ (ys ++ drop (at + length ys) xs)

-- `count` bytes from index `at` on.
unfoldable pub slice : List ℕ → ℕ → ℕ → List ℕ
slice xs at count = take count (drop at xs)

pub length-splice :
    (xs : List ℕ) (at : ℕ) (ys : List ℕ)
    → at + length ys ≤ length xs
    → length (splice xs at ys) ≡ length xs
unfolding splice
length-splice xs at ys h = omega (
  arith,
  length-append (take at xs) (ys ++ drop (at + length ys) xs),
  length-append ys (drop (at + length ys) xs),
  length-take at xs,
  length-drop (at + length ys) xs,
)

pub length-slice :
    (xs : List ℕ) (at count : ℕ) → at + count ≤ length xs → length (slice xs at count) ≡ count
unfolding slice
length-slice xs at count h = omega (arith, length-take count (drop at xs), length-drop at xs)

pub get_elem?-splice :
    (xs : List ℕ) (at : ℕ) (ys : List ℕ) (i : ℕ)
    → at + length ys ≤ length xs
    → get_elem? (splice xs at ys) i
      ≡ (if leb at i && ltb i (at + length ys) then get_elem? ys (i - at) else get_elem? xs i)
unfolding splice
get_elem?-splice xs at ys i h =
    let e : length (take at xs) ≡ at = omega (arith, length-take at xs) in
    let tail : List ℕ = drop (at + length ys) xs in
    let e1 = get_elem?-append (take at xs) (ys ++ tail) i in
    let e2 = get_elem?-append ys tail (i - at) in
    let e3 = get_elem?-take at xs i in
    let e4 = get_elem?-drop (at + length ys) xs (i - at - length ys) in
    rw e at e1 ∙ rw (e2, e3, e4) (ground (arith, back i at (length ys)))
  where
    back : (i at n : ℕ) → at + n ≤ i → at + n + (i - at - n) ≡ i
    back i at n h = omega arith

pub get_elem?-slice :
    (xs : List ℕ) (at count i : ℕ)
    → i < count
    → get_elem? (slice xs at count) i ≡ get_elem? xs (at + i)
unfolding slice
get_elem?-slice xs at count i h =
    ground (arith, get_elem?-take count (drop at xs) i, get_elem?-drop at xs i)

drop-append_take : (d : ℕ) (xs zs : List ℕ) → d ≤ length xs → drop d (take d xs ++ zs) ≡ zs
drop-append_take zero xs zs h = refl
drop-append_take (suc d) [] zs h = absurd (omega arith)
drop-append_take (suc d) (x ∷ xs) zs h = drop-append_take d xs zs (omega arith)

take-append : (ys zs : List ℕ) → take (length ys) (ys ++ zs) ≡ ys
take-append [] zs = refl
take-append (y ∷ ys) zs = ap (◌∷◌ y) (take-append ys zs)

-- What is written over a range is read from it.
pub slice-splice :
    (xs : List ℕ) (d : ℕ) (ys : List ℕ) → d ≤ length xs → slice (splice xs d ys) d (length ys) ≡ ys
unfolding slice splice
slice-splice xs d ys h =
    rw (drop-append_take d xs (ys ++ drop (d + length ys) xs) h) (take-append ys _)

pub take_all : (xs : List ℕ) (n : ℕ) → length xs ≤ n → take n xs ≡ xs
take_all [] zero h = refl
take_all [] (suc n) h = refl
take_all (x ∷ xs) zero h = absurd (omega arith)
take_all (x ∷ xs) (suc n) h = ap (◌∷◌ x) (take_all xs n (omega arith))

pub drop_all : (xs : List ℕ) (n : ℕ) → length xs ≤ n → drop n xs ≡ []
drop_all [] zero h = refl
drop_all [] (suc n) h = refl
drop_all (x ∷ xs) zero h = absurd (omega arith)
drop_all (x ∷ xs) (suc n) h = drop_all xs n (omega arith)

take_some-append : (n : ℕ) (xs zs : List ℕ) → n ≤ length xs → take n (xs ++ zs) ≡ take n xs
take_some-append zero xs zs h = refl
take_some-append (suc n) [] zs h = absurd (omega arith)
take_some-append (suc n) (x ∷ xs) zs h = ap (◌∷◌ x) (take_some-append n xs zs (omega arith))

pub splice_all : (xs ys : List ℕ) → length xs ≡ length ys → splice xs 0 ys ≡ ys
unfolding splice
splice_all xs ys h = rw (drop_all xs (0 + length ys) (omega arith)) (append-nil ys)

-- Written over the whole tail, `ys` takes its place.
pub splice-append :
    (xs zs ys : List ℕ) → length zs ≡ length ys → splice (xs ++ zs) (length xs) ys ≡ xs ++ ys
unfolding splice
splice-append xs zs ys h =
    rw
      (
        take-append xs zs,
        drop_all (xs ++ zs) (length xs + length ys) (omega (arith, length-append xs zs)),
        append-nil ys,
      )
      refl

-- `std::vector::resize`: new elements are zero.
unfoldable pub resize_bytes : List ℕ → ℕ → List ℕ
resize_bytes bytes size = take size bytes ++ replicate (size - length bytes) 0

pub length-resize_bytes : (bytes : List ℕ) (size : ℕ) → length (resize_bytes bytes size) ≡ size
unfolding resize_bytes
length-resize_bytes bytes size =
    length-append (take size bytes) (replicate (size - length bytes) 0)
    ∙ omega (arith, length-take size bytes, length-replicate {A = ℕ} (size - length bytes) 0)

pub resize_bytes_grow :
    (bytes : List ℕ) (size : ℕ)
    → length bytes ≤ size
    → resize_bytes bytes size ≡ bytes ++ replicate (size - length bytes) 0
unfolding resize_bytes
resize_bytes_grow bytes size h = rw (take_all bytes size h)

pub resize_bytes_shrink :
    (bytes : List ℕ) (size : ℕ) → size ≤ length bytes → resize_bytes bytes size ≡ take size bytes
unfolding resize_bytes
resize_bytes_shrink bytes size h =
    let e : size - length bytes ≡ 0 = omega arith in rw e (append-nil (take size bytes))

pub resize_bytes_back :
    (bytes zs : List ℕ) (size : ℕ)
    → size ≤ length bytes
    → resize_bytes (bytes ++ zs) size ≡ take size bytes
resize_bytes_back bytes zs size h =
    resize_bytes_shrink (bytes ++ zs) size (omega (arith, length-append bytes zs))
    ∙ take_some-append size bytes zs h
