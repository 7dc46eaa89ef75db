-- ===== src/Rad50/Laws.antt =====
-- Rad50: the two conversions are inverse to each other, and which words have a text.
use rt11fs.Base.{
  ℕ, ◌+◌, ◌*◌, ◌/◌, ◌%◌, ◌^◌, ◌≤◌, ◌<◌, ◌≡◌, refl, ap, ◌∙◌, inl, inr, Option, none, some, [], ◌∷◌,
  ◌++◌, false, length, ◌==◌, Option-cases, arith,
}
use mathlib.Core.Path.{subst}
use rt11fs.Base.Text.{Text, find}
use rt11fs.Rad50.{charset, from_rad50, encode, to_rad50}
use rt11fs.Rad50.Chars.{IsCharAt, char_of, index_of}

from_rad50-chars :
    (w a b c : ℕ)
    → IsCharAt (w / 1600) a
    → IsCharAt (w / 40 % 40) b
    → IsCharAt (w % 40) c
    → from_rad50 w ≡ some (a ∷ b ∷ c ∷ [])
unfolding from_rad50
from_rad50-chars w a b c p q r = rw (p.2, q.2, r.2, ◌++◌)

encode-chars :
    (a b c i j k : ℕ)
    → i < 40
    → j < 40
    → k < 40
    → find charset a ≡ some i
    → find charset b ≡ some j
    → find charset c ≡ some k
    → to_rad50 (a ∷ b ∷ c ∷ []) ≡ some ((i * 40 + j) * 40 + k)
unfolding to_rad50 encode
encode-chars a b c i j k hi hj hk p q r = rw (p, q, r) (ap some (omega arith))

-- A word below 40 ^ 3 has a text of three characters, which encodes to it again.
pub to_rad50-from_rad50 :
    (w : ℕ)
    → w < 64000
    → (s : Text) × (from_rad50 w ≡ some s) × (length s ≡ 3) × (to_rad50 s ≡ some w)
to_rad50-from_rad50 w h =
    let (a, p) = char_of (w / 1600) (omega arith) in
    let (b, q) = char_of (w / 40 % 40) (omega arith) in
    let (c, r) = char_of (w % 40) (omega arith) in
    (
      a ∷ b ∷ c ∷ [],
      from_rad50-chars w a b c p q r,
      refl,
      encode-chars a b c (w / 1600) (w / 40 % 40) (w % 40) (omega arith) (omega arith) (omega arith)
            p.1 q.1 r.1
          ∙ ap some (omega arith),
    )

three_chars :
    (a b c i j k w : ℕ)
    → find charset a ≡ some i
    → find charset b ≡ some j
    → find charset c ≡ some k
    → to_rad50 (a ∷ b ∷ c ∷ []) ≡ some w
    → (w < 64000) × (from_rad50 w ≡ some (a ∷ b ∷ c ∷ []))
three_chars a b c i j k w ea eb ec h =
    let (hi, p) = index_of a i ea in
    let (hj, q) = index_of b j eb in
    let (hk, r) = index_of c k ec in
    let e : (i * 40 + j) * 40 + k ≡ w = cc (encode-chars a b c i j k hi hj hk ea eb ec) in
    let di : i ≡ w / 1600 = omega arith in
    let dj : j ≡ w / 40 % 40 = omega arith in
    let dk : k ≡ w % 40 = omega arith in
    (
      omega arith,
      from_rad50-chars w a b c (subst (λ t. IsCharAt t a) di p) (subst (λ t. IsCharAt t b) dj q)
          (subst (λ t. IsCharAt t c) dk r),
    )

-- An encoding in progress goes on only past a character of the set.
encode-cons :
    (ch : ℕ) (s : Text) (result w : ℕ)
    → encode (ch ∷ s) result ≡ some w
    → (i : ℕ) × (find charset ch ≡ some i) × (encode s ((result * 40 + i) % 2 ^ 16) ≡ some w)
unfolding encode
encode-cons ch s result w h = elim (Option-cases (find charset ch)) [
  | inl e ↦ absurd (not_found (rw e at h))
  | inr (i, e) ↦ (i, e, rw e at h)
]
  where
    not_found : ◌≡◌ {A = Option ℕ} none (some w) → ⊥
    not_found h = cc

wrong_length : (s : Text) → (length s == 3) ≡ false → to_rad50 s ≡ none
unfolding to_rad50
wrong_length s e = rw e

-- What encodes has three characters of the set, and its word decodes to it again.
pub from_rad50-to_rad50 :
    (s : Text) (w : ℕ) → to_rad50 s ≡ some w → (w < 64000) × (from_rad50 w ≡ some s)
from_rad50-to_rad50 [] w h = unfold to_rad50 in cc
from_rad50-to_rad50 (a ∷ []) w h = unfold to_rad50 in cc
from_rad50-to_rad50 (a ∷ b ∷ []) w h = unfold to_rad50 in cc
from_rad50-to_rad50 (a ∷ b ∷ c ∷ []) w h =
    let (i, ei, hi) = encode-cons a (b ∷ c ∷ []) 0 w (unfold to_rad50 in h) in
    let (j, ej, hj) = encode-cons b (c ∷ []) ((0 * 40 + i) % 2 ^ 16) w hi in
    let (k, ek, hk) = encode-cons c [] (((0 * 40 + i) % 2 ^ 16 * 40 + j) % 2 ^ 16) w hj in
    three_chars a b c i j k w ei ej ek h
from_rad50-to_rad50 (a ∷ b ∷ c ∷ d ∷ s) w h = cc (wrong_length (a ∷ b ∷ c ∷ d ∷ s) (ground arith))

-- A 16-bit word at or above 40 ^ 3 gives a text of two characters, which does not encode.
from_rad50_short :
    (w : ℕ)
    → 64000 ≤ w
    → w < 2 ^ 16
    → (s : Text) × (from_rad50 w ≡ some s) × (length s ≡ 2) × (to_rad50 s ≡ none)
from_rad50_short w lo hi =
    let (b, q) = char_of (w / 40 % 40) (omega arith) in
    let (c, r) = char_of (w % 40) (omega arith) in
    (
      b ∷ c ∷ [],
      unfold from_rad50 in rw (q.2, r.2, top) (ground arith),
      refl,
      unfold to_rad50 in refl,
    )
  where
    top : w / 1600 ≡ 40
    top = omega arith
