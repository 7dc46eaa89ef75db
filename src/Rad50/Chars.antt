-- ===== src/Rad50/Chars.antt =====
-- Rad50: the two conversions are inverse to each other.
use rt11fs.Base.{
  ℕ, zero, suc, ◌<◌, ◌≡◌, refl, Option, none, some, [], ◌∷◌, Bool, true, false, length, get_elem?,
  take, drop, ◌==◌, arith,
}
use rt11fs.Base.Text.{Text, find, find-get_elem?, substr}
use rt11fs.Base.Table.{every_below, every_below-true}
use rt11fs.Rad50.{charset}

-- The character at an index is found at that index, so the set has no repetition.
abbrev is_found : ℕ → Bool
is_found i = elim (get_elem? charset i) [
  | some ch ↦ elim (find charset ch) [ some j ↦ i == j | none ↦ false ]
  | none ↦ false
]

charset_table : every_below is_found 40 ≡ true
unfolding every_below find
charset_table = refl

abbrev pub IsCharAt : ℕ → ℕ → Type 0
IsCharAt i ch =
    (get_elem? charset i ≡ some ch)
    × (find charset ch ≡ some i)
    × (substr charset i 1 ≡ some (ch ∷ []))

take-drop-one : (s : Text) (i ch : ℕ) → get_elem? s i ≡ some ch → take 1 (drop i s) ≡ ch ∷ []
take-drop-one [] i ch h = cc
take-drop-one (c ∷ s) zero ch h = ground arith
take-drop-one (c ∷ s) (suc i) ch h = take-drop-one s i ch h

get_elem?-some-lt : (s : Text) (i ch : ℕ) → get_elem? s i ≡ some ch → i < length s
get_elem?-some-lt [] i ch h = cc
get_elem?-some-lt (c ∷ s) zero ch h = omega arith
get_elem?-some-lt (c ∷ s) (suc i) ch h = omega (arith, get_elem?-some-lt s i ch h)

substr-one : (i ch : ℕ) → get_elem? charset i ≡ some ch → substr charset i 1 ≡ some (ch ∷ [])
unfolding substr
substr-one i ch h = ground (arith, get_elem?-some-lt charset i ch h, take-drop-one charset i ch h)

pub char_of : (i : ℕ) → i < 40 → (ch : ℕ) × IsCharAt i ch
char_of i h = go (get_elem? charset i) refl (every_below-true is_found 40 i h charset_table)
  where
    go : (o : Option ℕ) → get_elem? charset i ≡ o → is_found i ≡ true → (ch : ℕ) × IsCharAt i ch
    go none e t = cc
    go (some ch) e t = (ch, (e, ground arith, substr-one i ch e))

pub index_of : (ch i : ℕ) → find charset ch ≡ some i → (i < 40) × IsCharAt i ch
index_of ch i h =
    let e = find-get_elem? charset ch i h in
    (get_elem?-some-lt charset i ch e, (e, h, substr-one i ch e))
