-- ===== src/Rad50.antt =====
-- fslib/Rad50.cpp: three characters of a set of forty in one 16-bit word.
pub mod Chars
pub mod Laws
use rt11fs.Base.{
  ℕ, ◌+◌, ◌*◌, ◌/◌, ◌%◌, ◌^◌, Option, none, some, List, [], ◌∷◌, ◌++◌, length, ◌==◌, if◌then◌else◌,
}
use rt11fs.Base.Text.{Text, codes, find, substr}

abbrev pub charset : Text
charset = codes " ABCDEFGHIJKLMNOPQRSTUVWXYZ$.%0123456789"

abbrev pub base : ℕ
base = 40

infixl 5 ◌>>=◌
abbrev ◌>>=◌ {ℓ κ} : {A : Type ℓ} {B : Type κ} → Option A → (A → Option B) → Option B
none >>= f = none
some a >>= f = f a

-- `none` is the std::out_of_range of `substr`.
unfoldable pub from_rad50 : ℕ → Option Text
unfolding substr
from_rad50 rad50 = do
  c0 ← substr charset (rad50 / (base * base)) 1
  c1 ← substr charset (rad50 / base % base) 1
  c2 ← substr charset (rad50 % base) 1
  some ((c0 ++ c1) ++ c2)

-- The loop over the characters; `result` is a uint16_t.
unfoldable pub encode : Text → ℕ → Option ℕ
unfolding find
encode [] result = some result
encode (ch ∷ s) result = do index ← find charset ch; encode s ((result * base + index) % 2 ^ 16)

-- `none` is the result false, which leaves `out` alone.
unfoldable pub to_rad50 : Text → Option ℕ
unfolding encode
to_rad50 str = if length str == 3 then encode str 0 else none
