-- ===== src/Base/Text.antt =====
-- `std::string` as the list of its characters' codes, with the members that the code calls.
use Prim.Native.Char.{code}
use Prim.Native.String.{String}
use Prim.Native.Nat.{ℕ, zero, suc}
use mathlib.Core.Path.{◌≡◌}
use mathlib.Core.Option.{Option, none, some}
use mathlib.Core.Option
use mathlib.Core.List.{List, [], ◌∷◌}
use native.Mathlib.Omega.{arith}
use rt11fs.Base.Tests.{ltb, ◌==◌, if◌then◌else◌}
use rt11fs.Base.Lists.{length, get_elem?, take, drop}

abbrev pub Text : Type 0
Text = List ℕ

abbrev pub codes : String → Text
codes String.[] = []
codes (String.◌∷◌ c s) = code c ∷ codes s

-- `s.find(ch)`; `none` is npos.
unfoldable pub find : Text → ℕ → Option ℕ
find [] ch = none
find (c ∷ s) ch = if c == ch then some 0 else Option.map suc (find s ch)

-- `s.substr(at, count)`; `none` is std::out_of_range.
unfoldable pub substr : Text → ℕ → ℕ → Option Text
substr s at count = if ltb (length s) at then none else some (take count (drop at s))

-- The character that `find` stops at is the one looked for.
pub find-get_elem? : (s : Text) (ch i : ℕ) → find s ch ≡ some i → get_elem? s i ≡ some ch
unfolding find
find-get_elem? [] ch i h = ground arith
find-get_elem? (c ∷ s) ch zero h = ground (arith)
find-get_elem? (c ∷ s) ch (suc i) h = ground (arith, find-get_elem? s ch i)
