-- ===== src/Base/Bits.antt =====
-- Shifts, masks and `|` of disjoint fields, as arithmetic.
use Prim.Native.Nat.{
  ℕ, zero, suc, ◌+◌, ◌-◌, ◌*◌, ◌/◌, ◌%◌, ◌^◌, ◌≤◌, ◌<◌, min, max, bit_and, bit_or, digits,
  bit_and-bitwise, bit_or-bitwise,
}
use mathlib.Core.Path.{◌≡◌, refl, sym, ap, ◌∙◌}
use native.Mathlib.Nat.{pow-suc, one-le-pow, mul_comm, div-div-eq-div-mul, div-add-mod'}
use native.Mathlib.Omega.{arith}

-- Two amounts of fuel that both reach the first number give the same digits.
digits-fuel :
    (x y : ℕ) (op : ℕ → ℕ → ℕ) (end : ℕ → ℕ) (i j : ℕ)
    → (x ≤ i) × (x ≤ j)
    → digits end op i x y ≡ digits end op j x y
digits-fuel zero y op end zero zero h = refl
digits-fuel zero y op end (suc i) zero h = refl
digits-fuel zero y op end zero (suc j) h = refl
digits-fuel zero y op end (suc i) (suc j) h = refl
digits-fuel (suc x) y op end zero j h = absurd (omega arith)
digits-fuel (suc x) y op end (suc i) zero h = absurd (omega arith)
digits-fuel (suc x) y op end (suc i) (suc j) h =
    rw (digits-fuel (suc x / 2) (y / 2) op end i j (omega arith, omega arith))

-- The lowest digit of `&` and `|`.
pub bit_or_digit : (x y : ℕ) → bit_or x y ≡ max (x % 2) (y % 2) + 2 * bit_or (x / 2) (y / 2)
bit_or_digit zero y = simp bit_or-bitwise (omega arith)
bit_or_digit (suc x) y =
    let half : ℕ = suc x / 2 in
    let same = digits-fuel half (y / 2) max (λ t. t) x half (omega arith, omega arith) in
    omega (arith, same, bit_or-bitwise half (y / 2), bit_or-bitwise (suc x) y)

pub bit_and_digit : (x y : ℕ) → bit_and x y ≡ min (x % 2) (y % 2) + 2 * bit_and (x / 2) (y / 2)
bit_and_digit zero y = simp bit_and-bitwise (omega arith)
bit_and_digit (suc x) y =
    let half : ℕ = suc x / 2 in
    let same = digits-fuel half (y / 2) min (λ t. 0) x half (omega arith, omega arith) in
    omega (arith, same, bit_and-bitwise half (y / 2), bit_and-bitwise (suc x) y)

bit_or_comm_fuel : (n a b : ℕ) → a ≤ n → b ≤ n → bit_or a b ≡ bit_or b a
bit_or_comm_fuel zero zero zero p q = refl
bit_or_comm_fuel zero (suc a) b p q = absurd (omega arith)
bit_or_comm_fuel zero zero (suc b) p q = absurd (omega arith)
bit_or_comm_fuel (suc n) a b p q = omega (
  arith,
  bit_or_digit a b,
  bit_or_digit b a,
  bit_or_comm_fuel n (a / 2) (b / 2) (omega arith) (omega arith),
)

pub bit_or_comm : (a b : ℕ) → bit_or a b ≡ bit_or b a
bit_or_comm a b = bit_or_comm_fuel (a + b) a b (omega arith) (omega arith)

and_or_zero : (x i : ℕ) → x ≤ i → (bit_or x 0 ≡ x) × (bit_and x 0 ≡ 0)
and_or_zero zero i h = (refl, refl)
and_or_zero (suc x) zero h = absurd (omega arith)
and_or_zero (suc x) (suc i) h =
    let (same, none_left) = and_or_zero (suc x / 2) i (omega arith) in
    (omega (arith, same, bit_or_digit (suc x) 0), omega (arith, none_left, bit_and_digit (suc x) 0))

double_pow : (q k : ℕ) → q * 2 ^ suc k ≡ 2 * (q * 2 ^ k)
double_pow q k = omega (arith, ap (λ (t : ℕ). q * t) (pow-suc 2 k))

-- `(hi << k) | lo` adds, when `lo` has `k` bits.
pub bit_or_high : (k hi lo : ℕ) → lo < 2 ^ k → bit_or (hi * 2 ^ k) lo ≡ hi * 2 ^ k + lo
bit_or_high zero hi lo h = ground (arith, (and_or_zero hi hi (omega arith)).0)
bit_or_high (suc k) hi lo h = ground (
  arith,
  double_pow hi k,
  pow-suc 2 k,
  bit_or_digit (hi * 2 ^ suc k) lo,
  bit_or_high k hi (lo / 2) (omega (arith, pow-suc 2 k)),
)

pub bit_or_low : (k hi lo : ℕ) → lo < 2 ^ k → bit_or lo (hi * 2 ^ k) ≡ hi * 2 ^ k + lo
bit_or_low k hi lo h = bit_or_comm lo (hi * 2 ^ k) ∙ bit_or_high k hi lo h

half_div_pow : (k a : ℕ) → a / 2 ^ suc k ≡ a / 2 / 2 ^ k
half_div_pow k a =
    ap (λ (t : ℕ). a / t) (pow-suc 2 k ∙ mul_comm (2 ^ k) 2) ∙ sym (div-div-eq-div-mul a 2 (2 ^ k))

half_mod_pow : (k a : ℕ) → a % 2 ^ suc k ≡ a / 2 % 2 ^ k * 2 + a % 2
half_mod_pow k a = omega (
  arith,
  half_div_pow k a,
  double_pow (a / 2 ^ suc k) k,
  ap (λ (t : ℕ). t * 2 ^ k) (half_div_pow k a),
  div-add-mod' a (2 ^ suc k),
  div-add-mod' (a / 2) (2 ^ k),
)

-- `& ((1 << k) - 1)` is the remainder.
pub bit_and_low : (k a : ℕ) → bit_and a (2 ^ k - 1) ≡ a % 2 ^ k
bit_and_low zero a = ground (arith, (and_or_zero a a (omega arith)).1)
bit_and_low (suc k) a = omega (
  arith,
  pow-suc 2 k,
  one-le-pow k 2 (omega arith),
  half_mod_pow k a,
  bit_and_digit a (2 ^ suc k - 1),
  ap (bit_and (a / 2)) (mask_half k),
  bit_and_low k (a / 2),
)
  where
    mask_half : (k : ℕ) → (2 ^ suc k - 1) / 2 ≡ 2 ^ k - 1
    mask_half k = omega (arith, pow-suc 2 k, one-le-pow k 2 (omega arith))

-- A mask that is shifted left reads the bits above.
pub bit_and_high : (k a m : ℕ) → bit_and a (m * 2 ^ k) ≡ bit_and (a / 2 ^ k) m * 2 ^ k
bit_and_high zero a m = ground arith
bit_and_high (suc k) a m = omega (
  arith,
  double_pow m k,
  double_pow (bit_and (a / 2 ^ suc k) m) k,
  bit_and_digit a (m * 2 ^ suc k),
  ap (bit_and (a / 2)) mask_half,
  bit_and_high k (a / 2) m,
  ap (λ (t : ℕ). bit_and t m * 2 ^ k) (half_div_pow k a),
)
  where
    mask_half : m * 2 ^ suc k / 2 ≡ m * 2 ^ k
    mask_half = omega (arith, double_pow m k)
