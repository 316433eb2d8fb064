-- ===== src/Prelude/Bits.antt =====
-- The bits of a word: what `&`, `|`, `<<` and a cast to a width do to each of them.
use Prim.Native.Nat.{
  ℕ, zero, suc, ◌+◌, ◌-◌, ◌*◌, ◌/◌, ◌%◌, ◌^◌, ◌≤◌, ◌<◌, min, max, bit_and, bit_or, digits,
  bit_and-bitwise, bit_or-bitwise,
}
use mathlib.Core.Path.{◌≡◌, refl, sym, ap, ◌∙◌}
use mathlib.Core.Logic.{◌≢◌}
use native.Mathlib.Nat.{le_refl, pow-suc}
use native.Mathlib.Omega.{arith}

-- The native `|` and `&` run on fuel. With enough of it, how much does not matter.
module _ (ends : ℕ → ℕ) (op : ℕ → ℕ → ℕ) where
  enough :
      (fuel x y : ℕ) {other : ℕ}
      → (x ≤ fuel) × (x ≤ other)
      → digits ends op fuel x y ≡ digits ends op other x y
  enough (suc fuel) (suc x) y {other = suc other} h =
      let half = enough fuel (suc x / 2) (y / 2) {other = other} (omega arith, omega arith) in
      rw half refl
  enough (suc fuel) (suc x) y {other = zero} h = absurd (omega arith)
  enough (suc fuel) zero y {other = suc other} h = refl
  enough (suc fuel) zero y {other = zero} h = refl
  enough zero (suc x) y h = absurd (omega arith)
  enough zero zero y {other = suc other} h = refl
  enough zero zero y {other = zero} h = refl

  pub lowest_digit :
      (x y : ℕ)
      → digits ends op (suc x) (suc x) y
        ≡ op (suc x % 2) (y % 2) + 2 * digits ends op (suc x / 2) (suc x / 2) (y / 2)
  lowest_digit x y =
      let less = enough x (suc x / 2) (y / 2) {other = suc x / 2} (omega arith, omega arith) in
      omega (arith, less)

bit_and_step : (x y : ℕ) → bit_and x y ≡ bit_and (x / 2) (y / 2) * 2 + min (x % 2) (y % 2)
bit_and_step (suc x) y =
    let low = lowest_digit (λ t. 0) min x y in simp bit_and-bitwise (omega (arith, low))
bit_and_step zero y = simp bit_and-bitwise (omega arith)

bit_or_step : (x y : ℕ) → bit_or x y ≡ bit_or (x / 2) (y / 2) * 2 + max (x % 2) (y % 2)
bit_or_step (suc x) y =
    let low = lowest_digit (λ t. t) max x y in simp bit_or-bitwise (omega (arith, low))
bit_or_step zero y = simp bit_or-bitwise (omega arith)

-- Bit `k` of a word.
pub bit : ℕ → ℕ → ℕ
bit zero m = m % 2
bit (suc k) m = bit k (m / 2)

pub bit-le-one : (k m : ℕ) → bit k m ≤ 1
unfolding bit
bit-le-one zero m = omega arith
bit-le-one (suc k) m = bit-le-one k (m / 2)

pub bit-zero : (k : ℕ) → bit k 0 ≡ 0
unfolding bit
bit-zero zero = refl
bit-zero (suc k) = bit-zero k

pub bit-bit_or : (j a b : ℕ) → bit j (bit_or a b) ≡ max (bit j a) (bit j b)
unfolding bit
bit-bit_or zero a b = omega (arith, bit_or_step a b)
bit-bit_or (suc j) a b = ap (bit j) (halved a b) ∙ bit-bit_or j (a / 2) (b / 2)
  where
    halved : (a b : ℕ) → bit_or a b / 2 ≡ bit_or (a / 2) (b / 2)
    halved a b = omega (arith, bit_or_step a b)

bit_and-zero : (n a : ℕ) → a ≤ n → bit_and a 0 ≡ 0
bit_and-zero n zero h = refl
bit_and-zero zero (suc a) h = elim h [ ]
bit_and-zero (suc n) (suc a) h =
    omega (arith, bit_and_step (suc a) 0, bit_and-zero n (suc a / 2) (omega arith))

-- The test `m & (1 << k)`.
pub bit_and-pow : (k m : ℕ) → bit_and m (2 ^ k) ≡ bit k m * 2 ^ k
unfolding bit
bit_and-pow zero m = omega (arith, bit_and_step m 1, bit_and-zero (m / 2) (m / 2) (le_refl _))
bit_and-pow (suc k) m =
    rw pow-suc
      (omega (arith, bit_and_step m (2 ^ k * 2), ap (bit_and (m / 2)) half, bit_and-pow k (m / 2)))
  where
    half : 2 ^ k * 2 / 2 ≡ 2 ^ k
    half = omega arith

pub pow_pos : (k : ℕ) → 0 < 2 ^ k
pow_pos zero = omega arith
pow_pos (suc k) = rw pow-suc (omega (arith, pow_pos k))

pub bit-pow_self : (k : ℕ) → bit k (2 ^ k) ≡ 1
unfolding bit
bit-pow_self zero = refl
bit-pow_self (suc k) = rw pow-suc (ap (bit k) (omega arith) ∙ bit-pow_self k)

pub bit-pow_ne : (j k : ℕ) → j ≢ k → bit j (2 ^ k) ≡ 0
unfolding bit
bit-pow_ne zero zero h = absurd (h refl)
bit-pow_ne (suc j) zero h = bit-zero j
bit-pow_ne zero (suc k) h = rw pow-suc (omega arith)
bit-pow_ne (suc j) (suc k) h =
    rw pow-suc (ap (bit j) (omega arith) ∙ bit-pow_ne j k (λ e. h (ap suc e)))

-- `m << s` before the cast.
pub bit-shl_below : (s j m : ℕ) → j < s → bit j (m * 2 ^ s) ≡ 0
unfolding bit
bit-shl_below zero j m h = elim h [ ]
bit-shl_below (suc s) zero m h = rw pow-suc (omega arith)
bit-shl_below (suc s) (suc j) m h =
    rw pow-suc (ap (bit j) (omega arith) ∙ bit-shl_below s j m (omega arith))

pub bit-shl_above : (s j m : ℕ) → s ≤ j → bit j (m * 2 ^ s) ≡ bit (j - s) m
unfolding bit
bit-shl_above zero j m h =
    let same : m * 2 ^ 0 ≡ m = omega arith in let stay : j - 0 ≡ j = omega arith in rw (same, stay)
bit-shl_above (suc s) zero m h = elim h [ ]
bit-shl_above (suc s) (suc j) m h = rw pow-suc (
    ap (bit j) (omega arith)
    ∙ bit-shl_above s j m (omega arith)
    ∙ (let shift : j - s ≡ suc j - suc s = omega arith in rw shift))

bit-add_high : (n j a c : ℕ) → j < n → bit j (a + c * 2 ^ n) ≡ bit j a
unfolding bit
bit-add_high zero j a c h = elim h [ ]
bit-add_high (suc n) zero a c h = rw pow-suc (omega arith)
bit-add_high (suc n) (suc j) a c h =
    rw pow-suc (ap (bit j) (omega arith) ∙ bit-add_high n j (a / 2) c (omega arith))

-- A cast to `n` bits keeps the bits below `n`.
pub bit-mod : (n j x : ℕ) → j < n → bit j (x % 2 ^ n) ≡ bit j x
bit-mod n j x h = sym (bit-add_high n j (x % 2 ^ n) (x / 2 ^ n) h) ∙ ap (bit j) (grind arith)
