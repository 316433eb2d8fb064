-- ===== src/Prelude/Xor.antt =====
-- Exclusive or of words and of rows of bytes: applied twice with the same mask it changes nothing.
use Prim.Native.Nat.{
  ℕ, zero, suc, ◌+◌, ◌*◌, ◌/◌, ◌%◌, ◌^◌, ◌≤◌, ◌<◌, bit_xor, bit_xor-bitwise, differ,
}
use mathlib.Core.Path.{◌≡◌, refl, ap, ap₂, ◌∙◌}
use mathlib.Core.List.{[], ◌∷◌}
use native.Mathlib.Nat.{pow-suc}
use native.Mathlib.Omega.{arith}
use vantablack.Prelude.Lists.{length, All}
use vantablack.Prelude.Bytes.{Bytes}
use vantablack.Prelude.Bits.{lowest_digit}

differ-le-one : (a b : ℕ) → a ≤ 1 → b ≤ 1 → differ a b ≤ 1
differ-le-one zero b h k = k
differ-le-one (suc a) zero h k = h
differ-le-one (suc zero) (suc zero) h k = omega arith
differ-le-one (suc (suc a)) (suc b) h k = absurd (omega arith)
differ-le-one (suc zero) (suc (suc b)) h k = absurd (omega arith)

differ_twice : (a b : ℕ) → a ≤ 1 → b ≤ 1 → differ (differ a b) b ≡ a
differ_twice zero zero h k = refl
differ_twice zero (suc zero) h k = refl
differ_twice (suc zero) zero h k = refl
differ_twice (suc zero) (suc zero) h k = refl
differ_twice zero (suc (suc b)) h k = absurd (omega arith)
differ_twice (suc zero) (suc (suc b)) h k = absurd (omega arith)
differ_twice (suc (suc a)) b h k = absurd (omega arith)

bit_xor_step : (x y : ℕ) → bit_xor x y ≡ bit_xor (x / 2) (y / 2) * 2 + differ (x % 2) (y % 2)
bit_xor_step (suc x) y =
    let low = lowest_digit (λ t. t) differ x y in simp bit_xor-bitwise (omega (arith, low))
bit_xor_step zero y = simp bit_xor-bitwise (ground arith)

pub bit_xor-lt-pow : (w x m : ℕ) → x < 2 ^ w → m < 2 ^ w → bit_xor x m < 2 ^ w
bit_xor-lt-pow zero zero zero h k = omega arith
bit_xor-lt-pow zero (suc x) m h k = absurd (omega arith)
bit_xor-lt-pow zero zero (suc m) h k = absurd (omega arith)
bit_xor-lt-pow (suc w) x m h k =
    let h' : x < 2 ^ w * 2 = rw pow-suc at h in
    let k' : m < 2 ^ w * 2 = rw pow-suc at k in
    rw pow-suc (
      omega (
        arith,
        bit_xor_step x m,
        differ-le-one (x % 2) (m % 2) (omega arith) (omega arith),
        bit_xor-lt-pow w (x / 2) (m / 2) (omega arith) (omega arith),
      ))

pub bit_xor_twice : (w x m : ℕ) → x < 2 ^ w → m < 2 ^ w → bit_xor (bit_xor x m) m ≡ x
bit_xor_twice zero zero zero h k = refl
bit_xor_twice zero (suc x) m h k = absurd (omega arith)
bit_xor_twice zero zero (suc m) h k = absurd (omega arith)
bit_xor_twice (suc w) x m h k =
    let h' : x < 2 ^ w * 2 = rw pow-suc at h in
    let k' : m < 2 ^ w * 2 = rw pow-suc at k in
    let low = differ-le-one (x % 2) (m % 2) (omega arith) (omega arith) in
    let half : bit_xor x m / 2 ≡ bit_xor (x / 2) (m / 2) = omega (arith, bit_xor_step x m) in
    let odd : bit_xor x m % 2 ≡ differ (x % 2) (m % 2) = omega (arith, bit_xor_step x m) in
    bit_xor_step (bit_xor x m) m
    ∙ ap₂ (λ q r. bit_xor q (m / 2) * 2 + differ r (m % 2)) half odd
    ∙ omega (
      arith,
      bit_xor_twice w (x / 2) (m / 2) (omega arith) (omega arith),
      differ_twice (x % 2) (m % 2) (omega arith) (omega arith),
    )

abbrev pub IsByte : ℕ → Type 0
IsByte b = b < 256

-- `raw[i] ^= mask[i]` for each `i` of the row.
unfoldable pub xor_bytes : Bytes → Bytes → Bytes
xor_bytes [] mask = []
xor_bytes (b ∷ raw) [] = b ∷ raw
xor_bytes (b ∷ raw) (m ∷ mask) = bit_xor b m ∷ xor_bytes raw mask

pub length-xor_bytes : (raw mask : Bytes) → length (xor_bytes raw mask) ≡ length raw
unfolding xor_bytes
length-xor_bytes [] mask = refl
length-xor_bytes (b ∷ raw) [] = refl
length-xor_bytes (b ∷ raw) (m ∷ mask) = ap suc (length-xor_bytes raw mask)

pub xor_bytes_twice :
    (raw mask : Bytes)
    → All IsByte raw
    → All IsByte mask
    → xor_bytes (xor_bytes raw mask) mask ≡ raw
unfolding xor_bytes
xor_bytes_twice [] mask h k = refl
xor_bytes_twice (b ∷ raw) [] h k = refl
xor_bytes_twice (b ∷ raw) (m ∷ mask) h k =
    ap₂ (λ x xs. x ∷ xs) (bit_xor_twice 8 b m h.0 k.0) (xor_bytes_twice raw mask h.1 k.1)
