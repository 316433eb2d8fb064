-- ===== src/Prelude/Bytes.antt =====
-- Byte strings, and the big-endian encoding of a word (`to_be_bytes`, `from_be_bytes`).
use Prim.Native.Nat.{ℕ, zero, suc, ◌+◌, ◌*◌, ◌/◌, ◌%◌, ◌^◌, ◌<◌}
use Prim.Native.Char.{code}
use Prim.Native.String.{String}
use mathlib.Core.Path.{◌≡◌, refl, sym, ap, ◌∙◌}
use mathlib.Core.Logic.{◌↔◌}
use mathlib.Core.Bool.{Bool, true, false, ◌&&◌}
use mathlib.Core.List.{List, [], ◌∷◌, ◌++◌}
use native.Mathlib.Nat.{pow-suc}
use native.Mathlib.Omega.{arith}
use vantablack.Prelude.Tests.{◌==◌}
use vantablack.Prelude.Lists.{
  length, length-append, take, drop, take_prefix, drop_prefix, drop-drop,
}

abbrev pub Bytes : Type 0
Bytes = List ℕ

-- The bytes of an ASCII literal.
abbrev pub codes : String → Bytes
codes String.[] = []
codes (String.◌∷◌ c s) = code c ∷ codes s

-- The `w` bytes of `n`, the highest first.
abbrev pub to_be_bytes : ℕ → ℕ → Bytes
to_be_bytes zero n = []
to_be_bytes (suc w) n = to_be_bytes w (n / 256) ++ (n % 256 ∷ [])

abbrev pub from_be : ℕ → Bytes → ℕ
from_be acc [] = acc
from_be acc (b ∷ bs) = from_be (acc * 256 + b) bs

abbrev pub from_be_bytes : Bytes → ℕ
from_be_bytes bs = from_be 0 bs

pub length-to_be_bytes : (w n : ℕ) → length (to_be_bytes w n) ≡ w
length-to_be_bytes zero n = refl
length-to_be_bytes (suc w) n =
    omega (
      arith,
      length-append (to_be_bytes w (n / 256)) (n % 256 ∷ []),
      length-to_be_bytes w (n / 256),
    )

from_be-append :
    (acc : ℕ) (xs : Bytes) (b : ℕ) → from_be acc (xs ++ (b ∷ [])) ≡ from_be acc xs * 256 + b
from_be-append acc [] b = refl
from_be-append acc (x ∷ xs) b = from_be-append (acc * 256 + x) xs b

-- Decoding undoes encoding of what fits the width.
pub from_be_bytes-to_be_bytes : (w n : ℕ) → n < 256 ^ w → from_be_bytes (to_be_bytes w n) ≡ n
from_be_bytes-to_be_bytes zero n h = omega arith
from_be_bytes-to_be_bytes (suc w) n h =
    let h' : n < 256 ^ w * 256 = rw pow-suc at h in
    omega (
      arith,
      from_be-append 0 (to_be_bytes w (n / 256)) (n % 256),
      from_be_bytes-to_be_bytes w (n / 256) (omega arith),
    )

abbrev pub equal : Bytes → Bytes → Bool
equal [] [] = true
equal [] (y ∷ ys) = false
equal (x ∷ xs) [] = false
equal (x ∷ xs) (y ∷ ys) = x == y && equal xs ys

pub equal_iff : (xs ys : Bytes) → (equal xs ys ≡ true) ↔ (xs ≡ ys)
equal_iff [] [] = (λ h. refl, λ h. refl)
equal_iff [] (y ∷ ys) = ground arith
equal_iff (x ∷ xs) [] = ground arith
equal_iff (x ∷ xs) (y ∷ ys) = ground (arith, equal_iff xs ys)

-- `raw[at..at + n]`, for a range inside.
abbrev pub slice : ℕ → ℕ → Bytes → Bytes
slice at n raw = take n (drop at raw)

-- A piece of known length in a row of pieces, and what follows it.
pub slice_piece :
    (at n : ℕ) (raw p rest : Bytes) → drop at raw ≡ p ++ rest → n ≡ length p → slice at n raw ≡ p
slice_piece at n raw p rest e h = ap (take n) e ∙ take_prefix n p rest h

pub drop_piece :
    (at n : ℕ) (raw p rest : Bytes)
    → drop at raw ≡ p ++ rest
    → n ≡ length p
    → drop (at + n) raw ≡ rest
drop_piece at n raw p rest e h = sym (drop-drop n at raw) ∙ ap (drop n) e ∙ drop_prefix n p rest h

pub to_be_bytes_inj :
    (w m n : ℕ) → m < 256 ^ w → n < 256 ^ w → to_be_bytes w m ≡ to_be_bytes w n → m ≡ n
to_be_bytes_inj w m n h k e =
    sym (from_be_bytes-to_be_bytes w m h) ∙ ap from_be_bytes e ∙ from_be_bytes-to_be_bytes w n k

-- Equal rows whose first pieces are equally long have equal pieces.
pub append_split :
    (xs xs' ys ys' : Bytes)
    → length xs ≡ length xs'
    → xs ++ ys ≡ xs' ++ ys'
    → (xs ≡ xs') × (ys ≡ ys')
append_split xs xs' ys ys' h e = (
  sym (take_prefix (length xs) xs ys refl)
      ∙ ap (take (length xs)) e
      ∙ take_prefix (length xs) xs' ys' h,
  sym (drop_prefix (length xs) xs ys refl)
      ∙ ap (drop (length xs)) e
      ∙ drop_prefix (length xs) xs' ys' h,
)
