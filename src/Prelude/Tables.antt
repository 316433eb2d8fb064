-- ===== src/Prelude/Tables.antt =====
-- Facts about the words below a bound, by evaluation at each of them, and about rounding up to a
-- multiple of four bytes.
use Prim.Native.Nat.{ℕ, zero, suc, ◌-◌, ◌%◌, ◌<◌}
use mathlib.Core.Path.{◌≡◌, ◌∙◌}
use mathlib.Core.Bool.{Bool, true, ◌&&◌}
use mathlib.Core.Logic.{inl, inr}
use mathlib.Core.List.{[], ◌∷◌, ◌++◌, append_assoc, append-nil}
use native.Mathlib.Omega.{arith}
use vantablack.Prelude.Tests.{◌==◌, if◌then◌else◌, Bool-cases}
use vantablack.Prelude.Lists.{length, length-append, replicate}
use vantablack.Prelude.Bytes.{Bytes}

-- A test at each word below a bound.
unfoldable pub tabulated : (ℕ → Bool) → ℕ → Bool
tabulated test zero = true
tabulated test (suc top) = tabulated test top && test top

pub tabulated_lem :
    (test : ℕ → Bool) {word top : ℕ} → word < top → tabulated test top ≡ true → test word ≡ true
unfolding tabulated
tabulated_lem test {top = zero} below passed = absurd (omega arith)
tabulated_lem test {word = word} {top = suc top} below passed =
    let lower = tabulated_lem test {word = word} {top = top} in ground (arith, lower)

-- `while out.len() % 4 != 0 { out.push(0) }`, with the number of rounds left.
unfoldable pub pad_loop : ℕ → Bytes → Bytes
pad_loop zero out = out
pad_loop (suc f) out =
    let more = pad_loop f (out ++ (0 ∷ [])) in if length out % 4 == 0 then out else more

unfoldable pub pad : Bytes → Bytes
unfolding pad_loop
pad out = pad_loop 3 out

-- How many zeros round a length up to a multiple of four.
abbrev pub padding : ℕ → ℕ
padding n = (4 - n % 4) % 4

pad_loop_lem :
    (f : ℕ) (out : Bytes)
    → padding (length out) < suc f
    → pad_loop f out ≡ out ++ replicate (padding (length out)) 0
unfolding pad_loop
pad_loop_lem zero out h =
    let none_left : padding (length out) ≡ 0 = omega arith in rw (none_left, append-nil)
pad_loop_lem (suc f) out h = elim (Bool-cases (length out % 4 == 0)) [
  | inl whole ↦
      let none_left : padding (length out) ≡ 0 = ground arith in rw (whole, none_left, append-nil)
  | inr part ↦
      let len = length-append out (0 ∷ []) in
      let one_less : padding (length out) ≡ suc (padding (length (out ++ (0 ∷ [])))) =
        ground (arith, len) in
      rw (part, one_less)
        (pad_loop_lem f (out ++ (0 ∷ [])) (omega arith)
          ∙ append_assoc out (0 ∷ []) (replicate (padding (length (out ++ (0 ∷ [])))) 0))
]

-- Three rounds are enough: `pad` adds what is lacking.
pub pad_lem : (out : Bytes) → pad out ≡ out ++ replicate (padding (length out)) 0
unfolding pad
pad_lem out = pad_loop_lem 3 out (omega arith)
