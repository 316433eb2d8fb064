-- ===== src/Prelude/Utf8.antt =====
-- Texts: the bytes of a Rust `str` are well-formed UTF-8. What `String::from_utf8` and
-- `String::from_utf8_lossy` of the standard library do.
use Prim.Native.Nat.{ℕ, zero, suc}
use mathlib.Core.Path.{◌≡◌, refl, ap, ◌∙◌}
use mathlib.Core.Bool.{Bool, true, false, ◌&&◌}
use mathlib.Core.Option.{Option, none, some}
use mathlib.Core.List.{[], ◌∷◌, ◌++◌, append_assoc}
use native.Mathlib.Omega.{arith}
use vantablack.Prelude.Tests.{ltb, leb, ◌==◌, if◌then◌else◌}
use vantablack.Prelude.Bytes.{Bytes}

-- What the first byte of a character says: how many bytes follow, and the range of the next one.
pub data Lead : Type 0 where
  leads : (more lo hi : ℕ) → Lead
  invalid : Lead

abbrev within : ℕ → ℕ → ℕ → Bool
within lo hi b = leb lo b && leb b hi

unfoldable pub lead : ℕ → Lead
lead b =
    if ltb b 128
    then leads 0 0 0
    else if within 194 223 b
    then leads 1 128 191
    else if b == 224
    then leads 2 160 191
    else if b == 237
    then leads 2 128 159
    else if within 225 239 b
    then leads 2 128 191
    else if b == 240
    then leads 3 144 191
    else if within 241 243 b
    then leads 3 128 191
    else if b == 244
    then leads 3 128 143
    else invalid

-- The rest of a text, of which a character lacks `more` bytes, the next one between `lo` and `hi`.
abbrev continues : ℕ → ℕ → ℕ → Bytes → Bool
continues zero lo hi [] = true
continues (suc more) lo hi [] = false
continues zero lo hi (b ∷ bs) = elim (lead b) [
  | leads more lo' hi' ↦ continues more lo' hi' bs
  | invalid ↦ false
]
continues (suc more) lo hi (b ∷ bs) =
    let rest = continues more 128 191 bs in if within lo hi b then rest else false

unfoldable pub is_utf8 : Bytes → Bool
unfolding lead
is_utf8 bs = continues 0 0 0 bs

-- `String::from_utf8(bytes).ok()`
unfoldable pub from_utf8 : Bytes → Option Bytes
unfolding is_utf8
from_utf8 bs = if is_utf8 bs then some bs else none

-- U+FFFD
abbrev replacement : Bytes
replacement = 239 ∷ 191 ∷ 189 ∷ []

-- The loop of `from_utf8_lossy`: the bytes read of a character that lacks `more`, and the rest. A
-- maximal prefix of a character becomes one U+FFFD.
abbrev lossy : Bytes → ℕ → ℕ → ℕ → Bytes → Bytes
lossy part zero lo hi [] = []
lossy part (suc more) lo hi [] = replacement
lossy part zero lo hi (b ∷ bs) = elim (lead b) [
  | leads zero lo' hi' ↦ b ∷ lossy [] 0 0 0 bs
  | leads (suc more) lo' hi' ↦ lossy (b ∷ []) (suc more) lo' hi' bs
  | invalid ↦ replacement ++ lossy [] 0 0 0 bs
]
lossy part (suc zero) lo hi (b ∷ bs) = elim (within lo hi b) [
  | true ↦ (part ++ (b ∷ [])) ++ lossy [] 0 0 0 bs
  | false ↦ replacement ++ elim (lead b) [
    | leads zero lo' hi' ↦ b ∷ lossy [] 0 0 0 bs
    | leads (suc m) lo' hi' ↦ lossy (b ∷ []) (suc m) lo' hi' bs
    | invalid ↦ replacement ++ lossy [] 0 0 0 bs
  ]
]
lossy part (suc (suc more)) lo hi (b ∷ bs) = elim (within lo hi b) [
  | true ↦ lossy (part ++ (b ∷ [])) (suc more) 128 191 bs
  | false ↦ replacement ++ elim (lead b) [
    | leads zero lo' hi' ↦ b ∷ lossy [] 0 0 0 bs
    | leads (suc m) lo' hi' ↦ lossy (b ∷ []) (suc m) lo' hi' bs
    | invalid ↦ replacement ++ lossy [] 0 0 0 bs
  ]
]

-- `String::from_utf8_lossy(bytes)`
unfoldable pub from_utf8_lossy : Bytes → Bytes
unfolding lead
from_utf8_lossy bs = lossy [] 0 0 0 bs

start : (bs : Bytes) (lo hi : ℕ) → continues 0 lo hi bs ≡ true → continues 0 0 0 bs ≡ true
start [] lo hi c = refl
start (b ∷ bs) lo hi c = c

inside :
    (t c : Bool) (x y z : Bytes)
    → (if t then c else false) ≡ true
    → (c ≡ true → x ≡ z)
    → elim t [ true ↦ x | false ↦ y ] ≡ z
inside true c x y z h e = e h
inside false c x y z h e = ground arith

abbrev Keeps : Bytes → Type 0
Keeps bs =
    (part : Bytes) (more lo hi : ℕ)
    → (more ≡ 0 → part ≡ [])
    → continues more lo hi bs ≡ true
    → lossy part more lo hi bs ≡ part ++ bs

Keeps-lead :
    (b : ℕ) (bs : Bytes) (l : Lead)
    → Keeps bs
    → elim l [ leads more lo hi ↦ continues more lo hi bs | invalid ↦ false ] ≡ true
    → elim l [
      | leads zero lo hi ↦ b ∷ lossy [] 0 0 0 bs
      | leads (suc more) lo hi ↦ lossy (b ∷ []) (suc more) lo hi bs
      | invalid ↦ replacement ++ lossy [] 0 0 0 bs
    ]
      ≡ b ∷ bs
Keeps-lead b bs (leads zero lo hi) keeps c =
    ap (λ t. b ∷ t) (keeps [] 0 0 0 (λ e. refl) (start bs lo hi c))
Keeps-lead b bs (leads (suc more) lo hi) keeps c =
    keeps (b ∷ []) (suc more) lo hi (λ e. absurd (omega arith)) c
Keeps-lead b bs invalid keeps c = ground arith

lossy-Keeps : (bs : Bytes) → Keeps bs
lossy-Keeps [] part zero lo hi h ok = rw (h refl) refl
lossy-Keeps [] part (suc more) lo hi h ok = ground arith
lossy-Keeps (b ∷ bs) part zero lo hi h ok =
    rw (h refl) (Keeps-lead b bs (lead b) (lossy-Keeps bs) ok)
lossy-Keeps (b ∷ bs) part (suc zero) lo hi h ok = inside (within lo hi b) _ _ _ _ ok (λ c.
    ap (λ t. (part ++ (b ∷ [])) ++ t) (lossy-Keeps bs [] 0 0 0 (λ e. refl) (start bs 128 191 c))
    ∙ append_assoc part (b ∷ []) bs)
lossy-Keeps (b ∷ bs) part (suc (suc more)) lo hi h ok = inside (within lo hi b) _ _ _ _ ok (λ c.
    lossy-Keeps bs (part ++ (b ∷ [])) (suc more) 128 191 (λ e. absurd (omega arith)) c
    ∙ append_assoc part (b ∷ []) bs)

-- A text is read as it is.
pub from_utf8_lossy_text : (bs : Bytes) → is_utf8 bs ≡ true → from_utf8_lossy bs ≡ bs
unfolding from_utf8_lossy is_utf8
from_utf8_lossy_text bs h = lossy-Keeps bs [] 0 0 0 (λ e. refl) h

pub from_utf8_text : (bs : Bytes) → is_utf8 bs ≡ true → from_utf8 bs ≡ some bs
unfolding from_utf8
from_utf8_text bs h = rw h refl

-- The order of texts, byte by byte.
abbrev pub text_ltb : Bytes → Bytes → Bool
text_ltb [] [] = false
text_ltb [] (y ∷ ys) = true
text_ltb (x ∷ xs) [] = false
text_ltb (x ∷ xs) (y ∷ ys) = if ltb x y then true else if x == y then text_ltb xs ys else false
