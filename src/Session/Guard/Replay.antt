-- ===== src/Session/Guard/Replay.antt =====
-- The replay window of src/ghost/layers/l6_session.rs against a guard that remembers everything.
use vantablack.Prelude.{
  ℕ, zero, suc, ◌+◌, ◌-◌, ◌*◌, ◌%◌, ◌^◌, ◌≤◌, ◌<◌, max, bit_and, bit_or, Bool, true, false, not,
  ◌&&◌, ◌||◌, List, [], ◌∷◌, ◌≡◌, refl, ◌∙◌, inl, inr, arith, ltb, leb, ◌==◌, if◌then◌else◌,
  Bool-cases, mem,
}
use vantablack.Prelude.Bits.{
  bit, bit-le-one, bit-bit_or, bit_and-pow, bit-pow_self, bit-pow_ne, bit-shl_below, bit-shl_above,
  bit-mod, pow_pos,
}
use vantablack.Session.Guard.{SessionGuard, slide, window_size}

abbrev pub newest : List ℕ → ℕ
newest [] = 0
newest (x ∷ xs) = max x (newest xs)

-- The specification: a guard that keeps every counter it has accepted. It takes a counter above
-- all of them, and one of the last 128 that it has not taken before.
unfoldable pub admits : List ℕ → ℕ → Bool
admits seen c = ltb (newest seen) c || ltb (newest seen - c) window_size && not (mem c seen)

unfoldable pub observe : List ℕ → ℕ → List ℕ
unfolding admits
observe seen c = if admits seen c then c ∷ seen else seen

pub mem-le-newest : (c : ℕ) (seen : List ℕ) → mem c seen ≡ true → c ≤ newest seen
mem-le-newest c [] h = cc
mem-le-newest c (x ∷ xs) h = ground (arith, mem-le-newest c xs)

-- Bit `j` of the mask says whether `v_max - j` was accepted.
pub record Refines (g : SessionGuard) (seen : List ℕ) : Type 0 where
  pub highest : g.v_max ≡ newest seen
  pub bits :
      (j : ℕ) → j < 128 → j ≤ g.v_max → bit j g.bitmask ≡ (if mem (g.v_max - j) seen then 1 else 0)

-- A jump of 128 or more starts the mask again.
jump_bits :
    (seen : List ℕ) (c j : ℕ)
    → j < 128
    → j ≤ c
    → newest seen + 128 ≤ c
    → bit j 1 ≡ (if mem (c - j) (c ∷ seen) then 1 else 0)
jump_bits seen c zero hj hc far = ground (arith, bit-pow_self 0)
jump_bits seen c (suc j) hj hc far =
    ground (arith, bit-pow_ne (suc j) 0, mem-le-newest (c - suc j) seen)

-- A smaller one, by `s`, moves it up and sets the lowest bit.
module _ (g : SessionGuard) (seen : List ℕ) (r : Refines g seen) (c s : ℕ)
    (by : c ≡ g.v_max + s) where
  moved_bits :
      (j : ℕ)
      → j < 128
      → j ≤ c
      → 0 < j
      → bit j (g.bitmask * 2 ^ s % 2 ^ 128) ≡ (if mem (c - j) seen then 1 else 0)
  moved_bits j hj hc pos = bit-mod 128 j (g.bitmask * 2 ^ s) hj ∙ elim (Bool-cases (ltb j s)) [
    | inl low ↦ ground (arith, bit-shl_below s j g.bitmask, mem-le-newest (c - j) seen, r.highest)
    | inr high ↦
        let back : g.v_max - (j - s) ≡ c - j = ground arith in
        bit-shl_above s j g.bitmask (ground arith)
        ∙ r.bits (j - s) (omega arith) (ground arith)
        ∙ rw back
  ]

  shift_bits :
      (j : ℕ)
      → j < 128
      → j ≤ c
      → 0 < s
      → bit j (bit_or (g.bitmask * 2 ^ s % 2 ^ 128) 1) ≡ (if mem (c - j) (c ∷ seen) then 1 else 0)
  shift_bits zero hj hc up =
      bit-bit_or zero _ 1
      ∙ ground (arith, bit-pow_self 0, bit-le-one 0 (g.bitmask * 2 ^ s % 2 ^ 128))
  shift_bits (suc j) hj hc up =
      bit-bit_or (suc j) _ 1 ∙ ground (arith, bit-pow_ne (suc j) 0, moved_bits (suc j))

-- A counter inside the window sets its own bit.
mark_bits :
    (g : SessionGuard) (seen : List ℕ)
    → Refines g seen
    → (c j : ℕ) → c ≤ g.v_max
    → j < 128
    → j ≤ g.v_max
    → bit j (bit_or g.bitmask (2 ^ (g.v_max - c))) ≡ (if mem (g.v_max - j) (c ∷ seen) then 1 else 0)
mark_bits g seen r c j hc hj top = bit-bit_or j g.bitmask _ ∙ elim (Bool-cases (j == g.v_max - c)) [
  | inl here ↦ ground (arith, bit-pow_self (g.v_max - c), bit-le-one j g.bitmask)
  | inr other ↦ ground (arith, bit-pow_ne j (g.v_max - c), r.bits j)
]

abbrev Agrees : Bool × SessionGuard → List ℕ → ℕ → Type 0
Agrees out seen c = (out.0 ≡ admits seen c) × Refines out.1 (observe seen c)

module _ (at : ℕ) (g : SessionGuard) (seen : List ℕ) (r : Refines g seen) (c : ℕ) where
  -- the outcome of an acceptance that leaves `mask`
  abbrev accepted : ℕ → ℕ → Bool × SessionGuard
  accepted top mask = (true, record g { bitmask = mask; v_max = top; last_activity = at })

  accepted-Agrees :
      (top mask : ℕ)
      → admits seen c ≡ true
      → top ≡ newest (c ∷ seen)
      → ((j : ℕ) → j < 128 → j ≤ top → bit j mask ≡ (if mem (top - j) (c ∷ seen) then 1 else 0))
      → Agrees (accepted top mask) seen c
  unfolding observe
  accepted-Agrees top mask yes' high bits = rw yes' (refl, record { highest = high; bits = bits })

  slide_newer : g.v_max < c → Agrees (slide at g c) seen c
  unfolding slide admits
  slide_newer up = elim (Bool-cases (leb window_size (c - g.v_max))) [
    | inl far ↦
        let e : slide at g c ≡ accepted c 1 = ground arith in
        rw e (
          accepted-Agrees c 1 (ground (arith, r.highest)) (ground (arith, r.highest))
            (λ j hj hc. jump_bits seen c j hj hc (ground (arith, r.highest))))
    | inr near ↦
        let e : slide at g c ≡ accepted c (bit_or (g.bitmask * 2 ^ (c - g.v_max) % 2 ^ 128) 1) =
          ground arith in
        rw e (
          accepted-Agrees c _ (ground (arith, r.highest)) (ground (arith, r.highest))
            (λ j hj hc. shift_bits g seen r c (c - g.v_max) (omega arith) j hj hc (omega arith)))
  ]

  rejected-Agrees : admits seen c ≡ false → Agrees (false, g) seen c
  unfolding observe
  rejected-Agrees no' = rw no' (refl, r)

  slide_old : window_size ≤ g.v_max - c → Agrees (slide at g c) seen c
  unfolding slide admits
  slide_old old =
      let e : slide at g c ≡ (false, g) = ground arith in
      rw e (rejected-Agrees (ground (arith, r.highest)))

  -- The bit that the code tests says whether `c` was accepted.
  tested_bit :
      c ≤ g.v_max
      → g.v_max - c < 128
      → bit_and g.bitmask (2 ^ (g.v_max - c)) ≡ (if mem c seen then 1 else 0) * 2 ^ (g.v_max - c)
  tested_bit low near =
      let back : g.v_max - (g.v_max - c) ≡ c = omega arith in
      bit_and-pow (g.v_max - c) g.bitmask ∙ rw (r.bits (g.v_max - c) near (omega arith), back)

  slide_recent : c ≤ g.v_max → g.v_max - c < 128 → Agrees (slide at g c) seen c
  unfolding slide admits
  slide_recent low near = elim (Bool-cases (mem c seen)) [
    | inl again ↦
        let e : slide at g c ≡ (false, g) =
          ground (arith, tested_bit low near, pow_pos (g.v_max - c)) in
        rw e (rejected-Agrees (ground (arith, r.highest)))
    | inr fresh ↦
        let e : slide at g c ≡ accepted g.v_max (bit_or g.bitmask (2 ^ (g.v_max - c))) =
          ground (arith, tested_bit low near) in
        rw e (
          accepted-Agrees g.v_max _ (ground (arith, r.highest)) (ground (arith, r.highest))
            (λ j hj hc. mark_bits g seen r c j low hj hc))
  ]

-- On any history, `check_and_update` gives the answer of the guard that remembers every counter
-- it has accepted, and goes on agreeing with it.
pub slide-Agrees :
    (at : ℕ) (g : SessionGuard) (seen : List ℕ) (c : ℕ)
    → Refines g seen
    → Agrees (slide at g c) seen c
slide-Agrees at g seen c r = elim (Bool-cases (ltb g.v_max c)) [
  | inl up ↦ slide_newer at g seen r c (ground arith)
  | inr low ↦ elim (Bool-cases (leb window_size (g.v_max - c))) [
    | inl old ↦ slide_old at g seen r c (ground arith)
    | inr near ↦ slide_recent at g seen r c (ground arith) (ground arith)
  ]
]
