-- ===== src/Transport/Coalesce/Halves.antt =====
-- The two data shards of a batch (src/ghost/net/coalesce.rs): together they hold it.
use vantablack.Prelude.{
  ℕ, ◌+◌, ◌-◌, ◌≤◌, ◌<◌, min, ◌≡◌, ◌∙◌, [], ◌++◌, append-nil, arith, ltb, inl, inr, Bool-cases,
  length, take, drop, replicate, length-append, length-take, length-drop, length-replicate,
  take_prefix, take_all, take-append-drop, All-append, All-take, All-drop, All-replicate,
  if◌then◌else◌,
}
use vantablack.Prelude.Bytes.{Bytes}
use vantablack.Transport.Coalesce.{fill, low_half, high_half}
use vantablack.Transport.Erasure.{IsBytes}

length-fill : (n : ℕ) (front : Bytes) → length front ≤ n → length (fill n front) ≡ n
length-fill n front h = omega (
  arith,
  length-append front (replicate (n - length front) 0),
  length-replicate {A = ℕ} (n - length front) 0,
)

pub length-low_half : (n : ℕ) (b : Bytes) → length (low_half n b) ≡ n
length-low_half n b = length-fill n _ (omega (arith, length-take (min (length b) n) b))

pub length-high_half : (n : ℕ) (b : Bytes) → length (high_half n b) ≡ n
length-high_half n b = elim (Bool-cases (ltb n (length b))) [
  | inl long ↦
      rw long (length-fill n _ (omega (arith, length-take (min (length b - n) n) (drop n b))))
  | inr short ↦ rw short (length-replicate n 0)
]

IsBytes-fill : (n : ℕ) (front : Bytes) → IsBytes front → IsBytes (fill n front)
IsBytes-fill n front h =
    All-append (λ b. b < 256) front _ h
      (All-replicate (λ b. b < 256) (n - length front) 0 (omega arith))

pub low_half-IsBytes : (n : ℕ) (b : Bytes) → IsBytes b → IsBytes (low_half n b)
low_half-IsBytes n b h = IsBytes-fill n _ (All-take (λ b. b < 256) (min (length b) n) b h)

pub high_half-IsBytes : (n : ℕ) (b : Bytes) → IsBytes b → IsBytes (high_half n b)
high_half-IsBytes n b h = elim (Bool-cases (ltb n (length b))) [
  | inl long ↦ rw long (
      IsBytes-fill n _
        (All-take (λ b. b < 256) (min (length b - n) n) (drop n b) (All-drop (λ b. b < 256) n b h)))
  | inr short ↦ rw short (All-replicate (λ b. b < 256) n 0 (omega arith))
]

-- The bytes that a receiver puts together from two data shards of `n` bytes.
abbrev pub join : ℕ → ℕ → Bytes → Bytes → Bytes
join n total d0 d1 =
    take (min total n) d0 ++ (if ltb n total then take (min (total - n) n) d1 else [])

take-fill : (n k : ℕ) (front : Bytes) → k ≡ length front → take k (fill n front) ≡ front
take-fill n k front h = take_prefix k front _ h

pub join-halves :
    (n : ℕ) (b : Bytes) → length b ≤ n + n → join n (length b) (low_half n b) (high_half n b) ≡ b
join-halves n b h =
    let low : take (min (length b) n) (low_half n b) ≡ take (min (length b) n) b =
      take-fill n (min (length b) n) _ (omega (arith, length-take (min (length b) n) b)) in
    elim (Bool-cases (ltb n (length b))) [
      | inl long ↦
          let cut : min (length b) n ≡ n = ground arith in
          let all : take (min (length b - n) n) (drop n b) ≡ drop n b =
            take_all _ (drop n b) (ground (arith, length-drop n b)) in
          let high : take (min (length b - n) n) (fill n (take (min (length b - n) n) (drop n b)))
              ≡ drop n b =
            take-fill n _ _
              (omega (arith, length-take (min (length b - n) n) (drop n b), length-drop n b))
            ∙ all in
          rw (long, low, high, cut) (take-append-drop n b)
      | inr short ↦
          let whole : min (length b) n ≡ length b = ground arith in
          rw (short, low, whole) (append-nil _ ∙ take_all (length b) b (omega arith))
    ]
