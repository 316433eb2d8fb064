-- ===== src/Session/Steps/Crossed.antt =====
-- Ratchet steps that both sides begin at once (src/ghost/session/mod.rs, `admit_peer_step`).
use vantablack.Prelude.{
  [], ◌∷◌, ◌⊎◌, ℕ, ◌≡◌, ◌≢◌, refl, sym, ap, ap₂, ◌∙◌, true, false, not, none, arith, ==_iff, ◌==◌,
  Bool-cases, inl, inr,
}
use vantablack.Prelude.Bytes.{Bytes}
use vantablack.Prelude.Utf8.{text_ltb}
use vantablack.Session.Kdf.{Primitives}
use vantablack.Session.Ratchet.{NonceDirection, initiator_to_responder, responder_to_initiator}
use vantablack.Session.Steps.{
  KeyExchange, RatchetStep, Session, RatchetAnswer, seal_direction, peer_direction,
  begin_ratchet_step, admit_peer_step, abandon_ratchet_step, finish_ratchet_step,
}
use vantablack.Session.Steps.Exchange.{Agree, Completes, begin_free, step_exchange}

-- The order of fingerprints.
text_ltb_total : (f g : Bytes) → f ≢ g → text_ltb f g ≡ not (text_ltb g f)
text_ltb_total [] [] n = absurd (n refl)
text_ltb_total [] (b ∷ g) n = refl
text_ltb_total (a ∷ f) [] n = refl
text_ltb_total (a ∷ f) (b ∷ g) n = elim (Bool-cases (a == b)) [
  | inl e ↦
      let ab = (==_iff a b).0 e in
      ground (arith, text_ltb_total f g (λ h. n (ap₂ (λ c t. c ∷ t) ab h)))
  | inr e ↦ ground arith
]

peer_direction_twice : (d : NonceDirection) → peer_direction (peer_direction d) ≡ d
peer_direction_twice initiator_to_responder = refl
peer_direction_twice responder_to_initiator = refl

module _ (p : Primitives) (x : KeyExchange) where
  -- How the steps of `w` and `l` are settled, when the one's fingerprint is `f` and the other's `g`:
  -- `w` keeps the step that it has begun with `i` and refuses to answer. `l` drops its own: a late
  -- answer to it yields nothing, and no step is in flight. Then `l` answers, and the step of `w`
  -- is completed.
  pub record Settled (w l : Session x) (f g : Bytes) (i r : RatchetStep x) (coins : Bytes)
      (late : RatchetAnswer) (t₀ t₁ u₀ u₁ : ℕ) : Type 0 where
    pub yielded : Session x
    pub keeps : admit_peer_step x f w ≡ (false, w)
    pub yields : admit_peer_step x g l ≡ (true, yielded)
    pub dropped : yielded.pending_step ≡ none
    pub idle : yielded.ratchet_in_progress ≡ false
    pub undated : yielded.ratchet_step_at ≡ none
    pub too_late : finish_ratchet_step x p late t₀ t₁ yielded ≡ (none, yielded)
    pub completes : Completes p x w yielded i r coins t₀ t₁ u₀ u₁

  settled :
      (a b : Session x) (i j r : RatchetStep x) (coins f g : Bytes) (late : RatchetAnswer)
      (now now' t₀ t₁ u₀ u₁ : ℕ)
      → a.ratchet_in_progress ≡ false
      → a.quantum_mix_in_progress ≡ false
      → b.ratchet_in_progress ≡ false
      → b.quantum_mix_in_progress ≡ false
      → peer_direction (seal_direction b.role) ≡ seal_direction a.role
      → Agree a.ratchet b.ratchet
      → a.peer_fingerprint ≡ g
      → b.peer_fingerprint ≡ f
      → text_ltb f g ≡ true
      → text_ltb g f ≡ false
      → Settled
          (begin_ratchet_step x i now a).1
          (begin_ratchet_step x j now' b).1
          f
          g
          i
          r
          coins
          late
          t₀
          t₁
          u₀
          u₁
  unfolding admit_peer_step abandon_ratchet_step finish_ratchet_step
  settled a b i j r coins f g late now now' t₀ t₁ u₀ u₁ fa ma fb mb roles agree ea eb lt ge =
      let yielded : Session x = record b {
        ratchet_in_progress = false;
        forced_ratchet_due = false;
        pending_step = none;
        ratchet_step_at = none;
      } in
      record {
        yielded = yielded;
        keeps = rw (begin_free p x a i now fa ma, ea, lt) refl;
        yields = rw (begin_free p x b j now' fb mb, eb, ge) refl;
        dropped = refl;
        idle = refl;
        undated = refl;
        too_late = refl;
        completes =
            (step_exchange p x a yielded i r coins now t₀ t₁ u₀ u₁ fa ma roles
              (record { root = agree.root; epoch = agree.epoch })).1;
      }

  -- When two sessions of opposite roles with different fingerprints, each naming the other as its
  -- peer, whose ratchets agree on root key and epoch, have both begun a step over a key exchange
  -- of the documented kind, with no step and no mix in flight before, then one of them keeps its
  -- step and refuses to answer, and the other yields: a late answer to the step that it had begun
  -- yields nothing, and no step is in flight or dated there any more. When it then answers, the
  -- answer is taken, it can activate the epoch that it names, and both have the same root key,
  -- epoch and chains, and the step is no longer in flight on the side that kept it.
  pub crossed_exchange :
      (a b : Session x) (i j r : RatchetStep x) (coins f g : Bytes) (late : RatchetAnswer)
      (now now' t₀ t₁ u₀ u₁ : ℕ)
      → a.ratchet_in_progress ≡ false
      → a.quantum_mix_in_progress ≡ false
      → b.ratchet_in_progress ≡ false
      → b.quantum_mix_in_progress ≡ false
      → peer_direction (seal_direction b.role) ≡ seal_direction a.role
      → Agree a.ratchet b.ratchet
      → a.peer_fingerprint ≡ g
      → b.peer_fingerprint ≡ f
      → f ≢ g
      → let a₁ = (begin_ratchet_step x i now a).1 in
        let b₁ = (begin_ratchet_step x j now' b).1 in
        Settled a₁ b₁ f g i r coins late t₀ t₁ u₀ u₁ ⊎ Settled b₁ a₁ g f j r coins late t₀ t₁ u₀ u₁
  crossed_exchange a b i j r coins f g late now now' t₀ t₁ u₀ u₁ fa ma fb mb roles agree ea eb n =
      let total = text_ltb_total f g n in
      elim (Bool-cases (text_ltb g f)) [
        | inl h ↦
            let back : peer_direction (seal_direction a.role) ≡ seal_direction b.role =
              ap peer_direction (sym roles) ∙ peer_direction_twice (seal_direction b.role) in
            inr (
              settled b a j i r coins g f late now' now t₀ t₁ u₀ u₁ fb mb fa ma back
                (record { root = sym agree.root; epoch = sym agree.epoch }) eb ea h
                (total ∙ ap not h))
        | inr h ↦ inl (
            settled a b i j r coins f g late now now' t₀ t₁ u₀ u₁ fa ma fb mb roles agree ea eb
              (total ∙ ap not h) h)
      ]
