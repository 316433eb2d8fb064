-- ===== src/Session/Ratchet/Grace.antt =====
-- Frames in flight across a step of `SessionRatchet` (src/ghost/session/ratchet.rs).
use vantablack.Prelude.{
  ℕ, suc, ◌+◌, ◌<◌, ◌≡◌, refl, Option, none, some, ◌∷◌, arith, take, ap, ◌∙◌, sym, subst,
}
use vantablack.Session.Kdf.{Primitives}
use vantablack.Session.MsgChain.{refused, u64_max}
use vantablack.Session.Ratchet.{
  SessionRatchet, PreparedEpoch, StepSecrets, NonceDirection, pick, plan_open, plan_in, chain_for,
  openable_epochs,
}
use vantablack.Session.Ratchet.Step.{step}
use vantablack.Session.Ratchet.Epochs.{
  IsRatchet, PendingIsNext, retiring, retire_lem, steps, apply, apply-IsRatchet,
}
use vantablack.Session.Ratchet.Open.{plan_open-openable_epochs}

module _ (p : Primitives) (secrets : StepSecrets) (r : SessionRatchet) (h : r.epoch < u64_max)
    (v : IsRatchet r) where
  step_lem :
      let r' = (step p secrets r).1 in
      (r'.pending ≡ none)
      × (r'.epoch ≡ suc r.epoch)
      × (r'.retired ≡ retiring r ∷ take 1 r.retired)
      × IsRatchet r'
  step_lem = (
    unfold step in refl,
    unfold step in omega arith,
    unfold step in retire_lem r v.few,
    unfold apply in (apply-IsRatchet p (steps secrets) r h v).0,
  )

  chain_for-step :
      (d : NonceDirection)
      → chain_for (step p secrets r).1.pending r.epoch d (step p secrets r).1
        ≡ some (pick d r.to_resp.msg_chain r.to_init.msg_chain)
  unfolding chain_for
  chain_for-step d =
      let (no_step, up, kept, _) = step_lem in rw (no_step, chain_for) (ground (arith, up, kept))

  chain_for_current :
      (d : NonceDirection) (o : Option PreparedEpoch)
      → r.pending ≡ o
      → chain_for o r.epoch d r ≡ some (pick d r.to_resp.msg_chain r.to_init.msg_chain)
  unfolding chain_for
  chain_for_current d none e = ground arith
  chain_for_current d (some q) e =
      let next : q.epoch ≡ suc r.epoch = subst (PendingIsNext r.epoch) e v.next in
      ground (arith, next)

  -- A step of a well-formed ratchet below the last 64-bit epoch leaves every frame of the epoch
  -- that it retires exactly as openable as it was.
  pub plan_open-step :
      (d : NonceDirection) (counter : ℕ)
      → plan_open p r.epoch d counter (step p secrets r).1 ≡ plan_open p r.epoch d counter r
  unfolding plan_open
  plan_open-step d counter =
      ap (λ c. plan_in p c counter) (chain_for-step d ∙ sym (chain_for_current d r.pending refl))

-- Three steps after an epoch that is not among the last three 64-bit ones, a well-formed ratchet
-- refuses every frame that names it, in either direction and with any counter, whatever secrets
-- the steps mixed in.
pub plan_open-step_thrice :
    (p : Primitives) (s₀ s₁ s₂ : StepSecrets) (d : NonceDirection) (counter : ℕ)
    (r : SessionRatchet)
    → r.epoch + 2 < u64_max
    → IsRatchet r
    → plan_open p r.epoch d counter (step p s₂ (step p s₁ (step p s₀ r).1).1).1 ≡ refused
plan_open-step_thrice p s₀ s₁ s₂ d counter r h v =
    let (_, up₀, kept₀, v₀) = step_lem p s₀ r (omega arith) v in
    let (_, up₁, kept₁, v₁) = step_lem p s₁ (step p s₀ r).1 (omega (arith, up₀)) v₀ in
    let (no_step, up₂, kept₂, _) =
      step_lem p s₂ (step p s₁ (step p s₀ r).1).1 (omega (arith, up₀, up₁)) v₁ in
    plan_open-openable_epochs p r.epoch counter d _
      (unfold openable_epochs in rw (no_step, kept₂, kept₁) (ground (arith, up₀, up₁, up₂)))
