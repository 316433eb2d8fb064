-- ===== src/Session/Ratchet/Step.antt =====
-- The steps of `SessionRatchet` (src/ghost/session/ratchet.rs): prepared, previewed and direct, by a
-- hybrid exchange or by a quantum key.
use vantablack.Prelude.{ℕ, ◌≡◌, refl, true, Option, none, some, arith, ap}
use vantablack.Prelude.Bytes.{Bytes}
use vantablack.Session.Kdf.{
  Primitives, RootKeys, kdf_rk_hybrid, kdf_rk_quantum_mix, kdf_ck, derive_epoch_key,
}
use vantablack.Session.MsgChain
use vantablack.Session.MsgChain.{OpenPlan, forward, cached, refused}
use vantablack.Session.Ratchet.{
  SessionRatchet, PreparedEpoch, ChainState, StepSecrets, NonceDirection, initiator_to_responder,
  responder_to_initiator, pick, next_u64, retire, activate, seed_chain,
}

module _ (p : Primitives) where
  -- The epoch that a step with these root keys opens.
  unfoldable pub derive_epoch : RootKeys → SessionRatchet → PreparedEpoch
  unfolding seed_chain
  derive_epoch keys r = record {
    epoch = next_u64 r.epoch;
    root_key = keys.root;
    to_resp = seed_chain p keys.to_resp (next_u64 r.epoch);
    to_init = seed_chain p keys.to_init (next_u64 r.epoch);
  }

  -- `match chain.plan(0) { Forward { key, .. } => key, _ => unreachable!() }`: `none` is the panic.
  unfoldable pub first_key : ChainState → Option Bytes
  first_key s = elim (MsgChain.plan p s.msg_chain 0) [
    | forward key new_chain new_pos cache ↦ some key
    | _ ↦ none
  ]

  unfoldable pub prepare :
      RootKeys → NonceDirection → SessionRatchet → (ℕ × Option Bytes) × SessionRatchet
  unfolding derive_epoch first_key
  prepare keys peer_direction r =
      let q = derive_epoch keys r in
      (
        (q.epoch, first_key (pick peer_direction q.to_resp q.to_init)),
        record r { pending = some q },
      )

  -- `prepare_step`
  unfoldable pub prepare_step :
      StepSecrets → NonceDirection → SessionRatchet → (ℕ × Option Bytes) × SessionRatchet
  unfolding prepare
  prepare_step secrets peer_direction r =
      prepare (kdf_rk_hybrid p r.root_key secrets.dh secrets.kem) peer_direction r

  -- `prepare_quantum_mix`
  unfoldable pub prepare_quantum_mix :
      Bytes → NonceDirection → SessionRatchet → (ℕ × Option Bytes) × SessionRatchet
  unfolding prepare
  prepare_quantum_mix quantum_key peer_direction r =
      prepare (kdf_rk_quantum_mix p r.root_key quantum_key) peer_direction r

  -- `step`
  unfoldable pub step : StepSecrets → SessionRatchet → ℕ × SessionRatchet
  unfolding retire seed_chain
  step secrets r =
      let keys = kdf_rk_hybrid p r.root_key secrets.dh secrets.kem in
      let next = next_u64 r.epoch in
      (
        next,
        record {
          root_key = keys.root;
          to_resp = seed_chain p keys.to_resp next;
          to_init = seed_chain p keys.to_init next;
          epoch = next;
          steps = next_u64 r.steps;
          frames_in_epoch = 0;
          retired = retire r;
          pending = none;
        },
      )

  -- `mix_quantum_entropy`, which leaves `steps` alone.
  unfoldable pub mix_quantum_entropy : Bytes → SessionRatchet → ℕ × SessionRatchet
  unfolding retire seed_chain
  mix_quantum_entropy quantum_key r =
      let keys = kdf_rk_quantum_mix p r.root_key quantum_key in
      let next = next_u64 r.epoch in
      (
        next,
        record {
          root_key = keys.root;
          to_resp = seed_chain p keys.to_resp next;
          to_init = seed_chain p keys.to_init next;
          epoch = next;
          steps = r.steps;
          frames_in_epoch = 0;
          retired = retire r;
          pending = none;
        },
      )

  unfoldable pub preview : RootKeys → NonceDirection → SessionRatchet → ℕ × Bytes
  preview keys direction r =
      let epoch = next_u64 r.epoch in
      let next_chain = (kdf_ck p (pick direction keys.to_resp keys.to_init)).0 in
      (epoch, (kdf_ck p (derive_epoch_key p next_chain epoch)).1)

  -- `preview_step_key`
  unfoldable pub preview_step_key : StepSecrets → NonceDirection → SessionRatchet → ℕ × Bytes
  unfolding preview
  preview_step_key secrets direction r =
      preview (kdf_rk_hybrid p r.root_key secrets.dh secrets.kem) direction r

  -- `preview_quantum_mix_key`
  unfoldable pub preview_quantum_mix_key : Bytes → NonceDirection → SessionRatchet → ℕ × Bytes
  unfolding preview
  preview_quantum_mix_key quantum_key direction r =
      preview (kdf_rk_quantum_mix p r.root_key quantum_key) direction r

  -- A step that is prepared and then activated leaves the ratchet in the state that the direct
  -- step leaves it in.
  pub activate-prepare_step :
      (secrets : StepSecrets) (d : NonceDirection) (r : SessionRatchet)
      → let (told, r') = prepare_step secrets d r in activate told.0 r' ≡ (true, (step secrets r).1)
  unfolding prepare_step step activate
  activate-prepare_step secrets d r = ground arith

  -- A quantum mix that is prepared and then activated leaves the ratchet in the state that the
  -- direct mix leaves it in, but for the count of steps, which only the prepared way raises.
  pub activate-prepare_quantum_mix :
      (quantum_key : Bytes) (d : NonceDirection) (r : SessionRatchet)
      → let (told, r') = prepare_quantum_mix quantum_key d r in
        activate told.0 r'
        ≡ (true, record ((mix_quantum_entropy quantum_key r).1) { steps = next_u64 r.steps })
  unfolding prepare_quantum_mix mix_quantum_entropy activate
  activate-prepare_quantum_mix quantum_key d r = ground arith

  first_key-seed_chain :
      (chain : Bytes) (epoch : ℕ)
      → first_key (seed_chain p chain epoch)
        ≡ some (kdf_ck p (derive_epoch_key p (kdf_ck p chain).0 epoch)).1
  unfolding first_key seed_chain MsgChain.seed MsgChain.plan
  first_key-seed_chain chain epoch = refl

  prepare-preview :
      (keys : RootKeys) (d : NonceDirection) (r : SessionRatchet)
      → let (epoch, key) = preview keys d r in (prepare keys d r).0 ≡ (epoch, some key)
  unfolding prepare preview
  prepare-preview keys initiator_to_responder r =
      ap (λ k. (next_u64 r.epoch, k)) (first_key-seed_chain keys.to_resp (next_u64 r.epoch))
  prepare-preview keys responder_to_initiator r =
      ap (λ k. (next_u64 r.epoch, k)) (first_key-seed_chain keys.to_init (next_u64 r.epoch))

  -- Preparing a step or a quantum mix does not reach its panic, and returns the epoch and the key
  -- that the preview of it returns.
  pub prepare-preview_key :
      (secrets : StepSecrets) (quantum_key : Bytes) (d : NonceDirection) (r : SessionRatchet)
      → let (epoch, key) = preview_step_key secrets d r in
        let (epoch', key') = preview_quantum_mix_key quantum_key d r in
        ((prepare_step secrets d r).0 ≡ (epoch, some key))
        × ((prepare_quantum_mix quantum_key d r).0 ≡ (epoch', some key'))
  unfolding prepare_step preview_step_key prepare_quantum_mix preview_quantum_mix_key
  prepare-preview_key secrets quantum_key d r = (
    prepare-preview (kdf_rk_hybrid p r.root_key secrets.dh secrets.kem) d r,
    prepare-preview (kdf_rk_quantum_mix p r.root_key quantum_key) d r,
  )
