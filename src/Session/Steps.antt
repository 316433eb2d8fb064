-- ===== src/Session/Steps.antt =====
-- The exchange of a ratchet step between two sessions: the parts of `Session` in
-- src/ghost/session/mod.rs that it concerns, and `RatchetStep` of src/ghost/session/ratchet.rs. The
-- clock's readings are arguments; the key pairs that a step draws are arguments too.
pub mod Exchange
pub mod Crossed
pub mod Recovery
mod Tests
use vantablack.Prelude.{
  ℕ, suc, ◌+◌, ◌-◌, ◌*◌, ◌%◌, ◌^◌, Bool, true, false, not, ◌||◌, Option, none, some, ◌≡◌, ltb, ◌==◌,
  if◌then◌else◌,
}
use vantablack.Prelude.Bytes.{Bytes, codes, equal}
use vantablack.Prelude.Utf8.{text_ltb}
use vantablack.Session.Kdf.{Primitives}
use vantablack.Session.Guard.Wide.{SessionGuardU64}
use vantablack.Session.Guard.Wide
use vantablack.Session.Ratchet.{
  SessionRatchet, StepSecrets, NonceDirection, initiator_to_responder, responder_to_initiator,
  activate, epoch_capacity_left,
}
use vantablack.Session.Ratchet.Step.{prepare_step, preview_step_key, step}

-- X25519 and ML-KEM-512, which are crates', with what they document: both ends of a Diffie-Hellman
-- exchange compute one secret, and a key pair opens what was encapsulated for it.
pub record KeyExchange : Type 1 where
  pub Secret : Type 0
  pub x_public : Secret → Bytes
  pub diffie_hellman : Secret → Bytes → Bytes
  pub DecapsulationKey : Type 0
  pub kem_public : DecapsulationKey → Bytes
  pub encapsulate : Bytes → Bytes → Option (Bytes × Bytes)
  pub decapsulate : DecapsulationKey → Bytes → Bytes
  pub diffie_hellman_comm :
      (a b : Secret) → diffie_hellman a (x_public b) ≡ diffie_hellman b (x_public a)
  pub encapsulates :
      (k : DecapsulationKey) (coins : Bytes)
      → (ct : Bytes) × (key : Bytes) × (encapsulate (kem_public k) coins ≡ some (ct, key))
        × (decapsulate k ct ≡ key)

pub data SessionRole : Type 0 where
  initiator responder : SessionRole

-- `seal_direction` and `peer_direction`
abbrev pub seal_direction : SessionRole → NonceDirection
seal_direction initiator = initiator_to_responder
seal_direction responder = responder_to_initiator

abbrev pub peer_direction : NonceDirection → NonceDirection
peer_direction initiator_to_responder = responder_to_initiator
peer_direction responder_to_initiator = initiator_to_responder

pub record RatchetAnswer : Type 0 where
  pub x_public : Bytes
  pub kem_ct : Bytes
  pub confirm : Bytes
  pub epoch : ℕ

-- `Duration::from_secs(15)`
abbrev forced_interval : ℕ
forced_interval = 15 * 1000000000

-- `ratchet_confirm` of src/ghost/layers/l1_kem.rs
unfoldable pub ratchet_confirm : Primitives → Bytes → Bytes
ratchet_confirm p epoch_key = p.hmac epoch_key (codes "GHOST_RATCHET_CONFIRM_v2")

module _ (x : KeyExchange) where
  -- `RatchetStep`
  pub record RatchetStep : Type 0 where
    pub x_secret : x.Secret
    pub kem_dk : x.DecapsulationKey

  -- `RatchetStep::respond`
  abbrev pub respond_on : Option (Bytes × Bytes) → Bytes → Option (StepSecrets × Bytes)
  respond_on none dh = none
  respond_on (some (ct, kem)) dh = some (record { dh = dh; kem = kem }, ct)

  unfoldable pub respond : Bytes → Bytes → Bytes → RatchetStep → Option (StepSecrets × Bytes)
  respond peer_x_pub peer_kem_pub coins s =
      respond_on (x.encapsulate peer_kem_pub coins) (x.diffie_hellman s.x_secret peer_x_pub)

  -- `RatchetStep::finish`
  unfoldable pub finish : Bytes → Bytes → RatchetStep → StepSecrets
  finish peer_x_pub kem_ct s = record {
    dh = x.diffie_hellman s.x_secret peer_x_pub;
    kem = x.decapsulate s.kem_dk kem_ct;
  }

  -- The state of a session that the exchange concerns. Of a pending quantum mix only the epoch
  -- counts here.
  pub record Session : Type 0 where
    pub ratchet : SessionRatchet
    pub guard : SessionGuardU64
    pub role : SessionRole
    pub peer_fingerprint : Bytes
    pub pending_step : Option RatchetStep
    pub ratchet_step_at : Option ℕ
    pub ratchet_steps : ℕ
    pub ratchet_in_progress : Bool
    pub forced_ratchet_due : Bool
    pub pending_quantum_mix : Option ℕ
    pub quantum_mix_at : Option ℕ
    pub quantum_mix_in_progress : Bool
    pub quantum_mixed : Bool

  -- `trigger_forced_ratchet_step`
  abbrev too_soon : Option ℕ → ℕ → Bool
  too_soon none now = false
  too_soon (some prev) now = ltb (now - prev) forced_interval

  unfoldable pub trigger_forced_ratchet_step : ℕ → Session → Bool × Session
  trigger_forced_ratchet_step now s =
      if s.ratchet_in_progress || too_soon s.ratchet_step_at now
      then (false, s)
      else (true, record s { ratchet_step_at = some now; forced_ratchet_due = true })

  -- `ratchet_due`
  unfoldable pub ratchet_due : Session → Bool
  unfolding epoch_capacity_left
  ratchet_due s = epoch_capacity_left s.ratchet == 0 || s.forced_ratchet_due

  -- `abandon_ratchet_step`
  unfoldable pub abandon_ratchet_step : Session → Session
  abandon_ratchet_step s = record s {
    pending_step = none;
    ratchet_step_at = none;
    ratchet_in_progress = false;
  }

  -- `begin_ratchet_step`, with the step drawn.
  unfoldable pub begin_ratchet_step : RatchetStep → ℕ → Session → Option (Bytes × Bytes) × Session
  begin_ratchet_step drawn now s =
      if s.quantum_mix_in_progress || s.ratchet_in_progress then (none, s) else (
        some (x.x_public drawn.x_secret, x.kem_public drawn.kem_dk),
        record s {
          ratchet_in_progress = true;
          forced_ratchet_due = false;
          pending_step = some drawn;
          ratchet_step_at = some now;
        },
      )

  -- `admit_peer_step`
  unfoldable pub admit_peer_step : Bytes → Session → Bool × Session
  unfolding abandon_ratchet_step
  admit_peer_step our_fingerprint s =
      if not s.ratchet_in_progress
      then (true, s)
      else if text_ltb our_fingerprint s.peer_fingerprint
      then (false, s)
      else (true, abandon_ratchet_step s)

  module _ (p : Primitives) where
    -- `answer_ratchet_step`, with the step and the coins drawn. The key of a new epoch is always
    -- there (`Session.Ratchet.Step`), so the second `none` is not reached.
    unfoldable pub answer_key :
        (ℕ × Option Bytes) × SessionRatchet
        → Bytes
        → Bytes
        → Session
        → Option RatchetAnswer × Session
    unfolding ratchet_confirm
    answer_key ((epoch, none), r) our_x kem_ct s = (none, s)
    answer_key ((epoch, some key), r) our_x kem_ct s = (
      some (record {
        x_public = our_x;
        kem_ct = kem_ct;
        confirm = ratchet_confirm p key;
        epoch = epoch;
      }),
      record s { ratchet = r },
    )

    unfoldable pub answer_on :
        Option (StepSecrets × Bytes) → Bytes → Session → Option RatchetAnswer × Session
    unfolding answer_key prepare_step
    answer_on none our_x s = (none, s)
    answer_on (some (secrets, kem_ct)) our_x s =
        answer_key (prepare_step p secrets (peer_direction (seal_direction s.role)) s.ratchet) our_x
          kem_ct s

    unfoldable pub answer_ratchet_step :
        RatchetStep → Bytes → Bytes → Bytes → Session → Option RatchetAnswer × Session
    unfolding answer_on respond
    answer_ratchet_step drawn coins peer_x peer_kem_pub s =
        answer_on (respond peer_x peer_kem_pub coins drawn) (x.x_public drawn.x_secret) s

    -- `apply_ratchet_step`
    unfoldable pub apply_ratchet_step : StepSecrets → ℕ → ℕ → Session → ℕ × Session
    unfolding step Wide.reset
    apply_ratchet_step secrets t₀ t₁ s =
        let (epoch, r) = step p secrets s.ratchet in
        (
          epoch,
          record s {
            ratchet = r;
            ratchet_steps = (s.ratchet_steps + 1) % 2 ^ 64;
            ratchet_in_progress = false;
            pending_step = none;
            ratchet_step_at = none;
            guard = Wide.reset t₀ t₁ s.guard;
          },
        )

    -- `finish_ratchet_step`
    unfoldable pub finish_checked :
        StepSecrets → RatchetAnswer → ℕ → ℕ → Session → Option ℕ × Session
    unfolding preview_step_key apply_ratchet_step ratchet_confirm
    finish_checked secrets answer t₀ t₁ s =
        let (previewed_epoch, key) = preview_step_key p secrets (seal_direction s.role) s.ratchet in
        if not (answer.epoch == previewed_epoch)
          || not (equal (ratchet_confirm p key) answer.confirm)
        then (none, record s { ratchet_in_progress = false })
        else (let (epoch, s') = apply_ratchet_step secrets t₀ t₁ s in (some epoch, s'))

    unfoldable pub finish_on :
        Option RatchetStep → RatchetAnswer → ℕ → ℕ → Session → Option ℕ × Session
    unfolding finish_checked finish
    finish_on none answer t₀ t₁ s = (none, s)
    finish_on (some pending) answer t₀ t₁ s =
        finish_checked (finish answer.x_public answer.kem_ct pending) answer t₀ t₁
          (record s { pending_step = none })

    unfoldable pub finish_ratchet_step : RatchetAnswer → ℕ → ℕ → Session → Option ℕ × Session
    unfolding finish_on
    finish_ratchet_step answer t₀ t₁ s = finish_on s.pending_step answer t₀ t₁ s

  abbrev pub is_mix : Option ℕ → ℕ → Bool
  is_mix none epoch = false
  is_mix (some e) epoch = e == epoch

  -- What `activate_epoch` does when a quantum mix has landed.
  abbrev pub note_mix : Bool → Session → Session
  note_mix false s = s
  note_mix true s = record s {
    pending_quantum_mix = none;
    quantum_mix_in_progress = false;
    quantum_mix_at = none;
    quantum_mixed = true;
  }

  -- `activate_epoch`, after the ratchet was asked.
  unfoldable pub activate_on : Bool × SessionRatchet → ℕ → ℕ → ℕ → Session → Bool × Session
  unfolding Wide.reset
  activate_on (false, r) epoch t₀ t₁ s = (false, record s { ratchet = r })
  activate_on (true, r) epoch t₀ t₁ s = (
    true,
    note_mix (is_mix s.pending_quantum_mix epoch) (record s {
      ratchet = r;
      ratchet_steps = (s.ratchet_steps + 1) % 2 ^ 64;
      guard = Wide.reset t₀ t₁ s.guard;
    }),
  )

  -- `activate_epoch`
  unfoldable pub activate_epoch : ℕ → ℕ → ℕ → Session → Bool × Session
  unfolding activate activate_on
  activate_epoch epoch t₀ t₁ s = activate_on (activate epoch s.ratchet) epoch t₀ t₁ s
