-- ===== src/Session/Steps/Recovery.antt =====
-- A ratchet step whose answer was changed on the way (src/ghost/session/mod.rs,
-- `finish_ratchet_step`), and the step after it.
use mathlib.Core.Bool.{or-true}
use vantablack.Prelude.{
  ◌⊎◌, ℕ, ◌≡◌, ◌≢◌, refl, sym, ap, subst, ◌∙◌, true, false, none, some, ==_iff, ◌==◌, Bool-cases,
  inl, inr,
}
use vantablack.Prelude.Keyed.{some_inj}
use vantablack.Prelude.Bytes.{Bytes, equal, equal_iff}
use vantablack.Session.Kdf.{Primitives}
use vantablack.Session.Ratchet.{SessionRatchet, StepSecrets, NonceDirection}
use vantablack.Session.Ratchet.Step.{prepare_step, preview_step_key}
use vantablack.Session.Steps.{
  KeyExchange, RatchetStep, Session, RatchetAnswer, seal_direction, peer_direction, ratchet_confirm,
  respond, finish, begin_ratchet_step, answer_ratchet_step, finish_checked, finish_on,
  finish_ratchet_step,
}
use vantablack.Session.Steps.Exchange.{
  Agree, Completes, preview_step_key-Agree, finish-respond, begin_free, answer_of, answered,
  step_exchange,
}

other_epoch : (n m : ℕ) → n ≢ m → (n == m) ≡ false
other_epoch n m h = elim (Bool-cases (n == m)) [ inl e ↦ absurd (h ((==_iff n m).0 e)) | inr e ↦ e ]

other_bytes : (a b : Bytes) → b ≢ a → equal a b ≡ false
other_bytes a b h = elim (Bool-cases (equal a b)) [
  | inl e ↦ absurd (h (sym ((equal_iff a b).0 e)))
  | inr e ↦ e
]

module _ (p : Primitives) where
  prepare_step-kept :
      (secrets : StepSecrets) (d : NonceDirection) (a b : SessionRatchet)
      → Agree a b
      → Agree a (prepare_step p secrets d b).1
  unfolding prepare_step
  prepare_step-kept secrets d a b h = record { root = h.root; epoch = h.epoch }

  module _ (x : KeyExchange) where
    finish_checked-refused :
        (secrets : StepSecrets) (answer : RatchetAnswer) (t₀ t₁ : ℕ) (s : Session x)
        → let (epoch, key) = preview_step_key p secrets (seal_direction s.role) s.ratchet in
          (answer.epoch ≢ epoch) ⊎ (answer.confirm ≢ ratchet_confirm p key)
          → finish_checked x p secrets answer t₀ t₁ s
            ≡ (none, record s { ratchet_in_progress = false })
    unfolding finish_checked
    finish_checked-refused secrets answer t₀ t₁ s (inl h) = rw (other_epoch answer.epoch _ h) refl
    finish_checked-refused secrets answer t₀ t₁ s (inr h) =
        rw (other_bytes _ answer.confirm h, or-true) refl

    -- The session whose step is refused.
    abbrev ended : RatchetStep x → ℕ → Session x → Session x
    ended i now a = record a {
      ratchet_in_progress = false;
      forced_ratchet_due = false;
      pending_step = none;
      ratchet_step_at = some now;
    }

    finish_ratchet_step-ended :
        (secrets : StepSecrets) (ct : Bytes) (i r : RatchetStep x) (epoch : ℕ) (confirm : Bytes)
        (now t₀ t₁ : ℕ) (a b : Session x)
        → finish x (x.x_public r.x_secret) ct i ≡ secrets
        → a.ratchet_in_progress ≡ false
        → a.quantum_mix_in_progress ≡ false
        → peer_direction (seal_direction b.role) ≡ seal_direction a.role
        → Agree a.ratchet b.ratchet
        → (epoch ≢ (answer_of p x secrets ct r b).epoch)
          ⊎ (confirm ≢ (answer_of p x secrets ct r b).confirm)
        → finish_ratchet_step x p
            (record (answer_of p x secrets ct r b) { epoch = epoch; confirm = confirm })
            t₀
            t₁
            (begin_ratchet_step x i now a).1
          ≡ (none, ended i now a)
    unfolding finish_ratchet_step finish_on
    finish_ratchet_step-ended secrets ct i r epoch confirm now t₀ t₁ a b d free free' roles agree
          changed =
        let forged : RatchetAnswer = record (answer_of p x secrets ct r b) {
          epoch = epoch;
          confirm = confirm;
        } in
        let s : Session x = record (ended i now a) { ratchet_in_progress = true } in
        let same : preview_step_key p secrets (peer_direction (seal_direction b.role)) b.ratchet
            ≡ preview_step_key p secrets (seal_direction a.role) a.ratchet =
          ap (λ t. preview_step_key p secrets t b.ratchet) roles
          ∙ sym (
              preview_step_key-Agree p secrets (seal_direction a.role) a.ratchet b.ratchet agree) in
        ap (λ (t : Session x). finish_ratchet_step x p forged t₀ t₁ t)
          (ap (λ q. q.1) (begin_free p x a i now free free'))
        ∙ ap (λ t. finish_checked x p t forged t₀ t₁ s) d
        ∙ finish_checked-refused secrets forged t₀ t₁ s (
            subst (λ (q : ℕ × Bytes). (epoch ≢ q.0) ⊎ (confirm ≢ ratchet_confirm p q.1)) same
              changed)

    -- What becomes of a step whose answer, sent as `answer`, arrives with another epoch or
    -- confirmation: it yields nothing and leaves the ratchet as it was, nor does the true answer
    -- yield anything after it, and a new step is begun and completed.
    abbrev pub Recovers :
        (a b : Session x) (i r i' r' : RatchetStep x) (coins coins' : Bytes)
        (answer : RatchetAnswer) (epoch : ℕ) (confirm : Bytes) (now now' t₀ t₁ v₀ v₁ u₀ u₁ : ℕ)
        → Type 0
    Recovers a b i r i' r' coins coins' answer epoch confirm now now' t₀ t₁ v₀ v₁ u₀ u₁ =
        let a₁ = (begin_ratchet_step x i now a).1 in
        let b₁ =
          (answer_ratchet_step x p r coins (x.x_public i.x_secret) (x.kem_public i.kem_dk) b).1 in
        let (out, a₂) =
          finish_ratchet_step x p (record (answer) { epoch = epoch; confirm = confirm }) t₀ t₁ a₁ in
        let (asked, a₃) = begin_ratchet_step x i' now' a₂ in
        (out ≡ none)
        × (a₂.ratchet ≡ a.ratchet)
        × (finish_ratchet_step x p (answer) t₀ t₁ a₂ ≡ (none, a₂))
        × (asked ≡ some (x.x_public i'.x_secret, x.kem_public i'.kem_dk))
        × Completes p x a₃ b₁ i' r' coins' v₀ v₁ u₀ u₁

    tampered :
        (secrets : StepSecrets) (ct : Bytes) (a b : Session x) (i r i' r' : RatchetStep x)
        (coins coins' : Bytes) (epoch : ℕ) (confirm : Bytes) (now now' t₀ t₁ v₀ v₁ u₀ u₁ : ℕ)
        → respond x (x.x_public i.x_secret) (x.kem_public i.kem_dk) coins r ≡ some (secrets, ct)
        → finish x (x.x_public r.x_secret) ct i ≡ secrets
        → a.ratchet_in_progress ≡ false
        → a.quantum_mix_in_progress ≡ false
        → peer_direction (seal_direction b.role) ≡ seal_direction a.role
        → Agree a.ratchet b.ratchet
        → (epoch ≢ (answer_of p x secrets ct r b).epoch)
          ⊎ (confirm ≢ (answer_of p x secrets ct r b).confirm)
        → Recovers a b i r i' r' coins coins'
            (answer_of p x secrets ct r b)
            epoch
            confirm
            now
            now'
            t₀
            t₁
            v₀
            v₁
            u₀
            u₁
    unfolding finish_ratchet_step finish_on
    tampered secrets ct a b i r i' r' coins coins' epoch confirm now now' t₀ t₁ v₀ v₁ u₀ u₁ e d free
          free' roles agree changed =
        let dir = peer_direction (seal_direction b.role) in
        let b₁ : Session x = record b { ratchet = (prepare_step p secrets dir b.ratchet).1 } in
        let told = answered p x secrets ct i r coins b e in
        let refusal =
          finish_ratchet_step-ended secrets ct i r epoch confirm now t₀ t₁ a b d free free' roles
            agree changed in
        let (begun, completed) =
          step_exchange p x (ended i now a) b₁ i' r' coins' now' v₀ v₁ u₀ u₁ refl free' roles
            (prepare_step-kept secrets dir a.ratchet b.ratchet agree) in
        rw (told, refusal) (refl, refl, refl, begun, completed)

    -- Two sessions of opposite roles whose ratchets agree on root key and epoch begin and answer
    -- a step over a key exchange of the documented kind, with no step and no mix in flight on the
    -- side that begins it. If the answer arrives with another epoch or another confirmation than
    -- it was sent with, it yields nothing and leaves the ratchet as it was, and the true answer
    -- yields nothing any more after it. That side can begin another step at once: the other,
    -- though it has prepared the epoch of the first, answers, the answer is taken, the answering
    -- side can activate the epoch that it names, and then both have the same root key, epoch and
    -- chains, and no step is in flight on the side that began it.
    pub tampered_exchange :
        (a b : Session x) (i r i' r' : RatchetStep x) (coins coins' : Bytes)
        (answer : RatchetAnswer) (epoch : ℕ) (confirm : Bytes) (now now' t₀ t₁ v₀ v₁ u₀ u₁ : ℕ)
        → a.ratchet_in_progress ≡ false
        → a.quantum_mix_in_progress ≡ false
        → peer_direction (seal_direction b.role) ≡ seal_direction a.role
        → Agree a.ratchet b.ratchet
        → (answer_ratchet_step x p r coins (x.x_public i.x_secret) (x.kem_public i.kem_dk) b).0
          ≡ some answer
        → (epoch ≢ answer.epoch) ⊎ (confirm ≢ answer.confirm)
        → Recovers a b i r i' r' coins coins' answer epoch confirm now now' t₀ t₁ v₀ v₁ u₀ u₁
    tampered_exchange a b i r i' r' coins coins' answer epoch confirm now now' t₀ t₁ v₀ v₁ u₀ u₁
          free free' roles agree given changed =
        let (secrets, ct, e, d) = finish-respond p x i r coins in
        let same : answer_of p x secrets ct r b ≡ answer =
          some_inj (sym (ap (λ q. q.0) (answered p x secrets ct i r coins b e)) ∙ given) in
        subst
          (λ (t : RatchetAnswer).
            (epoch ≢ t.epoch) ⊎ (confirm ≢ t.confirm)
            → Recovers a b i r i' r' coins coins' t epoch confirm now now' t₀ t₁ v₀ v₁ u₀ u₁)
          same
          (tampered secrets ct a b i r i' r' coins coins' epoch confirm now now' t₀ t₁ v₀ v₁ u₀ u₁ e
            d free free' roles agree)
          changed
