-- ===== src/Session/Steps/Exchange.antt =====
-- A ratchet step between two sessions (src/ghost/session/mod.rs).
use vantablack.Prelude.{
  ==_iff, [], ℕ, ◌≡◌, refl, sym, ap, subst, ◌∙◌, Bool, true, false, none, some, ◌==◌,
}
use vantablack.Prelude.Bytes.{Bytes, equal, equal_iff}
use vantablack.Session.Kdf.{Primitives, kdf_rk_hybrid}
use vantablack.Session.Ratchet.{
  SessionRatchet, StepSecrets, NonceDirection, activate, next_u64, seed_chain,
}
use vantablack.Session.Ratchet.Step.{
  prepare_step, preview_step_key, step, prepare-preview_key, activate-prepare_step,
}
use vantablack.Session.Steps.{
  KeyExchange, RatchetStep, Session, RatchetAnswer, seal_direction, peer_direction, ratchet_confirm,
  respond, finish, begin_ratchet_step, answer_ratchet_step, answer_key, answer_on,
  apply_ratchet_step, finish_checked, finish_on, finish_ratchet_step, activate_epoch, activate_on,
  is_mix, note_mix,
}

-- Two ratchets from which the next step leads to one epoch.
pub record Agree (a b : SessionRatchet) : Type 0 where
  pub root : a.root_key ≡ b.root_key
  pub epoch : a.epoch ≡ b.epoch

-- Two ratchets that also seal and open with the same chains.
pub record Same (a b : SessionRatchet) : Type 0 where
  pub root : a.root_key ≡ b.root_key
  pub epoch : a.epoch ≡ b.epoch
  pub to_resp : a.to_resp ≡ b.to_resp
  pub to_init : a.to_init ≡ b.to_init

module _ (p : Primitives) where
  step-Same :
      (secrets : StepSecrets) (a b : SessionRatchet)
      → Agree a b
      → Same (step p secrets a).1 (step p secrets b).1
  unfolding step
  step-Same secrets a b h = record {
    root = λ j. (kdf_rk_hybrid p (h.root j) secrets.dh secrets.kem).root;
    epoch = ap next_u64 h.epoch;
    to_resp = λ j.
        seed_chain p (kdf_rk_hybrid p (h.root j) secrets.dh secrets.kem).to_resp
          (next_u64 (h.epoch j));
    to_init = λ j.
        seed_chain p (kdf_rk_hybrid p (h.root j) secrets.dh secrets.kem).to_init
          (next_u64 (h.epoch j));
  }

  pub preview_step_key-Agree :
      (secrets : StepSecrets) (d : NonceDirection) (a b : SessionRatchet)
      → Agree a b
      → preview_step_key p secrets d a ≡ preview_step_key p secrets d b
  unfolding preview_step_key
  preview_step_key-Agree secrets d a b h = rw (h.root, h.epoch) refl

  module _ (x : KeyExchange) where
    -- The initiator's secrets are the responder's.
    pub finish-respond :
        (i r : RatchetStep x) (coins : Bytes)
        → (secrets : StepSecrets) × (ct : Bytes) × (respond x
              (x.x_public i.x_secret)
              (x.kem_public i.kem_dk)
              coins
              r
            ≡ some (secrets, ct))
          × (finish x (x.x_public r.x_secret) ct i ≡ secrets)
    unfolding respond finish
    finish-respond i r coins =
        let (ct, key, e, d) = x.encapsulates i.kem_dk coins in
        (
          record { dh = x.diffie_hellman r.x_secret (x.x_public i.x_secret); kem = key },
          ct,
          rw e refl,
          λ j. record { dh = x.diffie_hellman_comm i.x_secret r.x_secret j; kem = d j },
        )

    -- An answer with the previewed epoch and key is taken.
    finish_checked-agreed :
        (secrets : StepSecrets) (answer : RatchetAnswer) (t₀ t₁ : ℕ) (s : Session x)
        → answer.epoch ≡ (preview_step_key p secrets (seal_direction s.role) s.ratchet).0
        → answer.confirm
          ≡ ratchet_confirm p (preview_step_key p secrets (seal_direction s.role) s.ratchet).1
        → finish_checked x p secrets answer t₀ t₁ s ≡ (
          some (apply_ratchet_step x p secrets t₀ t₁ s).0,
          (apply_ratchet_step x p secrets t₀ t₁ s).1,
        )
    unfolding finish_checked
    finish_checked-agreed secrets answer t₀ t₁ s e c =
        let key = (preview_step_key p secrets (seal_direction s.role) s.ratchet).1 in
        let same : (answer.epoch
              == (preview_step_key p secrets (seal_direction s.role) s.ratchet).0)
            ≡ true =
          (==_iff answer.epoch _).1 e in
        let confirmed : equal (ratchet_confirm p key) answer.confirm ≡ true =
          (equal_iff (ratchet_confirm p key) answer.confirm).1 (sym c) in
        rw (same, confirmed) refl

    -- The responder's answer carries the previewed epoch and key, and leaves the epoch prepared.
    answer_on-prepared :
        (secrets : StepSecrets) (ct our_x : Bytes) (s : Session x)
        → let d = peer_direction (seal_direction s.role) in
          let (epoch, key) = preview_step_key p secrets d s.ratchet in
          answer_on x p (some (secrets, ct)) our_x s ≡ (
            some (record {
              x_public = our_x;
              kem_ct = ct;
              confirm = ratchet_confirm p key;
              epoch = epoch;
            }),
            record s { ratchet = (prepare_step p secrets d s.ratchet).1 },
          )
    unfolding answer_on
    answer_on-prepared secrets ct our_x s =
        let d = peer_direction (seal_direction s.role) in
        ap (λ t. answer_key x p (t, (prepare_step p secrets d s.ratchet).1) our_x ct s)
          (prepare-preview_key p secrets [] d s.ratchet).0

    activate_epoch-activated :
        (epoch t₀ t₁ : ℕ) (s : Session x) (r : SessionRatchet)
        → activate epoch s.ratchet ≡ (true, r)
        → ((activate_epoch x epoch t₀ t₁ s).0 ≡ true)
          × ((activate_epoch x epoch t₀ t₁ s).1.ratchet ≡ r)
    unfolding activate_epoch
    activate_epoch-activated epoch t₀ t₁ s r h = (
      ap (λ q. (activate_on x q epoch t₀ t₁ s).0) h,
      ap (λ q. (activate_on x q epoch t₀ t₁ s).1.ratchet) h
          ∙ noted (is_mix x s.pending_quantum_mix epoch) _,
    )
      where
        noted : (b : Bool) (s : Session x) → (note_mix x b s).ratchet ≡ s.ratchet
        noted true s = refl
        noted false s = refl

    pub begin_free :
        (a : Session x) (i : RatchetStep x) (now : ℕ)
        → a.ratchet_in_progress ≡ false
        → a.quantum_mix_in_progress ≡ false
        → begin_ratchet_step x i now a ≡ (
          some (x.x_public i.x_secret, x.kem_public i.kem_dk),
          record a {
            ratchet_in_progress = true;
            forced_ratchet_due = false;
            pending_step = some i;
            ratchet_step_at = some now;
          },
        )
    unfolding begin_ratchet_step
    begin_free a i now free free' = rw (free', free) refl

    -- What the answering side sends, when the exchange gives these secrets.
    abbrev pub answer_of : StepSecrets → Bytes → RatchetStep x → Session x → RatchetAnswer
    answer_of secrets ct r b =
        let (epoch, key) =
          preview_step_key p secrets (peer_direction (seal_direction b.role)) b.ratchet in
        record {
          x_public = x.x_public r.x_secret;
          kem_ct = ct;
          confirm = ratchet_confirm p key;
          epoch = epoch;
        }

    pub answered :
        (secrets : StepSecrets) (ct : Bytes) (i r : RatchetStep x) (coins : Bytes) (b : Session x)
        → respond x (x.x_public i.x_secret) (x.kem_public i.kem_dk) coins r ≡ some (secrets, ct)
        → answer_ratchet_step x p r coins (x.x_public i.x_secret) (x.kem_public i.kem_dk) b ≡ (
          some (answer_of secrets ct r b),
          record b {
            ratchet = (prepare_step p secrets (peer_direction (seal_direction b.role)) b.ratchet).1;
          },
        )
    unfolding answer_ratchet_step
    answered secrets ct i r coins b e =
        ap (λ o. answer_on x p o (x.x_public r.x_secret) b) e
        ∙ answer_on-prepared secrets ct (x.x_public r.x_secret) b

    finished :
        (secrets : StepSecrets) (ct : Bytes) (i r : RatchetStep x) (t₀ t₁ : ℕ) (a b : Session x)
        → finish x (x.x_public r.x_secret) ct i ≡ secrets
        → a.pending_step ≡ some i
        → peer_direction (seal_direction b.role) ≡ seal_direction a.role
        → Agree a.ratchet b.ratchet
        → let a' : Session x = record a { pending_step = none } in
          finish_ratchet_step x p (answer_of secrets ct r b) t₀ t₁ a ≡ (
            some (apply_ratchet_step x p secrets t₀ t₁ a').0,
            (apply_ratchet_step x p secrets t₀ t₁ a').1,
          )
    unfolding finish_ratchet_step
    finished secrets ct i r t₀ t₁ a b d pending roles agree =
        let a' : Session x = record a { pending_step = none } in
        let same : preview_step_key p secrets (peer_direction (seal_direction b.role)) b.ratchet
            ≡ preview_step_key p secrets (seal_direction a.role) a.ratchet =
          ap (λ t. preview_step_key p secrets t b.ratchet) roles
          ∙ sym
              (preview_step_key-Agree secrets (seal_direction a.role) a.ratchet b.ratchet agree) in
        ap (λ o. finish_on x p o (answer_of secrets ct r b) t₀ t₁ a) pending
        ∙ ap (λ t. finish_checked x p t (answer_of secrets ct r b) t₀ t₁ a') d
        ∙ finish_checked-agreed secrets (answer_of secrets ct r b) t₀ t₁ a' (ap (λ q. q.0) same)
            (ap (λ q. ratchet_confirm p q.1) same)

    activated :
        (secrets : StepSecrets) (d : NonceDirection) (b : SessionRatchet)
        → activate (preview_step_key p secrets d b).0 (prepare_step p secrets d b).1
          ≡ (true, (step p secrets b).1)
    activated secrets d b =
        ap (λ t. activate t (prepare_step p secrets d b).1)
          (sym (ap (λ q. q.0) (prepare-preview_key p secrets [] d b).0))
        ∙ activate-prepare_step p secrets d b

    applied :
        (secrets : StepSecrets) (t₀ t₁ : ℕ) (s : Session x)
        → ((apply_ratchet_step x p secrets t₀ t₁ s).0 ≡ next_u64 s.ratchet.epoch)
          × ((apply_ratchet_step x p secrets t₀ t₁ s).1.ratchet ≡ (step p secrets s.ratchet).1)
          × ((apply_ratchet_step x p secrets t₀ t₁ s).1.ratchet_in_progress ≡ false)
    unfolding apply_ratchet_step step
    applied secrets t₀ t₁ s = (refl, refl, refl)

    preview_epoch :
        (secrets : StepSecrets) (d : NonceDirection) (r : SessionRatchet)
        → (preview_step_key p secrets d r).0 ≡ next_u64 r.epoch
    unfolding preview_step_key
    preview_epoch secrets d r = refl

    -- `b` answers what `a₁` has begun with `i`, the answer is taken, the answering side can activate
    -- the epoch that it names, and then both have the same root key, epoch and chains, and the step
    -- is no longer in flight on the side that began it.
    abbrev pub Completes :
        (a₁ b : Session x) (i r : RatchetStep x) (coins : Bytes) (t₀ t₁ u₀ u₁ : ℕ) → Type 0
    Completes a₁ b i r coins t₀ t₁ u₀ u₁ =
        let (given, b₁) =
          answer_ratchet_step x p r coins (x.x_public i.x_secret) (x.kem_public i.kem_dk) b in
        (answer : RatchetAnswer) × (given ≡ some answer)
        × (let (out, a₂) = finish_ratchet_step x p answer t₀ t₁ a₁ in
            let (activated, b₂) = activate_epoch x answer.epoch u₀ u₁ b₁ in
            (out ≡ some answer.epoch)
            × (activated ≡ true)
            × Same a₂.ratchet b₂.ratchet
            × (a₂.ratchet_in_progress ≡ false))

    -- Two sessions of opposite roles whose ratchets agree on root key and epoch make a step, over
    -- a key exchange of the documented kind: when the one, with no step and no mix in flight,
    -- begins it and the other answers, the answer is taken, the answering side can activate the
    -- epoch that it names, and then both have the same root key, epoch and chains, and the step
    -- is no longer in flight on the side that began it.
    pub step_exchange :
        (a b : Session x) (i r : RatchetStep x) (coins : Bytes) (now t₀ t₁ u₀ u₁ : ℕ)
        → a.ratchet_in_progress ≡ false
        → a.quantum_mix_in_progress ≡ false
        → peer_direction (seal_direction b.role) ≡ seal_direction a.role
        → Agree a.ratchet b.ratchet
        → let (asked, a₁) = begin_ratchet_step x i now a in
          let (given, b₁) =
            answer_ratchet_step x p r coins (x.x_public i.x_secret) (x.kem_public i.kem_dk) b in
          (asked ≡ some (x.x_public i.x_secret, x.kem_public i.kem_dk))
          × ((answer : RatchetAnswer) × (given ≡ some answer)
              × (let (out, a₂) = finish_ratchet_step x p answer t₀ t₁ a₁ in
                  let (activated, b₂) = activate_epoch x answer.epoch u₀ u₁ b₁ in
                  (out ≡ some answer.epoch)
                  × (activated ≡ true)
                  × Same a₂.ratchet b₂.ratchet
                  × (a₂.ratchet_in_progress ≡ false)))
    step_exchange a b i r coins now t₀ t₁ u₀ u₁ free free' roles agree =
        let (secrets, ct, e, d) = finish-respond i r coins in
        let dir = peer_direction (seal_direction b.role) in
        let a₁ : Session x = record a {
          ratchet_in_progress = true;
          forced_ratchet_due = false;
          pending_step = some i;
          ratchet_step_at = some now;
        } in
        let b₁ : Session x = record b { ratchet = (prepare_step p secrets dir b.ratchet).1 } in
        let a₂ : Session x = record a₁ { pending_step = none } in
        let done = applied secrets t₀ t₁ a₂ in
        let fin = finished secrets ct i r t₀ t₁ a₁ b d refl roles agree in
        let act =
          activate_epoch-activated (preview_step_key p secrets dir b.ratchet).0 u₀ u₁ b₁
            (step p secrets b.ratchet).1 (activated secrets dir b.ratchet) in
        rw (begin_free a i now free free', answered secrets ct i r coins b e)
          (
            refl,
            (
              answer_of secrets ct r b,
              refl,
              rw fin (
                ap some
                    (done.0 ∙ ap next_u64 agree.epoch ∙ sym (preview_epoch secrets dir b.ratchet)),
                act.0,
                subst (λ t. Same (apply_ratchet_step x p secrets t₀ t₁ a₂).1.ratchet t) (sym act.1)
                    (subst (λ t. Same t (step p secrets b.ratchet).1) (sym done.1)
                      (step-Same secrets a.ratchet b.ratchet agree)),
                done.2,
              ),
            ),
          )
