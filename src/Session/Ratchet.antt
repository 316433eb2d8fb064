-- ===== src/Session/Ratchet.antt =====
-- `SessionRatchet` of src/ghost/session/ratchet.rs: epochs over a pair of message chains. The two
-- peers' key exchange (X25519, ML-KEM) is a library's; its outputs are `StepSecrets`. Epochs and
-- steps are 64-bit counters; `+ 1` on them is written with its wrap.
pub mod Step
pub mod Open
pub mod Epochs
pub mod Grace
use vantablack.Prelude.{
  ℕ, zero, suc, ◌+◌, ◌-◌, ◌%◌, ◌^◌, Bool, true, false, ◌&&◌, Option, none, some, List, [], ◌∷◌,
  ◌++◌, map, ltb, leb, ◌==◌, if◌then◌else◌, take, length,
}
use vantablack.Prelude.Bytes.{Bytes}
use vantablack.Session.Kdf.{
  Primitives, RootKeys, kdf_rk_hybrid, kdf_rk_quantum_mix, seed_ratchet_chains, kdf_ck,
  derive_epoch_key,
}
use vantablack.Session.MsgChain
use vantablack.Session.MsgChain.{MsgChain, OpenPlan, forward, cached, refused, max_skip}

-- `RATCHET_INTERVAL`
abbrev pub ratchet_interval : ℕ
ratchet_interval = 1_000_000

-- `RATCHET_RETAINED_EPOCHS`
abbrev pub ratchet_retained_epochs : ℕ
ratchet_retained_epochs = 2

-- `NonceDirection` of src/ghost/layers/l2_aead.rs
pub data NonceDirection : Type 0 where
  initiator_to_responder responder_to_initiator : NonceDirection

pub record ChainState : Type 0 where
  pub chain : Bytes
  pub msg_chain : MsgChain

pub record RatchetEpoch : Type 0 where
  pub epoch : ℕ
  pub to_resp : MsgChain
  pub to_init : MsgChain

pub record PreparedEpoch : Type 0 where
  pub epoch : ℕ
  pub root_key : Bytes
  pub to_resp : ChainState
  pub to_init : ChainState

pub record SessionRatchet : Type 0 where
  pub root_key : Bytes
  pub to_resp : ChainState
  pub to_init : ChainState
  pub epoch : ℕ
  pub steps : ℕ
  pub frames_in_epoch : ℕ
  pub retired : List RatchetEpoch
  pub pending : Option PreparedEpoch

pub record StepSecrets : Type 0 where
  pub dh : Bytes
  pub kem : Bytes

abbrev pub next_u64 : ℕ → ℕ
next_u64 n = (n + 1) % 2 ^ 64

-- the choice of a direction's value
abbrev pub pick {ℓ} : {A : Type ℓ} → NonceDirection → A → A → A
pick initiator_to_responder to_resp to_init = to_resp
pick responder_to_initiator to_resp to_init = to_init

-- `while self.retired.len() > RATCHET_RETAINED_EPOCHS { pop_back }`: one pop for each round of fuel.
abbrev drop_last {ℓ} : {A : Type ℓ} → List A → List A
drop_last [] = []
drop_last (x ∷ []) = []
drop_last (x ∷ y ∷ xs) = x ∷ drop_last (y ∷ xs)

unfoldable pub trim {ℓ} : {A : Type ℓ} → ℕ → List A → List A
trim zero xs = xs
trim (suc fuel) xs =
    let shorter = trim fuel (drop_last xs) in
    if ltb ratchet_retained_epochs (length xs) then shorter else xs

-- The retirement of the current epoch, as `step`, `activate` and `mix_quantum_entropy` do it.
unfoldable pub retire : SessionRatchet → List RatchetEpoch
unfolding trim
retire r =
    let all =
      record { epoch = r.epoch; to_resp = r.to_resp.msg_chain; to_init = r.to_init.msg_chain }
      ∷ r.retired in
    trim (length all) all

-- `retired.iter().find(|e| e.epoch == epoch)`
unfoldable pub find_retired : ℕ → List RatchetEpoch → Option RatchetEpoch
find_retired n [] = none
find_retired n (e ∷ es) = if e.epoch == n then some e else find_retired n es

unfoldable pub pending_epoch : Option PreparedEpoch → Option ℕ
pending_epoch none = none
pending_epoch (some q) = some q.epoch

-- `prepared_epoch`
unfoldable pub prepared_epoch : SessionRatchet → Option ℕ
unfolding pending_epoch
prepared_epoch r = pending_epoch r.pending

-- `openable_epochs`
unfoldable pub openable_epochs : SessionRatchet → List ℕ
openable_epochs r =
    r.epoch ∷ (elim r.pending [ none ↦ [] | some q ↦ q.epoch ∷ [] ] ++ map (λ e. e.epoch) r.retired)

-- `count_seal`
unfoldable pub count_seal : SessionRatchet → Bool × SessionRatchet
count_seal r =
    let n = next_u64 r.frames_in_epoch in (leb ratchet_interval n, record r { frames_in_epoch = n })

-- `epoch_capacity_left`
unfoldable pub epoch_capacity_left : SessionRatchet → ℕ
epoch_capacity_left r = ratchet_interval - r.frames_in_epoch

-- `activate`
unfoldable pub activate_with : Option PreparedEpoch → ℕ → SessionRatchet → Bool × SessionRatchet
unfolding retire
activate_with none epoch r = (false, r)
activate_with (some q) epoch r =
    if q.epoch == epoch
    then (
      true,
      record {
        root_key = q.root_key;
        to_resp = q.to_resp;
        to_init = q.to_init;
        epoch = q.epoch;
        steps = next_u64 r.steps;
        frames_in_epoch = 0;
        retired = retire r;
        pending = none;
      },
    )
    else (false, r)

unfoldable pub activate : ℕ → SessionRatchet → Bool × SessionRatchet
unfolding activate_with
activate epoch r = activate_with r.pending epoch r

-- The chain that holds an epoch's keys in a direction: the prepared epoch's, the current one's,
-- or a retired one's, in the order in which `plan_open` looks.
unfoldable pub chain_in_retired : Option RatchetEpoch → NonceDirection → Option MsgChain
chain_in_retired none d = none
chain_in_retired (some e) d = some (pick d e.to_resp e.to_init)

unfoldable pub chain_for :
    Option PreparedEpoch → ℕ → NonceDirection → SessionRatchet → Option MsgChain
unfolding chain_in_retired find_retired
chain_for none epoch d r =
    if epoch == r.epoch
    then some (pick d r.to_resp.msg_chain r.to_init.msg_chain)
    else chain_in_retired (find_retired epoch r.retired) d
chain_for (some q) epoch d r =
    if q.epoch == epoch
    then some (pick d q.to_resp.msg_chain q.to_init.msg_chain)
    else if epoch == r.epoch
    then some (pick d r.to_resp.msg_chain r.to_init.msg_chain)
    else chain_in_retired (find_retired epoch r.retired) d

module _ (p : Primitives) where
  -- `ChainState::seed`
  unfoldable pub seed_chain : Bytes → ℕ → ChainState
  seed_chain chain_key epoch =
      let chain = (kdf_ck p chain_key).0 in
      record { chain = chain; msg_chain = MsgChain.seed (derive_epoch_key p chain epoch) }

  -- `SessionRatchet::new`
  unfoldable pub new : Bytes → SessionRatchet
  unfolding seed_chain
  new master_key =
      let (to_resp, to_init) = seed_ratchet_chains p master_key in
      record {
        root_key = master_key;
        to_resp = seed_chain to_resp 0;
        to_init = seed_chain to_init 0;
        epoch = 0;
        steps = 0;
        frames_in_epoch = 0;
        retired = [];
        pending = none;
      }

  -- `advance_seal`: the counter and key of the next message in a direction.
  unfoldable pub advance_seal : NonceDirection → SessionRatchet → (ℕ × Bytes) × SessionRatchet
  advance_seal initiator_to_responder r =
      let (key, c) = MsgChain.advance p r.to_resp.msg_chain in
      ((r.to_resp.msg_chain.pos, key), record r { to_resp = record (r.to_resp) { msg_chain = c } })
  advance_seal responder_to_initiator r =
      let (key, c) = MsgChain.advance p r.to_init.msg_chain in
      ((r.to_init.msg_chain.pos, key), record r { to_init = record (r.to_init) { msg_chain = c } })

  unfoldable pub plan_in : Option MsgChain → ℕ → OpenPlan
  plan_in none counter = refused
  plan_in (some c) counter = MsgChain.plan p c counter

  -- `plan_open`
  unfoldable pub plan_open : ℕ → NonceDirection → ℕ → SessionRatchet → OpenPlan
  unfolding chain_for plan_in
  plan_open epoch d counter r = plan_in (chain_for r.pending epoch d r) counter
