-- ===== src/Session/Ratchet/Open.antt =====
-- Opening frames in a `SessionRatchet` (src/ghost/session/ratchet.rs): `open_key`, `commit_open` and
-- `gap_exceeds_max_skip`.
use vantablack.Prelude.{
  ℕ, ◌-◌, ◌≡◌, refl, Bool, true, false, ◌&&◌, Option, none, some, List, [], ◌∷◌, arith, ltb, ◌==◌,
  if◌then◌else◌, ◌∙◌, mem, is_some, map,
}
use mathlib.Core.Option
use vantablack.Prelude.Bytes.{Bytes}
use vantablack.Session.Kdf.{Primitives}
use vantablack.Session.MsgChain
use vantablack.Session.MsgChain.{MsgChain, OpenPlan, refused, max_skip}
use vantablack.Session.MsgChain.Once.{plan_key}
use vantablack.Session.Ratchet.{
  SessionRatchet, RatchetEpoch, PreparedEpoch, ChainState, NonceDirection, initiator_to_responder,
  responder_to_initiator, pick, plan_open, plan_in, chain_for, find_retired, openable_epochs,
}

abbrev pub same_direction : NonceDirection → NonceDirection → Bool
same_direction initiator_to_responder initiator_to_responder = true
same_direction responder_to_initiator responder_to_initiator = true
same_direction _ _ = false

abbrev commit_state : OpenPlan → ChainState → ChainState
commit_state o s = record s { msg_chain = MsgChain.commit o s.msg_chain }

abbrev commit_prepared : NonceDirection → OpenPlan → PreparedEpoch → PreparedEpoch
commit_prepared initiator_to_responder o q = record q { to_resp = commit_state o q.to_resp }
commit_prepared responder_to_initiator o q = record q { to_init = commit_state o q.to_init }

abbrev commit_epoch : NonceDirection → OpenPlan → RatchetEpoch → RatchetEpoch
commit_epoch initiator_to_responder o e = record e { to_resp = MsgChain.commit o e.to_resp }
commit_epoch responder_to_initiator o e = record e { to_init = MsgChain.commit o e.to_init }

abbrev commit_live : NonceDirection → OpenPlan → SessionRatchet → SessionRatchet
commit_live initiator_to_responder o r = record r { to_resp = commit_state o r.to_resp }
commit_live responder_to_initiator o r = record r { to_init = commit_state o r.to_init }

-- `iter_mut().find(|e| e.epoch == epoch)`: the first retired entry of that epoch commits.
unfoldable pub commit_retired :
    ℕ → NonceDirection → OpenPlan → List RatchetEpoch → List RatchetEpoch
commit_retired n d o [] = []
commit_retired n d o (e ∷ es) =
    if e.epoch == n then commit_epoch d o e ∷ es else e ∷ commit_retired n d o es

abbrev commit_settled : ℕ → NonceDirection → OpenPlan → SessionRatchet → SessionRatchet
commit_settled epoch d o r =
    if epoch == r.epoch
    then commit_live d o r
    else record r { retired = commit_retired epoch d o r.retired }

-- `commit_open`
unfoldable pub commit_open_in :
    Option PreparedEpoch → ℕ → NonceDirection → OpenPlan → SessionRatchet → SessionRatchet
unfolding commit_retired
commit_open_in none epoch d o r = commit_settled epoch d o r
commit_open_in (some q) epoch d o r =
    if q.epoch == epoch
    then record r { pending = some (commit_prepared d o q) }
    else commit_settled epoch d o r

unfoldable pub commit_open : ℕ → NonceDirection → OpenPlan → SessionRatchet → SessionRatchet
unfolding commit_open_in
commit_open epoch d o r = commit_open_in r.pending epoch d o r

-- `gap_exceeds_max_skip` compares with the position of the prepared or the current epoch's chain,
-- and is false for any other epoch.
unfoldable pub gap_position : Option PreparedEpoch → ℕ → NonceDirection → SessionRatchet → Option ℕ
gap_position none epoch d r =
    if epoch == r.epoch then some (pick d r.to_resp.msg_chain.pos r.to_init.msg_chain.pos) else none
gap_position (some q) epoch d r =
    if q.epoch == epoch
    then some (pick d q.to_resp.msg_chain.pos q.to_init.msg_chain.pos)
    else if epoch == r.epoch
    then some (pick d r.to_resp.msg_chain.pos r.to_init.msg_chain.pos)
    else none

unfoldable pub gap_exceeds : Option ℕ → ℕ → Bool
gap_exceeds none counter = false
gap_exceeds (some pos) counter = ltb pos counter && ltb max_skip (counter - pos)

unfoldable pub gap_exceeds_max_skip : ℕ → NonceDirection → ℕ → SessionRatchet → Bool
unfolding gap_position gap_exceeds
gap_exceeds_max_skip epoch d counter r = gap_exceeds (gap_position r.pending epoch d r) counter

-- `open_key`
unfoldable pub open_key : Primitives → ℕ → NonceDirection → ℕ → SessionRatchet → Option Bytes
open_key p epoch d counter r = plan_key (plan_open p epoch d counter r)

find-commit_retired :
    (n m : ℕ) (d : NonceDirection) (o : OpenPlan) (es : List RatchetEpoch)
    → find_retired m (commit_retired n d o es)
      ≡ (if n == m then Option.map (commit_epoch d o) (find_retired m es) else find_retired m es)
unfolding find_retired commit_retired
find-commit_retired n m d o [] = ground arith
find-commit_retired n m initiator_to_responder o (e ∷ es) =
    ground (arith, find-commit_retired n m initiator_to_responder o es)
find-commit_retired n m responder_to_initiator o (e ∷ es) =
    ground (arith, find-commit_retired n m responder_to_initiator o es)

-- Committing a plan for an epoch and a direction changes the chain that frames of that epoch and
-- direction are opened with, by the chain's own commit, and no chain of another epoch or
-- direction.
pub commit_open-chain_for :
    (epoch m : ℕ) (d b : NonceDirection) (o : OpenPlan) (r : SessionRatchet)
    → let r' = commit_open epoch d o r in
      chain_for r'.pending m b r' ≡ (
        if epoch == m && same_direction d b
        then Option.map (MsgChain.commit o) (chain_for r.pending m b r)
        else chain_for r.pending m b r)
unfolding commit_open chain_for
commit_open-chain_for epoch m initiator_to_responder initiator_to_responder o r =
    ground (arith, find-commit_retired epoch m initiator_to_responder o r.retired)
commit_open-chain_for epoch m d b o r = ground (arith, find-commit_retired epoch m d o r.retired)

find_retired-mem :
    (epoch : ℕ) (es : List RatchetEpoch)
    → is_some (find_retired epoch es) ≡ mem epoch (map (λ e. e.epoch) es)
unfolding find_retired
find_retired-mem epoch [] = refl
find_retired-mem epoch (e ∷ es) = ground (arith, find_retired-mem epoch es)

plan_in-refused :
    (p : Primitives) (counter : ℕ) (c : Option MsgChain)
    → is_some c ≡ false
    → plan_in p c counter ≡ refused
unfolding plan_in
plan_in-refused p counter none h = refl
plan_in-refused p counter (some c) h = cc

-- There is a chain to open frames of an epoch with, in either direction, exactly if
-- `openable_epochs` lists the epoch.
pub chain_for-openable_epochs :
    (epoch : ℕ) (d : NonceDirection) (r : SessionRatchet)
    → is_some (chain_for r.pending epoch d r) ≡ mem epoch (openable_epochs r)
unfolding chain_for openable_epochs
chain_for-openable_epochs epoch d r = ground (arith, find_retired-mem epoch r.retired)

-- A frame that names an epoch which `openable_epochs` does not list is refused.
pub plan_open-openable_epochs :
    (p : Primitives) (epoch counter : ℕ) (d : NonceDirection) (r : SessionRatchet)
    → mem epoch (openable_epochs r) ≡ false
    → plan_open p epoch d counter r ≡ refused
unfolding plan_open
plan_open-openable_epochs p epoch counter d r gone =
    plan_in-refused p counter _ (chain_for-openable_epochs epoch d r ∙ gone)
