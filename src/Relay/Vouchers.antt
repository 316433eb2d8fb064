-- ===== src/Relay/Vouchers.antt =====
-- The vouchers of src/ghost/net/relay.rs: proofs of transit, forwarding capabilities, and anonymous
-- threshold vouchers with the ledger that they are spent at. SHA-256 is a crate's and stands as a
-- parameter; the clock's reading is an argument.
pub mod Signed
pub mod Spent
mod Tests
use vantablack.Prelude.{
  ℕ, ◌+◌, ◌-◌, ◌^◌, min, Bool, true, false, not, ◌||◌, Option, none, some, [], ◌++◌, ltb,
  if◌then◌else◌,
}
use vantablack.Prelude.Bytes.{Bytes, codes, to_be_bytes, equal}
use vantablack.Prelude.Assoc.{Map, lookup, insert, or_insert}
use vantablack.Relay.Signing.{Ed25519, public_key_bytes, verify_peer_signature}

pub record ProofOfTransit : Type 0 where
  pub relay_pk : Bytes
  pub payload_hash : Bytes
  pub next_hop : Bytes
  pub timestamp : ℕ
  pub signature : Bytes

-- `ProofOfTransit::signing_bytes`
unfoldable pub transit_bytes : Bytes → Bytes → ℕ → Bytes
transit_bytes payload_hash next_hop timestamp =
    codes "GGN_TRANSIT_PROOF_V1" ++ (payload_hash ++ (to_be_bytes 8 timestamp ++ next_hop))

module _ (sha256 : Bytes → Bytes) (e : Ed25519) where
  -- `ProofOfTransit::mint`
  unfoldable pub mint_transit : e.SigningKey → Bytes → Bytes → ℕ → ProofOfTransit
  unfolding transit_bytes public_key_bytes verify_peer_signature
  mint_transit relay payload next_hop now =
      let payload_hash = sha256 payload in
      record {
        relay_pk = public_key_bytes e relay;
        payload_hash = payload_hash;
        next_hop = next_hop;
        timestamp = now;
        signature = e.sign relay (transit_bytes payload_hash next_hop now);
      }

  -- `ProofOfTransit::verify`
  unfoldable pub verify_transit : Bytes → Bytes → ℕ → ℕ → ProofOfTransit → Bool
  unfolding transit_bytes public_key_bytes verify_peer_signature
  verify_transit expected_payload expected_next_hop max_age_secs now p =
      if not (equal p.payload_hash (sha256 expected_payload))
        || not (equal p.next_hop expected_next_hop)
      then false
      else if ltb max_age_secs (now - p.timestamp)
      then false
      else verify_peer_signature e p.relay_pk (transit_bytes p.payload_hash p.next_hop p.timestamp)
          p.signature

pub record ForwardingCapabilityVoucher : Type 0 where
  pub client_pk : Bytes
  pub max_bytes : ℕ
  pub expires_at : ℕ
  pub voucher_id : ℕ
  pub signature : Bytes

-- `ForwardingCapabilityVoucher::signing_bytes`
unfoldable pub voucher_bytes : ℕ → ℕ → ℕ → Bytes
voucher_bytes max_bytes expires_at voucher_id =
    codes "GGN_CAP_VOUCHER_V1"
    ++ (to_be_bytes 8 max_bytes ++ (to_be_bytes 8 expires_at ++ to_be_bytes 8 voucher_id))

module _ (e : Ed25519) where
  -- `ForwardingCapabilityVoucher::mint`
  unfoldable pub mint_voucher : e.SigningKey → ℕ → ℕ → ℕ → ForwardingCapabilityVoucher
  unfolding voucher_bytes public_key_bytes verify_peer_signature
  mint_voucher client max_bytes expires_at voucher_id = record {
    client_pk = public_key_bytes e client;
    max_bytes = max_bytes;
    expires_at = expires_at;
    voucher_id = voucher_id;
    signature = e.sign client (voucher_bytes max_bytes expires_at voucher_id);
  }

  -- `ForwardingCapabilityVoucher::verify`
  unfoldable pub verify_voucher : ℕ → ℕ → ForwardingCapabilityVoucher → Bool
  unfolding voucher_bytes public_key_bytes verify_peer_signature
  verify_voucher now requested_bytes v =
      if ltb v.expires_at now || ltb v.max_bytes requested_bytes
      then false
      else verify_peer_signature e v.client_pk (voucher_bytes v.max_bytes v.expires_at v.voucher_id)
          v.signature

pub record AnonymousThresholdVoucher : Type 0 where
  pub group_id : Bytes
  pub voucher_id : ℕ
  pub max_bytes : ℕ
  pub expires_at : ℕ
  pub group_commitment : Bytes

-- `AnonymousCapabilityLedger`
pub record AnonymousCapabilityLedger : Type 0 where
  pub spent_table : Map ℕ

-- `AnonymousCapabilityLedger::new`
unfoldable pub new : AnonymousCapabilityLedger
new = record { spent_table = [] }

-- `Ok(remaining)`, or one of the two errors.
pub data Spending : Type 0 where
  remaining : (bytes : ℕ) → Spending
  invalid_or_expired quota_exceeded : Spending

abbrev pub consumed : Option ℕ → ℕ
consumed none = 0
consumed (some n) = n

module _ (sha256 : Bytes → Bytes) where
  -- What the commitment of an anonymous voucher hashes.
  unfoldable pub commitment : Bytes → Bytes → ℕ → ℕ → ℕ → Bytes
  commitment group_id secret voucher_id max_bytes expires_at = sha256 (
      codes "GGN_ANONYMOUS_THRESHOLD_VOUCHER_V1"
      ++ (group_id
          ++ (secret
              ++ (to_be_bytes 8 voucher_id
                  ++ (to_be_bytes 8 max_bytes ++ to_be_bytes 8 expires_at)))))

  -- `AnonymousThresholdVoucher::mint`
  unfoldable pub mint_anonymous : Bytes → Bytes → ℕ → ℕ → ℕ → AnonymousThresholdVoucher
  unfolding commitment
  mint_anonymous group_id secret voucher_id max_bytes expires_at = record {
    group_id = group_id;
    voucher_id = voucher_id;
    max_bytes = max_bytes;
    expires_at = expires_at;
    group_commitment = commitment group_id secret voucher_id max_bytes expires_at;
  }

  -- `AnonymousThresholdVoucher::verify`
  unfoldable pub verify_anonymous : Bytes → ℕ → AnonymousThresholdVoucher → Bool
  unfolding commitment
  verify_anonymous secret current_time v =
      if ltb v.expires_at current_time
      then false
      else equal (commitment v.group_id secret v.voucher_id v.max_bytes v.expires_at)
          v.group_commitment

  -- `try_spend`
  unfoldable pub try_spend :
      AnonymousThresholdVoucher
      → Bytes
      → ℕ
      → ℕ
      → AnonymousCapabilityLedger
      → Spending × AnonymousCapabilityLedger
  unfolding verify_anonymous
  try_spend voucher secret bytes now l =
      let new_total =
        min (consumed (lookup voucher.voucher_id l.spent_table) + bytes) (2 ^ 64 - 1) in
      if not (verify_anonymous secret now voucher)
      then (invalid_or_expired, l)
      else if ltb voucher.max_bytes new_total
      then (quota_exceeded, record { spent_table = or_insert voucher.voucher_id 0 l.spent_table })
      else (
        remaining (voucher.max_bytes - new_total),
        record { spent_table = insert voucher.voucher_id new_total l.spent_table },
      )
