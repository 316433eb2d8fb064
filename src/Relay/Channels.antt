-- ===== src/Relay/Channels.antt =====
-- Blind capability tokens and the table of channels of src/ghost/net/relay.rs. SHA-256 is a crate's and
-- stands as a parameter; a 32-byte array is the number that its bytes write, and so is an endpoint.
pub mod Quota
mod Tests
use vantablack.Prelude.{
  ℕ, ◌+◌, ◌-◌, ◌^◌, min, Bool, true, false, not, ◌||◌, Option, none, some, [], ◌++◌, ltb, ◌==◌,
  if◌then◌else◌,
}
use vantablack.Prelude.Bytes.{Bytes, codes, to_be_bytes}
use vantablack.Prelude.Assoc.{Map, lookup, insert}

pub record BlindCapabilityToken : Type 0 where
  pub token_id : ℕ
  pub max_bytes : ℕ
  pub expires_at : ℕ
  pub auth_tag : ℕ

pub record IdentityAgnosticChannel : Type 0 where
  pub egress_endpoint : ℕ
  pub max_bytes : ℕ
  pub forwarded_bytes : ℕ
  pub expires_at : ℕ

pub record IdentityAgnosticRelayTable : Type 0 where
  pub channels : Map IdentityAgnosticChannel

-- `IdentityAgnosticRelayTable::new`
unfoldable pub new : IdentityAgnosticRelayTable
new = record { channels = [] }

pub data Forwarded : Type 0 where
  to : (endpoint : ℕ) → Forwarded
  not_found expired quota_exceeded : Forwarded

-- `forward`
unfoldable pub forward_on :
    Option IdentityAgnosticChannel
    → ℕ
    → ℕ
    → ℕ
    → IdentityAgnosticRelayTable
    → Forwarded × IdentityAgnosticRelayTable
forward_on none token_id packet_len now t = (not_found, t)
forward_on (some chan) token_id packet_len now t =
    let next_total = min (chan.forwarded_bytes + packet_len) (2 ^ 64 - 1) in
    if ltb chan.expires_at now
    then (expired, t)
    else if ltb chan.max_bytes next_total
    then (quota_exceeded, t)
    else (
      to chan.egress_endpoint,
      record {
        channels = insert token_id (record chan { forwarded_bytes = next_total }) t.channels;
      },
    )

unfoldable pub forward :
    ℕ → ℕ → ℕ → IdentityAgnosticRelayTable → Forwarded × IdentityAgnosticRelayTable
unfolding forward_on
forward token_id packet_len now t =
    forward_on (lookup token_id t.channels) token_id packet_len now t

module _ (sha256 : Bytes → ℕ) where
  -- `compute_token_id`
  unfoldable pub compute_token_id : Bytes → Bytes → ℕ
  compute_token_id seed flow_salt = sha256 (codes "GGN_BLIND_TOKEN_ID_V1" ++ (seed ++ flow_salt))

  -- `compute_auth_tag`
  unfoldable pub compute_auth_tag : Bytes → ℕ → ℕ → ℕ → ℕ
  compute_auth_tag auth_key token_id max_bytes expires_at = sha256 (
      codes "GGN_BLIND_CAP_AUTH_V1"
      ++ (auth_key
          ++ (to_be_bytes 32 token_id ++ (to_be_bytes 8 max_bytes ++ to_be_bytes 8 expires_at))))

  -- `mint`
  unfoldable pub mint : Bytes → Bytes → Bytes → ℕ → ℕ → BlindCapabilityToken
  unfolding compute_token_id compute_auth_tag
  mint auth_key seed flow_salt max_bytes expires_at =
      let token_id = compute_token_id seed flow_salt in
      record {
        token_id = token_id;
        max_bytes = max_bytes;
        expires_at = expires_at;
        auth_tag = compute_auth_tag auth_key token_id max_bytes expires_at;
      }

  -- `verify`
  unfoldable pub verify : Bytes → ℕ → ℕ → BlindCapabilityToken → Bool
  unfolding compute_auth_tag
  verify auth_key now requested_bytes token =
      if ltb token.expires_at now || ltb token.max_bytes requested_bytes
      then false
      else token.auth_tag
        == compute_auth_tag auth_key token.token_id token.max_bytes token.expires_at

  -- `register_channel`: `false` stands for the error.
  unfoldable pub register_channel :
      BlindCapabilityToken
      → Bytes
      → ℕ
      → ℕ
      → IdentityAgnosticRelayTable
      → Bool × IdentityAgnosticRelayTable
  unfolding verify
  register_channel token auth_key egress_endpoint now t =
      if not (verify auth_key now 0 token) then (false, t) else (
        true,
        record {
          channels =
              insert token.token_id
                (record {
                  egress_endpoint = egress_endpoint;
                  max_bytes = token.max_bytes;
                  forwarded_bytes = 0;
                  expires_at = token.expires_at;
                })
                t.channels;
        },
      )
