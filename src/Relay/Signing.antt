-- ===== src/Relay/Signing.antt =====
-- Ed25519 signatures as the relays use them: `GhostIdentity` and `verify_peer_signature` of
-- src/ghost/layers/l0_identity.rs. The keys' operations are the crate's (ed25519-dalek).
use vantablack.Prelude.{◌≡◌, ap, ◌∙◌, Bool, true, false, Option, none, some, length}
use vantablack.Prelude.Bytes.{Bytes}

-- The crate's operations, and what it documents of them: a public key is written in 32 bytes and
-- read back, a signature has 64, and a signature made with a key verifies under its public key.
pub record Ed25519 : Type 1 where
  pub SigningKey : Type 0
  pub VerifyingKey : Type 0
  pub verifying_key : SigningKey → VerifyingKey
  pub to_bytes : VerifyingKey → Bytes
  pub from_bytes : Bytes → Option VerifyingKey
  pub sign : SigningKey → Bytes → Bytes
  pub verify : VerifyingKey → Bytes → Bytes → Bool
  pub length-to_bytes : (k : VerifyingKey) → length (to_bytes k) ≡ 32
  pub length-sign : (k : SigningKey) (m : Bytes) → length (sign k m) ≡ 64
  pub from_bytes-to_bytes : (k : VerifyingKey) → from_bytes (to_bytes k) ≡ some k
  pub verify-sign : (k : SigningKey) (m : Bytes) → verify (verifying_key k) m (sign k m) ≡ true

module _ (e : Ed25519) where
  -- `public_key_bytes`
  unfoldable pub public_key_bytes : e.SigningKey → Bytes
  public_key_bytes k = e.to_bytes (e.verifying_key k)

  abbrev verify_on : Option e.VerifyingKey → Bytes → Bytes → Bool
  verify_on none data_ signature = false
  verify_on (some peer_pk) data_ signature = e.verify peer_pk data_ signature

  -- `verify_peer_signature`
  unfoldable pub verify_peer_signature : Bytes → Bytes → Bytes → Bool
  verify_peer_signature peer_pk_bytes data_ signature =
      verify_on (e.from_bytes peer_pk_bytes) data_ signature

  pub verify_peer_signature-sign :
      (k : e.SigningKey) (m : Bytes)
      → verify_peer_signature (public_key_bytes k) m (e.sign k m) ≡ true
  unfolding verify_peer_signature public_key_bytes
  verify_peer_signature-sign k m =
      ap (λ o. verify_on o m (e.sign k m)) (e.from_bytes-to_bytes (e.verifying_key k))
      ∙ e.verify-sign k m
