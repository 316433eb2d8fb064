-- ===== src/Session/Kdf.antt =====
-- The key schedule of the ratchet (src/ghost/layers/l1_kem.rs, the `kdf_*` functions). HMAC-SHA256
-- and HKDF-SHA256 are the crates the code calls, and stand as parameters.
use vantablack.Prelude.{ℕ, [], ◌∷◌, ◌++◌, take, drop}
use vantablack.Prelude.Bytes.{Bytes, codes, to_be_bytes}

-- `hmac key message`, and `hkdf salt ikm info length` for extract followed by expand.
pub record Primitives : Type 0 where
  pub hmac : Bytes → Bytes → Bytes
  pub hkdf : Bytes → Bytes → Bytes → ℕ → Bytes

abbrev ratchet_root_info : Bytes
ratchet_root_info = codes "GHOST_NET_RATCHET_ROOT_v2"

abbrev ratchet_init_info : Bytes
ratchet_init_info = codes "GHOST_NET_RATCHET_INIT_v2"

abbrev ratchet_epoch_info : Bytes
ratchet_epoch_info = codes "GHOST_NET_EPOCH_KEY_v2"

abbrev ratchet_quantum_mix_info : Bytes
ratchet_quantum_mix_info = codes "GHOST_NET_RATCHET_QEL_ENTROPY_v1"

-- The new root key and the two chain keys.
pub record RootKeys : Type 0 where
  pub root : Bytes
  pub to_resp : Bytes
  pub to_init : Bytes

-- The three 32-byte parts of a 96-byte output.
abbrev split96 : Bytes → RootKeys
split96 out = record {
  root = take 32 out;
  to_resp = take 32 (drop 32 out);
  to_init = take 32 (drop 64 out);
}

module _ (p : Primitives) where
  open p use {hmac, hkdf}

  -- `kdf_rk_hybrid`
  unfoldable pub kdf_rk_hybrid : Bytes → Bytes → Bytes → RootKeys
  kdf_rk_hybrid root_key x25519_shared kem_shared =
      split96 (hkdf root_key (x25519_shared ++ kem_shared) ratchet_root_info 96)

  -- `kdf_rk_quantum_mix`
  unfoldable pub kdf_rk_quantum_mix : Bytes → Bytes → RootKeys
  kdf_rk_quantum_mix root_key quantum_key =
      split96 (hkdf root_key quantum_key ratchet_quantum_mix_info 96)

  -- `seed_ratchet_chains`: the chain towards the responder, then that towards the initiator.
  unfoldable pub seed_ratchet_chains : Bytes → Bytes × Bytes
  seed_ratchet_chains master_key =
      let out = hkdf master_key [] ratchet_init_info 64 in (take 32 out, drop 32 out)

  -- `kdf_ck`: the next chain key and the step key.
  unfoldable pub kdf_ck : Bytes → Bytes × Bytes
  kdf_ck chain_key = (hmac chain_key (1 ∷ []), hmac chain_key (2 ∷ []))

  -- `derive_epoch_key`
  unfoldable pub derive_epoch_key : Bytes → ℕ → Bytes
  derive_epoch_key chain_key epoch = hkdf chain_key (to_be_bytes 8 epoch) ratchet_epoch_info 32
