-- ===== src/Relay/Vouchers/Signed.antt =====
-- What the signatures of src/ghost/net/relay.rs bind.
use vantablack.Prelude.{ℕ, ◌-◌, ◌^◌, ◌<◌, ◌≡◌, refl, sym, ◌∙◌, ◌&&◌, arith, leb, length}
use vantablack.Prelude.Bytes.{
  Bytes, codes, to_be_bytes, length-to_be_bytes, to_be_bytes_inj, append_split, equal,
}
use vantablack.Relay.Signing.{Ed25519, verify_peer_signature-sign}
use vantablack.Relay.Vouchers.{
  transit_bytes, mint_transit, verify_transit, voucher_bytes, mint_voucher, verify_voucher,
}

same_width : (w m n : ℕ) → length (to_be_bytes w m) ≡ length (to_be_bytes w n)
same_width w m n = length-to_be_bytes w m ∙ sym (length-to_be_bytes w n)

-- A proof of transit that a relay mints verifies exactly for a payload with the same hash, for the same next hop, and until it is older than the age allowed.
pub verify_transit-mint_transit :
    (sha256 : Bytes → Bytes) (e : Ed25519) (relay : e.SigningKey)
    (payload payload' next_hop next_hop' : Bytes) (minted max_age now : ℕ)
    → verify_transit sha256 e payload' next_hop' max_age now
        (mint_transit sha256 e relay payload next_hop minted)
      ≡ (equal (sha256 payload) (sha256 payload')
          && equal next_hop next_hop'
          && leb (now - minted) max_age)
unfolding verify_transit mint_transit
verify_transit-mint_transit sha256 e relay payload payload' next_hop next_hop' minted max_age now =
    rw (verify_peer_signature-sign e relay (transit_bytes (sha256 payload) next_hop minted))
      (ground arith)

-- Proofs of transit for hashes of equal length and 64-bit times that are signed by the same bytes are for the same hash, hop and time.
pub transit_bytes_inj :
    (h h' hop hop' : Bytes) (t t' : ℕ)
    → length h ≡ length h'
    → t < 2 ^ 64
    → t' < 2 ^ 64
    → transit_bytes h hop t ≡ transit_bytes h' hop' t'
    → (h ≡ h') × (hop ≡ hop') × (t ≡ t')
unfolding transit_bytes
transit_bytes_inj h h' hop hop' t t' l f f' e =
    let a = append_split (codes "GGN_TRANSIT_PROOF_V1") (codes "GGN_TRANSIT_PROOF_V1") _ _ refl e in
    let b = append_split h h' _ _ l a.1 in
    let c = append_split (to_be_bytes 8 t) (to_be_bytes 8 t') hop hop' (same_width 8 t t') b.1 in
    (b.0, c.1, to_be_bytes_inj 8 t t' (omega arith) (omega arith) c.0)

-- A forwarding voucher that a client mints verifies exactly until it expires and for no more bytes than it allows.
pub verify_voucher-mint_voucher :
    (e : Ed25519) (client : e.SigningKey) (max_bytes expires_at voucher_id now requested : ℕ)
    → verify_voucher e now requested (mint_voucher e client max_bytes expires_at voucher_id)
      ≡ (leb now expires_at && leb requested max_bytes)
unfolding verify_voucher mint_voucher
verify_voucher-mint_voucher e client max_bytes expires_at voucher_id now requested =
    rw (verify_peer_signature-sign e client (voucher_bytes max_bytes expires_at voucher_id))
      (ground arith)

-- Vouchers with 64-bit fields that are signed by the same bytes have the same limit, expiry and identifier.
pub voucher_bytes_inj :
    (m m' x x' i i' : ℕ)
    → m < 2 ^ 64
    → m' < 2 ^ 64
    → x < 2 ^ 64
    → x' < 2 ^ 64
    → i < 2 ^ 64
    → i' < 2 ^ 64
    → voucher_bytes m x i ≡ voucher_bytes m' x' i'
    → (m ≡ m') × (x ≡ x') × (i ≡ i')
unfolding voucher_bytes
voucher_bytes_inj m m' x x' i i' hm hm' hx hx' hi hi' e =
    let a = append_split (codes "GGN_CAP_VOUCHER_V1") (codes "GGN_CAP_VOUCHER_V1") _ _ refl e in
    let b = append_split (to_be_bytes 8 m) (to_be_bytes 8 m') _ _ (same_width 8 m m') a.1 in
    let c =
      append_split (to_be_bytes 8 x) (to_be_bytes 8 x') (to_be_bytes 8 i) (to_be_bytes 8 i')
        (same_width 8 x x') b.1 in
    (
      to_be_bytes_inj 8 m m' (omega arith) (omega arith) b.0,
      to_be_bytes_inj 8 x x' (omega arith) (omega arith) c.0,
      to_be_bytes_inj 8 i i' (omega arith) (omega arith) c.1,
    )
