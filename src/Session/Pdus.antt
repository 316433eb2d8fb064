-- ===== src/Session/Pdus.antt =====
-- The control messages of a session (src/ghost/session/mod.rs): the request and the answer of a ratchet
-- step, and those of a quantum mix. A text is its bytes; the signature is a parameter.
pub mod Wire
mod Tests
use vantablack.Prelude.{
  ℕ, ◌+◌, ◌-◌, ◌%◌, ◌^◌, Bool, true, false, not, ◌||◌, Option, none, some, [], ◌++◌, ltb, ◌==◌,
  if◌then◌else◌, length, take, replicate,
}
use vantablack.Prelude.Bytes.{Bytes, codes, to_be_bytes, from_be_bytes, equal, slice}
use vantablack.Prelude.Utf8.{from_utf8}

-- `REKEY_MAGIC`, `REKEY_RESPONSE_MAGIC`, `QEL_MIX_MAGIC` and `QEL_MIX_RESPONSE_MAGIC`
abbrev pub rekey_magic : Bytes
rekey_magic = codes "GHOST_REKEY____!"

abbrev pub rekey_response_magic : Bytes
rekey_response_magic = codes "GHOST_REKEY_RSP!"

abbrev pub qel_mix_magic : Bytes
qel_mix_magic = codes "GHOST_QEL_MIX___"

abbrev pub qel_mix_response_magic : Bytes
qel_mix_response_magic = codes "GHOST_QEL_MIX_OK"

-- `QEL_MIX_MAX_LABEL`, and the lengths of the messages.
abbrev pub qel_mix_max_label : ℕ
qel_mix_max_label = 128

abbrev pub rekey_blob_len : ℕ
rekey_blob_len = 912

abbrev pub qel_mix_blob_len : ℕ
qel_mix_blob_len = 250

abbrev pub qel_mix_response_blob_len : ℕ
qel_mix_response_blob_len = 120

pub record RekeyBlob : Type 0 where
  pub x25519_pub : Bytes
  pub kyber_pub : Bytes
  pub signature : Bytes

pub record RekeyResponseBlob : Type 0 where
  pub x25519_pub : Bytes
  pub kyber_ct : Bytes
  pub confirm : Bytes
  pub signature : Bytes

pub record QelMixBlob : Type 0 where
  pub epoch : ℕ
  pub label : Bytes
  pub confirm : Bytes
  pub signature : Bytes

pub record QelMixResponseBlob : Type 0 where
  pub epoch : ℕ
  pub confirm : Bytes
  pub signature : Bytes

-- `qel_mix_signed_material`
unfoldable pub qel_mix_signed_material : ℕ → Bytes → Bytes → Bytes
qel_mix_signed_material epoch label confirm =
    to_be_bytes 8 epoch ++ (to_be_bytes 2 (length label % 2 ^ 16) ++ (label ++ confirm))

-- `qel_mix_response_signed_material`
unfoldable pub qel_mix_response_signed_material : ℕ → Bytes → Bytes
qel_mix_response_signed_material epoch confirm = to_be_bytes 8 epoch ++ confirm

module _ (identity_sign : Bytes → Bytes) where
  -- `build_rekey_pdu`, of the keys' bytes.
  unfoldable pub build_rekey_pdu : Bytes → Bytes → Bytes
  build_rekey_pdu x_pub kyber_pub =
      rekey_magic ++ (x_pub ++ (kyber_pub ++ identity_sign (x_pub ++ kyber_pub)))

  -- `build_rekey_response_pdu`
  unfoldable pub build_rekey_response_pdu : Bytes → Bytes → Bytes → Bytes
  build_rekey_response_pdu x_pub kyber_ct confirm =
      rekey_response_magic
      ++ (x_pub ++ (kyber_ct ++ (confirm ++ identity_sign (x_pub ++ (kyber_ct ++ confirm)))))

  -- `build_qel_mix_pdu`; `none` stands for the panic.
  unfoldable pub build_qel_mix_pdu : ℕ → Bytes → Bytes → Option Bytes
  unfolding qel_mix_signed_material
  build_qel_mix_pdu epoch label confirm =
      if ltb qel_mix_max_label (length label)
      then none
      else some (
          qel_mix_magic
          ++ (to_be_bytes 8 epoch
              ++ (to_be_bytes 2 (length label % 2 ^ 16)
                  ++ (label
                      ++ (replicate (qel_mix_max_label - length label) 0
                          ++ (confirm
                              ++ identity_sign (qel_mix_signed_material epoch label confirm)))))))

  -- `build_qel_mix_response_pdu`
  unfoldable pub build_qel_mix_response_pdu : ℕ → Bytes → Bytes
  unfolding qel_mix_response_signed_material
  build_qel_mix_response_pdu epoch confirm =
      qel_mix_response_magic
      ++ (to_be_bytes 8 epoch
          ++ (confirm ++ identity_sign (qel_mix_response_signed_material epoch confirm)))

-- `parse_rekey_pdu`
unfoldable pub parse_rekey_pdu : Bytes → Option RekeyBlob
parse_rekey_pdu raw =
    if ltb (length raw) rekey_blob_len || not (equal (take 16 raw) rekey_magic)
    then none
    else some (record {
      x25519_pub = slice 16 32 raw;
      kyber_pub = slice 48 800 raw;
      signature = slice 848 64 raw;
    })

-- `parse_rekey_response_pdu`
unfoldable pub parse_rekey_response_pdu : Bytes → Option RekeyResponseBlob
parse_rekey_response_pdu raw =
    if ltb (length raw) rekey_blob_len || not (equal (take 16 raw) rekey_response_magic)
    then none
    else some (record {
      x25519_pub = slice 16 32 raw;
      kyber_ct = slice 48 768 raw;
      confirm = slice 816 32 raw;
      signature = slice 848 64 raw;
    })

abbrev pub parse_label : Option Bytes → Bytes → Option QelMixBlob
parse_label none raw = none
parse_label (some label) raw = some (record {
  epoch = from_be_bytes (slice 16 8 raw);
  label = label;
  confirm = slice 154 32 raw;
  signature = slice 186 64 raw;
})

-- `parse_qel_mix_pdu`
unfoldable pub parse_qel_mix_pdu : Bytes → Option QelMixBlob
parse_qel_mix_pdu raw =
    let label_len = from_be_bytes (slice 24 2 raw) in
    if ltb (length raw) qel_mix_blob_len || not (equal (take 16 raw) qel_mix_magic)
    then none
    else if label_len == 0 || ltb qel_mix_max_label label_len
    then none
    else parse_label (from_utf8 (slice 26 label_len raw)) raw

-- `parse_qel_mix_response_pdu`
unfoldable pub parse_qel_mix_response_pdu : Bytes → Option QelMixResponseBlob
parse_qel_mix_response_pdu raw =
    if ltb (length raw) qel_mix_response_blob_len
      || not (equal (take 16 raw) qel_mix_response_magic)
    then none
    else some (record {
      epoch = from_be_bytes (slice 16 8 raw);
      confirm = slice 24 32 raw;
      signature = slice 56 64 raw;
    })
