-- ===== src/Relay/Exit/Tests.antt =====
-- A concrete exit capability.
use vantablack.Prelude.{ℕ, ◌≡◌, refl, none, some, [], replicate, arith}
use vantablack.Prelude.Bytes.{Bytes, codes}
use vantablack.Prelude.Utf8.{is_utf8}
use vantablack.Relay.Exit.{ExitCapability, encode, decode}
use vantablack.Relay.Exit.Capability.{signing_bytes_inj}
use vantablack.Relay.Exit.Wire.{IsCapability, decode-encode}

abbrev capability : ExitCapability
capability = record {
  issuer_pk = replicate 32 1;
  subject = codes "alice";
  scope = codes "exit.example";
  expires_at = 1000;
  signature = replicate 64 2;
}

capability-IsCapability : IsCapability capability
capability-IsCapability = record {
  grant = record {
    subject_some = omega arith;
    subject_fits = omega arith;
    scope_some = omega arith;
    scope_fits = omega arith;
  };
  subject_text = unfold is_utf8 in refl;
  scope_text = unfold is_utf8 in refl;
  expires_fits = omega arith;
  key_full = refl;
  signature_full = refl;
}

decode-encode_example :
    (raw : Bytes) × (encode capability ≡ some raw) × (decode raw ≡ some capability)
decode-encode_example = decode-encode capability capability-IsCapability

abbrev alice_scope : Bytes
alice_scope = codes "exit"

abbrev expiry : ℕ
expiry = 1000

signing_bytes_inj_example :
    (codes "alice" ≡ codes "alice") × (alice_scope ≡ alice_scope) × (expiry ≡ expiry)
signing_bytes_inj_example =
    signing_bytes_inj (codes "alice") (codes "alice") alice_scope alice_scope expiry expiry
      (record {
        subject_some = omega arith;
        subject_fits = omega arith;
        scope_some = omega arith;
        scope_fits = omega arith;
      })
      (record {
        subject_some = omega arith;
        subject_fits = omega arith;
        scope_some = omega arith;
        scope_fits = omega arith;
      })
      (omega arith) (omega arith) refl

-- An empty subject is encoded, and what is encoded is not decoded.
empty_subject :
    (raw : Bytes) × (encode (record capability { subject = [] }) ≡ some raw) × (decode raw ≡ none)
unfolding encode decode
empty_subject = (_, refl, refl)
