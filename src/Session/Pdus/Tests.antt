-- ===== src/Session/Pdus/Tests.antt =====
-- Concrete control messages.
use vantablack.Prelude.{◌≡◌, ◌++◌, refl, some, replicate, arith}
use vantablack.Prelude.Bytes.{Bytes, codes, to_be_bytes, slice}
use vantablack.Prelude.Utf8.{is_utf8}
use vantablack.Session.Pdus.{
  build_qel_mix_pdu, build_qel_mix_response_pdu, parse_qel_mix_pdu, parse_qel_mix_response_pdu,
}
use vantablack.Session.Pdus.Wire.{parse_qel_mix_pdu-build_qel_mix_pdu}

abbrev sign : Bytes → Bytes
sign b = replicate 64 7

abbrev x : Bytes
x = replicate 32 1

abbrev k : Bytes
k = replicate 800 2

abbrev ct : Bytes
ct = replicate 768 3

parse_qel_mix_pdu-build_qel_mix_pdu_example :
    let e = to_be_bytes 8 3 in
    let n = to_be_bytes 2 5 in
    ((pdu : Bytes) × (build_qel_mix_pdu sign 3 (codes "key-7") x ≡ some pdu)
      × (slice 16 170 pdu ≡ e ++ (n ++ (codes "key-7" ++ (replicate 123 0 ++ x))))
      × (parse_qel_mix_pdu pdu
          ≡ some (record {
            epoch = 3;
            label = codes "key-7";
            confirm = x;
            signature = sign (e ++ (n ++ (codes "key-7" ++ x)));
          })))
    × (parse_qel_mix_response_pdu (build_qel_mix_response_pdu sign 3 x)
        ≡ some (record { epoch = 3; confirm = x; signature = sign (e ++ x) }))
parse_qel_mix_pdu-build_qel_mix_pdu_example =
    parse_qel_mix_pdu-build_qel_mix_pdu sign (λ b. refl) 3 (codes "key-7") x (omega arith)
      (omega arith) (omega arith) (unfold is_utf8 in refl) refl
