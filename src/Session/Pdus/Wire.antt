-- ===== src/Session/Pdus/Wire.antt =====
-- Reading the control messages of src/ghost/session/mod.rs back.
use vantablack.Prelude.{
  ℕ, ◌+◌, ◌-◌, ◌%◌, ◌^◌, ◌≤◌, ◌<◌, ◌≡◌, refl, sym, ap, ◌∙◌, true, false, some, ◌++◌, append_assoc,
  arith, ltb, ◌==◌, length, length-append, length-replicate, take, drop, take_all, replicate,
}
use vantablack.Prelude.Bytes.{
  Bytes, to_be_bytes, from_be_bytes, length-to_be_bytes, from_be_bytes-to_be_bytes, slice,
  slice_piece, drop_piece,
}
use vantablack.Prelude.Utf8.{is_utf8, from_utf8_text}
use vantablack.Session.Pdus.{
  rekey_magic, rekey_response_magic, qel_mix_magic, qel_mix_response_magic, build_rekey_pdu,
  build_rekey_response_pdu, build_qel_mix_pdu, build_qel_mix_response_pdu, parse_rekey_pdu,
  parse_rekey_response_pdu, parse_qel_mix_pdu, parse_qel_mix_response_pdu, qel_mix_signed_material,
  qel_mix_response_signed_material,
}

not_zero : (n : ℕ) → 1 ≤ n → (n == 0) ≡ false
not_zero n h = ground arith

not_above : (n m : ℕ) → n ≤ m → ltb m n ≡ false
not_above n m h = ground arith

-- A message of a step, whose pieces are abstract.
parse_rekey_pdu-row :
    (raw x k s : Bytes)
    → take 16 raw ≡ rekey_magic
    → drop 16 raw ≡ x ++ (k ++ s)
    → length x ≡ 32
    → length k ≡ 800
    → length s ≡ 64
    → length raw ≡ 912
    → parse_rekey_pdu raw ≡ some (record { x25519_pub = x; kyber_pub = k; signature = s })
unfolding parse_rekey_pdu
parse_rekey_pdu-row raw x k s m d lx lk ls l =
    let long : ltb (length raw) 912 ≡ false = ground arith in
    let p : slice 16 32 raw ≡ x = slice_piece 16 32 raw x (k ++ s) d (sym lx) in
    let d₂ : drop 48 raw ≡ k ++ s = drop_piece 16 32 raw x (k ++ s) d (sym lx) in
    let q : slice 48 800 raw ≡ k = slice_piece 48 800 raw k s d₂ (sym lk) in
    let d₃ : drop 848 raw ≡ s = drop_piece 48 800 raw k s d₂ (sym lk) in
    let r : slice 848 64 raw ≡ s = ap (take 64) d₃ ∙ take_all 64 s (omega arith) in
    rw (long, m, p, q, r) refl

parse_qel_mix_pdu-row :
    (raw e n label pad c s : Bytes)
    → take 16 raw ≡ qel_mix_magic
    → drop 16 raw ≡ e ++ (n ++ (label ++ (pad ++ (c ++ s))))
    → length e ≡ 8
    → length n ≡ 2
    → from_be_bytes n ≡ length label
    → 1 ≤ length label
    → length label + length pad ≡ 128
    → length c ≡ 32
    → length s ≡ 64
    → length raw ≡ 250
    → is_utf8 label ≡ true
    → parse_qel_mix_pdu raw
      ≡ some (record { epoch = from_be_bytes e; label = label; confirm = c; signature = s })
unfolding parse_qel_mix_pdu
parse_qel_mix_pdu-row raw e n label pad c s m d le ln v one lp lc ls l u =
    let long : ltb (length raw) 250 ≡ false = rw l refl in
    let some_label : (length label == 0) ≡ false = not_zero (length label) one in
    let fits : ltb 128 (length label) ≡ false = not_above (length label) 128 (omega arith) in
    let p₁ : slice 16 8 raw ≡ e = slice_piece 16 8 raw e _ d (sym le) in
    let d₂ : drop 24 raw ≡ n ++ (label ++ (pad ++ (c ++ s))) = drop_piece 16 8 raw e _ d (sym le) in
    let p₂ : slice 24 2 raw ≡ n = slice_piece 24 2 raw n _ d₂ (sym ln) in
    let d₃ : drop 26 raw ≡ label ++ (pad ++ (c ++ s)) = drop_piece 24 2 raw n _ d₂ (sym ln) in
    let p₃ : slice 26 (length label) raw ≡ label =
      slice_piece 26 (length label) raw label _ d₃ refl in
    let d₄ : drop 154 raw ≡ c ++ s =
      drop_piece 26 128 raw (label ++ pad) (c ++ s) (d₃ ∙ sym (append_assoc label pad (c ++ s)))
        (omega (arith, length-append label pad)) in
    let p₄ : slice 154 32 raw ≡ c = slice_piece 154 32 raw c s d₄ (sym lc) in
    let d₅ : drop 186 raw ≡ s = drop_piece 154 32 raw c s d₄ (sym lc) in
    let p₅ : slice 186 64 raw ≡ s = ap (take 64) d₅ ∙ take_all 64 s (omega arith) in
    rw (long, m, p₂, v, some_label, fits, p₃, from_utf8_text label u, p₁, p₄, p₅) refl

parse_rekey_response_pdu-row :
    (raw x k c s : Bytes)
    → take 16 raw ≡ rekey_response_magic
    → drop 16 raw ≡ x ++ (k ++ (c ++ s))
    → length x ≡ 32
    → length k ≡ 768
    → length c ≡ 32
    → length s ≡ 64
    → length raw ≡ 912
    → parse_rekey_response_pdu raw
      ≡ some (record { x25519_pub = x; kyber_ct = k; confirm = c; signature = s })
unfolding parse_rekey_response_pdu
parse_rekey_response_pdu-row raw x k c s m d lx lk lc ls l =
    let long : ltb (length raw) 912 ≡ false = rw l refl in
    let p : slice 16 32 raw ≡ x = slice_piece 16 32 raw x _ d (sym lx) in
    let d₂ : drop 48 raw ≡ k ++ (c ++ s) = drop_piece 16 32 raw x _ d (sym lx) in
    let q : slice 48 768 raw ≡ k = slice_piece 48 768 raw k _ d₂ (sym lk) in
    let d₃ : drop 816 raw ≡ c ++ s = drop_piece 48 768 raw k _ d₂ (sym lk) in
    let r : slice 816 32 raw ≡ c = slice_piece 816 32 raw c s d₃ (sym lc) in
    let d₄ : drop 848 raw ≡ s = drop_piece 816 32 raw c s d₃ (sym lc) in
    let t : slice 848 64 raw ≡ s = ap (take 64) d₄ ∙ take_all 64 s (omega arith) in
    rw (long, m, p, q, r, t) refl

parse_qel_mix_response_pdu-row :
    (raw e c s : Bytes)
    → take 16 raw ≡ qel_mix_response_magic
    → drop 16 raw ≡ e ++ (c ++ s)
    → length e ≡ 8
    → length c ≡ 32
    → length s ≡ 64
    → length raw ≡ 120
    → parse_qel_mix_response_pdu raw
      ≡ some (record { epoch = from_be_bytes e; confirm = c; signature = s })
unfolding parse_qel_mix_response_pdu
parse_qel_mix_response_pdu-row raw e c s m d le lc ls l =
    let long : ltb (length raw) 120 ≡ false = rw l refl in
    let p : slice 16 8 raw ≡ e = slice_piece 16 8 raw e (c ++ s) d (sym le) in
    let d₂ : drop 24 raw ≡ c ++ s = drop_piece 16 8 raw e (c ++ s) d (sym le) in
    let q : slice 24 32 raw ≡ c = slice_piece 24 32 raw c s d₂ (sym lc) in
    let d₃ : drop 56 raw ≡ s = drop_piece 24 32 raw c s d₂ (sym lc) in
    let r : slice 56 64 raw ≡ s = ap (take 64) d₃ ∙ take_all 64 s (omega arith) in
    rw (long, m, p, q, r) refl

module _ (sign : Bytes → Bytes) (signed : (b : Bytes) → length (sign b) ≡ 64) where
  -- Both messages of a ratchet step are read back as they were built, for keys, ciphertexts and confirmations of their sizes and signatures of 64 bytes.
  pub parse_rekey_pdu-build_rekey_pdu :
      (x k k' c : Bytes)
      → length x ≡ 32
      → length k ≡ 800
      → length k' ≡ 768
      → length c ≡ 32
      → (parse_rekey_pdu (build_rekey_pdu sign x k)
          ≡ some (record { x25519_pub = x; kyber_pub = k; signature = sign (x ++ k) }))
        × (parse_rekey_response_pdu (build_rekey_response_pdu sign x k' c)
            ≡ some (record {
              x25519_pub = x;
              kyber_ct = k';
              confirm = c;
              signature = sign (x ++ (k' ++ c));
            }))
  unfolding build_rekey_pdu build_rekey_response_pdu
  parse_rekey_pdu-build_rekey_pdu x k k' c lx lk lk' lc =
      let s = sign (x ++ k) in
      let t = sign (x ++ (k' ++ c)) in
      (
        parse_rekey_pdu-row (build_rekey_pdu sign x k) x k s refl refl lx lk (signed (x ++ k))
            (omega (arith, length-append x (k ++ s), length-append k s, signed (x ++ k))),
        parse_rekey_response_pdu-row (build_rekey_response_pdu sign x k' c) x k' c t refl refl lx
            lk' lc (signed (x ++ (k' ++ c)))
            (omega (
              arith,
              length-append x (k' ++ (c ++ t)),
              length-append k' (c ++ t),
              length-append c t,
              signed (x ++ (k' ++ c)),
            )),
      )

  -- A request for a quantum mix with a 64-bit epoch and a label, a text of 1 to 128 bytes, is
  -- built, and it and its answer are read back as they were built, for confirmations of 32 bytes
  -- and signatures of 64. Bytes 16 to 186 of the request are the epoch, the length of the label,
  -- the label with zeros up to 128 bytes, and the confirmation. The signature is over the same
  -- without those zeros.
  pub parse_qel_mix_pdu-build_qel_mix_pdu :
      (epoch : ℕ) (label c : Bytes)
      → epoch < 2 ^ 64
      → 1 ≤ length label
      → length label ≤ 128
      → is_utf8 label ≡ true
      → length c ≡ 32
      → let e = to_be_bytes 8 epoch in
        let n = to_be_bytes 2 (length label) in
        ((pdu : Bytes) × (build_qel_mix_pdu sign epoch label c ≡ some pdu)
          × (slice 16 170 pdu ≡ e ++ (n ++ (label ++ (replicate (128 - length label) 0 ++ c))))
          × (parse_qel_mix_pdu pdu
              ≡ some (record {
                epoch = epoch;
                label = label;
                confirm = c;
                signature = sign (e ++ (n ++ (label ++ c)));
              })))
        × (parse_qel_mix_response_pdu (build_qel_mix_response_pdu sign epoch c)
            ≡ some (record { epoch = epoch; confirm = c; signature = sign (e ++ c) }))
  unfolding build_qel_mix_pdu build_qel_mix_response_pdu qel_mix_signed_material
      qel_mix_response_signed_material
  parse_qel_mix_pdu-build_qel_mix_pdu epoch label c h one few u lc =
      let e = to_be_bytes 8 epoch in
      let n = to_be_bytes 2 (length label) in
      let cast : length label % 2 ^ 16 ≡ length label = omega arith in
      let pad : Bytes = replicate (128 - length label) 0 in
      let s = sign (e ++ (n ++ (label ++ c))) in
      let t = sign (e ++ c) in
      let pdu = qel_mix_magic ++ (e ++ (n ++ (label ++ (pad ++ (c ++ s))))) in
      let back = from_be_bytes-to_be_bytes 8 epoch (omega arith) in
      let lp : length pad ≡ 128 - length label = length-replicate {A = ℕ} (128 - length label) 0 in
      let ls = signed (e ++ (n ++ (label ++ c))) in
      let lt = signed (e ++ c) in
      let fits : ltb 128 (length label) ≡ false = not_above (length label) 128 few in
      let v : from_be_bytes n ≡ length label =
        from_be_bytes-to_be_bytes 2 (length label) (omega arith) in
      (
        (
          pdu,
          rw (fits, cast) refl,
          slice_piece 16 170 pdu (e ++ (n ++ (label ++ (pad ++ c)))) s (simp append_assoc refl) (
              omega (
                arith,
                lp,
                length-append e (n ++ (label ++ (pad ++ c))),
                length-append n (label ++ (pad ++ c)),
                length-append label (pad ++ c),
                length-append pad c,
                length-to_be_bytes 8 epoch,
                length-to_be_bytes 2 (length label),
              )),
          parse_qel_mix_pdu-row pdu e n label pad c s refl refl (length-to_be_bytes 8 epoch)
                (length-to_be_bytes 2 (length label)) v one (omega (arith, lp)) lc ls
                (omega (
                  arith,
                  lp,
                  ls,
                  length-append label (pad ++ (c ++ s)),
                  length-append pad (c ++ s),
                  length-append c s,
                ))
                u
              ∙ (λ j. some (record { epoch = back j; label = label; confirm = c; signature = s })),
        ),
        parse_qel_mix_response_pdu-row (build_qel_mix_response_pdu sign epoch c) e c t refl refl
              (length-to_be_bytes 8 epoch) lc lt (omega (arith, lt, length-append c t))
            ∙ (λ j. some (record { epoch = back j; confirm = c; signature = t })),
      )
