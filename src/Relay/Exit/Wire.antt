-- ===== src/Relay/Exit/Wire.antt =====
-- Writing an exit capability of src/ghost/net/relay.rs and reading it back.
use vantablack.Prelude.{
  ℕ, ◌+◌, ◌%◌, ◌^◌, ◌≤◌, ◌<◌, ◌≡◌, refl, sym, ap, ◌∙◌, true, false, Option, some, [], ◌∷◌, ◌++◌,
  arith, leb, ltb, ◌==◌, length, length-append, get_or, get_or-drop, take, drop, take_all,
}
use vantablack.Prelude.Bytes.{
  Bytes, to_be_bytes, from_be_bytes, length-to_be_bytes, from_be_bytes-to_be_bytes, slice,
  slice_piece, drop_piece,
}
use vantablack.Prelude.Utf8.{is_utf8, from_utf8_text}
use vantablack.Relay.Exit.{
  ExitCapability, magic, version, grant_bytes, encode, decode, decode_scope, decode_keys,
}
use vantablack.Relay.Exit.Capability.{IsGrant}

-- The types of the fields.
pub record IsCapability (c : ExitCapability) : Type 0 where
  pub grant : IsGrant c.subject c.scope
  pub subject_text : is_utf8 c.subject ≡ true
  pub scope_text : is_utf8 c.scope ≡ true
  pub expires_fits : c.expires_at < 2 ^ 64
  pub key_full : length c.issuer_pk ≡ 32
  pub signature_full : length c.signature ≡ 64

-- From the issuer's key on.
decode_keys-row :
    (raw pk sig : Bytes) (at x : ℕ) (subject scope : Bytes)
    → drop at raw ≡ pk ++ sig
    → length pk ≡ 32
    → length sig ≡ 64
    → length raw ≡ at + 96
    → decode_keys at raw x subject scope
      ≡ some (record {
        issuer_pk = pk;
        subject = subject;
        scope = scope;
        expires_at = x;
        signature = sig;
      })
decode_keys-row raw pk sig at x subject scope d p s l =
    let one : ltb (length raw) (at + 32) ≡ false = ground arith in
    let two : ltb (length raw) (at + 32 + 64) ≡ false = ground arith in
    let three : (at + 32 + 64 == length raw) ≡ true = ground arith in
    let k : slice at 32 raw ≡ pk = slice_piece at 32 raw pk sig d (sym p) in
    let g : slice (at + 32) 64 raw ≡ sig =
      ap (take 64) (drop_piece at 32 raw pk sig d (sym p)) ∙ take_all 64 sig (omega arith) in
    rw (one, two, three, k, g) refl

-- From the scope's length on.
decode_scope-row :
    (raw scope pk sig : Bytes) (at x : ℕ) (subject : Bytes)
    → drop at raw ≡ to_be_bytes 2 (length scope % 2 ^ 16) ++ (scope ++ (pk ++ sig))
    → 1 ≤ length scope
    → length scope ≤ 192
    → is_utf8 scope ≡ true
    → length pk ≡ 32
    → length sig ≡ 64
    → length raw ≡ at + 2 + length scope + 96
    → decode_scope at raw x subject
      ≡ some (record {
        issuer_pk = pk;
        subject = subject;
        scope = scope;
        expires_at = x;
        signature = sig;
      })
unfolding decode_scope
decode_scope-row raw scope pk sig at x subject d one few u p s l =
    let w = length-to_be_bytes 2 (length scope % 2 ^ 16) in
    let n : from_be_bytes (slice at 2 raw) ≡ length scope =
      ap from_be_bytes (slice_piece at 2 raw (to_be_bytes 2 (length scope % 2 ^ 16)) _ d (sym w))
      ∙ from_be_bytes-to_be_bytes 2 (length scope % 2 ^ 16) (omega arith)
      ∙ omega arith in
    let d₂ = drop_piece at 2 raw (to_be_bytes 2 (length scope % 2 ^ 16)) _ d (sym w) in
    let t : slice (at + 2) (length scope) raw ≡ scope =
      slice_piece (at + 2) (length scope) raw scope (pk ++ sig) d₂ refl in
    let d₃ = drop_piece (at + 2) (length scope) raw scope (pk ++ sig) d₂ refl in
    let a : ltb (length raw) (at + 2) ≡ false = ground arith in
    let b : (length scope == 0) ≡ false = ground arith in
    let c : ltb 192 (length scope) ≡ false = ground arith in
    let e : ltb (length raw) (at + 2 + length scope) ≡ false = ground arith in
    rw (n, a, b, c, e, t, from_utf8_text scope u)
      (decode_keys-row raw pk sig (at + 2 + length scope) x subject scope d₃ p s (omega arith))

-- The whole row, with the pieces that stand before the scope.
decode-row :
    (raw e subject rest : Bytes) (out : Option ExitCapability)
    → take 8 raw ≡ magic
    → drop 8 raw ≡ (version ∷ []) ++ (e ++ ((length subject % 2 ^ 8 ∷ []) ++ (subject ++ rest)))
    → length e ≡ 8
    → 1 ≤ length subject
    → length subject ≤ 64
    → is_utf8 subject ≡ true
    → 116 ≤ length raw
    → 18 + length subject ≤ length raw
    → decode_scope (18 + length subject) raw (from_be_bytes e) subject ≡ out
    → decode raw ≡ out
unfolding decode
decode-row raw e subject rest out m d le one few u long longer o =
    let ver : get_or raw 8 0 ≡ 1 = sym (get_or-drop 8 0 raw 0) ∙ ap (λ t. get_or t 0 0) d in
    let d₁ = drop_piece 8 1 raw (version ∷ []) _ d refl in
    let x : slice 9 8 raw ≡ e = slice_piece 9 8 raw e _ d₁ (sym le) in
    let d₂ = drop_piece 9 8 raw e _ d₁ (sym le) in
    let n : get_or raw 17 0 ≡ length subject =
      sym (get_or-drop 17 0 raw 0) ∙ ap (λ t. get_or t 0 0) d₂ ∙ omega arith in
    let d₃ = drop_piece 17 1 raw (length subject % 2 ^ 8 ∷ []) _ d₂ refl in
    let t : slice 18 (length subject) raw ≡ subject =
      slice_piece 18 (length subject) raw subject rest d₃ refl in
    let a : ltb (length raw) 116 ≡ false = ground arith in
    let b : (length subject == 0) ≡ false = ground arith in
    let c : ltb 64 (length subject) ≡ false = ground arith in
    let f : ltb (length raw) (18 + length subject) ≡ false = ground arith in
    rw (a, m, ver, n, b, c, f, t, from_utf8_text subject u, x) o

-- A capability whose subject, of 1 to 64 bytes, and scope, of 1 to 192, are texts, with a 64-bit
-- expiry, a key of 32 bytes and a signature of 64, is encoded, and what it is encoded into is
-- decoded as it was.
pub decode-encode :
    (c : ExitCapability)
    → IsCapability c
    → (raw : Bytes) × (encode c ≡ some raw) × (decode raw ≡ some c)
unfolding encode
decode-encode c v =
    let tail =
      to_be_bytes 2 (length c.scope % 2 ^ 16) ++ (c.scope ++ (c.issuer_pk ++ c.signature)) in
    let raw =
      magic
      ++ ((version ∷ [])
          ++ grant_bytes c.subject c.scope c.expires_at (c.issuer_pk ++ c.signature)) in
    let a : leb (length c.subject) 64 ≡ true = ground (arith, v.grant.subject_fits) in
    let b : leb (length c.scope) 192 ≡ true = ground (arith, v.grant.scope_fits) in
    let l : length raw ≡ 18 + length c.subject + 2 + length c.scope + 96 = omega (
      arith,
      length-append c.subject tail,
      length-append c.scope (c.issuer_pk ++ c.signature),
      length-append c.issuer_pk c.signature,
      v.key_full,
      v.signature_full,
    ) in
    let scope =
      decode_scope-row raw c.scope c.issuer_pk c.signature (18 + length c.subject)
        (from_be_bytes (to_be_bytes 8 c.expires_at)) c.subject
        (drop_piece 18 (length c.subject) raw c.subject tail refl refl) v.grant.scope_some
        v.grant.scope_fits v.scope_text v.key_full v.signature_full l in
    let x = from_be_bytes-to_be_bytes 8 c.expires_at v.expires_fits in
    (
      raw,
      rw (a, b) refl,
      decode-row raw (to_be_bytes 8 c.expires_at) c.subject tail _ refl refl
            (length-to_be_bytes 8 c.expires_at) v.grant.subject_some v.grant.subject_fits
            v.subject_text (omega (arith, l, v.grant.subject_some, v.grant.scope_some))
            (omega (arith, l)) scope
          ∙ (λ j. some (record c { expires_at = x j })),
    )
