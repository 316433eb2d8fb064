-- ===== src/Relay/Exit/Capability.antt =====
-- What an exit capability of src/ghost/net/relay.rs grants.
use vantablack.Prelude.{
  ℕ, ◌%◌, ◌^◌, ◌≤◌, ◌<◌, ◌≡◌, refl, sym, ap, ◌∙◌, false, ◌&&◌, none, some, [], ◌∷◌, ◌++◌, arith,
  leb, ltb, ◌==◌, length, get_or,
}
use vantablack.Prelude.Bytes.{
  Bytes, codes, to_be_bytes, length-to_be_bytes, to_be_bytes_inj, append_split, equal,
}
use vantablack.Relay.Signing.{Ed25519, public_key_bytes, verify_peer_signature-sign}
use vantablack.Relay.Exit.{
  ExitCapability, max_subject, max_scope, grant_bytes, signing_bytes, issue, verify,
}

-- The lengths that a capability may have.
pub record IsGrant (subject scope : Bytes) : Type 0 where
  pub subject_some : 1 ≤ length subject
  pub subject_fits : length subject ≤ max_subject
  pub scope_some : 1 ≤ length scope
  pub scope_fits : length scope ≤ max_scope

signing_bytes-IsGrant :
    (subject scope : Bytes) (x : ℕ)
    → IsGrant subject scope
    → signing_bytes subject scope x
      ≡ some (codes "GGN_EXITAUTH_V1" ++ grant_bytes subject scope x [])
unfolding signing_bytes
signing_bytes-IsGrant subject scope x g =
    let a : (length subject == 0) ≡ false = ground (arith, g.subject_some) in
    let b : ltb max_subject (length subject) ≡ false = ground (arith, g.subject_fits) in
    let c : (length scope == 0) ≡ false = ground (arith, g.scope_some) in
    let d : ltb max_scope (length scope) ≡ false = ground (arith, g.scope_fits) in
    rw (a, b, c, d) refl

-- For a subject and a scope of allowed lengths a capability is issued, and it verifies exactly for that subject and that scope and until it expires.
pub verify-issue :
    (e : Ed25519) (issuer : e.SigningKey) (subject subject' scope scope' : Bytes) (x now : ℕ)
    → IsGrant subject scope
    → (c : ExitCapability) × (issue e issuer subject scope x ≡ some c)
      × (verify e now subject' scope' c
          ≡ (leb now x && equal subject subject' && equal scope scope'))
unfolding issue verify
verify-issue e issuer subject subject' scope scope' x now g =
    let signing = codes "GGN_EXITAUTH_V1" ++ grant_bytes subject scope x [] in
    let s = signing_bytes-IsGrant subject scope x g in
    let v = verify_peer_signature-sign e issuer signing in
    let c : ExitCapability = record {
      issuer_pk = public_key_bytes e issuer;
      subject = subject;
      scope = scope;
      expires_at = x;
      signature = e.sign issuer signing;
    } in
    (c, rw s refl, rw (s, v) (ground arith))

grant_bytes_inj :
    (s s' c c' : Bytes) (x x' : ℕ)
    → IsGrant s c
    → IsGrant s' c'
    → x < 2 ^ 64
    → x' < 2 ^ 64
    → grant_bytes s c x [] ≡ grant_bytes s' c' x' []
    → (s ≡ s') × (c ≡ c') × (x ≡ x')
grant_bytes_inj s s' c c' x x' g g' h h' e =
    let p =
      append_split (to_be_bytes 8 x) (to_be_bytes 8 x') _ _
        (length-to_be_bytes 8 x ∙ sym (length-to_be_bytes 8 x')) e in
    let q = append_split (length s % 2 ^ 8 ∷ []) (length s' % 2 ^ 8 ∷ []) _ _ refl p.1 in
    let first : length s % 2 ^ 8 ≡ length s' % 2 ^ 8 = ap (λ l. get_or l 0 0) q.0 in
    let n : length s ≡ length s' = omega (arith, first, g.subject_fits, g'.subject_fits) in
    let r = append_split s s' _ _ n q.1 in
    let t =
      append_split (to_be_bytes 2 (length c % 2 ^ 16)) (to_be_bytes 2 (length c' % 2 ^ 16)) _ _
        (length-to_be_bytes 2 (length c % 2 ^ 16) ∙ sym (length-to_be_bytes 2 (length c' % 2 ^ 16)))
        r.1 in
    let m : length c % 2 ^ 16 ≡ length c' % 2 ^ 16 =
      to_be_bytes_inj 2 (length c % 2 ^ 16) (length c' % 2 ^ 16) (omega arith) (omega arith) t.0 in
    let u = append_split c c' [] [] (omega (arith, m, g.scope_fits, g'.scope_fits)) t.1 in
    (r.0, u.0, to_be_bytes_inj 8 x x' (omega arith) (omega arith) p.0)

-- Grants whose subject has 1 to 64 bytes and whose scope has 1 to 192, with a 64-bit expiry, that
-- are signed by the same bytes have the same subject, scope and expiry.
pub signing_bytes_inj :
    (s s' c c' : Bytes) (x x' : ℕ)
    → IsGrant s c
    → IsGrant s' c'
    → x < 2 ^ 64
    → x' < 2 ^ 64
    → signing_bytes s c x ≡ signing_bytes s' c' x'
    → (s ≡ s') × (c ≡ c') × (x ≡ x')
signing_bytes_inj s s' c c' x x' g g' h h' e =
    let both = sym (signing_bytes-IsGrant s c x g) ∙ e ∙ signing_bytes-IsGrant s' c' x' g' in
    let a =
      append_split (codes "GGN_EXITAUTH_V1") (codes "GGN_EXITAUTH_V1") _ _ refl
        (ap (λ o. elim o [ none ↦ [] | some b ↦ b ]) both) in
    grant_bytes_inj s s' c c' x x' g g' h h' a.1
