-- ===== src/Relay/Exit.antt =====
-- Who may use an exit: `ExitCapability` of src/ghost/net/relay.rs. A text is its bytes.
pub mod Capability
pub mod Wire
mod Tests
use vantablack.Prelude.{
  ℕ, ◌+◌, ◌-◌, ◌%◌, ◌^◌, Bool, true, false, not, ◌&&◌, ◌||◌, Option, none, some, List, [], ◌∷◌,
  ◌++◌, map, ltb, leb, ◌==◌, if◌then◌else◌, length, get_or, take, drop,
}
use vantablack.Prelude.Bytes.{Bytes, codes, to_be_bytes, from_be_bytes, equal, slice}
use vantablack.Prelude.Utf8.{from_utf8}
use vantablack.Relay.Signing.{Ed25519, public_key_bytes, verify_peer_signature}

pub record ExitCapability : Type 0 where
  pub issuer_pk : Bytes
  pub subject : Bytes
  pub scope : Bytes
  pub expires_at : ℕ
  pub signature : Bytes

-- `MAGIC`, `VERSION`, `MAX_SUBJECT` and `MAX_SCOPE`
abbrev pub magic : Bytes
magic = codes "EXITAUTH"

abbrev pub version : ℕ
version = 1

abbrev pub max_subject : ℕ
max_subject = 64

abbrev pub max_scope : ℕ
max_scope = 192

-- The fields that both the signed bytes and the encoding hold, with the casts of the lengths.
abbrev pub grant_bytes : Bytes → Bytes → ℕ → Bytes → Bytes
grant_bytes subject scope expires_at rest =
    to_be_bytes 8 expires_at
    ++ ((length subject % 2 ^ 8 ∷ [])
        ++ (subject ++ (to_be_bytes 2 (length scope % 2 ^ 16) ++ (scope ++ rest))))

-- `signing_bytes`
unfoldable pub signing_bytes : Bytes → Bytes → ℕ → Option Bytes
signing_bytes subject scope expires_at =
    if length subject == 0
      || ltb max_subject (length subject)
      || length scope == 0
      || ltb max_scope (length scope)
    then none
    else some (codes "GGN_EXITAUTH_V1" ++ grant_bytes subject scope expires_at [])

module _ (e : Ed25519) where
  abbrev pub issue_on : Option Bytes → e.SigningKey → Bytes → Bytes → ℕ → Option ExitCapability
  issue_on none issuer subject scope expires_at = none
  issue_on (some signing) issuer subject scope expires_at = some (record {
    issuer_pk = public_key_bytes e issuer;
    subject = subject;
    scope = scope;
    expires_at = expires_at;
    signature = e.sign issuer signing;
  })

  -- `issue`
  unfoldable pub issue : e.SigningKey → Bytes → Bytes → ℕ → Option ExitCapability
  unfolding signing_bytes public_key_bytes
  issue issuer subject scope expires_at =
      issue_on (signing_bytes subject scope expires_at) issuer subject scope expires_at

  abbrev pub verify_signing : Option Bytes → ExitCapability → Bool
  verify_signing none c = false
  verify_signing (some signing) c = verify_peer_signature e c.issuer_pk signing c.signature

  -- `verify`
  unfoldable pub verify : ℕ → Bytes → Bytes → ExitCapability → Bool
  unfolding signing_bytes verify_peer_signature
  verify now expected_subject required_scope c =
      if ltb c.expires_at now
        || not (equal c.subject expected_subject)
        || not (equal c.scope required_scope)
      then false
      else verify_signing (signing_bytes c.subject c.scope c.expires_at) c

-- `encode`
unfoldable pub encode : ExitCapability → Option Bytes
encode c =
    let out =
      magic
      ++ ((version ∷ [])
          ++ grant_bytes c.subject c.scope c.expires_at (c.issuer_pk ++ c.signature)) in
    if leb (length c.subject) max_subject && leb (length c.scope) max_scope then some out else none

-- `decode` from the issuer's key on, at `at`.
abbrev pub decode_keys : ℕ → Bytes → ℕ → Bytes → Bytes → Option ExitCapability
decode_keys at raw expires_at subject scope =
    if ltb (length raw) (at + 32)
    then none
    else if ltb (length raw) (at + 32 + 64)
    then none
    else if not (at + 32 + 64 == length raw)
    then none
    else some (record {
      issuer_pk = slice at 32 raw;
      subject = subject;
      scope = scope;
      expires_at = expires_at;
      signature = slice (at + 32) 64 raw;
    })

abbrev pub decode_scope_text : Option Bytes → ℕ → Bytes → ℕ → Bytes → Option ExitCapability
decode_scope_text none at raw expires_at subject = none
decode_scope_text (some scope) at raw expires_at subject =
    decode_keys at raw expires_at subject scope

-- `decode` from the scope's length on, at `at`.
unfoldable pub decode_scope : ℕ → Bytes → ℕ → Bytes → Option ExitCapability
decode_scope at raw expires_at subject =
    let scope_len = from_be_bytes (slice at 2 raw) in
    if ltb (length raw) (at + 2)
    then none
    else if scope_len == 0 || ltb max_scope scope_len || ltb (length raw) (at + 2 + scope_len)
    then none
    else decode_scope_text (from_utf8 (slice (at + 2) scope_len raw)) (at + 2 + scope_len) raw
        expires_at subject

abbrev pub decode_subject_text : Option Bytes → ℕ → Bytes → ℕ → Option ExitCapability
decode_subject_text none at raw expires_at = none
decode_subject_text (some subject) at raw expires_at = decode_scope at raw expires_at subject

-- `decode`
unfoldable pub decode : Bytes → Option ExitCapability
unfolding decode_scope
decode raw =
    let subject_len = get_or raw 17 0 in
    if ltb (length raw) (8 + 1 + 8 + 1 + 2 + 32 + 64)
      || not (equal (take 8 raw) magic)
      || not (get_or raw 8 0 == version)
    then none
    else if subject_len == 0 || ltb max_subject subject_len || ltb (length raw) (18 + subject_len)
    then none
    else decode_subject_text (from_utf8 (slice 18 subject_len raw)) (18 + subject_len) raw
        (from_be_bytes (slice 9 8 raw))
