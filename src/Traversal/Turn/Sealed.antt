-- ===== src/Traversal/Turn/Sealed.antt =====
-- A request that a client seals with the realm, a nonce and the password of the server passes.
use vantablack.Prelude.{
  ℕ, ◌+◌, ◌^◌, ◌<◌, ◌≡◌, refl, ap, ◌∙◌, true, false, none, some, List, [], ◌∷◌, ◌++◌, append_assoc,
  length, All, ◌==◌, Bool-cases, inl, inr, arith,
}
use vantablack.Prelude.Bytes.{Bytes, equal, equal_iff}
use vantablack.Prelude.Dict
use vantablack.Prelude.Utf8.{is_utf8, from_utf8_lossy_text}
use vantablack.Traversal.Stun.{Attribute, Message, ok, kind, find}
use vantablack.Traversal.Stun.Encode.{Crypto, strip, is_digest, long_term_key}
use vantablack.Traversal.Stun.Decode.{parse}
use vantablack.Traversal.Stun.Verify.{verify_integrity}
use vantablack.Traversal.Stun.Values.{IsAttribute, IsTxid}
use vantablack.Traversal.Stun.Layout.{body}
use vantablack.Traversal.Stun.Sealed.{encode_with_integrity-verified}
use vantablack.Traversal.Stun.Kinds
use vantablack.Traversal.Turn.{TurnServer, expire}
use vantablack.Traversal.Turn.Server.{authenticate}
use vantablack.Traversal.Turn.Client.{TurnClient, seal, with_credentials}

find-append : (k : ℕ) (l r : List Attribute) → find k l ≡ none → find k (l ++ r) ≡ find k r
find-append k [] r h = refl
find-append k (a ∷ l) r h = elim (Bool-cases (kind a == k)) [
  | inl here ↦ absurd (nothing (rw here at h))
  | inr on ↦ rw on (find-append k l r (rw on at h))
]
  where
    nothing : {A : Type 0} {a : A} → some a ≡ none → ⊥
    nothing h = cc

strip-append : (l r : List Attribute) → strip (l ++ r) ≡ strip l ++ strip r
strip-append [] r = refl
strip-append (a ∷ l) r = elim (Bool-cases (is_digest a)) [
  | inl digest ↦ rw digest (strip-append l r)
  | inr plain ↦ rw plain (ap (λ t. a ∷ t) (strip-append l r))
]

find-strip : (k : ℕ) (l : List Attribute) → find k l ≡ none → find k (strip l) ≡ none
find-strip k [] h = refl
find-strip k (a ∷ l) h = ground (arith, find-strip k l)

module _ (c : Crypto) where
  -- Each thing that `authenticate` looks up is there.
  authenticate-found :
      (raw username realm nonce password : Bytes) (issued : ℕ) (msg : Message) (s : TurnServer)
      → find Kinds.username msg.attributes ≡ some (Attribute.username username)
      → find Kinds.realm msg.attributes ≡ some (Attribute.realm realm)
      → find Kinds.nonce msg.attributes ≡ some (Attribute.nonce nonce)
      → is_utf8 username ≡ true
      → realm ≡ s.server_realm
      → Dict.lookup nonce s.nonces ≡ some issued
      → Dict.lookup username s.users ≡ some password
      → verify_integrity c raw (long_term_key c username realm password) ≡ ok tt
      → authenticate c raw msg s ≡ some (long_term_key c username realm password)
  unfolding authenticate
  authenticate-found raw username realm nonce password issued msg s u r n text same known pass
        seal_ok =
      let here : equal realm s.server_realm ≡ true = (equal_iff realm s.server_realm).1 same in
      rw (u, r, n, from_utf8_lossy_text username text, here, known, pass, seal_ok) refl

  -- The attributes of a sealed request, as they are read.
  sealed_attributes :
      (l : List Attribute) (u r n i f : Attribute)
      → is_digest u ≡ false
      → is_digest r ≡ false
      → is_digest n ≡ false
      → (strip (((l ++ (u ∷ [])) ++ (r ∷ [])) ++ (n ∷ [])) ++ (i ∷ [])) ++ (f ∷ [])
        ≡ strip l ++ (u ∷ r ∷ n ∷ i ∷ f ∷ [])
  sealed_attributes l u r n i f p q o = simp (strip-append, p, q, o, append_assoc)

-- A request without credentials of its own, as `TurnClient` builds them.
pub record IsRequest (m : Message) : Type 0 where
  pub no_username : find Kinds.username m.attributes ≡ none
  pub no_realm : find Kinds.realm m.attributes ≡ none
  pub no_nonce : find Kinds.nonce m.attributes ≡ none

-- What the server knows of the client's credentials.
pub record Knows (s : TurnServer) (t : TurnClient) (nonce : Bytes) : Type 0 where
  pub issued : ℕ
  pub realm_known : t.realm ≡ some s.server_realm
  pub nonce_held : t.nonce ≡ some nonce
  pub nonce_known : Dict.lookup nonce s.nonces ≡ some issued
  pub user_known : Dict.lookup t.username s.users ≡ some t.password
  pub user_text : is_utf8 t.username ≡ true

pub expire-Knows :
    (now : ℕ) (s : TurnServer) (t : TurnClient) (nonce : Bytes)
    → Knows s t nonce
    → Knows (expire now s) t nonce
expire-Knows now s t nonce k = record {
  issued = k.issued;
  realm_known = k.realm_known;
  nonce_held = k.nonce_held;
  nonce_known = k.nonce_known;
  user_known = k.user_known;
  user_text = k.user_text;
}

pub authenticate-seal :
    (c : Crypto) (t : TurnClient) (s : TurnServer) (nonce : Bytes) (m : Message)
    → Knows s t nonce
    → IsRequest m
    → m.typ < 2 ^ 16
    → IsTxid m.txid
    → All IsAttribute (with_credentials t s.server_realm nonce m).attributes
    → length (body m.txid (strip (with_credentials t s.server_realm nonce m).attributes)) + 32
      < 2 ^ 16
    → (out : Bytes) × (read : List Attribute) × (seal c t m ≡ some (ok out))
      × (parse out ≡ ok (record m { attributes = strip m.attributes ++ read }))
      × (authenticate c out (record m { attributes = strip m.attributes ++ read }) s
          ≡ some (long_term_key c t.username s.server_realm t.password))
unfolding seal
authenticate-seal c t s nonce m k q typed id built fits =
    let key = long_term_key c t.username s.server_realm t.password in
    let whole = with_credentials t s.server_realm nonce m in
    let (out, tag, crc, made, verified, summed, parsed) =
      encode_with_integrity-verified c key whole typed id built fits in
    let u = Attribute.username t.username in
    let r = Attribute.realm s.server_realm in
    let n = Attribute.nonce nonce in
    let read = u ∷ r ∷ n ∷ Attribute.message_integrity tag ∷ Attribute.fingerprint crc ∷ [] in
    let after =
      sealed_attributes c m.attributes u r n (Attribute.message_integrity tag)
        (Attribute.fingerprint crc) refl refl refl in
    let skip = λ (w : ℕ) (h : find w m.attributes ≡ none).
      find-append w (strip m.attributes) read (find-strip w m.attributes h) in
    (
      out,
      read,
      rw (k.realm_known, k.nonce_held) (ap some made),
      parsed ∙ ap (λ l. ok (record m { attributes = l })) after,
      authenticate-found c out t.username s.server_realm nonce t.password k.issued
          (record m { attributes = strip m.attributes ++ read }) s
          (skip Kinds.username q.no_username) (skip Kinds.realm q.no_realm)
          (skip Kinds.nonce q.no_nonce) k.user_text refl k.nonce_known k.user_known verified,
    )
