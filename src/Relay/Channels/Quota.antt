-- ===== src/Relay/Channels/Quota.antt =====
-- The quota of a channel (src/ghost/net/relay.rs) over a history of packets.
use vantablack.Prelude.{
  ℕ, ◌+◌, ◌-◌, ◌^◌, ◌≤◌, ◌<◌, ◌≡◌, refl, ◌∙◌, min, Bool, true, false, Option, none, some, List, [],
  ◌∷◌, arith, ◌==◌, if◌then◌else◌,
}
use vantablack.Prelude.Bytes.{Bytes}
use vantablack.Prelude.Assoc.{lookup, insert, Ascends, insert-Ascends, lookup-insert}
use vantablack.Relay.Channels.{
  IdentityAgnosticChannel, IdentityAgnosticRelayTable, Forwarded, to, forward_on, forward, mint,
  verify, register_channel,
}

-- One packet: its token, its length and the time.
pub record Packet : Type 0 where
  pub token_id : ℕ
  pub packet_len : ℕ
  pub now : ℕ

abbrev pub is_forwarded : Forwarded → Bool
is_forwarded (to e) = true
is_forwarded _ = false

-- The bytes forwarded under a token by a list of packets.
unfoldable pub carried : ℕ → List Packet → IdentityAgnosticRelayTable → ℕ
unfolding forward
carried id [] t = 0
carried id (p ∷ ps) t =
    let (out, t') = forward p.token_id p.packet_len p.now t in
    (if p.token_id == id then (if is_forwarded out then p.packet_len else 0) else 0)
    + carried id ps t'

-- What a channel may still forward, and its limits.
abbrev pub room : Option IdentityAgnosticChannel → ℕ
room none = 0
room (some chan) = chan.max_bytes - chan.forwarded_bytes

abbrev IsLimited : Option IdentityAgnosticChannel → Type 0
IsLimited none = Unit {0}
IsLimited (some chan) = (chan.forwarded_bytes ≤ chan.max_bytes) × (chan.max_bytes < 2 ^ 64 - 1)

module _ (id m len now : ℕ) (t : IdentityAgnosticRelayTable) (asc : Ascends 0 t.channels) where
  abbrev more : Forwarded → ℕ
  more out = if m == id then (if is_forwarded out then len else 0) else 0

  forward_on_lem :
      (o : Option IdentityAgnosticChannel)
      → lookup m t.channels ≡ o
      → IsLimited (lookup id t.channels)
      → let (out, t') = forward_on o m len now t in
        Ascends 0 t'.channels
        × IsLimited (lookup id t'.channels)
        × (more out + room (lookup id t'.channels) ≤ room (lookup id t.channels))
  unfolding forward_on
  forward_on_lem none e l = (asc, l, ground arith)
  forward_on_lem (some chan) e l =
      let chan' : IdentityAgnosticChannel = record chan {
        forwarded_bytes = min (chan.forwarded_bytes + len) (2 ^ 64 - 1);
      } in
      ground (
        arith,
        insert-Ascends 0 m chan' t.channels (omega arith) asc,
        lookup-insert 0 m id chan' t.channels asc,
        e,
      )

carried-room :
    (ps : List Packet) (id : ℕ) (t : IdentityAgnosticRelayTable)
    → Ascends 0 t.channels
    → IsLimited (lookup id t.channels)
    → carried id ps t ≤ room (lookup id t.channels)
unfolding carried forward
carried-room [] id t asc l = omega arith
carried-room (p ∷ ps) id t asc l =
    let (asc', l', less) = forward_on_lem id p.token_id p.packet_len p.now t asc _ refl l in
    omega (arith, less, carried-room ps id _ asc' l')

-- A token minted for less than 2^64 - 1 bytes and registered with the key it was minted with, in
-- an ordered table and no later than it expires, is accepted; no list of packets, for this and
-- other tokens, then gets more than the token's bytes forwarded under it.
pub register_channel-carried :
    (sha256 : Bytes → ℕ) (key seed salt : Bytes) (max_bytes expires_at endpoint now : ℕ)
    (t : IdentityAgnosticRelayTable) (ps : List Packet)
    → Ascends 0 t.channels
    → max_bytes < 2 ^ 64 - 1
    → now ≤ expires_at
    → let token = mint sha256 key seed salt max_bytes expires_at in
      let (ok, t') = register_channel sha256 token key endpoint now t in
      (ok ≡ true) × (carried token.token_id ps t' ≤ max_bytes)
unfolding register_channel verify mint
register_channel-carried sha256 key seed salt max_bytes expires_at endpoint now t ps asc h alive =
    let token = mint sha256 key seed salt max_bytes expires_at in
    let chan : IdentityAgnosticChannel = record {
      egress_endpoint = endpoint;
      max_bytes = max_bytes;
      forwarded_bytes = 0;
      expires_at = expires_at;
    } in
    let t' : IdentityAgnosticRelayTable = record {
      channels = insert token.token_id chan t.channels;
    } in
    let done : register_channel sha256 token key endpoint now t ≡ (true, t') = ground arith in
    let here : lookup token.token_id t'.channels ≡ some chan =
      lookup-insert 0 token.token_id token.token_id chan t.channels asc ∙ ground arith in
    let limited : IsLimited (lookup token.token_id t'.channels) = rw here (omega arith, h) in
    let full : room (lookup token.token_id t'.channels) ≡ max_bytes = rw here (omega arith) in
    rw done (
      refl,
      omega (
        arith,
        full,
        carried-room ps token.token_id t'
            (insert-Ascends 0 token.token_id chan t.channels (omega arith) asc) limited,
      ),
    )
