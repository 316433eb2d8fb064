-- ===== src/Lib.antt =====
-- A model of the core of Vantablack, a tunnel over an untrusted network: the state that guards and keys a
-- session, the path of a batch of bytes through erasure-coded shards, the relay, and the STUN and TURN by
-- which peers behind address translation reach each other.
--
-- The parts and their files:
--
-- - Session/Guard (src/ghost/layers/l6_session.rs): `SessionGuard` and `SessionGuardU64`. A counter on each
--   frame passes a window of 128 bits and two timeouts. Guard/Replay states what a guard with unbounded
--   memory does, Guard/Runs histories of frames, Guard/Wide the 64-bit guard.
-- - Session/Kdf (src/ghost/layers/l1_kem.rs, the `kdf_*` functions): the key schedule over HMAC and HKDF.
-- - Session/MsgChain (src/ghost/session/ratchet.rs, `MsgChain`, `OpenPlan`): one direction's keys for the
--   messages of an epoch. `plan` changes nothing, `commit` follows once a frame has authenticated. Children:
--   Skipped (the cache), Keys (against the sender's sequence), Once and Late (histories).
-- - Session/Ratchet (the same file, `SessionRatchet`): epochs over a pair of chains. Children: Step (`step`,
--   `prepare_step`, `mix_quantum_entropy` and their kin), Open (`commit_open`, `open_key`,
--   `gap_exceeds_max_skip`), Epochs (the invariant), Grace (frames in flight across a step).
-- - Session/Steps (src/ghost/session/mod.rs, `Session`): the exchange of a ratchet step between two sessions,
--   with Steps/Exchange for both ends, Steps/Crossed for steps that cross, and
--   Steps/Recovery for an answer that is changed on the way. Session/Pdus (the same file): the control
--   messages, with their wire form in Pdus/Wire.
-- - Session/Causal (the same file, `CausalMonotonicCounter`).
-- - Transport/Erasure (src/ghost/layers/l4_rs.rs), Transport/Coalesce (src/ghost/net/coalesce.rs, with the
--   wire form in Coalesce/Wire) and Transport/Reassembly (src/ghost/net/reassembly.rs). A queue cuts a stream
--   into groups of three shards, and a buffer of 64 slots puts the groups together. EndToEnd joins the two.
-- - Ledger/Bandwidth (src/ghost/net/bandwidth_voucher.rs) and Ledger/Energy (src/ghost/net/energy_currency.rs):
--   vouchers and credits that pay for forwarding, with their accounts in Bandwidth/Balance and
--   Energy/Earned.
-- - Sync/Dtn (src/ghost/net/dtn_reconcile.rs): bundles, their transmission form (Dtn/Wire) and the union of two
--   stores (Dtn/Union).
-- - Relay/Channels (src/ghost/net/relay.rs, `BlindCapabilityToken`, `IdentityAgnosticRelayTable`), with the quota
--   over a history of packets in Channels/Quota.
-- - Relay/Envelope (the same file): both kinds of envelope (Envelope/Layout) and the onion of a route
--   (Envelope/Onion). Relay/Hop: the decisions of `try_forward_relay`, and in Hop/Route an onion on its way.
-- - Relay/Derp (the same file, `DerpRelay`): the blind relay, with what it may deliver (Derp/Forward), its
--   histories (Derp/Runs) and the choice of a relay (Derp/Pick). Relay/Flow (src/ghost/net/mod.rs,
--   `FlowController`): its transit quota, with what the bucket lets through in Flow/Rate.
-- - Relay/Bundles (src/ghost/net/relay.rs, `BundleBuffer`): stored bundles; Bundles/Queue states the same as one
--   queue, and Bundles/Refine compares the two.
-- - Relay/Vouchers (the same file: `ProofOfTransit`, `ForwardingCapabilityVoucher`,
--   `AnonymousThresholdVoucher` and its ledger), Relay/Exit (`ExitCapability`), Relay/Policy (`ExitPolicy`) and
--   Relay/Tor (`TorMultiCircuitDispatcher`). Relay/Signing (src/ghost/layers/l0_identity.rs) has the signatures.
-- - Relay/Diversity (src/ghost/net/relay.rs, `AsnDiversityConstraint`), with its histories in
--   Diversity/Shards.
-- - Traversal/Stun (src/ghost/net/stun.rs): STUN messages. Children: Kinds (the numbers of attributes), Fields
--   (what a message says), Encode, Decode and Verify; Types, Values, Layout and RoundTrip are about their
--   encoding, Integrity, Digests and Sealed about the digests. Traversal/Address has the socket addresses.
-- - Traversal/Turn (src/ghost/net/turn.rs): channel data, the state of `TurnServer` and what expires in it.
--   Children: Server (`handle`, `handle_peer_data` and the handlers they call), Client (`TurnClient` without
--   its socket); Ports, Bindings and Invariant (the server's state), Permission and Channels (what it may relay), Peer
--   (data from a peer to the client), Exchange with its Turn/Sealed (a client that asks for an allocation).
-- - Prelude: numbers, lists, bits, exclusive or, big-endian bytes, UTF-8 texts, tests at every word below
--   number, and maps by number, by text and by any key with a decidable equality. The Tests modules run the
--   definitions on concrete inputs.
--
-- How the code corresponds: a method that takes `&mut self` becomes a function to its result and the new
-- state; each reading of the clock is an argument, in nanoseconds; bytes and words are natural numbers, with
-- the wrap or the saturation of the source written out. Functions keep the names of the source, and a
-- method that is split has its parts beside it. A panic is a value of its own: `Outcome.panicked` in the
-- reassembly, `none` in `first_key`. Zeroizing has no effect on a reachable value and is left out.
--
-- Parameters: `Primitives` stands for the crates `hmac` and `hkdf`, about which nothing is assumed;
-- `ReedSolomon` for the crate `reed_solomon_erasure`, with its documented behaviour as `IsErasureCode`. The
-- sum of bytes modulo 256 (Transport/Tests/SumCode) is such a code. The ledgers, stores and channels take SHA-256 and Ed25519 as
-- functions about which nothing is assumed; where a
-- signature has to verify, Relay/Signing states what the crate `ed25519_dalek` documents. The key exchange of a ratchet step
-- (X25519, ML-KEM) is `KeyExchange`, with what its crates document; the ratchet itself takes the secrets that
-- it yields. `Crypto` of Traversal/Stun stands for the crates `hmac`, `sha1` and `md5`, where HMAC-SHA1 accepts
-- a key of any length and its tag has 20 bytes. Random bytes are arguments, as readings of the clock are.
--
-- Fuel: the loop of `push` runs on fuel, and one round more than there are bytes is enough. The loop that
-- drops old epochs takes the length of the list, and each round drops one.
-- The loops that read the attributes of a STUN message take the number of its bytes, and each round reads four
-- or more.
--
-- Not modelled: sockets, threads, ICE and port mapping, the mesh and its routing, the VPN and the user interfaces,
-- whose work is mostly the operating system's or a library's; the GTF frame formats; the cryptographic algorithms themselves.
pub mod Prelude
pub mod Session
pub mod Transport
pub mod Ledger
pub mod Sync
pub mod Relay
pub mod Traversal
