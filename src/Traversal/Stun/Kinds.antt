-- ===== src/Traversal/Stun/Kinds.antt =====
-- The attribute type codes of src/ghost/net/stun.rs (`mod attr`).
use vantablack.Prelude.{ℕ}
use mathlib.Core.List.{List, [], ◌∷◌}

abbrev pub mapped_address : ℕ
mapped_address = 0x0001

abbrev pub username : ℕ
username = 0x0006

abbrev pub message_integrity : ℕ
message_integrity = 0x0008

abbrev pub error_code : ℕ
error_code = 0x0009

abbrev pub unknown_attributes : ℕ
unknown_attributes = 0x000a

abbrev pub channel_number : ℕ
channel_number = 0x000c

abbrev pub lifetime : ℕ
lifetime = 0x000d

abbrev pub xor_peer_address : ℕ
xor_peer_address = 0x0012

abbrev pub payload : ℕ
payload = 0x0013

abbrev pub realm : ℕ
realm = 0x0014

abbrev pub nonce : ℕ
nonce = 0x0015

abbrev pub xor_relayed_address : ℕ
xor_relayed_address = 0x0016

abbrev pub requested_transport : ℕ
requested_transport = 0x0019

abbrev pub dont_fragment : ℕ
dont_fragment = 0x001a

abbrev pub xor_mapped_address : ℕ
xor_mapped_address = 0x0020

abbrev pub priority : ℕ
priority = 0x0024

abbrev pub use_candidate : ℕ
use_candidate = 0x0025

abbrev pub software : ℕ
software = 0x8022

abbrev pub fingerprint : ℕ
fingerprint = 0x8028

abbrev pub ice_controlled : ℕ
ice_controlled = 0x8029

abbrev pub ice_controlling : ℕ
ice_controlling = 0x802a

-- The kinds that are decoded into an attribute of their own.
abbrev pub known : List ℕ
known =
    mapped_address ∷ username ∷ message_integrity ∷ error_code ∷ unknown_attributes ∷ channel_number
    ∷ lifetime ∷ xor_peer_address ∷ payload ∷ realm ∷ nonce ∷ xor_relayed_address
    ∷ requested_transport ∷ dont_fragment ∷ xor_mapped_address ∷ priority ∷ use_candidate ∷ software
    ∷ fingerprint ∷ ice_controlled ∷ ice_controlling ∷ []
