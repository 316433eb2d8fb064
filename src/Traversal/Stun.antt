-- ===== src/Traversal/Stun.antt =====
-- STUN messages: src/ghost/net/stun.rs. A text is its bytes.
pub mod Kinds
pub mod Fields
pub mod Encode
pub mod Decode
pub mod Verify
pub mod Types
pub mod Values
pub mod Layout
pub mod RoundTrip
pub mod Integrity
pub mod Digests
pub mod Sealed
mod Tests
use vantablack.Prelude.{
  ℕ, ◌+◌, ◌*◌, ◌/◌, ◌^◌, bit_and, bit_or, Option, none, some, List, [], ◌∷◌, ◌++◌, ◌==◌,
  if◌then◌else◌,
}
use vantablack.Prelude.Bytes.{Bytes, codes}
use vantablack.Traversal.Address.{SocketAddr}
use vantablack.Traversal.Stun.Kinds

-- `MAGIC_COOKIE`, `HEADER_LEN`, `FINGERPRINT_XOR`, `FINGERPRINT_SIZE`, `INTEGRITY_SIZE`
abbrev pub magic_cookie : ℕ
magic_cookie = 0x2112a442

abbrev pub header_len : ℕ
header_len = 20

abbrev pub fingerprint_xor : ℕ
fingerprint_xor = 0x5354554e

abbrev pub fingerprint_size : ℕ
fingerprint_size = 8

abbrev pub integrity_size : ℕ
integrity_size = 24

-- `TRANSPORT_UDP`, `CHANNEL_NUMBER_MIN`, `CHANNEL_NUMBER_MAX`
abbrev pub transport_udp : ℕ
transport_udp = 17

abbrev pub channel_number_min : ℕ
channel_number_min = 0x4000

abbrev pub channel_number_max : ℕ
channel_number_max = 0x7fff

pub data StunError : Type 0 where
  too_short : StunError
  bad_magic_cookie : StunError
  length_mismatch : (declared actual : ℕ) → StunError
  unpadded_length : StunError
  truncated_attribute : StunError
  truncated_value : StunError
  unknown_family : ℕ → StunError
  missing_integrity : StunError
  bad_integrity : StunError
  missing_fingerprint : StunError
  bad_fingerprint : StunError
  malformed : Bytes → StunError

pub data Result (A : Type 0) : Type 0 where
  ok : A → Result A
  err : StunError → Result A

infixl 5 ◌>>=◌
abbrev pub ◌>>=◌ : {A B : Type 0} → Result A → (A → Result B) → Result B
ok a >>= f = f a
err e >>= f = err e

pub data Class : Type 0 where
  request : Class
  indication : Class
  success_response : Class
  error_response : Class

-- `Class::bits`
abbrev pub bits : Class → ℕ
bits request = 0
bits indication = 1
bits success_response = 2
bits error_response = 3

-- The methods of `Method` that the code names.
abbrev pub binding : ℕ
binding = 0x001

abbrev pub allocate : ℕ
allocate = 0x003

abbrev pub refresh : ℕ
refresh = 0x004

abbrev pub send : ℕ
send = 0x006

abbrev pub data_method : ℕ
data_method = 0x007

abbrev pub create_permission : ℕ
create_permission = 0x008

abbrev pub channel_bind : ℕ
channel_bind = 0x009

-- `MessageType::new`, on words in which none of the shifts overflows.
unfoldable pub message_type : ℕ → Class → ℕ
message_type m c =
    bit_or
      (bit_or (bit_or (bit_or (bit_and m 0x000f) (bit_and m 0x0070 * 2)) (bit_and m 0x0f80 * 4))
        (bit_and (bits c) 1 * 16))
      (bit_and (bits c) 2 * 128)

-- `MessageType::method` and `MessageType::class`
unfoldable pub method : ℕ → ℕ
method t = bit_or (bit_or (bit_and t 0x000f) (bit_and t 0x00e0 / 2)) (bit_and t 0x3e00 / 4)

unfoldable pub class : ℕ → Class
class t =
    let c = bit_or (bit_and (t / 16) 1) (bit_and (t / 128) 2) in
    if c == 0
    then request
    else if c == 1
    then indication
    else if c == 2
    then success_response
    else error_response

pub data Attribute : Type 0 where
  mapped_address : SocketAddr → Attribute
  xor_mapped_address : SocketAddr → Attribute
  username : Bytes → Attribute
  message_integrity : Bytes → Attribute
  error_code : (code : ℕ) (reason : Bytes) → Attribute
  priority : ℕ → Attribute
  use_candidate : Attribute
  ice_controlled : ℕ → Attribute
  ice_controlling : ℕ → Attribute
  software : Bytes → Attribute
  fingerprint : ℕ → Attribute
  xor_peer_address : SocketAddr → Attribute
  xor_relayed_address : SocketAddr → Attribute
  payload : Bytes → Attribute
  realm : Bytes → Attribute
  nonce : Bytes → Attribute
  requested_transport : ℕ → Attribute
  lifetime : ℕ → Attribute
  channel_number : ℕ → Attribute
  unknown_attributes : List ℕ → Attribute
  dont_fragment : Attribute
  unknown : (kind : ℕ) (value : Bytes) → Attribute

-- `Attribute::kind`
abbrev pub kind : Attribute → ℕ
kind (mapped_address a) = Kinds.mapped_address
kind (xor_mapped_address a) = Kinds.xor_mapped_address
kind (username u) = Kinds.username
kind (message_integrity h) = Kinds.message_integrity
kind (error_code c r) = Kinds.error_code
kind (priority p) = Kinds.priority
kind use_candidate = Kinds.use_candidate
kind (ice_controlled t) = Kinds.ice_controlled
kind (ice_controlling t) = Kinds.ice_controlling
kind (software s) = Kinds.software
kind (fingerprint c) = Kinds.fingerprint
kind (xor_peer_address a) = Kinds.xor_peer_address
kind (xor_relayed_address a) = Kinds.xor_relayed_address
kind (payload d) = Kinds.payload
kind (realm s) = Kinds.realm
kind (nonce s) = Kinds.nonce
kind (requested_transport p) = Kinds.requested_transport
kind (lifetime s) = Kinds.lifetime
kind (channel_number n) = Kinds.channel_number
kind (unknown_attributes l) = Kinds.unknown_attributes
kind dont_fragment = Kinds.dont_fragment
kind (unknown k v) = k

pub record Message : Type 0 where
  pub typ : ℕ
  pub txid : Bytes
  pub attributes : List Attribute

-- `Message::new`
abbrev pub message : ℕ → Class → Bytes → List Attribute → Message
message m c txid attributes = record {
  typ = message_type m c;
  txid = txid;
  attributes = attributes;
}

-- `Message::push`
abbrev pub push : Attribute → Message → Message
push a m = record m { attributes = m.attributes ++ (a ∷ []) }

-- `Message::get`
abbrev pub find : ℕ → List Attribute → Option Attribute
find k [] = none
find k (a ∷ more) = if kind a == k then some a else find k more

abbrev pub get : ℕ → Message → Option Attribute
get k m = find k m.attributes

-- `software`, with the version of Cargo.toml.
abbrev pub software_name : Bytes
software_name = codes "GhostNet/0.8.21"

-- `Message::binding_request`, `binding_indication` and `binding_success`
abbrev pub binding_request : Bytes → Message
binding_request txid = message binding request txid (Attribute.software software_name ∷ [])

abbrev pub binding_indication : Bytes → Message
binding_indication txid = message binding indication txid (Attribute.software software_name ∷ [])

abbrev pub binding_success : Bytes → SocketAddr → Message
binding_success txid mapped =
    message binding success_response txid
      (Attribute.xor_mapped_address mapped ∷ Attribute.software software_name ∷ [])
