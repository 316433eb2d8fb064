-- ===== src/Relay/Hop/Route.antt =====
-- An onion of src/ghost/net/relay.rs on its way: each hop hands the next one its packet.
use vantablack.Prelude.{
  ℕ, ◌%◌, ◌≡◌, Option, none, some, List, [], ◌∷◌, ◌++◌, append_assoc, arith, ◌==◌, if◌then◌else◌,
  length, length-append,
}
use vantablack.Prelude.Bytes.{Bytes}
use vantablack.Prelude.Dict.{Dict, lookup}
use vantablack.Relay.Bundles.{BundleBuffer}
use vantablack.Relay.Hop.{Hop, sealed_for, try_forward_relay}

-- Bytes padded to an even length.
unfoldable pub even : Bytes → Bytes
even bs = if length bs % 2 == 0 then bs else bs ++ (0 ∷ [])

even-append : (front bs : Bytes) → length front % 2 ≡ 0 → even (front ++ bs) ≡ front ++ even bs
unfolding even
even-append front bs h = ground (arith, length-append front bs, append_assoc front bs (0 ∷ []))

-- What a relay knows: its sessions and its peers' addresses.
pub record Tables (Session : Type 0) : Type 0 where
  pub sessions : Dict Session
  pub peer_addrs : Dict ℕ

-- The bytes that come out of a chain of relays, when each opens what the one before sealed.
abbrev pub handed : {Session : Type 0} → Hop Session → Option Bytes
handed (sealed_for addr session framed) = some framed
handed _ = none

abbrev pub and_then : Option Bytes → (Bytes → Option Bytes) → Option Bytes
and_then none k = none
and_then (some framed) k = k framed

module _ (Session : Type 0) where
  unfoldable pub travel : List (Tables Session) → ℕ → BundleBuffer → Bytes → Option Bytes
  unfolding try_forward_relay
  travel [] now buf packet = some packet
  travel (t ∷ ts) now buf packet =
      and_then (handed (try_forward_relay t.sessions t.peer_addrs packet now buf).0)
        (travel ts now buf)

  -- Each relay has an address of its next hop and a session with it.
  abbrev pub Knows : Bytes → Tables Session → Type 0
  Knows fp t =
      ((addr : ℕ) × (lookup fp t.peer_addrs ≡ some addr))
      × ((session : Session) × (lookup fp t.sessions ≡ some session))

  abbrev pub Chain : List Bytes → List (Tables Session) → Type 0
  Chain [] [] = Unit {0}
  Chain (fp ∷ fps) (t ∷ ts) = Knows fp t × Chain fps ts
  Chain _ _ = ⊥
