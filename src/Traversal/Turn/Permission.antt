-- ===== src/Traversal/Turn/Permission.antt =====
-- What a TURN server sends, and on whose behalf: answers to the sender, and data to peers that the
-- sender's live allocation admits.
use vantablack.Prelude.{
  ℕ, ◌<◌, ◌≡◌, refl, sym, subst, ◌⊎◌, inl, inr, Bool, true, false, not, ◌||◌, Option, none, some,
  List, [], ◌∷◌, All, ltb, ltb→lt, ◌==◌, if◌then◌else◌, Bool-cases, Option-cases, arith,
}
use vantablack.Prelude.Bytes.{Bytes, codes}
use vantablack.Prelude.Keyed
use vantablack.Prelude.Keyed.{some_inj, num_keys}
use vantablack.Traversal.Address.{SocketAddr, IpAddr, addr_keys, ip_keys, ip_equal, is_unspecified}
use vantablack.Traversal.Stun.{
  Class, Message, Result, ok, err, request, indication, success_response, error_response, method,
  class, allocate, refresh, create_permission, channel_bind, send, transport_udp,
}
use vantablack.Traversal.Stun.Encode.{Crypto}
use vantablack.Traversal.Stun.Decode.{parse}
use vantablack.Traversal.Stun.Fields
use vantablack.Traversal.Turn.{
  TurnServer, ServerAllocation, Outbound, to_client, to_peer, Drawn, live_allocations,
  live_permissions, expire, parse_channel_data, is_channel,
}
use vantablack.Traversal.Turn.Server.{
  Handled, error_response_to, refuse, bad_request, unauthorized, forbidden, mismatch, allocate_at,
  allocate_for, allocation_port, handle_allocate, refresh_on, handle_refresh, permit_on, permit_for,
  handle_create_permission, bind_on, bind_for, handle_channel_bind, outbound_to_peer,
  relay_channel_data, handle_send, send_on, handle_message, handle_stun, handle_on, handle,
  authenticate, bound_otherwise, taken_otherwise, or_default,
}

-- What an output may be when a datagram of `from` is handled at `now` in the state `s`: an answer
-- to `from`, or data from the relay port of the allocation that `from` has, which is live, to a
-- peer that has a live permission there or is bound to a channel.
abbrev pub Permitted : ℕ → SocketAddr → TurnServer → Outbound → Type 0
Permitted now from s (to_client dest bytes) = dest ≡ from
Permitted now from s (to_peer port dest bytes) =
    (a : ServerAllocation) × (Keyed.lookup addr_keys from s.allocations ≡ some a)
    × (a.relay_port ≡ port)
    × (now < a.expires_at)
    × (((expiry : ℕ) × (Keyed.lookup ip_keys dest.ip a.permissions ≡ some expiry) × (now < expiry))
        ⊎ ((channel : ℕ) × (Keyed.lookup num_keys channel a.channels ≡ some dest)))

pub either {ℓ} :
    {A : Type 0} (P : A → Type ℓ) (b : Bool) (x y : A) → P x → P y → P (if b then x else y)
either P true x y h k = h
either P false x y h k = k

live_permissions-lt :
    (now : ℕ) (ip : IpAddr) (l : List (IpAddr × ℕ)) (expiry : ℕ)
    → Keyed.lookup ip_keys ip (live_permissions now l) ≡ some expiry
    → now < expiry
unfolding live_permissions Keyed.lookup
live_permissions-lt now ip [] expiry h = cc
live_permissions-lt now ip ((jp, e) ∷ l) expiry h =
    ground (arith, live_permissions-lt now ip l expiry)

abbrev pub swept : ℕ → ServerAllocation → ServerAllocation
swept now b = record b { permissions = live_permissions now b.permissions }

-- What is found after the sweep was live before, and keeps its live permissions.
pub lookup-live_allocations :
    (now : ℕ) (from : SocketAddr) (l : List (SocketAddr × ServerAllocation)) (a : ServerAllocation)
    → Keyed.lookup addr_keys from (live_allocations now l) ≡ some a
    → (b : ServerAllocation) × (now < b.expires_at) × (swept now b ≡ a)
unfolding live_allocations Keyed.lookup
lookup-live_allocations now from [] a h = cc
lookup-live_allocations now from ((client, b) ∷ l) a h = elim (Bool-cases (ltb now b.expires_at)) [
  | inl live ↦ elim (Bool-cases (addr_keys.same client from)) [
    | inl same ↦
        let found : some (swept now b) ≡ some a = rw same at (rw live at h) in
        (b, ltb→lt now b.expires_at live, some_inj found)
    | inr other ↦ lookup-live_allocations now from l a (rw other at (rw live at h))
  ]
  | inr dead ↦ lookup-live_allocations now from l a (rw dead at h)
]

pub live_allocations-Live :
    (now : ℕ) (from : SocketAddr) (l : List (SocketAddr × ServerAllocation)) (a : ServerAllocation)
    → Keyed.lookup addr_keys from (live_allocations now l) ≡ some a
    → (now < a.expires_at)
      × ((ip : IpAddr) (expiry : ℕ)
          → Keyed.lookup ip_keys ip a.permissions ≡ some expiry
          → now < expiry)
live_allocations-Live now from l a h =
    let (b, live, same) = lookup-live_allocations now from l a h in
    subst
      (λ o.
        (now < o.expires_at)
        × ((ip : IpAddr) (expiry : ℕ)
            → Keyed.lookup ip_keys ip o.permissions ≡ some expiry
            → now < expiry))
      same (live, λ ip expiry. live_permissions-lt now ip b.permissions expiry)

-- Every answer goes to the sender.
abbrev Answers : SocketAddr → List Outbound → Type 0
Answers from out = All (λ o. (b : Bytes) × (o ≡ to_client from b)) out

Answers-Permitted :
    (now : ℕ) (from : SocketAddr) (s : TurnServer) (out : List Outbound)
    → Answers from out
    → All (Permitted now from s) out
Answers-Permitted now from s [] h = tt
Answers-Permitted now from s (o ∷ out) h =
    (subst (Permitted now from s) (sym h.0.1) refl, Answers-Permitted now from s out h.1)

error_response_to-Answers :
    (from : SocketAddr) (msg : Message) (code : ℕ) (reason : Bytes) (d : Drawn) (s : TurnServer)
    → (b : Bytes) × ((error_response_to from msg code reason d s).0 ≡ to_client from b)
unfolding error_response_to
error_response_to-Answers from msg code reason d s =
    either (λ (r : Outbound × TurnServer). (b : Bytes) × (r.0 ≡ to_client from b))
      (code == 401 || code == 438) _ _ (_, refl) (_, refl)

refuse-Answers :
    (from : SocketAddr) (msg : Message) (code : ℕ) (reason : Bytes) (d : Drawn) (s : TurnServer)
    → Answers from (refuse from msg code reason d s).0
refuse-Answers from msg code reason d s = (error_response_to-Answers from msg code reason d s, tt)

module _ (c : Crypto) (msg : Message) (from : SocketAddr) (now : ℕ) (d : Drawn)
    (s : TurnServer) where
  abbrev Answered : Handled → Type 0
  Answered r = Answers from r.0

  no : (code : ℕ) (reason : Bytes) → Answered (refuse from msg code reason d s)
  no code reason = refuse-Answers from msg code reason d s

  no_400 : Answered (bad_request from msg d s)
  no_400 = no 400 (codes "Bad Request")

  no_401 : Answered (unauthorized from msg d s)
  no_401 = no 401 (codes "Unauthorized")

  no_403 : Answered (forbidden from msg d s)
  no_403 = no 403 (codes "Forbidden")

  no_437 : Answered (mismatch from msg d s)
  no_437 = no 437 (codes "Allocation Mismatch")

  allocate_at-Answers :
      (p : Option ℕ) (key : Bytes) → Answered (allocate_at c p key msg from now d s)
  unfolding allocate_at
  allocate_at-Answers none key = no 508 (codes "Insufficient Capacity")
  allocate_at-Answers (some port) key = ((_, refl), tt)

  allocate_for-Answers :
      (p : Option ℕ) (key : Bytes) → Answered (allocate_for c p key msg from now d s)
  unfolding allocate_for
  allocate_for-Answers none key = no_400
  allocate_for-Answers (some proto) key =
      either Answered (not (proto == transport_udp)) _ _
        (no 442 (codes "Unsupported Transport Protocol"))
        (either Answered (ip_equal from.ip s.relay_ip) _ _ no_403
          (allocate_at-Answers (allocation_port (Keyed.lookup addr_keys from s.allocations) s) key))

  handle_allocate-Answers : (key : Option Bytes) → Answered (handle_allocate c key msg from now d s)
  unfolding handle_allocate
  handle_allocate-Answers none = no_401
  handle_allocate-Answers (some key) = allocate_for-Answers (Fields.requested_transport msg) key

  refresh_on-Answers :
      (a : Option ServerAllocation) (key : Bytes) → Answered (refresh_on c a key msg from now d s)
  unfolding refresh_on
  refresh_on-Answers none key = no_437
  refresh_on-Answers (some a) key =
      either Answered (or_default (Fields.lifetime msg) 600 == 0) _ _ ((_, refl), tt)
        ((_, refl), tt)

  handle_refresh-Answers : (key : Option Bytes) → Answered (handle_refresh c key msg from now d s)
  unfolding handle_refresh
  handle_refresh-Answers none = no_401
  handle_refresh-Answers (some key) =
      refresh_on-Answers (Keyed.lookup addr_keys from s.allocations) key

  permit_on-Answers :
      (a : Option ServerAllocation) (peer : SocketAddr) (key : Bytes)
      → Answered (permit_on c a peer key msg from now d s)
  unfolding permit_on
  permit_on-Answers none peer key = no_437
  permit_on-Answers (some a) peer key =
      either Answered (is_unspecified peer.ip) _ _ no_403 ((_, refl), tt)

  permit_for-Answers :
      (p : Option SocketAddr) (key : Bytes) → Answered (permit_for c p key msg from now d s)
  permit_for-Answers none key = no_400
  permit_for-Answers (some peer) key =
      permit_on-Answers (Keyed.lookup addr_keys from s.allocations) peer key

  handle_create_permission-Answers :
      (key : Option Bytes) → Answered (handle_create_permission c key msg from now d s)
  unfolding handle_create_permission
  handle_create_permission-Answers none = no_401
  handle_create_permission-Answers (some key) = permit_for-Answers (Fields.xor_peer_address msg) key

  bind_on-Answers :
      (a : Option ServerAllocation) (channel : ℕ) (peer : SocketAddr) (key : Bytes)
      → Answered (bind_on c a channel peer key msg from now d s)
  unfolding bind_on
  bind_on-Answers none channel peer key = no_437
  bind_on-Answers (some a) channel peer key =
      either Answered (bound_otherwise (Keyed.lookup num_keys channel a.channels) peer) _ _ no_400 (
        either Answered (taken_otherwise (Keyed.lookup addr_keys peer a.channel_peers) channel) _ _
          no_400 ((_, refl), tt))

  bind_for-Answers :
      (n : Option ℕ) (p : Option SocketAddr) (key : Bytes)
      → Answered (bind_for c n p key msg from now d s)
  bind_for-Answers (some channel) (some peer) key =
      either Answered (not (is_channel channel)) _ _ no_400
        (bind_on-Answers (Keyed.lookup addr_keys from s.allocations) channel peer key)
  bind_for-Answers (some channel) none key = no_400
  bind_for-Answers none (some peer) key = no_400
  bind_for-Answers none none key = no_400

  handle_channel_bind-Answers :
      (key : Option Bytes) → Answered (handle_channel_bind c key msg from now d s)
  unfolding handle_channel_bind
  handle_channel_bind-Answers none = no_401
  handle_channel_bind-Answers (some key) =
      bind_for-Answers (Fields.channel_number msg) (Fields.xor_peer_address msg) key

-- Data for a peer, in a state that was swept at `now`.
module _ (now : ℕ) (from : SocketAddr) (s : TurnServer) where
  abbrev Allowed : List Outbound → Type 0
  Allowed out = All (Permitted now from (expire now s)) out

  outbound_to_peer-Permitted :
      (o : Option ServerAllocation) (peer : SocketAddr) (bytes : Bytes)
      → Keyed.lookup addr_keys from (expire now s).allocations ≡ o
      → Allowed (outbound_to_peer o peer bytes)
  unfolding outbound_to_peer
  outbound_to_peer-Permitted none peer bytes h = tt
  outbound_to_peer-Permitted (some a) peer bytes h =
      let live = live_allocations-Live now from s.allocations a h in
      elim (Option-cases (Keyed.lookup ip_keys peer.ip a.permissions)) [
        | inl e ↦ rw e tt
        | inr (expiry, e) ↦
            rw e ((a, h, refl, live.0, inl (expiry, e, live.1 peer.ip expiry e)), tt)
      ]

  relay_channel_data-Permitted :
      (o : Option ServerAllocation) (channel : ℕ) (payload : Bytes)
      → Keyed.lookup addr_keys from (expire now s).allocations ≡ o
      → Allowed (relay_channel_data o channel payload)
  unfolding relay_channel_data
  relay_channel_data-Permitted none channel payload h = tt
  relay_channel_data-Permitted (some a) channel payload h =
      let live = live_allocations-Live now from s.allocations a h in
      elim (Option-cases (Keyed.lookup num_keys channel a.channels)) [
        | inl e ↦ rw e tt
        | inr (peer, e) ↦ rw e ((a, h, refl, live.0, inr (channel, e)), tt)
      ]

  send_on-Permitted :
      (peer : Option SocketAddr) (bytes : Option Bytes)
      → Allowed (send_on peer bytes from (expire now s))
  send_on-Permitted (some peer) (some bytes) = outbound_to_peer-Permitted _ peer bytes refl
  send_on-Permitted (some peer) none = tt
  send_on-Permitted none (some bytes) = tt
  send_on-Permitted none none = tt

  module _ (c : Crypto) (raw : Bytes) (d : Drawn) where
    handle_send-Permitted :
        (key : Option Bytes) (msg : Message) → Allowed (handle_send key msg from (expire now s)).0
    unfolding handle_send
    handle_send-Permitted none msg = tt
    handle_send-Permitted (some key) msg =
        send_on-Permitted (Fields.xor_peer_address msg) (Fields.payload msg)

    handle_message-Permitted :
        (k : Class) (msg : Message)
        → Allowed (handle_message c k raw msg from now d (expire now s)).0
    unfolding handle_message
    handle_message-Permitted request msg =
        let key = authenticate c raw msg (expire now s) in
        let m = method msg.typ in
        Answers-Permitted now from (expire now s) _ (
          either (λ (r : Handled). Answers from r.0) (m == allocate) _ _
            (handle_allocate-Answers c msg from now d (expire now s) key)
            (either (λ (r : Handled). Answers from r.0) (m == refresh) _ _
              (handle_refresh-Answers c msg from now d (expire now s) key)
              (either (λ (r : Handled). Answers from r.0) (m == create_permission) _ _
                (handle_create_permission-Answers c msg from now d (expire now s) key)
                (either (λ (r : Handled). Answers from r.0) (m == channel_bind) _ _
                  (handle_channel_bind-Answers c msg from now d (expire now s) key) tt))))
    handle_message-Permitted indication msg =
        either (λ (r : Handled). Allowed r.0) (method msg.typ == send) _ _
          (handle_send-Permitted (authenticate c raw msg (expire now s)) msg) tt
    handle_message-Permitted success_response msg = tt
    handle_message-Permitted error_response msg = tt

    handle_stun-Permitted :
        (m : Result Message) → Allowed (handle_stun c m raw from now d (expire now s)).0
    handle_stun-Permitted (err e) = tt
    handle_stun-Permitted (ok msg) = handle_message-Permitted (class msg.typ) msg

    handle_on-Permitted :
        (o : Option (ℕ × Bytes)) → Allowed (handle_on c o raw from now d (expire now s)).0
    handle_on-Permitted (some (channel, payload)) =
        relay_channel_data-Permitted _ channel payload refl
    handle_on-Permitted none = handle_stun-Permitted (parse raw)

-- Whatever datagram a TURN server handles: an answer goes to the sender of the datagram, and data
-- goes to a peer only from the relay port of an allocation that the sender has and that has not
-- expired, and only if the peer's address has a permission there that has not expired or the peer
-- is bound to one of its channels.
pub handle-Permitted :
    (c : Crypto) (raw : Bytes) (from : SocketAddr) (now : ℕ) (d : Drawn) (s : TurnServer)
    → All (Permitted now from (expire now s)) (handle c raw from now d s).0
unfolding handle
handle-Permitted c raw from now d s =
    handle_on-Permitted now from s c raw d (parse_channel_data raw)
