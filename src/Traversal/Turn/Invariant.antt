-- ===== src/Traversal/Turn/Invariant.antt =====
-- Every operation of a TURN server keeps its invariant, so every reachable state has it.
use vantablack.Prelude.{
  ℕ, max, ◌+◌, ◌-◌, ◌≡◌, refl, inl, inr, true, false, not, ◌||◌, Option, none, some, List, [], ◌∷◌,
  ◌==◌, Bool-cases, Option-cases, arith,
}
use vantablack.Prelude.Bytes.{Bytes, codes}
use vantablack.Prelude.Keyed
use vantablack.Prelude.Keyed.{
  some_inj, num_keys, Unique, Values, insert-Unique, remove-Unique, insert-Values, remove-Values,
  lookup-Values, lookup-insert,
}
use vantablack.Traversal.Address.{SocketAddr, IpAddr, addr_keys, ip_equal, is_unspecified}
use vantablack.Traversal.Stun.{
  Class, Message, Result, ok, err, request, indication, success_response, error_response, method,
  class, allocate, refresh, create_permission, channel_bind, send, transport_udp,
}
use vantablack.Traversal.Stun.Encode.{Crypto}
use vantablack.Traversal.Stun.Decode.{parse}
use vantablack.Traversal.Stun.Fields
use vantablack.Traversal.Turn.{
  TurnServer, ServerAllocation, Outbound, Drawn, expire, parse_channel_data, is_channel, has_port,
  new_server, min_lifetime_secs, seconds,
}
use vantablack.Traversal.Turn.Permission.{either}
use vantablack.Traversal.Turn.Ports.{
  IsServer, IsAllocation, Bound, find_port_lem, DistinctPorts-insert_same, DistinctPorts-insert_new,
  DistinctPorts-remove, expire-IsServer,
}
use vantablack.Traversal.Turn.Server.{
  Handled, error_response_to, refuse, bad_request, unauthorized, forbidden, mismatch, allocate_at,
  allocate_for, allocation_port, handle_allocate, refresh_on, handle_refresh, permit_on, permit_for,
  handle_create_permission, bind, bind_on, bind_for, handle_channel_bind, handle_send,
  handle_message, handle_stun, handle_on, handle, authenticate, bound_otherwise, taken_otherwise,
  or_default, new_allocation,
}
use vantablack.Traversal.Turn.Bindings.{issue_nonce-IsServer, bind-Bound}

module _ (s : TurnServer) (v : IsServer s) where
  -- The allocation of a client that has one is changed, and keeps its port.
  replaced-IsServer :
      (from : SocketAddr) (a b : ServerAllocation)
      → Keyed.lookup addr_keys from s.allocations ≡ some a
      → b.relay_port ≡ a.relay_port
      → Bound b
      → IsServer (record s { allocations = Keyed.insert addr_keys from b s.allocations })
  replaced-IsServer from a b h e bound =
      let old =
        lookup-Values addr_keys (IsAllocation s.port_min s.port_max) from s.allocations a v.sound
          h in
      record {
        clients = insert-Unique addr_keys from b s.allocations v.clients;
        ports = DistinctPorts-insert_same from b a s.allocations h e v.ports;
        sound =
            insert-Values addr_keys (IsAllocation s.port_min s.port_max) from b s.allocations
              (omega (arith, e, old.0), omega (arith, e, old.1), bound) v.sound;
        bounded = v.bounded;
      }

  removed-IsServer :
      (from : SocketAddr)
      → IsServer (record s { allocations = Keyed.remove addr_keys from s.allocations })
  removed-IsServer from = record {
    clients = remove-Unique addr_keys from s.allocations v.clients;
    ports = DistinctPorts-remove from s.allocations v.ports;
    sound = remove-Values addr_keys (IsAllocation s.port_min s.port_max) from s.allocations v.sound;
    bounded = v.bounded;
  }

  -- A client that has no allocation is given one at a free port.
  added-IsServer :
      (from : SocketAddr) (b : ServerAllocation)
      → Keyed.lookup addr_keys from s.allocations ≡ none
      → has_port b.relay_port s.allocations ≡ false
      → IsAllocation s.port_min s.port_max b
      → IsServer (record s { allocations = Keyed.insert addr_keys from b s.allocations })
  added-IsServer from b h f i = record {
    clients = insert-Unique addr_keys from b s.allocations v.clients;
    ports = DistinctPorts-insert_new from b s.allocations h f v.ports;
    sound =
        insert-Values addr_keys (IsAllocation s.port_min s.port_max) from b s.allocations i v.sound;
    bounded = v.bounded;
  }

  abbrev Kept : Handled → Type 0
  Kept r = IsServer r.1

  error_response_to-IsServer :
      (from : SocketAddr) (msg : Message) (code : ℕ) (reason : Bytes) (d : Drawn)
      → IsServer (error_response_to from msg code reason d s).1
  unfolding error_response_to
  error_response_to-IsServer from msg code reason d =
      either (λ (r : Outbound × TurnServer). IsServer r.1) (code == 401 || code == 438) _ _
        (issue_nonce-IsServer d s v) v

  module _ (c : Crypto) (msg : Message) (from : SocketAddr) (now : ℕ) (d : Drawn) where
    no : (code : ℕ) (reason : Bytes) → Kept (refuse from msg code reason d s)
    no code reason = error_response_to-IsServer from msg code reason d

    no_400 : Kept (bad_request from msg d s)
    no_400 = no 400 (codes "Bad Request")

    no_401 : Kept (unauthorized from msg d s)
    no_401 = no 401 (codes "Unauthorized")

    no_403 : Kept (forbidden from msg d s)
    no_403 = no 403 (codes "Forbidden")

    no_437 : Kept (mismatch from msg d s)
    no_437 = no 437 (codes "Allocation Mismatch")

    nothing-Bound : (port expires_at : ℕ) → Bound (new_allocation port expires_at)
    unfolding Keyed.lookup
    nothing-Bound port expires_at channel peer = (((λ h. cc), (λ h. cc)), (λ h. cc))

    expiry : ℕ
    expiry = now + seconds (max (or_default (Fields.lifetime msg) 600) min_lifetime_secs)

    allocate_at-Kept :
        (o : Option ServerAllocation) (key : Bytes)
        → Keyed.lookup addr_keys from s.allocations ≡ o
        → Kept (allocate_at c (allocation_port o s) key msg from now d s)
    unfolding allocate_at expiry
    allocate_at-Kept (some a) key h =
        replaced-IsServer from a (new_allocation a.relay_port expiry) h refl
          (nothing-Bound a.relay_port expiry)
    allocate_at-Kept none key h = elim (Option-cases (allocation_port none s)) [
      | inl full ↦ rw full (no 508 (codes "Insufficient Capacity"))
      | inr (p, free) ↦
          let new = find_port_lem (s.port_max + 1 - s.port_min) s.port_min s.allocations p free in
          rw free (
            added-IsServer from (new_allocation p expiry) h new.0
              (new.1, omega (arith, new.2), nothing-Bound p expiry))
    ]

    allocate_for-Kept : (p : Option ℕ) (key : Bytes) → Kept (allocate_for c p key msg from now d s)
    unfolding allocate_for
    allocate_for-Kept none key = no_400
    allocate_for-Kept (some proto) key =
        either Kept (not (proto == transport_udp)) _ _
          (no 442 (codes "Unsupported Transport Protocol"))
          (either Kept (ip_equal from.ip s.relay_ip) _ _ no_403 (allocate_at-Kept _ key refl))

    handle_allocate-Kept : (key : Option Bytes) → Kept (handle_allocate c key msg from now d s)
    unfolding handle_allocate
    handle_allocate-Kept none = no_401
    handle_allocate-Kept (some key) = allocate_for-Kept (Fields.requested_transport msg) key

    held-Bound :
        (a : ServerAllocation) → Keyed.lookup addr_keys from s.allocations ≡ some a → Bound a
    held-Bound a h =
        (lookup-Values addr_keys (IsAllocation s.port_min s.port_max) from s.allocations a v.sound
          h).2

    refresh_on-Kept :
        (o : Option ServerAllocation) (key : Bytes)
        → Keyed.lookup addr_keys from s.allocations ≡ o
        → Kept (refresh_on c o key msg from now d s)
    unfolding refresh_on
    refresh_on-Kept none key h = no_437
    refresh_on-Kept (some a) key h =
        either Kept (or_default (Fields.lifetime msg) 600 == 0) _ _ (removed-IsServer from)
          (replaced-IsServer from a _ h refl (held-Bound a h))

    handle_refresh-Kept : (key : Option Bytes) → Kept (handle_refresh c key msg from now d s)
    unfolding handle_refresh
    handle_refresh-Kept none = no_401
    handle_refresh-Kept (some key) = refresh_on-Kept _ key refl

    permit_on-Kept :
        (o : Option ServerAllocation) (peer : SocketAddr) (key : Bytes)
        → Keyed.lookup addr_keys from s.allocations ≡ o
        → Kept (permit_on c o peer key msg from now d s)
    unfolding permit_on
    permit_on-Kept none peer key h = no_437
    permit_on-Kept (some a) peer key h =
        either Kept (is_unspecified peer.ip) _ _ no_403
          (replaced-IsServer from a _ h refl (held-Bound a h))

    permit_for-Kept :
        (p : Option SocketAddr) (key : Bytes) → Kept (permit_for c p key msg from now d s)
    permit_for-Kept none key = no_400
    permit_for-Kept (some peer) key = permit_on-Kept _ peer key refl

    handle_create_permission-Kept :
        (key : Option Bytes) → Kept (handle_create_permission c key msg from now d s)
    unfolding handle_create_permission
    handle_create_permission-Kept none = no_401
    handle_create_permission-Kept (some key) = permit_for-Kept (Fields.xor_peer_address msg) key

    bind_on-Kept :
        (o : Option ServerAllocation) (channel : ℕ) (peer : SocketAddr) (key : Bytes)
        → Keyed.lookup addr_keys from s.allocations ≡ o
        → is_channel channel ≡ true
        → Kept (bind_on c o channel peer key msg from now d s)
    unfolding bind_on
    bind_on-Kept none channel peer key h c₀ = no_437
    bind_on-Kept (some a) channel peer key h c₀ =
        elim (Bool-cases (bound_otherwise (Keyed.lookup num_keys channel a.channels) peer)) [
          | inl other ↦ rw other no_400
          | inr mine ↦
              elim (Bool-cases
                (taken_otherwise (Keyed.lookup addr_keys peer a.channel_peers) channel)) [
                  | inl other ↦ rw (mine, other) no_400
                  | inr free ↦
                      rw (mine, free)
                        (replaced-IsServer from a (bind channel peer now a) h refl
                          (bind-Bound channel peer now a mine free c₀ (held-Bound a h)))
                ]
        ]

    bind_for-Kept :
        (n : Option ℕ) (p : Option SocketAddr) (key : Bytes)
        → Kept (bind_for c n p key msg from now d s)
    bind_for-Kept (some channel) (some peer) key = elim (Bool-cases (is_channel channel)) [
      | inl c₀ ↦ rw c₀ (bind_on-Kept _ channel peer key refl c₀)
      | inr c₀ ↦ rw c₀ no_400
    ]
    bind_for-Kept (some channel) none key = no_400
    bind_for-Kept none (some peer) key = no_400
    bind_for-Kept none none key = no_400

    handle_channel_bind-Kept :
        (key : Option Bytes) → Kept (handle_channel_bind c key msg from now d s)
    unfolding handle_channel_bind
    handle_channel_bind-Kept none = no_401
    handle_channel_bind-Kept (some key) =
        bind_for-Kept (Fields.channel_number msg) (Fields.xor_peer_address msg) key

    handle_send-Kept : (key : Option Bytes) → Kept (handle_send key msg from s)
    unfolding handle_send
    handle_send-Kept none = v
    handle_send-Kept (some key) = v

    handle_message-Kept : (k : Class) (raw : Bytes) → Kept (handle_message c k raw msg from now d s)
    unfolding handle_message
    handle_message-Kept request raw =
        let key = authenticate c raw msg s in
        let m = method msg.typ in
        either Kept (m == allocate) _ _ (handle_allocate-Kept key) (
          either Kept (m == refresh) _ _ (handle_refresh-Kept key) (
            either Kept (m == create_permission) _ _ (handle_create_permission-Kept key)
              (either Kept (m == channel_bind) _ _ (handle_channel_bind-Kept key) v)))
    handle_message-Kept indication raw =
        either Kept (method msg.typ == send) _ _ (handle_send-Kept (authenticate c raw msg s)) v
    handle_message-Kept success_response raw = v
    handle_message-Kept error_response raw = v

module _ (c : Crypto) where
  handle_stun-IsServer :
      (m : Result Message) (raw : Bytes) (from : SocketAddr) (now : ℕ) (d : Drawn) (s : TurnServer)
      → IsServer s
      → IsServer (handle_stun c m raw from now d s).1
  handle_stun-IsServer (err e) raw from now d s v = v
  handle_stun-IsServer (ok msg) raw from now d s v =
      handle_message-Kept s v c msg from now d (class msg.typ) raw

  handle_on-IsServer :
      (o : Option (ℕ × Bytes)) (raw : Bytes) (from : SocketAddr) (now : ℕ) (d : Drawn)
      (s : TurnServer)
      → IsServer s
      → IsServer (handle_on c o raw from now d s).1
  handle_on-IsServer (some (channel, payload)) raw from now d s v = v
  handle_on-IsServer none raw from now d s v = handle_stun-IsServer (parse raw) raw from now d s v

  pub handle-IsServer :
      (raw : Bytes) (from : SocketAddr) (now : ℕ) (d : Drawn) (s : TurnServer)
      → IsServer s
      → IsServer (handle c raw from now d s).1
  unfolding handle
  handle-IsServer raw from now d s v =
      handle_on-IsServer (parse_channel_data raw) raw from now d (expire now s)
        (expire-IsServer now s v)

-- What a server is given: a datagram, its sender, the time and what a challenge draws.
pub record Datagram : Type 0 where
  pub raw : Bytes
  pub from : SocketAddr
  pub now : ℕ
  pub drawn : Drawn

-- The state after a history of datagrams.
unfoldable pub after : Crypto → List Datagram → TurnServer → TurnServer
unfolding handle
after c [] s = s
after c (g ∷ more) s = after c more (handle c g.raw g.from g.now g.drawn s).1

after-keeps :
    (c : Crypto) (l : List Datagram) (s : TurnServer) → IsServer s → IsServer (after c l s)
unfolding after
after-keeps c [] s v = v
after-keeps c (g ∷ more) s v =
    after-keeps c more _ (handle-IsServer c g.raw g.from g.now g.drawn s v)

-- After any history of datagrams from any senders, a new TURN server has at most one allocation
-- for a client, no two allocations with one relay port, only ports of its pool, channels in their
-- range that are bound to one peer each and no two to one peer, and at most 4096 nonces.
pub after-IsServer :
    (c : Crypto) (l : List Datagram) (realm : Bytes) (users : List (Bytes × Bytes)) (ip : IpAddr)
    (lo hi : ℕ)
    → IsServer (after c l (new_server realm users ip lo hi))
after-IsServer c l realm users ip lo hi =
    after-keeps c l _ (record { clients = tt; ports = tt; sound = tt; bounded = omega arith })
