-- ===== src/Traversal/Turn/Ports.antt =====
-- What holds of a TURN server in every reachable state: one allocation to a client, one client to a
-- relay port, one peer to a channel and one channel to a peer, and a bounded set of nonces.
use vantablack.Prelude.{
  true, ℕ, zero, suc, ◌+◌, ◌<◌, ◌≤◌, ◌≡◌, ◌↔◌, refl, sym, ap, ◌∙◌, subst, inl, inr, false, ◌||◌,
  none, some, List, [], ◌∷◌, length, ltb, ◌==◌, Bool-cases, arith,
}
use vantablack.Prelude.Keyed
use vantablack.Prelude.Keyed.{some_inj, num_keys, Unique, Values}
use vantablack.Traversal.Address.{SocketAddr, addr_keys, addr_equal}
use vantablack.Traversal.Turn.{
  is_channel, TurnServer, ServerAllocation, live_allocations, expire, has_port, find_port,
  max_outstanding_nonces,
}
use vantablack.Traversal.Turn.Permission.{either, swept}

-- Channels and peers of an allocation are bound to one another, and a channel is in its range.
abbrev pub Bound : ServerAllocation → Type 0
Bound a =
    (channel : ℕ) (peer : SocketAddr)
    → ((Keyed.lookup num_keys channel a.channels ≡ some peer)
        ↔ (Keyed.lookup addr_keys peer a.channel_peers ≡ some channel))
      × (Keyed.lookup num_keys channel a.channels ≡ some peer → is_channel channel ≡ true)

-- A port of the pool, and channels that are bound well.
abbrev pub IsAllocation : ℕ → ℕ → ServerAllocation → Type 0
IsAllocation lo hi a = (lo ≤ a.relay_port) × (a.relay_port ≤ hi) × Bound a

abbrev pub DistinctPorts : List (SocketAddr × ServerAllocation) → Type 0
DistinctPorts [] = Unit {0}
DistinctPorts ((client, a) ∷ l) = (has_port a.relay_port l ≡ false) × DistinctPorts l

pub record IsServer (s : TurnServer) : Type 0 where
  pub clients : Unique addr_keys s.allocations
  pub ports : DistinctPorts s.allocations
  pub sound : Values addr_keys (IsAllocation s.port_min s.port_max) s.allocations
  pub bounded : length s.nonces ≤ max_outstanding_nonces

pub find_port_lem :
    (n p : ℕ) (l : List (SocketAddr × ServerAllocation)) (q : ℕ)
    → find_port n p l ≡ some q
    → (has_port q l ≡ false) × (p ≤ q) × (q < p + n)
unfolding find_port
find_port_lem zero p l q h = cc
find_port_lem (suc n) p l q h = elim (Bool-cases (has_port p l)) [
  | inl used ↦
      let r = find_port_lem n (p + 1) l q (rw used at h) in
      (r.0, omega (arith, r.1), omega (arith, r.2))
  | inr free ↦
      let same : p ≡ q = some_inj (rw free at h) in
      (subst (λ t. has_port t l ≡ false) same free, omega (arith, same), omega (arith, same))
]

-- The ports of a list after the allocation of one client was replaced by one of the same port.
has_port-insert_same :
    (k : SocketAddr) (v a : ServerAllocation) (p : ℕ) (l : List (SocketAddr × ServerAllocation))
    → Keyed.lookup addr_keys k l ≡ some a
    → v.relay_port ≡ a.relay_port
    → has_port p (Keyed.insert addr_keys k v l) ≡ has_port p l
unfolding Keyed.insert Keyed.lookup
has_port-insert_same k v a p [] h e = cc
has_port-insert_same k v a p ((j, w) ∷ l) h e = elim (Bool-cases (addr_equal j k)) [
  | inl same ↦
      let port = e ∙ ap (λ (x : ServerAllocation). x.relay_port) (sym (some_inj (rw same at h))) in
      rw same (ap (λ q. q == p || has_port p l) port)
  | inr other ↦
      rw other (ap (λ b. w.relay_port == p || b) (has_port-insert_same k v a p l (rw other at h) e))
]

pub DistinctPorts-insert_same :
    (k : SocketAddr) (v a : ServerAllocation) (l : List (SocketAddr × ServerAllocation))
    → Keyed.lookup addr_keys k l ≡ some a
    → v.relay_port ≡ a.relay_port
    → DistinctPorts l
    → DistinctPorts (Keyed.insert addr_keys k v l)
unfolding Keyed.insert Keyed.lookup
DistinctPorts-insert_same k v a [] h e d = cc
DistinctPorts-insert_same k v a ((j, w) ∷ l) h e d = elim (Bool-cases (addr_equal j k)) [
  | inl same ↦
      let port = e ∙ ap (λ (x : ServerAllocation). x.relay_port) (sym (some_inj (rw same at h))) in
      rw same (ap (λ q. has_port q l) port ∙ d.0, d.1)
  | inr other ↦
      let h' = rw other at h in
      rw other (
        has_port-insert_same k v a w.relay_port l h' e ∙ d.0,
        DistinctPorts-insert_same k v a l h' e d.1,
      )
]

-- A new client's port that no allocation has.
has_port-insert_new :
    (k : SocketAddr) (v : ServerAllocation) (p : ℕ) (l : List (SocketAddr × ServerAllocation))
    → Keyed.lookup addr_keys k l ≡ none
    → has_port p l ≡ false
    → (v.relay_port == p) ≡ false
    → has_port p (Keyed.insert addr_keys k v l) ≡ false
unfolding Keyed.insert Keyed.lookup
has_port-insert_new k v p [] h f e = ground arith
has_port-insert_new k v p ((j, w) ∷ l) h f e = ground (arith, has_port-insert_new k v p l)

pub DistinctPorts-insert_new :
    (k : SocketAddr) (v : ServerAllocation) (l : List (SocketAddr × ServerAllocation))
    → Keyed.lookup addr_keys k l ≡ none
    → has_port v.relay_port l ≡ false
    → DistinctPorts l
    → DistinctPorts (Keyed.insert addr_keys k v l)
unfolding Keyed.insert Keyed.lookup
DistinctPorts-insert_new k v [] h f d = (refl, tt)
DistinctPorts-insert_new k v ((j, w) ∷ l) h f d =
    ground (arith, has_port-insert_new k v w.relay_port l, DistinctPorts-insert_new k v l)

has_port-remove :
    (k : SocketAddr) (p : ℕ) (l : List (SocketAddr × ServerAllocation))
    → has_port p l ≡ false
    → has_port p (Keyed.remove addr_keys k l) ≡ false
unfolding Keyed.remove
has_port-remove k p [] f = refl
has_port-remove k p ((j, w) ∷ l) f = ground (arith, has_port-remove k p l)

pub DistinctPorts-remove :
    (k : SocketAddr) (l : List (SocketAddr × ServerAllocation))
    → DistinctPorts l
    → DistinctPorts (Keyed.remove addr_keys k l)
unfolding Keyed.remove
DistinctPorts-remove k [] d = tt
DistinctPorts-remove k ((j, w) ∷ l) d = elim (Bool-cases (addr_equal j k)) [
  | inl same ↦ rw same (DistinctPorts-remove k l d.1)
  | inr other ↦ rw other (has_port-remove k w.relay_port l d.0, DistinctPorts-remove k l d.1)
]

-- The sweep keeps what holds.
module _ (now : ℕ) where
  has_port-live :
      (p : ℕ) (l : List (SocketAddr × ServerAllocation))
      → has_port p l ≡ false
      → has_port p (live_allocations now l) ≡ false
  unfolding live_allocations
  has_port-live p [] f = refl
  has_port-live p ((j, w) ∷ l) f = ground (arith, has_port-live p l)

  lookup-live_none :
      (k : SocketAddr) (l : List (SocketAddr × ServerAllocation))
      → Keyed.lookup addr_keys k l ≡ none
      → Keyed.lookup addr_keys k (live_allocations now l) ≡ none
  unfolding live_allocations Keyed.lookup
  lookup-live_none k [] f = refl
  lookup-live_none k ((j, w) ∷ l) f = ground (arith, lookup-live_none k l)

  DistinctPorts-live :
      (l : List (SocketAddr × ServerAllocation))
      → DistinctPorts l
      → DistinctPorts (live_allocations now l)
  unfolding live_allocations
  DistinctPorts-live [] d = tt
  DistinctPorts-live ((j, w) ∷ l) d =
      either DistinctPorts (ltb now w.expires_at) ((j, swept now w) ∷ live_allocations now l) _
        (has_port-live w.relay_port l d.0, DistinctPorts-live l d.1) (DistinctPorts-live l d.1)

  Unique-live :
      (l : List (SocketAddr × ServerAllocation))
      → Unique addr_keys l
      → Unique addr_keys (live_allocations now l)
  unfolding live_allocations
  Unique-live [] u = tt
  Unique-live ((j, w) ∷ l) u =
      either (Unique addr_keys) (ltb now w.expires_at) ((j, swept now w) ∷ live_allocations now l) _
        (lookup-live_none j l u.0, Unique-live l u.1) (Unique-live l u.1)

  Values-live :
      (lo hi : ℕ) (l : List (SocketAddr × ServerAllocation))
      → Values addr_keys (IsAllocation lo hi) l
      → Values addr_keys (IsAllocation lo hi) (live_allocations now l)
  unfolding live_allocations
  Values-live lo hi [] u = tt
  Values-live lo hi ((j, w) ∷ l) u =
      either (Values addr_keys (IsAllocation lo hi)) (ltb now w.expires_at)
        ((j, swept now w) ∷ live_allocations now l) _ (u.0, Values-live lo hi l u.1)
        (Values-live lo hi l u.1)

pub expire-IsServer : (now : ℕ) (s : TurnServer) → IsServer s → IsServer (expire now s)
expire-IsServer now s v = record {
  clients = Unique-live now s.allocations v.clients;
  ports = DistinctPorts-live now s.allocations v.ports;
  sound = Values-live now s.port_min s.port_max s.allocations v.sound;
  bounded = v.bounded;
}
