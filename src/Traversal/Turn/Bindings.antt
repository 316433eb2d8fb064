-- ===== src/Traversal/Turn/Bindings.antt =====
-- The invariant of a TURN server when a nonce is issued and when a channel is bound.
use vantablack.Prelude.{
  ℕ, suc, ◌<◌, ◌≤◌, ◌≡◌, sym, ap, ◌∙◌, subst, inl, inr, Bool, true, false, Option, none, some, [],
  ◌∷◌, length, leb, ◌==◌, ==_iff, if◌then◌else◌, Bool-cases, arith,
}
use vantablack.Prelude.Bytes.{Bytes}
use vantablack.Prelude.Dict
use vantablack.Prelude.Dict.{Dict}
use vantablack.Prelude.Keyed
use vantablack.Prelude.Keyed.{
  some_inj, num_keys, Unique, Values, insert-Unique, remove-Unique, insert-Values, remove-Values,
  lookup-Values, lookup-insert,
}
use vantablack.Traversal.Address.{SocketAddr, addr_keys, addr_equal, addr_equal_iff}
use vantablack.Traversal.Turn.{
  TurnServer, ServerAllocation, Drawn, is_channel, fresh_nonces, hex_encode, max_outstanding_nonces,
}
use vantablack.Traversal.Turn.Ports.{IsServer, Bound}
use vantablack.Traversal.Turn.Server.{issue_nonce, bind, bound_otherwise, taken_otherwise}

pub clash : (b : Bool) → b ≡ true → b ≡ false → ⊥
clash b h k = cc

pub length-insert : (k : Bytes) (v : ℕ) (d : Dict ℕ) → length (Dict.insert k v d) ≤ suc (length d)
unfolding Dict.insert
length-insert k v [] = omega arith
length-insert k v ((j, w) ∷ d) = ground (arith, length-insert k v d)

pub room :
    (l : Dict ℕ)
    → length (if leb max_outstanding_nonces (length l) then [] else l) < max_outstanding_nonces
room l = ground arith

pub issue_nonce-IsServer : (d : Drawn) (s : TurnServer) → IsServer s → IsServer (issue_nonce d s).1
unfolding issue_nonce
issue_nonce-IsServer d s v =
    let kept = fresh_nonces d.clock s.nonce_lifetime s.nonces in
    let fits = room kept in
    record {
      clients = v.clients;
      ports = v.ports;
      sound = v.sound;
      bounded = omega (
        arith,
        length-insert (hex_encode d.random) d.clock
            (if leb max_outstanding_nonces (length kept) then [] else kept),
        fits,
      );
    }

pub bound_otherwise-some :
    (o : Option SocketAddr) (p peer : SocketAddr)
    → bound_otherwise o peer ≡ false
    → o ≡ some p
    → addr_equal peer p ≡ true
bound_otherwise-some none p peer h e = cc
bound_otherwise-some (some q) p peer h e =
    (addr_equal_iff peer p).1 (sym ((addr_equal_iff q peer).0 (ground arith)) ∙ some_inj e)

pub taken_otherwise-some :
    (o : Option ℕ) (ch channel : ℕ)
    → taken_otherwise o channel ≡ false
    → o ≡ some ch
    → (channel == ch) ≡ true
taken_otherwise-some none ch channel h e = cc
taken_otherwise-some (some q) ch channel h e = ground arith

-- Binding a channel and a peer, neither of which is bound to another.
pub bind-Bound :
    (channel : ℕ) (peer : SocketAddr) (now : ℕ) (a : ServerAllocation)
    → bound_otherwise (Keyed.lookup num_keys channel a.channels) peer ≡ false
    → taken_otherwise (Keyed.lookup addr_keys peer a.channel_peers) channel ≡ false
    → is_channel channel ≡ true
    → Bound a
    → Bound (bind channel peer now a)
bind-Bound channel peer now a h k c₀ bound ch p =
    rw
      (
        lookup-insert num_keys channel ch peer a.channels,
        lookup-insert addr_keys peer p channel a.channel_peers,
      )
      (elim (Bool-cases (channel == ch)) [
        | inl c ↦ elim (Bool-cases (addr_equal peer p)) [
          | inl q ↦
              rw (c, q)
                (
                  (
                    λ e. ap some ((==_iff channel ch).0 c),
                    λ e. ap some ((addr_equal_iff peer p).0 q),
                  ),
                  λ e. subst (λ n. is_channel n ≡ true) ((==_iff channel ch).0 c) c₀,
                )
          | inr q ↦
              rw (c, q)
                (
                  (
                    λ e.
                        absurd
                          (clash (addr_equal peer p) ((addr_equal_iff peer p).1 (some_inj e)) q),
                    λ e. absurd (
                        clash (addr_equal peer p)
                          (bound_otherwise-some (Keyed.lookup num_keys channel a.channels) p peer h
                            ((bound channel p).0.1 (e ∙ ap some (sym ((==_iff channel ch).0 c)))))
                          q),
                  ),
                  λ e. subst (λ n. is_channel n ≡ true) ((==_iff channel ch).0 c) c₀,
                )
        ]
        | inr c ↦ elim (Bool-cases (addr_equal peer p)) [
          | inl q ↦
              rw (c, q)
                (
                  (
                    λ e. absurd (
                        clash (channel == ch)
                          (taken_otherwise-some (Keyed.lookup addr_keys peer a.channel_peers) ch
                            channel k
                            (ap (λ r. Keyed.lookup addr_keys r a.channel_peers)
                                ((addr_equal_iff peer p).0 q)
                              ∙ (bound ch p).0.0 e))
                          c),
                    λ e. absurd (clash (channel == ch) ((==_iff channel ch).1 (some_inj e)) c),
                  ),
                  (bound ch p).1,
                )
          | inr q ↦ rw (c, q) (bound ch p)
        ]
      ])
