-- ===== src/Session/Tests/Chain.antt =====
-- Runs of a receiving chain.
use vantablack.Prelude.{◌≡◌, ◌≢◌, refl, sym, ◌∙◌, none, some, [], ◌∷◌, arith}
use vantablack.Prelude.Assoc.{lookup, or_insert, remove}
use vantablack.Session.MsgChain.{MsgChain, u64_max, seed, plan, commit}
use vantablack.Session.MsgChain.Keys.{chain_at, key_at}
use vantablack.Session.MsgChain.Once.{receive, receive_all, receive_key, receive_once}
use vantablack.Session.Tests.Toy.{toy, master}

abbrev start : MsgChain
start = seed master

-- Message 2 first, then 0, which was passed over, and 0 again, which is spent.
out_of_order :
    ((receive toy start 2).0 ≡ some (key_at toy master 2))
    × ((receive toy (receive_all toy start (2 ∷ [])) 0).0 ≡ some (key_at toy master 0))
    × ((receive toy (receive_all toy start (2 ∷ 0 ∷ [])) 0).0 ≡ none)
unfolding receive receive_all seed plan commit key_at chain_at lookup or_insert remove
out_of_order = (refl, refl, refl)

found : (receive toy (receive_all toy (seed master) (2 ∷ [])) 0).0 ≡ some (2 ∷ 7 ∷ 8 ∷ 9 ∷ [])
unfolding receive receive_all seed plan commit lookup or_insert
found = refl

opened : (receive toy (receive_all toy (seed master) (2 ∷ [])) 0).0 ≢ none
opened e = let f = sym found ∙ e in cc

receive_once_example :
    (receive toy
      (receive_all toy (receive toy (receive_all toy start (2 ∷ [])) 0).1 (1 ∷ 4 ∷ []))
      0).0
    ≡ none
receive_once_example =
    receive_once toy master (2 ∷ []) (1 ∷ 4 ∷ []) 0 (omega arith, tt)
      (omega arith, (omega arith, tt)) (omega arith) opened

receive_key_example : (2 ∷ 7 ∷ 8 ∷ 9 ∷ []) ≡ key_at toy master 0
receive_key_example = receive_key toy master (2 ∷ []) 0 (omega arith, tt) found

abbrev last : MsgChain
last = record { chain = master; pos = u64_max; skipped = [] }
