-- ===== src/Ledger/Energy/Earned.antt =====
-- What a worker earned, spent and has left (src/ghost/net/energy_currency.rs).
use vantablack.Prelude.{
  ℕ, ◌+◌, ◌-◌, ◌^◌, ◌≤◌, ◌≡◌, ◌≢◌, refl, ap, ◌∙◌, min, Bool, true, false, Option, none, some, List,
  [], ◌∷◌, arith, ◌==◌, if◌then◌else◌, is_some,
}
use vantablack.Prelude.Assoc.{lookup, Ascends, insert-Ascends, lookup-insert}
use vantablack.Ledger.Energy.{
  Signatures, ErasureRepairProof, EnergyCreditLedger, new, Credit, credited, Spending, tier,
  balance_of, spend_from, spend_for_priority, proof_id, credit_repair,
}

pub record IsLedger (l : EnergyCreditLedger) : Type 0 where
  pub accounts : Ascends 0 l.balances
  pub proofs : Ascends 0 l.credited_proofs

pub data Op : Type 0 where
  repair : ErasureRepairProof → Op
  spend : (worker_pk credits : ℕ) → Op

abbrev pub is_credited : Credit → Bool
is_credited (credited b) = true
is_credited _ = false

abbrev pub is_paid : Spending → Bool
is_paid (tier t) = true
is_paid _ = false

spend_from_lem :
    (o : Option ℕ) (m k w : ℕ) (l : EnergyCreditLedger)
    → lookup m l.balances ≡ o
    → IsLedger l
    → let (out, l') = spend_from o m k l in
      IsLedger l'
      × (balance_of w l ≡ balance_of w l' + (if m == w then (if is_paid out then k else 0) else 0))
      × (l'.credited_proofs ≡ l.credited_proofs)
unfolding spend_from balance_of
spend_from_lem none m k w l e v = (v, ground arith, refl)
spend_from_lem (some b) m k w l e v = ground (
  arith,
  insert-Ascends 0 m (b - k) l.balances (omega arith) v.accounts,
  lookup-insert 0 m w (b - k) l.balances v.accounts,
  e,
)

module _ (c : Signatures) where
  credit_repair_lem :
      (p : ErasureRepairProof) (w : ℕ) (l : EnergyCreditLedger)
      → IsLedger l
      → let (out, l') = credit_repair c p l in
        IsLedger l'
        × (balance_of w l'
            ≤ balance_of w l
              + (if p.worker_pk == w then (if is_credited out then 10 else 0) else 0))
  unfolding credit_repair balance_of
  credit_repair_lem p w l v =
      let bal = min (balance_of p.worker_pk l + 10) (2 ^ 64 - 1) in
      ground (
        arith,
        insert-Ascends 0 p.worker_pk bal l.balances (omega arith) v.accounts,
        insert-Ascends 0 (proof_id c p) p.epoch l.credited_proofs (omega arith) v.proofs,
        lookup-insert 0 p.worker_pk w bal l.balances v.accounts,
      )

  -- A ledger after an operation; what the operation earns for and takes from the worker `w`.
  unfoldable pub act : Op → EnergyCreditLedger → EnergyCreditLedger
  unfolding credit_repair spend_for_priority
  act (repair p) l = (credit_repair c p l).1
  act (spend m k) l = (spend_for_priority m k l).1

  unfoldable pub earned : ℕ → Op → EnergyCreditLedger → ℕ
  unfolding credit_repair
  earned w (repair p) l =
      if p.worker_pk == w then (if is_credited (credit_repair c p l).0 then 10 else 0) else 0
  earned w (spend m k) l = 0

  unfoldable pub spent : ℕ → Op → EnergyCreditLedger → ℕ
  unfolding spend_for_priority
  spent w (repair p) l = 0
  spent w (spend m k) l =
      if m == w then (if is_paid (spend_for_priority m k l).0 then k else 0) else 0

  unfoldable pub act_all : List Op → EnergyCreditLedger → EnergyCreditLedger
  act_all [] l = l
  act_all (op ∷ ops) l = act_all ops (act op l)

  unfoldable pub earned_all : ℕ → List Op → EnergyCreditLedger → ℕ
  earned_all w [] l = 0
  earned_all w (op ∷ ops) l = earned w op l + earned_all w ops (act op l)

  unfoldable pub spent_all : ℕ → List Op → EnergyCreditLedger → ℕ
  spent_all w [] l = 0
  spent_all w (op ∷ ops) l = spent w op l + spent_all w ops (act op l)

  act_lem :
      (w : ℕ) (op : Op) (l : EnergyCreditLedger)
      → IsLedger l
      → IsLedger (act op l)
        × (balance_of w (act op l) + spent w op l ≤ balance_of w l + earned w op l)
  unfolding act earned spent spend_for_priority
  act_lem w (repair p) l v = let (v', more) = credit_repair_lem p w l v in (v', omega (arith, more))
  act_lem w (spend m k) l v =
      let (v', less, _) = spend_from_lem _ m k w l refl v in (v', omega (arith, less))

  within_from :
      (ops : List Op) (w : ℕ) (l : EnergyCreditLedger)
      → IsLedger l
      → balance_of w (act_all ops l) + spent_all w ops l ≤ balance_of w l + earned_all w ops l
  unfolding act_all earned_all spent_all
  within_from [] w l v = omega arith
  within_from (op ∷ ops) w l v =
      let (v', step) = act_lem w op l v in omega (arith, step, within_from ops w (act op l) v')

  new-IsLedger : IsLedger new
  unfolding new
  new-IsLedger = record { accounts = tt; proofs = tt }

  -- Over any sequence of repairs and payments, starting from an empty ledger, a worker's balance
  -- and payments together are at most ten times the worker's credited repairs.
  pub balance_of_earned :
      (ops : List Op) (w : ℕ)
      → balance_of w (act_all ops new) + spent_all w ops new ≤ earned_all w ops new
  balance_of_earned ops w =
      let start : balance_of w new ≡ 0 = (unfold balance_of new lookup in refl) in
      omega (arith, within_from ops w new new-IsLedger, start)

  abbrev is_used : ℕ → EnergyCreditLedger → Bool
  is_used id l = is_some (lookup id l.credited_proofs)

  used_act :
      (id : ℕ) (op : Op) (l : EnergyCreditLedger)
      → IsLedger l
      → is_used id l ≡ true
      → is_used id (act op l) ≡ true
  unfolding act credit_repair spend_for_priority
  used_act id (repair p) l v u =
      ground (arith, lookup-insert 0 (proof_id c p) id p.epoch l.credited_proofs v.proofs)
  used_act id (spend m k) l v u =
      ap (λ m. is_some (lookup id m)) (spend_from_lem _ m k id l refl v).2 ∙ u

  used_all :
      (ops : List Op) (id : ℕ) (l : EnergyCreditLedger)
      → IsLedger l
      → is_used id l ≡ true
      → is_used id (act_all ops l) ≡ true
  unfolding act_all
  used_all [] id l v u = u
  used_all (op ∷ ops) id l v u =
      used_all ops id (act op l) (act_lem 0 op l v).0 (used_act id op l v u)

  act_all-IsLedger :
      (ops : List Op) (l : EnergyCreditLedger) → IsLedger l → IsLedger (act_all ops l)
  unfolding act_all
  act_all-IsLedger [] l v = v
  act_all-IsLedger (op ∷ ops) l v = act_all-IsLedger ops (act op l) (act_lem 0 op l v).0

  credited-used :
      (p : ErasureRepairProof) (b : ℕ) (l : EnergyCreditLedger)
      → IsLedger l
      → (credit_repair c p l).0 ≡ credited b
      → is_used (proof_id c p) (credit_repair c p l).1 ≡ true
  unfolding credit_repair
  credited-used p b l v e =
      ground
        (arith, lookup-insert 0 (proof_id c p) (proof_id c p) p.epoch l.credited_proofs v.proofs)

  used-refused :
      (p : ErasureRepairProof) (b : ℕ) (l : EnergyCreditLedger)
      → is_used (proof_id c p) l ≡ true
      → (credit_repair c p l).0 ≢ credited b
  unfolding credit_repair
  used-refused p b l u = ground arith

  -- A proof identifier that was credited once, at any point of a ledger's life, is never credited
  -- again, whatever comes between.
  pub credit_repair_once :
      (before between : List Op) (p r : ErasureRepairProof) (b d : ℕ)
      → proof_id c r ≡ proof_id c p
      → (credit_repair c p (act_all before new)).0 ≡ credited b
      → (credit_repair c r (act_all between (credit_repair c p (act_all before new)).1)).0
        ≢ credited d
  credit_repair_once before between p r b d same e =
      let v = act_all-IsLedger before new new-IsLedger in
      let u =
        used_all between (proof_id c p) _ (credit_repair_lem p 0 _ v).0 (credited-used p b _ v e) in
      used-refused r d _ (rw same u)
