-- ===== src/Sync/Dtn.antt =====
-- Bundles and their stores (src/ghost/net/dtn_reconcile.rs). SHA-256 is a crate's and stands as a
-- parameter; the 16 bytes of a bundle's identifier are the number that they write, in whose order a
-- `BTreeMap` keeps them.
pub mod Wire
pub mod Union
use vantablack.Prelude.{
  ℕ, suc, ◌+◌, ◌*◌, ◌^◌, Bool, true, false, not, ◌&&◌, ◌||◌, Option, none, some, List, [], ◌∷◌,
  ◌++◌, map, ltb, ◌==◌, if◌then◌else◌, length, take, drop, replicate, mem,
}
use vantablack.Prelude.Bytes.{Bytes, codes, to_be_bytes, from_be_bytes, equal}
use vantablack.Prelude.Assoc.{Map, lookup, insert}

-- `DTN_RECONCILE_MAGIC`
abbrev pub dtn_reconcile_magic : Bytes
dtn_reconcile_magic = codes "MREC"

pub record DtnBundle : Type 0 where
  pub bundle_id : ℕ
  pub sequence : ℕ
  pub payload_hash : Bytes
  pub payload : Bytes

-- `to_skywave_payload`; the length is cast to 32 bits.
unfoldable pub to_skywave_payload : DtnBundle → Bytes
to_skywave_payload b =
    dtn_reconcile_magic
    ++ (to_be_bytes 16 b.bundle_id
        ++ (to_be_bytes 8 b.sequence
            ++ (b.payload_hash ++ (to_be_bytes 4 (length b.payload) ++ b.payload))))

-- `from_skywave_payload`
unfoldable pub from_skywave_payload : Bytes → Option DtnBundle
from_skywave_payload bytes =
    let payload_len = from_be_bytes (take 4 (drop 60 bytes)) in
    if ltb (length bytes) 64 || not (equal (take 4 bytes) dtn_reconcile_magic)
    then none
    else if ltb (length bytes) (64 + payload_len)
    then none
    else some (record {
      bundle_id = from_be_bytes (take 16 (drop 4 bytes));
      sequence = from_be_bytes (take 8 (drop 20 bytes));
      payload_hash = take 32 (drop 28 bytes);
      payload = take payload_len (drop 64 bytes);
    })

-- `DtnMerkleTree`
pub record DtnMerkleTree : Type 0 where
  pub bundles : Map DtnBundle

-- `DtnMerkleTree::new`
unfoldable pub new : DtnMerkleTree
new = record { bundles = [] }

-- `DtnMerkleTree::insert`
unfoldable pub insert_bundle : DtnBundle → DtnMerkleTree → DtnMerkleTree
insert_bundle b t = record { bundles = insert b.bundle_id b t.bundles }

-- `compute_missing_from`
unfoldable pub missing_from : List ℕ → Map DtnBundle → List DtnBundle
missing_from remote_known_ids [] = []
missing_from remote_known_ids ((id, b) ∷ m) =
    if mem id remote_known_ids
    then missing_from remote_known_ids m
    else b ∷ missing_from remote_known_ids m

unfoldable pub compute_missing_from : List ℕ → DtnMerkleTree → List DtnBundle
unfolding missing_from
compute_missing_from remote_known_ids t = missing_from remote_known_ids t.bundles

-- `splice_incoming`: a vacant entry takes the bundle and is counted.
unfoldable pub splice : Option DtnBundle → DtnBundle → Map DtnBundle → ℕ × Map DtnBundle
splice none b m = (1, insert b.bundle_id b m)
splice (some old) b m = (0, m)

unfoldable pub splice_all : List DtnBundle → Map DtnBundle → ℕ × Map DtnBundle
unfolding splice
splice_all [] m = (0, m)
splice_all (b ∷ incoming) m =
    let (one, m') = splice (lookup b.bundle_id m) b m in
    let (added, m'') = splice_all incoming m' in (one + added, m'')

unfoldable pub splice_incoming : List DtnBundle → DtnMerkleTree → ℕ × DtnMerkleTree
unfolding splice_all
splice_incoming incoming t =
    let (added, m) = splice_all incoming t.bundles in (added, record { bundles = m })

abbrev pub keys : Map DtnBundle → List ℕ
keys m = map (λ e. e.0) m

module _ (sha256 : Bytes → Bytes) where
  -- `DtnBundle::new`
  unfoldable pub new_bundle : ℕ → ℕ → Bytes → DtnBundle
  new_bundle bundle_id sequence payload = record {
    bundle_id = bundle_id;
    sequence = sequence;
    payload_hash = sha256 payload;
    payload = payload;
  }

  -- `leaf_hash`
  unfoldable pub leaf_hash : DtnBundle → Bytes
  leaf_hash b = sha256 (
      codes "GGN_DTN_LEAF_V1"
      ++ (to_be_bytes 16 b.bundle_id ++ (to_be_bytes 8 b.sequence ++ b.payload_hash)))

  unfoldable pub leaves : Map DtnBundle → Bytes
  unfolding leaf_hash
  leaves [] = []
  leaves ((id, b) ∷ m) = leaf_hash b ++ leaves m

  -- `root_hash`
  unfoldable pub root_hash : DtnMerkleTree → Bytes
  unfolding leaves
  root_hash t =
      if length t.bundles == 0
      then replicate 32 0
      else sha256 (codes "GGN_DTN_ROOT_V1" ++ leaves t.bundles)

  -- `reconcile_blackout_stores`: what was added to the first and to the second store, and the stores.
  unfoldable pub reconcile_blackout_stores :
      DtnMerkleTree → DtnMerkleTree → (ℕ × ℕ) × (DtnMerkleTree × DtnMerkleTree)
  unfolding root_hash compute_missing_from splice_incoming
  reconcile_blackout_stores node_a node_b =
      let missing_on_b = compute_missing_from (keys node_b.bundles) node_a in
      let missing_on_a = compute_missing_from (keys node_a.bundles) node_b in
      let (added_to_b, b') = splice_incoming missing_on_b node_b in
      let (added_to_a, a') = splice_incoming missing_on_a node_a in
      if equal (root_hash node_a) (root_hash node_b)
      then ((0, 0), (node_a, node_b))
      else ((added_to_a, added_to_b), (a', b'))
