-- ===== src/Sync/Dtn/Wire.antt =====
-- The transmission form of a bundle: `to_skywave_payload` and `from_skywave_payload` of
-- src/ghost/net/dtn_reconcile.rs.
use vantablack.Prelude.{
  ℕ, ◌+◌, ◌^◌, ◌≤◌, ◌<◌, ◌≡◌, refl, sym, ap, ◌∙◌, true, false, some, ◌++◌, arith, ltb, length, take,
  drop, length-append, drop-drop, take_prefix, drop_prefix, take_all,
}
use vantablack.Prelude.Bytes.{
  equal, Bytes, to_be_bytes, from_be_bytes, length-to_be_bytes, from_be_bytes-to_be_bytes,
}
use vantablack.Sync.Dtn.{DtnBundle, dtn_reconcile_magic, to_skywave_payload, from_skywave_payload}

-- The ranges of the fields' types, and a payload whose length 32 bits can hold.
pub record IsBundle (b : DtnBundle) : Type 0 where
  pub id_fits : b.bundle_id < 2 ^ 128
  pub sequence_fits : b.sequence < 2 ^ 64
  pub hash_full : length b.payload_hash ≡ 32
  pub payload_fits : length b.payload < 2 ^ 32

-- Six pieces in a row.
module _ (mg i s h l p : Bytes) (hm : length mg ≡ 4) (hi : length i ≡ 16) (hs : length s ≡ 8)
    (hh : length h ≡ 32) (hl : length l ≡ 4) where
  abbrev row : Bytes
  row = mg ++ (i ++ (s ++ (h ++ (l ++ p))))

  after_magic : drop 4 row ≡ i ++ (s ++ (h ++ (l ++ p)))
  after_magic = drop_prefix 4 mg _ (sym hm)

  after_id : drop 20 row ≡ s ++ (h ++ (l ++ p))
  after_id = sym (drop-drop 16 4 row) ∙ ap (drop 16) after_magic ∙ drop_prefix 16 i _ (sym hi)

  after_sequence : drop 28 row ≡ h ++ (l ++ p)
  after_sequence = sym (drop-drop 8 20 row) ∙ ap (drop 8) after_id ∙ drop_prefix 8 s _ (sym hs)

  after_hash : drop 60 row ≡ l ++ p
  after_hash = sym (drop-drop 32 28 row) ∙ ap (drop 32) after_sequence ∙ drop_prefix 32 h _ (sym hh)

  after_length : drop 64 row ≡ p
  after_length = sym (drop-drop 4 60 row) ∙ ap (drop 4) after_hash ∙ drop_prefix 4 l _ (sym hl)

  length-row : length row ≡ 64 + length p
  length-row = omega (
    arith,
    length-append mg (i ++ (s ++ (h ++ (l ++ p)))),
    length-append i (s ++ (h ++ (l ++ p))),
    length-append s (h ++ (l ++ p)),
    length-append h (l ++ p),
    length-append l p,
  )

  -- A row that starts with the magic and tells its length is read piece by piece.
  from_skywave_payload-row :
      equal mg dtn_reconcile_magic ≡ true
      → from_be_bytes l ≡ length p
      → from_skywave_payload row
        ≡ some (record {
          bundle_id = from_be_bytes i;
          sequence = from_be_bytes s;
          payload_hash = h;
          payload = p;
        })
  unfolding from_skywave_payload
  from_skywave_payload-row magic tells =
      let long : ltb (length row) 64 ≡ false =
        ltb_false (length row) 64 (omega (arith, length-row)) in
      let all_there : ltb (length row) (64 + length p) ≡ false =
        ltb_false (length row) (64 + length p) (omega (arith, length-row)) in
      let m : take 4 row ≡ mg = take_prefix 4 mg _ (sym hm) in
      let f₁ : take 16 (drop 4 row) ≡ i = ap (take 16) after_magic ∙ take_prefix 16 i _ (sym hi) in
      let f₂ : take 8 (drop 20 row) ≡ s = ap (take 8) after_id ∙ take_prefix 8 s _ (sym hs) in
      let f₃ : take 32 (drop 28 row) ≡ h =
        ap (take 32) after_sequence ∙ take_prefix 32 h _ (sym hh) in
      let f₄ : take 4 (drop 60 row) ≡ l = ap (take 4) after_hash ∙ take_prefix 4 l _ (sym hl) in
      let f₅ : take (length p) (drop 64 row) ≡ p =
        ap (take (length p)) after_length ∙ take_all (length p) p (omega arith) in
      rw (m, magic, f₄, tells, long, all_there, f₁, f₂, f₃, f₅) refl
    where
      ltb_false : (n m : ℕ) → m ≤ n → ltb n m ≡ false
      ltb_false n m h = ground arith

-- A bundle whose fields fit their types and whose payload is shorter than 2^32 bytes is read back
-- from its transmission form as it was.
pub from_skywave_payload-to_skywave_payload :
    (b : DtnBundle) → IsBundle b → from_skywave_payload (to_skywave_payload b) ≡ some b
unfolding to_skywave_payload
from_skywave_payload-to_skywave_payload b v =
    from_skywave_payload-row dtn_reconcile_magic (to_be_bytes 16 b.bundle_id)
      (to_be_bytes 8 b.sequence) b.payload_hash (to_be_bytes 4 (length b.payload)) b.payload refl
      (length-to_be_bytes 16 b.bundle_id) (length-to_be_bytes 8 b.sequence) v.hash_full
      (length-to_be_bytes 4 (length b.payload)) refl
      (from_be_bytes-to_be_bytes 4 (length b.payload) v.payload_fits)
    ∙ (let id = from_be_bytes-to_be_bytes 16 b.bundle_id v.id_fits in
        let sequence = from_be_bytes-to_be_bytes 8 b.sequence v.sequence_fits in
        λ j. some (record b { bundle_id = id j; sequence = sequence j }))
