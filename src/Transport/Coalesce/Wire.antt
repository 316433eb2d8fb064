-- ===== src/Transport/Coalesce/Wire.antt =====
-- The wire form of a shard: `serialize_into` and `deserialize` of src/ghost/net/coalesce.rs.
use vantablack.Prelude.{
  ℕ, ◌+◌, ◌^◌, ◌≤◌, ◌<◌, ◌≡◌, refl, sym, ap, ◌∙◌, false, Option, none, some, ◌∷◌, ◌++◌,
  append_assoc, arith, ltb, if◌then◌else◌, length, take, drop, get_or, get_or-drop, length-append,
  length-drop, drop-drop, take_prefix, drop_prefix,
}
use vantablack.Prelude.Bytes.{
  Bytes, to_be_bytes, from_be_bytes, length-to_be_bytes, from_be_bytes-to_be_bytes,
}
use vantablack.Transport.Coalesce.{CoalescedShard, shard_payload_bytes}

-- `HEADER_LEN`
abbrev pub header_len : ℕ
header_len = 12

abbrev header : CoalescedShard → Bytes
header s = to_be_bytes 8 s.group_id ++ (s.shard_idx ∷ s.flags ∷ to_be_bytes 2 s.payload_len)

-- `serialize_into` overwrites the front of the buffer and returns how much; `none` for a buffer that
-- is too short.
unfoldable pub serialize_into : CoalescedShard → Bytes → Option (ℕ × Bytes)
serialize_into s buf =
    let total = header_len + shard_payload_bytes in
    if ltb (length buf) total
    then none
    else some (total, header s ++ (s.shard_data ++ drop total buf))

-- `deserialize`
unfoldable pub deserialize : Bytes → Option CoalescedShard
deserialize buf =
    let total = header_len + shard_payload_bytes in
    if ltb (length buf) total
    then none
    else some (record {
      group_id = from_be_bytes (take 8 buf);
      shard_idx = get_or buf 8 0;
      flags = get_or buf 9 0;
      payload_len = from_be_bytes (take 2 (drop 10 buf));
      shard_data = take shard_payload_bytes (drop header_len buf);
    })

-- The ranges of the fields' types.
pub record IsShard (s : CoalescedShard) : Type 0 where
  pub id_fits : s.group_id < 2 ^ 64
  pub len_fits : s.payload_len < 2 ^ 16
  pub full : length s.shard_data ≡ shard_payload_bytes

length-written :
    (s : CoalescedShard) (buf : Bytes)
    → IsShard s
    → 504 ≤ length buf
    → length (header s ++ (s.shard_data ++ drop 504 buf)) ≡ length buf
length-written s buf v h =
    omega (arith, length-append s.shard_data (drop 504 buf), length-drop 504 buf, v.full)

fits_lem : (n : ℕ) → 504 ≤ n → ltb n 504 ≡ false
fits_lem n h = ground arith

module _ (g l d rest : Bytes) (i f : ℕ) where
  abbrev written : Bytes
  written = (g ++ (i ∷ f ∷ l)) ++ (d ++ rest)

  flat : written ≡ g ++ (i ∷ f ∷ (l ++ (d ++ rest)))
  flat = append_assoc g (i ∷ f ∷ l) (d ++ rest)

  tail_at : (n : ℕ) → length g ≡ 8 → drop (8 + n) written ≡ drop n (i ∷ f ∷ (l ++ (d ++ rest)))
  tail_at n h =
      ap (drop (8 + n)) flat
      ∙ sym (drop-drop n 8 (g ++ (i ∷ f ∷ (l ++ (d ++ rest)))))
      ∙ ap (drop n) (drop_prefix 8 g (i ∷ f ∷ (l ++ (d ++ rest))) (sym h))

  long_enough :
      length g ≡ 8
      → length l ≡ 2
      → length d ≡ shard_payload_bytes
      → ltb (length written) (header_len + shard_payload_bytes) ≡ false
  long_enough hg hl hd =
      let n : 504 ≤ length written = omega (
        arith,
        length-append (g ++ (i ∷ f ∷ l)) (d ++ rest),
        length-append g (i ∷ f ∷ l),
        length-append d rest,
      ) in
      fits_lem (length written) n

  -- A buffer made of the fields is read field by field.
  deserialize_parts :
      length g ≡ 8
      → length l ≡ 2
      → length d ≡ shard_payload_bytes
      → deserialize written
        ≡ some (record {
          group_id = from_be_bytes g;
          shard_idx = i;
          flags = f;
          payload_len = from_be_bytes l;
          shard_data = d;
        })
  unfolding deserialize
  deserialize_parts hg hl hd =
      let long : ltb (length written) 504 ≡ false = long_enough hg hl hd in
      let id : take 8 written ≡ g =
        ap (take 8) flat ∙ take_prefix 8 g (i ∷ f ∷ (l ++ (d ++ rest))) (sym hg) in
      let idx : get_or written 8 0 ≡ i =
        sym (get_or-drop 8 0 written 0) ∙ ap (λ t. get_or t 0 0) (tail_at 0 hg) in
      let flg : get_or written 9 0 ≡ f =
        sym (get_or-drop 8 1 written 0) ∙ ap (λ t. get_or t 1 0) (tail_at 0 hg) in
      let len : take 2 (drop 10 written) ≡ l =
        ap (take 2) (tail_at 2 hg) ∙ take_prefix 2 l (d ++ rest) (sym hl) in
      let body : take 492 (drop 12 written) ≡ d =
        ap (take 492) (tail_at 4 hg ∙ drop_prefix 2 l (d ++ rest) (sym hl))
        ∙ take_prefix 492 d rest (sym hd) in
      rw (long, id, idx, flg, len, body) refl

read_back :
    (s : CoalescedShard) (rest : Bytes)
    → IsShard s
    → deserialize (header s ++ (s.shard_data ++ rest)) ≡ some s
read_back s rest v =
    deserialize_parts (to_be_bytes 8 s.group_id) (to_be_bytes 2 s.payload_len) s.shard_data rest
      s.shard_idx s.flags (length-to_be_bytes 8 s.group_id) (length-to_be_bytes 2 s.payload_len)
      v.full
    ∙ (let id = from_be_bytes-to_be_bytes 8 s.group_id v.id_fits in
        let len = from_be_bytes-to_be_bytes 2 s.payload_len v.len_fits in
        λ j. some (record s { group_id = id j; payload_len = len j }))

-- A shard whose fields fit their types, written into a buffer of at least 504 bytes, takes 504
-- bytes and is read back from the buffer as it was; the buffer keeps its length and what follows
-- the shard.
pub deserialize-serialize_into :
    (s : CoalescedShard) (buf : Bytes)
    → IsShard s
    → header_len + shard_payload_bytes ≤ length buf
    → (out : Bytes) × (serialize_into s buf ≡ some (header_len + shard_payload_bytes, out))
      × (deserialize out ≡ some s)
      × (length out ≡ length buf)
      × (drop 504 out ≡ drop 504 buf)
unfolding serialize_into
deserialize-serialize_into s buf v h =
    let len = length-written s buf v h in
    let fits : ltb (length buf) 504 ≡ false = fits_lem (length buf) h in
    (
      header s ++ (s.shard_data ++ drop 504 buf),
      rw fits refl,
      read_back s (drop 504 buf) v,
      len,
      drop_prefix 492 s.shard_data (drop 504 buf) (sym v.full),
    )
