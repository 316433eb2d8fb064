-- ===== src/Traversal/Samples.antt =====
-- Addresses and a stand-in for the digests, for the tests of the STUN codec and the TURN relay.
use vantablack.Prelude.{ℕ, ◌+◌, ◌%◌, true, [], ◌∷◌, length, replicate, length-replicate, refl, ◌≡◌}
use vantablack.Prelude.Bytes.{Bytes}
use vantablack.Traversal.Address.{SocketAddr, IpAddr, v4}
use vantablack.Traversal.Stun.Encode.{Crypto}

abbrev pub total : Bytes → ℕ
total [] = 0
total (b ∷ more) = b + total more

abbrev pub sum_tag : Bytes → Bytes → Bytes
sum_tag key m = replicate 20 ((total key + total m) % 256)

pub length-sum_tag : (key m : Bytes) → length (sum_tag key m) ≡ 20
length-sum_tag key m = length-replicate {A = ℕ} 20 ((total key + total m) % 256)

-- Sums in place of HMAC-SHA1 and MD5.
abbrev pub sums : Crypto
sums = record {
  accepts_key = λ key. true;
  hmac_sha1 = sum_tag;
  md5 = λ b. b;
  accepts_key_any = λ key. refl;
  length-hmac_sha1 = length-sum_tag;
}

abbrev pub txid : Bytes
txid = 1 ∷ 2 ∷ 3 ∷ 4 ∷ 5 ∷ 6 ∷ 7 ∷ 8 ∷ 9 ∷ 10 ∷ 11 ∷ 12 ∷ []

abbrev pub client : SocketAddr
client = record { ip = v4 (10 ∷ 0 ∷ 0 ∷ 2 ∷ []); port = 5000 }

abbrev pub peer : SocketAddr
peer = record { ip = v4 (203 ∷ 0 ∷ 113 ∷ 9 ∷ []); port = 9000 }

abbrev pub relay : IpAddr
relay = v4 (192 ∷ 0 ∷ 2 ∷ 1 ∷ [])
