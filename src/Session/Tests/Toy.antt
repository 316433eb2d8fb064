-- ===== src/Session/Tests/Toy.antt =====
-- Primitives that compute: the message before the key, and a prefix of the input key material.
use vantablack.Prelude.{[], ◌∷◌, ◌++◌, take}
use vantablack.Prelude.Bytes.{Bytes}
use vantablack.Session.Kdf.{Primitives}

abbrev pub toy : Primitives
toy = record {
  hmac = λ key message. message ++ key;
  hkdf = λ salt ikm info n. take n (ikm ++ salt ++ info);
}

abbrev pub master : Bytes
master = 7 ∷ 8 ∷ 9 ∷ []
