-- ===== src/Relay/Bundles.antt =====
-- `BundleBuffer` of src/ghost/net/relay.rs, the store of bundles that wait for a contact. An
-- `Instant` is its nanoseconds, and the clock's reading is an argument.
pub mod Queue
pub mod Refine
mod Tests
use vantablack.Prelude.{
  ℕ, suc, ◌+◌, ◌-◌, ◌*◌, Bool, true, false, not, Option, none, some, List, [], ◌∷◌, ◌++◌, ltb, ◌==◌,
  if◌then◌else◌, length,
}
use vantablack.Prelude.Bytes.{Bytes}
use vantablack.Prelude.Dict.{Dict, lookup, insert, remove}

-- `BUNDLE_EXPIRY_SECS`, in nanoseconds.
abbrev pub bundle_expiry : ℕ
bundle_expiry = 3600 * 1000000000

pub record Bundle : Type 0 where
  pub target_fingerprint : Bytes
  pub encrypted_shards : List Bytes
  pub session_hash : Bytes
  pub created_at : ℕ
  pub retries : ℕ
  pub remaining_route : List Bytes

pub record BundleBuffer : Type 0 where
  pub bundles : Dict (List Bundle)
  pub running : Bool

-- `default` and `new`
unfoldable pub new : BundleBuffer
new = record { bundles = []; running = true }

abbrev pub or_default : Option (List Bundle) → List Bundle
or_default none = []
or_default (some l) = l

-- `enqueue`
unfoldable pub enqueue : Bundle → BundleBuffer → BundleBuffer
enqueue b buf =
    let fp = b.target_fingerprint in
    record buf { bundles = insert fp (or_default (lookup fp buf.bundles) ++ (b ∷ [])) buf.bundles }

-- `dequeue_for`
unfoldable pub dequeue_for : Bytes → BundleBuffer → List Bundle × BundleBuffer
dequeue_for peer_fp buf =
    (or_default (lookup peer_fp buf.bundles), record buf { bundles = remove peer_fp buf.bundles })

-- `created_at.elapsed() < cutoff`
unfoldable pub is_fresh : ℕ → Bundle → Bool
is_fresh now b = ltb (now - b.created_at) bundle_expiry

-- The inner `retain`, and how many it drops.
abbrev pub retain_fresh : ℕ → List Bundle → List Bundle
retain_fresh now [] = []
retain_fresh now (b ∷ l) =
    let rest = retain_fresh now l in if is_fresh now b then b ∷ rest else rest

abbrev pub count_stale : ℕ → List Bundle → ℕ
count_stale now [] = 0
count_stale now (b ∷ l) = (if is_fresh now b then 0 else 1) + count_stale now l

-- An entry whose list has become empty goes.
abbrev pub retain_entry : Bytes → List Bundle → Dict (List Bundle) → Dict (List Bundle)
retain_entry fp [] rest = rest
retain_entry fp (b ∷ l) rest = (fp, b ∷ l) ∷ rest

-- The outer `retain`.
abbrev pub retain_some : ℕ → Dict (List Bundle) → Dict (List Bundle)
retain_some now [] = []
retain_some now ((fp, l) ∷ d) = retain_entry fp (retain_fresh now l) (retain_some now d)

abbrev pub count_expired : ℕ → Dict (List Bundle) → ℕ
count_expired now [] = 0
count_expired now ((fp, l) ∷ d) = count_stale now l + count_expired now d

-- `expire_old`, with one reading of the clock for all bundles; the source reads it at each.
unfoldable pub expire_old : ℕ → BundleBuffer → ℕ × BundleBuffer
expire_old now buf =
    (count_expired now buf.bundles, record buf { bundles = retain_some now buf.bundles })

-- `has_pending`
unfoldable pub has_pending : Bytes → BundleBuffer → Bool
has_pending peer_fp buf = not (length (or_default (lookup peer_fp buf.bundles)) == 0)
