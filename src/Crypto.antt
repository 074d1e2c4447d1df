-- ===== src/Crypto.antt =====
-- src/crypto/cryptoutil.c and src/crypto/sha256d.c.
use vulkan_core.Common.{ℕ, Bool, List, same_bytes, Option, none, some}

abbrev pub compare_hash : List ℕ → List ℕ → Bool
compare_hash = same_bytes

abbrev pub compare_address : List ℕ → List ℕ → Bool
compare_address = same_bytes

abbrev pub compare_signature : List ℕ → List ℕ → Bool
compare_signature = same_bytes

-- As in the source, the first key is compared with itself.
abbrev pub compare_public_key : List ℕ → List ℕ → Bool
compare_public_key key other = same_bytes key key

-- `crypto_hash_sha256d`; `sha256` is libsodium's, `none` its failure.
unfoldable pub sha256d : (List ℕ → Option (List ℕ)) → List ℕ → Option (List ℕ)
sha256d sha256 bytes = elim (sha256 bytes) [ none ↦ none | some once ↦ sha256 once ]
