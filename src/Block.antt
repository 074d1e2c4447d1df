-- ===== src/Block.antt =====
-- src/core/block.h and the operations on a block of src/core/block.c.
pub mod Codec
pub mod RoundTrip
pub mod Hash
pub mod Commit
pub mod Valid
pub mod TxId
pub mod Root
pub mod Copy
mod Tests
use vulkan_core.Common.{
  ℕ, zero, suc, ◌+◌, ◌*◌, ◌-◌, ◌%◌, ◌^◌, ◌<◌, ◌≡◌, Bool, true, ◌&&◌, Option, none, some, List, [],
  ◌∷◌, ◌++◌, length, replicate, All, ltb, leb, ◌==◌, if◌then◌else◌,
}
use vulkan_core.Exec.{ok, fault, Action, done, stop, ◌>>◌}
use vulkan_core.Crypto.{compare_hash}
use vulkan_core.Transaction.{Transaction, TransactionIsValid, hash_size, next_count, at_end}
use vulkan_core.Transaction.Sign.{get_tx_header_size}
use vulkan_core.Transaction.Compare.{compare_transaction, and_also}

abbrev pub block_version : ℕ
block_version = 0x01

-- Larger than the header that is serialized, which has 88 bytes.
abbrev pub block_header_size : ℕ
block_header_size = hash_size + hash_size + 8 + 8 + 8 + 4 + 4 + 4

abbrev pub max_block_size : ℕ
max_block_size = 1024 * 1024 * 512

abbrev pub max_future_block_time : ℕ
max_future_block_time = 60 * 60 * 2

-- `block_t`. The array of transactions is a list, empty for `NULL`.
pub record Block : Type 0 where
  pub version : ℕ
  pub previous_hash : List ℕ
  pub hash : List ℕ
  pub timestamp : ℕ
  pub nonce : ℕ
  pub bits : ℕ
  pub cumulative_emission : ℕ
  pub merkle_root : List ℕ
  pub transaction_count : ℕ
  pub transactions : List Transaction

abbrev pub make_block : Block
make_block = record {
  version = block_version;
  previous_hash = replicate hash_size 0;
  hash = replicate hash_size 0;
  timestamp = 0;
  nonce = 0;
  bits = 0;
  cumulative_emission = 0;
  merkle_root = replicate hash_size 0;
  transaction_count = 0;
  transactions = [];
}

-- `now` is what `get_current_time` returns, a uint32_t; the sum wraps.
unfoldable pub valid_block_timestamp : ℕ → Block → Bool
valid_block_timestamp now b = leb b.timestamp ((now + max_future_block_time) % 2 ^ 32)

-- The loop of `get_block_header_size`; past the end of the array is a fault.
unfoldable pub add_header_sizes : ℕ → List Transaction → ℕ → Option ℕ
add_header_sizes zero txs size = some size
add_header_sizes (suc n) [] size = none
add_header_sizes (suc n) (tx ∷ txs) size =
    add_header_sizes n txs ((size + get_tx_header_size tx) % 2 ^ 32)

unfoldable pub get_block_header_size : Block → Option ℕ
unfolding add_header_sizes
get_block_header_size b = add_header_sizes b.transaction_count b.transactions block_header_size

unfoldable pub add_transaction_to_block : Transaction → ℕ → Action Block
add_transaction_to_block tx tx_index b =
    if at_end tx_index (next_count b.transaction_count)
    then ok tt (record b {
      transaction_count = next_count b.transaction_count;
      transactions = b.transactions ++ tx ∷ [];
    })
    else fault

-- The loop of `add_transactions_to_block`, at `i` with `n` transactions left: the generation
-- transaction already stands at index 0.
unfoldable pub add_transactions_from : ℕ → ℕ → List Transaction → Action Block
add_transactions_from zero i txs = done tt
add_transactions_from (suc n) i [] = stop
add_transactions_from (suc n) i (tx ∷ txs) =
    add_transaction_to_block tx (i + 1) >> add_transactions_from n (i + 1) txs

unfoldable pub add_transactions_to_block : List Transaction → ℕ → Action Block
unfolding add_transactions_from
add_transactions_to_block txs num_transactions = add_transactions_from num_transactions 0 txs

-- The loop of `get_tx_by_hash_from_block`: `some none` stands for `NULL`, `none` is a fault.
unfoldable pub find_transaction : ℕ → List Transaction → List ℕ → Option (Option Transaction)
find_transaction zero txs tx_hash = some none
find_transaction (suc n) [] tx_hash = none
find_transaction (suc n) (tx ∷ txs) tx_hash =
    let rest = find_transaction n txs tx_hash in
    if compare_hash tx.id tx_hash then some (some tx) else rest

unfoldable pub get_tx_by_hash_from_block : Block → List ℕ → Option (Option Transaction)
unfolding find_transaction
get_tx_by_hash_from_block b tx_hash = find_transaction b.transaction_count b.transactions tx_hash

-- The loop over the transactions of two blocks.
unfoldable pub compare_transactions : ℕ → List Transaction → List Transaction → Option Bool
compare_transactions zero ts us = some true
compare_transactions (suc n) [] us = none
compare_transactions (suc n) (t ∷ ts) [] = none
compare_transactions (suc n) (t ∷ ts) (u ∷ us) =
    and_also (compare_transaction t u) (compare_transactions n ts us)

unfoldable pub compare_block : Block → Block → Option Bool
compare_block b c =
    and_also (some result) (compare_transactions b.transaction_count b.transactions c.transactions)
  where
    result : Bool
    result =
        b.version == c.version
        && (compare_hash b.previous_hash c.previous_hash
            && (compare_hash b.hash c.hash
                && (b.timestamp == c.timestamp
                    && (b.nonce == c.nonce
                        && (b.bits == c.bits
                            && (b.cumulative_emission == c.cumulative_emission
                                && (compare_hash b.merkle_root c.merkle_root
                                    && b.transaction_count == c.transaction_count)))))))

-- The arrays of the C struct have their declared sizes, its integers their widths, and the count
-- tells the length of the array.
pub record BlockIsValid (b : Block) : Type 0 where
  pub version_width : b.version < 2 ^ 32
  pub previous_size : length b.previous_hash ≡ hash_size
  pub hash_length : length b.hash ≡ hash_size
  pub timestamp_width : b.timestamp < 2 ^ 32
  pub nonce_width : b.nonce < 2 ^ 32
  pub bits_width : b.bits < 2 ^ 32
  pub emission_width : b.cumulative_emission < 2 ^ 64
  pub root_size : length b.merkle_root ≡ hash_size
  pub counted : b.transaction_count ≡ length b.transactions
  pub count_width : length b.transactions < 2 ^ 32
  pub transactions_valid : All TransactionIsValid b.transactions
