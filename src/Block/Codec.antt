-- ===== src/Block/Codec.antt =====
-- The serializers and deserializers of src/core/block.c.
use vulkan_core.Common.{ℕ, zero, suc, List, [], ◌∷◌, ltb, if◌then◌else◌}
use vulkan_core.Exec.{Action, Exec, done, ◌>>=◌, ◌>>◌}
use vulkan_core.Check.{Check}
use vulkan_core.Buffer.Serialized.{to_serialized, from_serialized}
use vulkan_core.Buffer.{Heap, Buffer, write, write_uint32, write_uint64, write_bytes32}
use vulkan_core.Buffer.Iterator.{Iterator, read_uint32, read_uint64}
use vulkan_core.Transaction.{hash_size, for_each}
use vulkan_core.Transaction.Codec.{read_fixed, serialize_transaction, deserialize_transaction}
use vulkan_core.Block.{Block, make_block}

-- A loop that reads `n` elements into an array that is allocated before.
unfoldable pub read_many : {A : Type 0} → Exec Iterator A → ℕ → Exec Iterator (List A)
read_many read zero = done []
read_many read (suc n) = read >>= λ x. read_many read n >>= λ xs. done (x ∷ xs)

module _ (h : Heap) where
  unfoldable pub serialize_block_header : Block → Action Buffer
  serialize_block_header b = do
    write_uint32 h b.version
    write_uint32 h b.timestamp
    write_uint32 h b.nonce
    write_uint32 h b.bits
    write_uint64 h b.cumulative_emission
    write h b.previous_hash
    write h b.merkle_root

  unfoldable pub serialize_block : Block → Action Buffer
  serialize_block b = do
    write_uint32 h b.version
    write_bytes32 h b.previous_hash
    write_bytes32 h b.hash
    write_uint32 h b.timestamp
    write_uint32 h b.nonce
    write_uint32 h b.bits
    write_uint64 h b.cumulative_emission
    write_bytes32 h b.merkle_root
    write_uint32 h b.transaction_count

  unfoldable pub serialize_transactions_from_block : Block → Action Buffer
  serialize_transactions_from_block b =
      for_each b.transaction_count b.transactions (serialize_transaction h)

  unfoldable pub deserialize_block : Exec Iterator Block
  deserialize_block = do
    v ← read_uint32
    previous ← read_fixed h hash_size
    own ← read_fixed h hash_size
    time ← read_uint32
    n ← read_uint32
    compact ← read_uint32
    emission ← read_uint64
    root ← read_fixed h hash_size
    count ← read_uint32
    done (record make_block {
      version = v;
      previous_hash = previous;
      hash = own;
      timestamp = time;
      nonce = n;
      bits = compact;
      cumulative_emission = emission;
      merkle_root = root;
      transaction_count = count;
    })

  -- The block with its transactions. Where a transaction cannot be read, the caller is left with
  -- the block, its count, and an array that is filled in part.
  unfoldable pub deserialize_transactions_to_block : Block → Exec Iterator Block
  deserialize_transactions_to_block b =
      if ltb 0 b.transaction_count
      then (read_many (deserialize_transaction h) b.transaction_count >>= λ txs.
          done (record b { transactions = txs }))
      else done b

  unfoldable pub block_to_serialized : Block → Check (List ℕ)
  unfolding serialize_block
  block_to_serialized b = to_serialized h (serialize_block b)

  unfoldable pub block_from_serialized : List ℕ → ℕ → Check Block
  unfolding deserialize_block
  block_from_serialized bytes n = from_serialized h deserialize_block bytes n
