-- ===== src/Block/Hash.antt =====
-- The hashes of src/core/block.c and src/core/transaction.c: `compute_block_hash`,
-- `compute_tx_id` and `compute_merkle_root`.
use vulkan_core.Common.{
  ℕ, zero, suc, ◌+◌, ◌*◌, ◌%◌, ◌^◌, Option, none, some, List, [], ◌∷◌, ◌==◌, if◌then◌else◌,
}
use vulkan_core.Exec.{Outcome, ok, error, fault}
use vulkan_core.Check.{Check, crash, reject, pass, ◌>>=◌, guard, access}
use vulkan_core.Crypto.{compare_hash}
use vulkan_core.Buffer.{Heap, Buffer, load, store, init_size, ignoring}
use vulkan_core.Buffer.Serialized.{fill, allocate}
use vulkan_core.Transaction.{Transaction, hash_size}
use vulkan_core.Transaction.Codec.{serialize_transaction_header}
use vulkan_core.Transaction.Sign.{get_tx_header_size}
use vulkan_core.Merkle.{MerkleNode, hash_of, construct_merkle_tree_from_leaves}
use vulkan_core.Block.{Block, block_header_size}
use vulkan_core.Block.Codec.{serialize_block_header}

-- The copy of the first `n` bytes of `buffer->data`; an error of the writer is the result 1.
unfoldable pub header_bytes : ℕ → Outcome Buffer (Unit {0}) → Check (List ℕ)
header_bytes n fault = crash
header_bytes n (error b) = reject
header_bytes n (ok _ b) = access (load b.data_bytes 0 n)

-- `tree->root->hash` behind the assertion on the tree.
unfoldable pub root_hash : Option MerkleNode → Check (List ℕ)
root_hash none = crash
root_hash (some node) = pass (hash_of node)

-- `digest` is what `crypto_hash_sha256d` leaves in its output.
module _ (h : Heap) (digest : List ℕ → List ℕ) where
  -- `pass` is the hash that is stored, `reject` the return value 1.
  unfoldable pub compute_block_hash : Block → Check (List ℕ)
  compute_block_hash b =
      header_bytes block_header_size
        (fill (init_size h 0 block_header_size) (serialize_block_header h b))
      >>= λ header. pass (digest header)

  -- The result of `serialize_transaction_header` is dropped.
  unfoldable pub compute_tx_id : Transaction → Check (List ℕ)
  compute_tx_id tx =
      if get_tx_header_size tx == 0
      then crash
      else (header_bytes (get_tx_header_size tx) (
            fill (init_size h 0 (get_tx_header_size tx))
              (ignoring (serialize_transaction_header h tx)))
          >>= λ header. pass (digest header))

  -- The loop of `compute_merkle_root`, at transaction `i` with `n` left; offsets are uint32_t.
  unfoldable pub compute_ids : ℕ → ℕ → List Transaction → List ℕ → Check (List ℕ)
  compute_ids zero i txs hashes = pass hashes
  compute_ids (suc n) i [] hashes = crash
  compute_ids (suc n) i (tx ∷ txs) hashes = compute_tx_id tx >>= λ id.
      access (store hashes (hash_size * i % 2 ^ 32) id) >>= λ hashes'.
      compute_ids n (i + 1) txs hashes'

  unfoldable pub compute_merkle_root : Block → Check (List ℕ)
  compute_merkle_root b = do
    hashes ← access (allocate h (hash_size * b.transaction_count % 2 ^ 32))
    ids ← compute_ids b.transaction_count 0 b.transactions hashes
    root_hash (construct_merkle_tree_from_leaves digest ids b.transaction_count)

  unfoldable pub valid_merkle_root : Block → Check (Unit {0})
  valid_merkle_root b = compute_merkle_root b >>= λ root. guard (compare_hash root b.merkle_root)
