-- ===== src/Block/Tests.antt =====
-- The theorems about blocks at concrete inputs.
use vulkan_core.Common.{
  ℕ, ◌<◌, ◌≡◌, ◌↔◌, ◌⊎◌, List, [], ◌∷◌, ◌++◌, take, length, map, length-append, length-take,
  replicate, arith,
}
use vulkan_core.Check.{pass}
use vulkan_core.Bytes.{le_bytes}
use vulkan_core.Buffer.Tests.{plenty, plenty-Generous}
use vulkan_core.Buffer.Read.{RoundTrip}
use vulkan_core.Transaction.{Transaction}
use vulkan_core.Transaction.Encoding.{encode_transaction, encode_txin, encode_txout, encode_all}
use vulkan_core.Transaction.Tests.{hash, input, output, payment, only_coins, toy}
use vulkan_core.Pow.Tests.{naturals}
use vulkan_core.Block.{Block, BlockIsValid, make_block}
use vulkan_core.Block.RoundTrip.{
  encode_block, encode_full_block, serialize_full_block, deserialize_full_block,
  deserialize_block-serialize_block,
}
use vulkan_core.Exec.{ok, fault}
use vulkan_core.Block.Copy.{copy_block, copy_block-cases}
use vulkan_core.Merkle.{leaf}
use vulkan_core.Merkle.Root.{tree}
use vulkan_core.Block.Hash.{compute_block_hash, compute_merkle_root, compute_tx_id, root_hash}
use vulkan_core.Block.TxId.{encode_transaction_header, compute_tx_id-encode}
use vulkan_core.Block.Root.{compute_merkle_root-tree}
use vulkan_core.Block.Commit.{SameHeader, Collision, compute_block_hash-commits}
use vulkan_core.Block.Valid.{Node, valid_block}
use vulkan_core.Block.Valid.Sound.{Acceptable}
use vulkan_core.Block.Valid.Accept.{valid_block_iff}

abbrev coinbase : Transaction
coinbase = record {
  id = hash 2;
  txin_count = 0;
  txout_count = 1;
  txins = [];
  txouts = output 50 ∷ [];
}

abbrev block : Block
block = record make_block {
  hash = hash 4;
  timestamp = 1000;
  nonce = 7;
  bits = 0x1d00ffff;
  cumulative_emission = 50;
  merkle_root = hash 6;
  transaction_count = 2;
  transactions = coinbase ∷ payment ∷ [];
}

abbrev toy_digest : List ℕ → List ℕ
toy_digest bytes = take 32 bytes

abbrev node : Node
node = record {
  heap = plenty;
  digest = toy_digest;
  numbers = naturals;
  index = only_coins;
  testnet = 0;
  signatures = toy;
  stack = replicate 200 0;
  now = 1000;
}

block-valid : BlockIsValid block
block-valid = omega arith

deserialize_block-serialize_block_example :
    RoundTrip (serialize_full_block plenty block) (deserialize_full_block plenty) block (1 ∷ 2 ∷ [])
unfolding encode_block encode_full_block encode_transaction encode_txin encode_txout encode_all
    le_bytes
deserialize_block-serialize_block_example =
    deserialize_block-serialize_block plenty (1 ∷ 2 ∷ []) block plenty-Generous block-valid
      (omega arith)

compute_block_hash-commits_example :
    ((found : List ℕ) × (compute_block_hash plenty toy_digest block ≡ pass found))
    × (compute_block_hash plenty toy_digest block ≡ pass (hash 1)
        → compute_block_hash plenty toy_digest (record block { nonce = 8 }) ≡ pass (hash 1)
        → SameHeader block (record block { nonce = 8 }) ⊎ Collision toy_digest)
compute_block_hash-commits_example =
    compute_block_hash-commits plenty toy_digest block (record block { nonce = 8 }) (hash 1)
      plenty-Generous block-valid (omega arith)

valid_block_iff_example : (valid_block node block ≡ pass tt) ↔ Acceptable node block
valid_block_iff_example = valid_block_iff node block block-valid

abbrev full_digest : List ℕ → List ℕ
full_digest bytes = take 32 (bytes ++ replicate 32 0)

full_digest-size : (bytes : List ℕ) → length (full_digest bytes) ≡ 32
full_digest-size bytes =
    omega (arith, length-take 32 (bytes ++ replicate 32 0), length-append bytes (replicate 32 0))

compute_merkle_root-tree_example :
    compute_merkle_root plenty full_digest block
    ≡ root_hash (
        tree full_digest 1 (
          map leaf
            (map (λ t. full_digest (encode_transaction_header t)) (coinbase ∷ payment ∷ []))))
compute_merkle_root-tree_example =
    compute_merkle_root-tree plenty plenty-Generous full_digest full_digest-size 1 block block-valid
      (omega arith) (omega arith) (omega arith) (omega arith)

copy_block-cases_example :
    (0 < length block.transactions → copy_block input (output 1) block make_block ≡ fault)
    × (length block.transactions ≡ 0
        → copy_block input (output 1) block make_block ≡ ok tt (record block { transactions = [] }))
copy_block-cases_example = copy_block-cases input (output 1) block make_block block-valid

compute_tx_id-encode_example :
    compute_tx_id plenty full_digest payment
    ≡ pass (full_digest (encode_transaction_header payment))
compute_tx_id-encode_example =
    compute_tx_id-encode plenty full_digest payment plenty-Generous (omega arith) (omega arith)
