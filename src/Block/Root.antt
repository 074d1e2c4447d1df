-- ===== src/Block/Root.antt =====
-- The Merkle root of a block.
use vulkan_core.Common.{
  ℕ, zero, suc, ◌+◌, ◌*◌, ◌%◌, ◌^◌, ◌≤◌, ◌<◌, ◌≡◌, refl, sym, ap, ◌∙◌, some, List, [], ◌∷◌, ◌++◌,
  length, drop, map, arith, length-append, length-drop, All, append_assoc, length-map,
}
use vulkan_core.Check.{pass}
use vulkan_core.Buffer.{Heap, store, fresh}
use vulkan_core.Buffer.Full.{length-fresh}
use vulkan_core.Buffer.Fill.{store-partial}
use vulkan_core.Buffer.Append.{Generous}
use vulkan_core.Transaction.{Transaction, TransactionIsValid}
use vulkan_core.Merkle.{leaf, construct_merkle_tree_from_leaves}
use vulkan_core.Merkle.Root.{joined, tree, construct_merkle_tree-tree}
use vulkan_core.Buffer.Serialized.{allocate}
use vulkan_core.Block.{Block, BlockIsValid}
use vulkan_core.Block.Hash.{compute_ids, root_hash, compute_merkle_root}
use vulkan_core.Block.TxId.{encode_transaction_header, HeaderFits, compute_tx_id-encode}

stored :
    (src : List ℕ) (i : ℕ) (front rest : List ℕ)
    → length src ≡ 32
    → length front ≡ 32 * i
    → 32 ≤ length rest
    → i < 2 ^ 27
    → store (front ++ rest) (32 * i % 2 ^ 32) src ≡ some ((front ++ src) ++ drop (length src) rest)
stored src i front rest wide ef room small =
    ap (λ off. store (front ++ rest) off src) (omega arith)
    ∙ store-partial src front rest (omega arith)
    ∙ ap some (sym (append_assoc front src (drop (length src) rest)))

module _ (h : Heap) (g : Generous h) (digest : List ℕ → List ℕ)
    (size : (bs : List ℕ) → length (digest bs) ≡ 32) where
  abbrev id_of : Transaction → List ℕ
  id_of t = digest (encode_transaction_header t)

  -- The ids fill the block behind those that are stored.
  compute_ids-joined :
      (txs : List Transaction) (n i : ℕ) (front rest : List ℕ)
      → n ≡ length txs
      → All TransactionIsValid txs
      → All HeaderFits txs
      → length front ≡ 32 * i
      → length rest ≡ 32 * n
      → i + n < 2 ^ 27
      → compute_ids h digest n i txs (front ++ rest) ≡ pass (front ++ joined (map id_of txs))
  unfolding compute_ids
  compute_ids-joined [] zero i front [] e vs fs ef er small = refl
  compute_ids-joined [] zero i front (r ∷ rest) e vs fs ef er small = absurd (omega arith)
  compute_ids-joined [] (suc n) i front rest e vs fs ef er small = absurd (omega arith)
  compute_ids-joined (t ∷ txs) zero i front rest e vs fs ef er small = absurd (omega arith)
  compute_ids-joined (t ∷ txs) (suc n) i front rest e vs fs ef er small =
      let wide = size (encode_transaction_header t) in
      rw (
        compute_tx_id-encode h digest t g vs.0 fs.0,
        stored (id_of t) i front rest wide ef (omega arith) (omega arith),
        compute_ids-joined txs n (i + 1) (front ++ id_of t) (drop (length (id_of t)) rest)
            (omega arith) vs.1 fs.1 (omega (arith, length-append front (id_of t)))
            (omega (arith, length-drop (length (id_of t)) rest)) (omega arith),
        append_assoc front (id_of t) (joined (map id_of txs)),
      )

  joined_size : (txs : List Transaction) → All (λ x. length x ≡ 32) (map id_of txs)
  joined_size [] = tt
  joined_size (t ∷ txs) = (size (encode_transaction_header t), joined_size txs)

  -- Where every allocation succeeds, digests have 32 bytes, and all transactions are well-formed with
  -- headers whose size is positive and does not wrap: the Merkle root that `compute_merkle_root`
  -- returns for a block of at least one and fewer than 2 ^ 27 transactions is the hash at the root
  -- of the tree of height `k` over the digests of the transactions' headers, where `k` is the least
  -- height with room for them. The ids that the transactions carry play no part.
  pub compute_merkle_root-tree :
      (k : ℕ) (b : Block)
      → BlockIsValid b
      → All HeaderFits b.transactions
      → b.transaction_count < 2 ^ 27
      → length b.transactions ≤ 2 ^ k
      → 2 ^ k < 2 * length b.transactions
      → compute_merkle_root h digest b
        ≡ root_hash (tree digest k (map leaf (map id_of b.transactions)))
  unfolding compute_merkle_root allocate
  compute_merkle_root-tree k b v fs small le gt = rw (
    allocated,
    compute_ids-joined b.transactions b.transaction_count 0 []
        (fresh h 0 (32 * b.transaction_count)) v.counted v.transactions_valid fs refl
        (length-fresh h 0 (32 * b.transaction_count)) (omega arith),
    rooted,
  )
    where
      allocated :
          allocate h (32 * b.transaction_count % 2 ^ 32)
          ≡ some (fresh h 0 (32 * b.transaction_count))
      allocated = ground (arith, g (32 * b.transaction_count) (omega arith))

      rooted :
          construct_merkle_tree_from_leaves digest
            (joined (map id_of b.transactions))
            b.transaction_count
          ≡ tree digest k (map leaf (map id_of b.transactions))
      rooted =
          ap (construct_merkle_tree_from_leaves digest (joined (map id_of b.transactions)))
            (v.counted ∙ sym (length-map b.transactions id_of))
          ∙ construct_merkle_tree-tree digest k (map id_of b.transactions)
              (joined_size b.transactions) (omega (arith, length-map b.transactions id_of))
              (omega (arith, length-map b.transactions id_of))
