-- ===== src/Block/Valid.antt =====
-- `valid_block` of src/core/block.c.
pub mod Loops
pub mod Sound
pub mod Accept
use vulkan_core.Common.{
  ℕ, zero, suc, ◌+◌, Bool, true, false, ◌&&◌, not, Option, none, some, List, [], ◌∷◌, get_elem?,
  leb, ltb, ◌==◌, if◌then◌else◌,
}
use vulkan_core.Check.{Check, crash, reject, pass, ◌>>=◌, ◌>>◌, guard, access}
use vulkan_core.Crypto.{compare_hash}
use vulkan_core.Buffer.{Heap}
use vulkan_core.Transaction.{TxIn, Transaction, UnspentTransaction}
use vulkan_core.Transaction.Sign.{Signatures}
use vulkan_core.Transaction.Spend.{is_coinbase_tx, valid_transaction}
use vulkan_core.Pow.{Bignums, check_proof_of_work}
use vulkan_core.Block.{Block, valid_block_timestamp, get_block_header_size, max_block_size}
use vulkan_core.Block.Hash.{compute_block_hash, valid_merkle_root}

-- `for (i = 0; i < count; i++)` with a check of every element, at index `i` with `n` left; past the
-- end of the array is a crash.
unfoldable pub check_each :
    {A : Type 0} → ℕ → ℕ → List A → (ℕ → A → Check (Unit {0})) → Check (Unit {0})
check_each zero i xs f = pass tt
check_each (suc n) i [] f = crash
check_each (suc n) i (x ∷ xs) f = f i x >> check_each n (i + 1) xs f

unfoldable pub same_outpoint : TxIn → TxIn → Bool
same_outpoint x y = compare_hash x.transaction y.transaction && x.txout_index == y.txout_index

-- The two inner loops, over the inputs of two transactions.
unfoldable pub check_txins : Transaction → Transaction → Check (Unit {0})
check_txins t u =
    check_each t.txin_count 0 t.txins
      (λ _ x. check_each u.txin_count 0 u.txins (λ _ y. guard (not (same_outpoint x y))))

-- The round of the second loop, for the transactions `t` at `i` and `u` at `j`.
unfoldable pub check_pair : ℕ → Transaction → ℕ → Transaction → Check (Unit {0})
unfolding check_txins
check_pair i t j u =
    if i == j then pass tt else (guard (not (compare_hash t.id u.id)) >> check_txins t u)

-- What the checks consult: the allocator, SHA-256d, OpenSSL's numbers, the unspent index, the
-- network, libsodium's signatures, what the stack holds, and the clock.
pub record Node : Type 1 where
  pub heap : Heap
  pub digest : List ℕ → List ℕ
  pub numbers : Bignums
  pub index : List ℕ → Option UnspentTransaction
  pub testnet : ℕ
  pub signatures : Signatures
  pub stack : List ℕ
  pub now : ℕ

module _ (e : Node) where
  unfoldable pub valid_tx : Transaction → Check (Unit {0})
  valid_tx = valid_transaction e.index e.testnet e.signatures e.stack

  -- The round of the first loop.
  unfoldable pub check_transaction : Block → ℕ → Transaction → Check (Unit {0})
  unfolding check_pair
  check_transaction b i t = do
    valid_tx t
    guard (not (not (i == 0) && is_coinbase_tx t))
    check_each b.transaction_count 0 b.transactions (check_pair i t)

  unfoldable pub valid_block_hash : Block → Check (Unit {0})
  valid_block_hash b = do
    expected ← compute_block_hash e.heap e.digest b
    guard (compare_hash expected b.hash)
    check_proof_of_work e.numbers b.hash b.bits

  unfoldable pub valid_block : Block → Check (Unit {0})
  unfolding valid_block_hash check_transaction
  valid_block b = do
    guard (valid_block_timestamp e.now b)
    guard (not (ltb b.transaction_count 1))
    coinbase ← access (get_elem? b.transactions 0)
    guard (is_coinbase_tx coinbase)
    check_each b.transaction_count 0 b.transactions (check_transaction b)
    size ← access (get_block_header_size b)
    guard (not (ltb max_block_size size))
    valid_block_hash b
    valid_merkle_root e.heap e.digest b
