-- ===== src/Chain/Tests.antt =====
-- A chain of one block, and an unspent transaction with two outputs.
use vulkan_core.Common.{ℕ, ◌+◌, ◌≤◌, ◌≡◌, ◌≢◌, refl, true, false, some, [], ◌∷◌, same_bytes, arith}
use vulkan_core.Check.{pass}
use vulkan_core.Transaction.{TxOut, UnspentTxOut, UnspentTransaction}
use vulkan_core.Transaction.Tests.{hash, address, output, payment, coins}
use vulkan_core.Transaction.Compare.{
  compare_transaction, compare_transaction_txins, compare_transaction_txouts, compare_each,
  compare_txin, compare_txout,
}
use vulkan_core.Block.{Block, make_block, compare_block, compare_transactions}
use vulkan_core.Chain.{
  max_money, History, get_block_reward, generated, expect_emission, valid_block_emission,
}
use vulkan_core.Chain.Emission.{genesis, emission-bounded}
use vulkan_core.Chain.Unspent.{skip, delete, update_unspent, update_unspent-deletes}

abbrev first_block : Block
first_block = record make_block {
  cumulative_emission = 6103515625;
  transaction_count = 1;
  transactions =
      record payment {
        txin_count = 0;
        txins = [];
        txout_count = 1;
        txouts = output 6103515625 ∷ [];
      }
      ∷ [];
}

abbrev short_history : History
short_history = record {
  genesis_block = first_block;
  genesis_reward = 0;
  block_from_hash = λ h. some (first_block, 0);
}

first_block-is_genesis : compare_block first_block first_block ≡ some true
unfolding compare_block compare_transactions compare_transaction compare_transaction_txins
    compare_transaction_txouts compare_each compare_txin compare_txout same_bytes
first_block-is_genesis = refl

first_block-accepted : valid_block_emission short_history first_block ≡ pass tt
unfolding valid_block_emission expect_emission generated get_block_reward compare_block
    compare_transactions compare_transaction compare_transaction_txins compare_transaction_txouts
    compare_each compare_txin compare_txout same_bytes
first_block-accepted = refl

emission-bounded_example :
    (6103515625 ≤ max_money)
    × ((next : Block) (height : ℕ)
        → short_history.block_from_hash next.previous_hash ≡ some (first_block, height)
        → valid_block_emission short_history next ≡ pass tt
        → compare_block next first_block ≡ some false
        → (o : TxOut) × (generated next ≡ some o)
          × (6103515625 + o.amount ≡ next.cumulative_emission)
          × (next.cumulative_emission ≤ max_money))
emission-bounded_example =
    emission-bounded short_history first_block (omega arith)
      (genesis first_block-accepted first_block-is_genesis)

abbrev second_coin : UnspentTxOut
second_coin = record { amount = 40; address = address 9; spent = 0 }

abbrev two_coins : UnspentTransaction
two_coins = record coins {
  unspent_txout_count = 2;
  unspent_txouts = record { amount = 60; address = address 8; spent = 0 } ∷ second_coin ∷ [];
}

update_unspent-deletes_example :
    (second_coin.spent ≡ 1 → update_unspent two_coins 1 ≡ pass skip)
    × (second_coin.spent ≢ 1 → update_unspent two_coins 1 ≡ pass (delete (hash 7)))
update_unspent-deletes_example =
    update_unspent-deletes two_coins 1 second_coin (omega arith) (omega arith) refl
