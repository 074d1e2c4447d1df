-- ===== src/Chain.antt =====
-- src/core/blockchain.c: so far the rewards of blocks and the emission that they add up to.
pub mod Emission
pub mod Unspent
mod Tests
use vulkan_core.Common.{
  ℕ, zero, suc, ◌+◌, ◌*◌, ◌-◌, ◌/◌, ◌%◌, ◌^◌, ◌≤◌, ◌<◌, Bool, true, false, ◌&&◌, Option, none, some,
  List, [], ◌∷◌, ltb, ◌==◌, if◌then◌else◌, get_elem?,
}
use vulkan_core.Check.{Check, crash, reject, pass, ◌>>=◌, ◌>>◌, guard, access}
use vulkan_core.Transaction.{TxOut, Transaction}
use vulkan_core.Block.{Block, compare_block}

abbrev pub coin : ℕ
coin = 100000000

abbrev pub total_supply : ℕ
total_supply = 64000000

abbrev pub max_money : ℕ
max_money = coin * total_supply

-- `genesis_reward` is `parameters_get_genesis_reward()`. The subtraction is on uint64_t, and the
-- shift is by 20; the height is not used.
unfoldable pub get_block_reward : ℕ → ℕ → ℕ → ℕ
get_block_reward genesis_reward height cumulative_emission =
    if cumulative_emission == 0 && ltb 0 genesis_reward
    then genesis_reward
    else (2 ^ 64 + max_money - cumulative_emission) % 2 ^ 64 / 2 ^ 20

-- What `valid_block_emission` learns of the chain: the genesis block, and the block with a hash
-- together with its height, `none` where the one that is asked for is not there.
pub record History : Type 0 where
  pub genesis_block : Block
  pub genesis_reward : ℕ
  pub block_from_hash : List ℕ → Option (Block × ℕ)

-- The first output of the first transaction.
unfoldable pub generated : Block → Option TxOut
generated b = first_txout (get_elem? b.transactions 0)
  where
    first_txout : Option Transaction → Option TxOut
    first_txout none = none
    first_txout (some tx) = get_elem? tx.txouts 0

unfoldable pub expect_emission : Block → TxOut → ℕ → ℕ → Check (Unit {0})
expect_emission b txout reward emission =
    guard (txout.amount == reward && b.cumulative_emission == emission)

-- The case of a block after another; no previous block fails an assertion.
unfoldable pub emission_after : ℕ → Block → TxOut → Option (Block × ℕ) → Check (Unit {0})
unfolding expect_emission
emission_after genesis_reward b txout none = crash
emission_after genesis_reward b txout (some (previous, height)) =
    expect_emission b txout (get_block_reward genesis_reward height previous.cumulative_emission) (
      (previous.cumulative_emission
        + get_block_reward genesis_reward height previous.cumulative_emission)
      % 2 ^ 64)

unfoldable pub valid_block_emission : History → Block → Check (Unit {0})
unfolding emission_after
valid_block_emission c b = access (generated b) >>= λ txout.
    access (compare_block b c.genesis_block) >>= λ is_genesis.
    if is_genesis
    then expect_emission b txout (get_block_reward c.genesis_reward 0 0)
        (get_block_reward c.genesis_reward 0 0)
    else emission_after c.genesis_reward b txout (c.block_from_hash b.previous_hash)
