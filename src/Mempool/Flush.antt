-- ===== src/Mempool/Flush.antt =====
-- The expiry of transactions and the filling of a block, of src/core/mempool.c.
use vulkan_core.Common.{
  ℕ, ◌+◌, ◌-◌, ◌%◌, ◌^◌, Bool, true, false, Option, none, some, List, [], ◌∷◌, ltb,
}
use vulkan_core.Exec.{Outcome, ok, error, fault, Action, done, stop, ◌>>◌}
use vulkan_core.Check.{Check, crash, reject, pass}
use vulkan_core.Transaction.{Transaction}
use vulkan_core.Transaction.Sign.{get_tx_header_size}
use vulkan_core.Block.{Block, get_block_header_size, add_transaction_to_block, max_block_size}
use vulkan_core.Mempool.{Arrays, Entry, Mempool, remove_tx_from_mempool, mempool_tx_expire_time}

-- Whether an entry is removed, from what `valid_transaction` answered; the age is a uint32_t.
unfoldable pub stale : ℕ → Entry → Check (Unit {0}) → Option Bool
stale now e crash = none
stale now e reject = some true
stale now e (pass _) = some (ltb mempool_tx_expire_time ((2 ^ 32 + now - e.received_ts) % 2 ^ 32))

unfoldable pub collect :
    Transaction → Option Bool → Option (List Transaction) → Option (List Transaction)
collect tx none later = none
collect tx (some b) none = none
collect tx (some true) (some later) = some (tx ∷ later)
collect tx (some false) (some later) = some later

module _ (valid : Transaction → Check (Unit {0})) (now : Entry → ℕ) where
  -- The first loop of `clear_expired_txs_in_mempool_nolock`, with an array of its own whose
  -- allocations succeed; the clock is read for every entry.
  unfoldable pub txs_to_remove : List Entry → Option (List Transaction)
  unfolding stale collect
  txs_to_remove [] = some []
  txs_to_remove (e ∷ es) = collect e.tx (stale (now e) e (valid e.tx)) (txs_to_remove es)

module _ (a : Arrays) where
  -- The assertion on the result of a removal.
  unfoldable pub insisted : Outcome (Mempool a) (Unit {0}) → Outcome (Mempool a) (Unit {0})
  insisted fault = fault
  insisted (error m) = fault
  insisted (ok _ m) = ok tt m

  unfoldable pub remove_each : Option (List Transaction) → Action (Mempool a)
  unfolding insisted
  remove_each none = stop
  remove_each (some []) = done tt
  remove_each (some (t ∷ ts)) =
      (λ m. insisted (remove_tx_from_mempool a t m)) >> remove_each (some ts)

  unfoldable pub clear_expired_txs_in_mempool :
      (Transaction → Check (Unit {0})) → (Entry → ℕ) → Action (Mempool a)
  unfolding remove_each
  clear_expired_txs_in_mempool valid now m =
      remove_each (txs_to_remove valid now (a.elements m.transactions)) m

-- The round of `fill_block_with_txs_from_mempool_nolock` for the header size that was computed:
-- `none` is the end of the loop.
unfoldable pub fits_in : Option ℕ → Transaction → Option Bool
fits_in none tx = none
fits_in (some size) tx = some (ltb ((size + get_tx_header_size tx) % 2 ^ 32) max_block_size)

unfoldable pub insist : Outcome Block (Unit {0}) → Outcome Block (Unit {0})
insist fault = fault
insist (error b) = fault
insist (ok _ b) = ok tt b

unfoldable pub fill_round : Option Bool → Transaction → ℕ → Action Block → Action Block
unfolding insist
fill_round none tx i rest = stop
fill_round (some false) tx i rest = done tt
fill_round (some true) tx i rest = (λ b. insist (add_transaction_to_block tx i b)) >> rest

unfoldable pub fill_from : ℕ → List Entry → Action Block
unfolding fits_in fill_round
fill_from i [] = done tt
fill_from i (e ∷ es) =
    λ b. fill_round (fits_in (get_block_header_size b) e.tx) e.tx i (fill_from (i + 1) es) b

unfoldable pub fill_block_with_txs_from_mempool : (a : Arrays) → Mempool a → Action Block
unfolding fill_from
fill_block_with_txs_from_mempool a m = fill_from 1 (a.elements m.transactions)
