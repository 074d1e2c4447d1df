-- ===== src/Mempool/Tests.antt =====
-- The pool over lists.
use vulkan_core.Common.{
  ℕ, zero, suc, ◌≡◌, refl, Option, none, some, List, [], ◌∷◌, ◌++◌, length, if◌then◌else◌, arith,
}
use vulkan_core.Exec.{ok}
use vulkan_core.Check.{Check, pass}
use vulkan_core.Transaction.{Transaction}
use vulkan_core.Transaction.Tests.{payment}
use vulkan_core.Mempool.{Arrays, ArraysLaws, Entry, Mempool, erase, stands_in, start_mempool}
use vulkan_core.Mempool.Invariant.{Within}
use vulkan_core.Mempool.Flush.{clear_expired_txs_in_mempool, fill_block_with_txs_from_mempool}
use vulkan_core.Mempool.Fill.{total, Filled, fill_block-Filled}
use vulkan_core.Transaction.Sign.{get_tx_header_size}
use vulkan_core.Block.{Block, make_block}
use vulkan_core.Mempool.Runs.{validate, remove, pop, WellFormed, run, run-WellFormed}
use vulkan_core.Mempool.Expiry.{kept, clear_expired-kept}

abbrev remove_from : ℕ → List Entry → Option (Entry × List Entry)
remove_from n [] = none
remove_from zero (e ∷ es) = some (e, es)
remove_from (suc n) (e ∷ es) = none

abbrev lists : Arrays
lists = record {
  Array = List Entry;
  array_new = [];
  array_add = λ e es. some (es ++ e ∷ []);
  array_remove = λ e es. if stands_in e.address es then some (erase e.address es) else none;
  array_remove_at = remove_from;
  elements = λ es. es;
}

lists-laws : ArraysLaws lists
lists-laws = record {
  new_elements = refl;
  add_elements = λ e xs ys h. ground arith;
  remove_elements = λ e xs ys h. ground arith;
  remove_present = λ e xs h. (erase e.address xs, rw h);
  remove_first = λ e xs ys h. first e xs ys h;
}
  where
    first : (e : Entry) (xs ys : List Entry) → remove_from 0 xs ≡ some (e, ys) → xs ≡ e ∷ ys
    first e [] ys h = cc h
    first e (x ∷ xs) ys h = cc h

abbrev second : Transaction
second = record payment { txin_count = 2; id = 5 ∷ [] }

abbrev waiting : Mempool lists
waiting = record {
  transactions =
      record { address = 10; tx = payment; received_ts = 0 }
      ∷ record { address = 11; tx = second; received_ts = 90000 }
      ∷ [];
  num_transactions = 2;
  next_address = 12;
}

run-WellFormed_example : Within (WellFormed lists) (
    run lists
      (validate 7 payment (pass tt) ∷ validate 8 second (pass tt) ∷ remove payment ∷ pop ∷ [])
      (start_mempool lists 10))
run-WellFormed_example =
    run-WellFormed lists 10
      (validate 7 payment (pass tt) ∷ validate 8 second (pass tt) ∷ remove payment ∷ pop ∷ [])
      lists-laws

abbrev all_valid : Transaction → Check (Unit {0})
all_valid tx = pass tt

waiting-WellFormed : WellFormed lists waiting
waiting-WellFormed = record {
  counted = refl;
  distinct = (((λ h. cc h, λ h. absurd (omega (arith, h))), tt), (tt, tt));
  below = (omega arith, (omega arith, tt));
}

abbrev clock : Entry → ℕ
clock e = 90010

clear_expired-kept_example :
    (m' : Mempool lists) × (clear_expired_txs_in_mempool lists all_valid clock waiting ≡ ok tt m')
    × (m'.transactions ≡ kept all_valid clock waiting.transactions)
    × (m'.num_transactions ≡ length m'.transactions)
clear_expired-kept_example =
    clear_expired-kept lists all_valid clock waiting lists-laws waiting-WellFormed
      (λ h. cc h, (λ h. cc h, tt))

abbrev with_coinbase : Block
with_coinbase = record make_block {
  transaction_count = 1;
  transactions = record payment { txin_count = 0; txins = []; txout_count = 1 } ∷ [];
}

fill_block-Filled_example :
    Filled with_coinbase with_coinbase.transactions waiting.transactions
      (fill_block_with_txs_from_mempool lists waiting with_coinbase)
unfolding total get_tx_header_size
fill_block-Filled_example =
    fill_block-Filled lists waiting with_coinbase refl refl (omega arith) (omega arith)
