-- ===== src/Sync/Crash.antt =====
-- Messages of a peer that make the node fail an assertion.
use vulkan_core.Common.{
  ℕ, suc, ◌+◌, ◌-◌, ◌%◌, ◌^◌, ◌≤◌, ◌<◌, ◌≡◌, ◌≢◌, refl, ap, ◌∙◌, Bool, true, false, ◌&&◌, not, some,
  leb, ◌==◌, if◌then◌else◌, arith, lt→ltb, gt→leb_false, ==_refl,
}
use vulkan_core.Exec.{ok, error, fault, Action, and_then, fail, ◌>>◌}
use vulkan_core.Transaction.{Transaction, at_end, next_count}
use vulkan_core.Block.{Block, add_transaction_to_block}
use vulkan_core.Sync.{
  Services, Node, cleared, minus_one, must, succeeded, or_else, failed_with, resync_block_max_tries,
}
use vulkan_core.Sync.Requests.{
  clear_sync_request, request_sync_block, request_sync_previous_block, wanted_height,
}
use vulkan_core.Sync.Receive.{
  checked, find_top_block, starting_block, header_received, block_header_received,
  transaction_added, add_pending, transaction_received,
}

third_of_four :
    {A : Type 0} {a b c : Bool} (x y z u : A)
    → a ≡ false
    → b ≡ false
    → c ≡ true
    → (if a then x else if b then y else if c then z else u) ≡ z
third_of_four x y z u p q r = rw (p, q, r) refl

last_of_three :
    {A : Type 0} {a b : Bool} (x y z : A)
    → a ≡ false
    → b ≡ false
    → (if a then x else if b then y else z) ≡ z
last_of_three x y z p q = rw (p, q) refl

first_of_two : {A : Type 0} {a : Bool} (x y : A) → a ≡ true → (if a then x else y) ≡ x
first_of_two x y p = rw p refl

module _ {sv : Services} where
  -- A second `clear_sync_request`.
  clear_twice :
      (w : Node sv)
      → w.entry.sync_initiated ≡ true
      → or_else (must (clear_sync_request false) >> fail) (must (clear_sync_request false)) w
        ≡ fault
  unfolding clear_sync_request cleared
  clear_twice w on =
      ap
        (λ (b : Bool). failed_with (must (clear_sync_request false)) (
          and_then {B = Unit {0}}
            (succeeded (
              if b
              then ok tt (record {
                entry = cleared w.entry;
                rest =
                    if true && w.entry.sync_did_backup_blockchain
                    then (sv.restore_blockchain w.rest).1
                    else w.rest;
              })
              else error w))
            (λ _. fail)))
        on

  request-spent_twice :
      (conn : ℕ) (w : Node sv)
      → w.entry.sync_initiated ≡ true
      → 5 < w.entry.last_sync_tries
      → 0 < w.entry.last_sync_height
      → w.entry.last_sync_height ≤ 2 ^ 31
      → or_else (request_sync_previous_block conn) (must (clear_sync_request false)) w ≡ fault
  unfolding request_sync_previous_block request_sync_block wanted_height
  request-spent_twice conn w on many pos low =
      rw (known, lt→ltb resync_block_max_tries w.entry.last_sync_tries many) (clear_twice w on)
    where
      known : leb (2 ^ 31) ((2 ^ 32 + w.entry.last_sync_height - 1) % 2 ^ 32) ≡ false
      known = gt→leb_false _ _ (omega arith)

  find_top_block-found :
      (w : Node sv) → w.entry.sync_finding_top_block ≡ true → find_top_block w ≡ ok tt w
  unfolding find_top_block
  find_top_block-found w found = first_of_two _ _ found

  header_received-searching :
      (receive : ℕ → Block → Action (Node sv)) (conn : ℕ) (block : Block) (w : Node sv)
      → w.entry.sync_initiated ≡ true
      → w.entry.sync_start_height ≡ minus_one
      → w.entry.sync_finding_top_block ≡ true
      → checked (sv.checkpoint_hash w.entry.last_sync_height) block.hash ≡ true
      → header_received receive conn block w ≡ starting_block receive conn block w
  unfolding header_received
  header_received-searching receive conn block w on searching found right =
      third_of_four _ _ _ _ (ap not on) (ap not right)
        (ap (λ h. h == minus_one) searching ∙ ==_refl minus_one)
      ∙ ap (λ o. and_then o (λ _. starting_block receive conn block)) (find_top_block-found w found)

  starting_block-unknown :
      (receive : ℕ → Block → Action (Node sv)) (conn : ℕ) (block : Block) (w : Node sv)
      → sv.has_block_by_hash w.rest block.hash ≡ false
      → 1 < w.entry.last_sync_height
      → starting_block receive conn block w
        ≡ or_else (request_sync_previous_block conn) (must (clear_sync_request false)) w
  unfolding starting_block
  starting_block-unknown receive conn block w unknown high =
      last_of_three _ _ _ unknown (gt→leb_false _ _ high)

  misplaced :
      (conn tx_index : ℕ) (tx : Transaction) (b : Block) (w : Node sv)
      → at_end tx_index (next_count b.transaction_count) ≡ false
      → add_pending conn tx tx_index (some b) w ≡ fault
  unfolding add_pending transaction_added add_transaction_to_block
  misplaced conn tx_index tx b w other = rw other refl

-- While the block is looked for at which the chains part, and after more than
-- `RESYNC_BLOCK_MAX_TRIES` tries at a height from 2 to 2 ^ 31: a header that the node does not know and
-- no checkpoint speaks against makes `block_header_received` fail an assertion, since
-- `request_sync_previous_block` clears the synchronisation and its caller clears it again.
pub block_header_received-crash :
    {sv : Services} (fuel conn : ℕ) (block : Block) (w : Node sv)
    → w.entry.sync_initiated ≡ true
    → w.entry.sync_start_height ≡ minus_one
    → w.entry.sync_finding_top_block ≡ true
    → 5 < w.entry.last_sync_tries
    → 1 < w.entry.last_sync_height
    → w.entry.last_sync_height ≤ 2 ^ 31
    → checked (sv.checkpoint_hash w.entry.last_sync_height) block.hash ≡ true
    → sv.has_block_by_hash w.rest block.hash ≡ false
    → block_header_received (suc fuel) conn block w ≡ fault
unfolding block_header_received
block_header_received-crash {sv} fuel conn block w on searching found many high low right unknown =
    header_received-searching (block_header_received fuel) conn block w on searching found right
    ∙ starting_block-unknown (block_header_received fuel) conn block w unknown high
    ∙ request-spent_twice conn w on many (omega arith) low

-- A transaction that comes out of order, or twice, for the block that is pending makes
-- `transaction_received` fail an assertion, where the block has fewer than 2 ^ 32 - 1 transactions.
pub transaction_received-misplaced :
    {sv : Services} (conn tx_index : ℕ) (tx : Transaction) (b : Block) (w : Node sv)
    → w.entry.sync_initiated ≡ true
    → w.entry.tx_sync_initiated ≡ true
    → w.entry.sync_pending_block ≡ some b
    → b.transaction_count < 2 ^ 32 - 1
    → tx_index ≢ b.transaction_count
    → transaction_received conn tx tx_index w ≡ fault
unfolding transaction_received
transaction_received-misplaced conn tx_index tx b w on busy pending small other =
    ap
      (λ (c : Bool).
        if c then add_pending conn tx tx_index w.entry.sync_pending_block w else ok tt w)
      both
    ∙ ap (λ o. add_pending conn tx tx_index o w) pending
    ∙ misplaced conn tx_index tx b w elsewhere
  where
    both : (w.entry.sync_initiated && w.entry.tx_sync_initiated) ≡ true
    both = ground (arith, on, busy)

    elsewhere : at_end tx_index (next_count b.transaction_count) ≡ false
    elsewhere = ground (arith, small, other)
