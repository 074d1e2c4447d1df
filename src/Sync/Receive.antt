-- ===== src/Sync/Receive.antt =====
-- What a node does with the headers and transactions that it asked for: `block_header_received`,
-- `transaction_received` and what they call, of src/core/protocol.c.
use vulkan_core.Common.{
  ℕ, zero, suc, ◌+◌, ◌%◌, ◌^◌, Bool, true, false, ◌&&◌, ◌||◌, not, Option, none, some, List, [],
  ltb, leb, ◌==◌, if◌then◌else◌,
}
use vulkan_core.Exec.{Outcome, ok, error, fault, Action, stop, fail, ◌>>◌}
use vulkan_core.Crypto.{compare_hash}
use vulkan_core.Transaction.{Transaction}
use vulkan_core.Block.{Block, add_transaction_to_block}
use vulkan_core.Protocol.{get_num_transactions_req_args}
use vulkan_core.Sync.{SyncEntry, Services, Node, minus_one, update, call, must, or_else, sendto}
use vulkan_core.Sync.Requests.{
  clear_sync_request, clear_tx_sync_request, clear_grouped_sync_request, check_sync_status,
  request_sync_next_block, request_sync_next_transaction, request_sync_previous_block,
}

-- A checkpoint at the height that is asked for; without one every hash is right.
unfoldable pub checked : Option (List ℕ) → List ℕ → Bool
checked none hash = true
checked (some expected) hash = compare_hash hash expected

-- The answers to the requests are taken from the peer that they were sent to only.
unfoldable pub from_sync_peer : ℕ → Option ℕ → Bool
from_sync_peer conn none = false
from_sync_peer conn (some peer) = conn == peer

unfoldable pub can_packet_be_processed : ℕ → ℕ → SyncEntry → Bool
unfolding from_sync_peer
can_packet_be_processed conn n e =
    if n == 10 || n == 12 || n == 16 || n == 18 || n == 20 || n == 22
    then from_sync_peer conn e.net_connection
    else true

module _ {sv : Services} where
  unfoldable pub roll_back : ℕ → Action (Node sv)
  roll_back current w =
      if ltb w.entry.sync_start_height current
      then call (sv.rollback_blockchain w.entry.sync_start_height) w
      else ok tt w

  unfoldable pub backup_blockchain_and_rollback : Action (Node sv)
  unfolding roll_back
  backup_blockchain_and_rollback w =
      let current = sv.get_block_height w.rest in
      if ltb 0 current
      then (call sv.backup_blockchain
            >> update (λ e. record e { sync_did_backup_blockchain = true })
            >> roll_back current)
          w
      else ok tt w

  -- The first header while the top block is looked for: the search starts at the height of the chain.
  unfoldable pub find_top_block : Action (Node sv)
  find_top_block w =
      if w.entry.sync_finding_top_block
      then ok tt w
      else ok tt (record w {
        entry = record w.entry {
          last_sync_height = sv.get_block_height w.rest;
          sync_finding_top_block = true;
        };
      })

  unfoldable pub next_of : (ℕ → Block → Action (Node sv)) → Option ℕ → Action (Node sv)
  next_of receive none = stop
  next_of receive (some conn) = request_sync_next_block (receive conn) conn

  -- `can_rollback_and_resync`: the header at which the two chains meet was found.
  unfoldable pub rollback_and_resync : (ℕ → Block → Action (Node sv)) → Action (Node sv)
  unfolding next_of backup_blockchain_and_rollback
  rollback_and_resync receive =
      update (λ e. record e { sync_finding_top_block = false })
      >> or_else backup_blockchain_and_rollback (must (clear_sync_request false))
      >> must clear_grouped_sync_request
      >> update (λ e. record e { last_sync_height = e.sync_start_height })
      >> λ w. next_of receive w.entry.net_connection w

  unfoldable pub starting_block : (ℕ → Block → Action (Node sv)) → ℕ → Block → Action (Node sv)
  unfolding rollback_and_resync
  starting_block receive conn block w =
      if sv.has_block_by_hash w.rest block.hash
      then (update (λ e. record e { sync_start_height = e.last_sync_height })
            >> rollback_and_resync receive)
          w
      else if leb w.entry.last_sync_height 1
      then (update (λ e. record e { sync_start_height = 0 }) >> rollback_and_resync receive) w
      else or_else (request_sync_previous_block conn) (must (clear_sync_request false)) w

  -- A header of the chain to be: its transactions are asked for.
  unfoldable pub pending_header : ℕ → Block → Action (Node sv)
  pending_header conn block =
      or_else (sendto conn (get_num_transactions_req_args block.hash))
        (must (clear_sync_request false))
      >> update (λ e. record e {
        sync_pending_block = some (record block { transaction_count = 0; transactions = [] });
      })

  unfoldable pub header_received : (ℕ → Block → Action (Node sv)) → ℕ → Block → Action (Node sv)
  unfolding checked find_top_block starting_block pending_header
  header_received receive conn block w =
      if not w.entry.sync_initiated
      then ok tt w
      else if not (checked (sv.checkpoint_hash w.entry.last_sync_height) block.hash)
      then (must (clear_sync_request false) >> fail) w
      else if w.entry.sync_start_height == minus_one
      then (find_top_block >> starting_block receive conn block) w
      else if w.entry.tx_sync_initiated
      then ok tt w
      else pending_header conn block w

  -- `block_header_received` and `request_sync_next_block` call each other: at most `fuel` times.
  unfoldable pub block_header_received : ℕ → ℕ → Block → Action (Node sv)
  unfolding header_received
  block_header_received zero conn block = stop
  block_header_received (suc fuel) conn block =
      let receive = block_header_received fuel in header_received receive conn block

  -- What follows `check_sync_status`, whose value 1 says that blocks are missing.
  unfoldable pub synchronized : ℕ → Outcome (Node sv) (Unit {0}) → Outcome (Node sv) (Unit {0})
  unfolding next_of
  synchronized conn fault = fault
  synchronized conn (error w) = next_of (block_header_received 2) w.entry.net_connection w
  synchronized conn (ok _ w) = ok tt w

  unfoldable pub block_header_sync_complete : ℕ → Block → Action (Node sv)
  unfolding synchronized
  block_header_sync_complete conn block = call (sv.validate_and_insert_block block) >> λ w.
      synchronized conn (check_sync_status false w)

  -- The block that was completed: its root must be that of its transactions.
  unfoldable pub block_completed : ℕ → Block → Action (Node sv)
  unfolding block_header_sync_complete
  block_completed conn block =
      if sv.valid_merkle_root block
      then must clear_tx_sync_request
        >> or_else (block_header_sync_complete conn block) (must (clear_sync_request false))
      else must (clear_sync_request false) >> fail

  unfoldable pub transaction_added : ℕ → ℕ → Outcome Block (Unit {0}) → Action (Node sv)
  unfolding block_completed
  transaction_added conn tx_index fault w = fault
  transaction_added conn tx_index (error b) w = fault
  transaction_added conn tx_index (ok _ b) w =
      if ltb ((tx_index + 1) % 2 ^ 32) w.entry.tx_sync_num_txs
      then (update (λ e. record e { sync_pending_block = some b })
            >> or_else (request_sync_next_transaction conn) (must (clear_sync_request false)))
          w
      else (update (λ e. record e { sync_pending_block = some b }) >> block_completed conn b) w

  unfoldable pub add_pending : ℕ → Transaction → ℕ → Option Block → Action (Node sv)
  unfolding transaction_added
  add_pending conn tx tx_index none = stop
  add_pending conn tx tx_index (some b) =
      transaction_added conn tx_index (add_transaction_to_block tx tx_index b)

  unfoldable pub transaction_received : ℕ → Transaction → ℕ → Action (Node sv)
  unfolding add_pending
  transaction_received conn tx tx_index w =
      if w.entry.sync_initiated && w.entry.tx_sync_initiated
      then add_pending conn tx tx_index w.entry.sync_pending_block w
      else ok tt w
