-- ===== src/Sync/Requests.antt =====
-- Starting, ending and clearing a synchronisation, and the requests that a node sends while it catches
-- up with a peer: src/core/protocol.c.
use vulkan_core.Common.{
  ℕ, ◌+◌, ◌-◌, ◌%◌, ◌^◌, Bool, true, false, ◌&&◌, ◌||◌, not, Option, none, some, List, [], ◌∷◌, ltb,
  leb, ◌==◌, if◌then◌else◌,
}
use vulkan_core.Exec.{ok, error, Action, stop, fail, ◌>>◌}
use vulkan_core.Block.{Block}
use vulkan_core.Protocol.{
  Arguments, get_block_by_hash_req_args, get_block_by_height_req_args, get_grouped_blocks_req_args,
  get_transaction_by_hash_req_args, get_transaction_by_index_req_args,
}
use vulkan_core.Sync.{
  SyncEntry, Services, Node, minus_one, resync_block_max_tries, started, cleared, update, must,
  sendto,
}

-- One more request for `height`.
unfoldable pub count_try : ℕ → SyncEntry → SyncEntry
count_try height e =
    if height == e.last_sync_height
    then record e { last_sync_tries = (e.last_sync_tries + 1) % 2 ^ 8 }
    else record e { last_sync_tries = 0; last_sync_height = height }

unfoldable pub count_tx_try : ℕ → SyncEntry → SyncEntry
count_tx_try tx_index e =
    if tx_index == e.last_tx_sync_index
    then record e { last_tx_sync_tries = (e.last_tx_sync_tries + 1) % 2 ^ 8 }
    else record e { last_tx_sync_tries = 0; last_tx_sync_index = tx_index }

unfoldable pub put_front : Block → Option (Block × List Block) → Option (Block × List Block)
put_front b none = some (b, [])
put_front b (some r) = some (r.0, b ∷ r.1)

-- `deque_remove_last`: the last element, and what is before it.
unfoldable pub remove_last : List Block → Option (Block × List Block)
unfolding put_front
remove_last [] = none
remove_last (b ∷ bs) = put_front b (remove_last bs)

unfoldable pub block_request : ℕ → Option (List ℕ) → Arguments
block_request height none = get_block_by_height_req_args height
block_request height (some hash) = get_block_by_hash_req_args hash

unfoldable pub transaction_request : List ℕ → ℕ → Option (List ℕ) → Arguments
transaction_request block_hash tx_index none = get_transaction_by_index_req_args block_hash tx_index
transaction_request block_hash tx_index (some tx_hash) =
    get_transaction_by_hash_req_args block_hash tx_hash

unfoldable pub wanted_height : (sv : Services) → ℕ → Option (List ℕ) → sv.State → ℕ
wanted_height sv height none s = height
wanted_height sv height (some hash) s = sv.get_block_height_from_hash s hash

module _ {sv : Services} where
  unfoldable pub init_sync_request : ℕ → ℕ → Action (Node sv)
  init_sync_request height conn w =
      if w.entry.sync_initiated then error w else ok tt (record w { entry = started height conn })

  -- Of a backup, `restore_blockchain` is called where the synchronisation failed.
  unfoldable pub clear_sync_request : Bool → Action (Node sv)
  clear_sync_request sync_success w =
      if w.entry.sync_initiated
      then ok tt (record {
        entry = cleared w.entry;
        rest =
            if not sync_success && w.entry.sync_did_backup_blockchain
            then (sv.restore_blockchain w.rest).1
            else w.rest;
      })
      else error w

  unfoldable pub clear_tx_sync_request : Action (Node sv)
  clear_tx_sync_request w =
      if w.entry.sync_initiated && w.entry.tx_sync_initiated
      then ok tt (record w {
        entry = record w.entry {
          tx_sync_initiated = false;
          tx_sync_num_txs = 0;
          last_tx_sync_index = minus_one;
          last_tx_sync_ts = 0;
          last_tx_sync_tries = 0;
        };
      })
      else error w

  unfoldable pub clear_grouped_sync_request : Action (Node sv)
  clear_grouped_sync_request w =
      if w.entry.sync_initiated
      then ok tt (record w {
        entry = record w.entry {
          sync_pending_block = none;
          is_syncing_grouped_blocks = false;
          sync_pending_blocks = [];
          sync_pending_blocks_count = 0;
        };
      })
      else error w

  unfoldable pub handle_sync_completed : Action (Node sv)
  handle_sync_completed w = ok tt (record w { rest = sv.set_workers_paused false w.rest })

  unfoldable pub check_sync_status : Bool → Action (Node sv)
  check_sync_status force w =
      let height = sv.get_block_height w.rest in
      if ltb 0 height && (leb w.entry.sync_height height || force)
      then (clear_sync_request true >> handle_sync_completed) w
      else error w

  unfoldable pub stamp_block : Action (Node sv)
  stamp_block w =
      ok tt (record w { entry = record w.entry { last_sync_ts = sv.get_current_time w.rest } })

  unfoldable pub stamp_transaction : Action (Node sv)
  stamp_transaction w =
      ok tt (record w { entry = record w.entry { last_tx_sync_ts = sv.get_current_time w.rest } })

  unfoldable pub request_sync_block : ℕ → ℕ → Option (List ℕ) → Action (Node sv)
  unfolding wanted_height block_request
  request_sync_block conn height hash w =
      let sync_height = wanted_height sv height hash w.rest in
      if leb (2 ^ 31) sync_height
      then error w
      else if ltb resync_block_max_tries w.entry.last_sync_tries
      then (must (clear_sync_request false) >> fail) w
      else (sendto conn (block_request height hash)
            >> update (count_try sync_height)
            >> stamp_block)
          w

  -- The first of the pending blocks that were received goes to `receive`.
  unfoldable pub take_pending :
      (Block → Action (Node sv)) → Option (Block × List Block) → Action (Node sv)
  take_pending receive none = stop
  take_pending receive (some r) =
      update (λ e. record e {
        sync_pending_blocks = r.1;
        sync_pending_blocks_count = e.sync_pending_blocks_count - 1;
      })
      >> receive r.0

  unfoldable pub next_block : (Block → Action (Node sv)) → ℕ → ℕ → Action (Node sv)
  unfolding take_pending remove_last
  next_block receive conn sync_height w =
      if w.entry.sync_pending_blocks_count == 0
      then sendto conn (get_grouped_blocks_req_args sync_height) w
      else take_pending receive (remove_last w.entry.sync_pending_blocks) w

  -- `request_sync_next_block`, where `receive` is `block_header_received`.
  unfoldable pub request_sync_next_block : (Block → Action (Node sv)) → ℕ → Action (Node sv)
  unfolding next_block
  request_sync_next_block receive conn w =
      let sync_height = (w.entry.last_sync_height + 1) % 2 ^ 32 in
      if sv.has_block_by_height w.rest w.entry.last_sync_height
      then (update (count_try sync_height) >> stamp_block >> next_block receive conn sync_height) w
      else error w

  unfoldable pub request_sync_transaction : ℕ → List ℕ → ℕ → Option (List ℕ) → Action (Node sv)
  unfolding transaction_request
  request_sync_transaction conn block_hash tx_index tx_hash =
      sendto conn (transaction_request block_hash tx_index tx_hash)
      >> update (count_tx_try tx_index)
      >> stamp_transaction

  unfoldable pub next_transaction : ℕ → ℕ → Option Block → Action (Node sv)
  next_transaction conn tx_index none = stop
  next_transaction conn tx_index (some b) =
      if ltb b.transaction_count tx_index
      then fail
      else request_sync_transaction conn b.hash tx_index none

  unfoldable pub request_sync_next_transaction : ℕ → Action (Node sv)
  unfolding next_transaction
  request_sync_next_transaction conn w =
      next_transaction conn ((w.entry.last_tx_sync_index + 1) % 2 ^ 32) w.entry.sync_pending_block w

  unfoldable pub request_sync_previous_block : ℕ → Action (Node sv)
  request_sync_previous_block conn w =
      request_sync_block conn ((2 ^ 32 + w.entry.last_sync_height - 1) % 2 ^ 32) none w
