-- ===== src/Sync/Handle.antt =====
-- `handle_packet` of src/core/protocol.c, and the task that repeats requests.
use vulkan_core.Common.{
  ℕ, zero, suc, ◌+◌, ◌-◌, ◌%◌, ◌^◌, true, false, ◌&&◌, ◌||◌, not, Option, none, some, List, [], ◌∷◌,
  get_elem?, ltb, leb, if◌then◌else◌,
}
use vulkan_core.Exec.{Outcome, ok, error, fault, Action, done, stop, fail, ◌>>◌}
use vulkan_core.Crypto.{compare_hash}
use vulkan_core.Buffer.{Heap, Buffer, init_data}
use vulkan_core.Transaction.{Transaction}
use vulkan_core.Block.{Block}
use vulkan_core.Protocol.{
  get_peerlist_req_args, get_peerlist_resp_args, get_block_height_req_args,
  get_block_height_resp_args, get_block_by_hash_resp_args, get_block_by_height_resp_args,
  get_num_transactions_resp_args, get_transaction_by_hash_resp_args,
  get_transaction_by_index_resp_args, incoming_mempool_transaction_args,
}
use vulkan_core.Sync.{
  Services, Node, update, call, must, or_else, regardless, sendto, resync_block_request_delay,
}
use vulkan_core.Sync.Requests.{
  init_sync_request, clear_sync_request, check_sync_status, request_sync_block,
  request_sync_next_block, request_sync_next_transaction, request_sync_previous_block,
}
use vulkan_core.Sync.Receive.{from_sync_peer, block_header_received, transaction_received}

-- The place of a transaction that `get_tx_by_hash_from_block` found: `some none` stands for `NULL`.
unfoldable pub find_place : ℕ → ℕ → List Transaction → List ℕ → Option (Option (ℕ × Transaction))
find_place zero i txs tx_hash = some none
find_place (suc n) i [] tx_hash = none
find_place (suc n) i (tx ∷ txs) tx_hash =
    let rest = find_place n (i + 1) txs tx_hash in
    if compare_hash tx.id tx_hash then some (some (i, tx)) else rest

module _ {sv : Services} where
  unfoldable pub handle_sync_started : Action (Node sv)
  handle_sync_started w = ok tt (record w { rest = sv.set_workers_paused true w.rest })

  -- The first requests of a synchronisation.
  unfoldable pub first_request : ℕ → ℕ → Action (Node sv)
  first_request conn current =
      if ltb 0 current
      then update (λ e. record e { last_sync_height = (current + 1) % 2 ^ 32 })
        >> or_else (request_sync_previous_block conn) (must (clear_sync_request false))
      else update (λ e. record e { sync_start_height = 0 })
        >> or_else (request_sync_next_block (block_header_received 2 conn) conn)
            (must (clear_sync_request false))

  unfoldable pub begin_sync : Outcome (Node sv) (Unit {0}) → ℕ → ℕ → Outcome (Node sv) (Unit {0})
  unfolding first_request handle_sync_started
  begin_sync fault conn current = fault
  begin_sync (error w) conn current = ok tt w
  begin_sync (ok _ w) conn current = (first_request conn current >> handle_sync_started) w

  unfoldable pub start_sync : ℕ → ℕ → ℕ → Action (Node sv)
  unfolding begin_sync
  start_sync conn height current = regardless (clear_sync_request false) >> λ w.
      begin_sync (init_sync_request height conn w) conn current

  unfoldable pub raise_height : ℕ → Action (Node sv)
  raise_height height =
      update
        (λ e. record e { sync_height = if ltb e.sync_height height then height else e.sync_height })

  unfoldable pub height_received : ℕ → ℕ → Action (Node sv)
  unfolding start_sync raise_height from_sync_peer
  height_received conn height w =
      let current = sv.get_block_height w.rest in
      if not (ltb current height)
      then ok tt w
      else if w.entry.sync_initiated && from_sync_peer conn w.entry.net_connection
      then raise_height height w
      else if w.entry.sync_initiated && w.entry.sync_did_backup_blockchain
      then ok tt w
      else start_sync conn height current w

  -- The requests of a peer. What is sent is released afterwards.
  unfoldable pub peerlist_requested : ℕ → Option Buffer → Action (Node sv)
  peerlist_requested conn none = fail
  peerlist_requested conn (some b) = sendto conn (get_peerlist_resp_args b)

  unfoldable pub peerlist_given : Outcome Buffer (Unit {0}) → Action (Node sv)
  peerlist_given fault = stop
  peerlist_given (error b) = stop
  peerlist_given (ok _ b) = call (sv.deserialize_peerlist b)

  unfoldable pub peerlist_received : Heap → ℕ → List ℕ → Action (Node sv)
  unfolding peerlist_given
  peerlist_received h size bytes = peerlist_given (init_data h 0 (some bytes) size)

  unfoldable pub height_requested : ℕ → Action (Node sv)
  height_requested conn w =
      sendto conn
        (get_block_height_resp_args (sv.get_block_height w.rest) (sv.get_current_block_hash w.rest))
        w

  unfoldable pub block_by_hash_requested : ℕ → Option Block → Action (Node sv)
  block_by_hash_requested conn none w = ok tt w
  block_by_hash_requested conn (some b) w =
      if ltb 0 (sv.get_block_height_from_block w.rest b)
      then sendto conn (get_block_by_hash_resp_args (sv.get_block_height_from_block w.rest b) b) w
      else ok tt w

  unfoldable pub send_block_by_height : ℕ → Option Block → Action (Node sv)
  send_block_by_height conn none = done tt
  send_block_by_height conn (some b) = sendto conn (get_block_by_height_resp_args b.hash b)

  unfoldable pub block_by_height_requested : ℕ → ℕ → Action (Node sv)
  unfolding send_block_by_height
  block_by_height_requested conn height w =
      if ltb 0 height
      then send_block_by_height conn (sv.get_block_from_height w.rest height) w
      else error w

  -- `transaction_count` is a uint32_t that is read as a uint64_t argument.
  unfoldable pub num_transactions_requested : ℕ → Option Block → Action (Node sv)
  num_transactions_requested conn none = fail
  num_transactions_requested conn (some b) =
      sendto conn (get_num_transactions_resp_args b.hash b.transaction_count)

  -- Whether the answer is sent or not, `free_block` and `free_transaction` release the transaction
  -- twice.
  unfoldable pub send_placed : ℕ → List ℕ → Option (Option (ℕ × Transaction)) → Action (Node sv)
  send_placed conn block_hash none = stop
  send_placed conn block_hash (some none) = fail
  send_placed conn block_hash (some (some r)) =
      regardless (sendto conn (get_transaction_by_hash_resp_args block_hash r.0 r.1)) >> stop

  unfoldable pub transaction_by_hash_requested :
      ℕ → List ℕ → List ℕ → Option Block → Action (Node sv)
  unfolding send_placed find_place
  transaction_by_hash_requested conn block_hash tx_hash none = fail
  transaction_by_hash_requested conn block_hash tx_hash (some b) =
      send_placed conn block_hash (find_place b.transaction_count 0 b.transactions tx_hash)

  unfoldable pub send_indexed : ℕ → List ℕ → ℕ → Option Transaction → Action (Node sv)
  send_indexed conn block_hash tx_index none = stop
  send_indexed conn block_hash tx_index (some tx) =
      sendto conn (get_transaction_by_index_resp_args block_hash tx_index tx)

  unfoldable pub transaction_by_index_requested : ℕ → List ℕ → ℕ → Option Block → Action (Node sv)
  unfolding send_indexed
  transaction_by_index_requested conn block_hash tx_index none = fail
  transaction_by_index_requested conn block_hash tx_index (some b) =
      if leb tx_index b.transaction_count
      then send_indexed conn block_hash tx_index (get_elem? b.transactions tx_index)
      else fail

  -- The answers of the peer.
  unfoldable pub header_answered : ℕ → Block → Action (Node sv)
  header_answered conn block w =
      if w.entry.sync_initiated || w.entry.sync_finding_top_block
      then block_header_received 2 conn block w
      else error w

  unfoldable pub pending_answered : ℕ → List ℕ → ℕ → Option Block → Action (Node sv)
  pending_answered conn hash n none = fail
  pending_answered conn hash n (some b) =
      if compare_hash hash b.hash
      then update (λ e. record e { tx_sync_initiated = true; tx_sync_num_txs = n % 2 ^ 32 })
        >> or_else (request_sync_next_transaction conn) (must (clear_sync_request false))
      else fail

  unfoldable pub num_transactions_answered : ℕ → List ℕ → ℕ → Action (Node sv)
  unfolding pending_answered
  num_transactions_answered conn hash n w =
      if w.entry.sync_initiated && not w.entry.tx_sync_initiated
      then pending_answered conn hash n w.entry.sync_pending_block w
      else error w

  unfoldable pub pending_transaction :
      ℕ → List ℕ → ℕ → Transaction → Option Block → Action (Node sv)
  pending_transaction conn block_hash tx_index tx none = fail
  pending_transaction conn block_hash tx_index tx (some b) =
      if compare_hash block_hash b.hash then transaction_received conn tx tx_index else fail

  unfoldable pub transaction_answered : ℕ → List ℕ → ℕ → Transaction → Action (Node sv)
  unfolding pending_transaction
  transaction_answered conn block_hash tx_index tx w =
      if w.entry.sync_initiated && w.entry.tx_sync_initiated
      then pending_transaction conn block_hash tx_index tx w.entry.sync_pending_block w
      else error w

  unfoldable pub mempool_transaction_received : Transaction → Action (Node sv)
  mempool_transaction_received tx =
      call (sv.validate_and_add_tx_to_mempool tx)
      >> call (sv.handle_packet_broadcast (incoming_mempool_transaction_args tx))

  unfoldable pub request_again : Option ℕ → Action (Node sv)
  request_again none = stop
  request_again (some conn) =
      regardless (λ w. request_sync_block conn w.entry.last_sync_height none w)

  -- The task that runs every two seconds, up to its broadcasts.
  unfoldable pub resync_request : Action (Node sv)
  unfolding request_again
  resync_request w =
      if w.entry.sync_initiated
        && ltb resync_block_request_delay
            ((2 ^ 32 + sv.get_current_time w.rest - w.entry.last_sync_ts) % 2 ^ 32)
      then request_again w.entry.net_connection w
      else ok tt w

  unfoldable pub resync_chain : Action (Node sv)
  unfolding resync_request
  resync_chain =
      resync_request
      >> must (call (sv.handle_packet_broadcast get_peerlist_req_args))
      >> must (call (sv.handle_packet_broadcast get_block_height_req_args))

  -- Of `ev_handler` of src/core/net.c: the connection to the peer was closed by the other side.
  unfoldable pub ended : Outcome (Node sv) (Unit {0}) → Outcome (Node sv) (Unit {0})
  ended fault = fault
  ended (error w) = must (clear_sync_request false) w
  ended (ok _ w) = ok tt w

  unfoldable pub sync_peer_closed : ℕ → Action (Node sv)
  unfolding ended
  sync_peer_closed conn w =
      if sv.is_peer w.rest conn
        && (w.entry.sync_initiated && from_sync_peer conn w.entry.net_connection)
      then ended (check_sync_status true w)
      else ok tt w
