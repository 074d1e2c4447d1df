-- ===== src/Sync/Dispatch.antt =====
-- `handle_packet`, `handle_packet_anonymous` and `handle_receive_packet` of src/core/protocol.c.
use vulkan_core.Common.{
  ℕ, Bool, true, false, ◌&&◌, not, Option, none, some, List, length, ◌==◌, if◌then◌else◌,
  same_bytes,
}
use vulkan_core.Exec.{Outcome, ok, error, fault, Action, stop, fail, ◌>>◌}
use vulkan_core.Check.{Check, crash, reject, pass}
use vulkan_core.Buffer.{Heap, load}
use vulkan_core.Protocol.{
  Message, connect_establish_req, connect_establish_resp, get_peerlist_req, get_peerlist_resp,
  get_block_height_req, get_block_height_resp, get_block_by_hash_req, get_block_by_hash_resp,
  get_block_by_height_req, get_block_by_height_resp, get_grouped_blocks_req,
  get_grouped_blocks_resp, get_num_transactions_req, get_num_transactions_resp,
  get_transaction_by_hash_req, get_transaction_by_hash_resp, get_transaction_by_index_req,
  get_transaction_by_index_resp, incoming_mempool_transaction, connect_establish_resp_args,
}
use vulkan_core.Protocol.Write.{application_version, application_release_name}
use vulkan_core.Protocol.Read.{deserialize_message}
use vulkan_core.Net.{NetConnection, close_net_connection}
use vulkan_core.Net.Receive.{Receiver, Handler}
use vulkan_core.Sync.{Services, Node, call, must, sendto}
use vulkan_core.Sync.Receive.{can_packet_be_processed}
use vulkan_core.Sync.Handle.{
  peerlist_requested, peerlist_received, height_requested, height_received, block_by_hash_requested,
  block_by_height_requested, header_answered, num_transactions_requested, num_transactions_answered,
  transaction_by_hash_requested, transaction_by_index_requested, transaction_answered,
  mempool_transaction_received,
}
use vulkan_core.Sync.Grouped.{grouped_requested, grouped_answered}

-- `memcmp(bytes, expected, strlen(expected)) == 0`; a string that is shorter is read past its end.
unfoldable pub begins_with : List ℕ → List ℕ → Option Bool
begins_with bytes expected = elim (load bytes 0 (length expected)) [
  | none ↦ none
  | some bs ↦ some (same_bytes bs expected)
]

-- The version check is a part of the build of a node.
unfoldable pub right_version : Services → List ℕ → List ℕ → Option Bool
unfolding begins_with
right_version sv number name =
    if sv.force_version_check
    then elim (begins_with number application_version) [
      | none ↦ none
      | some false ↦ some false
      | some true ↦ begins_with name application_release_name
    ]
    else some true

module _ {sv : Services} (h : Heap) where
  unfoldable pub handle_packet : ℕ → Message → Action (Node sv)
  handle_packet conn (connect_establish_req port version name testnet) = fail
  handle_packet conn connect_establish_resp = fail
  handle_packet conn get_peerlist_req =
      λ w. peerlist_requested conn (sv.serialize_peerlist w.rest) w
  handle_packet conn (get_peerlist_resp size bytes) = peerlist_received h size bytes
  handle_packet conn get_block_height_req = height_requested conn
  handle_packet conn (get_block_height_resp height hash) = height_received conn height
  handle_packet conn (get_block_by_hash_req hash) =
      λ w. block_by_hash_requested conn (sv.get_block_from_hash w.rest hash) w
  handle_packet conn (get_block_by_hash_resp height b) = header_answered conn b
  handle_packet conn (get_block_by_height_req height) = block_by_height_requested conn height
  handle_packet conn (get_block_by_height_resp hash b) = header_answered conn b
  handle_packet conn (get_grouped_blocks_req height) = grouped_requested h conn height
  handle_packet conn (get_grouped_blocks_resp size bytes) = grouped_answered h conn size bytes
  handle_packet conn (get_num_transactions_req hash) =
      λ w. num_transactions_requested conn (sv.get_block_from_hash w.rest hash) w
  handle_packet conn (get_num_transactions_resp hash n) = num_transactions_answered conn hash n
  handle_packet conn (get_transaction_by_hash_req block_hash tx_hash) = λ w.
      transaction_by_hash_requested conn block_hash tx_hash
        (sv.get_block_from_hash w.rest block_hash) w
  handle_packet conn (get_transaction_by_hash_resp block_hash tx_index tx) =
      transaction_answered conn block_hash tx_index tx
  handle_packet conn (get_transaction_by_index_req block_hash tx_index) = λ w.
      transaction_by_index_requested conn block_hash tx_index
        (sv.get_block_from_hash w.rest block_hash) w
  handle_packet conn (get_transaction_by_index_resp block_hash tx_index tx) =
      transaction_answered conn block_hash tx_index tx
  handle_packet conn (incoming_mempool_transaction tx) = mempool_transaction_received tx

  -- The rest of the node takes a step, and the connection stays as it is.
  unfoldable pub on_node :
      NetConnection → Outcome (Node sv) (Unit {0}) → Outcome (Receiver (Node sv)) (Unit {0})
  on_node c fault = fault
  on_node c (error w) = error (record { conn = c; node = w })
  on_node c (ok _ w) = ok tt (record { conn = c; node = w })

  unfoldable pub admit_peer : NetConnection → ℕ → Option Bool → Action (Node sv)
  admit_peer c testnet none = stop
  admit_peer c testnet (some right) =
      if right && testnet == sv.use_testnet
      then must (call (sv.add_peer c.address c.host_port))
        >> sendto c.address connect_establish_resp_args
      else fail

  unfoldable pub connect_requested : NetConnection → List ℕ → List ℕ → ℕ → Action (Node sv)
  unfolding admit_peer right_version
  connect_requested c number name testnet w =
      if sv.has_peer w.rest c.address c.host_port
      then error w
      else admit_peer c testnet (right_version sv number name) w

  unfoldable pub handle_packet_anonymous : Message → Action (Receiver (Node sv))
  unfolding on_node connect_requested
  handle_packet_anonymous (connect_establish_req port number name testnet) r =
      let c = record r.conn { host_port = port; anonymous = false } in
      on_node c (connect_requested c number name testnet r.node)
  handle_packet_anonymous connect_establish_resp r =
      ok tt (record r { conn = record r.conn { anonymous = false } })
  handle_packet_anonymous _ r = error (record r { conn = close_net_connection r.conn })

  unfoldable pub handle_message : ℕ → Check Message → Action (Receiver (Node sv))
  unfolding on_node handle_packet handle_packet_anonymous
  handle_message n crash r = fault
  handle_message n reject r = error r
  handle_message n (pass m) r =
      if not (can_packet_be_processed r.conn.address n r.node.entry)
      then error r
      else if r.conn.anonymous
      then handle_packet_anonymous m r
      else on_node r.conn (handle_packet r.conn.address m r.node)

  unfoldable pub handle_receive_packet : Handler (Node sv)
  unfolding handle_message
  handle_receive_packet p = handle_message p.id (deserialize_message h p)
