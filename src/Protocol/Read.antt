-- ===== src/Protocol/Read.antt =====
-- `deserialize_message` of src/core/protocol.c, with its cases.
use vulkan_core.Common.{ℕ, ◌%◌, ◌^◌, List, [], ◌∷◌, ltb, some, if◌then◌else◌}
use vulkan_core.Exec.{Outcome, Exec, done, fail, ◌>>=◌}
use vulkan_core.Check.{Check}
use vulkan_core.Buffer.{Heap, Buffer, init, init_data}
use vulkan_core.Buffer.Iterator.{
  Iterator, read_uint8, read_uint32, read_uint64, read_bytes32, get_remaining_size,
}
use vulkan_core.Buffer.Serialized.{read_from}
use vulkan_core.Transaction.Codec.{deserialize_transaction}
use vulkan_core.Block.Codec.{deserialize_block}
use vulkan_core.Protocol.{
  Packet, Message, switch, connect_establish_req, connect_establish_resp, get_peerlist_req,
  get_peerlist_resp, get_block_height_req, get_block_height_resp, get_block_by_hash_req,
  get_block_by_hash_resp, get_block_by_height_req, get_block_by_height_resp, get_grouped_blocks_req,
  get_grouped_blocks_resp, get_num_transactions_req, get_num_transactions_resp,
  get_transaction_by_hash_req, get_transaction_by_hash_resp, get_transaction_by_index_req,
  get_transaction_by_index_resp, incoming_mempool_transaction,
}

module _ (h : Heap) where
  -- The cases of the `switch` of `deserialize_message`.
  unfoldable pub read_connect_establish_req : Exec Iterator Message
  read_connect_establish_req = do
    host_port ← read_uint32
    version_number ← read_bytes32 h
    version_name ← read_bytes32 h
    use_testnet ← read_uint8
    done (connect_establish_req host_port version_number version_name use_testnet)

  unfoldable pub read_get_peerlist_resp : Exec Iterator Message
  read_get_peerlist_resp = do
    size ← read_uint32
    bytes ← read_bytes32 h
    done (get_peerlist_resp size bytes)

  unfoldable pub read_get_block_height_resp : Exec Iterator Message
  read_get_block_height_resp = do
    height ← read_uint32
    hash ← read_bytes32 h
    done (get_block_height_resp height hash)

  unfoldable pub read_get_block_by_hash_req : Exec Iterator Message
  read_get_block_by_hash_req = read_bytes32 h >>= λ hash. done (get_block_by_hash_req hash)

  unfoldable pub read_get_block_by_hash_resp : Exec Iterator Message
  read_get_block_by_hash_resp = do
    height ← read_uint32
    block ← deserialize_block h
    done (get_block_by_hash_resp height block)

  unfoldable pub read_get_block_by_height_req : Exec Iterator Message
  read_get_block_by_height_req = read_uint32 >>= λ height. done (get_block_by_height_req height)

  unfoldable pub read_get_block_by_height_resp : Exec Iterator Message
  read_get_block_by_height_resp = do
    hash ← read_bytes32 h
    block ← deserialize_block h
    done (get_block_by_height_resp hash block)

  unfoldable pub read_get_grouped_blocks_req : Exec Iterator Message
  read_get_grouped_blocks_req = read_uint32 >>= λ height. done (get_grouped_blocks_req height)

  unfoldable pub read_get_grouped_blocks_resp : Exec Iterator Message
  read_get_grouped_blocks_resp = do
    size ← read_uint32
    bytes ← read_bytes32 h
    done (get_grouped_blocks_resp size bytes)

  unfoldable pub read_get_num_transactions_req : Exec Iterator Message
  read_get_num_transactions_req = read_bytes32 h >>= λ hash. done (get_num_transactions_req hash)

  unfoldable pub read_get_num_transactions_resp : Exec Iterator Message
  read_get_num_transactions_resp = do
    hash ← read_bytes32 h
    n ← read_uint64
    done (get_num_transactions_resp hash n)

  unfoldable pub read_get_transaction_by_hash_req : Exec Iterator Message
  read_get_transaction_by_hash_req = do
    block_hash ← read_bytes32 h
    tx_hash ← read_bytes32 h
    done (get_transaction_by_hash_req block_hash tx_hash)

  unfoldable pub read_get_transaction_by_hash_resp : Exec Iterator Message
  read_get_transaction_by_hash_resp = do
    block_hash ← read_bytes32 h
    tx_index ← read_uint32
    tx ← deserialize_transaction h
    done (get_transaction_by_hash_resp block_hash tx_index tx)

  unfoldable pub read_get_transaction_by_index_req : Exec Iterator Message
  read_get_transaction_by_index_req = do
    block_hash ← read_bytes32 h
    tx_index ← read_uint32
    done (get_transaction_by_index_req block_hash tx_index)

  unfoldable pub read_get_transaction_by_index_resp : Exec Iterator Message
  read_get_transaction_by_index_resp = do
    block_hash ← read_bytes32 h
    tx_index ← read_uint32
    tx ← deserialize_transaction h
    done (get_transaction_by_index_resp block_hash tx_index tx)

  unfoldable pub read_incoming_mempool_transaction : Exec Iterator Message
  read_incoming_mempool_transaction =
      deserialize_transaction h >>= λ tx. done (incoming_mempool_transaction tx)

  abbrev pub message_cases : List (ℕ × Exec Iterator Message)
  message_cases =
      (1, read_connect_establish_req)
      ∷ (2, done connect_establish_resp)
      ∷ (5, done get_peerlist_req)
      ∷ (6, read_get_peerlist_resp)
      ∷ (7, done get_block_height_req)
      ∷ (8, read_get_block_height_resp)
      ∷ (9, read_get_block_by_hash_req)
      ∷ (10, read_get_block_by_hash_resp)
      ∷ (11, read_get_block_by_height_req)
      ∷ (12, read_get_block_by_height_resp)
      ∷ (15, read_get_grouped_blocks_req)
      ∷ (16, read_get_grouped_blocks_resp)
      ∷ (17, read_get_num_transactions_req)
      ∷ (18, read_get_num_transactions_resp)
      ∷ (19, read_get_transaction_by_hash_req)
      ∷ (20, read_get_transaction_by_hash_resp)
      ∷ (21, read_get_transaction_by_index_req)
      ∷ (22, read_get_transaction_by_index_resp)
      ∷ (23, read_incoming_mempool_transaction)
      ∷ []

  unfoldable pub read_body : ℕ → Exec Iterator Message
  unfolding switch
  read_body packet_type = switch packet_type message_cases fail

  -- The message, where nothing is left behind it.
  unfoldable pub read_whole : ℕ → Exec Iterator Message
  unfolding read_body get_remaining_size
  read_whole packet_type = do
    message ← read_body packet_type
    remaining ← get_remaining_size
    if ltb 0 (remaining % 2 ^ 32) then fail else done message

  unfoldable pub packet_buffer : Packet → Outcome Buffer (Unit {0})
  packet_buffer p = if ltb 0 p.size then init_data h 0 (some p.data_bytes) p.size else init h

  -- `reject` is the return value 1.
  unfoldable pub deserialize_message : Packet → Check Message
  unfolding packet_buffer read_from read_whole
  deserialize_message p = read_from (packet_buffer p) (read_whole p.id)
