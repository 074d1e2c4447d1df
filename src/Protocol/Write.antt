-- ===== src/Protocol/Write.antt =====
-- `serialize_message` of src/core/protocol.c, with its cases.
use vulkan_core.Common.{
  ℕ, ◌%◌, ◌^◌, Bool, false, List, [], ◌∷◌, length, ltb, ◌==◌, ◌||◌, if◌then◌else◌,
}
use vulkan_core.Exec.{Outcome, ok, error, fault, Action, done, stop, ◌>>◌}
use vulkan_core.Check.{Check, crash, reject, pass, access}
use vulkan_core.Check
use vulkan_core.Buffer.{
  Heap, Buffer, load, init, write_uint8, write_uint32, write_uint64, write_bytes32,
}
use vulkan_core.Buffer.Serialized.{allocate, fill}
use vulkan_core.Transaction.{Transaction}
use vulkan_core.Block.{Block}
use vulkan_core.Transaction.Codec.{serialize_transaction}
use vulkan_core.Block.Codec.{serialize_block}
use vulkan_core.Protocol.{
  Packet, Arguments, make_packet, packet_id, connect_establish_req_args,
  connect_establish_resp_args, get_peerlist_req_args, get_peerlist_resp_args,
  get_block_height_req_args, get_block_height_resp_args, get_block_by_hash_req_args,
  get_block_by_hash_resp_args, get_block_by_height_req_args, get_block_by_height_resp_args,
  get_grouped_blocks_req_args, get_grouped_blocks_resp_args, get_num_transactions_req_args,
  get_num_transactions_resp_args, get_transaction_by_hash_req_args,
  get_transaction_by_hash_resp_args, get_transaction_by_index_req_args,
  get_transaction_by_index_resp_args, incoming_mempool_transaction_args,
}
use vulkan_core.Protocol.Codec.{write_sized, write_hash}

-- "1.0.0"
abbrev pub application_version : List ℕ
application_version = 49 ∷ 46 ∷ 48 ∷ 46 ∷ 48 ∷ []

-- "electrum"
abbrev pub application_release_name : List ℕ
application_release_name = 101 ∷ 108 ∷ 101 ∷ 99 ∷ 116 ∷ 114 ∷ 117 ∷ 109 ∷ []

-- The packet types that `serialize_message` and `deserialize_message` have a case for.
abbrev pub handled_ids : List ℕ
handled_ids =
    1 ∷ 2 ∷ 5 ∷ 6 ∷ 7 ∷ 8 ∷ 9 ∷ 10 ∷ 11 ∷ 12 ∷ 15 ∷ 16 ∷ 17 ∷ 18 ∷ 19 ∷ 20 ∷ 21 ∷ 22 ∷ 23 ∷ []

unfoldable pub one_of : ℕ → List ℕ → Bool
one_of n [] = false
one_of n (k ∷ ks) = n == k || one_of n ks

unfoldable pub handled : ℕ → Bool
unfolding one_of
handled n = one_of n handled_ids

module _ (h : Heap) where
  -- The cases of the `switch` of `serialize_message`.
  unfoldable pub write_connect_establish_req : ℕ → ℕ → Action Buffer
  write_connect_establish_req host_port use_testnet = do
    write_uint32 h host_port
    write_bytes32 h application_version
    write_bytes32 h application_release_name
    write_uint8 h use_testnet

  -- A buffer that is sent: its size as a uint32_t, then its bytes, which must not be `NULL`.
  unfoldable pub write_whole_buffer : Buffer → Action Buffer
  write_whole_buffer b =
      if length b.data_bytes == 0
      then stop
      else write_uint32 h (b.size % 2 ^ 32) >> write_sized h b.data_bytes (b.size % 2 ^ 32)

  unfoldable pub write_get_peerlist_resp : Buffer → Action Buffer
  unfolding write_whole_buffer
  write_get_peerlist_resp peerlist_buffer = write_whole_buffer peerlist_buffer

  unfoldable pub write_get_block_height_resp : ℕ → List ℕ → Action Buffer
  write_get_block_height_resp height hash = write_uint32 h height >> write_hash h hash

  unfoldable pub write_get_block_by_hash_req : List ℕ → Action Buffer
  write_get_block_by_hash_req hash = write_hash h hash

  unfoldable pub write_get_block_by_hash_resp : ℕ → Block → Action Buffer
  write_get_block_by_hash_resp height block = write_uint32 h height >> serialize_block h block

  unfoldable pub write_get_block_by_height_req : ℕ → Action Buffer
  write_get_block_by_height_req height = write_uint32 h height

  unfoldable pub write_get_block_by_height_resp : List ℕ → Block → Action Buffer
  write_get_block_by_height_resp hash block = write_hash h hash >> serialize_block h block

  unfoldable pub write_get_grouped_blocks_req : ℕ → Action Buffer
  write_get_grouped_blocks_req height = write_uint32 h height

  unfoldable pub write_get_grouped_blocks_resp : Buffer → Action Buffer
  unfolding write_whole_buffer
  write_get_grouped_blocks_resp block_data_buffer = write_whole_buffer block_data_buffer

  unfoldable pub write_get_num_transactions_req : List ℕ → Action Buffer
  write_get_num_transactions_req hash = write_hash h hash

  unfoldable pub write_get_num_transactions_resp : List ℕ → ℕ → Action Buffer
  write_get_num_transactions_resp hash n = write_hash h hash >> write_uint64 h n

  unfoldable pub write_get_transaction_by_hash_req : List ℕ → List ℕ → Action Buffer
  write_get_transaction_by_hash_req block_hash tx_hash =
      write_hash h block_hash >> write_hash h tx_hash

  unfoldable pub write_get_transaction_by_hash_resp : List ℕ → ℕ → Transaction → Action Buffer
  write_get_transaction_by_hash_resp block_hash tx_index tx = do
    write_hash h block_hash
    write_uint32 h tx_index
    serialize_transaction h tx

  unfoldable pub write_get_transaction_by_index_req : List ℕ → ℕ → Action Buffer
  write_get_transaction_by_index_req block_hash n = write_hash h block_hash >> write_uint32 h n

  unfoldable pub write_get_transaction_by_index_resp : List ℕ → ℕ → Transaction → Action Buffer
  write_get_transaction_by_index_resp block_hash tx_index tx = do
    write_hash h block_hash
    write_uint32 h tx_index
    serialize_transaction h tx

  unfoldable pub write_body : Arguments → Action Buffer
  write_body (connect_establish_req_args p t) = write_connect_establish_req p t
  write_body connect_establish_resp_args = done tt
  write_body get_peerlist_req_args = done tt
  write_body (get_peerlist_resp_args b) = write_get_peerlist_resp b
  write_body get_block_height_req_args = done tt
  write_body (get_block_height_resp_args n hash) = write_get_block_height_resp n hash
  write_body (get_block_by_hash_req_args hash) = write_get_block_by_hash_req hash
  write_body (get_block_by_hash_resp_args n b) = write_get_block_by_hash_resp n b
  write_body (get_block_by_height_req_args n) = write_get_block_by_height_req n
  write_body (get_block_by_height_resp_args hash b) = write_get_block_by_height_resp hash b
  write_body (get_grouped_blocks_req_args n) = write_get_grouped_blocks_req n
  write_body (get_grouped_blocks_resp_args b) = write_get_grouped_blocks_resp b
  write_body (get_num_transactions_req_args hash) = write_get_num_transactions_req hash
  write_body (get_num_transactions_resp_args hash n) = write_get_num_transactions_resp hash n
  write_body (get_transaction_by_hash_req_args bh th) = write_get_transaction_by_hash_req bh th
  write_body (get_transaction_by_hash_resp_args bh n t) = write_get_transaction_by_hash_resp bh n t
  write_body (get_transaction_by_index_req_args bh n) = write_get_transaction_by_index_req bh n
  write_body (get_transaction_by_index_resp_args bh n t) =
      write_get_transaction_by_index_resp bh n t
  write_body (incoming_mempool_transaction_args t) = serialize_transaction h t

  -- The packet that is made of the buffer; a failed `malloc` is an assertion.
  unfoldable pub packet_of : ℕ → Outcome Buffer (Unit {0}) → Check Packet
  packet_of packet_type fault = crash
  packet_of packet_type (error b) = reject
  packet_of packet_type (ok _ b) =
      if ltb 0 (b.size % 2 ^ 32)
      then Check.◌>>=◌ (access (allocate h (b.size % 2 ^ 32))) (λ _.
        Check.◌>>=◌ (access (load b.data_bytes 0 (b.size % 2 ^ 32)))
          (λ bytes. pass (record { id = packet_type; size = b.size % 2 ^ 32; data_bytes = bytes })))
      else pass (record make_packet { id = packet_type })

  -- Arguments of another packet type are read by `va_arg` as what they are not.
  unfoldable pub serialize_message : ℕ → Arguments → Check Packet
  unfolding packet_id packet_of
  serialize_message packet_type args =
      if handled packet_type
      then (if packet_type == packet_id args
          then packet_of packet_type (fill (init h) (write_body args))
          else crash)
      else reject
