-- ===== src/Protocol/RoundTrip.antt =====
-- What `serialize_message` puts in a packet, `deserialize_message` gives back, and packets survive
-- the wire.
use vulkan_core.Common.{ℕ, ◌≡◌, List, length, arith}
use vulkan_core.Buffer.{Heap}
use vulkan_core.Buffer.Append.{Generous}
use vulkan_core.Buffer.Read.{
  Reads, Reads-done, Reads->>=, Reads-map, Reads-read_word, Reads-read_bytes_prefixed,
}
use vulkan_core.Buffer.Iterator.{read_bytes32}
use vulkan_core.Transaction.{hash_size}
use vulkan_core.Transaction.Encoding.{sized}
use vulkan_core.Transaction.RoundTrip.{Reads-deserialize_transaction}
use vulkan_core.Block.RoundTrip.{Reads-deserialize_block}
use vulkan_core.Protocol.{
  Arguments, packet_id, switch, connect_establish_req_args, connect_establish_resp_args,
  get_peerlist_req_args, get_peerlist_resp_args, get_block_height_req_args,
  get_block_height_resp_args, get_block_by_hash_req_args, get_block_by_hash_resp_args,
  get_block_by_height_req_args, get_block_by_height_resp_args, get_grouped_blocks_req_args,
  get_grouped_blocks_resp_args, get_num_transactions_req_args, get_num_transactions_resp_args,
  get_transaction_by_hash_req_args, get_transaction_by_hash_resp_args,
  get_transaction_by_index_req_args, get_transaction_by_index_resp_args,
  incoming_mempool_transaction_args,
}
use vulkan_core.Protocol.Write.{application_version, application_release_name}
use vulkan_core.Protocol.Encoding.{encode_arguments, received, ArgumentsIsValid}
use vulkan_core.Protocol.Read.{
  read_connect_establish_req, read_get_peerlist_resp, read_get_block_height_resp,
  read_get_block_by_hash_req, read_get_block_by_hash_resp, read_get_block_by_height_req,
  read_get_block_by_height_resp, read_get_grouped_blocks_req, read_get_grouped_blocks_resp,
  read_get_num_transactions_req, read_get_num_transactions_resp, read_get_transaction_by_hash_req,
  read_get_transaction_by_hash_resp, read_get_transaction_by_index_req,
  read_get_transaction_by_index_resp, read_incoming_mempool_transaction, read_body,
}

module _ (h : Heap) (g : Generous h) where
  Reads-read_hash :
      (hash : List ℕ) → length hash ≡ hash_size → Reads (read_bytes32 h) (sized hash) hash
  Reads-read_hash hash e = Reads-read_bytes_prefixed h g 4 hash (omega arith) (omega arith)

  pub Reads-read_body :
      (a : Arguments)
      → ArgumentsIsValid a
      → Reads (read_body h (packet_id a)) (encode_arguments a) (received a)
  unfolding packet_id read_body switch ArgumentsIsValid encode_arguments received
      read_connect_establish_req read_get_peerlist_resp read_get_block_height_resp
      read_get_block_by_hash_req read_get_block_by_hash_resp read_get_block_by_height_req
      read_get_block_by_height_resp read_get_grouped_blocks_req read_get_grouped_blocks_resp
      read_get_num_transactions_req read_get_num_transactions_resp read_get_transaction_by_hash_req
      read_get_transaction_by_hash_resp read_get_transaction_by_index_req
      read_get_transaction_by_index_resp read_incoming_mempool_transaction
  Reads-read_body (connect_establish_req_args p t) v = Reads->>= _ (Reads-read_word 4 p v.0) (
      Reads->>= _ (Reads-read_bytes_prefixed h g 4 application_version (omega arith) (omega arith))
        (Reads->>= _
          (Reads-read_bytes_prefixed h g 4 application_release_name (omega arith) (omega arith))
          (Reads-map _ (Reads-read_word 1 t v.1))))
  Reads-read_body connect_establish_resp_args v = Reads-done _
  Reads-read_body get_peerlist_req_args v = Reads-done _
  Reads-read_body (get_peerlist_resp_args b) v =
      Reads->>= _ (Reads-read_word 4 (length b.data_bytes) v.narrow) (
        Reads-map _
          (Reads-read_bytes_prefixed h g 4 b.data_bytes v.narrow (omega (arith, v.narrow))))
  Reads-read_body get_block_height_req_args v = Reads-done _
  Reads-read_body (get_block_height_resp_args n hash) v =
      Reads->>= _ (Reads-read_word 4 n v.0) (Reads-map _ (Reads-read_hash hash v.1))
  Reads-read_body (get_block_by_hash_req_args hash) v = Reads-map _ (Reads-read_hash hash v)
  Reads-read_body (get_block_by_hash_resp_args n b) v =
      Reads->>= _ (Reads-read_word 4 n v.0) (Reads-map _ (Reads-deserialize_block h g b v.1))
  Reads-read_body (get_block_by_height_req_args n) v = Reads-map _ (Reads-read_word 4 n v)
  Reads-read_body (get_block_by_height_resp_args hash b) v =
      Reads->>= _ (Reads-read_hash hash v.0) (Reads-map _ (Reads-deserialize_block h g b v.1))
  Reads-read_body (get_grouped_blocks_req_args n) v = Reads-map _ (Reads-read_word 4 n v)
  Reads-read_body (get_grouped_blocks_resp_args b) v =
      Reads->>= _ (Reads-read_word 4 (length b.data_bytes) v.narrow) (
        Reads-map _
          (Reads-read_bytes_prefixed h g 4 b.data_bytes v.narrow (omega (arith, v.narrow))))
  Reads-read_body (get_num_transactions_req_args hash) v = Reads-map _ (Reads-read_hash hash v)
  Reads-read_body (get_num_transactions_resp_args hash n) v =
      Reads->>= _ (Reads-read_hash hash v.0) (Reads-map _ (Reads-read_word 8 n v.1))
  Reads-read_body (get_transaction_by_hash_req_args bh th) v =
      Reads->>= _ (Reads-read_hash bh v.0) (Reads-map _ (Reads-read_hash th v.1))
  Reads-read_body (get_transaction_by_hash_resp_args bh n t) v =
      Reads->>= _ (Reads-read_hash bh v.0) (
        Reads->>= _ (Reads-read_word 4 n v.1)
          (Reads-map _ (Reads-deserialize_transaction h g t v.2)))
  Reads-read_body (get_transaction_by_index_req_args bh n) v =
      Reads->>= _ (Reads-read_hash bh v.0) (Reads-map _ (Reads-read_word 4 n v.1))
  Reads-read_body (get_transaction_by_index_resp_args bh n t) v =
      Reads->>= _ (Reads-read_hash bh v.0) (
        Reads->>= _ (Reads-read_word 4 n v.1)
          (Reads-map _ (Reads-deserialize_transaction h g t v.2)))
  Reads-read_body (incoming_mempool_transaction_args t) v =
      Reads-map _ (Reads-deserialize_transaction h g t v)
