-- ===== src/Protocol/Encoding.antt =====
-- What the messages look like on the wire, as plain byte strings, and that `serialize_message`
-- writes it.
use vulkan_core.Common.{
  ℕ, ◌%◌, ◌^◌, ◌<◌, ◌≡◌, refl, List, [], ◌++◌, length, ◌==◌, arith, inl, inr, Bool-cases,
}
use vulkan_core.Bytes.{le_bytes}
use vulkan_core.Buffer.{Heap, Buffer}
use vulkan_core.Buffer.Append.{Generous, Appends, Appends-done, Appends->>, Appends-write_word}
use vulkan_core.Transaction.{TransactionIsValid, hash_size}
use vulkan_core.Transaction.Encoding.{
  sized, sized_bytes, encode_transaction, Appends-serialize_transaction,
}
use vulkan_core.Transaction.RoundTrip.{load_all}
use vulkan_core.Block.{BlockIsValid}
use vulkan_core.Block.RoundTrip.{encode_block, Appends-serialize_block}
use vulkan_core.Protocol.{
  Message, Arguments, connect_establish_req, connect_establish_resp, get_peerlist_req,
  get_peerlist_resp, get_block_height_req, get_block_height_resp, get_block_by_hash_req,
  get_block_by_hash_resp, get_block_by_height_req, get_block_by_height_resp, get_grouped_blocks_req,
  get_grouped_blocks_resp, get_num_transactions_req, get_num_transactions_resp,
  get_transaction_by_hash_req, get_transaction_by_hash_resp, get_transaction_by_index_req,
  get_transaction_by_index_resp, incoming_mempool_transaction, connect_establish_req_args,
  connect_establish_resp_args, get_peerlist_req_args, get_peerlist_resp_args,
  get_block_height_req_args, get_block_height_resp_args, get_block_by_hash_req_args,
  get_block_by_hash_resp_args, get_block_by_height_req_args, get_block_by_height_resp_args,
  get_grouped_blocks_req_args, get_grouped_blocks_resp_args, get_num_transactions_req_args,
  get_num_transactions_resp_args, get_transaction_by_hash_req_args,
  get_transaction_by_hash_resp_args, get_transaction_by_index_req_args,
  get_transaction_by_index_resp_args, incoming_mempool_transaction_args,
}
use vulkan_core.Protocol.Codec.{write_sized, write_hash}
use vulkan_core.Protocol.Write.{
  application_version, application_release_name, write_connect_establish_req, write_whole_buffer,
  write_get_peerlist_resp, write_get_block_height_resp, write_get_block_by_hash_req,
  write_get_block_by_hash_resp, write_get_block_by_height_req, write_get_block_by_height_resp,
  write_get_grouped_blocks_req, write_get_grouped_blocks_resp, write_get_num_transactions_req,
  write_get_num_transactions_resp, write_get_transaction_by_hash_req,
  write_get_transaction_by_hash_resp, write_get_transaction_by_index_req,
  write_get_transaction_by_index_resp, write_body,
}

-- A buffer as the senders fill it: from its front to its end, and not empty.
pub record BufferIsSent (b : Buffer) : Type 0 where
  pub whole : b.size ≡ length b.data_bytes
  pub nonempty : 0 < length b.data_bytes
  pub narrow : length b.data_bytes < 2 ^ 32

unfoldable pub encode_arguments : Arguments → List ℕ
encode_arguments (connect_establish_req_args p t) =
    le_bytes 4 p ++ (sized application_version ++ (sized application_release_name ++ le_bytes 1 t))
encode_arguments connect_establish_resp_args = []
encode_arguments get_peerlist_req_args = []
encode_arguments (get_peerlist_resp_args b) = le_bytes 4 (length b.data_bytes) ++ sized b.data_bytes
encode_arguments get_block_height_req_args = []
encode_arguments (get_block_height_resp_args n hash) = le_bytes 4 n ++ sized hash
encode_arguments (get_block_by_hash_req_args hash) = sized hash
encode_arguments (get_block_by_hash_resp_args n b) = le_bytes 4 n ++ encode_block b
encode_arguments (get_block_by_height_req_args n) = le_bytes 4 n
encode_arguments (get_block_by_height_resp_args hash b) = sized hash ++ encode_block b
encode_arguments (get_grouped_blocks_req_args n) = le_bytes 4 n
encode_arguments (get_grouped_blocks_resp_args b) =
    le_bytes 4 (length b.data_bytes) ++ sized b.data_bytes
encode_arguments (get_num_transactions_req_args hash) = sized hash
encode_arguments (get_num_transactions_resp_args hash n) = sized hash ++ le_bytes 8 n
encode_arguments (get_transaction_by_hash_req_args bh th) = sized bh ++ sized th
encode_arguments (get_transaction_by_hash_resp_args bh n t) =
    sized bh ++ (le_bytes 4 n ++ encode_transaction t)
encode_arguments (get_transaction_by_index_req_args bh n) = sized bh ++ le_bytes 4 n
encode_arguments (get_transaction_by_index_resp_args bh n t) =
    sized bh ++ (le_bytes 4 n ++ encode_transaction t)
encode_arguments (incoming_mempool_transaction_args t) = encode_transaction t

-- The message that the receiver is to see.
unfoldable pub received : Arguments → Message
received (connect_establish_req_args p t) =
    connect_establish_req p application_version application_release_name t
received connect_establish_resp_args = connect_establish_resp
received get_peerlist_req_args = get_peerlist_req
received (get_peerlist_resp_args b) = get_peerlist_resp (length b.data_bytes) b.data_bytes
received get_block_height_req_args = get_block_height_req
received (get_block_height_resp_args n hash) = get_block_height_resp n hash
received (get_block_by_hash_req_args hash) = get_block_by_hash_req hash
received (get_block_by_hash_resp_args n b) =
    get_block_by_hash_resp n (record b { transactions = [] })
received (get_block_by_height_req_args n) = get_block_by_height_req n
received (get_block_by_height_resp_args hash b) =
    get_block_by_height_resp hash (record b { transactions = [] })
received (get_grouped_blocks_req_args n) = get_grouped_blocks_req n
received (get_grouped_blocks_resp_args b) =
    get_grouped_blocks_resp (length b.data_bytes) b.data_bytes
received (get_num_transactions_req_args hash) = get_num_transactions_req hash
received (get_num_transactions_resp_args hash n) = get_num_transactions_resp hash n
received (get_transaction_by_hash_req_args bh th) = get_transaction_by_hash_req bh th
received (get_transaction_by_hash_resp_args bh n t) = get_transaction_by_hash_resp bh n t
received (get_transaction_by_index_req_args bh n) = get_transaction_by_index_req bh n
received (get_transaction_by_index_resp_args bh n t) = get_transaction_by_index_resp bh n t
received (incoming_mempool_transaction_args t) = incoming_mempool_transaction t

-- The sizes and widths are those of the C types, and what is pointed to is well-formed.
unfoldable pub ArgumentsIsValid : Arguments → Type 0
ArgumentsIsValid (connect_establish_req_args p t) = (p < 2 ^ 32) × (t < 2 ^ 8)
ArgumentsIsValid connect_establish_resp_args = Unit
ArgumentsIsValid get_peerlist_req_args = Unit
ArgumentsIsValid (get_peerlist_resp_args b) = BufferIsSent b
ArgumentsIsValid get_block_height_req_args = Unit
ArgumentsIsValid (get_block_height_resp_args n hash) = (n < 2 ^ 32) × (length hash ≡ hash_size)
ArgumentsIsValid (get_block_by_hash_req_args hash) = length hash ≡ hash_size
ArgumentsIsValid (get_block_by_hash_resp_args n b) = (n < 2 ^ 32) × BlockIsValid b
ArgumentsIsValid (get_block_by_height_req_args n) = n < 2 ^ 32
ArgumentsIsValid (get_block_by_height_resp_args hash b) = (length hash ≡ hash_size) × BlockIsValid b
ArgumentsIsValid (get_grouped_blocks_req_args n) = n < 2 ^ 32
ArgumentsIsValid (get_grouped_blocks_resp_args b) = BufferIsSent b
ArgumentsIsValid (get_num_transactions_req_args hash) = length hash ≡ hash_size
ArgumentsIsValid (get_num_transactions_resp_args hash n) = (length hash ≡ hash_size) × (n < 2 ^ 64)
ArgumentsIsValid (get_transaction_by_hash_req_args bh th) =
    (length bh ≡ hash_size) × (length th ≡ hash_size)
ArgumentsIsValid (get_transaction_by_hash_resp_args bh n t) =
    (length bh ≡ hash_size) × (n < 2 ^ 32) × TransactionIsValid t
ArgumentsIsValid (get_transaction_by_index_req_args bh n) = (length bh ≡ hash_size) × (n < 2 ^ 32)
ArgumentsIsValid (get_transaction_by_index_resp_args bh n t) =
    (length bh ≡ hash_size) × (n < 2 ^ 32) × TransactionIsValid t
ArgumentsIsValid (incoming_mempool_transaction_args t) = TransactionIsValid t

module _ (h : Heap) (g : Generous h) where
  pub Appends-write_sized :
      (bytes : List ℕ) (n : ℕ)
      → length bytes ≡ n
      → 0 < n
      → Appends (write_sized h bytes n) (sized bytes)
  unfolding write_sized
  Appends-write_sized bytes n e pos = rw (load_all bytes n e) (sized_bytes h g bytes (omega arith))

  Appends-write_hash :
      (hash : List ℕ) → length hash ≡ hash_size → Appends (write_hash h hash) (sized hash)
  unfolding write_hash
  Appends-write_hash hash e = Appends-write_sized hash hash_size e (omega arith)

  Appends-write_whole_buffer :
      (b : Buffer)
      → BufferIsSent b
      → Appends (write_whole_buffer h b) (le_bytes 4 (length b.data_bytes) ++ sized b.data_bytes)
  unfolding write_whole_buffer
  Appends-write_whole_buffer b v = elim (Bool-cases (length b.data_bytes == 0)) [
    | inl e ↦ absurd (ground (arith, v.nonempty))
    | inr e ↦
        rw (e, size32)
          (Appends->> (Appends-write_word h g 4 (length b.data_bytes) (omega arith))
            (Appends-write_sized b.data_bytes (length b.data_bytes) refl v.nonempty))
  ]
    where
      size32 : b.size % 2 ^ 32 ≡ length b.data_bytes
      size32 = omega (arith, v.whole, v.narrow)

  pub Appends-write_body :
      (a : Arguments) → ArgumentsIsValid a → Appends (write_body h a) (encode_arguments a)
  unfolding write_body ArgumentsIsValid encode_arguments write_connect_establish_req
      write_get_peerlist_resp write_get_block_height_resp write_get_block_by_hash_req
      write_get_block_by_hash_resp write_get_block_by_height_req write_get_block_by_height_resp
      write_get_grouped_blocks_req write_get_grouped_blocks_resp write_get_num_transactions_req
      write_get_num_transactions_resp write_get_transaction_by_hash_req
      write_get_transaction_by_hash_resp write_get_transaction_by_index_req
      write_get_transaction_by_index_resp
  Appends-write_body (connect_establish_req_args p t) v =
      Appends->> (Appends-write_word h g 4 p (omega arith)) (
        Appends->> (sized_bytes h g application_version (omega arith)) (
          Appends->> (sized_bytes h g application_release_name (omega arith))
            (Appends-write_word h g 1 t (omega arith))))
  Appends-write_body connect_establish_resp_args v = Appends-done
  Appends-write_body get_peerlist_req_args v = Appends-done
  Appends-write_body (get_peerlist_resp_args b) v = Appends-write_whole_buffer b v
  Appends-write_body get_block_height_req_args v = Appends-done
  Appends-write_body (get_block_height_resp_args n hash) v =
      Appends->> (Appends-write_word h g 4 n (omega arith)) (Appends-write_hash hash v.1)
  Appends-write_body (get_block_by_hash_req_args hash) v = Appends-write_hash hash v
  Appends-write_body (get_block_by_hash_resp_args n b) v =
      Appends->> (Appends-write_word h g 4 n (omega arith)) (Appends-serialize_block h g b v.1)
  Appends-write_body (get_block_by_height_req_args n) v = Appends-write_word h g 4 n (omega arith)
  Appends-write_body (get_block_by_height_resp_args hash b) v =
      Appends->> (Appends-write_hash hash v.0) (Appends-serialize_block h g b v.1)
  Appends-write_body (get_grouped_blocks_req_args n) v = Appends-write_word h g 4 n (omega arith)
  Appends-write_body (get_grouped_blocks_resp_args b) v = Appends-write_whole_buffer b v
  Appends-write_body (get_num_transactions_req_args hash) v = Appends-write_hash hash v
  Appends-write_body (get_num_transactions_resp_args hash n) v =
      Appends->> (Appends-write_hash hash v.0) (Appends-write_word h g 8 n (omega arith))
  Appends-write_body (get_transaction_by_hash_req_args bh th) v =
      Appends->> (Appends-write_hash bh v.0) (Appends-write_hash th v.1)
  Appends-write_body (get_transaction_by_hash_resp_args bh n t) v =
      Appends->> (Appends-write_hash bh v.0) (
        Appends->> (Appends-write_word h g 4 n (omega arith))
          (Appends-serialize_transaction h g t v.2))
  Appends-write_body (get_transaction_by_index_req_args bh n) v =
      Appends->> (Appends-write_hash bh v.0) (Appends-write_word h g 4 n (omega arith))
  Appends-write_body (get_transaction_by_index_resp_args bh n t) v =
      Appends->> (Appends-write_hash bh v.0) (
        Appends->> (Appends-write_word h g 4 n (omega arith))
          (Appends-serialize_transaction h g t v.2))
  Appends-write_body (incoming_mempool_transaction_args t) v = Appends-serialize_transaction h g t v
