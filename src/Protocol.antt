-- ===== src/Protocol.antt =====
-- src/core/protocol.h and src/core/protocol.c: the packets and messages that peers exchange.
pub mod Codec
pub mod Write
pub mod Read
pub mod Encoding
pub mod RoundTrip
pub mod Delivery
pub mod Packets
pub mod Send
pub mod Bounds
pub mod Tests
use vulkan_core.Common.{
  ℕ, ◌^◌, ◌<◌, ◌≡◌, Bool, true, false, List, [], ◌∷◌, length, ◌==◌, if◌then◌else◌,
}
use vulkan_core.Buffer.{Buffer}
use vulkan_core.Transaction.{Transaction, TransactionIsValid, hash_size}
use vulkan_core.Block.{Block, BlockIsValid}

-- The packet types that are sent; `unknown_id` is the type of a packet that was just made.
abbrev pub unknown_id : ℕ
unknown_id = 0

abbrev pub connect_establish_req_id : ℕ
connect_establish_req_id = 1

abbrev pub connect_establish_resp_id : ℕ
connect_establish_resp_id = 2

abbrev pub get_peerlist_req_id : ℕ
get_peerlist_req_id = 5

abbrev pub get_peerlist_resp_id : ℕ
get_peerlist_resp_id = 6

abbrev pub get_block_height_req_id : ℕ
get_block_height_req_id = 7

abbrev pub get_block_height_resp_id : ℕ
get_block_height_resp_id = 8

abbrev pub get_block_by_hash_req_id : ℕ
get_block_by_hash_req_id = 9

abbrev pub get_block_by_hash_resp_id : ℕ
get_block_by_hash_resp_id = 10

abbrev pub get_block_by_height_req_id : ℕ
get_block_by_height_req_id = 11

abbrev pub get_block_by_height_resp_id : ℕ
get_block_by_height_resp_id = 12

abbrev pub get_grouped_blocks_req_id : ℕ
get_grouped_blocks_req_id = 15

abbrev pub get_grouped_blocks_resp_id : ℕ
get_grouped_blocks_resp_id = 16

abbrev pub get_num_transactions_req_id : ℕ
get_num_transactions_req_id = 17

abbrev pub get_num_transactions_resp_id : ℕ
get_num_transactions_resp_id = 18

abbrev pub get_transaction_by_hash_req_id : ℕ
get_transaction_by_hash_req_id = 19

abbrev pub get_transaction_by_hash_resp_id : ℕ
get_transaction_by_hash_resp_id = 20

abbrev pub get_transaction_by_index_req_id : ℕ
get_transaction_by_index_req_id = 21

abbrev pub get_transaction_by_index_resp_id : ℕ
get_transaction_by_index_resp_id = 22

abbrev pub incoming_mempool_transaction_id : ℕ
incoming_mempool_transaction_id = 23

-- `packet_t`; `data_bytes` lists the allocated bytes, and is empty for `NULL`.
pub record Packet : Type 0 where
  pub id : ℕ
  pub size : ℕ
  pub data_bytes : List ℕ

unfoldable pub make_packet : Packet
make_packet = record { id = unknown_id; size = 0; data_bytes = [] }

-- What `deserialize_message` returns, by the struct that it allocates.
pub data Message : Type 0 where
  connect_establish_req :
      (host_port : ℕ) (version_number version_name : List ℕ) (use_testnet : ℕ) → Message
  connect_establish_resp : Message
  get_peerlist_req : Message
  get_peerlist_resp : (peerlist_data_size : ℕ) (peerlist_data : List ℕ) → Message
  get_block_height_req : Message
  get_block_height_resp : (height : ℕ) (hash : List ℕ) → Message
  get_block_by_hash_req : (hash : List ℕ) → Message
  get_block_by_hash_resp : (height : ℕ) (block : Block) → Message
  get_block_by_height_req : (height : ℕ) → Message
  get_block_by_height_resp : (hash : List ℕ) (block : Block) → Message
  get_grouped_blocks_req : (height : ℕ) → Message
  get_grouped_blocks_resp : (block_data_size : ℕ) (block_data : List ℕ) → Message
  get_num_transactions_req : (hash : List ℕ) → Message
  get_num_transactions_resp : (hash : List ℕ) (num_transactions : ℕ) → Message
  get_transaction_by_hash_req : (block_hash tx_hash : List ℕ) → Message
  get_transaction_by_hash_resp :
      (block_hash : List ℕ) (tx_index : ℕ) (transaction : Transaction) → Message
  get_transaction_by_index_req : (block_hash : List ℕ) (tx_index : ℕ) → Message
  get_transaction_by_index_resp :
      (block_hash : List ℕ) (tx_index : ℕ) (transaction : Transaction) → Message
  incoming_mempool_transaction : (transaction : Transaction) → Message

-- The variable arguments that `serialize_message` takes for a packet type.
pub data Arguments : Type 0 where
  connect_establish_req_args : (host_port use_testnet : ℕ) → Arguments
  connect_establish_resp_args : Arguments
  get_peerlist_req_args : Arguments
  get_peerlist_resp_args : (peerlist_buffer : Buffer) → Arguments
  get_block_height_req_args : Arguments
  get_block_height_resp_args : (height : ℕ) (hash : List ℕ) → Arguments
  get_block_by_hash_req_args : (hash : List ℕ) → Arguments
  get_block_by_hash_resp_args : (height : ℕ) (block : Block) → Arguments
  get_block_by_height_req_args : (height : ℕ) → Arguments
  get_block_by_height_resp_args : (hash : List ℕ) (block : Block) → Arguments
  get_grouped_blocks_req_args : (height : ℕ) → Arguments
  get_grouped_blocks_resp_args : (block_data_buffer : Buffer) → Arguments
  get_num_transactions_req_args : (hash : List ℕ) → Arguments
  get_num_transactions_resp_args : (hash : List ℕ) (num_transactions : ℕ) → Arguments
  get_transaction_by_hash_req_args : (block_hash tx_hash : List ℕ) → Arguments
  get_transaction_by_hash_resp_args :
      (block_hash : List ℕ) (tx_index : ℕ) (transaction : Transaction) → Arguments
  get_transaction_by_index_req_args : (block_hash : List ℕ) (tx_index : ℕ) → Arguments
  get_transaction_by_index_resp_args :
      (block_hash : List ℕ) (tx_index : ℕ) (transaction : Transaction) → Arguments
  incoming_mempool_transaction_args : (transaction : Transaction) → Arguments

-- The packet type whose case of the `switch` takes these arguments.
unfoldable pub packet_id : Arguments → ℕ
packet_id (connect_establish_req_args p t) = connect_establish_req_id
packet_id connect_establish_resp_args = connect_establish_resp_id
packet_id get_peerlist_req_args = get_peerlist_req_id
packet_id (get_peerlist_resp_args b) = get_peerlist_resp_id
packet_id get_block_height_req_args = get_block_height_req_id
packet_id (get_block_height_resp_args n hash) = get_block_height_resp_id
packet_id (get_block_by_hash_req_args hash) = get_block_by_hash_req_id
packet_id (get_block_by_hash_resp_args n b) = get_block_by_hash_resp_id
packet_id (get_block_by_height_req_args n) = get_block_by_height_req_id
packet_id (get_block_by_height_resp_args hash b) = get_block_by_height_resp_id
packet_id (get_grouped_blocks_req_args n) = get_grouped_blocks_req_id
packet_id (get_grouped_blocks_resp_args b) = get_grouped_blocks_resp_id
packet_id (get_num_transactions_req_args hash) = get_num_transactions_req_id
packet_id (get_num_transactions_resp_args hash n) = get_num_transactions_resp_id
packet_id (get_transaction_by_hash_req_args hash h) = get_transaction_by_hash_req_id
packet_id (get_transaction_by_hash_resp_args hash n t) = get_transaction_by_hash_resp_id
packet_id (get_transaction_by_index_req_args hash n) = get_transaction_by_index_req_id
packet_id (get_transaction_by_index_resp_args hash n t) = get_transaction_by_index_resp_id
packet_id (incoming_mempool_transaction_args t) = incoming_mempool_transaction_id

-- A `switch` on a number, with the value of the `default`.
unfoldable pub switch {ℓ} : {A : Type ℓ} → ℕ → List (ℕ × A) → A → A
switch n [] d = d
switch n ((k, a) ∷ cs) d = let rest = switch n cs d in if n == k then a else rest
