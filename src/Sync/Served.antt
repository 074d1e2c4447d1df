-- ===== src/Sync/Served.antt =====
-- The requests of other nodes leave the synchronisation entry as it is.
use vulkan_core.Common.{ℕ, Option, none, some, List, get_elem?, ltb, leb, ◌==◌}
use vulkan_core.Exec.{Outcome, ok, error, fault, ◌>>◌}
use vulkan_core.Buffer.{Heap, Buffer, init, init_data, write_uint32}
use vulkan_core.Buffer.Serialized.{fill}
use vulkan_core.Transaction.{Transaction}
use vulkan_core.Block.{Block}
use vulkan_core.Protocol.{
  get_peerlist_resp_args, get_block_by_hash_resp_args, get_block_by_height_resp_args,
  get_grouped_blocks_resp_args, get_num_transactions_resp_args, get_transaction_by_hash_resp_args,
  get_transaction_by_index_resp_args, incoming_mempool_transaction_args,
}
use vulkan_core.Sync.{Services}
use vulkan_core.Sync.Handle.{
  find_place, peerlist_requested, peerlist_given, peerlist_received, block_by_hash_requested,
  send_block_by_height, block_by_height_requested, num_transactions_requested, send_placed,
  transaction_by_hash_requested, send_indexed, transaction_by_index_requested,
  mempool_transaction_received,
}
use vulkan_core.Sync.Grouped.{
  grouped_count, serialize_from, write_contents, send_grouped, grouped_serialized,
  grouped_requested,
}
use vulkan_core.Sync.Invariant.{
  after_error, after_ok, After-if, Keeps-if, same_entry, Keeps-stop, Keeps-fail, Keeps->>,
  Keeps-call, Keeps-regardless,
}
use vulkan_core.Sync.Stable.{sendto-Stable}
use vulkan_core.Sync.Answers.{StableIn}

module _ {sv : Services} where
  pub peerlist_requested-Stable :
      (conn : ℕ) (o : Option Buffer) → StableIn {sv = sv} (peerlist_requested conn o)
  unfolding peerlist_requested
  peerlist_requested-Stable conn none = Keeps-fail same_entry
  peerlist_requested-Stable conn (some b) = sendto-Stable conn (get_peerlist_resp_args b)

  pub peerlist_given-Stable :
      (o : Outcome Buffer (Unit {0})) → StableIn {sv = sv} (peerlist_given o)
  unfolding peerlist_given
  peerlist_given-Stable fault = Keeps-stop
  peerlist_given-Stable (error b) = Keeps-stop
  peerlist_given-Stable (ok _ b) = Keeps-call (sv.deserialize_peerlist b) same_entry

  pub block_by_hash_requested-Stable :
      (conn : ℕ) (o : Option Block) → StableIn {sv = sv} (block_by_hash_requested conn o)
  unfolding block_by_hash_requested
  block_by_hash_requested-Stable conn none = record { at = λ w v. after_ok v }
  block_by_hash_requested-Stable conn (some b) = record {
    at = λ w v.
        After-if (ltb 0 (sv.get_block_height_from_block w.rest b)) _ _
          (λ known.
            (sendto-Stable conn
                (get_block_by_hash_resp_args (sv.get_block_height_from_block w.rest b) b)).at
              w v)
          (λ first. after_ok v);
  }

  pub send_block_by_height-Stable :
      (conn : ℕ) (o : Option Block) → StableIn {sv = sv} (send_block_by_height conn o)
  unfolding send_block_by_height
  send_block_by_height-Stable conn none = record { at = λ w v. after_ok v }
  send_block_by_height-Stable conn (some b) =
      sendto-Stable conn (get_block_by_height_resp_args b.hash b)

  pub block_by_height_requested-Stable :
      (conn height : ℕ) → StableIn {sv = sv} (block_by_height_requested conn height)
  unfolding block_by_height_requested
  block_by_height_requested-Stable conn height = record {
    at = λ w v.
        After-if (ltb 0 height) _ _
          (λ there.
            (send_block_by_height-Stable conn (sv.get_block_from_height w.rest height)).at w v)
          (λ zero_height. after_error v);
  }

  pub num_transactions_requested-Stable :
      (conn : ℕ) (o : Option Block) → StableIn {sv = sv} (num_transactions_requested conn o)
  unfolding num_transactions_requested
  num_transactions_requested-Stable conn none = Keeps-fail same_entry
  num_transactions_requested-Stable conn (some b) =
      sendto-Stable conn (get_num_transactions_resp_args b.hash b.transaction_count)

  pub send_placed-Stable :
      (conn : ℕ) (hash : List ℕ) (o : Option (Option (ℕ × Transaction)))
      → StableIn {sv = sv} (send_placed conn hash o)
  unfolding send_placed
  send_placed-Stable conn hash none = Keeps-stop
  send_placed-Stable conn hash (some none) = Keeps-fail same_entry
  send_placed-Stable conn hash (some (some r)) =
      Keeps->>
        (Keeps-regardless (sendto-Stable conn (get_transaction_by_hash_resp_args hash r.0 r.1)))
        Keeps-stop

  pub transaction_by_hash_requested-Stable :
      (conn : ℕ) (hash tx_hash : List ℕ) (o : Option Block)
      → StableIn {sv = sv} (transaction_by_hash_requested conn hash tx_hash o)
  unfolding transaction_by_hash_requested
  transaction_by_hash_requested-Stable conn hash tx_hash none = Keeps-fail same_entry
  transaction_by_hash_requested-Stable conn hash tx_hash (some b) =
      send_placed-Stable conn hash (find_place b.transaction_count 0 b.transactions tx_hash)

  pub send_indexed-Stable :
      (conn : ℕ) (hash : List ℕ) (i : ℕ) (o : Option Transaction)
      → StableIn {sv = sv} (send_indexed conn hash i o)
  unfolding send_indexed
  send_indexed-Stable conn hash i none = Keeps-stop
  send_indexed-Stable conn hash i (some tx) =
      sendto-Stable conn (get_transaction_by_index_resp_args hash i tx)

  pub transaction_by_index_requested-Stable :
      (conn : ℕ) (hash : List ℕ) (i : ℕ) (o : Option Block)
      → StableIn {sv = sv} (transaction_by_index_requested conn hash i o)
  unfolding transaction_by_index_requested
  transaction_by_index_requested-Stable conn hash i none = Keeps-fail same_entry
  transaction_by_index_requested-Stable conn hash i (some b) =
      Keeps-if (leb i b.transaction_count)
        (λ there. send_indexed-Stable conn hash i (get_elem? b.transactions i))
        (λ past. Keeps-fail same_entry)

  pub mempool_transaction_received-Stable :
      (tx : Transaction) → StableIn {sv = sv} (mempool_transaction_received tx)
  unfolding mempool_transaction_received
  mempool_transaction_received-Stable tx =
      Keeps->> (Keeps-call (sv.validate_and_add_tx_to_mempool tx) same_entry)
        (Keeps-call (sv.handle_packet_broadcast (incoming_mempool_transaction_args tx)) same_entry)

  pub send_grouped-Stable :
      (h : Heap) (conn : ℕ) (o : Outcome Buffer (Unit {0}))
      → StableIn {sv = sv} (send_grouped h conn o)
  unfolding send_grouped
  send_grouped-Stable h conn fault = Keeps-stop
  send_grouped-Stable h conn (error b) = Keeps-fail same_entry
  send_grouped-Stable h conn (ok _ b) = sendto-Stable conn (get_grouped_blocks_resp_args b)

  pub grouped_serialized-Stable :
      (h : Heap) (conn n : ℕ) (o : Outcome Buffer (Unit {0}))
      → StableIn {sv = sv} (grouped_serialized h conn n o)
  unfolding grouped_serialized
  grouped_serialized-Stable h conn n fault = Keeps-stop
  grouped_serialized-Stable h conn n (error b) = Keeps-fail same_entry
  grouped_serialized-Stable h conn n (ok _ b) =
      Keeps-if (n == 0) (λ none_there. Keeps-fail same_entry)
        (λ some_there.
          send_grouped-Stable h conn (fill (init h) (write_uint32 h n >> write_contents h b)))

  pub grouped_requested-Stable :
      (h : Heap) (conn height : ℕ) → StableIn {sv = sv} (grouped_requested h conn height)
  unfolding grouped_requested
  grouped_requested-Stable h conn height = record {
    at = λ w v.
        After-if (leb height (sv.get_block_height w.rest)) _ _
          (λ there.
            (grouped_serialized-Stable h conn (grouped_count height (sv.get_block_height w.rest)) (
                fill (init h) (
                  serialize_from sv h w.rest (grouped_count height (sv.get_block_height w.rest))
                    height))).at
              w v)
          (λ above. after_error v);
  }

  pub peerlist_received-Stable :
      (h : Heap) (size : ℕ) (bytes : List ℕ) → StableIn {sv = sv} (peerlist_received h size bytes)
  unfolding peerlist_received
  peerlist_received-Stable h size bytes = peerlist_given-Stable (init_data h 0 (some bytes) size)
