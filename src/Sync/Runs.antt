-- ===== src/Sync/Runs.antt =====
-- The synchronisation entry behind any sequence of events.
use vulkan_core.Common.{
  ℕ, zero, suc, ◌+◌, ◌-◌, ◌%◌, ◌^◌, ◌≤◌, ◌≡◌, refl, sym, ap, subst, ◌∙◌, true, ◌&&◌, Option, none,
  some, List, [], ◌∷◌, ◌++◌, length, length-append, ltb, ◌==◌, arith, ==_iff, ltb_false→le,
  Bool-cases, inl, inr,
}
use vulkan_core.Exec.{Outcome, ok, error, fault, Action, and_then-eq-ok, ok-inj, done, ◌>>◌}
use vulkan_core.Buffer.{Heap, Buffer, init_data}
use vulkan_core.Buffer.Iterator.{Iterator, read_uint32}
use vulkan_core.Buffer.Iterator
use vulkan_core.Block.{Block}
use vulkan_core.Block.Codec.{deserialize_block}
use vulkan_core.Protocol.{
  Message, connect_establish_req, connect_establish_resp, get_peerlist_req, get_peerlist_resp,
  get_block_height_req, get_block_height_resp, get_block_by_hash_req, get_block_by_hash_resp,
  get_block_by_height_req, get_block_by_height_resp, get_grouped_blocks_req,
  get_grouped_blocks_resp, get_num_transactions_req, get_num_transactions_resp,
  get_transaction_by_hash_req, get_transaction_by_hash_resp, get_transaction_by_index_req,
  get_transaction_by_index_resp, incoming_mempool_transaction, get_block_height_resp_args,
  get_peerlist_req_args, get_block_height_req_args,
}
use vulkan_core.Sync.{Services, Node, no_sync, regardless, resync_block_request_delay}
use vulkan_core.Sync.Requests.{check_sync_status, remove_last}
use vulkan_core.Sync.Receive.{from_sync_peer, block_header_received}
use vulkan_core.Sync.Handle.{
  height_requested, request_again, resync_request, resync_chain, ended, sync_peer_closed,
}
use vulkan_core.Sync.Grouped.{
  max_grouped_blocks_count, follows, read_headers, read_grouped, grouped_read, grouped_given,
  grouped_answered,
}
use vulkan_core.Sync.Dispatch.{handle_packet}
use vulkan_core.Sync.Invariant.{
  SyncIsValid, no_sync-SyncIsValid, After, after_fault, after_error, after_ok, After-if, same_entry,
  Keeps-stop, Keeps-fail, Keeps-must, Keeps->>, Keeps-call, Keeps-regardless, with_pending,
  remove_last-LeavesOneLess,
}
use vulkan_core.Sync.Stable.{
  must_clear-Stable, check_sync_status-Stable, sendto-Stable, request_sync_block-Stable,
  take_pending-Stable,
}
use vulkan_core.Sync.Headers.{block_header_received-Stable, and_left, and_right, true_is_false}
use vulkan_core.Sync.Answers.{
  StableIn, height_received-Stable, header_answered-Stable, num_transactions_answered-Stable,
  transaction_answered-Stable,
}
use vulkan_core.Sync.Served.{
  peerlist_requested-Stable, block_by_hash_requested-Stable, block_by_height_requested-Stable,
  num_transactions_requested-Stable, transaction_by_hash_requested-Stable,
  transaction_by_index_requested-Stable, mempool_transaction_received-Stable,
  grouped_requested-Stable, peerlist_received-Stable,
}

-- The headers of one message are as many as it says.
length-read_headers :
    (h : Heap) (n : ℕ) (last : Option (List ℕ)) (pending bs : List Block) (it it' : Iterator)
    → read_headers h n last pending it ≡ ok bs it'
    → length bs ≡ n + length pending
unfolding read_headers
length-read_headers h zero last pending bs it it' e = omega (arith, ap length (ok-inj e).0)
length-read_headers h (suc n) last pending bs it it' e =
    let (b, it1, e1, r1) = and_then-eq-ok (deserialize_block h it) _ e in
    let (u, it2, e2, r2) = and_then-eq-ok (follows last b it1) _ r1 in
    omega (arith, length-read_headers h n (some b.hash) (b ∷ pending) bs it2 it' r2)

-- They are no more than `MAX_GROUPED_BLOCKS_COUNT`.
length-read_grouped :
    (h : Heap) (last : Option (List ℕ)) (bs : List Block) (it it' : Iterator)
    → read_grouped h last it ≡ ok bs it'
    → length bs ≤ max_grouped_blocks_count
unfolding read_grouped
length-read_grouped h last bs it it' e =
    let (n, it1, e1, r1) = and_then-eq-ok (read_uint32 it) _ e in
    elim (Bool-cases (n == 0)) [
      | inl none_there ↦ absurd (ground (arith, r1, none_there))
      | inr some_there ↦ elim (Bool-cases (ltb max_grouped_blocks_count n)) [
        | inl many ↦ absurd (ground (arith, r1, some_there, many))
        | inr few ↦ omega (
          arith,
          length-read_headers h n last [] bs it1 it' (rw (some_there, few) at r1),
          ltb_false→le _ _ few,
        )
      ]
    ]

-- What happens to a node: a message from a connection, the task that repeats requests, the end of a
-- connection, and whatever changes the rest of the node.
pub data Event (sv : Services) : Type 0 where
  message_event : (conn : ℕ) (m : Message) → Event sv
  resync_event : Event sv
  close_event : (conn : ℕ) → Event sv
  other_event : (sv.State → sv.State) → Event sv

unfoldable pub take_event : {sv : Services} → Heap → Event sv → Action (Node sv)
take_event h (message_event conn m) = handle_packet h conn m
take_event h resync_event = resync_chain
take_event h (close_event conn) = sync_peer_closed conn
take_event h (other_event f) = λ w. ok tt (record w { rest = f w.rest })

-- One event after the other; a return value 1 does not end the node.
unfoldable pub run_events : {sv : Services} → Heap → List (Event sv) → Action (Node sv)
unfolding take_event
run_events h [] = done tt
run_events h (e ∷ es) = regardless (take_event h e) >> run_events h es

module _ {sv : Services} (h : Heap) where
  grouped_read-Stable :
      (conn : ℕ) (o : Outcome Iterator (List Block)) (w : Node sv)
      → ((bs : List Block) (it : Iterator) → o ≡ ok bs it → length bs ≤ max_grouped_blocks_count)
      → w.entry.sync_initiated ≡ true
      → w.entry.sync_pending_blocks_count ≡ 0
      → SyncIsValid w.entry
      → After SyncIsValid (grouped_read h conn o w)
  unfolding grouped_read
  grouped_read-Stable conn fault w few on empty v = after_fault
  grouped_read-Stable conn (error it) w few on empty v = after_error v
  grouped_read-Stable conn (ok bs it) w few on empty v =
      take_pending-Stable (block_header_received 2 conn) (block_header_received-Stable 2 conn) _
        (with_pending w.entry (w.entry.sync_pending_blocks ++ bs)
          (w.entry.sync_pending_blocks_count + length bs) v
          (omega (arith, v.counted, length-append w.entry.sync_pending_blocks bs))
          (omega (arith, few bs it refl)) (λ off. absurd (true_is_false (sym on ∙ off))))
        (remove_last (w.entry.sync_pending_blocks ++ bs))
        (remove_last-LeavesOneLess (w.entry.sync_pending_blocks ++ bs))

  grouped_given-Stable :
      (conn : ℕ) (last : Option (List ℕ)) (o : Outcome Buffer (Unit {0})) (w : Node sv)
      → w.entry.sync_initiated ≡ true
      → w.entry.sync_pending_blocks_count ≡ 0
      → SyncIsValid w.entry
      → After SyncIsValid (grouped_given h conn last o w)
  unfolding grouped_given
  grouped_given-Stable conn last fault w on empty v = after_fault
  grouped_given-Stable conn last (error b) w on empty v = after_fault
  grouped_given-Stable conn last (ok _ b) w on empty v =
      grouped_read-Stable conn (read_grouped h last (Iterator.init b)) w
        (λ bs it e. length-read_grouped h last bs (Iterator.init b) it e) on empty v

  grouped_answered-Stable :
      (conn size : ℕ) (bytes : List ℕ) → StableIn {sv = sv} (grouped_answered h conn size bytes)
  unfolding grouped_answered
  grouped_answered-Stable conn size bytes = record {
    at = λ w v.
        After-if (w.entry.sync_initiated && w.entry.sync_pending_blocks_count == 0) _ _
          (λ idle.
            grouped_given-Stable conn _ (init_data h 0 (some bytes) size) w (and_left _ _ idle)
              ((==_iff w.entry.sync_pending_blocks_count 0).0 (and_right _ _ idle)) v)
          (λ busy. after_error v);
  }

  handle_packet-Stable : (conn : ℕ) (m : Message) → StableIn {sv = sv} (handle_packet h conn m)
  unfolding handle_packet height_requested
  handle_packet-Stable conn (connect_establish_req port version name testnet) =
      Keeps-fail same_entry
  handle_packet-Stable conn connect_establish_resp = Keeps-fail same_entry
  handle_packet-Stable conn get_peerlist_req = record {
    at = λ w v. (peerlist_requested-Stable conn (sv.serialize_peerlist w.rest)).at w v;
  }
  handle_packet-Stable conn (get_peerlist_resp size bytes) = peerlist_received-Stable h size bytes
  handle_packet-Stable conn get_block_height_req = record {
    at = λ w v.
        (sendto-Stable conn (
            get_block_height_resp_args (sv.get_block_height w.rest)
              (sv.get_current_block_hash w.rest))).at
          w v;
  }
  handle_packet-Stable conn (get_block_height_resp height hash) = height_received-Stable conn height
  handle_packet-Stable conn (get_block_by_hash_req hash) = record {
    at = λ w v. (block_by_hash_requested-Stable conn (sv.get_block_from_hash w.rest hash)).at w v;
  }
  handle_packet-Stable conn (get_block_by_hash_resp height b) = header_answered-Stable conn b
  handle_packet-Stable conn (get_block_by_height_req height) =
      block_by_height_requested-Stable conn height
  handle_packet-Stable conn (get_block_by_height_resp hash b) = header_answered-Stable conn b
  handle_packet-Stable conn (get_grouped_blocks_req height) = grouped_requested-Stable h conn height
  handle_packet-Stable conn (get_grouped_blocks_resp size bytes) =
      grouped_answered-Stable conn size bytes
  handle_packet-Stable conn (get_num_transactions_req hash) = record {
    at =
        λ w v. (num_transactions_requested-Stable conn (sv.get_block_from_hash w.rest hash)).at w v;
  }
  handle_packet-Stable conn (get_num_transactions_resp hash n) =
      num_transactions_answered-Stable conn hash n
  handle_packet-Stable conn (get_transaction_by_hash_req hash tx_hash) = record {
    at = λ w v.
        (transaction_by_hash_requested-Stable conn hash tx_hash
            (sv.get_block_from_hash w.rest hash)).at
          w v;
  }
  handle_packet-Stable conn (get_transaction_by_hash_resp hash i tx) =
      transaction_answered-Stable conn hash i tx
  handle_packet-Stable conn (get_transaction_by_index_req hash i) = record {
    at = λ w v.
        (transaction_by_index_requested-Stable conn hash i (sv.get_block_from_hash w.rest hash)).at
          w v;
  }
  handle_packet-Stable conn (get_transaction_by_index_resp hash i tx) =
      transaction_answered-Stable conn hash i tx
  handle_packet-Stable conn (incoming_mempool_transaction tx) =
      mempool_transaction_received-Stable tx

module _ {sv : Services} where
  request_again-Stable : (o : Option ℕ) → StableIn {sv = sv} (request_again o)
  unfolding request_again
  request_again-Stable none = Keeps-stop
  request_again-Stable (some conn) =
      Keeps-regardless (record {
        at = λ w v. (request_sync_block-Stable conn w.entry.last_sync_height none).at w v;
      })

  resync_request-Stable : StableIn {sv = sv} resync_request
  unfolding resync_request
  resync_request-Stable = record {
    at = λ w v.
        After-if
          (w.entry.sync_initiated
            && ltb resync_block_request_delay
                ((2 ^ 32 + sv.get_current_time w.rest - w.entry.last_sync_ts) % 2 ^ 32))
          _ _ (λ late. (request_again-Stable w.entry.net_connection).at w v) (λ early. after_ok v);
  }

  resync_chain-Stable : StableIn {sv = sv} resync_chain
  unfolding resync_chain
  resync_chain-Stable =
      Keeps->>
        (Keeps->> resync_request-Stable
          (Keeps-must (Keeps-call (sv.handle_packet_broadcast get_peerlist_req_args) same_entry)))
        (Keeps-must (Keeps-call (sv.handle_packet_broadcast get_block_height_req_args) same_entry))

  ended-Stable :
      (o : Outcome (Node sv) (Unit {0})) → After SyncIsValid o → After SyncIsValid (ended o)
  unfolding ended
  ended-Stable fault after_fault = after_fault
  ended-Stable (error w) (after_error v) = must_clear-Stable.at w v
  ended-Stable (ok _ w) (after_ok v) = after_ok v

  sync_peer_closed-Stable : (conn : ℕ) → StableIn {sv = sv} (sync_peer_closed conn)
  unfolding sync_peer_closed
  sync_peer_closed-Stable conn = record {
    at = λ w v.
        After-if
          (sv.is_peer w.rest conn
            && (w.entry.sync_initiated && from_sync_peer conn w.entry.net_connection))
          _ _
          (λ ours. ended-Stable (check_sync_status true w) ((check_sync_status-Stable true).at w v))
          (λ other. after_ok v);
  }

  take_event-Stable : (h : Heap) (e : Event sv) → StableIn {sv = sv} (take_event h e)
  unfolding take_event
  take_event-Stable h (message_event conn m) = handle_packet-Stable h conn m
  take_event-Stable h resync_event = resync_chain-Stable
  take_event-Stable h (close_event conn) = sync_peer_closed-Stable conn
  take_event-Stable h (other_event f) = record { at = λ w v. after_ok v }

  run_events-Stable : (h : Heap) (es : List (Event sv)) → StableIn {sv = sv} (run_events h es)
  unfolding run_events
  run_events-Stable h [] = record { at = λ w v. after_ok v }
  run_events-Stable h (e ∷ es) =
      Keeps->> (Keeps-regardless (take_event-Stable h e)) (run_events-Stable h es)

-- From a node that has not yet synchronised, any sequence of messages from any connections, of runs of
-- the task that repeats requests, of connections that close and of changes in the rest of the node,
-- ends in a fault or leaves a synchronisation entry in which: there is a peer exactly while a
-- synchronisation goes on; at most `RESYNC_BLOCK_MAX_TRIES` + 1 tries are counted; the count of the
-- headers that wait is the length of their deque and at most `MAX_GROUPED_BLOCKS_COUNT`, and 0 while
-- none goes on; transactions are asked for only while one goes on and a block is pending; and no block
-- is pending while the block is looked for at which the chains part.
pub run_events-SyncIsValid :
    {sv : Services} (h : Heap) (es : List (Event sv)) (w : Node sv)
    → w.entry ≡ no_sync
    → After SyncIsValid (run_events h es w)
run_events-SyncIsValid h es w e =
    (run_events-Stable h es).at w (subst SyncIsValid (sym e) no_sync-SyncIsValid)
