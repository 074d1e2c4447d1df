-- ===== src/Sync/Tests.antt =====
-- The theorems on synchronisation at concrete inputs.
use vulkan_core.Common.{
  Bool, ℕ, ◌+◌, ◌≡◌, refl, true, false, some, none, List, [], ◌∷◌, replicate, arith, subst, sym,
}
use vulkan_core.Exec.{ok, fault, done}
use vulkan_core.Block.{make_block}
use vulkan_core.Buffer.Tests.{plenty, plenty-Generous}
use vulkan_core.Transaction.{Transaction}
use vulkan_core.Transaction.Encoding.{encode_all}
use vulkan_core.Protocol.{
  get_peerlist_req_args, get_block_height_req_args, get_block_height_resp, get_peerlist_req,
}
use vulkan_core.Protocol.Encoding.{encode_arguments, ArgumentsIsValid}
use vulkan_core.Protocol.Packets.{encode_packet, encode_data}
use vulkan_core.Bytes.{le_bytes}
use vulkan_core.Net.{init_net_connection}
use vulkan_core.Net.Receive.{Receiver, data_received}
use vulkan_core.Sync.{Services, Node, no_sync, started, minus_one}
use vulkan_core.Sync.Requests.{
  request_sync_block, stamp_block, wanted_height, block_request, count_try,
}
use vulkan_core.Sync.Receive.{header_received, block_header_received, transaction_received, checked}
use vulkan_core.Sync.Handle.{resync_request, request_again}
use vulkan_core.Sync.Dispatch.{handle_receive_packet}
use vulkan_core.Sync.Invariant.{After, SyncIsValid, started-SyncIsValid}
use vulkan_core.Sync.Runs.{
  Event, message_event, resync_event, close_event, other_event, run_events, run_events-SyncIsValid,
}
use vulkan_core.Sync.Retry.{round, rounds, IsLate, AllLate, IsAbandoned, rounds-IsAbandoned}
use vulkan_core.Sync.Crash.{block_header_received-crash, transaction_received-misplaced}
use vulkan_core.Protocol.Send.{send_all}
use vulkan_core.Sync.Depth.{block_header_received-ends}
use vulkan_core.Sync.Delivery.{handle_messages, handle_send_packet-received}

-- A node without blocks.
abbrev pub node_with :
    (S : Type 0) → (S → ℕ) → (S → ℕ → ℕ → Bool) → (ℕ → ℕ → S → Bool × S) → Services
node_with S time has add = record {
  State = S;
  get_block_height = λ _. 0;
  get_current_block_hash = λ _. replicate 32 0;
  get_current_block = λ _. none;
  get_block_from_height = λ _ _. none;
  get_block_from_hash = λ _ _. none;
  get_block_height_from_hash = λ _ _. minus_one;
  get_block_height_from_block = λ _ _. 0;
  has_block_by_height = λ _ height. true;
  has_block_by_hash = λ _ _. false;
  checkpoint_hash = λ _. none;
  backup_blockchain = λ s. (true, s);
  restore_blockchain = λ s. (true, s);
  rollback_blockchain = λ _ s. (true, s);
  validate_and_insert_block = λ _ s. (true, s);
  valid_merkle_root = λ _. true;
  get_current_time = time;
  handle_packet_sendto = λ _ _ s. (true, s);
  handle_packet_broadcast = λ _ s. (true, s);
  set_workers_paused = λ _ s. s;
  serialize_peerlist = λ _. none;
  deserialize_peerlist = λ _ s. (true, s);
  validate_and_add_tx_to_mempool = λ _ s. (true, s);
  force_version_check = true;
  use_testnet = 0;
  has_peer = has;
  is_peer = λ _ _. true;
  add_peer = add;
}

-- One whose state is the time.
abbrev empty_node : Services
empty_node = node_with ℕ (λ s. s) (λ _ _ _. false) (λ _ _ s. (true, s))

abbrev fresh_node : Node empty_node
fresh_node = record { entry = no_sync; rest = 50 }

abbrev events : List (Event empty_node)
events =
    message_event 5 (get_block_height_resp 3 (replicate 32 1))
    ∷ other_event (λ t. t + 20)
    ∷ resync_event
    ∷ message_event 6 get_peerlist_req
    ∷ close_event 5
    ∷ []

run_events-SyncIsValid_example : After SyncIsValid (run_events plenty events fresh_node)
run_events-SyncIsValid_example = run_events-SyncIsValid plenty events fresh_node refl

-- A synchronisation after `n` tries, the last one at the time `t`.
abbrev waited : ℕ → ℕ → Node empty_node
waited n t = record {
  entry = record (started 3 5) { last_sync_tries = n; last_sync_ts = t };
  rest = t;
}

tried0 : round (λ t. t + 20) (waited 0 50) ≡ ok tt (waited 1 70)
unfolding started round resync_request request_again request_sync_block stamp_block wanted_height
    block_request count_try
tried0 = refl

tried1 : round (λ t. t + 20) (waited 1 70) ≡ ok tt (waited 2 90)
unfolding started round resync_request request_again request_sync_block stamp_block wanted_height
    block_request count_try
tried1 = refl

tried2 : round (λ t. t + 20) (waited 2 90) ≡ ok tt (waited 3 110)
unfolding started round resync_request request_again request_sync_block stamp_block wanted_height
    block_request count_try
tried2 = refl

tried3 : round (λ t. t + 20) (waited 3 110) ≡ ok tt (waited 4 130)
unfolding started round resync_request request_again request_sync_block stamp_block wanted_height
    block_request count_try
tried3 = refl

tried4 : round (λ t. t + 20) (waited 4 130) ≡ ok tt (waited 5 150)
unfolding started round resync_request request_again request_sync_block stamp_block wanted_height
    block_request count_try
tried4 = refl

tried5 : round (λ t. t + 20) (waited 5 150) ≡ ok tt (waited 6 170)
unfolding started round resync_request request_again request_sync_block stamp_block wanted_height
    block_request count_try
tried5 = refl

late_then :
    (f : ℕ → ℕ) (fs : List (ℕ → ℕ)) (w w' : Node empty_node)
    → IsLate empty_node (f w.rest) w.entry
    → round f w ≡ ok tt w'
    → AllLate fs (ok tt w')
    → AllLate (f ∷ fs) (ok tt w)
late_then f fs w w' late e rest = (late, subst (AllLate fs) (sym e) rest)

abbrev wait_20 : ℕ → ℕ
wait_20 t = t + 20

abbrev later : List (ℕ → ℕ)
later = replicate 7 wait_20

always_late : AllLate later (ok tt (waited 0 50))
unfolding started
always_late = late_then wait_20 (replicate 6 wait_20) (waited 0 50) (waited 1 70) refl tried0 (
    late_then wait_20 (replicate 5 wait_20) (waited 1 70) (waited 2 90) refl tried1 (
      late_then wait_20 (replicate 4 wait_20) (waited 2 90) (waited 3 110) refl tried2 (
        late_then wait_20 (replicate 3 wait_20) (waited 3 110) (waited 4 130) refl tried3 (
          late_then wait_20 (replicate 2 wait_20) (waited 4 130) (waited 5 150) refl tried4 (
            late_then wait_20 (replicate 1 wait_20) (waited 5 150) (waited 6 170) refl tried5
              ((refl, tt)))))))

waited-SyncIsValid : SyncIsValid (waited 0 50).entry
unfolding started
waited-SyncIsValid =
    let v = started-SyncIsValid 3 5 in
    record {
      peered = v.peered;
      tried = v.tried;
      counted = v.counted;
      few = v.few;
      quiet = v.quiet;
      started_tx = v.started_tx;
      pending_tx = v.pending_tx;
      searching = v.searching;
    }

rounds-IsAbandoned_example : IsAbandoned (rounds later (waited 0 50))
unfolding started
rounds-IsAbandoned_example =
    rounds-IsAbandoned later (waited 0 50) (λ _ _ _. refl) waited-SyncIsValid refl (omega arith)
      (omega arith) always_late

abbrev looking : Node empty_node
looking = record {
  entry = record (started 9 5) {
    sync_finding_top_block = true;
    last_sync_height = 3;
    last_sync_tries = 6;
  };
  rest = 50;
}

block_header_received-crash_example : block_header_received 2 5 make_block looking ≡ fault
unfolding started checked
block_header_received-crash_example =
    block_header_received-crash 1 5 make_block looking refl refl refl (omega arith) (omega arith)
      (omega arith) refl refl

block_header_received-ends_example :
    block_header_received 9 5 make_block looking
    ≡ header_received (λ peer b. done tt) 5 make_block looking
block_header_received-ends_example =
    block_header_received-ends 8 5 make_block looking (λ peer b. done tt)

abbrev transaction : Transaction
transaction = record {
  id = replicate 32 2;
  txin_count = 0;
  txout_count = 0;
  txins = [];
  txouts = [];
}

abbrev collecting : Node empty_node
collecting = record {
  entry = record (started 9 5) {
    sync_start_height = 0;
    sync_pending_block = some make_block;
    tx_sync_initiated = true;
    tx_sync_num_txs = 3;
  };
  rest = 50;
}

transaction_received-misplaced_example : transaction_received 5 transaction 1 collecting ≡ fault
unfolding started
transaction_received-misplaced_example =
    transaction_received-misplaced 5 1 transaction make_block collecting refl refl refl
      (omega arith) (omega arith)

abbrev connected : Receiver (Node empty_node)
connected = record { conn = init_net_connection 5 2; node = fresh_node }

handle_send_packet-received_example :
    (bytes : List ℕ) × (send_all plenty (get_peerlist_req_args ∷ get_block_height_req_args ∷ []) []
      ≡ ok tt bytes)
    × (data_received plenty (handle_receive_packet plenty) 2 bytes connected
        ≡ handle_messages plenty (get_peerlist_req_args ∷ get_block_height_req_args ∷ []) connected)
unfolding encode_all encode_packet encode_data le_bytes init_net_connection encode_arguments
    ArgumentsIsValid
handle_send_packet-received_example =
    handle_send_packet-received plenty 2 get_peerlist_req_args (get_block_height_req_args ∷ [])
      connected plenty-Generous (omega arith)
      (record { right = tt; short = omega arith }, (record { right = tt; short = omega arith }, tt))
      (omega arith) refl
