-- ===== src/Sync.antt =====
-- The synchronisation entry of src/core/protocol.c, and the rest of the node that its functions call.
pub mod Requests
pub mod Receive
pub mod Handle
pub mod Grouped
pub mod Dispatch
pub mod Invariant
pub mod Stable
pub mod Headers
pub mod Transactions
pub mod Answers
pub mod Served
pub mod Runs
pub mod Retry
pub mod Crash
pub mod Delivery
pub mod Depth
pub mod Tests
use vulkan_core.Common.{
  ℕ, zero, suc, ◌+◌, ◌-◌, ◌%◌, ◌^◌, Bool, true, false, ◌&&◌, ◌||◌, not, Option, none, some, List,
  [], ◌∷◌, ltb, leb, ◌==◌, if◌then◌else◌,
}
use vulkan_core.Exec.{Outcome, ok, error, fault, Exec, Action, done, stop, fail, ◌>>=◌, ◌>>◌}
use vulkan_core.Buffer.{Buffer}
use vulkan_core.Transaction.{Transaction}
use vulkan_core.Block.{Block}
use vulkan_core.Protocol.{
  Arguments, get_block_by_hash_req_args, get_block_by_height_req_args, get_grouped_blocks_req_args,
  get_transaction_by_hash_req_args, get_transaction_by_index_req_args,
}

-- The bit pattern of -1.
abbrev pub minus_one : ℕ
minus_one = 2 ^ 32 - 1

abbrev pub resync_block_request_delay : ℕ
resync_block_request_delay = 10

abbrev pub resync_block_max_tries : ℕ
resync_block_max_tries = 5

-- `sync_entry_t`. A connection is given by its address, `none` for NULL; an int32_t by its bit
-- pattern; the deque from its first element to its last.
pub record SyncEntry : Type 0 where
  pub net_connection : Option ℕ
  pub sync_initiated : Bool
  pub sync_did_backup_blockchain : Bool
  pub sync_finding_top_block : Bool
  pub sync_pending_block : Option Block
  pub sync_height : ℕ
  pub sync_start_height : ℕ
  pub is_syncing_grouped_blocks : Bool
  pub sync_pending_blocks : List Block
  pub sync_pending_blocks_count : ℕ
  pub last_sync_height : ℕ
  pub last_sync_ts : ℕ
  pub last_sync_tries : ℕ
  pub tx_sync_initiated : Bool
  pub tx_sync_num_txs : ℕ
  pub last_tx_sync_index : ℕ
  pub last_tx_sync_ts : ℕ
  pub last_tx_sync_tries : ℕ

-- What the synchronisation calls of the rest of the node. `true` stands for the return value 0 of a
-- call that can fail.
pub record Services : Type 1 where
  pub State : Type 0
  pub get_block_height : State → ℕ
  pub get_current_block_hash : State → List ℕ
  pub get_current_block : State → Option Block
  pub get_block_from_height : State → ℕ → Option Block
  pub get_block_from_hash : State → List ℕ → Option Block
  pub get_block_height_from_hash : State → List ℕ → ℕ
  pub get_block_height_from_block : State → Block → ℕ
  pub has_block_by_height : State → ℕ → Bool
  pub has_block_by_hash : State → List ℕ → Bool
  pub checkpoint_hash : ℕ → Option (List ℕ)
  pub backup_blockchain : State → Bool × State
  pub restore_blockchain : State → Bool × State
  pub rollback_blockchain : ℕ → State → Bool × State
  pub validate_and_insert_block : Block → State → Bool × State
  pub valid_merkle_root : Block → Bool
  pub get_current_time : State → ℕ
  pub handle_packet_sendto : ℕ → Arguments → State → Bool × State
  pub handle_packet_broadcast : Arguments → State → Bool × State
  pub set_workers_paused : Bool → State → State
  pub serialize_peerlist : State → Option Buffer
  pub deserialize_peerlist : Buffer → State → Bool × State
  pub validate_and_add_tx_to_mempool : Transaction → State → Bool × State
  pub force_version_check : Bool
  pub use_testnet : ℕ
  pub has_peer : State → ℕ → ℕ → Bool
  pub is_peer : State → ℕ → Bool
  pub add_peer : ℕ → ℕ → State → Bool × State

-- The entry, and the rest of the node.
pub record Node (sv : Services) : Type 0 where
  pub entry : SyncEntry
  pub rest : sv.State

-- An entry before the first request.
unfoldable pub no_sync : SyncEntry
no_sync = record {
  net_connection = none;
  sync_initiated = false;
  sync_did_backup_blockchain = false;
  sync_finding_top_block = false;
  sync_pending_block = none;
  sync_height = 0;
  sync_start_height = 0;
  is_syncing_grouped_blocks = false;
  sync_pending_blocks = [];
  sync_pending_blocks_count = 0;
  last_sync_height = 0;
  last_sync_ts = 0;
  last_sync_tries = 0;
  tx_sync_initiated = false;
  tx_sync_num_txs = 0;
  last_tx_sync_index = 0;
  last_tx_sync_ts = 0;
  last_tx_sync_tries = 0;
}

-- The assignments of `init_sync_request`.
unfoldable pub started : ℕ → ℕ → SyncEntry
started height conn = record {
  net_connection = some conn;
  sync_initiated = true;
  sync_did_backup_blockchain = false;
  sync_finding_top_block = false;
  sync_pending_block = none;
  sync_height = height;
  sync_start_height = minus_one;
  is_syncing_grouped_blocks = false;
  sync_pending_blocks = [];
  sync_pending_blocks_count = 0;
  last_sync_height = 0;
  last_sync_ts = 0;
  last_sync_tries = 0;
  tx_sync_initiated = false;
  tx_sync_num_txs = 0;
  last_tx_sync_index = minus_one;
  last_tx_sync_ts = 0;
  last_tx_sync_tries = 0;
}

-- The assignments of `clear_sync_request`, which leave the pending block as it is.
unfoldable pub cleared : SyncEntry → SyncEntry
cleared e = record {
  net_connection = none;
  sync_initiated = false;
  sync_did_backup_blockchain = false;
  sync_finding_top_block = false;
  sync_pending_block = e.sync_pending_block;
  sync_height = 0;
  sync_start_height = minus_one;
  is_syncing_grouped_blocks = false;
  sync_pending_blocks = [];
  sync_pending_blocks_count = 0;
  last_sync_height = 0;
  last_sync_ts = 0;
  last_sync_tries = 0;
  tx_sync_initiated = false;
  tx_sync_num_txs = 0;
  last_tx_sync_index = minus_one;
  last_tx_sync_ts = 0;
  last_tx_sync_tries = 0;
}

module _ {sv : Services} where
  abbrev pub update : (SyncEntry → SyncEntry) → Action (Node sv)
  update f w = ok tt (record w { entry = f w.entry })

  abbrev pub answered : SyncEntry → Bool × sv.State → Outcome (Node sv) (Unit {0})
  answered e (true, s) = ok tt (record { entry = e; rest = s })
  answered e (false, s) = error (record { entry = e; rest = s })

  -- A call that may return 1, which the caller returns too.
  abbrev pub call : (sv.State → Bool × sv.State) → Action (Node sv)
  call f w = answered w.entry (f w.rest)

  -- `assert(call == 0)`.
  abbrev pub succeeded : Outcome (Node sv) (Unit {0}) → Outcome (Node sv) (Unit {0})
  succeeded fault = fault
  succeeded (error w) = fault
  succeeded (ok _ w) = ok tt w

  abbrev pub must : Action (Node sv) → Action (Node sv)
  must m w = succeeded (m w)

  -- `if (call) { recover; return 1; }`.
  abbrev pub failed_with :
      Action (Node sv) → Outcome (Node sv) (Unit {0}) → Outcome (Node sv) (Unit {0})
  failed_with recover fault = fault
  failed_with recover (error w) = (recover >> fail) w
  failed_with recover (ok _ w) = ok tt w

  abbrev pub or_else : Action (Node sv) → Action (Node sv) → Action (Node sv)
  or_else m recover w = failed_with recover (m w)

  -- A call whose result is dropped.
  abbrev pub dropped : Outcome (Node sv) (Unit {0}) → Outcome (Node sv) (Unit {0})
  dropped fault = fault
  dropped (error w) = ok tt w
  dropped (ok _ w) = ok tt w

  abbrev pub regardless : Action (Node sv) → Action (Node sv)
  regardless m w = dropped (m w)

  abbrev pub sendto : ℕ → Arguments → Action (Node sv)
  sendto conn args = call (sv.handle_packet_sendto conn args)
