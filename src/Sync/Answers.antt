-- ===== src/Sync/Answers.antt =====
-- Every message of a peer keeps the synchronisation entry well-formed.
use vulkan_core.Common.{
  ℕ, ◌+◌, ◌%◌, ◌^◌, ◌≡◌, refl, ap, true, false, ◌&&◌, ◌||◌, not, Option, none, some, List, ltb,
  arith,
}
use vulkan_core.Exec.{Outcome, ok, error, fault, Action}
use vulkan_core.Crypto.{compare_hash}
use vulkan_core.Transaction.{Transaction}
use vulkan_core.Block.{Block}
use vulkan_core.Sync.{SyncEntry, Services, Node}
use vulkan_core.Sync.Requests.{init_sync_request}
use vulkan_core.Sync.Receive.{from_sync_peer, block_header_received}
use vulkan_core.Sync.Handle.{
  handle_sync_started, first_request, begin_sync, start_sync, raise_height, height_received,
  header_answered, pending_answered, num_transactions_answered, pending_transaction,
  transaction_answered,
}
use vulkan_core.Sync.Invariant.{
  SyncIsValid, After, after_fault, after_error, after_ok, After-if, Keeps-if, same_entry,
  Keeps-fail, Keeps-update, Keeps->>, Keeps-or_else, Keeps-regardless, has,
}
use vulkan_core.Sync.Stable.{
  Stable, init_sync_request-Stable, clear_sync_request-Stable, must_clear-Stable,
  request_sync_next_block-Stable, request_sync_next_transaction-Stable,
  request_sync_previous_block-Stable,
}
use vulkan_core.Sync.Headers.{block_header_received-Stable, and_left}
use vulkan_core.Sync.Transactions.{transaction_received-Stable}

with_height :
    (e : SyncEntry) (height : ℕ) → SyncIsValid e → SyncIsValid (record e { sync_height = height })
with_height e height v = record {
  peered = v.peered;
  tried = v.tried;
  counted = v.counted;
  few = v.few;
  quiet = v.quiet;
  started_tx = v.started_tx;
  pending_tx = v.pending_tx;
  searching = v.searching;
}

with_last_height :
    (e : SyncEntry) (height : ℕ)
    → SyncIsValid e
    → SyncIsValid (record e { last_sync_height = height })
with_last_height e height v = record {
  peered = v.peered;
  tried = v.tried;
  counted = v.counted;
  few = v.few;
  quiet = v.quiet;
  started_tx = v.started_tx;
  pending_tx = v.pending_tx;
  searching = v.searching;
}

from_scratch : (e : SyncEntry) → SyncIsValid e → SyncIsValid (record e { sync_start_height = 0 })
from_scratch e v = record {
  peered = v.peered;
  tried = v.tried;
  counted = v.counted;
  few = v.few;
  quiet = v.quiet;
  started_tx = v.started_tx;
  pending_tx = v.pending_tx;
  searching = λ same _. absurd (omega (arith, same));
}

-- Transactions are asked for, for the block that is pending.
with_transactions :
    (e : SyncEntry) (n : ℕ)
    → SyncIsValid e
    → e.sync_initiated ≡ true
    → has e.sync_pending_block ≡ true
    → SyncIsValid (record e { tx_sync_initiated = true; tx_sync_num_txs = n })
with_transactions e n v on pending = record {
  peered = v.peered;
  tried = v.tried;
  counted = v.counted;
  few = v.few;
  quiet = v.quiet;
  started_tx = λ _. on;
  pending_tx = λ _. pending;
  searching = v.searching;
}

module _ {sv : Services} where
  abbrev pub StableIn : Action (Node sv) → Type 0
  StableIn m = Stable {sv = sv} m

  pub first_request-Stable : (conn current : ℕ) → StableIn (first_request conn current)
  unfolding first_request
  first_request-Stable conn current =
      Keeps-if (ltb 0 current)
        (λ some_blocks.
          Keeps->> (Keeps-update _ (λ e v. with_last_height e ((current + 1) % 2 ^ 32) v))
            (Keeps-or_else (request_sync_previous_block-Stable conn) must_clear-Stable))
        (λ no_blocks. Keeps->> (Keeps-update _ from_scratch) (
          Keeps-or_else
            (request_sync_next_block-Stable (block_header_received 2 conn) conn
              (block_header_received-Stable 2 conn))
            must_clear-Stable))

  pub handle_sync_started-Stable : StableIn handle_sync_started
  unfolding handle_sync_started
  handle_sync_started-Stable = record { at = λ w v. after_ok v }

  pub begin_sync-Stable :
      (conn current : ℕ) (o : Outcome (Node sv) (Unit {0}))
      → After SyncIsValid o
      → After SyncIsValid (begin_sync o conn current)
  unfolding begin_sync
  begin_sync-Stable conn current fault after_fault = after_fault
  begin_sync-Stable conn current (error w) (after_error v) = after_ok v
  begin_sync-Stable conn current (ok _ w) (after_ok v) =
      (Keeps->> (first_request-Stable conn current) handle_sync_started-Stable).at w v

  pub start_sync-Stable : (conn height current : ℕ) → StableIn (start_sync conn height current)
  unfolding start_sync
  start_sync-Stable conn height current =
      Keeps->> (Keeps-regardless (clear_sync_request-Stable false)) (record {
        at = λ w v.
            begin_sync-Stable conn current (init_sync_request height conn w)
              ((init_sync_request-Stable height conn).at w v);
      })

  pub height_received-Stable : (conn height : ℕ) → StableIn (height_received conn height)
  unfolding height_received raise_height
  height_received-Stable conn height = record {
    at = λ w v.
        After-if (not (ltb (sv.get_block_height w.rest) height)) _ _ (λ lower. after_ok v)
          (λ higher.
            After-if (w.entry.sync_initiated && from_sync_peer conn w.entry.net_connection) _ _
              (λ same. after_ok (with_height w.entry _ v))
              (λ other.
                After-if (w.entry.sync_initiated && w.entry.sync_did_backup_blockchain) _ _
                  (λ rolled_back. after_ok v)
                  (λ free. (start_sync-Stable conn height (sv.get_block_height w.rest)).at w v)));
  }

  pub header_answered-Stable : (conn : ℕ) (b : Block) → StableIn (header_answered conn b)
  unfolding header_answered
  header_answered-Stable conn b = record {
    at = λ w v.
        After-if (w.entry.sync_initiated || w.entry.sync_finding_top_block) _ _
          (λ on. (block_header_received-Stable 2 conn b).at w v) (λ off. after_error v);
  }

  pub pending_answered-Stable :
      (conn : ℕ) (hash : List ℕ) (n : ℕ) (o : Option Block) (w : Node sv)
      → w.entry.sync_pending_block ≡ o
      → w.entry.sync_initiated ≡ true
      → SyncIsValid w.entry
      → After SyncIsValid (pending_answered conn hash n o w)
  unfolding pending_answered
  pending_answered-Stable conn hash n none w same on v = after_error v
  pending_answered-Stable conn hash n (some b) w same on v =
      (Keeps-if {P = Pending} (compare_hash hash b.hash)
          (λ right.
            Keeps->> (Keeps-update _ (λ e k. with_transactions e (n % 2 ^ 32) k.0 k.1 k.2))
              (Keeps-or_else (request_sync_next_transaction-Stable conn) must_clear-Stable))
          (λ wrong. Keeps-fail (λ e k. k.0))).at
        w (v, on, ap has same)
    where
      Pending : SyncEntry → Type 0
      Pending e = SyncIsValid e × (e.sync_initiated ≡ true) × (has e.sync_pending_block ≡ true)

  pub num_transactions_answered-Stable :
      (conn : ℕ) (hash : List ℕ) (n : ℕ) → StableIn (num_transactions_answered conn hash n)
  unfolding num_transactions_answered
  num_transactions_answered-Stable conn hash n = record {
    at = λ w v.
        After-if (w.entry.sync_initiated && not w.entry.tx_sync_initiated) _ _
          (λ on.
            pending_answered-Stable conn hash n w.entry.sync_pending_block w refl (and_left _ _ on)
              v)
          (λ off. after_error v);
  }

  pub pending_transaction-Stable :
      (conn : ℕ) (hash : List ℕ) (i : ℕ) (tx : Transaction) (o : Option Block)
      → StableIn (pending_transaction conn hash i tx o)
  unfolding pending_transaction
  pending_transaction-Stable conn hash i tx none = Keeps-fail same_entry
  pending_transaction-Stable conn hash i tx (some b) =
      Keeps-if (compare_hash hash b.hash) (λ right. transaction_received-Stable conn tx i)
        (λ wrong. Keeps-fail same_entry)

  pub transaction_answered-Stable :
      (conn : ℕ) (hash : List ℕ) (i : ℕ) (tx : Transaction)
      → StableIn (transaction_answered conn hash i tx)
  unfolding transaction_answered
  transaction_answered-Stable conn hash i tx = record {
    at = λ w v.
        After-if (w.entry.sync_initiated && w.entry.tx_sync_initiated) _ _
          (λ on. (pending_transaction-Stable conn hash i tx w.entry.sync_pending_block).at w v)
          (λ off. after_error v);
  }
