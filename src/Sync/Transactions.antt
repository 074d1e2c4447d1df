-- ===== src/Sync/Transactions.antt =====
-- The transactions of a header that was asked for, and the block that they complete.
use vulkan_core.Common.{
  ℕ, ◌+◌, ◌%◌, ◌^◌, ◌≡◌, ◌≢◌, sym, ◌∙◌, true, false, ◌&&◌, Option, none, some, ltb,
}
use vulkan_core.Exec.{Outcome, ok, error, fault}
use vulkan_core.Transaction.{Transaction}
use vulkan_core.Block.{Block, add_transaction_to_block}
use vulkan_core.Sync.{SyncEntry, Services, Node, minus_one}
use vulkan_core.Sync.Requests.{check_sync_status}
use vulkan_core.Sync.Receive.{
  block_header_received, synchronized, block_header_sync_complete, block_completed,
  transaction_added, add_pending, transaction_received,
}
use vulkan_core.Sync.Invariant.{
  SyncIsValid, After, after_fault, after_error, after_ok, After-if, Keeps-if, same_entry, Keeps,
  Keeps-stop, Keeps-fail, Keeps-update, Keeps-must, Keeps->>, Keeps-or_else, Keeps-call,
}
use vulkan_core.Sync.Stable.{
  Stable, must_clear-Stable, clear_tx-Stable, check_sync_status-Stable,
  request_sync_next_transaction-Stable,
}
use vulkan_core.Sync.Headers.{
  Going, with_block, next_of-Stable, true_is_false, and_left, and_right,
  block_header_received-Stable,
}

busy_is_going :
    (e : SyncEntry)
    → SyncIsValid e
    → (e.sync_initiated && e.tx_sync_initiated) ≡ true
    → e.sync_start_height ≢ minus_one
busy_is_going e v on same =
    let hidden = v.searching same (and_left _ _ on) in
    let shown = v.pending_tx (and_right _ _ on) in true_is_false (sym shown ∙ hidden)

module _ {sv : Services} where
  synchronized-Stable :
      (conn : ℕ) (o : Outcome (Node sv) (Unit {0}))
      → After SyncIsValid o
      → After SyncIsValid (synchronized conn o)
  unfolding synchronized
  synchronized-Stable conn fault after_fault = after_fault
  synchronized-Stable conn (error w) (after_error v) =
      (next_of-Stable (block_header_received 2) w.entry.net_connection
          (block_header_received-Stable 2)).at
        w v
  synchronized-Stable conn (ok _ w) (after_ok v) = after_ok v

  block_header_sync_complete-Stable :
      (conn : ℕ) (block : Block) → Stable {sv = sv} (block_header_sync_complete conn block)
  unfolding block_header_sync_complete
  block_header_sync_complete-Stable conn block =
      Keeps->> (Keeps-call (sv.validate_and_insert_block block) same_entry) (record {
        at = λ w v.
            synchronized-Stable conn (check_sync_status false w)
              ((check_sync_status-Stable false).at w v);
      })

  block_completed-Stable :
      (conn : ℕ) (block : Block) → Stable {sv = sv} (block_completed conn block)
  unfolding block_completed
  block_completed-Stable conn block =
      Keeps-if (sv.valid_merkle_root block)
        (λ right.
          Keeps->> (Keeps-must clear_tx-Stable)
            (Keeps-or_else (block_header_sync_complete-Stable conn block) must_clear-Stable))
        (λ wrong. Keeps->> must_clear-Stable (Keeps-fail same_entry))

  transaction_added-Stable :
      (conn tx_index : ℕ) (o : Outcome Block (Unit {0}))
      → Keeps {sv = sv} Going (transaction_added conn tx_index o) SyncIsValid
  unfolding transaction_added
  transaction_added-Stable conn tx_index fault = Keeps-stop
  transaction_added-Stable conn tx_index (error b) = Keeps-stop
  transaction_added-Stable conn tx_index (ok _ b) = record {
    at = λ w v.
        After-if (ltb ((tx_index + 1) % 2 ^ 32) w.entry.tx_sync_num_txs) _ _
          (λ more.
            (Keeps->> (Keeps-update _ (λ e k. with_block e b k))
                (Keeps-or_else (request_sync_next_transaction-Stable conn) must_clear-Stable)).at
              w v)
          (λ last.
            (Keeps->> (Keeps-update _ (λ e k. with_block e b k)) (block_completed-Stable conn b)).at
              w v);
  }

  add_pending-Stable :
      (conn : ℕ) (tx : Transaction) (tx_index : ℕ) (o : Option Block)
      → Keeps {sv = sv} Going (add_pending conn tx tx_index o) SyncIsValid
  unfolding add_pending
  add_pending-Stable conn tx tx_index none = Keeps-stop
  add_pending-Stable conn tx tx_index (some b) =
      transaction_added-Stable conn tx_index (add_transaction_to_block tx tx_index b)

  pub transaction_received-Stable :
      (conn : ℕ) (tx : Transaction) (tx_index : ℕ)
      → Stable {sv = sv} (transaction_received conn tx tx_index)
  unfolding transaction_received
  transaction_received-Stable conn tx tx_index = record {
    at = λ w v.
        After-if (w.entry.sync_initiated && w.entry.tx_sync_initiated) _ _
          (λ on.
            (add_pending-Stable conn tx tx_index w.entry.sync_pending_block).at w
              (v, λ same. busy_is_going w.entry v on same))
          (λ off. after_ok v);
  }
