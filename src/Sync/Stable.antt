-- ===== src/Sync/Stable.antt =====
-- The requests keep the synchronisation entry well-formed.
use vulkan_core.Common.{
  ℕ, ◌+◌, ◌-◌, ◌%◌, ◌^◌, refl, sym, ◌∙◌, Bool, true, false, ◌&&◌, ◌||◌, Option, none, some, List,
  ltb, leb, ◌==◌, arith, ltb_false→le, ltb_false→le,
}
use vulkan_core.Exec.{Action}
use vulkan_core.Block.{Block}
use vulkan_core.Protocol.{get_grouped_blocks_req_args}
use vulkan_core.Sync.{Services, Node, resync_block_max_tries, must, sendto}
use vulkan_core.Sync.Requests.{
  count_try, count_tx_try, remove_last, init_sync_request, clear_sync_request,
  clear_tx_sync_request, clear_grouped_sync_request, check_sync_status, handle_sync_completed,
  stamp_block, stamp_transaction, request_sync_block, request_sync_next_block, next_block,
  take_pending, request_sync_transaction, request_sync_next_transaction, next_transaction,
  request_sync_previous_block, wanted_height, block_request, transaction_request,
}
use vulkan_core.Sync.Invariant.{
  Calm, SyncIsValid, After, after_fault, after_error, after_ok, After-if, Keeps-if, same_entry,
  Keeps, Keeps-stop, Keeps-fail, Keeps-update, Keeps-must, Keeps->>, Keeps-call, with_request,
  with_transaction_request, with_pending, count_try-SyncIsValid, count_next-SyncIsValid,
  count_tx_try-SyncIsValid, LeavesOneLess, remove_last-LeavesOneLess, started-SyncIsValid,
  cleared-SyncIsValid,
}

module _ {sv : Services} where
  abbrev pub Stable : Action (Node sv) → Type 0
  Stable m = Keeps {sv = sv} SyncIsValid m SyncIsValid

  pub init_sync_request-Stable : (height conn : ℕ) → Stable (init_sync_request height conn)
  unfolding init_sync_request
  init_sync_request-Stable height conn = record {
    at = λ w v.
        After-if w.entry.sync_initiated _ _ (λ e. after_error v)
          (λ e. after_ok (started-SyncIsValid height conn));
  }

  pub clear_sync_request-Stable : (success : Bool) → Stable (clear_sync_request success)
  unfolding clear_sync_request
  clear_sync_request-Stable success = record {
    at = λ w v.
        After-if w.entry.sync_initiated _ _ (λ e. after_ok (cleared-SyncIsValid w.entry))
          (λ e. after_error v);
  }

  pub must_clear-Stable : Stable (must (clear_sync_request false))
  must_clear-Stable = Keeps-must (clear_sync_request-Stable false)

  pub clear_tx-Stable : Stable clear_tx_sync_request
  unfolding clear_tx_sync_request
  clear_tx-Stable = record {
    at = λ w v.
        After-if (w.entry.sync_initiated && w.entry.tx_sync_initiated) _ _
          (λ e. after_ok (record {
            peered = v.peered;
            tried = v.tried;
            counted = v.counted;
            few = v.few;
            quiet = v.quiet;
            started_tx = λ off. absurd cc;
            pending_tx = λ off. absurd cc;
            searching = v.searching;
          }))
          (λ e. after_error v);
  }

  pub clear_grouped-Calm : Keeps {sv = sv} Calm clear_grouped_sync_request SyncIsValid
  unfolding clear_grouped_sync_request
  clear_grouped-Calm = record {
    at = λ w (v, calm).
        After-if w.entry.sync_initiated _ _
          (λ e. after_ok (record {
            peered = v.peered;
            tried = v.tried;
            counted = refl;
            few = omega arith;
            quiet = λ _. refl;
            started_tx = v.started_tx;
            pending_tx = λ on. sym calm ∙ v.pending_tx on;
            searching = λ _ _. refl;
          }))
          (λ e. after_error v);
  }

  pub check_sync_status-Stable : (force : Bool) → Stable (check_sync_status force)
  unfolding check_sync_status handle_sync_completed
  check_sync_status-Stable force = record {
    at = λ w v.
        After-if
          (ltb 0 (sv.get_block_height w.rest)
            && (leb w.entry.sync_height (sv.get_block_height w.rest) || force))
          _ _ (λ e. ((Keeps->> (clear_sync_request-Stable true) completed).at w v))
          (λ e. after_error v);
  }
    where
      completed : Stable handle_sync_completed
      completed = record { at = λ w v. after_ok v }

  stamp_block-Stable : Stable stamp_block
  unfolding stamp_block
  stamp_block-Stable = record {
    at = λ w v.
        after_ok
          (with_request w.entry w.entry.last_sync_tries w.entry.last_sync_height _ v v.tried);
  }

  stamp_transaction-Stable : Stable stamp_transaction
  unfolding stamp_transaction
  stamp_transaction-Stable = record {
    at = λ w v. after_ok (
        with_transaction_request w.entry w.entry.last_tx_sync_tries w.entry.last_tx_sync_index _ v);
  }

  pub sendto-Stable : (conn : ℕ) (args : _) → Stable (sendto conn args)
  sendto-Stable conn args = Keeps-call (sv.handle_packet_sendto conn args) same_entry

  pub request_sync_block-Stable :
      (conn height : ℕ) (hash : Option (List ℕ)) → Stable (request_sync_block conn height hash)
  unfolding request_sync_block
  request_sync_block-Stable conn height hash = record {
    at = λ w v.
        After-if (leb (2 ^ 31) (wanted_height sv height hash w.rest)) _ _ (λ unknown. after_error v)
          (λ known.
            After-if (ltb resync_block_max_tries w.entry.last_sync_tries) _ _
              (λ spent. (Keeps->> must_clear-Stable (Keeps-fail same_entry)).at w v)
              (λ left.
                (Keeps->>
                    (Keeps->>
                      (Keeps-call (sv.handle_packet_sendto conn (block_request height hash))
                        (λ e t. t.0))
                      (Keeps-update (count_try (wanted_height sv height hash w.rest))
                        (count_try-SyncIsValid _)))
                    stamp_block-Stable).at
                  w (v, ltb_false→le _ _ left)));
  }

  pub take_pending-Stable :
      (receive : Block → Action (Node sv))
      → ((b : Block) → Stable (receive b))
      → (w : Node sv) → SyncIsValid w.entry
      → (o : Option (Block × List Block)) → LeavesOneLess w.entry.sync_pending_blocks o
      → After SyncIsValid (take_pending receive o w)
  unfolding take_pending
  take_pending-Stable receive stable w v none e = after_fault
  take_pending-Stable receive stable w v (some r) e = (stable r.0).at _ (
      with_pending w.entry r.1 (w.entry.sync_pending_blocks_count - 1) v (omega (arith, v.counted))
        (omega (arith, v.few)) (λ off. ground (arith, v.quiet off)))

  next_block-Stable :
      (receive : Block → Action (Node sv)) (conn height : ℕ)
      → ((b : Block) → Stable (receive b))
      → Stable (next_block receive conn height)
  unfolding next_block
  next_block-Stable receive conn height stable = record {
    at = λ w v.
        After-if (w.entry.sync_pending_blocks_count == 0) _ _
          (λ none_left. (sendto-Stable conn (get_grouped_blocks_req_args height)).at w v)
          (λ some_left.
            take_pending-Stable receive stable w v (remove_last w.entry.sync_pending_blocks)
              (remove_last-LeavesOneLess w.entry.sync_pending_blocks));
  }

  pub request_sync_next_block-Stable :
      (receive : Block → Action (Node sv)) (conn : ℕ)
      → ((b : Block) → Stable (receive b))
      → Stable (request_sync_next_block receive conn)
  unfolding request_sync_next_block
  request_sync_next_block-Stable receive conn stable = record {
    at = λ w v.
        After-if (sv.has_block_by_height w.rest w.entry.last_sync_height) _ _
          (λ there.
            (Keeps->> stamp_block-Stable (
                next_block-Stable receive conn ((w.entry.last_sync_height + 1) % 2 ^ 32) stable)).at
              _ (count_next-SyncIsValid w.entry v))
          (λ missing. after_error v);
  }

  pub request_sync_transaction-Stable :
      (conn : ℕ) (block_hash : List ℕ) (tx_index : ℕ) (tx_hash : Option (List ℕ))
      → Stable (request_sync_transaction conn block_hash tx_index tx_hash)
  unfolding request_sync_transaction
  request_sync_transaction-Stable conn block_hash tx_index tx_hash =
      Keeps->>
        (Keeps->> (sendto-Stable conn (transaction_request block_hash tx_index tx_hash))
          (Keeps-update (count_tx_try tx_index) (count_tx_try-SyncIsValid tx_index)))
        stamp_transaction-Stable

  next_transaction-Stable :
      (conn tx_index : ℕ) (o : Option Block) → Stable (next_transaction conn tx_index o)
  unfolding next_transaction
  next_transaction-Stable conn tx_index none = Keeps-stop
  next_transaction-Stable conn tx_index (some b) =
      Keeps-if (ltb b.transaction_count tx_index) (λ past. Keeps-fail same_entry)
        (λ there. request_sync_transaction-Stable conn b.hash tx_index none)

  pub request_sync_next_transaction-Stable :
      (conn : ℕ) → Stable (request_sync_next_transaction conn)
  unfolding request_sync_next_transaction
  request_sync_next_transaction-Stable conn = record {
    at = λ w v. (next_transaction-Stable conn _ w.entry.sync_pending_block).at w v;
  }

  pub request_sync_previous_block-Stable : (conn : ℕ) → Stable (request_sync_previous_block conn)
  unfolding request_sync_previous_block
  request_sync_previous_block-Stable conn = record {
    at = λ w v. (request_sync_block-Stable conn _ none).at w v;
  }
