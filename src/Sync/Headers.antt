-- ===== src/Sync/Headers.antt =====
-- What is received keeps the synchronisation entry well-formed.
use vulkan_core.Common.{
  ℕ, zero, suc, ◌≡◌, ◌≢◌, refl, Bool, true, false, ◌&&◌, not, Option, none, some, [], ltb, leb,
  ◌==◌, arith, ==_iff,
}
use vulkan_core.Exec.{Action}
use vulkan_core.Block.{Block}
use vulkan_core.Protocol.{get_num_transactions_req_args}
use vulkan_core.Sync.{SyncEntry, Services, Node, minus_one}
use vulkan_core.Sync.Receive.{
  roll_back, backup_blockchain_and_rollback, checked, find_top_block, next_of, rollback_and_resync,
  starting_block, pending_header, header_received, block_header_received,
}
use vulkan_core.Sync.Invariant.{
  Calm, SyncIsValid, after_ok, After-if, same_entry, Keeps, Keeps-stop, Keeps-fail, Keeps-update,
  Keeps-must, Keeps->>, Keeps-or_else, Keeps-call,
}
use vulkan_core.Sync.Stable.{
  Stable, must_clear-Stable, clear_grouped-Calm, request_sync_next_block-Stable,
  request_sync_previous_block-Stable,
}

pub true_is_false : true ≡ false → ⊥
true_is_false e = cc

pub not-not : (b : Bool) → not b ≡ false → b ≡ true
not-not true e = refl
not-not false e = absurd cc

calm_entry : (e : SyncEntry) → Calm e → SyncIsValid e
calm_entry e c = c.0

-- Fields that no part of the invariant reads.
with_search :
    (e : SyncEntry) (did_backup finding : Bool) (height : ℕ)
    → SyncIsValid e
    → SyncIsValid (record e {
      sync_did_backup_blockchain = did_backup;
      sync_finding_top_block = finding;
      last_sync_height = height;
    })
with_search e did_backup finding height v = record {
  peered = v.peered;
  tried = v.tried;
  counted = v.counted;
  few = v.few;
  quiet = v.quiet;
  started_tx = v.started_tx;
  pending_tx = v.pending_tx;
  searching = v.searching;
}

with_start : (e : SyncEntry) (height : ℕ) → Calm e → Calm (record e { sync_start_height = height })
with_start e height (v, calm) = (
  record {
    peered = v.peered;
    tried = v.tried;
    counted = v.counted;
    few = v.few;
    quiet = v.quiet;
    started_tx = v.started_tx;
    pending_tx = v.pending_tx;
    searching = λ _ _. calm;
  },
  calm,
)

-- The block at which the chains part is known.
abbrev pub Going : SyncEntry → Type 0
Going e = SyncIsValid e × (e.sync_start_height ≢ minus_one)

going_entry : (e : SyncEntry) → Going e → SyncIsValid e
going_entry e k = k.0

pub with_block :
    (e : SyncEntry) (b : Block) → Going e → SyncIsValid (record e { sync_pending_block = some b })
with_block e b (v, going) = record {
  peered = v.peered;
  tried = v.tried;
  counted = v.counted;
  few = v.few;
  quiet = v.quiet;
  started_tx = v.started_tx;
  pending_tx = λ _. refl;
  searching = λ same _. absurd (going same);
}

pub and_left : (a b : Bool) → (a && b) ≡ true → a ≡ true
and_left true b e = refl
and_left false b e = e

pub and_right : (a b : Bool) → (a && b) ≡ true → b ≡ true
and_right true b e = e
and_right false b e = absurd cc

module _ {sv : Services} where
  abbrev CalmThrough : Action (Node sv) → Type 0
  CalmThrough m = Keeps {sv = sv} Calm m Calm

  roll_back-Calm : (current : ℕ) → CalmThrough (roll_back current)
  unfolding roll_back
  roll_back-Calm current = record {
    at = λ w c.
        After-if (ltb w.entry.sync_start_height current) _ _
          (λ higher.
            (Keeps-call (sv.rollback_blockchain w.entry.sync_start_height) calm_entry).at w c)
          (λ lower. after_ok c);
  }

  backup-Calm : CalmThrough backup_blockchain_and_rollback
  unfolding backup_blockchain_and_rollback
  backup-Calm = record {
    at = λ w c.
        After-if (ltb 0 (sv.get_block_height w.rest)) _ _
          (λ some_blocks.
            (Keeps->>
                (Keeps->> (Keeps-call sv.backup_blockchain calm_entry) (
                  Keeps-update _ (λ e k.
                    (with_search e true e.sync_finding_top_block e.last_sync_height k.0, k.1))))
                (roll_back-Calm (sv.get_block_height w.rest))).at
              w c)
          (λ no_blocks. after_ok c);
  }

  pub next_of-Stable :
      (receive : ℕ → Block → Action (Node sv)) (o : Option ℕ)
      → ((peer : ℕ) (b : Block) → Stable (receive peer b))
      → Stable (next_of receive o)
  unfolding next_of
  next_of-Stable receive none stable = Keeps-stop
  next_of-Stable receive (some conn) stable =
      request_sync_next_block-Stable (receive conn) conn (stable conn)

  rollback_and_resync-Stable :
      (receive : ℕ → Block → Action (Node sv))
      → ((peer : ℕ) (b : Block) → Stable (receive peer b))
      → Keeps {sv = sv} Calm (rollback_and_resync receive) SyncIsValid
  unfolding rollback_and_resync
  rollback_and_resync-Stable receive stable =
      Keeps->>
        (Keeps->>
          (Keeps->>
            (Keeps->>
              (Keeps-update _ (λ e c.
                (with_search e e.sync_did_backup_blockchain false e.last_sync_height c.0, c.1)))
              (Keeps-or_else backup-Calm must_clear-Stable))
            (Keeps-must clear_grouped-Calm))
          (Keeps-update _ (λ e v.
            with_search e e.sync_did_backup_blockchain e.sync_finding_top_block e.sync_start_height
              v)))
        (record { at = λ w v. (next_of-Stable receive w.entry.net_connection stable).at w v })

  find_top_block-Calm : CalmThrough find_top_block
  unfolding find_top_block
  find_top_block-Calm = record {
    at = λ w c.
        After-if w.entry.sync_finding_top_block _ _ (λ found. after_ok c)
          (λ new. after_ok (
            with_search w.entry w.entry.sync_did_backup_blockchain true (sv.get_block_height w.rest)
                c.0,
            c.1,
          ));
  }

  starting_block-Stable :
      (receive : ℕ → Block → Action (Node sv)) (conn : ℕ) (block : Block)
      → ((peer : ℕ) (b : Block) → Stable (receive peer b))
      → Keeps {sv = sv} Calm (starting_block receive conn block) SyncIsValid
  unfolding starting_block
  starting_block-Stable receive conn block stable = record {
    at = λ w c.
        After-if (sv.has_block_by_hash w.rest block.hash) _ _
          (λ found.
            (Keeps->> (Keeps-update _ (λ e k. with_start e e.last_sync_height k))
                (rollback_and_resync-Stable receive stable)).at
              w c)
          (λ unknown.
            After-if (leb w.entry.last_sync_height 1) _ _
              (λ bottom.
                (Keeps->> (Keeps-update _ (λ e k. with_start e 0 k))
                    (rollback_and_resync-Stable receive stable)).at
                  w c)
              (λ above.
                (Keeps-or_else (request_sync_previous_block-Stable conn) must_clear-Stable).at w
                  c.0));
  }

  pending_header-Stable :
      (conn : ℕ) (block : Block) → Keeps {sv = sv} Going (pending_header conn block) SyncIsValid
  unfolding pending_header
  pending_header-Stable conn block =
      Keeps->>
        (Keeps-or_else
          (Keeps-call (sv.handle_packet_sendto conn (get_num_transactions_req_args block.hash))
            going_entry)
          must_clear-Stable)
        (Keeps-update _
          (λ e v. with_block e (record block { transaction_count = 0; transactions = [] }) v))

  header_received-Stable :
      (receive : ℕ → Block → Action (Node sv)) (conn : ℕ) (block : Block)
      → ((peer : ℕ) (b : Block) → Stable (receive peer b))
      → Stable (header_received receive conn block)
  unfolding header_received
  header_received-Stable receive conn block stable = record {
    at = λ w v.
        After-if (not w.entry.sync_initiated) _ _ (λ off. after_ok v)
          (λ on.
            After-if (not (checked (sv.checkpoint_hash w.entry.last_sync_height) block.hash)) _ _
              (λ wrong. (Keeps->> must_clear-Stable (Keeps-fail same_entry)).at w v)
              (λ right.
                After-if (w.entry.sync_start_height == minus_one) _ _
                  (λ searching.
                    (Keeps->> find_top_block-Calm
                        (starting_block-Stable receive conn block stable)).at
                      w
                      (
                        v,
                        v.searching ((==_iff w.entry.sync_start_height minus_one).0 searching)
                            (not-not _ on),
                      ))
                  (λ going.
                    After-if w.entry.tx_sync_initiated _ _ (λ busy. after_ok v)
                      (λ free.
                        (pending_header-Stable conn block).at w
                          (v, λ same. ground (arith, going, same))))));
  }

  pub block_header_received-Stable :
      (fuel conn : ℕ) (block : Block) → Stable {sv = sv} (block_header_received fuel conn block)
  unfolding block_header_received
  block_header_received-Stable zero conn block = Keeps-stop
  block_header_received-Stable (suc fuel) conn block =
      header_received-Stable (block_header_received fuel) conn block
        (block_header_received-Stable fuel)
