-- ===== src/Sync/Depth.antt =====
-- How deep `block_header_received` and `request_sync_next_block` call each other.
use vulkan_core.Common.{
  ℕ, suc, ◌+◌, ◌%◌, ◌^◌, ◌≡◌, refl, sym, ap, ap₂, ◌∙◌, Bool, true, false, not, Option, none, some,
  [], leb, ◌==◌, if◌then◌else◌,
}
use vulkan_core.Exec.{Outcome, ok, error, fault, Action, and_then, fail, ◌>>◌}
use vulkan_core.Block.{Block}
use vulkan_core.Sync.{
  SyncEntry, Services, Node, minus_one, update, must, succeeded, or_else, sendto,
}
use vulkan_core.Sync.Requests.{
  count_try, clear_sync_request, clear_grouped_sync_request, next_block, take_pending, remove_last,
  stamp_block, request_sync_next_block, request_sync_previous_block,
}
use vulkan_core.Protocol.{get_grouped_blocks_req_args}
use vulkan_core.Sync.Receive.{
  checked, find_top_block, next_of, rollback_and_resync, starting_block, pending_header,
  header_received, block_header_received,
}

count_try-pending :
    (height : ℕ) (e : SyncEntry)
    → (count_try height e).sync_pending_blocks_count ≡ e.sync_pending_blocks_count
unfolding count_try
count_try-pending height e = either (height == e.last_sync_height)
  where
    either :
        (b : Bool)
        → (if b then record e { last_sync_tries = (e.last_sync_tries + 1) % 2 ^ 8 } else record e {
          last_sync_tries = 0;
          last_sync_height = height;
        }).sync_pending_blocks_count
          ≡ e.sync_pending_blocks_count
    either true = refl
    either false = refl

module _ {sv : Services} where
  -- No header waits.
  abbrev IsEmptyAfter : Outcome (Node sv) (Unit {0}) → Type 0
  IsEmptyAfter fault = Unit
  IsEmptyAfter (error w) = Unit
  IsEmptyAfter (ok _ w) = w.entry.sync_pending_blocks_count ≡ 0

  cleared_grouped :
      (f : SyncEntry → SyncEntry)
      → ((e : SyncEntry) → (f e).sync_pending_blocks_count ≡ e.sync_pending_blocks_count)
      → (o : Outcome (Node sv) (Unit {0}))
      → IsEmptyAfter (and_then (and_then o (λ _. must clear_grouped_sync_request)) (λ _. update f))
  unfolding clear_grouped_sync_request
  cleared_grouped f same fault = tt
  cleared_grouped f same (error w) = tt
  cleared_grouped f same (ok _ w) = either w.entry.sync_initiated
    where
      emptied : Node sv
      emptied = record w {
        entry = record w.entry {
          sync_pending_block = none;
          is_syncing_grouped_blocks = false;
          sync_pending_blocks = [];
          sync_pending_blocks_count = 0;
        };
      }

      either :
          (b : Bool)
          → IsEmptyAfter (
              and_then {B = Unit {0}}
                (succeeded (if b then ok tt emptied else error w))
                (λ _. update f))
      either true = same emptied.entry
      either false = tt

  and_then-same :
      (o : Outcome (Node sv) (Unit {0})) (k k' : Action (Node sv))
      → ((w : Node sv) → w.entry.sync_pending_blocks_count ≡ 0 → k w ≡ k' w)
      → IsEmptyAfter o
      → and_then o (λ _. k) ≡ and_then o (λ _. k')
  and_then-same fault k k' same empty = refl
  and_then-same (error w) k k' same empty = refl
  and_then-same (ok _ w) k k' same empty = same w empty

  and_then-always :
      (o : Outcome (Node sv) (Unit {0})) (k k' : Action (Node sv))
      → ((w : Node sv) → k w ≡ k' w)
      → and_then o (λ _. k) ≡ and_then o (λ _. k')
  and_then-always fault k k' same = refl
  and_then-always (error w) k k' same = refl
  and_then-always (ok _ w) k k' same = same w

  module _ (f g : Block → Action (Node sv)) where
    next_block-same :
        (conn height : ℕ) (w : Node sv)
        → w.entry.sync_pending_blocks_count ≡ 0
        → next_block f conn height w ≡ next_block g conn height w
    unfolding next_block
    next_block-same conn height w empty = asked f ∙ sym (asked g)
      where
        asked :
            (receive : Block → Action (Node sv))
            → (if w.entry.sync_pending_blocks_count == 0
                then sendto conn (get_grouped_blocks_req_args height) w
                else take_pending receive (remove_last w.entry.sync_pending_blocks) w)
              ≡ sendto conn (get_grouped_blocks_req_args height) w
        asked receive =
            ap
              (λ (b : Bool).
                if b
                then sendto conn (get_grouped_blocks_req_args height) w
                else take_pending receive (remove_last w.entry.sync_pending_blocks) w)
              (ap (λ n. n == 0) empty)

    request_next-same :
        (conn : ℕ) (w : Node sv)
        → w.entry.sync_pending_blocks_count ≡ 0
        → request_sync_next_block f conn w ≡ request_sync_next_block g conn w
    unfolding request_sync_next_block stamp_block
    request_next-same conn w empty =
        ap
          (λ (o : Outcome (Node sv) (Unit {0})).
            if sv.has_block_by_height w.rest w.entry.last_sync_height then o else error w)
          (next_block-same conn ((w.entry.last_sync_height + 1) % 2 ^ 32) _
            (count_try-pending ((w.entry.last_sync_height + 1) % 2 ^ 32) w.entry ∙ empty))

  module _ (f g : ℕ → Block → Action (Node sv)) where
    next_of-same :
        (o : Option ℕ) (w : Node sv)
        → w.entry.sync_pending_blocks_count ≡ 0
        → next_of f o w ≡ next_of g o w
    unfolding next_of
    next_of-same none w empty = refl
    next_of-same (some conn) w empty = request_next-same (f conn) (g conn) conn w empty

    rollback_and_resync-same : (w : Node sv) → rollback_and_resync f w ≡ rollback_and_resync g w
    unfolding rollback_and_resync
    rollback_and_resync-same w =
        and_then-same _ _ _ (λ w' empty. next_of-same w'.entry.net_connection w' empty)
          (cleared_grouped (λ e. record e { last_sync_height = e.sync_start_height }) (λ e. refl) _)

    starting_block-same :
        (conn : ℕ) (block : Block) (w : Node sv)
        → starting_block f conn block w ≡ starting_block g conn block w
    unfolding starting_block
    starting_block-same conn block w =
        ap₂
          (λ (x y : Outcome (Node sv) (Unit {0})).
            if sv.has_block_by_hash w.rest block.hash
            then x
            else if leb w.entry.last_sync_height 1
            then y
            else or_else (request_sync_previous_block conn) (must (clear_sync_request false)) w)
          (rollback_and_resync-same
            (record w { entry = record w.entry { sync_start_height = w.entry.last_sync_height } }))
          (rollback_and_resync-same (record w { entry = record w.entry { sync_start_height = 0 } }))

    header_received-same :
        (conn : ℕ) (block : Block) (w : Node sv)
        → header_received f conn block w ≡ header_received g conn block w
    unfolding header_received
    header_received-same conn block w =
        ap
          (λ (x : Outcome (Node sv) (Unit {0})).
            if not w.entry.sync_initiated
            then ok tt w
            else if not (checked (sv.checkpoint_hash w.entry.last_sync_height) block.hash)
            then (must (clear_sync_request false) >> fail) w
            else if w.entry.sync_start_height == minus_one
            then x
            else if w.entry.tx_sync_initiated
            then ok tt w
            else pending_header conn block w)
          (and_then-always (find_top_block w) _ _ (starting_block-same conn block))

-- `block_header_received` never comes back to itself through `request_sync_next_block`: for every
-- entry, connection and block it does the same whatever would be done at that call.
pub block_header_received-ends :
    {sv : Services} (fuel conn : ℕ) (block : Block) (w : Node sv)
    (receive : ℕ → Block → Action (Node sv))
    → block_header_received (suc fuel) conn block w ≡ header_received receive conn block w
unfolding block_header_received
block_header_received-ends fuel conn block w receive =
    header_received-same (block_header_received fuel) receive conn block w
