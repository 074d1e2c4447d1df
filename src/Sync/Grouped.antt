-- ===== src/Sync/Grouped.antt =====
-- The messages that carry several block headers, in `handle_packet` of src/core/protocol.c.
use vulkan_core.Common.{
  ℕ, zero, suc, ◌+◌, ◌-◌, ◌%◌, ◌^◌, ◌&&◌, Option, none, some, List, [], ◌∷◌, ◌++◌, length, ltb, leb,
  ◌==◌, if◌then◌else◌,
}
use vulkan_core.Exec.{
  Outcome, ok, error, fault, Exec, Action, done, stop, fail, require, ◌>>=◌, ◌>>◌,
}
use vulkan_core.Crypto.{compare_hash}
use vulkan_core.Buffer.{Heap, Buffer, init, init_data, write, write_uint32, load}
use vulkan_core.Buffer.Serialized.{fill}
use vulkan_core.Buffer.Iterator.{Iterator, read_uint32}
use vulkan_core.Buffer.Iterator
use vulkan_core.Block.{Block}
use vulkan_core.Block.Codec.{serialize_block, deserialize_block}
use vulkan_core.Protocol.{get_grouped_blocks_resp_args}
use vulkan_core.Sync.{Services, Node, update, sendto}
use vulkan_core.Sync.Requests.{remove_last, take_pending}
use vulkan_core.Sync.Receive.{block_header_received}

abbrev pub max_grouped_blocks_count : ℕ
max_grouped_blocks_count = 6

abbrev min_height : ℕ → ℕ → ℕ
min_height a b = if ltb a b then a else b

-- How many headers a request from `height` on gets.
unfoldable pub grouped_count : ℕ → ℕ → ℕ
grouped_count height current =
    min_height ((height + max_grouped_blocks_count) % 2 ^ 32) current - height

-- Whether a header follows the block before it, whose hash is unknown for `NULL`.
unfoldable pub follows : Option (List ℕ) → Block → Exec Iterator (Unit {0})
follows none b = stop
follows (some last) b = if compare_hash last b.previous_hash then done tt else fail

-- The loop that reads the headers, each of which follows the one before it; `pending` is the deque
-- that the next one is put in front of.
unfoldable pub read_headers : Heap → ℕ → Option (List ℕ) → List Block → Exec Iterator (List Block)
unfolding follows
read_headers h zero last pending = done pending
read_headers h (suc n) last pending =
    deserialize_block h >>= λ b. follows last b >> read_headers h n (some b.hash) (b ∷ pending)

unfoldable pub read_grouped : Heap → Option (List ℕ) → Exec Iterator (List Block)
unfolding read_headers
read_grouped h last = read_uint32 >>= λ n.
    if n == 0
    then fail
    else if ltb max_grouped_blocks_count n
    then fail
    else read_headers h n last []

abbrev hash_of : Option Block → Option (List ℕ)
hash_of none = none
hash_of (some b) = some b.hash

-- The loop that writes `n` headers from height `i` on.
unfoldable pub serialize_from : (sv : Services) → Heap → sv.State → ℕ → ℕ → Action Buffer
serialize_from sv h s zero i = done tt
serialize_from sv h s (suc n) i = elim (sv.get_block_from_height s i) [
  | none ↦ stop
  | some b ↦ serialize_block h b >> serialize_from sv h s n (i + 1)
]

abbrev pub write_contents : Heap → Buffer → Action Buffer
write_contents h b = require (load b.data_bytes 0 b.size) >>= write h

module _ {sv : Services} (h : Heap) where
  unfoldable pub send_grouped : ℕ → Outcome Buffer (Unit {0}) → Action (Node sv)
  send_grouped conn fault = stop
  send_grouped conn (error b) = fail
  send_grouped conn (ok _ b) = sendto conn (get_grouped_blocks_resp_args b)

  unfoldable pub grouped_serialized : ℕ → ℕ → Outcome Buffer (Unit {0}) → Action (Node sv)
  unfolding send_grouped
  grouped_serialized conn n fault = stop
  grouped_serialized conn n (error b) = fail
  grouped_serialized conn n (ok _ b) =
      if n == 0
      then fail
      else send_grouped conn (fill (init h) (write_uint32 h n >> write_contents h b))

  unfoldable pub grouped_requested : ℕ → ℕ → Action (Node sv)
  unfolding grouped_serialized serialize_from grouped_count
  grouped_requested conn height w =
      let current = sv.get_block_height w.rest in
      let n = grouped_count height current in
      if leb height current
      then grouped_serialized conn n (fill (init h) (serialize_from sv h w.rest n height)) w
      else error w

  -- The headers join the deque of the entry, whose last one is the first that was sent.
  unfoldable pub grouped_read : ℕ → Outcome Iterator (List Block) → Action (Node sv)
  grouped_read conn fault = stop
  grouped_read conn (error it) = fail
  grouped_read conn (ok bs it) =
      update (λ e. record e {
        sync_pending_blocks = e.sync_pending_blocks ++ bs;
        sync_pending_blocks_count = e.sync_pending_blocks_count + length bs;
      })
      >> λ w.
          take_pending (block_header_received 2 conn) (remove_last w.entry.sync_pending_blocks) w

  unfoldable pub grouped_given : ℕ → Option (List ℕ) → Outcome Buffer (Unit {0}) → Action (Node sv)
  unfolding grouped_read read_grouped
  grouped_given conn last fault = stop
  grouped_given conn last (error b) = stop
  grouped_given conn last (ok _ b) = grouped_read conn (read_grouped h last (Iterator.init b))

  unfoldable pub grouped_answered : ℕ → ℕ → List ℕ → Action (Node sv)
  unfolding grouped_given
  grouped_answered conn size bytes w =
      if w.entry.sync_initiated && w.entry.sync_pending_blocks_count == 0
      then grouped_given conn (hash_of (sv.get_current_block w.rest))
          (init_data h 0 (some bytes) size) w
      else error w
