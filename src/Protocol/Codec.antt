-- ===== src/Protocol/Codec.antt =====
-- `serialize_packet` and `deserialize_packet` of src/core/protocol.c.
use vulkan_core.Common.{ℕ, List, [], ltb, if◌then◌else◌}
use vulkan_core.Exec.{Action, Exec, done, require, ◌>>=◌, ◌>>◌}
use vulkan_core.Buffer.{Heap, Buffer, load, write_uint32, write_bytes32}
use vulkan_core.Buffer.Iterator.{Iterator, read_uint32, read_bytes32}
use vulkan_core.Transaction.{hash_size}
use vulkan_core.Protocol.{Packet}

module _ (h : Heap) where
  -- `buffer_write_bytes32` of `size` bytes at a pointer to `bytes`.
  unfoldable pub write_sized : List ℕ → ℕ → Action Buffer
  write_sized bytes size = require (load bytes 0 size) >>= write_bytes32 h

  unfoldable pub write_hash : List ℕ → Action Buffer
  unfolding write_sized
  write_hash hash = write_sized hash hash_size

  unfoldable pub serialize_packet : Packet → Action Buffer
  unfolding write_sized
  serialize_packet p = do
    write_uint32 h p.id
    write_uint32 h p.size
    if ltb 0 p.size then write_sized p.data_bytes p.size else done tt

  -- The block that is read may be shorter or longer than the size that was read before.
  unfoldable pub read_data : ℕ → Exec Iterator (List ℕ)
  read_data size =
      if ltb 0 size then (read_bytes32 h >>= λ bytes. require (load bytes 0 size)) else done []

  unfoldable pub deserialize_packet : Exec Iterator Packet
  deserialize_packet = do
    packet_type ← read_uint32
    n ← read_uint32
    bytes ← read_data n
    done (record { id = packet_type; size = n; data_bytes = bytes })
