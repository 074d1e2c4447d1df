-- ===== src/Net/Cut.antt =====
-- A packet that arrives in two pieces.
use vulkan_core.Common.{
  ℕ, suc, ◌^◌, ◌<◌, ◌≡◌, refl, sym, ap, ◌∙◌, List, [], ◌∷◌, ◌++◌, length, arith, lt→ltb, append-nil,
}
use vulkan_core.Exec.{ok}
use vulkan_core.Buffer.{Heap}
use vulkan_core.Buffer.Append.{Generous}
use vulkan_core.Buffer.Read.{Ahead, Reads-read_word}
use vulkan_core.Buffer.Starves.{
  Starves, Starves-nothing, Starves->>=, Starves-map, Starves-read_word,
  Starves-read_bytes_prefixed,
}
use vulkan_core.Buffer.Serialized.{cursor_buffer}
use vulkan_core.Protocol.{Packet}
use vulkan_core.Protocol.Codec.{deserialize_packet, read_data}
use vulkan_core.Protocol.Packets.{PacketIsValid, encode_packet, encode_data}
use vulkan_core.Net.{close_net_connection}
use vulkan_core.Net.Receive.{Receiver, Handler, receive_first, data_received}
use vulkan_core.Net.Stream.{IsIdle, data_received-idle}

module _ (h : Heap) where
  Starves-read_data :
      (bs : List ℕ) (n : ℕ) → n ≡ length bs → n < 2 ^ 32 → Starves (read_data h n) (encode_data bs)
  unfolding read_data encode_data
  Starves-read_data [] n e small = Starves-nothing (read_data h n)
  Starves-read_data (x ∷ xs) n e small =
      rw (lt→ltb 0 n (omega arith))
        (Starves-map _ (Starves-read_bytes_prefixed h 4 (x ∷ xs) (omega arith)))

  Starves-deserialize_packet :
      (p : Packet) → PacketIsValid p → Starves (deserialize_packet h) (encode_packet p)
  unfolding deserialize_packet encode_packet
  Starves-deserialize_packet p v =
      Starves->>= _ (Reads-read_word 4 p.id v.id_width) (Starves-read_word 4 p.id) (
        Starves->>= _ (Reads-read_word 4 p.size v.size_width) (Starves-read_word 4 p.size)
          (Starves-map _ (Starves-read_data p.data_bytes p.size v.sized_right v.size_width)))

-- Where every allocation succeeds: when only the first bytes of a packet arrive on a connection that
-- does not collect a packet, `data_received` closes the connection; it keeps nothing of them, and
-- hands nothing to the handler.
pub data_received-cut :
    {N : Type 0} (h : Heap) (handle : Handler N) (fuel : ℕ) (p : Packet) (xs ys : List ℕ)
    (r : Receiver N)
    → Generous h
    → PacketIsValid p
    → encode_packet p ≡ xs ++ ys
    → 0 < length xs
    → 0 < length ys
    → length xs < 2 ^ 32
    → IsIdle r
    → data_received h handle (suc fuel) xs r
      ≡ ok tt (record r { conn = close_net_connection r.conn })
unfolding receive_first
data_received-cut h handle fuel p xs ys r g v cut some_there some_left small idle =
    let (it, failed) =
      (Starves-deserialize_packet h p v).at (cursor_buffer xs) 0 xs ys cut some_left ahead in
    data_received-idle h g handle fuel xs r some_there small idle
    ∙ ap
        (λ o.
          receive_first h handle (data_received h handle fuel) (length xs) (cursor_buffer xs) o r)
        failed
  where
    ahead : Ahead (cursor_buffer xs) 0 xs []
    ahead = record {
      whole = refl;
      small = omega arith;
      inside = omega arith;
      next = sym (append-nil xs);
    }
