-- ===== src/Protocol/Tests.antt =====
-- The theorems on messages and packets at concrete inputs.
use vulkan_core.Common.{◌+◌, ◌≡◌, refl, [], ◌∷◌, ◌++◌, replicate, arith}
use vulkan_core.Exec.{fault}
use vulkan_core.Check.{pass, reject}
use vulkan_core.Bytes.{le_bytes, or_bytes}
use vulkan_core.Buffer.{load}
use vulkan_core.Buffer.Full.{full}
use vulkan_core.Buffer.Iterator.{read_word, get_remaining_size, advance}
use vulkan_core.Buffer.Read.{cursor}
use vulkan_core.Buffer.Moves.{MovedTo}
use vulkan_core.Buffer.Tests.{plenty, plenty-Generous}
use vulkan_core.Protocol.{Packet, Arguments, packet_id, get_block_height_resp_args}
use vulkan_core.Protocol.Codec.{deserialize_packet, read_data}
use vulkan_core.Protocol.Write.{serialize_message}
use vulkan_core.Protocol.Read.{deserialize_message}
use vulkan_core.Protocol.Encoding.{encode_arguments, received, ArgumentsIsValid}
use vulkan_core.Protocol.Delivery.{
  packet_with, deserialize_message-serialize_message, deserialize_message-extraneous,
}
use vulkan_core.Protocol.Packets.{
  PacketIsValid, encode_packet, encode_data, forged, deserialize_packet-forged,
}
use vulkan_core.Protocol.Bounds.{deserialize_packet-bounds}

abbrev height : Arguments
height = get_block_height_resp_args 7 (replicate 32 9)

abbrev pub request : Packet
request = record { id = 5; size = 0; data_bytes = [] }

abbrev pub answer : Packet
answer = record { id = 8; size = 2; data_bytes = 6 ∷ 7 ∷ [] }

pub request-PacketIsValid : PacketIsValid request
request-PacketIsValid = record {
  id_width = omega arith;
  sized_right = refl;
  size_width = omega arith;
}

pub answer-PacketIsValid : PacketIsValid answer
answer-PacketIsValid = record {
  id_width = omega arith;
  sized_right = refl;
  size_width = omega arith;
}

deserialize_message-serialize_message_example :
    (p : Packet) × (serialize_message plenty (packet_id height) height ≡ pass p)
    × (p.id ≡ packet_id height)
    × (deserialize_message plenty p ≡ pass (received height))
unfolding ArgumentsIsValid encode_arguments le_bytes
deserialize_message-serialize_message_example =
    deserialize_message-serialize_message plenty height plenty-Generous (omega arith, refl)
      (omega arith)

deserialize_message-extraneous_example :
    deserialize_message plenty (packet_with (packet_id height) (encode_arguments height ++ 0 ∷ []))
    ≡ reject
unfolding ArgumentsIsValid encode_arguments le_bytes
deserialize_message-extraneous_example =
    deserialize_message-extraneous plenty height (0 ∷ []) plenty-Generous (omega arith, refl)
      (omega arith) (omega arith)

deserialize_packet-forged_example :
    deserialize_packet plenty (cursor (full (forged 8 100 (6 ∷ []))) 0) ≡ fault
unfolding le_bytes
deserialize_packet-forged_example =
    deserialize_packet-forged plenty (full (forged 8 100 (6 ∷ []))) 0 8 100 (6 ∷ []) []
      plenty-Generous (omega arith) (omega arith) (omega arith)
      (record { whole = refl; small = omega arith; inside = omega arith; next = refl })

deserialize_packet-bounds_example :
    MovedTo
      (full (encode_packet request))
      0
      (8 + request.size)
      (cursor (full (encode_packet request)) 8)
unfolding deserialize_packet encode_packet encode_data le_bytes read_data read_word
    get_remaining_size advance load or_bytes
deserialize_packet-bounds_example =
    deserialize_packet-bounds plenty (full (encode_packet request)) 0 request
      (cursor (full (encode_packet request)) 8) (omega arith) (omega arith) refl
