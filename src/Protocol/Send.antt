-- ===== src/Protocol/Send.antt =====
-- `handle_send_packet` of src/core/protocol.c: what goes out for a message.
use vulkan_core.Common.{
  ℕ, ◌+◌, ◌^◌, ◌≤◌, ◌<◌, ◌≡◌, refl, sym, ap, ◌∙◌, List, [], ◌∷◌, ◌++◌, length, map, All, arith,
  length-append, append-nil, append_assoc,
}
use vulkan_core.Exec.{
  Outcome, ok, error, fault, Action, and_then, done, stop, fail, require, ◌>>=◌, ◌>>◌,
}
use vulkan_core.Check.{Check, crash, reject, pass}
use vulkan_core.Bytes.{le_bytes}
use vulkan_core.Bytes.Word.{length-le_bytes}
use vulkan_core.Buffer.{Heap, Buffer, init, load}
use vulkan_core.Buffer.Append.{Generous}
use vulkan_core.Buffer.Serialized.{fill, init-full}
use vulkan_core.Transaction.Encoding.{encode_all}
use vulkan_core.Transaction.RoundTrip.{load_all}
use vulkan_core.Protocol.{
  Packet, Arguments, packet_id, connect_establish_req_args, connect_establish_resp_args,
  get_peerlist_req_args, get_peerlist_resp_args, get_block_height_req_args,
  get_block_height_resp_args, get_block_by_hash_req_args, get_block_by_hash_resp_args,
  get_block_by_height_req_args, get_block_by_height_resp_args, get_grouped_blocks_req_args,
  get_grouped_blocks_resp_args, get_num_transactions_req_args, get_num_transactions_resp_args,
  get_transaction_by_hash_req_args, get_transaction_by_hash_resp_args,
  get_transaction_by_index_req_args, get_transaction_by_index_resp_args,
  incoming_mempool_transaction_args,
}
use vulkan_core.Protocol.Codec.{serialize_packet}
use vulkan_core.Protocol.Write.{serialize_message}
use vulkan_core.Protocol.Encoding.{encode_arguments, ArgumentsIsValid}
use vulkan_core.Protocol.Delivery.{packet_with, serialize_message-packet}
use vulkan_core.Protocol.Packets.{
  PacketIsValid, encode_packet, encode_data, Appends-serialize_packet,
}

module _ {S : Type 0} (h : Heap) (deliver : List ℕ → Action S) where
  -- The buffer, which `deliver` (`send_data` or `broadcast_data`) gets the bytes of.
  unfoldable pub packet_serialized : Outcome Buffer (Unit {0}) → Action S
  packet_serialized fault = stop
  packet_serialized (error b) = fail
  packet_serialized (ok _ b) = require (load b.data_bytes 0 b.size) >>= deliver

  unfoldable pub message_serialized : Check Packet → Action S
  unfolding packet_serialized
  message_serialized crash = stop
  message_serialized reject = fail
  message_serialized (pass p) = packet_serialized (fill (init h) (serialize_packet h p))

  unfoldable pub handle_send_packet : ℕ → Arguments → Action S
  unfolding message_serialized
  handle_send_packet n a = message_serialized (serialize_message h n a)

-- The packet that `serialize_message` makes of a message.
abbrev pub message_packet : Arguments → Packet
message_packet a = packet_with (packet_id a) (encode_arguments a)

-- Arguments that can be sent in one packet.
pub record IsSendable (a : Arguments) : Type 0 where
  pub right : ArgumentsIsValid a
  pub short : length (encode_arguments a) < 2 ^ 32

packet_id-width : (a : Arguments) → packet_id a < 2 ^ 32
unfolding packet_id
packet_id-width (connect_establish_req_args p t) = omega arith
packet_id-width connect_establish_resp_args = omega arith
packet_id-width get_peerlist_req_args = omega arith
packet_id-width (get_peerlist_resp_args b) = omega arith
packet_id-width get_block_height_req_args = omega arith
packet_id-width (get_block_height_resp_args n hash) = omega arith
packet_id-width (get_block_by_hash_req_args hash) = omega arith
packet_id-width (get_block_by_hash_resp_args n b) = omega arith
packet_id-width (get_block_by_height_req_args n) = omega arith
packet_id-width (get_block_by_height_resp_args hash b) = omega arith
packet_id-width (get_grouped_blocks_req_args n) = omega arith
packet_id-width (get_grouped_blocks_resp_args b) = omega arith
packet_id-width (get_num_transactions_req_args hash) = omega arith
packet_id-width (get_num_transactions_resp_args hash n) = omega arith
packet_id-width (get_transaction_by_hash_req_args bh th) = omega arith
packet_id-width (get_transaction_by_hash_resp_args bh n t) = omega arith
packet_id-width (get_transaction_by_index_req_args bh n) = omega arith
packet_id-width (get_transaction_by_index_resp_args bh n t) = omega arith
packet_id-width (incoming_mempool_transaction_args t) = omega arith

pub message_packet-PacketIsValid : (a : Arguments) → IsSendable a → PacketIsValid (message_packet a)
message_packet-PacketIsValid a v = record {
  id_width = packet_id-width a;
  sized_right = refl;
  size_width = v.short;
}

pub packets-valid :
    (sent : List Arguments) → All IsSendable sent → All PacketIsValid (map message_packet sent)
packets-valid [] vs = tt
packets-valid (a ∷ more) (v, vs) = (message_packet-PacketIsValid a v, packets-valid more vs)

length-encode_packet :
    (n : ℕ) (bytes : List ℕ) → length (encode_packet (packet_with n bytes)) ≤ 12 + length bytes
unfolding encode_packet encode_data
length-encode_packet n [] = omega (
  arith,
  length-append (le_bytes 4 n) (le_bytes 4 0 ++ []),
  length-append (le_bytes 4 0) [],
  length-le_bytes 4 n,
  length-le_bytes 4 0,
)
length-encode_packet n (x ∷ xs) = omega (
  arith,
  length-append (le_bytes 4 n) (le_bytes 4 size ++ (le_bytes 4 size ++ x ∷ xs)),
  length-append (le_bytes 4 size) (le_bytes 4 size ++ x ∷ xs),
  length-append (le_bytes 4 size) (x ∷ xs),
  length-le_bytes 4 n,
  length-le_bytes 4 size,
)
  where
    size : ℕ
    size = length (x ∷ xs)

-- Messages that are sent one after the other: what was sent so far, and the bytes of the next one.
unfoldable pub send_all : Heap → List Arguments → Action (List ℕ)
unfolding handle_send_packet
send_all h [] = done tt
send_all h (a ∷ more) =
    handle_send_packet h (λ bytes before. ok tt (before ++ bytes)) (packet_id a) a
    >> send_all h more

module _ (h : Heap) (g : Generous h) where
  -- What is delivered is the encoding of the packet.
  pub handle_send_packet-encode :
      {S : Type 0} (deliver : List ℕ → Action S) (a : Arguments)
      → IsSendable a
      → (s : S)
      → handle_send_packet h deliver (packet_id a) a s
        ≡ deliver (encode_packet (message_packet a)) s
  unfolding handle_send_packet message_serialized packet_serialized fill
  handle_send_packet-encode deliver a v s =
      ap (λ c. message_serialized h deliver c s) (serialize_message-packet h g a v.right v.short)
      ∙ ap (λ o. packet_serialized h deliver (fill o (serialize_packet h (message_packet a))) s)
          (init-full h)
      ∙ ap (λ o. packet_serialized h deliver o s)
          ((Appends-serialize_packet h g (message_packet a) (message_packet-PacketIsValid a v)).at
            [] (omega (arith, length-encode_packet (packet_id a) (encode_arguments a), v.short)))
      ∙ ap (λ o. (require o >>= deliver) s) (load_all (encode_packet (message_packet a)) _ refl)

  pub send_all-encode :
      (sent : List Arguments)
      → All IsSendable sent
      → (before : List ℕ)
      → send_all h sent before
        ≡ ok tt (before ++ encode_all encode_packet (map message_packet sent))
  unfolding send_all encode_all
  send_all-encode [] vs before = ap (ok tt) (sym (append-nil before))
  send_all-encode (a ∷ more) (v, vs) before =
      ap (λ o. and_then o (λ _. send_all h more))
        (handle_send_packet-encode (λ bytes before. ok tt (before ++ bytes)) a v before)
      ∙ send_all-encode more vs (before ++ encode_packet (message_packet a))
      ∙ ap (ok tt) (
          append_assoc before (encode_packet (message_packet a))
            (encode_all encode_packet (map message_packet more)))
