-- ===== src/Protocol/Delivery.antt =====
-- What `serialize_message` puts in a packet, `deserialize_message` gives back.
use vulkan_core.Common.{
  ℕ, ◌+◌, ◌%◌, ◌^◌, ◌<◌, ◌≡◌, refl, sym, ap, ◌∙◌, Bool, true, false, List, [], ◌∷◌, ◌++◌, length,
  ltb, ◌==◌, if◌then◌else◌, arith, lt→ltb, append-nil, ==_refl, length-append, inl, inr, Bool-cases,
  map,
}
use vulkan_core.Exec.{ok, Exec, and_then, ◌>>=◌, done, fail}
use vulkan_core.Check.{reject, pass}
use vulkan_core.Buffer.{Heap, Buffer, sub_size}
use vulkan_core.Buffer.Append.{Generous}
use vulkan_core.Buffer.Full.{full}
use vulkan_core.Buffer.Iterator.{Iterator, get_remaining_size}
use vulkan_core.Buffer.Iterator
use vulkan_core.Buffer.Read.{Reads, Ahead, cursor}
use vulkan_core.Buffer.Serialized.{
  init-full, cursor_buffer, init_data-copy, fill, allocate, read_from, result_of,
}
use vulkan_core.Transaction.RoundTrip.{load_all}
use vulkan_core.Protocol.{
  Packet, Message, Arguments, packet_id, connect_establish_req_args, connect_establish_resp_args,
  get_peerlist_req_args, get_peerlist_resp_args, get_block_height_req_args,
  get_block_height_resp_args, get_block_by_hash_req_args, get_block_by_hash_resp_args,
  get_block_by_height_req_args, get_block_by_height_resp_args, get_grouped_blocks_req_args,
  get_grouped_blocks_resp_args, get_num_transactions_req_args, get_num_transactions_resp_args,
  get_transaction_by_hash_req_args, get_transaction_by_hash_resp_args,
  get_transaction_by_index_req_args, get_transaction_by_index_resp_args,
  incoming_mempool_transaction_args, make_packet, switch,
}
use vulkan_core.Protocol.Write.{handled, one_of, write_body, packet_of, serialize_message}
use vulkan_core.Protocol.Read.{
  read_body, read_whole, packet_buffer, deserialize_message, message_cases,
}
use vulkan_core.Protocol.Encoding.{encode_arguments, received, ArgumentsIsValid, Appends-write_body}
use vulkan_core.Protocol.RoundTrip.{Reads-read_body}

abbrev pub packet_with : ℕ → List ℕ → Packet
packet_with n src = record { id = n; size = length src; data_bytes = src }

handled-packet_id : (a : Arguments) → handled (packet_id a) ≡ true
unfolding handled one_of packet_id
handled-packet_id (connect_establish_req_args p t) = refl
handled-packet_id connect_establish_resp_args = refl
handled-packet_id get_peerlist_req_args = refl
handled-packet_id (get_peerlist_resp_args b) = refl
handled-packet_id get_block_height_req_args = refl
handled-packet_id (get_block_height_resp_args n hash) = refl
handled-packet_id (get_block_by_hash_req_args hash) = refl
handled-packet_id (get_block_by_hash_resp_args n b) = refl
handled-packet_id (get_block_by_height_req_args n) = refl
handled-packet_id (get_block_by_height_resp_args hash b) = refl
handled-packet_id (get_grouped_blocks_req_args n) = refl
handled-packet_id (get_grouped_blocks_resp_args b) = refl
handled-packet_id (get_num_transactions_req_args hash) = refl
handled-packet_id (get_num_transactions_resp_args hash n) = refl
handled-packet_id (get_transaction_by_hash_req_args bh th) = refl
handled-packet_id (get_transaction_by_hash_resp_args bh n t) = refl
handled-packet_id (get_transaction_by_index_req_args bh n) = refl
handled-packet_id (get_transaction_by_index_resp_args bh n t) = refl
handled-packet_id (incoming_mempool_transaction_args t) = refl

module _ (h : Heap) (g : Generous h) where
  packet_of-full :
      (n : ℕ) (src : List ℕ)
      → length src < 2 ^ 32
      → packet_of h n (ok tt (full src)) ≡ pass (packet_with n src)
  unfolding packet_of make_packet allocate
  packet_of-full n [] small = refl
  packet_of-full n (x ∷ xs) small =
      let whole : length (x ∷ xs) % 2 ^ 32 ≡ length (x ∷ xs) = omega arith in
      rw (
        whole,
        lt→ltb 0 (length (x ∷ xs)) (omega arith),
        g (length (x ∷ xs)) (omega arith),
        load_all (x ∷ xs) (length (x ∷ xs)) refl,
      )

  packet_buffer-front :
      (n : ℕ) (src : List ℕ)
      → length src < 2 ^ 32
      → packet_buffer h (packet_with n src) ≡ ok tt (cursor_buffer src)
  unfolding packet_buffer
  packet_buffer-front n [] small = init-full h
  packet_buffer-front n (x ∷ xs) small =
      rw (lt→ltb 0 (length (x ∷ xs)) (omega arith))
        (init_data-copy h g (x ∷ xs) (omega arith) small)

  -- What is left is looked at only behind the message.
  read_whole-Reads :
      (n : ℕ) {src : List ℕ} {v : Message} (extra : List ℕ)
      → Reads (read_body h n) src v
      → length src + length extra < 2 ^ 32
      → read_whole h n (cursor (cursor_buffer (src ++ extra)) 0)
        ≡ (if ltb 0 (length extra) then fail else done v)
            (cursor (cursor_buffer (src ++ extra)) (0 + length src))
  unfolding read_whole get_remaining_size
  read_whole-Reads n {src} {v} extra p small =
      ap (λ r. and_then r (λ m. get_remaining_size >>= last m)) (p.at buffer 0 extra ahead)
      ∙ ap (λ k. last v k (cursor buffer (0 + length src))) left
      ∙ ap (λ k. (if ltb 0 k then fail else done v) (cursor buffer (0 + length src))) fits
    where
      buffer : Buffer
      buffer = cursor_buffer (src ++ extra)

      last : Message → ℕ → Exec Iterator Message
      last m remaining = if ltb 0 (remaining % 2 ^ 32) then fail else done m

      fits : length extra % 2 ^ 32 ≡ length extra
      fits = omega arith

      left : sub_size (length (src ++ extra)) (0 + length src) ≡ length extra
      left = omega (arith, length-append src extra)

      ahead : Ahead buffer 0 src extra
      ahead = record {
        whole = refl;
        small = omega (arith, length-append src extra);
        inside = omega arith;
        next = refl;
      }

  deserialize_message-front :
      (n : ℕ) {src : List ℕ} {v : Message} (extra : List ℕ)
      → Reads (read_body h n) src v
      → length src + length extra < 2 ^ 32
      → deserialize_message h (packet_with n (src ++ extra))
        ≡ (if ltb 0 (length extra) then reject else pass v)
  unfolding deserialize_message read_from result_of Iterator.init Iterator.make
  deserialize_message-front n {src} {v} extra p small =
      ap (λ o. read_from o (read_whole h n))
        (packet_buffer-front n (src ++ extra) (omega (arith, length-append src extra)))
      ∙ ap result_of (read_whole-Reads n extra p small)
      ∙ decided (ltb 0 (length extra))
    where
      decided :
          (b : Bool)
          → result_of (
              (if b then fail else done v) (cursor (cursor_buffer (src ++ extra)) (0 + length src)))
            ≡ (if b then reject else pass v)
      decided true = refl
      decided false = refl

  pub serialize_message-packet :
      (a : Arguments)
      → ArgumentsIsValid a
      → length (encode_arguments a) < 2 ^ 32
      → serialize_message h (packet_id a) a ≡ pass (packet_with (packet_id a) (encode_arguments a))
  unfolding serialize_message fill
  serialize_message-packet a v small =
      rw (handled-packet_id a, ==_refl (packet_id a))
        (ap (λ o. packet_of h (packet_id a) (fill o (write_body h a))) (init-full h)
          ∙ ap (packet_of h (packet_id a)) ((Appends-write_body h g a v).at [] (omega arith))
          ∙ packet_of-full (packet_id a) (encode_arguments a) small)

  pub deserialize_message-packet :
      (a : Arguments)
      → ArgumentsIsValid a
      → length (encode_arguments a) < 2 ^ 32
      → deserialize_message h (packet_with (packet_id a) (encode_arguments a)) ≡ pass (received a)
  deserialize_message-packet a v small =
      ap (λ src. deserialize_message h (packet_with (packet_id a) src))
        (sym (append-nil (encode_arguments a)))
      ∙ deserialize_message-front (packet_id a) [] (Reads-read_body h g a v) (omega arith)

-- Where every allocation succeeds: for arguments whose sizes and widths are those of the C types, and
-- whose message is shorter than 2 ^ 32 bytes, `serialize_message` makes a packet of that type, and
-- `deserialize_message` of the packet returns a message of the same kind with the values sent, where
-- a block comes without its transactions.
pub deserialize_message-serialize_message :
    (h : Heap) (a : Arguments)
    → Generous h
    → ArgumentsIsValid a
    → length (encode_arguments a) < 2 ^ 32
    → (p : Packet) × (serialize_message h (packet_id a) a ≡ pass p)
      × (p.id ≡ packet_id a)
      × (deserialize_message h p ≡ pass (received a))
deserialize_message-serialize_message h a g v small = (
  packet_with (packet_id a) (encode_arguments a),
  serialize_message-packet h g a v small,
  refl,
  deserialize_message-packet h g a v small,
)

-- Where every allocation succeeds: bytes behind a message that is complete make
-- `deserialize_message` fail, for a message of any kind.
pub deserialize_message-extraneous :
    (h : Heap) (a : Arguments) (extra : List ℕ)
    → Generous h
    → ArgumentsIsValid a
    → 0 < length extra
    → length (encode_arguments a) + length extra < 2 ^ 32
    → deserialize_message h (packet_with (packet_id a) (encode_arguments a ++ extra)) ≡ reject
deserialize_message-extraneous h a extra g v some_left small =
    deserialize_message-front h g (packet_id a) extra (Reads-read_body h g a v) small
    ∙ rw (lt→ltb 0 (length extra) some_left) refl

pub switch_default {ℓ} :
    {A : Type ℓ} (n : ℕ) (cs : List (ℕ × A)) (d : A)
    → one_of n (map (λ c. c.0) cs) ≡ false
    → switch n cs d ≡ d
unfolding switch one_of
switch_default n [] d hs = refl
switch_default n ((k, a) ∷ cs) d hs = elim (Bool-cases (n == k)) [
  | inl e ↦ absurd (ground (arith, hs))
  | inr e ↦ rw e (switch_default n cs d (ground (arith, hs)))
]

-- Where every allocation succeeds: for a packet type that has no case, `serialize_message` fails
-- whatever the arguments, and `deserialize_message` fails whatever bytes the packet has.
pub message_without_case :
    (h : Heap) (n : ℕ) (a : Arguments) (src : List ℕ)
    → Generous h
    → handled n ≡ false
    → length src < 2 ^ 32
    → (serialize_message h n a ≡ reject) × (deserialize_message h (packet_with n src) ≡ reject)
unfolding serialize_message deserialize_message read_whole read_body handled read_from result_of
message_without_case h n a src g e small = (
  rw e refl,
  ap (λ o. read_from o (read_whole h n)) (packet_buffer-front h g n src small)
      ∙ ap
          (λ m. result_of (
            (m >>= λ v. get_remaining_size >>= λ k. if ltb 0 (k % 2 ^ 32) then fail else done v)
              (Iterator.init (cursor_buffer src))))
          (switch_default n (message_cases h) fail e),
)
