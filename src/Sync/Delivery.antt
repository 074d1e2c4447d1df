-- ===== src/Sync/Delivery.antt =====
-- From the bytes of a peer to the synchronisation: `data_received` with `handle_receive_packet`.
use vulkan_core.Common.{
  ℕ, ◌^◌, ◌≤◌, ◌<◌, ◌≡◌, refl, ap, ◌∙◌, Bool, true, false, not, List, [], ◌∷◌, All, map, length,
  if◌then◌else◌,
}
use vulkan_core.Exec.{Outcome, ok, error, fault, Action, done}
use vulkan_core.Check.{Check, crash, reject, pass}
use vulkan_core.Buffer.{Heap}
use vulkan_core.Buffer.Append.{Generous}
use vulkan_core.Protocol.{Message, connect_establish_req, connect_establish_resp}
use vulkan_core.Protocol.Read.{deserialize_message}
use vulkan_core.Protocol.Send.{message_packet, IsSendable, packets-valid, send_all, send_all-encode}
use vulkan_core.Net.{NetConnection, close_net_connection}
use vulkan_core.Net.Receive.{Receiver, data_received}
use vulkan_core.Net.Stream.{IsIdle, IdleAfter, KeepsIdle}
use vulkan_core.Transaction.Encoding.{encode_all}
use vulkan_core.Protocol.{Arguments, packet_id}
use vulkan_core.Protocol.Encoding.{received}
use vulkan_core.Protocol.Delivery.{deserialize_message-packet}
use vulkan_core.Protocol.Packets.{encode_packet}
use vulkan_core.Net.Stream.{then_rest, then_rest-ext, handle_all, data_received-packets}
use vulkan_core.Sync.{Services, Node}
use vulkan_core.Sync.Receive.{can_packet_be_processed}
use vulkan_core.Sync.Dispatch.{
  handle_packet, on_node, handle_packet_anonymous, handle_message, handle_receive_packet,
}

idle_if :
    {N : Type 0} (b : Bool) (x y : Outcome (Receiver N) (Unit {0}))
    → IdleAfter x
    → IdleAfter y
    → IdleAfter (if b then x else y)
idle_if true x y p q = p
idle_if false x y p q = q

module _ {sv : Services} (h : Heap) where
  on_node-IdleAfter :
      (c : NetConnection) (o : Outcome (Node sv) (Unit {0}))
      → c.is_receiving_data ≡ false
      → IdleAfter (on_node h c o)
  unfolding on_node
  on_node-IdleAfter c fault idle = tt
  on_node-IdleAfter c (error w) idle = idle
  on_node-IdleAfter c (ok _ w) idle = idle

  anonymous-IdleAfter :
      (m : Message) (r : Receiver (Node sv)) → IsIdle r → IdleAfter (handle_packet_anonymous h m r)
  unfolding handle_packet_anonymous close_net_connection
  anonymous-IdleAfter (connect_establish_req port number name testnet) r idle =
      on_node-IdleAfter (record r.conn { host_port = port; anonymous = false }) _ idle
  anonymous-IdleAfter connect_establish_resp r idle = idle
  anonymous-IdleAfter _ r idle = idle

  handle_message-IdleAfter :
      (n : ℕ) (c : Check Message) (r : Receiver (Node sv))
      → IsIdle r
      → IdleAfter (handle_message h n c r)
  unfolding handle_message
  handle_message-IdleAfter n crash r idle = tt
  handle_message-IdleAfter n reject r idle = idle
  handle_message-IdleAfter n (pass m) r idle =
      idle_if (not (can_packet_be_processed r.conn.address n r.node.entry)) _ _ idle (
        idle_if r.conn.anonymous _ _ (anonymous-IdleAfter m r idle)
          (on_node-IdleAfter r.conn (handle_packet h r.conn.address m r.node) idle))

  handle_receive_packet-KeepsIdle : KeepsIdle {N = Node sv} (handle_receive_packet h)
  unfolding handle_receive_packet
  handle_receive_packet-KeepsIdle p r idle =
      handle_message-IdleAfter p.id (deserialize_message h p) r idle

module _ {sv : Services} (h : Heap) where
  -- The messages are handled one by one, up to the first for which the handler returns 1.
  unfoldable pub handle_messages : List Arguments → Action (Receiver (Node sv))
  unfolding then_rest
  handle_messages [] = done tt
  handle_messages (a ∷ more) =
      λ r. then_rest (handle_messages more) (handle_message h (packet_id a) (pass (received a)) r)

  messages-handled :
      (g : Generous h) (sent : List Arguments)
      → All IsSendable sent
      → (r : Receiver (Node sv))
      → handle_all (handle_receive_packet h) (map message_packet sent) r ≡ handle_messages sent r
  unfolding handle_all handle_messages handle_receive_packet
  messages-handled g [] vs r = refl
  messages-handled g (a ∷ more) (v, vs) r =
      ap
        (λ c.
          then_rest (handle_all (handle_receive_packet h) (map message_packet more))
            (handle_message h (packet_id a) c r))
        (deserialize_message-packet h g a v.right v.short)
      ∙ then_rest-ext (handle_message h (packet_id a) (pass (received a)) r)
          (λ r' e. messages-handled g more vs r')

pub data_received-messages :
    {sv : Services} (h : Heap) (fuel : ℕ) (a : Arguments) (more : List Arguments)
    (r : Receiver (Node sv))
    → Generous h
    → length (map message_packet (a ∷ more)) ≤ fuel
    → All IsSendable (a ∷ more)
    → length (encode_all encode_packet (map message_packet (a ∷ more))) < 2 ^ 32
    → IsIdle r
    → data_received h
        (handle_receive_packet h)
        fuel
        (encode_all encode_packet (map message_packet (a ∷ more)))
        r
      ≡ handle_messages h (a ∷ more) r
data_received-messages h fuel a more r g enough vs small idle =
    data_received-packets h (handle_receive_packet h) fuel (message_packet a)
      (map message_packet more) r g (handle_receive_packet-KeepsIdle h) enough
      (packets-valid (a ∷ more) vs) small idle
    ∙ messages-handled h g (a ∷ more) vs r

-- Where every allocation succeeds: messages that a node sends one after the other with
-- `handle_send_packet`, and whose bytes arrive together at a connection of another node that collects
-- no packet, are handled there one by one and in the order of sending, up to the first for which the
-- handler returns 1; a block comes without its transactions.
pub handle_send_packet-received :
    {sv : Services} (h : Heap) (fuel : ℕ) (a : Arguments) (more : List Arguments)
    (r : Receiver (Node sv))
    → Generous h
    → length (map message_packet (a ∷ more)) ≤ fuel
    → All IsSendable (a ∷ more)
    → length (encode_all encode_packet (map message_packet (a ∷ more))) < 2 ^ 32
    → IsIdle r
    → (bytes : List ℕ) × (send_all h (a ∷ more) [] ≡ ok tt bytes)
      × (data_received h (handle_receive_packet h) fuel bytes r ≡ handle_messages h (a ∷ more) r)
handle_send_packet-received h fuel a more r g enough vs small idle = (
  encode_all encode_packet (map message_packet (a ∷ more)),
  send_all-encode h g (a ∷ more) vs [],
  data_received-messages h fuel a more r g enough vs small idle,
)
