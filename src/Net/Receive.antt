-- ===== src/Net/Receive.antt =====
-- `data_received` of src/core/net.c: packets out of the bytes that arrive.
use vulkan_core.Common.{
  ℕ, zero, suc, true, false, Option, none, some, List, length, leb, ltb, ◌==◌, if◌then◌else◌,
}
use vulkan_core.Exec.{Outcome, ok, error, fault, Exec, Action, stop, done, require, ◌>>=◌, ◌>>◌}
use vulkan_core.Buffer.{Heap, Buffer, load, write, init_data, sub_size}
use vulkan_core.Buffer.Iterator.{Iterator, get_remaining_size}
use vulkan_core.Buffer.Iterator
use vulkan_core.Protocol.{Packet}
use vulkan_core.Protocol.Codec.{deserialize_packet}
use vulkan_core.Net.{NetConnection, close_net_connection}

-- A connection, and the rest of the node, which the handler of a packet may change.
pub record Receiver (N : Type 0) : Type 0 where
  pub conn : NetConnection
  pub node : N

abbrev pub Handler : Type 0 → Type 0
Handler N = Packet → Action (Receiver N)

-- A buffer that was just made of the data; where that failed it is `NULL`, which fails an assertion.
unfoldable pub with_made :
    {S A : Type 0} → Outcome Buffer (Unit {0}) → (Buffer → Exec S A) → Exec S A
with_made fault k = stop
with_made (error b) k = stop
with_made (ok _ b) k = k b

module _ {N : Type 0} (h : Heap) (handle : Handler N) where
  -- The packet at the cursor is handed to `handle_receive_packet`; an error is the return value 1.
  unfoldable pub dispatch : Outcome Iterator Packet → Exec (Receiver N) Iterator
  dispatch fault = stop
  dispatch (error it) = error
  dispatch (ok p it) = handle p >>= λ _. done it

  unfoldable pub process_packet : Iterator → Exec (Receiver N) Iterator
  unfolding dispatch
  process_packet it = dispatch (deserialize_packet h it)

  -- What follows a packet: `next` gets the bytes behind the cursor, if there are any.
  unfoldable pub go_on : (List ℕ → Action (Receiver N)) → Option Buffer → ℕ → Action (Receiver N)
  go_on next none pos = stop
  go_on next (some b) pos =
      if ltb 0 (sub_size b.size pos)
      then require (load b.data_bytes pos (sub_size b.size pos)) >>= next
      else done tt

  unfoldable pub after_packet :
      (List ℕ → Action (Receiver N))
      → Outcome (Receiver N) Iterator
      → Outcome (Receiver N) (Unit {0})
  unfolding go_on
  after_packet next fault = fault
  after_packet next (error r) = ok tt r
  after_packet next (ok it r) = go_on next it.buffer it.offset r

  unfoldable pub process_incoming_packet :
      (List ℕ → Action (Receiver N)) → Iterator → Action (Receiver N)
  unfolding process_packet after_packet
  process_incoming_packet next it r = after_packet next (process_packet it r)

  -- The end of the branch that collects a packet.
  unfoldable pub stop_receiving : Action (Receiver N)
  stop_receiving r = elim r.conn.receiving_buffer [
    | none ↦ fault
    | some b ↦ ok tt (record r {
      conn = record r.conn {
        is_receiving_data = false;
        expected_receiving_len = 0;
        receiving_buffer = none;
      };
    })
  ]

  -- Bytes behind the collected packet stand in the block that they are appended to: the block must
  -- not be moved before they are copied.
  unfoldable pub in_place : (List ℕ → Action (Receiver N)) → List ℕ → Action (Receiver N)
  in_place next bytes r = elim r.conn.receiving_buffer [
    | none ↦ fault
    | some b ↦ if leb (length bytes) (sub_size b.size b.offset) then next bytes r else fault
  ]

  unfoldable pub collected :
      (List ℕ → Action (Receiver N)) → Outcome Buffer (Unit {0}) → Action (Receiver N)
  unfolding process_incoming_packet stop_receiving in_place
  collected next fault r = fault
  collected next (error b) r =
      ok tt (record r { conn = record r.conn { receiving_buffer = some b } })
  collected next (ok _ b) r =
      if leb r.conn.expected_receiving_len b.size
      then (process_incoming_packet (in_place next) (Iterator.init b) >> stop_receiving)
          (record r { conn = record r.conn { receiving_buffer = some b } })
      else ok tt (record r { conn = record r.conn { receiving_buffer = some b } })

  unfoldable pub receive_more : (List ℕ → Action (Receiver N)) → List ℕ → Action (Receiver N)
  unfolding collected
  receive_more next bytes r = elim r.conn.receiving_buffer [
    | none ↦ fault
    | some b ↦ collected next (write h bytes b) r
  ]

  -- The branch of a connection that does not collect a packet: `peeked` is the first reading of the
  -- packet, and `b` the copy of the bytes.
  unfoldable pub receive_first :
      (List ℕ → Action (Receiver N)) → ℕ → Buffer → Outcome Iterator Packet → Action (Receiver N)
  unfolding process_incoming_packet
  receive_first next n b fault r = fault
  receive_first next n b (error it) r = ok tt (record r { conn = close_net_connection r.conn })
  receive_first next n b (ok p it) r =
      if ltb n p.size
      then ok tt (record r {
        conn = record r.conn {
          is_receiving_data = true;
          expected_receiving_len = p.size;
          receiving_buffer = some b;
        };
      })
      else process_incoming_packet next (Iterator.init b) r

  -- `data_received` and `process_incoming_packet` call each other: at most `fuel` times, and `spent` is
  -- what a further call would do.
  unfoldable pub received_within : (List ℕ → Action (Receiver N)) → ℕ → List ℕ → Action (Receiver N)
  unfolding with_made receive_more receive_first
  received_within spent zero bytes = spent bytes
  received_within spent (suc fuel) bytes =
      let next = received_within spent fuel in
      if length bytes == 0
      then stop
      else with_made (init_data h 0 (some bytes) (length bytes)) (λ b r.
        if r.conn.is_receiving_data
        then receive_more next bytes r
        else receive_first next (length bytes) b (deserialize_packet h (Iterator.init b)) r)

  unfoldable pub data_received : ℕ → List ℕ → Action (Receiver N)
  unfolding received_within
  data_received = received_within (λ bytes. stop)
