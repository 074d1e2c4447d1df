-- ===== src/Net/Stream.antt =====
-- Several packets in the bytes that arrive together.
use vulkan_core.Common.{
  ℕ, zero, suc, ◌+◌, ◌^◌, ◌≤◌, ◌<◌, ◌≡◌, refl, ap, subst, ◌∙◌, true, false, some, List, [], ◌∷◌,
  ◌++◌, length, leb, ltb, ◌==◌, if◌then◌else◌, arith, All, lt→ltb, le→ltb_false, le→leb,
  length-append, drop-append, take_all,
}
use vulkan_core.Exec.{Outcome, ok, error, fault, Action, and_then, done, stop}
use vulkan_core.Bytes.{le_bytes}
use vulkan_core.Bytes.Word.{length-le_bytes}
use vulkan_core.Buffer.{Heap, load, sub_size}
use vulkan_core.Buffer.Append.{Generous}
use vulkan_core.Buffer.Iterator.{Iterator}
use vulkan_core.Buffer.Iterator
use vulkan_core.Buffer.Read.{Ahead, cursor}
use vulkan_core.Buffer.Serialized.{cursor_buffer, init_data-copy}
use vulkan_core.Transaction.Encoding.{encode_all}
use vulkan_core.Protocol.{Packet}
use vulkan_core.Protocol.Codec.{deserialize_packet}
use vulkan_core.Protocol.Packets.{
  PacketIsValid, encode_packet, encode_data, Reads-deserialize_packet,
}
use vulkan_core.Net.Receive.{
  Receiver, Handler, with_made, dispatch, process_packet, go_on, after_packet,
  process_incoming_packet, receive_first, received_within, data_received,
}

-- The rest of the packets is dropped when a handler returns 1.
unfoldable pub then_rest :
    {N : Type 0}
    → Action (Receiver N)
    → Outcome (Receiver N) (Unit {0})
    → Outcome (Receiver N) (Unit {0})
then_rest rest fault = fault
then_rest rest (error r) = ok tt r
then_rest rest (ok _ r) = rest r

unfoldable pub handle_all : {N : Type 0} → Handler N → List Packet → Action (Receiver N)
unfolding then_rest
handle_all handle [] = done tt
handle_all handle (p ∷ ps) = λ r. then_rest (handle_all handle ps) (handle p r)

pub then_rest-ext :
    {N : Type 0} (o : Outcome (Receiver N) (Unit {0})) {k k' : Action (Receiver N)}
    → ((r : Receiver N) → o ≡ ok tt r → k r ≡ k' r)
    → then_rest k o ≡ then_rest k' o
unfolding then_rest
then_rest-ext fault same = refl
then_rest-ext (error r) same = refl
then_rest-ext (ok _ r) same = same r refl

-- The connection does not collect a packet.
abbrev pub IsIdle : {N : Type 0} → Receiver N → Type 0
IsIdle r = r.conn.is_receiving_data ≡ false

abbrev pub IdleAfter : {N A : Type 0} → Outcome (Receiver N) A → Type 0
IdleAfter fault = Unit
IdleAfter (error r) = IsIdle r
IdleAfter (ok _ r) = IsIdle r

-- The same of an outcome that is not undefined.
abbrev pub IdleNow : {N A : Type 0} → Outcome (Receiver N) A → Type 0
IdleNow fault = ⊥
IdleNow (error r) = IsIdle r
IdleNow (ok _ r) = IsIdle r

-- Handling a packet does not start to collect one.
abbrev pub KeepsIdle : {N : Type 0} → Handler N → Type 0
KeepsIdle {N} handle = (p : Packet) (r : Receiver N) → IsIdle r → IdleAfter (handle p r)

pub Ahead-front :
    (src rest : List ℕ)
    → length (src ++ rest) < 2 ^ 32
    → Ahead (cursor_buffer (src ++ rest)) 0 src rest
Ahead-front src rest small = record {
  whole = refl;
  small = omega arith;
  inside = omega arith;
  next = refl;
}

data-fits : (bs : List ℕ) → length bs ≤ length (encode_data bs)
unfolding encode_data
data-fits [] = omega arith
data-fits (x ∷ xs) = omega (arith, length-append (le_bytes 4 (length (x ∷ xs))) (x ∷ xs))

pub packet-fits : (p : Packet) → 8 + length p.data_bytes ≤ length (encode_packet p)
unfolding encode_packet
packet-fits p = omega (
  arith,
  data-fits p.data_bytes,
  length-append (le_bytes 4 p.id) (le_bytes 4 p.size ++ encode_data p.data_bytes),
  length-append (le_bytes 4 p.size) (encode_data p.data_bytes),
  length-le_bytes 4 p.id,
  length-le_bytes 4 p.size,
)

module _ {N : Type 0} (h : Heap) (g : Generous h) (handle : Handler N) where
  go_on-rest :
      (next : List ℕ → Action (Receiver N)) (src rest : List ℕ)
      → length (src ++ rest) < 2 ^ 32
      → go_on h handle next (some (cursor_buffer (src ++ rest))) (0 + length src)
        ≡ (if ltb 0 (length rest) then next rest else done tt)
  unfolding go_on load
  go_on-rest next src rest small =
      rw (left, fits, zero_plus, drop-append, take_all (length rest) rest (omega arith)) refl
    where
      left : sub_size (length (src ++ rest)) (0 + length src) ≡ length rest
      left = omega (arith, length-append src rest)

      zero_plus : 0 + length src ≡ length src
      zero_plus = omega arith

      fits : leb (0 + length src + length rest) (length (src ++ rest)) ≡ true
      fits = le→leb _ _ (omega (arith, length-append src rest))

  pub received_within-idle :
      (spent : List ℕ → Action (Receiver N)) (fuel : ℕ) (bytes : List ℕ) (r : Receiver N)
      → 0 < length bytes
      → length bytes < 2 ^ 32
      → IsIdle r
      → received_within h handle spent (suc fuel) bytes r
        ≡ receive_first h handle
            (received_within h handle spent fuel)
            (length bytes)
            (cursor_buffer bytes)
            (deserialize_packet h (cursor (cursor_buffer bytes) 0))
            r
  unfolding received_within with_made Iterator.init Iterator.make
  received_within-idle spent fuel bytes r pos small idle =
      rw (nonempty, init_data-copy h g bytes pos small, idle) refl
    where
      nonempty : (length bytes == 0) ≡ false
      nonempty = ground (arith, pos)

  pub data_received-idle :
      (fuel : ℕ) (bytes : List ℕ) (r : Receiver N)
      → 0 < length bytes
      → length bytes < 2 ^ 32
      → IsIdle r
      → data_received h handle (suc fuel) bytes r
        ≡ receive_first h handle
            (data_received h handle fuel)
            (length bytes)
            (cursor_buffer bytes)
            (deserialize_packet h (cursor (cursor_buffer bytes) 0))
            r
  unfolding data_received
  data_received-idle fuel bytes r pos small idle =
      received_within-idle (λ rest. stop) fuel bytes r pos small idle

  -- The first packet is handled, and what is behind it goes back to `data_received`.
  pub data_received-first :
      (fuel : ℕ) (p : Packet) (rest : List ℕ) (r : Receiver N)
      → PacketIsValid p
      → length (encode_packet p ++ rest) < 2 ^ 32
      → IsIdle r
      → data_received h handle (suc fuel) (encode_packet p ++ rest) r
        ≡ then_rest
            (if ltb 0 (length rest) then data_received h handle fuel rest else done tt)
            (handle p r)
  unfolding receive_first process_incoming_packet process_packet dispatch after_packet Iterator.init
      Iterator.make then_rest
  data_received-first fuel p rest r v small idle =
      data_received-idle fuel bytes r
        (omega (arith, packet-fits p, length-append (encode_packet p) rest)) small idle
      ∙ ap (λ o. receive_first h handle next (length bytes) (cursor_buffer bytes) o r) peeked
      ∙ rw long (ap (λ o. after_packet h handle next (dispatch h handle o r)) peeked)
      ∙ finish (handle p r)
    where
      bytes : List ℕ
      bytes = encode_packet p ++ rest

      next : List ℕ → Action (Receiver N)
      next = data_received h handle fuel

      behind : Iterator
      behind = cursor (cursor_buffer bytes) (0 + length (encode_packet p))

      peeked : deserialize_packet h (cursor (cursor_buffer bytes) 0) ≡ ok p behind
      peeked =
          (Reads-deserialize_packet h g p v).at (cursor_buffer bytes) 0 rest
            (Ahead-front (encode_packet p) rest small)

      long : ltb (length bytes) p.size ≡ false
      long =
          le→ltb_false _ _
            (omega (arith, packet-fits p, length-append (encode_packet p) rest, v.sized_right))

      finish :
          (o : Outcome (Receiver N) (Unit {0}))
          → after_packet h handle next (and_then o (λ _. done behind))
            ≡ then_rest (if ltb 0 (length rest) then next rest else done tt) o
      finish fault = refl
      finish (error r') = refl
      finish (ok _ r') = ap (λ k. k r') (go_on-rest next (encode_packet p) rest small)

  packets_behind :
      (keeps : KeepsIdle handle) (fuel : ℕ) (p : Packet) (ps : List Packet)
      → length (p ∷ ps) ≤ fuel
      → All PacketIsValid (p ∷ ps)
      → length (encode_all encode_packet (p ∷ ps)) < 2 ^ 32
      → (r : Receiver N) → IsIdle r
      → data_received h handle fuel (encode_all encode_packet (p ∷ ps)) r
        ≡ handle_all handle (p ∷ ps) r
  unfolding encode_all handle_all then_rest
  packets_behind keeps zero p ps enough vs small r idle = absurd (omega arith)
  packets_behind keeps (suc fuel) p [] enough vs small r idle =
      data_received-first fuel p [] r vs.0 small idle
  packets_behind keeps (suc fuel) p (q ∷ ps) enough vs small r idle =
      data_received-first fuel p rest r vs.0 small idle
      ∙ rw (lt→ltb 0 (length rest) some_left) (
          then_rest-ext (handle p r) (λ r' e.
            packets_behind keeps fuel q ps (omega arith) vs.1
              (omega (arith, length-append (encode_packet p) rest)) r'
              (subst IdleAfter e (keeps p r idle))))
    where
      rest : List ℕ
      rest = encode_all encode_packet (q ∷ ps)

      some_left : 0 < length rest
      some_left =
          omega
            (arith, packet-fits q, length-append (encode_packet q) (encode_all encode_packet ps))

-- Where every allocation succeeds, and handling a packet leaves the state of the reception alone:
-- when the bytes of any number of packets arrive together on a connection that does not collect a
-- packet, `data_received` hands every packet to the handler once and in order, up to the first for
-- which the handler returns 1. As many calls of itself as there are packets are enough.
pub data_received-packets :
    {N : Type 0} (h : Heap) (handle : Handler N) (fuel : ℕ) (p : Packet) (ps : List Packet)
    (r : Receiver N)
    → Generous h
    → KeepsIdle handle
    → length (p ∷ ps) ≤ fuel
    → All PacketIsValid (p ∷ ps)
    → length (encode_all encode_packet (p ∷ ps)) < 2 ^ 32
    → IsIdle r
    → data_received h handle fuel (encode_all encode_packet (p ∷ ps)) r
      ≡ handle_all handle (p ∷ ps) r
data_received-packets h handle fuel p ps r g keeps enough vs small idle =
    packets_behind h g handle keeps fuel p ps enough vs small r idle
