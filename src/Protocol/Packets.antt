-- ===== src/Protocol/Packets.antt =====
-- Packets on the wire.
use vulkan_core.Common.{
  ℕ, ◌+◌, ◌^◌, ◌<◌, ◌≡◌, refl, sym, ap, ◌∙◌, List, [], ◌∷◌, ◌++◌, length, ltb, if◌then◌else◌, arith,
  lt→ltb, gt→leb_false, append-nil,
}
use vulkan_core.Exec.{fault, and_then, done}
use vulkan_core.Bytes.{le_bytes}
use vulkan_core.Buffer.{Heap, Buffer, load}
use vulkan_core.Buffer.Append.{Generous, Appends, Appends-done, Appends->>, Appends-write_word}
use vulkan_core.Buffer.Read.{
  Reads, Reads-done, Reads->>=, Reads-map, Reads-read_word, Reads-read_bytes_prefixed, RoundTrip,
  RoundTrip-of, cursor, Ahead, Ahead-after, Reads-first,
}
use vulkan_core.Transaction.Encoding.{sized}
use vulkan_core.Transaction.RoundTrip.{load_all}
use vulkan_core.Protocol.{Packet}
use vulkan_core.Protocol.Codec.{write_sized, serialize_packet, deserialize_packet, read_data}
use vulkan_core.Protocol.Encoding.{Appends-write_sized}

-- The widths are those of the C struct, and the size is that of the block.
pub record PacketIsValid (p : Packet) : Type 0 where
  pub id_width : p.id < 2 ^ 32
  pub sized_right : p.size ≡ length p.data_bytes
  pub size_width : p.size < 2 ^ 32

unfoldable pub encode_data : List ℕ → List ℕ
encode_data [] = []
encode_data (x ∷ xs) = sized (x ∷ xs)

unfoldable pub encode_packet : Packet → List ℕ
encode_packet p = le_bytes 4 p.id ++ (le_bytes 4 p.size ++ encode_data p.data_bytes)

module _ (h : Heap) (g : Generous h) where
  Appends-data :
      (bs : List ℕ) (n : ℕ)
      → n ≡ length bs
      → Appends (if ltb 0 n then write_sized h bs n else done tt) (encode_data bs)
  unfolding encode_data
  Appends-data [] n e = rw e Appends-done
  Appends-data (x ∷ xs) n e =
      rw (lt→ltb 0 n (omega arith)) (Appends-write_sized h g (x ∷ xs) n (sym e) (omega arith))

  pub Appends-serialize_packet :
      (p : Packet) → PacketIsValid p → Appends (serialize_packet h p) (encode_packet p)
  unfolding serialize_packet encode_packet
  Appends-serialize_packet p v = Appends->> (Appends-write_word h g 4 p.id (omega arith)) (
      Appends->> (Appends-write_word h g 4 p.size (omega arith))
        (Appends-data p.data_bytes p.size v.sized_right))

  Reads-read_data :
      (bs : List ℕ) (n : ℕ) → n ≡ length bs → n < 2 ^ 32 → Reads (read_data h n) (encode_data bs) bs
  unfolding read_data encode_data
  Reads-read_data [] n e small = rw e (Reads-done [])
  Reads-read_data (x ∷ xs) n e small =
      rw (lt→ltb 0 n (omega arith), ← append-nil (sized (x ∷ xs)))
        (Reads->>= _ (Reads-read_bytes_prefixed h g 4 (x ∷ xs) (omega arith) (omega arith))
          (rw (load_all (x ∷ xs) n (sym e)) (Reads-done (x ∷ xs))))

  pub Reads-deserialize_packet :
      (p : Packet) → PacketIsValid p → Reads (deserialize_packet h) (encode_packet p) p
  unfolding deserialize_packet encode_packet
  Reads-deserialize_packet p v = Reads->>= _ (Reads-read_word 4 p.id v.id_width) (
      Reads->>= _ (Reads-read_word 4 p.size v.size_width)
        (Reads-map _ (Reads-read_data p.data_bytes p.size v.sized_right v.size_width)))

-- Where every allocation succeeds and the buffer stays below the address space: a packet whose size
-- is that of its data is written by `serialize_packet` behind any bytes already written, and
-- `deserialize_packet` at that place returns the packet and leaves the cursor at the end.
pub deserialize_packet-serialize_packet :
    (h : Heap) (bs : List ℕ) (p : Packet)
    → Generous h
    → PacketIsValid p
    → length bs + length (encode_packet p) < 2 ^ 64
    → RoundTrip (serialize_packet h p) (deserialize_packet h) p bs
deserialize_packet-serialize_packet h bs p g v fits =
    RoundTrip-of (Appends-serialize_packet h g p v) (Reads-deserialize_packet h g p v) bs fits

-- The bytes of a packet whose size field is `n`, while the block behind it has the bytes `bs`.
abbrev pub forged : ℕ → ℕ → List ℕ → List ℕ
forged packet_type n bs = le_bytes 4 packet_type ++ (le_bytes 4 n ++ sized bs)

read_data-short :
    (h : Heap) (g : Generous h) (b : Buffer) (pos n : ℕ) (bs rest : List ℕ)
    → length bs < n
    → n < 2 ^ 32
    → Ahead b pos (sized bs) rest
    → read_data h n (cursor b pos) ≡ fault
unfolding read_data load
read_data-short h g b pos n bs rest short small a =
    rw
      (
        lt→ltb 0 n (omega arith),
        (Reads-read_bytes_prefixed h g 4 bs (omega arith) (omega arith)).at b pos rest a,
        gt→leb_false (0 + n) (length bs) (omega arith),
      )
      refl

-- Where every allocation succeeds: when the size field of a packet that was received is larger than
-- the block behind it, `deserialize_packet` copies bytes from outside the block.
pub deserialize_packet-forged :
    (h : Heap) (b : Buffer) (pos packet_type n : ℕ) (bs rest : List ℕ)
    → Generous h
    → packet_type < 2 ^ 32
    → length bs < n
    → n < 2 ^ 32
    → Ahead b pos (forged packet_type n bs) rest
    → deserialize_packet h (cursor b pos) ≡ fault
unfolding deserialize_packet
deserialize_packet-forged h b pos packet_type n bs rest g wide short small a =
    Reads-first _ b pos (le_bytes 4 n ++ sized bs) rest (Reads-read_word 4 packet_type wide) a
    ∙ Reads-first _ b (pos + length (le_bytes 4 packet_type)) (sized bs) rest
        (Reads-read_word 4 n small) at_size
    ∙ ap (λ r. and_then r λ bytes. done (record { id = packet_type; size = n; data_bytes = bytes }))
        (read_data-short h g b _ n bs rest short small
          (Ahead-after b _ (le_bytes 4 n) (sized bs) rest at_size))
  where
    at_size : Ahead b (pos + length (le_bytes 4 packet_type)) (le_bytes 4 n ++ sized bs) rest
    at_size = Ahead-after b pos (le_bytes 4 packet_type) (le_bytes 4 n ++ sized bs) rest a
