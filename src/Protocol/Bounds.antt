-- ===== src/Protocol/Bounds.antt =====
-- What `deserialize_packet` can return from any bytes.
use vulkan_core.Common.{
  ℕ, ◌+◌, ◌-◌, ◌^◌, ◌≤◌, ◌<◌, ◌≡◌, [], length, ltb, arith, inl, inr, Bool-cases,
}
use vulkan_core.Exec.{ok}
use vulkan_core.Buffer.{Heap, Buffer}
use vulkan_core.Buffer.Iterator.{Iterator}
use vulkan_core.Buffer.Read.{cursor}
use vulkan_core.Buffer.Moves.{
  MovedTo, Moves, Moves-done, Moves-done_of, Moves->>=, Moves-read_word, Moves-read_bytes_prefixed,
  Moves-require-load,
}
use vulkan_core.Protocol.{Packet}
use vulkan_core.Protocol.Codec.{read_data, deserialize_packet}

module _ (h : Heap) where
  Moves-read_data : (n : ℕ) → Moves (read_data h n) (λ _. n)
  unfolding read_data
  Moves-read_data n = elim (Bool-cases (ltb 0 n)) [
    | inl some_data ↦ rw some_data (
        Moves->>= (λ bs. 4 + length bs) (λ bs _. n - length bs) (Moves-read_bytes_prefixed h 4)
          (λ bs. Moves-require-load bs n) (λ bs v. omega arith))
    | inr none_left ↦ let empty : n ≡ 0 = ground (arith, none_left) in rw empty (Moves-done [])
  ]

  pub Moves-deserialize_packet : Moves (deserialize_packet h) (λ p. 8 + p.size)
  unfolding deserialize_packet
  Moves-deserialize_packet =
      Moves->>= (λ _. 4) (λ _ p. 4 + p.size) (Moves-read_word 4)
        (λ packet_type.
          Moves->>= (λ _. 4) (λ n p. n + (p.size - n)) (Moves-read_word 4)
            (λ n.
              Moves->>= (λ _. n) (λ _ p. p.size - n) (Moves-read_data n)
                (λ bs.
                  Moves-done_of (λ p. p.size)
                    (record { id = packet_type; size = n; data_bytes = bs }))
                (λ bs p. omega arith))
            (λ n p. omega arith))
        (λ packet_type p. omega arith)

-- Whatever a buffer holds whose size field is below the address space: where `deserialize_packet`
-- returns a packet, it has moved the cursor over the 8 bytes of the header and over as many bytes
-- as the size of the packet says, and no further than the end of the buffer.
pub deserialize_packet-bounds :
    (h : Heap) (b : Buffer) (pos : ℕ) (p : Packet) (it : Iterator)
    → pos ≤ b.size
    → b.size < 2 ^ 64
    → deserialize_packet h (cursor b pos) ≡ ok p it
    → MovedTo b pos (8 + p.size) it
deserialize_packet-bounds h b pos p it = (Moves-deserialize_packet h).at b pos p it
