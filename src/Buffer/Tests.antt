-- ===== src/Buffer/Tests.antt =====
-- Runs of the buffer and the iterator, and the theorems at concrete inputs.
use vulkan_core.Common.{◌≡◌, refl, true, [], ◌∷◌, arith}
use vulkan_core.Exec.{ok, error}
use vulkan_core.Bytes.{le_bytes, or_bytes}
use vulkan_core.Buffer.{
  Heap, load, store, fresh, realloc, resize, put, write, write_word, write_uint32, write_bytes,
}
use vulkan_core.Buffer.Full.{full, write-full}
use vulkan_core.Buffer.Append.{Generous, layout}
use vulkan_core.Buffer.Iterator.{read_uint16, read_bytes, read_word, get_remaining_size, advance}
use vulkan_core.Buffer.Read.{RoundTrip, cursor}
use vulkan_core.Buffer.RoundTrip.{read_bytes-write_bytes}

abbrev pub plenty : Heap
plenty = record { grants = λ _. true; junk = λ i. i }

pub plenty-Generous : Generous plenty
plenty-Generous n h = refl

-- Growing from the middle of a buffer adds the whole size, and leaves fresh bytes at the end.
write_in_the_middle :
    (write_uint32 plenty 0x01020304) (record { data_bytes = 9 ∷ 9 ∷ 9 ∷ []; size = 3; offset = 2 })
    ≡ ok tt (record { data_bytes = 9 ∷ 9 ∷ 4 ∷ 3 ∷ 2 ∷ 1 ∷ 6 ∷ []; size = 7; offset = 6 })
unfolding write_word resize realloc fresh put store le_bytes
write_in_the_middle = refl

read_little_endian :
    read_uint16 (cursor (full (1 ∷ 0x34 ∷ 0x12 ∷ [])) 1)
    ≡ ok 0x1234 (cursor (full (1 ∷ 0x34 ∷ 0x12 ∷ [])) 3)
unfolding read_word get_remaining_size advance load or_bytes
read_little_endian = refl

read_past_end : read_uint16 (cursor (full (1 ∷ [])) 0) ≡ error (cursor (full (1 ∷ [])) 0)
unfolding read_word get_remaining_size
read_past_end = refl

write-full_example : write plenty (7 ∷ 8 ∷ []) (full (1 ∷ [])) ≡ ok tt (full (1 ∷ 7 ∷ 8 ∷ []))
write-full_example = write-full plenty (1 ∷ []) (7 ∷ 8 ∷ []) (omega arith) (omega arith)

read_bytes-write_bytes_example :
    RoundTrip (write_bytes plenty (7 ∷ 8 ∷ [])) (read_bytes plenty) (7 ∷ 8 ∷ []) (1 ∷ [])
unfolding layout le_bytes
read_bytes-write_bytes_example =
    read_bytes-write_bytes plenty (1 ∷ []) (7 ∷ 8 ∷ []) plenty-Generous (omega arith) (omega arith)
