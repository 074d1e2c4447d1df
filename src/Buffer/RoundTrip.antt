-- ===== src/Buffer/RoundTrip.antt =====
-- What the writers append, the readers give back.
use vulkan_core.Common.{ℕ, ◌+◌, ◌^◌, ◌<◌, ◌≡◌, List, ◌++◌, length, length-append, arith}
use vulkan_core.Bytes.{le_bytes}
use vulkan_core.Buffer.{Heap, write_bytes}
use vulkan_core.Buffer.Append.{Generous, layout, tagged, Appends-write_bytes}
use vulkan_core.Buffer.Iterator.{read_tagged, read_bytes, read_bytes_prefixed}
use vulkan_core.Buffer.Read.{
  Reads, Reads->>=, Reads-read_word, Reads-read_bytes_prefixed, RoundTrip, RoundTrip-of,
}

module _ (h : Heap) where
  read_tagged-layout :
      (n : ℕ) → read_tagged h (layout n).tag ≡ read_bytes_prefixed h (layout n).width
  unfolding read_tagged layout
  read_tagged-layout n = ground arith

layout-fits : (n : ℕ) → n < 2 ^ 64 → ((layout n).tag < 256) × (n < 256 ^ (layout n).width)
unfolding layout
layout-fits n h = ground arith

module _ (h : Heap) (g : Generous h) where
  pub Reads-read_bytes :
      (src : List ℕ) → length src < 2 ^ 64 → Reads (read_bytes h) (tagged src) src
  unfolding read_bytes
  Reads-read_bytes src fits =
      let (small, wide) = layout-fits (length src) fits in
      Reads->>= (read_tagged h) (Reads-read_word 1 (layout (length src)).tag small) (
        rw (read_tagged-layout h (length src))
          (Reads-read_bytes_prefixed h g (layout (length src)).width src wide fits))

-- Where every allocation succeeds and the buffer stays below the address space: for any non-empty
-- byte string `buffer_write_bytes` succeeds behind any bytes already written, and `buffer_read_bytes`
-- at that place returns the byte string and leaves the cursor at the end of the buffer, whichever
-- of the four length formats the size selects.
pub read_bytes-write_bytes :
    (h : Heap) (bs src : List ℕ)
    → Generous h
    → 0 < length src
    → length bs + length (tagged src) < 2 ^ 64
    → RoundTrip (write_bytes h src) (read_bytes h) src bs
read_bytes-write_bytes h bs src g pos fits =
    RoundTrip-of (Appends-write_bytes h g src pos small) (Reads-read_bytes h g src small) bs fits
  where
    small : length src < 2 ^ 64
    small = omega (
      arith,
      length-append (le_bytes 1 (layout (length src)).tag)
          (le_bytes (layout (length src)).width (length src) ++ src),
      length-append (le_bytes (layout (length src)).width (length src)) src,
    )
