-- ===== src/Buffer/Iterator.antt =====
-- src/common/buffer_iterator.c: a cursor over a buffer.
use vulkan_core.Common.{ℕ, Bool, ◌&&◌, Option, none, some, List, ltb, ◌==◌, if◌then◌else◌}
use vulkan_core.Exec.{ok, Exec, Action, done, stop, fail, ◌>>=◌}
use vulkan_core.Bytes.{or_bytes}
use vulkan_core.Buffer.{Heap, Buffer, add_size, sub_size, load, compare}

-- `buffer_iterator_t`; `none` stands for a `NULL` buffer.
pub record Iterator : Type 0 where
  pub buffer : Option Buffer
  pub offset : ℕ

-- `buffer_iterator_make` and `buffer_iterator_init`, where their `malloc` succeeds.
unfoldable pub make : Iterator
make = record { buffer = none; offset = 0 }

unfoldable pub init : Buffer → Iterator
unfolding make
init b = record make { buffer = some b }

unfoldable pub set_buffer : Buffer → Action Iterator
set_buffer b it = ok tt (record it { buffer = some b; offset = 0 })

unfoldable pub set_offset : ℕ → Action Iterator
set_offset n it = ok tt (record it { offset = n })

unfoldable pub clear : Action Iterator
clear it = ok tt (record it { buffer = none; offset = 0 })

-- `buffer_iterator_compare`; `none` for a failed assertion or a `memcmp` out of bounds.
unfoldable pub compare_iterator : Iterator → Iterator → Option Bool
compare_iterator it it' = elim it.buffer [
  | none ↦ none
  | some b ↦ elim it'.buffer [
    | none ↦ none
    | some c ↦ elim (compare b c) [
      | none ↦ none
      | some same ↦ some (same && it.offset == it'.offset)
    ]
  ]
]

-- The assertion that there is a buffer.
abbrev pub with_buffer : Exec Iterator Buffer
with_buffer it = elim it.buffer [ none ↦ stop it | some b ↦ ok b it ]

unfoldable pub get_remaining_size : Exec Iterator ℕ
get_remaining_size = with_buffer >>= λ b it. ok (sub_size b.size it.offset) it

-- The bytes at the cursor, which moves behind them.
abbrev pub got : ℕ → Option (List ℕ) → Exec Iterator (List ℕ)
got n none it = stop it
got n (some bytes) it = ok bytes (record it { offset = add_size it.offset n })

unfoldable pub advance : ℕ → Exec Iterator (List ℕ)
advance n = with_buffer >>= λ b it. got n (load b.data_bytes it.offset n) it

-- The fixed-width readers: `n` bytes, combined by shifts. A signed result is its bit pattern.
unfoldable pub read_word : ℕ → Exec Iterator ℕ
unfolding get_remaining_size advance
read_word n = do
  remaining ← get_remaining_size
  if ltb remaining n then fail else (advance n >>= λ bytes. done (or_bytes 0 bytes))

abbrev pub read_uint8 : Exec Iterator ℕ
read_uint8 = read_word 1

abbrev pub read_uint16 : Exec Iterator ℕ
read_uint16 = read_word 2

abbrev pub read_uint32 : Exec Iterator ℕ
read_uint32 = read_word 4

abbrev pub read_uint64 : Exec Iterator ℕ
read_uint64 = read_word 8

abbrev pub read_int8 : Exec Iterator ℕ
read_int8 = read_word 1

abbrev pub read_int16 : Exec Iterator ℕ
read_int16 = read_word 2

abbrev pub read_int32 : Exec Iterator ℕ
read_int32 = read_word 4

abbrev pub read_int64 : Exec Iterator ℕ
read_int64 = read_word 8

module _ (h : Heap) where
  -- `buffer_read`: a copy of the next `n` bytes, in a block of its own.
  unfoldable pub read : ℕ → Exec Iterator (List ℕ)
  unfolding get_remaining_size advance
  read n = do
    remaining ← get_remaining_size
    if ltb remaining n then fail else (if h.grants n then advance n else fail)

  unfoldable pub read_bytes_prefixed : ℕ → Exec Iterator (List ℕ)
  read_bytes_prefixed w = do n ← read_word w; read n

  abbrev pub read_bytes8 : Exec Iterator (List ℕ)
  read_bytes8 = read_bytes_prefixed 1

  abbrev pub read_bytes16 : Exec Iterator (List ℕ)
  read_bytes16 = read_bytes_prefixed 2

  abbrev pub read_bytes32 : Exec Iterator (List ℕ)
  read_bytes32 = read_bytes_prefixed 4

  abbrev pub read_bytes64 : Exec Iterator (List ℕ)
  read_bytes64 = read_bytes_prefixed 8

  -- The `switch` of `buffer_read_bytes` on the tag.
  unfoldable pub read_tagged : ℕ → Exec Iterator (List ℕ)
  read_tagged t =
      if t == 0
      then read_bytes8
      else if t == 1
      then read_bytes16
      else if t == 2
      then read_bytes32
      else if t == 3
      then read_bytes64
      else fail

  unfoldable pub read_bytes : Exec Iterator (List ℕ)
  unfolding read_tagged
  read_bytes = do t ← read_uint8; read_tagged t
