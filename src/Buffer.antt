-- ===== src/Buffer.antt =====
-- src/common/buffer.c and src/common/buffer_iterator.c: a growing byte buffer and a cursor that
-- reads one.
pub mod Iterator
pub mod Full
pub mod Fill
pub mod Append
pub mod Read
pub mod Moves
pub mod Starves
pub mod RoundTrip
pub mod Serialized
pub mod Tests
use vulkan_core.Common.{
  ℕ, zero, suc, ◌+◌, ◌-◌, ◌%◌, ◌^◌, ◌≤◌, ◌<◌, Bool, true, false, ◌&&◌, ◌||◌, Option, none, some,
  List, [], ◌∷◌, ◌++◌, length, take, drop, replicate, leb, ltb, ◌==◌, if◌then◌else◌, same_bytes,
}
use vulkan_core.Exec.{Outcome, ok, error, fault, Exec, Action, done, stop, fail, ◌>>=◌, ◌>>◌}
use vulkan_core.Bytes.{le_bytes}

-- The allocator: whether `malloc` or `realloc` serves a request of so many bytes, and what the
-- fresh byte at an index of a grown block holds.
pub record Heap : Type 0 where
  pub grants : ℕ → Bool
  pub junk : ℕ → ℕ

-- `buffer_t`. `data` lists the allocated bytes, and is empty for `NULL`; `size` and `offset` are
-- fields of their own, which `buffer_set_size` and `buffer_set_offset` set to anything.
pub record Buffer : Type 0 where
  pub data_bytes : List ℕ
  pub size : ℕ
  pub offset : ℕ

-- `size_t` arithmetic.
abbrev pub add_size : ℕ → ℕ → ℕ
add_size a b = (a + b) % 2 ^ 64

abbrev pub sub_size : ℕ → ℕ → ℕ
sub_size a b = (2 ^ 64 + a - b) % 2 ^ 64

-- `memcpy` of `n` bytes from `bytes + off`, which must lie inside the block.
unfoldable pub load : List ℕ → ℕ → ℕ → Option (List ℕ)
load bytes off n = if leb (off + n) (length bytes) then some (take n (drop off bytes)) else none

-- `memcpy` of `src` to `bytes + off`, which must lie inside the block.
unfoldable pub store : List ℕ → ℕ → List ℕ → Option (List ℕ)
store bytes off src =
    if leb (off + length src) (length bytes)
    then some (take off bytes ++ (src ++ drop (off + length src) bytes))
    else none

-- `buffer_make`, where its `malloc` succeeds.
unfoldable pub make : Buffer
make = record { data_bytes = []; size = 0; offset = 0 }

unfoldable pub set_size : ℕ → Action Buffer
set_size n b = ok tt (record b { size = n })

unfoldable pub set_offset : ℕ → Action Buffer
set_offset n b = ok tt (record b { offset = n })

unfoldable pub clear : Action Buffer
clear b = ok tt (record b { data_bytes = []; size = 0; offset = 0 })

-- `buffer_compare`: `none` where `memcmp` reads past one of the two blocks.
unfoldable pub compare : Buffer → Buffer → Option Bool
compare b c = elim (load b.data_bytes 0 b.size) [
  | none ↦ none
  | some xs ↦ elim (load c.data_bytes 0 b.size) [
    | none ↦ none
    | some ys ↦ some (same_bytes xs ys && (b.size == c.size && b.offset == c.offset))
  ]
]

-- A call whose result the caller drops.
unfoldable pub ignoring : Action Buffer → Action Buffer
ignoring m b = elim (m b) [ fault ↦ fault | error b' ↦ ok tt b' | ok _ b' ↦ ok tt b' ]

module _ (h : Heap) where
  -- What `realloc` hands out behind index `i`.
  unfoldable pub fresh : ℕ → ℕ → List ℕ
  fresh i zero = []
  fresh i (suc n) = h.junk i ∷ fresh (i + 1) n

  unfoldable pub realloc : List ℕ → ℕ → Option (List ℕ)
  realloc bytes n =
      if h.grants n then some (take n bytes ++ fresh (length bytes) (n - length bytes)) else none

  -- `buffer_resize`. A failed `realloc` has overwritten the pointer, and not the size.
  unfoldable pub resize : ℕ → Action Buffer
  resize n b =
      if n == 0
      then fault
      else if leb n (sub_size b.size b.offset)
      then ok tt b
      else elim (realloc b.data_bytes (add_size b.size n)) [
        | none ↦ error (record b { data_bytes = [] })
        | some bytes ↦ ok tt (record b { data_bytes = bytes; size = add_size b.size n })
      ]

  -- The copy of `buffer_write` and its kin, and the step of the offset.
  unfoldable pub put : List ℕ → Action Buffer
  put bytes b = elim (store b.data_bytes b.offset bytes) [
    | none ↦ fault
    | some bytes' ↦
        ok tt (record b { data_bytes = bytes'; offset = add_size b.offset (length bytes) })
  ]

  unfoldable pub write : List ℕ → Action Buffer
  write bytes = if length bytes == 0 then stop else resize (length bytes) >> put bytes

  unfoldable pub pad_data : ℕ → Action Buffer
  pad_data n = if n == 0 then stop else write (replicate n 0)

  unfoldable pub set_data : List ℕ → Action Buffer
  set_data bytes = if length bytes == 0 then stop else clear >> write bytes

  -- `buffer_init_data`: `bytes` is `none` for `NULL`. The outcome `error` is the result `NULL`.
  unfoldable pub init_data : ℕ → Option (List ℕ) → ℕ → Outcome Buffer (Unit {0})
  init_data off bytes n = (fill >> set_offset off) make
    where
      fill : Action Buffer
      fill = if n == 0 then done tt else elim bytes [
        | none ↦ pad_data n
        | some bs ↦ elim (load bs 0 n) [ none ↦ stop | some cs ↦ set_data cs ]
      ]

  unfoldable pub init_size : ℕ → ℕ → Outcome Buffer (Unit {0})
  init_size off n = init_data off none n

  unfoldable pub init : Outcome Buffer (Unit {0})
  init = init_size 0 0

  -- `buffer_copy`: `c` is the buffer copied from. A NULL or empty source fails an assertion.
  unfoldable pub copy : Buffer → Action Buffer
  copy c = elim (load c.data_bytes 0 c.size) [
    | none ↦ stop
    | some bytes ↦ set_data bytes >> set_offset c.offset
  ]

  -- The integer writers, by the width of the value; a signed value is given by its bit pattern.
  unfoldable pub write_word : ℕ → ℕ → Action Buffer
  write_word n v = resize n >> put (le_bytes n v)

  abbrev pub write_uint8 : ℕ → Action Buffer
  write_uint8 = write_word 1

  abbrev pub write_uint16 : ℕ → Action Buffer
  write_uint16 = write_word 2

  abbrev pub write_uint32 : ℕ → Action Buffer
  write_uint32 = write_word 4

  abbrev pub write_uint64 : ℕ → Action Buffer
  write_uint64 = write_word 8

  abbrev pub write_int8 : ℕ → Action Buffer
  write_int8 = write_word 1

  abbrev pub write_int16 : ℕ → Action Buffer
  write_int16 = write_word 2

  abbrev pub write_int32 : ℕ → Action Buffer
  write_int32 = write_word 4

  abbrev pub write_int64 : ℕ → Action Buffer
  write_int64 = write_word 8

  -- A length of `w` bytes, then the bytes. The size argument has the width of the prefix.
  unfoldable pub write_bytes_prefixed : ℕ → List ℕ → Action Buffer
  write_bytes_prefixed w bytes =
      if length bytes == 0 then stop else write_word w (length bytes) >> write bytes

  abbrev pub write_bytes8 : List ℕ → Action Buffer
  write_bytes8 = write_bytes_prefixed 1

  abbrev pub write_bytes16 : List ℕ → Action Buffer
  write_bytes16 = write_bytes_prefixed 2

  abbrev pub write_bytes32 : List ℕ → Action Buffer
  write_bytes32 = write_bytes_prefixed 4

  abbrev pub write_bytes64 : List ℕ → Action Buffer
  write_bytes64 = write_bytes_prefixed 8

  -- One branch of `buffer_write_bytes`: the results of both calls are dropped.
  unfoldable pub write_tagged : ℕ → ℕ → List ℕ → Action Buffer
  write_tagged t w bytes = ignoring (write_uint8 t) >> ignoring (write_bytes_prefixed w bytes)

  -- `buffer_write_bytes`: a tag of one byte for the width, then the prefixed bytes.
  unfoldable pub write_bytes : List ℕ → Action Buffer
  write_bytes bytes =
      if length bytes == 0
      then stop
      else if leb (length bytes) 0xff
      then write_tagged 0 1 bytes
      else if leb (length bytes) 0xffff
      then write_tagged 1 2 bytes
      else if leb (length bytes) 0xffff_ffff
      then write_tagged 2 4 bytes
      else if leb (length bytes) 0xffff_ffff_ffff_ffff
      then write_tagged 3 8 bytes
      else fail

  unfoldable pub write_padding : ℕ → Action Buffer
  write_padding n = if ltb 0 n then pad_data n else done tt

  unfoldable pub write_padded_bytes : List ℕ → ℕ → Action Buffer
  write_padded_bytes bytes padded =
      if length bytes == 0 || padded == 0
      then stop
      else if ltb padded (length bytes)
      then fail
      else ignoring (write bytes) >> write_padding (padded - length bytes)
