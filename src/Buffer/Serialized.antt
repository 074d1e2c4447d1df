-- ===== src/Buffer/Serialized.antt =====
-- The pairs of `..._to_serialized` and `..._from_serialized` of src/core/transaction.c and
-- src/core/block.c: a writer on a buffer of its own, and a reader on a copy of the bytes.
use vulkan_core.Common.{
  ℕ, ◌+◌, ◌%◌, ◌^◌, ◌<◌, ◌≡◌, refl, sym, ap, ◌∙◌, Option, none, some, List, [], length,
  if◌then◌else◌, arith, take_all, le→leb, append-nil,
}
use vulkan_core.Exec.{Outcome, ok, error, fault, Action, Exec}
use vulkan_core.Check.{Check, crash, reject, pass, ◌>>=◌, access}
use vulkan_core.Buffer.{
  Heap, Buffer, load, fresh, make, init, init_size, init_data, set_data, set_offset, clear,
}
use vulkan_core.Buffer.Full.{full, write-full}
use vulkan_core.Buffer.Append.{Generous, Appends}
use vulkan_core.Buffer.Iterator.{Iterator}
use vulkan_core.Buffer.Iterator
use vulkan_core.Buffer.Read.{Reads, Ahead}

-- A block of memory as `malloc` hands it out.
unfoldable pub allocate : Heap → ℕ → Option (List ℕ)
allocate h n = if h.grants n then some (fresh h 0 n) else none

-- A write to a buffer that was just made; a `NULL` buffer fails the assertion of the writer.
unfoldable pub fill : Outcome Buffer (Unit {0}) → Action Buffer → Outcome Buffer (Unit {0})
fill fault m = fault
fill (error b) m = fault
fill (ok _ b) m = m b

-- The bytes that are copied out; the length is a uint32_t. `reject` is the return value 1.
unfoldable pub copy_out : Heap → Outcome Buffer (Unit {0}) → Check (List ℕ)
copy_out h fault = crash
copy_out h (error b) = reject
copy_out h (ok _ b) =
    access (allocate h (b.size % 2 ^ 32)) >>= λ _. access (load b.data_bytes 0 (b.size % 2 ^ 32))

unfoldable pub to_serialized : Heap → Action Buffer → Check (List ℕ)
unfolding copy_out fill
to_serialized h m = copy_out h (fill (init h) m)

-- The object that a reader returned; `reject` is the result `NULL`.
unfoldable pub result_of : {A : Type 0} → Outcome Iterator A → Check A
result_of fault = crash
result_of (error it) = reject
result_of (ok v it) = pass v

-- The reader at the front of the buffer that was made; a `NULL` buffer fails an assertion.
unfoldable pub read_from : {A : Type 0} → Outcome Buffer (Unit {0}) → Exec Iterator A → Check A
unfolding result_of
read_from fault r = crash
read_from (error b) r = crash
read_from (ok _ b) r = result_of (r (Iterator.init b))

unfoldable pub from_serialized : {A : Type 0} → Heap → Exec Iterator A → List ℕ → ℕ → Check A
unfolding read_from
from_serialized h r bytes n = read_from (init_data h 0 (some bytes) n) r

pub init-full : (h : Heap) → init h ≡ ok tt (full [])
unfolding init init_size init_data set_offset make
init-full h = refl

abbrev pub cursor_buffer : List ℕ → Buffer
cursor_buffer src = record (full src) { offset = 0 }

module _ (h : Heap) (g : Generous h) (src : List ℕ) (pos : 0 < length src)
    (small : length src < 2 ^ 32) where
  allocated : allocate h (length src % 2 ^ 32) ≡ some (fresh h 0 (length src % 2 ^ 32))
  unfolding allocate
  allocated = rw (g (length src % 2 ^ 32) (omega arith))

  whole : load src 0 (length src) ≡ some src
  unfolding load
  whole =
      rw (
        le→leb (0 + length src) (length src) (omega arith),
        take_all (length src) src (omega arith),
      )

  loaded : load src 0 (length src % 2 ^ 32) ≡ some src
  unfolding load
  loaded = rw (
    le→leb (0 + length src % 2 ^ 32) (length src) (omega arith),
    take_all (length src % 2 ^ 32) src (omega arith),
  )

  -- The buffer that is read is the whole of the bytes, from its start.
  pub init_data-copy : init_data h 0 (some src) (length src) ≡ ok tt (cursor_buffer src)
  unfolding init_data set_data set_offset clear make
  init_data-copy =
      ground (arith, whole, write-full h [] src pos (omega arith), g (length src) (omega arith))

  pub to_serialized-bytes : {m : Action Buffer} → Appends m src → to_serialized h m ≡ pass src
  unfolding to_serialized fill copy_out
  to_serialized-bytes {m} p =
      ap (λ r. copy_out h (fill r m)) (init-full h)
      ∙ ap (copy_out h) (p.at [] (omega arith))
      ∙ rw (allocated, loaded)

  pub from_serialized-value :
      {A : Type 0} {r : Exec Iterator A} {v : A}
      → Reads r src v
      → from_serialized h r src (length src) ≡ pass v
  unfolding from_serialized read_from result_of Iterator.init Iterator.make
  from_serialized-value {r = r} {v = v} p =
      ap (λ o. read_from o r) init_data-copy ∙ ap result_of (p.at (cursor_buffer src) 0 [] ahead)
    where
      ahead : Ahead (cursor_buffer src) 0 src []
      ahead = record {
        whole = refl;
        small = omega arith;
        inside = omega arith;
        next = sym (append-nil src);
      }
