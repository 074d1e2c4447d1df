-- ===== src/Buffer/Fill.antt =====
-- Buffers that are made with a size and then filled from the front, as for the headers that are
-- hashed.
use vulkan_core.Common.{
  ℕ, ◌+◌, ◌^◌, ◌≤◌, ◌<◌, ◌≡◌, refl, sym, ap, ◌∙◌, false, some, List, [], ◌++◌, length, drop,
  replicate, ◌==◌, arith, append_assoc, length-append, length-drop, take-append, drop-append,
  drop-drop, le→leb, length-replicate, append-nil,
}
use vulkan_core.Exec.{ok, Action, ◌>>◌, and_then, done}
use vulkan_core.Bytes.{le_bytes}
use vulkan_core.Bytes.Word.{length-le_bytes}
use vulkan_core.Buffer.{
  Heap, Buffer, sub_size, add_size, store, resize, put, write, write_word, make, init_size,
  init_data, pad_data, set_offset,
}
use vulkan_core.Buffer.Full.{write-full}
use vulkan_core.Buffer.Append.{Generous}

-- `bs` is written, and `rest` is what stands in the remaining room.
abbrev pub partial : List ℕ → List ℕ → Buffer
partial bs rest = record { data_bytes = bs ++ rest; size = length (bs ++ rest); offset = length bs }

-- `m` overwrites the room behind what is written with `src`.
pub record Fills (m : Action Buffer) (src : List ℕ) : Type 0 where
  pub at :
      (bs rest : List ℕ)
      → length (bs ++ rest) < 2 ^ 64
      → length src ≤ length rest
      → m (partial bs rest) ≡ ok tt (partial (bs ++ src) (drop (length src) rest))

drop-written : (bs rest : List ℕ) (n : ℕ) → drop (length bs + n) (bs ++ rest) ≡ drop n rest
drop-written bs rest n =
    sym (drop-drop n (length bs) (length bs + n) (bs ++ rest) refl)
    ∙ ap (drop n) (drop-append bs rest)

length-filled :
    (bs src rest : List ℕ)
    → length src ≤ length rest
    → length ((bs ++ src) ++ drop (length src) rest) ≡ length (bs ++ rest)
length-filled bs src rest le = omega (
  arith,
  length-append (bs ++ src) (drop (length src) rest),
  length-append bs src,
  length-append bs rest,
  length-drop (length src) rest,
)

pub store-partial :
    (src bs rest : List ℕ)
    → length src ≤ length rest
    → store (bs ++ rest) (length bs) src ≡ some (bs ++ (src ++ drop (length src) rest))
unfolding store
store-partial src bs rest le = rw (
  le→leb (length bs + length src) (length (bs ++ rest)) (omega (arith, length-append bs rest)),
  take-append bs rest,
  drop-written bs rest (length src),
)

module _ (h : Heap) where
  resize-partial :
      (n : ℕ) (bs rest : List ℕ)
      → length (bs ++ rest) < 2 ^ 64
      → 0 < n
      → n ≤ length rest
      → resize h n (partial bs rest) ≡ ok tt (partial bs rest)
  unfolding resize
  resize-partial n bs rest small pos le =
      ground (arith, length-append bs rest, le→leb n (sub_size (length (bs ++ rest)) (length bs)))

  Fills-put : (src : List ℕ) → Fills (put h src) src
  unfolding put
  Fills-put src = record {
    at = λ bs rest small le. ground (arith, store-partial src bs rest le, moved bs rest small le);
  }
    where
      moved :
          (bs rest : List ℕ)
          → length (bs ++ rest) < 2 ^ 64
          → length src ≤ length rest
          → partial (bs ++ src) (drop (length src) rest) ≡ record {
            data_bytes = bs ++ (src ++ drop (length src) rest);
            size = length (bs ++ rest);
            offset = add_size (length bs) (length src);
          }
      moved bs rest small le = ground (
        arith,
        append_assoc bs src (drop (length src) rest),
        length-filled bs src rest le,
        length-append bs src,
        length-append bs rest,
      )

  pub Fills-write : (src : List ℕ) → 0 < length src → Fills (write h src) src
  unfolding write
  Fills-write src pos = record {
    at = λ bs rest small le.
        rw (nonempty, resize-partial (length src) bs rest small pos le)
          ((Fills-put src).at bs rest small le);
  }
    where
      nonempty : (length src == 0) ≡ false
      nonempty = ground arith

  pub Fills-write_word : (n v : ℕ) → 0 < n → Fills (write_word h n v) (le_bytes n v)
  unfolding write_word
  Fills-write_word n v pos = record {
    at = λ bs rest small le.
        rw (resize-partial n bs rest small pos (omega (arith, length-le_bytes n v)))
          ((Fills-put (le_bytes n v)).at bs rest small le);
  }

pub Fills-done : Fills (done tt) []
Fills-done = record {
  at = λ bs rest small le. ap (λ t. ok tt (partial t rest)) (sym (append-nil bs));
}

pub Fills->> :
    {m n : Action Buffer} {xs ys : List ℕ} → Fills m xs → Fills n ys → Fills (m >> n) (xs ++ ys)
Fills->> {m} {n} {xs} {ys} p q = record {
  at = λ bs rest small le.
      ap (λ r. and_then r (λ _. n)) (p.at bs rest small (omega (arith, length-append xs ys)))
      ∙ q.at (bs ++ xs) (drop (length xs) rest)
          (omega (arith, length-filled bs xs rest (omega (arith, length-append xs ys))))
          (omega (arith, length-append xs ys, length-drop (length xs) rest))
      ∙ ap (λ t. ok tt t) (same bs rest);
}
  where
    same :
        (bs rest : List ℕ)
        → partial ((bs ++ xs) ++ ys) (drop (length ys) (drop (length xs) rest))
          ≡ partial (bs ++ (xs ++ ys)) (drop (length (xs ++ ys)) rest)
    same bs rest = rw (
      drop-drop (length ys) (length xs) (length (xs ++ ys)) rest (length-append xs ys),
      append_assoc bs xs ys,
    )

pub init_size-partial :
    (h : Heap) (n : ℕ)
    → Generous h
    → 0 < n
    → n < 2 ^ 64
    → init_size h 0 n ≡ ok tt (partial [] (replicate n 0))
unfolding init_size init_data pad_data set_offset make
init_size-partial h n g pos small = rw (
  nonzero,
  write-full h [] (replicate n 0) (omega (arith, length-replicate {A = ℕ} n 0))
      (omega (arith, length-replicate {A = ℕ} n 0)),
  g (length {A = ℕ} [] + length {A = ℕ} (replicate n 0))
      (omega (arith, length-replicate {A = ℕ} n 0)),
)
  where
    nonzero : (n == 0) ≡ false
    nonzero = ground arith
