-- ===== src/Buffer/Full.antt =====
-- Buffers that are written from front to back: size and offset stand at the end of the data.
use vulkan_core.Common.{
  ℕ, zero, suc, ◌+◌, ◌-◌, ◌^◌, ◌<◌, ◌≡◌, refl, sym, ap, ◌∙◌, Bool, true, false, some, List, [],
  ◌++◌, length, drop, leb, ◌==◌, if◌then◌else◌, arith, append-nil, length-append, take-append,
  drop_all, take_all, Bool-cases, inl, inr, le→leb,
}
use vulkan_core.Exec.{ok, error, ◌>>◌}
use vulkan_core.Bytes.{le_bytes}
use vulkan_core.Bytes.Word.{length-le_bytes}
use vulkan_core.Buffer.{
  Heap, Buffer, add_size, store, fresh, realloc, resize, put, write, write_word,
}

abbrev pub full : List ℕ → Buffer
full bs = record { data_bytes = bs; size = length bs; offset = length bs }

-- What is left of a buffer whose growth the allocator refused.
abbrev pub lost : List ℕ → Buffer
lost bs = record (full bs) { data_bytes = [] }

pub length-fresh : (h : Heap) (i n : ℕ) → length (fresh h i n) ≡ n
unfolding fresh
length-fresh h i zero = refl
length-fresh h i (suc n) = ap suc (length-fresh h (i + 1) n)

-- Overwriting the gap behind the data.
store-append :
    (bs gap src : List ℕ)
    → length gap ≡ length src
    → store (bs ++ gap) (length bs) src ≡ some (bs ++ src)
unfolding store
store-append bs gap src e = rw (fits, take-append, nothing, append-nil)
  where
    fits : leb (length bs + length src) (length (bs ++ gap)) ≡ true
    fits = le→leb _ _ (omega (arith, length-append bs gap))

    nothing : drop (length bs + length src) (bs ++ gap) ≡ []
    nothing = drop_all _ (bs ++ gap) (omega (arith, length-append bs gap))

gap_of : Heap → List ℕ → ℕ → Buffer
gap_of h bs n = record {
  data_bytes = bs ++ fresh h (length bs) n;
  size = length bs + n;
  offset = length bs;
}

-- Growing a full buffer keeps its data, and adds a gap of the size asked for.
resize-full :
    (h : Heap) (bs : List ℕ) (n : ℕ)
    → 0 < n
    → length bs + n < 2 ^ 64
    → resize h n (full bs)
      ≡ (if h.grants (length bs + n) then ok tt (gap_of h bs n) else error (lost bs))
unfolding resize realloc gap_of
resize-full h bs n pos fits = ground (arith, wraps, gap, take_all (length bs + n) bs)
  where
    wraps : add_size (length bs) n ≡ length bs + n
    wraps = omega arith

    gap : length bs + n - length bs ≡ n
    gap = omega arith

module _ (h : Heap) (bs src : List ℕ) (n : ℕ) (e : length src ≡ n) where
  put-gap : length bs + n < 2 ^ 64 → put h src (gap_of h bs n) ≡ ok tt (full (bs ++ src))
  unfolding put gap_of
  put-gap fits = ground (
    arith,
    store-append bs (fresh h (length bs) n) src (length-fresh h (length bs) n ∙ sym e),
    length-append bs src,
  )

  -- `buffer_resize`, then the copy: what every writer does.
  pub resize-put-full :
      0 < n
      → length bs + n < 2 ^ 64
      → (resize h n >> put h src) (full bs)
        ≡ (if h.grants (length bs + n) then ok tt (full (bs ++ src)) else error (lost bs))
  resize-put-full pos fits = rw (resize-full h bs n pos fits) (split (h.grants (length bs + n)))
    where
      split :
          (b : Bool)
          → ((λ (_ : Buffer). if b then ok tt (gap_of h bs n) else error (lost bs)) >> put h src)
              (full bs)
            ≡ (if b then ok tt (full (bs ++ src)) else error (lost bs))
      split true = put-gap fits
      split false = refl

-- `buffer_write` on a full buffer appends the bytes, or loses the data where the allocator
-- refuses; it never faults.
pub write-full :
    (h : Heap) (bs src : List ℕ)
    → 0 < length src
    → length bs + length src < 2 ^ 64
    → write h src (full bs)
      ≡ (if h.grants (length bs + length src) then ok tt (full (bs ++ src)) else error (lost bs))
unfolding write
write-full h bs src pos fits = elim (Bool-cases (length src == 0)) [
  | inl e ↦ absurd (ground arith)
  | inr e ↦ rw e (resize-put-full h bs src (length src) refl pos fits)
]

pub write_word-full :
    (h : Heap) (bs : List ℕ) (n v : ℕ)
    → 0 < n
    → length bs + n < 2 ^ 64
    → write_word h n v (full bs)
      ≡ (if h.grants (length bs + n) then ok tt (full (bs ++ le_bytes n v)) else error (lost bs))
unfolding write_word
write_word-full h bs n v = resize-put-full h bs (le_bytes n v) n (length-le_bytes n v)
