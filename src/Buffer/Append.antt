-- ===== src/Buffer/Append.antt =====
-- A serializer as a refinement: on a buffer that is written from front to back, and where the
-- allocator serves every request, it appends a byte string that does not depend on the buffer.
use vulkan_core.Common.{
  ℕ, suc, ◌+◌, ◌^◌, ◌≤◌, ◌<◌, ◌≡◌, sym, ap, ◌∙◌, true, false, List, [], ◌++◌, length, leb, ◌==◌,
  if◌then◌else◌, replicate, zero, le→ltb_false, lt→ltb, ltb, ◌||◌, ◌-◌, arith, append-nil,
  append_assoc, length-append, Bool-cases, inl, inr,
}
use vulkan_core.Bytes.{le_bytes}
use vulkan_core.Bytes.Word.{length-le_bytes}
use vulkan_core.Exec.{ok, Action, ◌>>◌, and_then, done}
use vulkan_core.Buffer.{
  Heap, Buffer, write_tagged, write_padded_bytes, write_padding, write, write_word,
  write_bytes_prefixed, ignoring, write_bytes, pad_data,
}
use vulkan_core.Buffer.Full.{full, write-full, write_word-full}

-- Every request below the address space is served.
abbrev pub Generous : Heap → Type 0
Generous h = (n : ℕ) → n < 2 ^ 64 → h.grants n ≡ true

-- `m` appends `src`.
pub record Appends (m : Action Buffer) (src : List ℕ) : Type 0 where
  pub at : (bs : List ℕ) → length bs + length src < 2 ^ 64 → m (full bs) ≡ ok tt (full (bs ++ src))

pub Appends-done : Appends (done tt) []
Appends-done = record { at = λ bs _. ap (λ t. ok tt (full t)) (sym (append-nil bs)) }

pub Appends->> :
    {m n : Action Buffer} {xs ys : List ℕ}
    → Appends m xs
    → Appends n ys
    → Appends (m >> n) (xs ++ ys)
Appends->> {m} {n} {xs} {ys} p q = record {
  at = λ bs fits.
      ap (λ r. and_then r (λ _. n)) (p.at bs (omega (arith, length-append xs ys)))
      ∙ q.at (bs ++ xs) (omega (arith, length-append xs ys, length-append bs xs))
      ∙ ap (λ t. ok tt (full t)) (append_assoc bs xs ys);
}

module _ (h : Heap) (g : Generous h) where
  pub Appends-write : (src : List ℕ) → 0 < length src → Appends (write h src) src
  Appends-write src pos = record {
    at = λ bs fits. rw (write-full h bs src pos fits, g (length bs + length src) fits);
  }

  pub Appends-write_word : (n v : ℕ) → 0 < n → Appends (write_word h n v) (le_bytes n v)
  Appends-write_word n v pos = record {
    at = λ bs fits.
        let fits' : length bs + n < 2 ^ 64 = omega (arith, length-le_bytes n v) in
        rw (write_word-full h bs n v pos fits', g (length bs + n) fits');
  }

  pub Appends-write_bytes_prefixed :
      (w : ℕ) (src : List ℕ)
      → 0 < w
      → 0 < length src
      → Appends (write_bytes_prefixed h w src) (le_bytes w (length src) ++ src)
  unfolding write_bytes_prefixed
  Appends-write_bytes_prefixed w src wide pos = elim (Bool-cases (length src == 0)) [
    | inl e ↦ absurd (ground arith)
    | inr e ↦ rw e (Appends->> (Appends-write_word w (length src) wide) (Appends-write src pos))
  ]

Appends-ignoring : {m : Action Buffer} {src : List ℕ} → Appends m src → Appends (ignoring m) src
unfolding ignoring
Appends-ignoring p = record { at = λ bs fits. rw (p.at bs fits, ignoring) }

-- How `buffer_write_bytes` lays out `n` bytes: the tag, and the width of the length.
pub record Layout : Type 0 where
  pub tag : ℕ
  pub width : ℕ

unfoldable pub layout : ℕ → Layout
layout n =
    if leb n 0xff
    then record { tag = 0; width = 1 }
    else if leb n 0xffff
    then record { tag = 1; width = 2 }
    else if leb n 0xffff_ffff
    then record { tag = 2; width = 4 }
    else record { tag = 3; width = 8 }

abbrev pub tagged : List ℕ → List ℕ
tagged src =
    le_bytes 1 (layout (length src)).tag
    ++ (le_bytes (layout (length src)).width (length src) ++ src)

module _ (h : Heap) (g : Generous h) where
  Appends-write_tagged :
      (t w : ℕ) (src : List ℕ)
      → 0 < w
      → 0 < length src
      → Appends (write_tagged h t w src) (le_bytes 1 t ++ (le_bytes w (length src) ++ src))
  unfolding write_tagged
  Appends-write_tagged t w src wide pos =
      Appends->> (Appends-ignoring (Appends-write_word h g 1 t (omega arith)))
        (Appends-ignoring (Appends-write_bytes_prefixed h g w src wide pos))

  write_bytes-layout :
      (src : List ℕ)
      → 0 < length src
      → length src < 2 ^ 64
      → write_bytes h src ≡ write_tagged h (layout (length src)).tag (layout (length src)).width src
  unfolding write_bytes layout
  write_bytes-layout src pos fits = ground arith

  width-pos : (n : ℕ) → 0 < (layout n).width
  unfolding layout
  width-pos n = ground arith

  pub Appends-write_bytes :
      (src : List ℕ)
      → 0 < length src
      → length src < 2 ^ 64
      → Appends (write_bytes h src) (tagged src)
  Appends-write_bytes src pos fits =
      rw (write_bytes-layout src pos fits)
        (Appends-write_tagged _ _ src (width-pos (length src)) pos)

  Appends-write_padding : (n : ℕ) → Appends (write_padding h n) (replicate n 0)
  unfolding write_padding pad_data
  Appends-write_padding zero = Appends-done
  Appends-write_padding (suc n) =
      rw (lt→ltb 0 (suc n) (omega arith), nonzero)
        (Appends-write h g (replicate (suc n) 0) (omega arith))
    where
      nonzero : (suc n == 0) ≡ false
      nonzero = ground arith

  -- `buffer_write_padded_bytes` fills up with zeros.
  pub Appends-write_padded_bytes :
      (src : List ℕ) (padded : ℕ)
      → 0 < length src
      → length src ≤ padded
      → Appends (write_padded_bytes h src padded) (src ++ replicate (padded - length src) 0)
  unfolding write_padded_bytes
  Appends-write_padded_bytes src padded pos fits =
      rw (given, wide_enough)
        (Appends->> (Appends-ignoring (Appends-write h g src pos)) (Appends-write_padding _))
    where
      given : (length src == 0 || padded == 0) ≡ false
      given = ground arith

      wide_enough : ltb padded (length src) ≡ false
      wide_enough = le→ltb_false _ _ fits
