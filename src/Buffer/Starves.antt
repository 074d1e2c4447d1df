-- ===== src/Buffer/Starves.antt =====
-- Readers on bytes that end too early.
use vulkan_core.Common.{
  ℕ, ◌+◌, ◌^◌, ◌<◌, ◌≡◌, refl, ap, subst, ◌∙◌, ◌⊎◌, inl, inr, true, List, [], ◌∷◌, ◌++◌, length,
  ltb, arith, lt→ltb, length-append,
}
use vulkan_core.Bytes.{le_bytes}
use vulkan_core.Bytes.Word.{length-le_bytes}
use vulkan_core.Exec.{error, Exec, and_then, ◌>>=◌}
use vulkan_core.Buffer.{Heap, Buffer, sub_size}
use vulkan_core.Buffer.Iterator.{Iterator, read_word, read, read_bytes_prefixed, get_remaining_size}
use vulkan_core.Buffer.Read.{
  cursor, Ahead, Ahead-after, length-Ahead, Reads, Reads-first, Reads-read_word,
}

-- With only a part of `src` before the end of the buffer, `m` returns 1.
pub record Starves {A : Type 0} (m : Exec Iterator A) (src : List ℕ) : Type 0 where
  pub at :
      (b : Buffer) (pos : ℕ) (xs ys : List ℕ)
      → src ≡ xs ++ ys
      → 0 < length ys
      → Ahead b pos xs []
      → (it : Iterator) × (m (cursor b pos) ≡ error it)

pub Starves-nothing : {A : Type 0} (m : Exec Iterator A) → Starves m []
Starves-nothing m = record {
  at = λ b pos xs ys e some_left a. absurd (omega (arith, ap length e, length-append xs ys));
}

-- Two ways to cut one list in two.
append-eq-append :
    (cs bs xs ys : List ℕ)
    → cs ++ bs ≡ xs ++ ys
    → ((zs : List ℕ) × (xs ≡ cs ++ zs) × (bs ≡ zs ++ ys))
      ⊎ ((zs : List ℕ) × (cs ≡ xs ++ zs) × (0 < length zs))
append-eq-append [] bs xs ys e = inl (xs, refl, e)
append-eq-append (a ∷ cs) bs [] ys e = inr (a ∷ cs, refl, omega arith)
append-eq-append (a ∷ cs) bs (x ∷ xs) ys e = elim (append-eq-append cs bs xs ys cc) [
  | inl (zs, left, right) ↦ inl (zs, cc, right)
  | inr (zs, left, some_left) ↦ inr (zs, cc, some_left)
]

pub Starves->>= :
    {A B : Type 0} {m : Exec Iterator A} (f : A → Exec Iterator B) {cs bs : List ℕ} {v : A}
    → Reads m cs v
    → Starves m cs
    → Starves (f v) bs
    → Starves (m >>= f) (cs ++ bs)
Starves->>= {m = m} f {cs} {bs} {v} reads p q = record {
  at = λ b pos xs ys e some_left a. elim (append-eq-append cs bs xs ys e) [
    | inl (zs, left, right) ↦
        let a' = subst (λ t. Ahead b pos t []) left a in
        let (it, failed) =
          q.at b (pos + length cs) zs ys right some_left (Ahead-after b pos cs zs [] a') in
        (it, Reads-first f b pos zs [] reads a' ∙ failed)
    | inr (zs, left, more) ↦
        let (it, failed) = p.at b pos xs zs left more a in (it, ap (λ r. and_then r f) failed)
  ];
}

pub Starves-map :
    {A B : Type 0} {m : Exec Iterator A} (f : A → Exec Iterator B) {src : List ℕ}
    → Starves m src
    → Starves (m >>= f) src
Starves-map f p = record {
  at = λ b pos xs ys e some_left a.
      let (it, failed) = p.at b pos xs ys e some_left a in (it, ap (λ r. and_then r f) failed);
}

too_few :
    (b : Buffer) (pos : ℕ) (src xs ys : List ℕ) (n : ℕ)
    → length src ≡ n
    → src ≡ xs ++ ys
    → 0 < length ys
    → Ahead b pos xs []
    → ltb (sub_size b.size pos) n ≡ true
too_few b pos src xs ys n e cut some_left a = lt→ltb _ _ (
    omega (arith, length-Ahead b pos xs [] a, ap length cut, length-append xs ys, a.small, a.whole))

pub Starves-read_word : (n v : ℕ) → Starves (read_word n) (le_bytes n v)
unfolding read_word get_remaining_size
Starves-read_word n v = record {
  at = λ b pos xs ys e some_left a. (
    cursor b pos,
    rw (too_few b pos (le_bytes n v) xs ys n (length-le_bytes n v) e some_left a) refl,
  );
}

module _ (h : Heap) where
  Starves-read : (src : List ℕ) → Starves (read h (length src)) src
  unfolding read get_remaining_size
  Starves-read src = record {
    at = λ b pos xs ys e some_left a.
        (cursor b pos, rw (too_few b pos src xs ys (length src) refl e some_left a) refl);
  }

  pub Starves-read_bytes_prefixed :
      (w : ℕ) (src : List ℕ)
      → length src < 256 ^ w
      → Starves (read_bytes_prefixed h w) (le_bytes w (length src) ++ src)
  unfolding read_bytes_prefixed
  Starves-read_bytes_prefixed w src wide =
      Starves->>= (read h) (Reads-read_word w (length src) wide) (Starves-read_word w (length src))
        (Starves-read src)
