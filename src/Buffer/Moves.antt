-- ===== src/Buffer/Moves.antt =====
-- How far a reader that returned has moved, whatever the buffer holds.
use vulkan_core.Common.{
  ℕ, ◌+◌, ◌-◌, ◌^◌, ◌≤◌, ◌<◌, ◌≡◌, refl, sym, ap, ◌∙◌, false, Option, none, some, List, length,
  take, drop, leb, ltb, arith, leb→le, length-take, length-drop, inl, inr, Bool-cases,
}
use vulkan_core.Bytes.{or_bytes}
use vulkan_core.Exec.{ok, Exec, and_then-eq-ok, ok-inj, done, stop, fail, require, ◌>>=◌}
use vulkan_core.Buffer.{Heap, Buffer, sub_size, add_size, load}
use vulkan_core.Buffer.Iterator.{
  Iterator, advance, got, read_word, read, read_bytes_prefixed, get_remaining_size,
}
use vulkan_core.Buffer.Read.{cursor}

-- Where a reader that took `n` bytes from `pos` on may have left the cursor.
abbrev pub MovedTo : Buffer → ℕ → ℕ → Iterator → Type 0
MovedTo b pos n it = (q : ℕ) × (it ≡ cursor b q) × (pos + n ≤ q) × (q ≤ b.size)

-- `m` moves over at least `k v` bytes where it returns `v`.
pub record Moves {A : Type 0} (m : Exec Iterator A) (k : A → ℕ) : Type 0 where
  pub at :
      (b : Buffer) (pos : ℕ) (v : A) (it : Iterator)
      → pos ≤ b.size
      → b.size < 2 ^ 64
      → m (cursor b pos) ≡ ok v it
      → MovedTo b pos (k v) it

pub Moves-done : {A : Type 0} (v : A) → Moves (done v) (λ _. 0)
Moves-done v = record {
  at = λ b pos w it inside small e. (pos, sym (ok-inj e).1, omega arith, inside);
}

-- What is claimed of a value that is returned at once is claimed of that value only.
pub Moves-done_of : {A : Type 0} (k : A → ℕ) (v : A) → Moves (done v) (λ w. k w - k v)
Moves-done_of k v = record {
  at = λ b pos w it inside small e.
      let same = ok-inj e in (pos, sym same.1, omega (arith, ap k same.0), inside);
}

pub Moves-stop : {A : Type 0} {k : A → ℕ} → Moves stop k
Moves-stop = record { at = λ b pos w it inside small e. cc }

pub Moves-fail : {A : Type 0} {k : A → ℕ} → Moves fail k
Moves-fail = record { at = λ b pos w it inside small e. cc }

pub Moves->>= :
    {A B : Type 0} {m : Exec Iterator A} {f : A → Exec Iterator B} (j : A → ℕ) (k : A → B → ℕ)
    {n : B → ℕ}
    → Moves m j
    → ((v : A) → Moves (f v) (k v))
    → ((v : A) (w : B) → n w ≤ j v + k v w)
    → Moves (m >>= f) n
Moves->>= {m = m} {f = f} j k {n} p q covers = record {
  at = λ b pos w it inside small e.
      let (v, it', first, second) = and_then-eq-ok (m (cursor b pos)) f e in
      let (mid, at_mid, far, inside') = p.at b pos v it' inside small first in
      let (end, at_end, far', inside'') =
        (q v).at b mid w it inside' small (ap (f v) (sym at_mid) ∙ second) in
      (end, at_end, omega (arith, covers v w), inside'');
}

length-load :
    (bytes : List ℕ) (off n : ℕ) (bs : List ℕ) → load bytes off n ≡ some bs → length bs ≡ n
unfolding load
length-load bytes off n bs e = elim (Bool-cases (leb (off + n) (length bytes))) [
  | inl inside ↦
      let bounded : off + n ≤ length bytes = leb→le (off + n) (length bytes) inside in
      let taken : take n (drop off bytes) ≡ bs = ground (arith, e, inside) in
      omega (arith, ap length taken, length-take n (drop off bytes), length-drop off bytes, bounded)
  | inr outside ↦ absurd (ground (arith, e, outside))
]

-- A copy that succeeded, from a buffer that has `n` bytes left.
module _ (b : Buffer) (pos n : ℕ) (small : b.size < 2 ^ 64) (fits : pos + n ≤ b.size) where
  advance-eq-ok :
      (bs : List ℕ) (it : Iterator)
      → advance n (cursor b pos) ≡ ok bs it
      → (it ≡ cursor b (pos + n)) × (length bs ≡ n)
  unfolding advance
  advance-eq-ok bs it e = loaded (load b.data_bytes pos n) refl e
    where
      wraps : add_size pos n ≡ pos + n
      wraps = omega arith

      loaded :
          (o : Option (List ℕ))
          → load b.data_bytes pos n ≡ o
          → got n o (cursor b pos) ≡ ok bs it
          → (it ≡ cursor b (pos + n)) × (length bs ≡ n)
      loaded none found e = absurd cc
      loaded (some cs) found e = (
        sym (ok-inj e).1 ∙ ap (cursor b) wraps,
        ap length (sym (ok-inj e).0) ∙ length-load b.data_bytes pos n cs found,
      )

enough_left :
    (b : Buffer) (pos n : ℕ)
    → pos ≤ b.size
    → b.size < 2 ^ 64
    → ltb (sub_size b.size pos) n ≡ false
    → pos + n ≤ b.size
enough_left b pos n inside small e = ground (arith, e)

pub Moves-read_word : (n : ℕ) → Moves (read_word n) (λ _. n)
unfolding read_word get_remaining_size
Moves-read_word n = record {
  at = λ b pos v it inside small e. elim (Bool-cases (ltb (sub_size b.size pos) n)) [
    | inl short ↦ absurd (ground (arith, e, short))
    | inr long ↦
        let fits = enough_left b pos n inside small long in
        let (bs, it', first, second) =
          and_then-eq-ok (advance n (cursor b pos)) (λ bytes. done (or_bytes 0 bytes))
            (rw long at e) in
        (
          pos + n,
          sym (ok-inj second).1 ∙ (advance-eq-ok b pos n small fits bs it' first).0,
          omega arith,
          fits,
        )
  ];
}

module _ (h : Heap) where
  pub Moves-read : (n : ℕ) → Moves (read h n) (λ bs. length bs)
  unfolding read get_remaining_size
  Moves-read n = record {
    at = λ b pos v it inside small e. elim (Bool-cases (ltb (sub_size b.size pos) n)) [
      | inl short ↦ absurd (ground (arith, e, short))
      | inr long ↦ elim (Bool-cases (h.grants n)) [
        | inl served ↦
            let fits = enough_left b pos n inside small long in
            let copied = advance-eq-ok b pos n small fits v it (rw (long, served) at e) in
            (pos + n, copied.0, omega (arith, copied.1), fits)
        | inr refused ↦ absurd (ground (arith, e, long, refused))
      ]
    ];
  }

  pub Moves-read_bytes_prefixed : (w : ℕ) → Moves (read_bytes_prefixed h w) (λ bs. w + length bs)
  unfolding read_bytes_prefixed
  Moves-read_bytes_prefixed w =
      Moves->>= (λ _. w) (λ _ bs. length bs) (Moves-read_word w) Moves-read (λ v bs. omega arith)

-- A copy of more bytes than there are does not return.
pub Moves-require-load :
    (bytes : List ℕ) (n : ℕ) → Moves (require (load bytes 0 n)) (λ _. n - length bytes)
unfolding load
Moves-require-load bytes n = elim (Bool-cases (leb (0 + n) (length bytes))) [
  | inl inside ↦
      let bounded : 0 + n ≤ length bytes = leb→le (0 + n) (length bytes) inside in
      record {
        at = λ b pos v it fits small e.
            let copied : done (take n (drop 0 bytes)) (cursor b pos) ≡ ok v it = rw inside at e in
            (pos, sym (ok-inj copied).1, omega arith, fits);
      }
  | inr outside ↦ rw outside Moves-stop
]
