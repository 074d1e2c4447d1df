-- ===== src/Buffer/Read.antt =====
-- A parser as a refinement: with the expected bytes at the cursor it returns their value and
-- moves behind them.
use vulkan_core.Common.{
  ℕ, ◌+◌, ◌^◌, ◌≤◌, ◌<◌, ◌≡◌, refl, sym, ap, ◌∙◌, true, false, some, List, [], ◌++◌, length, drop,
  leb, ltb, arith, append-nil, append_assoc, length-append, length-drop, drop-drop, take-append,
  drop-append, le→leb, le→ltb_false,
}
use vulkan_core.Bytes.{le_bytes, or_bytes}
use vulkan_core.Bytes.Word.{length-le_bytes, word-le_bytes}
use vulkan_core.Exec.{ok, Exec, Action, ◌>>=◌, and_then, done}
use vulkan_core.Buffer.{Heap, Buffer, sub_size, load}
use vulkan_core.Buffer.Append.{Generous, Appends}
use vulkan_core.Buffer.Full.{full}
use vulkan_core.Buffer.Iterator.{Iterator, advance, read_word, read, read_bytes_prefixed}

-- The cursor at `pos` in `b`.
abbrev pub cursor : Buffer → ℕ → Iterator
cursor b pos = record { buffer = some b; offset = pos }

-- The size field tells the truth, and the cursor has `src` and then `rest` before it.
pub record Ahead (b : Buffer) (pos : ℕ) (src rest : List ℕ) : Type 0 where
  pub whole : b.size ≡ length b.data_bytes
  pub small : b.size < 2 ^ 64
  pub inside : pos ≤ length b.data_bytes
  pub next : drop pos b.data_bytes ≡ src ++ rest

-- `m` reads `src` as `v`.
pub record Reads {A : Type 0} (m : Exec Iterator A) (src : List ℕ) (v : A) : Type 0 where
  pub at :
      (b : Buffer) (pos : ℕ) (rest : List ℕ)
      → Ahead b pos src rest
      → m (cursor b pos) ≡ ok v (cursor b (pos + length src))

pub length-Ahead :
    (b : Buffer) (pos : ℕ) (src rest : List ℕ)
    → Ahead b pos src rest
    → length b.data_bytes ≡ pos + length src + length rest
length-Ahead b pos src rest a =
    omega (arith, ap length a.next, length-append src rest, length-drop pos b.data_bytes)

pub Ahead-after :
    (b : Buffer) (pos : ℕ) (xs ys rest : List ℕ)
    → Ahead b pos (xs ++ ys) rest
    → Ahead b (pos + length xs) ys rest
Ahead-after b pos xs ys rest a = record {
  whole = a.whole;
  small = a.small;
  inside = omega (arith, length-Ahead b pos (xs ++ ys) rest a, length-append xs ys);
  next =
      sym (drop-drop (length xs) pos (pos + length xs) b.data_bytes refl)
      ∙ ap (drop (length xs)) (a.next ∙ append_assoc xs ys rest)
      ∙ drop-append xs (ys ++ rest);
}

Ahead-before :
    (b : Buffer) (pos : ℕ) (xs ys rest : List ℕ)
    → Ahead b pos (xs ++ ys) rest
    → Ahead b pos xs (ys ++ rest)
Ahead-before b pos xs ys rest a = record {
  whole = a.whole;
  small = a.small;
  inside = a.inside;
  next = a.next ∙ append_assoc xs ys rest;
}

pub Reads-done : {A : Type 0} (v : A) → Reads (done v) [] v
Reads-done v = record { at = λ b pos rest a. ap (λ p. ok v (cursor b p)) (omega arith) }

pub Reads->>= :
    {A B : Type 0} {m : Exec Iterator A} (f : A → Exec Iterator B) {xs ys : List ℕ} {v : A} {w : B}
    → Reads m xs v
    → Reads (f v) ys w
    → Reads (m >>= f) (xs ++ ys) w
Reads->>= {m} f {xs} {ys} {v} {w} p q = record {
  at = λ b pos rest a.
      ap (λ r. and_then r f) (p.at b pos (ys ++ rest) (Ahead-before b pos xs ys rest a))
      ∙ q.at b (pos + length xs) rest (Ahead-after b pos xs ys rest a)
      ∙ ap (λ n. ok w (cursor b n)) (omega (arith, length-append xs ys));
}

pub Reads-map :
    {A B : Type 0} {m : Exec Iterator A} (f : A → B) {xs : List ℕ} {v : A}
    → Reads m xs v
    → Reads (m >>= λ x. done (f x)) xs (f v)
Reads-map f p = record {
  at = λ b pos rest a. ap (λ r. and_then r (λ x. done (f x))) (p.at b pos rest a);
}

-- The first step of a reader that goes on with `f`.
pub Reads-first :
    {A B : Type 0} {m : Exec Iterator A} (f : A → Exec Iterator B) {xs : List ℕ} {v : A}
    (b : Buffer) (pos : ℕ) (ys rest : List ℕ)
    → Reads m xs v
    → Ahead b pos (xs ++ ys) rest
    → (m >>= f) (cursor b pos) ≡ f v (cursor b (pos + length xs))
Reads-first f {xs} b pos ys rest p a =
    ap (λ r. and_then r f) (p.at b pos (ys ++ rest) (Ahead-before b pos xs ys rest a))

remaining-Ahead :
    (b : Buffer) (pos : ℕ) (src rest : List ℕ)
    → Ahead b pos src rest
    → sub_size b.size pos ≡ length src + length rest
remaining-Ahead b pos src rest a = omega (arith, length-Ahead b pos src rest a)

load-Ahead :
    (b : Buffer) (pos : ℕ) (src rest : List ℕ)
    → Ahead b pos src rest
    → load b.data_bytes pos (length src) ≡ some src
unfolding load
load-Ahead b pos src rest a = rw (fits, a.next, take-append)
  where
    fits : leb (pos + length src) (length b.data_bytes) ≡ true
    fits = le→leb _ _ (omega (arith, length-Ahead b pos src rest a))

module _ (b : Buffer) (pos : ℕ) (src rest : List ℕ) (a : Ahead b pos src rest) (n : ℕ)
    (e : length src ≡ n) where
  loaded : load b.data_bytes pos n ≡ some src
  loaded = ap (load b.data_bytes pos) (sym e) ∙ load-Ahead b pos src rest a

  advance-Ahead : advance n (cursor b pos) ≡ ok src (cursor b (pos + length src))
  unfolding advance
  advance-Ahead =
      rw loaded (ap (λ p. ok src (cursor b p)) (omega (arith, length-Ahead b pos src rest a)))

  enough : ltb (sub_size b.size pos) n ≡ false
  enough = le→ltb_false _ _ (omega (arith, remaining-Ahead b pos src rest a))

  pub read_word-Ahead :
      read_word n (cursor b pos) ≡ ok (or_bytes 0 src) (cursor b (pos + length src))
  unfolding read_word
  read_word-Ahead = rw (enough, advance-Ahead)

  pub read-Ahead :
      (h : Heap)
      → h.grants n ≡ true
      → read h n (cursor b pos) ≡ ok src (cursor b (pos + length src))
  unfolding read
  read-Ahead h g = rw (enough, g) advance-Ahead

pub Reads-read_word : (n v : ℕ) → v < 256 ^ n → Reads (read_word n) (le_bytes n v) v
Reads-read_word n v small = record {
  at = λ b pos rest a.
      read_word-Ahead b pos (le_bytes n v) rest a n (length-le_bytes n v)
      ∙ ap (λ w. ok w (cursor b (pos + length (le_bytes n v)))) (word-le_bytes n v small);
}

module _ (h : Heap) (g : Generous h) where
  pub Reads-read : (src : List ℕ) → length src < 2 ^ 64 → Reads (read h (length src)) src src
  Reads-read src fits = record {
    at = λ b pos rest a. read-Ahead b pos src rest a (length src) refl h (g (length src) fits);
  }

  pub Reads-read_bytes_prefixed :
      (w : ℕ) (src : List ℕ)
      → length src < 256 ^ w
      → length src < 2 ^ 64
      → Reads (read_bytes_prefixed h w) (le_bytes w (length src) ++ src) src
  unfolding read_bytes_prefixed
  Reads-read_bytes_prefixed w src wide fits =
      Reads->>= (read h) (Reads-read_word w (length src) wide) (Reads-read src fits)

-- A writer and a reader of one byte string, put together on one buffer.
abbrev pub RoundTrip : {A : Type 0} → Action Buffer → Exec Iterator A → A → List ℕ → Type 0
RoundTrip m r v bs =
    (b : Buffer) × (m (full bs) ≡ ok tt b) × (r (cursor b (length bs)) ≡ ok v (cursor b b.size))

Ahead-full :
    (bs src : List ℕ)
    → length bs + length src < 2 ^ 64
    → Ahead (full (bs ++ src)) (length bs) src []
Ahead-full bs src fits = record {
  whole = refl;
  small = omega (arith, length-append bs src);
  inside = omega (arith, length-append bs src);
  next = drop-append bs src ∙ sym (append-nil src);
}

pub RoundTrip-of :
    {A : Type 0} {m : Action Buffer} {r : Exec Iterator A} {v : A} {src : List ℕ}
    → Appends m src
    → Reads r src v
    → (bs : List ℕ) → length bs + length src < 2 ^ 64
    → RoundTrip m r v bs
RoundTrip-of {v = v} {src = src} p q bs fits = (
  full (bs ++ src),
  p.at bs fits,
  q.at (full (bs ++ src)) (length bs) [] (Ahead-full bs src fits)
      ∙ ap (λ n. ok v (cursor (full (bs ++ src)) n)) (sym (length-append bs src)),
)
