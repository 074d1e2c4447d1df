-- ===== src/Block/Commit.antt =====
-- What the hash of a block is computed from.
use vulkan_core.Common.{
  ℕ, ◌^◌, ◌≤◌, ◌<◌, ◌≡◌, ◌≢◌, refl, sym, ap, subst, ◌∙◌, List, [], ◌++◌, length, take, drop,
  replicate, arith, length-append, length-drop, take-append, drop-append, length-replicate, ◌⊎◌,
  inl, inr, Bool-cases, same_bytes, same_bytes_iff,
}
use vulkan_core.Exec.{Action}
use vulkan_core.Check.{pass}
use vulkan_core.Bytes.{le_bytes, or_bytes}
use vulkan_core.Bytes.Word.{length-le_bytes, word-le_bytes}
use vulkan_core.Buffer.{Heap, Buffer, init_size}
use vulkan_core.Buffer.Append.{Generous}
use vulkan_core.Buffer.Fill.{Fills, Fills-write, Fills-write_word, Fills->>, init_size-partial}
use vulkan_core.Transaction.RoundTrip.{load_all}
use vulkan_core.Block.{Block, BlockIsValid, block_header_size}
use vulkan_core.Block.Codec.{serialize_block_header}
use vulkan_core.Buffer.Serialized.{fill}
use vulkan_core.Block.Hash.{header_bytes, compute_block_hash}

unfoldable pub encode_block_header : Block → List ℕ
encode_block_header b =
    le_bytes 4 b.version
    ++ (le_bytes 4 b.timestamp
        ++ (le_bytes 4 b.nonce
            ++ (le_bytes 4 b.bits
                ++ (le_bytes 8 b.cumulative_emission ++ (b.previous_hash ++ b.merkle_root)))))

length-encode_block_header : (b : Block) → BlockIsValid b → length (encode_block_header b) ≡ 88
unfolding encode_block_header
length-encode_block_header b v = omega (
  arith,
  length-append (le_bytes 4 b.version) (
      le_bytes 4 b.timestamp
      ++ (le_bytes 4 b.nonce
          ++ (le_bytes 4 b.bits
              ++ (le_bytes 8 b.cumulative_emission ++ (b.previous_hash ++ b.merkle_root))))),
  length-append (le_bytes 4 b.timestamp) (
      le_bytes 4 b.nonce
      ++ (le_bytes 4 b.bits
          ++ (le_bytes 8 b.cumulative_emission ++ (b.previous_hash ++ b.merkle_root)))),
  length-append (le_bytes 4 b.nonce) (
      le_bytes 4 b.bits
      ++ (le_bytes 8 b.cumulative_emission ++ (b.previous_hash ++ b.merkle_root))),
  length-append (le_bytes 4 b.bits)
      (le_bytes 8 b.cumulative_emission ++ (b.previous_hash ++ b.merkle_root)),
  length-append (le_bytes 8 b.cumulative_emission) (b.previous_hash ++ b.merkle_root),
  length-append b.previous_hash b.merkle_root,
  length-le_bytes 4 b.version,
  length-le_bytes 4 b.timestamp,
  length-le_bytes 4 b.nonce,
  length-le_bytes 4 b.bits,
  length-le_bytes 8 b.cumulative_emission,
)

module _ (h : Heap) (g : Generous h) where
  Fills-serialize_block_header :
      (b : Block) → BlockIsValid b → Fills (serialize_block_header h b) (encode_block_header b)
  unfolding serialize_block_header encode_block_header
  Fills-serialize_block_header b v = Fills->> (Fills-write_word h 4 b.version (omega arith)) (
      Fills->> (Fills-write_word h 4 b.timestamp (omega arith)) (
        Fills->> (Fills-write_word h 4 b.nonce (omega arith)) (
          Fills->> (Fills-write_word h 4 b.bits (omega arith)) (
            Fills->> (Fills-write_word h 8 b.cumulative_emission (omega arith)) (
              Fills->> (Fills-write h b.previous_hash (omega arith))
                (Fills-write h b.merkle_root (omega arith)))))))

-- A header written into a new buffer of its size is read with the zeros that follow it.
pub header_bytes-fill :
    (h : Heap) (m : Action Buffer) (src : List ℕ) (n : ℕ)
    → Generous h
    → Fills m src
    → 0 < n
    → n < 2 ^ 64
    → length src ≤ n
    → header_bytes n (fill (init_size h 0 n) m) ≡ pass (src ++ drop (length src) (replicate n 0))
unfolding header_bytes fill
header_bytes-fill h m src n g f pos small le = rw (
  init_size-partial h n g pos small,
  f.at [] (replicate n 0) (omega (arith, length-replicate {A = ℕ} n 0))
      (omega (arith, length-replicate {A = ℕ} n 0)),
  load_all (src ++ drop (length src) (replicate n 0)) n length-whole,
)
  where
    length-whole : length (src ++ drop (length src) (replicate n 0)) ≡ n
    length-whole = omega (
      arith,
      length-append src (drop (length src) (replicate n 0)),
      length-drop {A = ℕ} (length src) (replicate n 0),
      length-replicate {A = ℕ} n 0,
    )

-- The 12 bytes behind the header in its buffer.
zeros_left : drop {A = ℕ} 88 (replicate block_header_size 0) ≡ replicate 12 0
zeros_left = refl

-- The header that is hashed is followed by zeros.
compute_block_hash-encode :
    (h : Heap) (digest : List ℕ → List ℕ) (b : Block)
    → Generous h
    → BlockIsValid b
    → compute_block_hash h digest b ≡ pass (digest (encode_block_header b ++ replicate 12 0))
unfolding compute_block_hash
compute_block_hash-encode h digest b g v = rw (
  header_bytes-fill h (serialize_block_header h b) (encode_block_header b) block_header_size g
      (Fills-serialize_block_header h g b v) (omega arith) (omega arith)
      (omega (arith, length-encode_block_header b v)),
  length-encode_block_header b v,
  zeros_left,
)

-- Two byte strings with the same hash.
pub record Collision (digest : List ℕ → List ℕ) : Type 0 where
  pub first : List ℕ
  pub second : List ℕ
  pub distinct : first ≢ second
  pub same_digest : digest first ≡ digest second

-- All the fields that the hash of a block is meant to cover.
pub record SameHeader (b c : Block) : Type 0 where
  pub same_version : b.version ≡ c.version
  pub same_timestamp : b.timestamp ≡ c.timestamp
  pub same_nonce : b.nonce ≡ c.nonce
  pub same_bits : b.bits ≡ c.bits
  pub same_emission : b.cumulative_emission ≡ c.cumulative_emission
  pub same_previous : b.previous_hash ≡ c.previous_hash
  pub same_root : b.merkle_root ≡ c.merkle_root

append-injective : (p q r s : List ℕ) → length p ≡ length q → p ++ r ≡ q ++ s → (p ≡ q) × (r ≡ s)
append-injective p q r s e same = (
  sym (take-append p r)
      ∙ ap (take (length p)) same
      ∙ subst (λ n. take n (q ++ s) ≡ q) (sym e) (take-append q s),
  sym (drop-append p r)
      ∙ ap (drop (length p)) same
      ∙ subst (λ n. drop n (q ++ s) ≡ s) (sym e) (drop-append q s),
)

word-injective :
    (n x y : ℕ) (r s : List ℕ)
    → x < 256 ^ n
    → y < 256 ^ n
    → le_bytes n x ++ r ≡ le_bytes n y ++ s
    → (x ≡ y) × (r ≡ s)
word-injective n x y r s hx hy same =
    let parts =
      append-injective (le_bytes n x) (le_bytes n y) r s
        (length-le_bytes n x ∙ sym (length-le_bytes n y)) same in
    (sym (word-le_bytes n x hx) ∙ ap (or_bytes 0) parts.0 ∙ word-le_bytes n y hy, parts.1)

encode_block_header-injective :
    (b c : Block)
    → BlockIsValid b
    → BlockIsValid c
    → encode_block_header b ≡ encode_block_header c
    → SameHeader b c
unfolding encode_block_header
encode_block_header-injective b c v w same =
    let one = word-injective 4 b.version c.version _ _ v.version_width w.version_width same in
    let two =
      word-injective 4 b.timestamp c.timestamp _ _ v.timestamp_width w.timestamp_width one.1 in
    let three = word-injective 4 b.nonce c.nonce _ _ v.nonce_width w.nonce_width two.1 in
    let four = word-injective 4 b.bits c.bits _ _ v.bits_width w.bits_width three.1 in
    let five =
      word-injective 8 b.cumulative_emission c.cumulative_emission _ _ v.emission_width
        w.emission_width four.1 in
    let six =
      append-injective b.previous_hash c.previous_hash _ _ (v.previous_size ∙ sym w.previous_size)
        five.1 in
    record {
      same_version = one.0;
      same_timestamp = two.0;
      same_nonce = three.0;
      same_bits = four.0;
      same_emission = five.0;
      same_previous = six.0;
      same_root = six.1;
    }

-- Where every allocation succeeds, `compute_block_hash` returns a hash for every block whose sizes
-- and widths are those of its C struct, and the hash commits to the header: two such blocks for which
-- it is the same agree in version, timestamp, nonce, bits, emission, previous hash and Merkle root,
-- or they exhibit two byte strings that the digest does not tell apart.
pub compute_block_hash-commits :
    (h : Heap) (digest : List ℕ → List ℕ) (b c : Block) (own : List ℕ)
    → Generous h
    → BlockIsValid b
    → BlockIsValid c
    → ((found : List ℕ) × (compute_block_hash h digest b ≡ pass found))
      × (compute_block_hash h digest b ≡ pass own
          → compute_block_hash h digest c ≡ pass own
          → SameHeader b c ⊎ Collision digest)
compute_block_hash-commits h digest b c own g v w =
    ((digest (padded b), compute_block_hash-encode h digest b g v), λ hb hc. decide hb hc)
  where
    padded : Block → List ℕ
    padded d = encode_block_header d ++ replicate 12 0

    decide :
        compute_block_hash h digest b ≡ pass own
        → compute_block_hash h digest c ≡ pass own
        → SameHeader b c ⊎ Collision digest
    decide hb hc =
        let eb : pass (digest (padded b)) ≡ pass own =
          sym (compute_block_hash-encode h digest b g v) ∙ hb in
        let ec : pass (digest (padded c)) ≡ pass own =
          sym (compute_block_hash-encode h digest c g w) ∙ hc in
        elim (Bool-cases (same_bytes (padded b) (padded c))) [
          | inl e ↦ inl (
              encode_block_header-injective b c v w
                (append-injective (encode_block_header b) (encode_block_header c) _ _
                  (length-encode_block_header b v ∙ sym (length-encode_block_header c w))
                  ((same_bytes_iff (padded b) (padded c)).0 e)).0)
          | inr e ↦ inr (record {
            first = padded b;
            second = padded c;
            distinct = λ same. cc (sym e ∙ (same_bytes_iff (padded b) (padded c)).1 same);
            same_digest = cc (eb, ec);
          })
        ]
