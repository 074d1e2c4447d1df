-- ===== src/Block/RoundTrip.antt =====
-- Deserializing a block that was serialized.
use vulkan_core.Common.{
  ℕ, zero, suc, ◌+◌, ◌^◌, ◌<◌, ◌≡◌, refl, List, [], ◌∷◌, ◌++◌, length, length-append, All, arith,
  ltb, Bool-cases, inl, inr,
}
use vulkan_core.Exec.{Exec, ◌>>=◌, ◌>>◌, Action}
use vulkan_core.Check.{pass}
use vulkan_core.Bytes.{le_bytes}
use vulkan_core.Bytes.Word.{length-le_bytes}
use vulkan_core.Buffer.Serialized.{to_serialized-bytes, from_serialized-value}
use vulkan_core.Buffer.{Heap, Buffer, write_word}
use vulkan_core.Buffer.Append.{Generous, Appends, Appends->>, Appends-write_word}
use vulkan_core.Buffer.Iterator.{Iterator}
use vulkan_core.Buffer.Read.{
  Reads, Reads-done, Reads->>=, Reads-map, Reads-read_word, RoundTrip, RoundTrip-of,
}
use vulkan_core.Transaction.{Transaction, TransactionIsValid}
use vulkan_core.Transaction.Codec.{serialize_transaction, deserialize_transaction}
use vulkan_core.Transaction.Encoding.{
  sized, sized_bytes, encode_all, encode_transaction, Appends-for_each,
  Appends-serialize_transaction,
}
use vulkan_core.Transaction.RoundTrip.{Reads-read_fixed, Reads-deserialize_transaction}
use vulkan_core.Block.{Block, BlockIsValid}
use vulkan_core.Block.Codec.{
  read_many, serialize_block, serialize_transactions_from_block, deserialize_block,
  block_to_serialized, block_from_serialized, deserialize_transactions_to_block,
}

unfoldable pub encode_block : Block → List ℕ
encode_block b =
    le_bytes 4 b.version
    ++ (sized b.previous_hash
        ++ (sized b.hash
            ++ (le_bytes 4 b.timestamp
                ++ (le_bytes 4 b.nonce
                    ++ (le_bytes 4 b.bits
                        ++ (le_bytes 8 b.cumulative_emission
                            ++ (sized b.merkle_root ++ le_bytes 4 b.transaction_count)))))))

unfoldable pub encode_full_block : Block → List ℕ
encode_full_block b = encode_block b ++ encode_all encode_transaction b.transactions

-- A block and behind it its transactions, as they are stored and sent.
abbrev pub serialize_full_block : Heap → Block → Action Buffer
serialize_full_block h b = serialize_block h b >> serialize_transactions_from_block h b

abbrev pub deserialize_full_block : Heap → Exec Iterator Block
deserialize_full_block h = deserialize_block h >>= deserialize_transactions_to_block h

length-zero : (ts : List Transaction) → length ts ≡ 0 → ts ≡ []
length-zero [] e = refl
length-zero (t ∷ ts) e = absurd (omega arith)

module _ {A : Type 0} (P : A → Type 0) (read : Exec Iterator A) (e : A → List ℕ)
    (reads : (x : A) → P x → Reads read (e x) x) where
  Reads-read_many :
      (xs : List A) (n : ℕ)
      → n ≡ length xs
      → All P xs
      → Reads (read_many read n) (encode_all e xs) xs
  unfolding read_many encode_all
  Reads-read_many [] zero eq ps = Reads-done []
  Reads-read_many [] (suc n) eq ps = absurd (omega arith)
  Reads-read_many (x ∷ xs) zero eq ps = absurd (omega arith)
  Reads-read_many (x ∷ xs) (suc n) eq ps =
      Reads->>= _ (reads x ps.0) (Reads-map _ (Reads-read_many xs n (omega arith) ps.1))

module _ (h : Heap) (g : Generous h) where
  pub Appends-serialize_block :
      (b : Block) → BlockIsValid b → Appends (serialize_block h b) (encode_block b)
  unfolding serialize_block encode_block
  Appends-serialize_block b v = Appends->> (word 4 b.version (omega arith)) (
      Appends->> (sized_bytes h g b.previous_hash (omega arith)) (
        Appends->> (sized_bytes h g b.hash (omega arith)) (
          Appends->> (word 4 b.timestamp (omega arith)) (
            Appends->> (word 4 b.nonce (omega arith)) (
              Appends->> (word 4 b.bits (omega arith)) (
                Appends->> (word 8 b.cumulative_emission (omega arith)) (
                  Appends->> (sized_bytes h g b.merkle_root (omega arith))
                    (word 4 b.transaction_count (omega arith)))))))))
    where
      word : (n v : ℕ) → 0 < n → Appends (write_word h n v) (le_bytes n v)
      word = Appends-write_word h g

  Appends-serialize_full_block :
      (b : Block) → BlockIsValid b → Appends (serialize_full_block h b) (encode_full_block b)
  unfolding encode_full_block serialize_transactions_from_block
  Appends-serialize_full_block b v = Appends->> (Appends-serialize_block b v) (
      Appends-for_each TransactionIsValid (serialize_transaction h) encode_transaction
        (Appends-serialize_transaction h g) b.transaction_count b.transactions v.counted
        v.transactions_valid)

  pub Reads-deserialize_block :
      (b : Block)
      → BlockIsValid b
      → Reads (deserialize_block h) (encode_block b) (record b { transactions = [] })
  unfolding deserialize_block encode_block
  Reads-deserialize_block b v = Reads->>= _ (Reads-read_word 4 b.version v.version_width) (
      Reads->>= _ (Reads-read_fixed h g 32 b.previous_hash v.previous_size (omega arith)) (
        Reads->>= _ (Reads-read_fixed h g 32 b.hash v.hash_length (omega arith)) (
          Reads->>= _ (Reads-read_word 4 b.timestamp v.timestamp_width) (
            Reads->>= _ (Reads-read_word 4 b.nonce v.nonce_width) (
              Reads->>= _ (Reads-read_word 4 b.bits v.bits_width) (
                Reads->>= _ (Reads-read_word 8 b.cumulative_emission v.emission_width) (
                  Reads->>= _ (Reads-read_fixed h g 32 b.merkle_root v.root_size (omega arith))
                    (Reads-map _ (Reads-read_word 4 b.transaction_count (omega arith))))))))))

  Reads-transactions :
      (b : Block)
      → BlockIsValid b
      → Reads
          (deserialize_transactions_to_block h (record b { transactions = [] }))
          (encode_all encode_transaction b.transactions)
          b
  unfolding deserialize_transactions_to_block encode_all
  Reads-transactions b v = elim (Bool-cases (ltb 0 b.transaction_count)) [
    | inl e ↦ rw e (
        Reads-map _ (
          Reads-read_many TransactionIsValid (deserialize_transaction h) encode_transaction
            (Reads-deserialize_transaction h g) b.transactions b.transaction_count v.counted
            v.transactions_valid))
    | inr e ↦
        let none_left : b.transactions ≡ [] = length-zero b.transactions (ground arith) in
        rw (e, none_left) (Reads-done (record b { transactions = [] }))
  ]

-- Where every allocation succeeds and the buffer stays below the address space: for a block whose
-- count, sizes and widths are those of its C struct, with well-formed transactions,
-- `serialize_block` and `serialize_transactions_from_block` succeed one behind the other behind any
-- bytes already written, and `deserialize_block` and `deserialize_transactions_to_block` at that
-- place return the block with all its transactions and leave the cursor at the end of the buffer.
pub deserialize_block-serialize_block :
    (h : Heap) (bs : List ℕ) (b : Block)
    → Generous h
    → BlockIsValid b
    → length bs + length (encode_full_block b) < 2 ^ 64
    → RoundTrip (serialize_full_block h b) (deserialize_full_block h) b bs
unfolding encode_full_block
deserialize_block-serialize_block h bs b g v fits =
    RoundTrip-of (Appends-serialize_full_block h g b v)
      (Reads->>= _ (Reads-deserialize_block h g b v) (Reads-transactions h g b v)) bs fits

-- Where every allocation succeeds, `block_to_serialized` turns a well-formed block whose encoding is
-- shorter than 2 ^ 32 bytes into bytes that `block_from_serialized` turns back into the block with
-- its count, but without its transactions.
pub block_from_serialized-block_to_serialized :
    (h : Heap) (b : Block)
    → Generous h
    → BlockIsValid b
    → length (encode_block b) < 2 ^ 32
    → (bytes : List ℕ) × (block_to_serialized h b ≡ pass bytes)
      × (block_from_serialized h bytes (length bytes) ≡ pass (record b { transactions = [] }))
unfolding block_to_serialized block_from_serialized encode_block
block_from_serialized-block_to_serialized h b g v small = (
  encode_block b,
  to_serialized-bytes h g (encode_block b) nonempty small (Appends-serialize_block h g b v),
  from_serialized-value h g (encode_block b) nonempty small (Reads-deserialize_block h g b v),
)
  where
    nonempty : 0 < length (encode_block b)
    nonempty = omega (arith, length-append (le_bytes 4 b.version) _, length-le_bytes 4 b.version)
