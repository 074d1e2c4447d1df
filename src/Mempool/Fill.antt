-- ===== src/Mempool/Fill.antt =====
-- Which transactions `fill_block_with_txs_from_mempool` takes.
use vulkan_core.Common.{
  ℕ, zero, suc, ◌+◌, ◌%◌, ◌^◌, ◌≤◌, ◌<◌, ◌≡◌, refl, sym, ap, subst, ◌∙◌, some, List, [], ◌∷◌, ◌++◌,
  length, map, take, get_elem?, ltb, arith, length-append, append_assoc, append-nil, Bool-cases,
  inl, inr, ltb→lt,
}
use mathlib.Core.Option.{some-injective}
use vulkan_core.Exec.{Outcome, ok, and_then}
use vulkan_core.Transaction.{Transaction}
use vulkan_core.Transaction.Sign.{get_tx_header_size}
use vulkan_core.Block.{
  Block, add_header_sizes, get_block_header_size, add_transaction_to_block, block_header_size,
  max_block_size,
}
use vulkan_core.Mempool.{Arrays, Entry, Mempool}
use vulkan_core.Mempool.Flush.{
  fits_in, fill_round, insist, fill_from, fill_block_with_txs_from_mempool,
}

-- The header size of a block with these transactions, on uint32_t.
unfoldable pub total : List Transaction → ℕ → ℕ
total [] size = size
total (t ∷ ts) size = total ts ((size + get_tx_header_size t) % 2 ^ 32)

add_header_sizes-total :
    (n : ℕ) (ts : List Transaction) (size : ℕ)
    → n ≡ length ts
    → add_header_sizes n ts size ≡ some (total ts size)
unfolding add_header_sizes total
add_header_sizes-total zero [] size e = refl
add_header_sizes-total zero (t ∷ ts) size e = absurd (omega arith)
add_header_sizes-total (suc n) [] size e = absurd (omega arith)
add_header_sizes-total (suc n) (t ∷ ts) size e = add_header_sizes-total n ts _ (omega arith)

total-snoc :
    (ts : List Transaction) (t : Transaction) (size : ℕ)
    → total (ts ++ t ∷ []) size ≡ (total ts size + get_tx_header_size t) % 2 ^ 32
unfolding total
total-snoc [] t size = refl
total-snoc (u ∷ ts) t size = total-snoc ts t _

abbrev tx_of : Entry → Transaction
tx_of e = e.tx

abbrev pub with_transactions : Block → List Transaction → Block
with_transactions b ts = record b { transaction_count = length ts; transactions = ts }

-- What the loop ends with: the first `n` entries are taken, the block keeps below the limit, and the
-- next entry, if there is one, would reach it.
pub record Filled (b : Block) (ts : List Transaction) (es : List Entry)
    (o : Outcome Block (Unit {0})) : Type 0 where
  pub taken : ℕ
  pub within : taken ≤ length es
  pub block_left : o ≡ ok tt (with_transactions b (ts ++ map tx_of (take taken es)))
  pub below_limit : total (ts ++ map tx_of (take taken es)) block_header_size < max_block_size
  pub full :
      (e : Entry)
      → get_elem? es taken ≡ some e
      → max_block_size
        ≤ (total (ts ++ map tx_of (take taken es)) block_header_size + get_tx_header_size e.tx)
          % 2 ^ 32

round_fits :
    (b : Block) (ts : List Transaction) (t : Transaction)
    → fits_in (get_block_header_size (with_transactions b ts)) t
      ≡ some (ltb ((total ts block_header_size + get_tx_header_size t) % 2 ^ 32) max_block_size)
unfolding fits_in get_block_header_size
round_fits b ts t = rw (add_header_sizes-total (length ts) ts block_header_size refl)

added_to :
    (b : Block) (ts : List Transaction) (t : Transaction) (i : ℕ)
    → i ≡ length ts
    → length ts + 1 < 2 ^ 32
    → insist (add_transaction_to_block t i (with_transactions b ts))
      ≡ ok tt (with_transactions b (ts ++ t ∷ []))
unfolding insist add_transaction_to_block
added_to b ts t i e small = ground (arith, length-append ts (t ∷ []))

filled :
    (es : List Entry) (b : Block) (ts : List Transaction) (i : ℕ)
    → i ≡ length ts
    → length ts + length es < 2 ^ 32
    → total ts block_header_size < max_block_size
    → Filled b ts es (fill_from i es (with_transactions b ts))
unfolding fill_from fill_round
filled [] b ts i e small low = record {
  taken = 0;
  within = omega arith;
  block_left = ap (λ us. ok tt (with_transactions b us)) (sym (append-nil ts));
  below_limit = rw (append-nil ts) low;
  full = λ x g. cc g;
}
filled (x ∷ es) b ts i e small low =
    elim (Bool-cases
      (ltb ((total ts block_header_size + get_tx_header_size x.tx) % 2 ^ 32) max_block_size)) [
        | inr f ↦ record {
          taken = 0;
          within = omega arith;
          block_left = rw (round_fits b ts x.tx, f, append-nil ts);
          below_limit = rw (append-nil ts) low;
          full = λ y g.
              subst
                (λ z.
                  max_block_size
                  ≤ (total (ts ++ []) block_header_size + get_tx_header_size z.tx) % 2 ^ 32)
                (some-injective x y g) (rw (append-nil ts) (ground (arith, f)));
        }
        | inl f ↦
            let rest =
              filled es b (ts ++ x.tx ∷ []) (i + 1) (omega (arith, length-append ts (x.tx ∷ [])))
                (omega (arith, length-append ts (x.tx ∷ [])))
                (rw (total-snoc ts x.tx block_header_size) (ltb→lt _ _ f)) in
            let same = append_assoc ts (x.tx ∷ []) (map tx_of (take rest.taken es)) in
            record {
              taken = suc rest.taken;
              within = omega (arith, rest.within);
              block_left =
                  rw (round_fits b ts x.tx, f)
                    (ap (λ r. and_then r (λ _. fill_from (i + 1) es))
                        (added_to b ts x.tx i e (omega arith))
                      ∙ rest.block_left
                      ∙ ap (λ us. ok tt (with_transactions b us)) same);
              below_limit = rw same at rest.below_limit;
              full = λ y g. rw same at (rest.full y g);
            }
      ]

-- `fill_block_with_txs_from_mempool` on a block whose array has one transaction and whose header size
-- is below `MAX_BLOCK_SIZE`: no assertion fails, the transactions of some number of entries from the
-- front of the pool are appended in their order, the header size stays below the limit, and the next
-- entry of the pool, if there is one, would reach it.
pub fill_block-Filled :
    (a : Arrays) (m : Mempool a) (b : Block)
    → b.transaction_count ≡ 1
    → length b.transactions ≡ 1
    → length (a.elements m.transactions) + 1 < 2 ^ 32
    → total b.transactions block_header_size < max_block_size
    → Filled b b.transactions (a.elements m.transactions) (fill_block_with_txs_from_mempool a m b)
unfolding fill_block_with_txs_from_mempool
fill_block-Filled a m b counted one small low =
    subst
      (λ c.
        Filled b b.transactions (a.elements m.transactions)
          (fill_from 1 (a.elements m.transactions) c))
      (whole b (counted ∙ sym one))
      (filled (a.elements m.transactions) b b.transactions 1 (sym one) (omega arith) low)
  where
    whole :
        (c : Block)
        → c.transaction_count ≡ length c.transactions
        → with_transactions c c.transactions ≡ c
    whole c e = ground arith
