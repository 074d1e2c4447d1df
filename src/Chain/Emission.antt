-- ===== src/Chain/Emission.antt =====
-- The emission of a chain of valid blocks.
use vulkan_core.Common.{
  ℕ, ◌+◌, ◌%◌, ◌^◌, ◌≤◌, ◌≡◌, sym, ◌∙◌, Bool, true, false, ◌&&◌, Option, none, some, ◌==◌,
  if◌then◌else◌, arith,
}
use mathlib.Core.Option.{some-injective}
use vulkan_core.Check.{pass, access, >>=-eq-pass, guard-eq-pass}
use vulkan_core.Transaction.{TxOut}
use vulkan_core.Block.{Block, compare_block}
use vulkan_core.Chain.{
  max_money, get_block_reward, History, generated, expect_emission, emission_after,
  valid_block_emission,
}

-- The chains of blocks that `valid_block_emission` accepts, from the genesis block on.
pub data Chain (c : History) : Block → Type 0 where
  genesis :
      {b : Block}
      → valid_block_emission c b ≡ pass tt
      → compare_block b c.genesis_block ≡ some true
      → Chain c b
  extend :
      {previous b : Block} (height : ℕ)
      → Chain c previous
      → c.block_from_hash b.previous_hash ≡ some (previous, height)
      → valid_block_emission c b ≡ pass tt
      → compare_block b c.genesis_block ≡ some false
      → Chain c b

reward_within : (g n e : ℕ) → g ≤ max_money → e ≤ max_money → e + get_block_reward g n e ≤ max_money
unfolding get_block_reward
reward_within g n e small le = ground arith

access-eq-pass : {A : Type 0} (m : Option A) (x : A) → access m ≡ pass x → m ≡ some x
access-eq-pass none x h = cc h
access-eq-pass (some y) x h = cc h

expected :
    (b : Block) (o : TxOut) (reward emission : ℕ)
    → expect_emission b o reward emission ≡ pass tt
    → (o.amount ≡ reward) × (b.cumulative_emission ≡ emission)
unfolding expect_emission
expected b o reward emission h =
    let both = guard-eq-pass (o.amount == reward && b.cumulative_emission == emission) h in
    (ground arith, ground arith)

-- An accepted block by the two cases of the code.
accepted :
    (c : History) (b : Block) (first : Bool)
    → valid_block_emission c b ≡ pass tt
    → compare_block b c.genesis_block ≡ some first
    → (o : TxOut) × (generated b ≡ some o)
      × ((if first
            then expect_emission b o
                (get_block_reward c.genesis_reward 0 0)
                (get_block_reward c.genesis_reward 0 0)
            else emission_after c.genesis_reward b o (c.block_from_hash b.previous_hash))
          ≡ pass tt)
unfolding valid_block_emission
accepted c b first h e =
    let one = >>=-eq-pass (access (generated b)) _ h in
    let two = >>=-eq-pass (access (compare_block b c.genesis_block)) _ one.2 in
    let same : two.0 ≡ first =
      some-injective two.0 first
        (sym (access-eq-pass (compare_block b c.genesis_block) two.0 two.1) ∙ e) in
    (one.0, access-eq-pass (generated b) one.0 one.1, rw same at two.2)

genesis_emission :
    (c : History) (b : Block)
    → valid_block_emission c b ≡ pass tt
    → compare_block b c.genesis_block ≡ some true
    → b.cumulative_emission ≡ get_block_reward c.genesis_reward 0 0
genesis_emission c b h e =
    let a = accepted c b true h e in
    (expected b a.0 (get_block_reward c.genesis_reward 0 0) (get_block_reward c.genesis_reward 0 0)
      a.2).1

next_emission :
    (c : History) (previous b : Block) (height : ℕ)
    → c.genesis_reward ≤ max_money
    → previous.cumulative_emission ≤ max_money
    → c.block_from_hash b.previous_hash ≡ some (previous, height)
    → valid_block_emission c b ≡ pass tt
    → compare_block b c.genesis_block ≡ some false
    → (o : TxOut) × (generated b ≡ some o)
      × (previous.cumulative_emission + o.amount ≡ b.cumulative_emission)
      × (b.cumulative_emission ≤ max_money)
next_emission c previous b height small le found h e =
    let a = accepted c b false h e in
    let reward = get_block_reward c.genesis_reward height previous.cumulative_emission in
    let within = reward_within c.genesis_reward height previous.cumulative_emission small le in
    let parts =
      expected b a.0 reward ((previous.cumulative_emission + reward) % 2 ^ 64)
        (unfold emission_after in (rw found at a.2)) in
    (a.0, a.1, omega (arith, parts.0, parts.1, within), omega (arith, parts.0, parts.1, within))

emission_bound :
    (c : History) (b : Block)
    → c.genesis_reward ≤ max_money
    → Chain c b
    → b.cumulative_emission ≤ max_money
emission_bound c b small (genesis h e) =
    omega (arith, genesis_emission c b h e, reward_within c.genesis_reward 0 0 small (omega arith))
emission_bound c b small (extend {previous = previous} height chain found h e) =
    (next_emission c previous b height small (emission_bound c previous small chain) found h e).3

-- On every chain of blocks that `valid_block_emission` accepts one after the other, where the genesis
-- reward is at most `MAX_MONEY`: the emission that a block states is at most `MAX_MONEY`, and for a
-- block that is accepted behind it, the amount of its first output is exactly the increase of the
-- emission, without wrapping, and the limit still holds.
pub emission-bounded :
    (c : History) (b : Block)
    → c.genesis_reward ≤ max_money
    → Chain c b
    → (b.cumulative_emission ≤ max_money)
      × ((next : Block) (height : ℕ)
          → c.block_from_hash next.previous_hash ≡ some (b, height)
          → valid_block_emission c next ≡ pass tt
          → compare_block next c.genesis_block ≡ some false
          → (o : TxOut) × (generated next ≡ some o)
            × (b.cumulative_emission + o.amount ≡ next.cumulative_emission)
            × (next.cumulative_emission ≤ max_money))
emission-bounded c b small chain =
    let bound = emission_bound c b small chain in
    (bound, λ next height found h e. next_emission c b next height small bound found h e)
