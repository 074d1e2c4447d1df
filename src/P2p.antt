-- ===== src/P2p.antt =====
-- src/core/p2p.c and src/core/p2p.h: the table of peers, and `concatenate` of src/common/util.c.
pub mod Runs
pub mod Full
pub mod Tests
use vulkan_core.Common.{
  same_bytes, ℕ, zero, suc, ◌+◌, ◌-◌, ◌*◌, ◌%◌, ◌^◌, ◌≡◌, Bool, true, false, not, Option, none,
  some, List, [], ◌∷◌, length, leb, ◌==◌, if◌then◌else◌,
}
use vulkan_core.Bytes.{le_bytes}
use vulkan_core.Exec.{Outcome, ok, error, fault, Action, stop, done, fail, ◌>>◌}

abbrev pub max_p2p_peers_count : ℕ
max_p2p_peers_count = 16

-- `peer_t`, where a connection is given by its address.
pub record Peer : Type 0 where
  pub id : ℕ
  pub net_connection : ℕ

-- The loop of `get_peer_nolock`.
unfoldable pub find_peer : ℕ → List Peer → Option Peer
find_peer peer_id [] = none
find_peer peer_id (p ∷ ps) =
    let rest = find_peer peer_id ps in if p.id == peer_id then some p else rest

abbrev pub found : Option Peer → Bool
found none = false
found (some p) = true

-- A byte string in memory up to its first zero.
unfoldable pub until_zero : List ℕ → List ℕ
until_zero [] = []
until_zero (b ∷ bs) = let rest = until_zero bs in if b == 0 then [] else b ∷ rest

-- The key that the table sees at the address of an id: `hashtable_new` takes the default
-- configuration, whose keys are strings that end at their first zero.
unfoldable pub key_of : ℕ → List ℕ
unfolding until_zero
key_of peer_id = until_zero (le_bytes 8 peer_id)

unfoldable pub has_key : List ℕ → List Peer → Bool
unfolding key_of
has_key key [] = false
has_key key (p ∷ ps) =
    let rest = has_key key ps in if same_bytes (key_of p.id) key then true else rest

-- The hash table of collections-c: the values in the order of `HASHTABLE_FOREACH`, and the two
-- operations at the address of an id, `none` where they do not return `CC_OK`.
pub record Tables : Type 1 where
  pub HashTable : Type 0
  pub hashtable_new : HashTable
  pub values : HashTable → List Peer
  pub hashtable_add : Peer → HashTable → Option HashTable
  pub hashtable_remove : ℕ → HashTable → Option HashTable

-- Where its allocations succeed, an addition replaces the value of a key that is there; a removal of a
-- key that is there succeeds.
pub record TablesLaws (t : Tables) : Type 0 where
  pub fresh : t.values t.hashtable_new ≡ []
  pub adds :
      (p : Peer) (xs : t.HashTable)
      → (ys : t.HashTable) × (t.hashtable_add p xs ≡ some ys)
        × (length (t.values ys) ≡ (
            if has_key (key_of p.id) (t.values xs)
            then length (t.values xs)
            else 1 + length (t.values xs)))
  pub removes :
      (peer_id : ℕ) (xs : t.HashTable)
      → has_key (key_of peer_id) (t.values xs) ≡ true
      → (ys : t.HashTable) × (t.hashtable_remove peer_id xs ≡ some ys)
        × (1 + length (t.values ys) ≡ length (t.values xs))

-- The loop of `concatenate`, at most `fuel` times: the first power of ten above `y`.
unfoldable pub power_above : ℕ → ℕ → ℕ → Option ℕ
power_above zero pow y = none
power_above (suc fuel) pow y =
    let rest = power_above fuel (pow * 10 % 2 ^ 32) y in if leb pow y then rest else some pow

unfoldable pub joined : ℕ → ℕ → Option ℕ → Option ℕ
joined x y none = none
joined x y (some pow) = some ((x * pow + y) % 2 ^ 32)

unfoldable pub concatenate : ℕ → ℕ → Option ℕ
unfolding joined power_above
concatenate x y = joined x y (power_above 5 10 y)

module _ (t : Tables) where
  -- `g_p2p_peerlist_table` and `g_num_peers`.
  pub record Peers : Type 0 where
    pub peerlist_table : t.HashTable
    pub num_peers : ℕ

  -- What `init_p2p` starts with.
  unfoldable pub init_p2p : Peers
  init_p2p = record { peerlist_table = t.hashtable_new; num_peers = 0 }

  unfoldable pub get_peer : ℕ → Peers → Option Peer
  unfolding find_peer
  get_peer peer_id s = find_peer peer_id (t.values s.peerlist_table)

  unfoldable pub has_peer : ℕ → Peers → Bool
  unfolding get_peer
  has_peer peer_id s = found (get_peer peer_id s)

  -- `assert(hashtable_add(...) == CC_OK)`, and what follows.
  unfoldable pub peer_added : Option t.HashTable → Action Peers
  peer_added none s = fault
  peer_added (some ys) s = ok tt (record { peerlist_table = ys; num_peers = s.num_peers + 1 })

  unfoldable pub add_peer : Peer → Action Peers
  unfolding has_peer peer_added
  add_peer p s =
      if has_peer p.id s
      then error s
      else if leb max_p2p_peers_count s.num_peers
      then error s
      else peer_added (t.hashtable_add p s.peerlist_table) s

  unfoldable pub peer_removed : Option t.HashTable → Action Peers
  peer_removed none s = fault
  peer_removed (some ys) s = ok tt (record { peerlist_table = ys; num_peers = s.num_peers - 1 })

  unfoldable pub remove_peer : Peer → Action Peers
  unfolding has_peer peer_removed
  remove_peer p s =
      if not (has_peer p.id s)
      then error s
      else peer_removed (t.hashtable_remove p.id s.peerlist_table) s

module _ {S : Type 0} where
  -- The loop of `broadcast_data_to_peers`, where `send` is `send_data`.
  unfoldable pub send_to_each : (ℕ → List ℕ → Action S) → ℕ → List ℕ → List Peer → Action S
  send_to_each send conn data_bytes [] = done tt
  send_to_each send conn data_bytes (p ∷ ps) =
      let rest = send_to_each send conn data_bytes ps in
      if p.net_connection == conn then rest else (send p.net_connection data_bytes >> rest)

  unfoldable pub broadcast_data_to_peers :
      (t : Tables) → (ℕ → List ℕ → Action S) → ℕ → List ℕ → Peers t → Action S
  unfolding send_to_each
  broadcast_data_to_peers t send conn data_bytes s =
      send_to_each send conn data_bytes (t.values s.peerlist_table)
