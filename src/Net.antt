-- ===== src/Net.antt =====
-- src/core/net.h and src/core/net.c: the connections of a node, and the bytes that arrive on one.
pub mod Receive
pub mod Cut
pub mod Stream
pub mod Fuel
pub mod Tests
use vulkan_core.Common.{
  ℕ, zero, suc, ◌+◌, ◌-◌, Bool, true, false, ◌||◌, Option, none, some, List, [], ◌∷◌, ◌++◌, length,
  ◌==◌, if◌then◌else◌,
}
use vulkan_core.Exec.{Outcome, ok, error, fault, Action, ◌>>=◌, ◌>>◌, and_then, done}
use vulkan_core.Buffer.{Heap, Buffer, write, init}

-- `net_connection_t`. `address` is the address of the struct itself, `connection` that of the
-- `mg_connection` behind it, whose flag to be closed is `closing`. The queue is what `USE_NET_QUEUE`
-- adds.
pub record NetConnection : Type 0 where
  pub address : ℕ
  pub connection : ℕ
  pub send_queue : List Buffer
  pub is_receiving_data : Bool
  pub expected_receiving_len : ℕ
  pub receiving_buffer : Option Buffer
  pub host_port : ℕ
  pub anonymous : Bool
  pub closing : Bool

unfoldable pub init_net_connection : ℕ → ℕ → NetConnection
init_net_connection own connection = record {
  address = own;
  connection = connection;
  send_queue = [];
  is_receiving_data = false;
  expected_receiving_len = 0;
  receiving_buffer = none;
  host_port = 0;
  anonymous = true;
  closing = false;
}

unfoldable pub close_net_connection : NetConnection → NetConnection
close_net_connection c = record c { closing = true }

-- `g_net_connections` and `g_num_connections`.
pub record Connections : Type 0 where
  pub entries : List NetConnection
  pub num_connections : ℕ

-- `vec_foreach` with the test of `get_net_connection_nolock`.
unfoldable pub find_connection : List NetConnection → ℕ → Option NetConnection
find_connection [] connection = none
find_connection (c ∷ cs) connection =
    let rest = find_connection cs connection in if c.connection == connection then some c else rest

unfoldable pub get_net_connection : Connections → ℕ → Option NetConnection
unfolding find_connection
get_net_connection t connection = find_connection t.entries connection

unfoldable pub has_net_connection : Connections → ℕ → Bool
unfolding get_net_connection
has_net_connection t connection = elim (get_net_connection t connection) [
  | none ↦ false
  | some c ↦ true
]

unfoldable pub add_net_connection : NetConnection → Action Connections
unfolding has_net_connection
add_net_connection c t =
    if has_net_connection t c.connection
    then error t
    else ok tt (record { entries = t.entries ++ c ∷ []; num_connections = t.num_connections + 1 })

-- `vec_remove`: the first entry that is the pointer.
unfoldable pub vec_remove : ℕ → List NetConnection → List NetConnection
vec_remove own [] = []
vec_remove own (c ∷ cs) = let rest = vec_remove own cs in if c.address == own then cs else c ∷ rest

unfoldable pub remove_net_connection : NetConnection → Action Connections
unfolding has_net_connection vec_remove
remove_net_connection c t =
    if has_net_connection t c.connection
    then ok tt (record {
      entries = vec_remove c.address t.entries;
      num_connections = t.num_connections - 1;
    })
    else error t
