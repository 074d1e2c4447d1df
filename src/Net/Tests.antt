-- ===== src/Net/Tests.antt =====
-- The theorems on received bytes at concrete inputs.
use vulkan_core.Common.{◌≡◌, refl, List, [], ◌∷◌, ◌++◌, arith}
use vulkan_core.Exec.{ok, done}
use vulkan_core.Bytes.{le_bytes}
use vulkan_core.Buffer.Tests.{plenty, plenty-Generous}
use vulkan_core.Transaction.Encoding.{encode_all}
use vulkan_core.Protocol.{Packet}
use vulkan_core.Protocol.Packets.{encode_packet, encode_data}
use vulkan_core.Protocol.Tests.{request, answer, request-PacketIsValid, answer-PacketIsValid}
use vulkan_core.Net.{init_net_connection, close_net_connection}
use vulkan_core.Net.Receive.{Receiver, Handler, received_within, data_received}
use vulkan_core.Net.Stream.{KeepsIdle, handle_all, data_received-packets}
use vulkan_core.Net.Fuel.{data_received-ends}
use vulkan_core.Net.Cut.{data_received-cut}

-- A handler that keeps the packets.
abbrev keep : Handler (List Packet)
keep p r = ok tt (record r { node = r.node ++ p ∷ [] })

keep-KeepsIdle : KeepsIdle keep
keep-KeepsIdle p r idle = idle

abbrev fresh_receiver : Receiver (List Packet)
fresh_receiver = record { conn = init_net_connection 1 2; node = [] }

data_received-packets_example :
    data_received plenty keep 2 (encode_all encode_packet (request ∷ answer ∷ [])) fresh_receiver
    ≡ handle_all keep (request ∷ answer ∷ []) fresh_receiver
unfolding encode_all encode_packet encode_data le_bytes init_net_connection
data_received-packets_example =
    data_received-packets plenty keep 2 request (answer ∷ []) fresh_receiver plenty-Generous
      keep-KeepsIdle (omega arith) (request-PacketIsValid, (answer-PacketIsValid, tt)) (omega arith)
      refl

data_received-ends_example :
    data_received plenty keep 9 (1 ∷ 2 ∷ 3 ∷ []) fresh_receiver
    ≡ received_within plenty keep (λ bytes. done tt) 4 (1 ∷ 2 ∷ 3 ∷ []) fresh_receiver
unfolding init_net_connection
data_received-ends_example =
    data_received-ends plenty keep 9 (1 ∷ 2 ∷ 3 ∷ []) fresh_receiver (λ bytes. done tt)
      plenty-Generous keep-KeepsIdle (omega arith) (omega arith) refl

data_received-cut_example :
    data_received plenty keep 5 (8 ∷ 0 ∷ 0 ∷ 0 ∷ 2 ∷ []) fresh_receiver
    ≡ ok tt (record fresh_receiver { conn = close_net_connection (init_net_connection 1 2) })
unfolding encode_packet encode_data le_bytes init_net_connection
data_received-cut_example =
    data_received-cut plenty keep 4 answer (8 ∷ 0 ∷ 0 ∷ 0 ∷ 2 ∷ [])
      (0 ∷ 0 ∷ 0 ∷ 2 ∷ 0 ∷ 0 ∷ 0 ∷ 6 ∷ 7 ∷ []) fresh_receiver plenty-Generous answer-PacketIsValid
      refl (omega arith) (omega arith) (omega arith) refl
