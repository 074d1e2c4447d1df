-- ===== src/Lib.antt =====
-- vulkan-core is a node of a block chain, written in C. A wallet signs transactions
-- (src/core/transaction.c), the node validates them and collects them in blocks (src/core/block.c),
-- whose transactions are bound to the header by a Merkle tree (src/core/merkle.c) and whose hash
-- has to meet a target (src/core/pow.c). Everything that is stored, hashed or sent goes through one
-- byte buffer and its cursor (src/common/buffer.c, src/common/buffer_iterator.c).
--
-- The files, each with the code it is about:
--   Common    lists over the native numbers, Boolean tests, comparison of byte strings
--   Exec      functions that return 0 or 1 and change an object, as state passing: `ok`, `error`
--             (the value 1, with what was changed) and `fault` (a failed assertion, or an access
--             outside an object)
--   Check     validation functions: `pass`, `reject` and `crash`
--   Bytes     words in memory order and the shifts that read them (src/common/byteorder.h)
--   Crypto    the comparisons of src/crypto/cryptoutil.c, and src/crypto/sha256d.c
--   Buffer    `buffer_t` over an allocator (`Heap`) that may refuse a request. Append, Fill and
--             Read are the views of a writer as appending or overwriting a byte string and of a
--             reader as consuming one, Moves and Starves of a reader as moving the cursor and as
--             failing on too few bytes; codecs are proved by composing these. Serialized is the
--             pattern of the pairs of `..._to_serialized` and `..._from_serialized`.
--   Transaction   the data of src/core/transaction.h; Codec has the serializers, Encoding the wire
--             format as byte strings, Sign the headers that are signed, Spend `valid_transaction`,
--             Compare and Copy the functions of those names, Serialized the byte strings of their
--             own. `valid_address` is from src/wallet/wallet.c.
--   Merkle    src/core/merkle.c; Levels has one level, Root the whole tree, Duplicate a doubled
--             last leaf
--   Pow       src/core/pow.c and src/crypto/bignum_util.c; Target has the compact form
--   Block     src/core/block.h and src/core/block.c; Codec, Hash, Valid and Copy have the functions,
--             RoundTrip, Commit, TxId, Root and Valid/Accept what is proved of them
--   Mempool   src/core/mempool.c; Flush has expiry and the filling of a block, Invariant, Runs, Expiry
--             and Fill what is proved
--   Chain     of src/core/blockchain.c, the rewards and the emission of blocks, and the update of an
--             unspent transaction; Emission and Unspent
--   Protocol  the packets and messages of src/core/protocol.h and src/core/protocol.c: Codec has the
--             packets, Write and Read the two codecs of messages, Send `handle_send_packet`, Encoding
--             the wire format; RoundTrip, Delivery, Packets and Bounds what is proved of them
--   Net       of src/core/net.c, the table of connections; Receive has `data_received` and the calls
--             below it, over a handler of packets; Stream, Fuel and Cut what is proved
--   Sync      of src/core/protocol.c, the synchronisation entry; Requests has what starts, ends and
--             asks, Receive the headers and transactions that were asked for, Handle and Grouped the
--             cases of `handle_packet`, Dispatch `handle_packet` and its callers. Invariant, Stable,
--             Headers, Transactions, Answers, Served and Runs carry a predicate on the entry through
--             every function; Retry is about a peer that is silent, Crash about failing assertions,
--             Delivery about the way from bytes to the handlers, Depth about the fuel
--   P2p       of src/core/p2p.c, the table of peers over the hash table of collections-c, and
--             `concatenate` of src/common/util.c; Runs has sequences of changes, Full what a peer does
--             to a node whose table is full
-- The modules named Tests apply the theorems to concrete objects.
--
-- How the code is read. A C function `buffer_write` is `Buffer.write`; a function of another file
-- keeps its name. A struct is a record, an array of pointers a list, empty for NULL, beside the count
-- that the struct has; a loop up to the count that leaves the list is a fault, or `none` or `crash`
-- where the result is of that kind. An array of fixed size is a list whose length the predicates
-- named ...IsValid state. Integers are natural numbers, and wrap where the C type does: `% 2 ^ 32`
-- for uint32_t, `% 2 ^ 64` for size_t and uint64_t. The machine is little-endian.
--
-- Loops are recursions on the number of rounds that are left. The loop over the levels of a Merkle
-- tree runs on fuel, one round for every hash, which is enough since a round leaves fewer nodes.
-- `data_received` and `process_incoming_packet` call each other on fuel, one unit for every byte, as a
-- packet has at least 8; what a call without fuel does is a parameter (`spent`), a fault in
-- `data_received`. `block_header_received` and `request_sync_next_block` call each other with a fuel of
-- 2, where 1 is enough: behind `clear_grouped_sync_request` no header waits for a second call.
--
-- Parameters, for code that is not in the repository: the allocator; SHA-256 and the signatures of
-- libsodium; the numbers of OpenSSL, with laws for numbers that are not negative; the arrays and the
-- hash table of collections-c, with laws, the table in its default configuration, where a key is a
-- string that ends at its first zero; the lookups in the database, which are the index of unspent
-- transactions and, for the emission, the block with a hash; the clock; what uninitialised memory
-- holds. For Net the handler of packets is a parameter, and for Sync everything outside of the entry
-- is (`Services`): the block chain and the mempool, the checkpoints, the peers, the sending of
-- messages and the clock.
--
-- Not modelled. Allocations of single structs are taken to succeed, and pointers in arrays not to be
-- NULL, where the code asserts the same. Releasing memory is left out unless it changes an object
-- that is used later. Printing and logging are left out, and so far the sockets and the event loop
-- with the send queue, the list of peers that is sent and stored, the database side of the block
-- chain, the transaction builder, the wallet, the miner, the task scheduler, checkpoints and the
-- genesis block, and threads.
pub mod Common
pub mod Exec
pub mod Check
pub mod Crypto
pub mod Bytes
pub mod Buffer
pub mod Transaction
pub mod Merkle
pub mod Pow
pub mod Block
pub mod Mempool
pub mod Chain
pub mod Protocol
pub mod Net
pub mod Sync
pub mod P2p
