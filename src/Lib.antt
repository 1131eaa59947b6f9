-- ===== src/Lib.antt =====
-- Three programs live in this repository: `mousedb`, a replicated store of key-value pairs,
-- `tempus`, a simulation of machines with Lamport clocks, and `converse`, a chat.
--
-- mousedb (Mousedb.antt). A write enters `mousedb/server/exe_server/src/server.cpp`, is stamped by
-- the hybrid logical clock and stored by `mousedb/server/lib_database`, whose memtable keeps its
-- entries as bytes in memory that an arena hands out.
--   Mousedb/Hlc.antt      exe_server/src/hlc.hpp and lww.hpp: `Hlc`, `pack`, `unpack`, `advance`
--                         (a list of rounds stands for the compare-and-swap loop, each with the
--                         wall clock and the value that the exchange finds), `lww_select`.
--   Mousedb/Varint.antt   lib_database/src/memtable.cpp: the variable-length integers.
--   Mousedb/KvStore.antt  the same file: entries as bytes, `compare`, `get`, `insert`, and `find`.
--                         The skip list is the list of its entries in the order of insertion.
--   Mousedb/Arena.antt    lib_database/src/arena.cpp: `Arena`. A slab is its size.
--   Mousedb/Concurrent.antt the same file: `ConcurrentArena`, its shards and the threads that call it.
--   Mousedb/Filter.antt   lib_database/src/filter.cpp: `BloomFilter` over an interface of
--                         `boost::dynamic_bitset`, with `std::hash` as a parameter.
--   Mousedb/Wal.antt      lib_database/src/mousedb/database/core.cpp: the log, its entries and the
--                         recovery, whose rounds `bytes_left` bounds.
--   Mousedb/Database.antt the same file: `insert`, `erase`, `internal_find`, the queue of memtables
--                         and the steps of its workers.
--   Mousedb/Tables.antt   the same file: the table that a worker writes of a memtable.
--   Mousedb/SpinMutex.antt lib_database/src/spin_mutex.hpp: the lock and the threads that use it.
--   Mousedb/Wire.antt     exe_server/src/server.cpp and `mousedb/client/src/client_main.cpp`: frames,
--                         requests and answers as bytes.
--   Mousedb/Peers.antt    exe_server/src/server.cpp: the sessions, `connect_to`, `on_identify` and the
--                         handler of each frame. The database is a parameter.
--
-- tempus (Tempus.antt). `runNode` in `tempus/src/logic.cpp` steps through a loop at its own rate,
-- takes messages from a queue that `receiveMessages` fills, and sends to the other machines.
--   Tempus.antt           clocks, the events drawn, ranks, channels, `handleSendEvent`.
--   Tempus/Setup.antt    `tempus/src/main.cpp`: how a machine gets its channels.
--   Tempus/Receiver.antt  `receiveMessages`: the buffers of the channels.
--   Tempus/Node.antt      the loop of `runNode`; Tempus/Pacing.antt its times.
--
-- converse (Converse.antt). Servers of the chat find each other and their clients through the link
-- service, and the main service keeps a stream open for each user that listens.
--   Converse/Link.antt    `converse/exe_server/src/service/link/impl.cpp`. The parts of a handler
--                         that hold one lock each are steps of their own.
--   Converse/Writers.antt `converse/exe_server/src/service/main/impl.cpp`: `user_id_to_writers_`.
--   Converse/Sqlite.antt  `converse/exe_server/src/database.hpp`: `Db::execute` over a parameter for SQLite,
--                         whose documented behaviour Sqlite/Laws.antt names.
--   Converse/Service.antt the handlers of `service/main/impl.cpp`: users, conversations and messages.
--   Converse/Text.antt    what they do with names and numbers.
--   Converse/Models.antt  `converse/exe_client/src/backend.cpp`: the rows of the list models.
--   Converse/Client.antt `converse/exe_client/src/backend.cpp`: `Backend`, its requests, its streams and the
--                         change to another server, with the answers of the servers as arguments.
--   Converse/Failover.antt `converse/exe_server/src/server.cpp`: the loop in which a replica follows leaders
--                         until it is one.
--   Converse/Replay.antt  `converse/exe_server/src/server.cpp`: the statements that a replica executes.
--
-- Prelude.antt holds what the parts share: tests, lists, bits and bytes, and which elements lists hold.
--
-- Fuel: `to_string` has twenty digits, which are enough below 10 ^ 20; `encode_varint` has ten
-- rounds, which take 70 bits; a `uint64_t` needs ten at most. `spread` has seven rounds, which double
-- its shift from 1 to 64.
-- Integers are numbers, and wrap where the type of the source does; a clock of tempus, an `int`, is
-- `none` past the largest, as its overflow is undefined.
--
-- Not modelled: the compaction of table files, which is never run, generated protocol-buffer code,
-- logging, the user interface, tests and benchmarks, threads, sockets and files themselves, the process
-- that forks the machines of tempus and, of converse, the start of a server.
pub mod Converse
pub mod Mousedb
pub mod Prelude
pub mod Tempus
