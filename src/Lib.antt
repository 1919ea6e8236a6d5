-- ===== src/Lib.antt =====
-- Verification library of CIP-PIR, a multi-server private information retrieval in C++.
--
-- A database of blocks is split into chunks of groups of eight blocks, one chunk for each peer
-- server. A server keeps, for the chunks that it holds, a table with the sum (xor) of every subset
-- of every group. Ahead of a request it draws seeds, expands each to a query for the chunks other
-- than its own, and stores seed and answer in a pool. A client asks all servers for a seed, adds up
-- the queries that the seeds stand for, flips the bit of the block that it wants, and sends each
-- server the part of the sum for the server's own chunk; the answers add up to the block. A center
-- server can make the tuples for the peers.
--
-- Files and code, with paths from the repository's root:
--   Base: shared names; byte buffers as functions from an offset (Base.Memory), casts (Base.Words),
--     the laws of xor and of sums (Base.Xor, Base.Sum), orders of servers (Base.Order).
--   Config: parameters.h and config.h. Configuration is a record; IsConfig is what the code takes
--     for granted of it.
--   Chunks, Walk: `chunksGroupsMap` of both constructors and the loops over it, in
--     CIP_PIR/PeerServer/CIP_pirServer.cpp and CIP_PIR/Client/CIP_pirClient.cpp.
--   Kernels: CIP_PIR/Computation/helper.h. Kernels.Threads is its code under MANUAL_THREADING, and
--     Kernels.Schedule that of `fastxor` under OPEN_MP, as steps of rounds that share `offset`.
--   Accelerator: Accelerator_CUDA.cu and Accelerator_CUDA.h in CIP_PIR/Computation, with the threads
--     of a grid run one after the other; the offsets of `int`, up to BLOCKSIZE * count, are taken to
--     stay below 2^31.
--   Tables: an independent description of the preprocessed tables; no code makes them.
--   Server: `readDB`, `precompute` for one seed and `execute` of CIP_PIR/PeerServer/CIP_pirServer.cpp.
--   Seeds: the pool of tuples, `precomputedSeeds`, with the loop body of `precompute` and `nextSeed`.
--     Seeds.Queue relates it to a queue.
--   Batch: `precompute` and `execute` of both servers with an accelerator, which fills all free slots
--     of the pool at once.
--   Feed: `precompute` of a peer server with a precomputation server, with what fails and with reads
--     that take too much; Feed.Sent puts it behind the worker of Transfers.
--   Producers: the threads of a peer server with an accelerator, as steps, with any interleaving, in
--     runs in which no thread has come to the second `mutex.unlock()` of `precompute`.
--   Center: CIP_PIR/CenterServer/RAID_pirCenterWorker.cpp, the end of the constructor and the threads
--     of a worker as steps between the places where they lock, with any interleaving and one thread of `transfer`.
--   Transfers: `transfer`, `sendTuple` and `setActive` there, with any number of threads and the writes
--     that `send` of CIP_PIR/CenterServer/CentralConnectionHandler.cpp starts.
--   Control: CIP_PIR/CenterServer/RAID_pirCenterServer.cpp,
--     CIP_PIR/CenterServer/CentralConnectionHandler.cpp, and `setActive`.
--   Connection: `conHandler::start` of CIP_PIR/PeerServer/ClientConnection.cpp.
--   Pipeline: the two threads of that connection under PIPELINE, with any interleaving; a load and a
--     store of `availableBytes += n` are two steps.
--   Client, Protocol: `handleSeed`, `runPIR` and `request` of CIP_PIR/Client/CIP_pirClient.cpp, and
--     one request with all servers, in any order of the client's threads. Protocol.Pools has servers that
--     draw from their pools, and in Protocol.System the center server has filled these.
--   Messages: the socket functions of CIP_PIR/Client/CIP_pirClient.cpp.
--   Lookup: `checkHash` and `readManifest` there; Lookup.Place and Lookup.Membership follow a search
--     through the manifest, the request and the block.
--   Curve: the curve and hash libraries, as an argument, and the functions of
--     CIP_PIR/Computation/helper.h that blind with them.
--   Entries, DbTool: database/createDatabase.cpp and database/manageDatabase.cpp.
--   Tests: small inputs.
--
-- Integers are natural numbers with the casts of the code written out. Fuel: `bits_to_represent`
-- halves a 64-bit number, so 64 rounds end it; `sendChunks` sends a byte or more in each round, so
-- the number of bytes is enough; `quicksort` places an entry in each call, so the number of entries
-- is enough; a launch of `compute` is of one block or more, so the number of seeds is enough;
-- `combineDest` halves its blocks, so their number is enough; the loop over a precomputation server's
-- messages fills a slot in each round; the inner loop of `count_0bits` shifts a byte, so eight rounds
-- end it; `getPrefix` takes a digit or more in each round, so their number is enough; the search of
-- `checkHash` has no bound in the code, and its fuel is an argument.
--
-- Not modelled: printing, timing and the command lines; the network library, of which reads and
-- writes are taken to be whole but where a file says otherwise; short reads of a file; `compress` and
-- `printPrefixBlockMapping`, on which nothing but prints depends; the benchmarks. The
-- crypto library's generator is an argument whose only law is that it gives bytes.
pub mod Accelerator
pub mod Base
pub mod Config
pub mod Connection
pub mod Control
pub mod Transfers
pub mod Curve
pub mod DbTool
pub mod Entries
pub mod Kernels
pub mod Lookup
pub mod Messages
pub mod Chunks
pub mod Walk
pub mod Tables
pub mod Center
pub mod Seeds
pub mod Batch
pub mod Feed
pub mod Pipeline
pub mod Producers
pub mod Server
pub mod Client
pub mod Protocol
pub mod Tests
