-- ===== src/Lib.antt =====
-- PFS: a parallel file system of a metadata manager, five file servers and clients, which speak gRPC.
-- A file is striped block by block over the file servers. The metadata manager hands out tokens for
-- ranges of bytes, so that clients may cache blocks and write them back later.
--
-- How the parts interact. A client opens a file at the metadata manager and learns its stripe width.
-- Before a read or a write it asks for a token, unless it holds one; the metadata manager takes the
-- range away from the other clients that stand in the way, each of which writes its blocks back, and
-- enters the token in its own vector for the client. The client enters it in its vector too. Blocks go
-- to and from the file server that keeps their strip.
--
-- Files:
--   Base, Base/*       Names of the libraries, Boolean tests on numbers, vectors by position,
--                      string maps (`std::unordered_map`), `int` as a 32-bit pattern.
--   Config             include/config.h, include/util.h, common/util.cpp.
--   Permission         include/permission.h, common/permission.cpp: one token.
--   File               common/file.cpp: `hasPermission`, `addPermission`, `revokePermission` are
--                      has_permission, add_permission and revoke_permission; the parts of their
--                      bodies are definitions of their own. File/Cover says which bytes a vector
--                      grants, and the other files below it are about one operation each.
--   MmFile             metadata_manager/mm_file.cpp: the vectors of all clients of a file.
--                      `waitAndGetPermissionFor` is wait_and_get_permission_for. MmFile/Reach has
--                      the steps of a file's life; MmFile/Mirror the same with the vectors that the
--                      clients keep, and File/Bare what `addPermission` does without the locks.
--   Manager            metadata_manager/metadata_manager.cpp: the requests `ClientStart`,
--                      `CreateFile`, `OpenFile`, `CloseFile`, `DeleteFile`, `GetPermission` and
--                      `GetFileDesc`.
--   FileServer         file_server/file_server.cpp, file_server/fs_file.cpp: `CreateFile`, `ReadFile`,
--                      `WriteFile`, `ReadBlock` and `WriteBlock` over a disk of strips.
--   Placement          The stripe requests of `CreateFile` as the servers take them; below it the
--                      block requests of a client, and its `flush` and `getBlockFromFileServer`.
--                      Placement/Io has `readFile` and `writeFile`, once the token is held.
--                      Placement/Negative has the addresses that a server reads as negative.
--   Client             client/pfs_client.cpp, client/client_file.cpp, client/client_service.cpp.
--                      Client/Transfers has the loops of `readFile` and `writeFile`, Client/Revocations
--                      `revokePermission`, with its wait, and the evictions of `closeFile`,
--                      Client/Stats `getFileStat`.
--   Cache              client/cache.cpp, client/cache_block.cpp, client/cache_block_metadata.cpp and
--                      their headers. Cache/Links has the recency list and the dirty list as pointers,
--                      Cache/Table the hash table and the free list, Cache/Threads the harvester, the
--                      flusher and the destructor. Cache/Invariant says which lists a state stands for;
--                      `holds_block` of Cache/Methods is the cache as a map from descriptors and
--                      addresses to blocks. Cache/Reach has the steps of a cache's life.
--   Coherence          A client's open file over its cache and the file servers: the rounds of `readFile`
--                      and `writeFile`, the evictions and the rounds of the cache's threads, each with
--                      the flushes that it causes, in any order (History). replay is the file as an
--                      array of bytes, and byte_served (Placement/Bytes) what the servers have of it.
--                      Coherence/Handover has a client that gives up a range, and one that reads there;
--                      Coherence/Close the evictions of `closeFile`, Coherence/Stale a second read.
--   Tests              Runs at concrete inputs.
--
-- Numbers. A `uint32_t` is a number below 2 ^ 32, and sums that may pass it are reduced. `int`
-- copies of a bound keep the bit pattern, and i32_lt compares two as `int`s. The addresses of a file
-- server's requests are `int`s: units divides such a pattern, with the quotient cut off towards 0, and
-- sums that overflow wrap around. The loop of a read or a write takes one round for each
-- part of a block, and a round for each byte is fuel enough; the loop that evicts a range takes
-- `end / 1024 + 2` rounds at most. The loops of `readFile` and `writeFile` in Client/Transfers take a
-- round for each block of the range. A walk along a bucket takes a round for each of the 2048 nodes, and
-- a pass of the flusher a round for each dirty block and one more.
--
-- Locks. `CreateFile`, `OpenFile`, `DeleteFile` and `GetFileDesc` hold `filesLock` of the metadata
-- manager from start to end. `GetPermission` gives it back between its test and the grant: get_permission
-- takes the manager as it is at each. `CloseFile` gives it back after the look-up, and close_file shows it
-- with no other request in between. The mutex of a file is held through a method of MMFile. The lock of a file server is part of its state. The
-- locks of single permissions are the field `locked`, and the semaphores of those who wait for them
-- are numbers; Client/Waits has the unlocks of a client as steps. To lock a token that is locked already
-- returns at once here. `cacheLock` is held through a method of the cache, which is one step; so is a round
-- of the harvester or the flusher, which give it back after each block, and `addBlock` with the free node that it takes first. A block that is flushed is a result of the step.
--
-- Runs. In Coherence a client has one file open and its record stays as it is: only the descriptor, the
-- name and the stripe width are read there. A step is a round of a loop, for one block, with the
-- flushes that the cache causes in it, and the memory that a server reads a block into is zero. In
-- MmFile/Mirror the metadata manager's part of a request for a range, with the revocations that it
-- sends, is one step, and the client's entry of the reply another; so are the two parts of `closeFile`.
--
-- Not modelled: the sleeps of the two threads of the cache, the mutex of a single permission, the
-- start-up and the end of a client, the transport, the generated messages, the main programs and the
-- wrappers of client/pfs.cpp. A `std::hash` is an argument of hash_pfs. `time(0)` and the bytes that
-- fresh memory holds are arguments.
pub mod Base
pub mod Config
pub mod Permission
pub mod File
pub mod MmFile
pub mod Manager
pub mod FileServer
pub mod Placement
pub mod Client
pub mod Coherence
pub mod Cache
pub mod Tests
