-- ===== src/Coherence.antt =====
-- A client's open file as the caches and the file servers hold it: the steps of readFile, writeFile,
-- revokePermission and of the cache's threads, with the flushes that they cause
-- (client/pfs_client.cpp, client/cache.cpp, file_server/file_server.cpp), in any order.
pub mod View
pub mod Held
pub mod Changes
pub mod Steps
pub mod Rounds
pub mod Stores
pub mod Runs
pub mod Evictions
pub mod Handover
pub mod Close
pub mod Stale
use pfs.Base.{
  ℕ, zero, suc, ◌+◌, ◌*◌, ◌/◌, ◌%◌, ◌^◌, ◌≤◌, ◌<◌, ◌-◌, ◌≡◌, Bool, true, false, ◌&&◌, Option, none,
  some, List, [], ◌∷◌, leb, ltb, if◌then◌else◌,
}
use pfs.Config.{pfs_block_size_in_bytes}
use pfs.Cache.{Cache, CacheBlock, Run, done, new_cache, evict_block}
use pfs.Cache.Threads.{flush_lru, harvest_one}
use pfs.Client.{PfsClient}
use pfs.Client.Transfers.{part, load_block, store_block}
use pfs.Placement.{Servers}
use pfs.Placement.Flush.{flush}
use pfs.Placement.Io.{fetch_of}
use pfs.Placement.Bytes.{zeros, byte_served}

-- `PFSClient::flush` for each block that a step of the cache gives to it; `none` is a failed assertion.
unfoldable pub flush_blocks : PfsClient → List CacheBlock → Servers → Option Servers
flush_blocks p [] ss = some ss
flush_blocks p (b ∷ bs) ss =
    let sent = flush b.fdes b.addr (part b.bytes 0 pfs_block_size_in_bytes) b.dirty p ss in
    elim b.clean [
      | true ↦ none
      | false ↦ elim sent [ none ↦ none | some ss' ↦ flush_blocks p bs ss' ]
    ]

-- A write of a part of one block.
pub record Store : Type 0 where
  pub offset : ℕ
  pub size : ℕ
  pub source : ℕ → ℕ

-- A file as an array of bytes: what it holds after the writes, the last one first.
abbrev pub replay : (ℕ → ℕ) → List Store → ℕ → ℕ
replay initial [] x = initial x
replay initial (w ∷ ws) x =
    let before = replay initial ws x in
    if leb w.offset x && ltb x (w.offset + w.size) then w.source (x - w.offset) else before

module _ (std_hash : ℕ → ℕ) (p : PfsClient) (found_at filedes : ℕ) (memory : ℕ → CacheBlock)
    (start : Servers) where
  -- What a client with one open file and the file's servers can come to, with the writes so far. Fresh
  -- memory is zero.
  pub data History : List Store → Servers → Cache → Type 0 where
    starts : History [] start (new_cache memory)
    -- A round of `readFile`.
    loads :
        {ws : List Store} {ss : Servers} {c : Cache} (c' : Cache) (addr : ℕ) (bytes : ℕ → ℕ)
        (hit : Bool)
        → History ws ss c
        → addr % 1024 ≡ 0
        → addr < 2 ^ 31
        → load_block std_hash (fetch_of found_at zeros ss p) filedes addr c ≡ done (bytes, hit) c'
        → History ws ss c'
    -- A round of `writeFile`.
    stores :
        {ws : List Store} {ss : Servers} {c : Cache} (c' : Cache) (w : Store) (hit : Bool)
        → History ws ss c
        → w.offset % 1024 + w.size ≤ 1024
        → w.offset < 2 ^ 31
        → store_block std_hash
            (fetch_of found_at zeros ss p)
            filedes
            (w.offset / 1024 * 1024)
            w.offset
            w.size
            w.source
            c
          ≡ done hit c'
        → History (w ∷ ws) ss c'
    -- A range is given up, or the file is closed.
    evicts :
        {ws : List Store} {ss : Servers} {c : Cache} (ss' : Servers) (addr : ℕ)
        → History ws ss c
        → flush_blocks p (evict_block std_hash filedes addr c).1 ss ≡ some ss'
        → History ws ss' (evict_block std_hash filedes addr c).0
    -- A round of `cacheFlusher`.
    flushes :
        {ws : List Store} {ss : Servers} {c : Cache} (ss' : Servers) (c' : Cache)
        (flushed : List CacheBlock)
        → History ws ss c
        → flush_lru c ≡ some (c', flushed)
        → flush_blocks p flushed ss ≡ some ss'
        → History ws ss' c'
    -- A round of `cacheHarvester`.
    harvests :
        {ws : List Store} {ss : Servers} {c : Cache} (ss' : Servers) (c' : Cache)
        (flushed : List CacheBlock) (more : Bool)
        → History ws ss c
        → harvest_one c ≡ some (c', flushed, more)
        → flush_blocks p flushed ss ≡ some ss'
        → History ws ss' c'
