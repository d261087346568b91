-- ===== src/Coherence/Stale.antt =====
-- A block that is read twice: `readFile` looks in the cache first, and not whether other clients have
-- written since (client/pfs_client.cpp, client/cache.cpp).
use pfs.Base.{ℕ, ◌+◌, ◌%◌, ◌^◌, ◌<◌, ◌≡◌, sym, ◌∙◌, Bool, true, some, List}
use pfs.Cache
use pfs.Cache.{Cache, CacheBlock, done}
use pfs.Cache.Methods.{holds_block}
use pfs.Client.{PfsClient, find_descriptor}
use pfs.Client.Transfers.{load_block}
use pfs.Client.Rounds.{held_lookup, load_hit}
use pfs.Placement.{Servers}
use pfs.Placement.Io.{fetch_of}
use pfs.Placement.Bytes.{zeros, IsServed}
use pfs.Coherence.{Store, replay, History, loads}
use pfs.Coherence.Rounds.{load_block-replay}
use pfs.Coherence.Runs.{first_bytes, History-IsConsistent}

module _ (std_hash : ℕ → ℕ) (p : PfsClient) (found_at filedes : ℕ) (memory : ℕ → CacheBlock)
    (start : Servers) (known : find_descriptor filedes p ≡ some found_at)
    (served : IsServed found_at p start) (addr : ℕ) (aligned : addr % 1024 ≡ 0)
    (fits : addr < 2 ^ 31) (ws : List Store) (ss : Servers) where
  -- A cached block is read as the client last saw it.
  load_block_cached :
      (c : Cache) (b : CacheBlock) (others : Servers)
      → History std_hash p found_at filedes memory start ws ss c
      → holds_block std_hash filedes addr c ≡ some b
      → (c' : Cache) × (bytes : ℕ → ℕ) × (load_block std_hash
            (fetch_of found_at zeros others p)
            filedes
            addr
            c
          ≡ done (bytes, true) c')
        × ((k : ℕ) → k < 1024 → bytes k ≡ replay (first_bytes p found_at start) ws (addr + k))
  load_block_cached c b others h held =
      let con =
        History-IsConsistent std_hash p found_at filedes memory start known served ws ss c h in
      let (node, e) = held_lookup std_hash filedes addr c b held in
      let here = load_hit std_hash (fetch_of found_at zeros ss p) filedes addr c node e in
      let c' : Cache = (Cache.read_block std_hash filedes addr c).0 in
      let (_, value, _) =
        load_block-replay std_hash p found_at filedes (first_bytes p found_at start) con addr
          aligned fits c' (c.blocks node).bytes true here in
      (
        c',
        (c.blocks node).bytes,
        load_hit std_hash (fetch_of found_at zeros others p) filedes addr c node e,
        value,
      )

  -- A round of `readFile` that comes right after one of the same block at an address below `2 ^ 31`, with
  -- no other step of the client or of its threads between, reads it out of the cache, with the bytes that
  -- the first one had, whatever other clients have flushed to the servers meanwhile. The client has this
  -- one file open, its cache was new at first, the file's servers were in order, and fresh memory is zero.
  pub load_block-load_block :
      (c c' : Cache) (bytes : ℕ → ℕ) (hit : Bool) (others : Servers)
      → History std_hash p found_at filedes memory start ws ss c
      → load_block std_hash (fetch_of found_at zeros ss p) filedes addr c ≡ done (bytes, hit) c'
      → (c2 : Cache) × (again : ℕ → ℕ) × (load_block std_hash
            (fetch_of found_at zeros others p)
            filedes
            addr
            c'
          ≡ done (again, true) c2)
        × ((k : ℕ) → k < 1024 → again k ≡ bytes k)
  load_block-load_block c c' bytes hit others h run =
      let con =
        History-IsConsistent std_hash p found_at filedes memory start known served ws ss c h in
      let (_, value, (b, held)) =
        load_block-replay std_hash p found_at filedes (first_bytes p found_at start) con addr
          aligned fits c' bytes hit run in
      let (c2, again, run2, value2) =
        load_block_cached c' b others (loads c' addr bytes hit h aligned fits run) held in
      (c2, again, run2, λ k small. value2 k small ∙ sym (value k small))
