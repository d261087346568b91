-- ===== src/Coherence/Handover.antt =====
-- A client gives up a range of its file, and another client reads there (`revokePermission`, then
-- `readFile`; client/pfs_client.cpp, client/cache.cpp, file_server/file_server.cpp).
use pfs.Base.{
  ℕ, ◌+◌, ◌-◌, ◌*◌, ◌/◌, ◌%◌, ◌^◌, ◌≤◌, ◌<◌, ◌≡◌, refl, ap, ◌∙◌, Bool, true, ◌&&◌, some, List, [],
  ◌∷◌, arith, leb, ltb, String, if◌then◌else◌,
}
use pfs.Cache.{Cache, CacheBlock, done}
use pfs.Client.{PfsClient, file_at, find_descriptor, revoke}
use pfs.Client.Transfers.{load_block}
use pfs.Client.Descriptors.{find_descriptor-file_at}
use pfs.Client.Evictions.{evictions_cover}
use pfs.Client.Waits.{all_unlocked, all_unlocked-await_unlocked}
use pfs.Client.Revocations.{evict_blocks, revoke_file}
use pfs.Placement.{Servers}
use pfs.Placement.Io.{fetch_of}
use pfs.Placement.Bytes.{zeros, IsServed, byte_served}
use pfs.Coherence.{Store, replay, History, flush_blocks}
use pfs.Coherence.Evictions.{evict_blocks-replay}
use pfs.Coherence.Runs.{first_bytes, History-IsConsistent, load_block-History}

replay_same :
    (before before' : ℕ → ℕ) (ws : List Store) (x : ℕ)
    → before x ≡ before' x
    → replay before ws x ≡ replay before' ws x
replay_same before before' [] x same = same
replay_same before before' (w ∷ ws) x same =
    ap (λ v. if leb w.offset x && ltb x (w.offset + w.size) then w.source (x - w.offset) else v)
      (replay_same before before' ws x same)

module _ (std_hash : ℕ → ℕ) (p : PfsClient) (found_at filedes : ℕ) (memory : ℕ → CacheBlock)
    (start : Servers) (known : find_descriptor filedes p ≡ some found_at)
    (served : IsServed found_at p start) where
  -- What a client that gives up a range leaves: its call returns, no flush fails an assertion, and the
  -- servers then have the file.
  abbrev pub IsGivenUp : List Store → Servers → Cache → String → ℕ → ℕ → Type 0
  IsGivenUp ws ss c filename from to =
      (c' : Cache) × (flushed : List CacheBlock) × (ss' : Servers) × (revoke_file std_hash filename
          from to p c
        ≡ some ((revoke filename from to p).0, c', flushed))
      × (flush_blocks p flushed ss ≡ some ss')
      × History std_hash p found_at filedes memory start ws ss' c'
      × ((x : ℕ)
          → from ≤ x
          → x ≤ to
          → x < 2 ^ 31
          → byte_served found_at p ss' (x / 1024 * 1024) (x % 1024)
            ≡ replay (first_bytes p found_at start) ws x)

  pub revoke_file-IsGivenUp :
      (ws : List Store) (ss : Servers) (c : Cache) (filename : String) (from to : ℕ)
      → History std_hash p found_at filedes memory start ws ss c
      → (revoke filename from to p).1 ≡ some found_at
      → all_unlocked from to (file_at p found_at).permissions ≡ true
      → to + 1024 < 2 ^ 32
      → IsGivenUp ws ss c filename from to
  unfolding revoke_file
  revoke_file-IsGivenUp ws ss c filename from to h found free fits =
      let named : (file_at p found_at).descriptor ≡ filedes =
        find_descriptor-file_at filedes found_at p known in
      let waits = all_unlocked-await_unlocked 0 from to (file_at p found_at).permissions free in
      let (bs, run, covers) = evictions_cover from to fits in
      let (ss', sent, h', value) =
        evict_blocks-replay std_hash p found_at filedes memory start known served bs ws ss c h in
      (
        (evict_blocks std_hash filedes bs c).0,
        (evict_blocks std_hash filedes bs c).1,
        ss',
        rw (revoke_file, found, waits, run, named) refl,
        sent,
        h',
        λ x lo hi lt. value x lt (covers x lo hi),
      )

  -- A client gives up a range of which no token is locked: its call returns, and no flush fails an
  -- assertion. Whatever another
  -- client, with the same file open and a new cache, reads and writes then, a round of its `readFile`
  -- within the range returns, while it has two units of the semaphore, and has read what that client
  -- wrote there last, or else what the first one did, or else what the servers had before the first.
  -- Both have this one file open, their caches were new at first, the file's servers were in order,
  -- fresh memory is zero, the range ends a block or more below `2 ^ 32`, and reads are below `2 ^ 31`.
  pub revoke_file-load_block :
      (ws : List Store) (ss : Servers) (c : Cache) (filename : String) (from to : ℕ) (q : PfsClient)
      (index descriptor : ℕ)
      → History std_hash p found_at filedes memory start ws ss c
      → (revoke filename from to p).1 ≡ some found_at
      → all_unlocked from to (file_at p found_at).permissions ≡ true
      → to + 1024 < 2 ^ 32
      → find_descriptor descriptor q ≡ some index
      → (file_at q index).info.name ≡ (file_at p found_at).info.name
      → (file_at q index).info.strip_width ≡ (file_at p found_at).info.strip_width
      → (c' : Cache) × (flushed : List CacheBlock) × (given_up : Servers) × (revoke_file std_hash
            filename from to p c
          ≡ some ((revoke filename from to p).0, c', flushed))
        × (flush_blocks p flushed ss ≡ some given_up)
        × ((later : List Store) (now : Servers) (d : Cache) (addr : ℕ)
            → History std_hash q index descriptor memory given_up later now d
            → addr % 1024 ≡ 0
            → from ≤ addr
            → addr + 1024 ≤ to + 1
            → addr < 2 ^ 31
            → 2 ≤ d.free_block_semaphore
            → (d' : Cache) × (bytes : ℕ → ℕ) × (hit : Bool) × (load_block std_hash
                  (fetch_of index zeros now q)
                  descriptor
                  addr
                  d
                ≡ done (bytes, hit) d')
              × ((k : ℕ)
                  → k < 1024
                  → bytes k ≡ replay (replay (first_bytes p found_at start) ws) later (addr + k)))
  revoke_file-load_block ws ss c filename from to q index descriptor h found free fits known' name
        width =
      let (c', flushed, given_up, run, sent, h', value) =
        revoke_file-IsGivenUp ws ss c filename from to h found free fits in
      let con =
        History-IsConsistent std_hash p found_at filedes memory start known served ws given_up c'
          h' in
      let served' : IsServed index q given_up = rw (name, width) con.served in
      (
        c',
        flushed,
        given_up,
        run,
        sent,
        λ later now d addr h2 aligned lo hi small units.
            let (d', bytes, hit, read, _, _, what) =
              load_block-History std_hash q index descriptor memory given_up known' served' later
                now d h2 addr aligned small units in
            (
              d',
              bytes,
              hit,
              read,
              λ k lt.
                  let same : first_bytes q index given_up (addr + k)
                      ≡ first_bytes p found_at given_up (addr + k) =
                    rw (name, width) refl in
                  what k lt
                  ∙ replay_same (first_bytes q index given_up)
                      (replay (first_bytes p found_at start) ws) later (addr + k)
                      (same ∙ value (addr + k) (omega arith) (omega arith) (omega arith)),
            ),
      )
