-- ===== src/Coherence/Runs.antt =====
-- Every run of a client over its caches and the file servers: what it reads is what was last written.
use pfs.Base.{
  ℕ, ◌+◌, ◌*◌, ◌/◌, ◌%◌, ◌^◌, ◌≤◌, ◌<◌, ◌≡◌, refl, sym, ◌∙◌, subst, inl, inr, Bool, false, none,
  some, List, [], ◌∷◌, arith, Option-cases,
}
use pfs.Cache.{Cache, CacheBlock, done, new_cache, lookup, evict_block}
use pfs.Cache.Invariant.{cached, lookup-some}
use pfs.Cache.Methods.{holds_block}
use pfs.Cache.Start.{new_shape, new_cache-IsCache, new_cache-free}
use pfs.Cache.Threads.{flush_lru, harvest_one}
use pfs.Client.{PfsClient, find_descriptor}
use pfs.Client.Transfers.{load_block, store_block}
use pfs.Client.Rounds.{load_block-done}
use pfs.Client.Writes.{store_block-done}
use pfs.Placement.{Servers}
use pfs.Placement.Io.{fetch_of}
use pfs.Placement.Bytes.{zeros, IsServed, byte_served, get_block-byte_served}
use pfs.Coherence.{
  Store, replay, History, starts, loads, stores, evicts, flushes, harvests, flush_blocks,
}
use pfs.Coherence.View.{view}
use pfs.Coherence.Changes.{IsConsistent}
use pfs.Coherence.Steps.{evict_block-Settles, flush_lru-Settles, harvest_one-Settles}
use pfs.Coherence.Rounds.{load_block-replay}
use pfs.Coherence.Stores.{store_block-replay}

-- The file as the servers have it.
abbrev pub first_bytes : PfsClient → ℕ → Servers → ℕ → ℕ
first_bytes p found_at start x = byte_served found_at p start (x / 1024 * 1024) (x % 1024)

nothing_cached : (node : ℕ) → cached new_shape node ≡ false
unfolding new_shape
nothing_cached node = refl

module _ (std_hash : ℕ → ℕ) (memory : ℕ → CacheBlock) where
  new_cache-holds_block : (f a : ℕ) → holds_block std_hash f a (new_cache memory) ≡ none
  unfolding holds_block
  new_cache-holds_block f a = elim (Option-cases (lookup std_hash f a (new_cache memory))) [
    | inl e ↦ rw (holds_block, e) refl
    | inr (node, e) ↦
        let (m, _, _) = lookup-some std_hash (new_cache-IsCache std_hash memory) f a node e in
        absurd (cc (m, nothing_cached node))
  ]

module _ (std_hash : ℕ → ℕ) (p : PfsClient) (found_at filedes : ℕ) (memory : ℕ → CacheBlock)
    (start : Servers) where
  -- A byte of the file as the client sees it: that of the cached block, or else of the servers.
  abbrev pub file_seen : Servers → Cache → ℕ → ℕ
  file_seen ss c x =
      view (holds_block std_hash filedes (x / 1024 * 1024) c)
        (byte_served found_at p ss (x / 1024 * 1024)) (x % 1024)

  -- What the client sees stays as it is.
  abbrev pub SeesSame : Servers → Cache → Servers → Cache → Type 0
  SeesSame ss c ss' c' = (x : ℕ) → x < 2 ^ 31 → file_seen ss' c' x ≡ file_seen ss c x

  abbrev Now : List Store → Servers → Cache → Type 0
  Now = IsConsistent std_hash p found_at filedes (first_bytes p found_at start)

  module _ (known : find_descriptor filedes p ≡ some found_at)
      (served : IsServed found_at p start) where
    start-IsConsistent : Now [] start (new_cache memory)
    start-IsConsistent =
        let gone = new_cache-holds_block std_hash memory in
        record {
          shape = new_shape;
          cache = new_cache-IsCache std_hash memory;
          roomy =
              omega (arith, (new_cache-free std_hash memory).0, (new_cache-free std_hash memory).1);
          served = served;
          mine = λ f a b h. absurd (cc (gone f a, h));
          coherent = λ a. rw (gone filedes a) tt;
          contents = λ x lt. rw (gone filedes (x / 1024 * 1024)) refl;
        }

    pub History-IsConsistent :
        (ws : List Store) (ss : Servers) (c : Cache)
        → History std_hash p found_at filedes memory start ws ss c
        → Now ws ss c
    History-IsConsistent _ _ _ starts = start-IsConsistent
    History-IsConsistent _ _ _ (loads {ws} {ss} {c} c' addr bytes hit h aligned fits run) =
        (load_block-replay std_hash p found_at filedes (first_bytes p found_at start)
          (History-IsConsistent ws ss c h) addr aligned fits c' bytes hit run).0
    History-IsConsistent _ _ _ (stores {ws} {ss} {c} c' w hit h within fits run) =
        store_block-replay std_hash p found_at filedes (first_bytes p found_at start) w within fits
          ws (History-IsConsistent ws ss c h) c' hit run
    History-IsConsistent _ _ _ (evicts {ws} {ss} {c} ss' addr h run) =
        let (ss1, run1, con) =
          evict_block-Settles std_hash p found_at filedes known (first_bytes p found_at start)
            (History-IsConsistent ws ss c h) addr in
        let same : ss1 ≡ ss' = cc (run1, run) in
        subst (λ s. Now ws s (evict_block std_hash filedes addr c).0) same con
    History-IsConsistent _ _ _ (flushes {ws} {ss} {c} ss' c' flushed h step run) =
        let (ss1, run1, con) =
          flush_lru-Settles std_hash p found_at filedes known (first_bytes p found_at start)
            (History-IsConsistent ws ss c h) c' flushed step in
        let same : ss1 ≡ ss' = cc (run1, run) in subst (λ s. Now ws s c') same con
    History-IsConsistent _ _ _ (harvests {ws} {ss} {c} ss' c' flushed more h step run) =
        let (ss1, run1, con) =
          harvest_one-Settles std_hash p found_at filedes known (first_bytes p found_at start)
            (History-IsConsistent ws ss c h) c' flushed more step in
        let same : ss1 ≡ ss' = cc (run1, run) in subst (λ s. Now ws s c') same con

    module _ (ws : List Store) (ss : Servers) (c : Cache)
        (h : History std_hash p found_at filedes memory start ws ss c) where
      con : Now ws ss c
      con = History-IsConsistent ws ss c h

      sees_same : {ss' : Servers} {c' : Cache} → Now ws ss' c' → SeesSame ss c ss' c'
      sees_same now x lt = now.contents x lt ∙ sym (con.contents x lt)

      -- While two units of the semaphore are left, a round of `readFile` returns, and what it has read of
      -- the file is what was written there last, or else what the servers had at first: whatever rounds of
      -- `readFile`, `writeFile` and of the cache's threads and whatever evictions came before, in any
      -- order. The client has this one file open, its cache was new at first, the file's servers were in
      -- order, fresh memory is zero, and addresses are below `2 ^ 31`.
      pub load_block-History :
          (addr : ℕ)
          → addr % 1024 ≡ 0
          → addr < 2 ^ 31
          → 2 ≤ c.free_block_semaphore
          → (c' : Cache) × (bytes : ℕ → ℕ) × (hit : Bool) × (load_block std_hash
                (fetch_of found_at zeros ss p)
                filedes
                addr
                c
              ≡ done (bytes, hit) c')
            × History std_hash p found_at filedes memory start ws ss c'
            × (c.free_block_semaphore ≤ c'.free_block_semaphore + 2)
            × ((k : ℕ) → k < 1024 → bytes k ≡ replay (first_bytes p found_at start) ws (addr + k))
      load_block-History addr aligned fits units =
          let (out, got, _) = get_block-byte_served found_at p ss addr con.served aligned fits in
          let (c', bytes, hit, run, (_, _, spent, _), _, _) =
            load_block-done std_hash (fetch_of found_at zeros ss p) filedes addr out con.shape c
              con.cache aligned got units (omega (arith, con.roomy)) in
          let (_, value, _) =
            load_block-replay std_hash p found_at filedes (first_bytes p found_at start) con addr
              aligned fits c' bytes hit run in
          (c', bytes, hit, run, loads c' addr bytes hit h aligned fits run, omega arith, value)

      -- While two units of the semaphore are left, a round of `writeFile` returns, and the file is then as
      -- before but for the bytes written.
      pub store_block-History :
          (w : Store)
          → w.offset % 1024 + w.size ≤ 1024
          → w.offset < 2 ^ 31
          → 2 ≤ c.free_block_semaphore
          → (c' : Cache) × (hit : Bool) × (store_block std_hash
                (fetch_of found_at zeros ss p)
                filedes
                (w.offset / 1024 * 1024)
                w.offset
                w.size
                w.source
                c
              ≡ done hit c')
            × History std_hash p found_at filedes memory start (w ∷ ws) ss c'
            × (c.free_block_semaphore ≤ c'.free_block_semaphore + 2)
      store_block-History w within fits units =
          let (out, got, _) =
            get_block-byte_served found_at p ss (w.offset / 1024 * 1024) con.served (omega arith)
              (omega arith) in
          let (c', hit, run, (_, _, spent, _), _) =
            store_block-done std_hash (fetch_of found_at zeros ss p) filedes w.offset w.size
              w.source out con.shape c con.cache got units (omega (arith, con.roomy)) in
          (c', hit, run, stores c' w hit h within fits run, omega arith)

      -- At any point of a run of rounds of `readFile`, `writeFile` and of the cache's threads and of
      -- evictions, no flush of a round of the threads or of an eviction fails an assertion; the state after
      -- it belongs to such a run again, and each byte of the file below `2 ^ 31` is what the client saw
      -- before it: that of the cached block, or else of the servers. The client has this one file open, its
      -- cache was new at first, the file's servers were in order, fresh memory is zero, and the run's
      -- addresses are below `2 ^ 31`.
      pub flush_blocks-History :
          ((c' : Cache) (flushed : List CacheBlock)
            → flush_lru c ≡ some (c', flushed)
            → (ss' : Servers) × (flush_blocks p flushed ss ≡ some ss')
              × History std_hash p found_at filedes memory start ws ss' c'
              × SeesSame ss c ss' c')
          × ((c' : Cache) (flushed : List CacheBlock) (more : Bool)
              → harvest_one c ≡ some (c', flushed, more)
              → (ss' : Servers) × (flush_blocks p flushed ss ≡ some ss')
                × History std_hash p found_at filedes memory start ws ss' c'
                × SeesSame ss c ss' c')
          × ((addr : ℕ)
              → (ss' : Servers) × (flush_blocks p (evict_block std_hash filedes addr c).1 ss
                  ≡ some ss')
                × History std_hash p found_at filedes memory start ws ss'
                    (evict_block std_hash filedes addr c).0
                × SeesSame ss c ss' (evict_block std_hash filedes addr c).0)
      flush_blocks-History = (
        λ c' flushed step.
            let (ss', run, now) =
              flush_lru-Settles std_hash p found_at filedes known (first_bytes p found_at start) con
                c' flushed step in
            (ss', run, flushes ss' c' flushed h step run, sees_same now),
        λ c' flushed more step.
            let (ss', run, now) =
              harvest_one-Settles std_hash p found_at filedes known (first_bytes p found_at start)
                con c' flushed more step in
            (ss', run, harvests ss' c' flushed more h step run, sees_same now),
        λ addr.
            let (ss', run, now) =
              evict_block-Settles std_hash p found_at filedes known (first_bytes p found_at start)
                con addr in
            (ss', run, evicts ss' addr h run, sees_same now),
      )

      -- Of a block that is not cached the servers have the bytes of the file.
      pub missing-byte_served :
          (x : ℕ)
          → x < 2 ^ 31
          → holds_block std_hash filedes (x / 1024 * 1024) c ≡ none
          → byte_served found_at p ss (x / 1024 * 1024) (x % 1024)
            ≡ replay (first_bytes p found_at start) ws x
      missing-byte_served x lt gone =
          subst
            (λ o.
              view o (byte_served found_at p ss (x / 1024 * 1024)) (x % 1024)
              ≡ replay (first_bytes p found_at start) ws x)
            gone (con.contents x lt)
