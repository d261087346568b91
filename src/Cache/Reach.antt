-- ===== src/Cache/Reach.antt =====
-- The states that a client's cache can come to: the methods that the client calls and the rounds of
-- the two threads, in any order. Each is run under `cacheLock` as a whole: a round is the part of
-- `cacheFlusher` or `harvester` between two releases of it. A block is only added where `readBlock` has
-- just failed (client/pfs_client.cpp). `evictFile`, which nothing calls, is not among the steps.
use pfs.Base.{
  ℕ, suc, ◌+◌, ◌*◌, ◌%◌, ◌≤◌, ◌<◌, ◌≡◌, refl, [], Option-cases, ap, subst, ◌∙◌, inl, inr, Bool,
  none, some, List, arith, length, ltb, Bool-cases,
}
use pfs.Cache.Invariant.{Shape, IsCache, length-le}
use pfs.Cache.Methods.{KeepsFree}
use pfs.Cache.Reads.{read_block-holds_block, write-holds_block}
use pfs.Cache.Evictions.{evict_block-holds_block}
use pfs.Cache.Additions.{add_block-blocked, add_block-holds_block}
use pfs.Cache.Order.{last}
use pfs.Cache.Threads.{flush_lru, harvest_one}
use pfs.Cache.Flushed.{flush_lru-holds_block}
use pfs.Cache.Harvester.{harvest_one-KeepsFree}
use pfs.Cache.Start.{new_shape, new_cache-IsCache, new_cache-free}
use pfs.Cache.{
  Cache, CacheBlock, done, blocked, new_cache, lookup, read_block, write, add_block, evict_block,
}

-- `Reach std_hash memory n c`: the cache can come to `c` with `n` blocks added.
pub data Reach (std_hash : ℕ → ℕ) (memory : ℕ → CacheBlock) : ℕ → Cache → Type 0 where
  starts : Reach std_hash memory 0 (new_cache memory)
  reads :
      {n : ℕ} {c : Cache} (fdes addr : ℕ)
      → Reach std_hash memory n c
      → Reach std_hash memory n (read_block std_hash fdes addr c).0
  writes :
      {n : ℕ} {c : Cache} (fdes offset size : ℕ) (source : ℕ → ℕ)
      → Reach std_hash memory n c
      → Reach std_hash memory n (write std_hash fdes offset size source c).0
  adds :
      {n : ℕ} {c : Cache} (c' : Cache) (fdes addr : ℕ) (source : ℕ → ℕ)
      → Reach std_hash memory n c
      → addr % 1024 ≡ 0
      → lookup std_hash fdes addr c ≡ none
      → add_block std_hash fdes addr source c ≡ done tt c'
      → Reach std_hash memory (suc n) c'
  evicts :
      {n : ℕ} {c : Cache} (fdes addr : ℕ)
      → Reach std_hash memory n c
      → Reach std_hash memory n (evict_block std_hash fdes addr c).0
  flushes :
      {n : ℕ} {c : Cache} (c' : Cache) (flushed : List CacheBlock)
      → Reach std_hash memory n c
      → flush_lru c ≡ some (c', flushed)
      → Reach std_hash memory n c'
  harvests :
      {n : ℕ} {c : Cache} (c' : Cache) (flushed : List CacheBlock) (more : Bool)
      → Reach std_hash memory n c
      → harvest_one c ≡ some (c', flushed, more)
      → Reach std_hash memory n c'

-- The invariant, with two units of the semaphore gone for each block that was added, and no more than
-- a node.
abbrev pub IsReached : (std_hash : ℕ → ℕ) → ℕ → Cache → Type 0
IsReached std_hash n c =
    (g : Shape) × IsCache std_hash g c
    × (c.free_block_semaphore + 2 * n ≡ 2048)
    × (2048 ≤ length g.free + n)

kept-IsReached :
    (std_hash : ℕ → ℕ) (n : ℕ) (g : Shape) (c c' : Cache)
    → c.free_block_semaphore + 2 * n ≡ 2048
    → 2048 ≤ length g.free + n
    → ((g' : Shape) × IsCache std_hash g' c' × KeepsFree g c g' c')
    → IsReached std_hash n c'
kept-IsReached std_hash n g c c' units free (g', i, (kept, more)) =
    (g', i, ap (λ k. k + 2 * n) kept ∙ units, omega arith)

flush_lru-KeepsFree :
    (std_hash : ℕ → ℕ) (g : Shape) (c c' : Cache) (flushed : List CacheBlock)
    → IsCache std_hash g c
    → flush_lru c ≡ some (c', flushed)
    → (g' : Shape) × IsCache std_hash g' c' × KeepsFree g c g' c'
flush_lru-KeepsFree std_hash g c c' flushed i run =
    let (some_case, none_case) = flush_lru-holds_block std_hash g c i in
    elim (Option-cases (last g.dirty)) [
      | inl e ↦
          let kept : (g' : Shape) × IsCache std_hash g' c × KeepsFree g c g' c =
            (g, i, (refl, omega arith)) in
          let same : (c, []) ≡ (c', flushed) = cc (none_case e, run) in
          let still : c ≡ c' = ap (λ (r : Cache × List CacheBlock). r.0) same in
          subst (λ c2. (g' : Shape) × IsCache std_hash g' c2 × KeepsFree g c g' c2) still kept
      | inr (node, e) ↦
          let (c1, (run1, _, _, kept, _)) = some_case node e in
          let same : c1 ≡ c' = cc (run1, run) in
          subst (λ c2. (g' : Shape) × IsCache std_hash g' c2 × KeepsFree g c g' c2) same kept
    ]

-- So 2049 rounds of the flusher are enough.
pub dirty-few :
    (std_hash : ℕ → ℕ) (g : Shape) (c : Cache) → IsCache std_hash g c → length g.dirty < 2049
dirty-few std_hash g c i =
    let few = length-le 2048 g.dirty i.dirty.distinct (λ a m. i.known a (ground arith)) in
    omega arith

-- After any sequence of the methods that the client calls and of rounds of the two threads, the
-- invariant holds, two units of `freeBlockSemaphore` are gone for each block that was added, and at most
-- one node. The cache was new at first, and a block is only added where it is not cached; `evictFile`,
-- which nothing calls, is not among the methods.
pub Reach-IsReached :
    (std_hash : ℕ → ℕ) (memory : ℕ → CacheBlock) (n : ℕ) (c : Cache)
    → Reach std_hash memory n c
    → IsReached std_hash n c
Reach-IsReached std_hash memory _ _ starts =
    let (units, free) = new_cache-free std_hash memory in
    (new_shape, new_cache-IsCache std_hash memory, omega (arith, units), omega (arith, free))
Reach-IsReached std_hash memory _ _ (reads {n} {c} fdes addr r) =
    let (g, i, units, free) = Reach-IsReached std_hash memory n c r in
    kept-IsReached std_hash n g c (read_block std_hash fdes addr c).0 units free
      (read_block-holds_block std_hash i fdes addr).1
Reach-IsReached std_hash memory _ _ (writes {n} {c} fdes offset size source r) =
    let (g, i, units, free) = Reach-IsReached std_hash memory n c r in
    kept-IsReached std_hash n g c (write std_hash fdes offset size source c).0 units free
      (write-holds_block std_hash i fdes offset size source).1
Reach-IsReached std_hash memory _ _ (adds {n} {c} c' fdes addr source r aligned miss run) =
    let (g, i, units, free) = Reach-IsReached std_hash memory n c r in
    elim (Bool-cases (ltb c.free_block_semaphore 2)) [
      | inl few ↦
          absurd (cc (add_block-blocked std_hash fdes addr source c aligned (ground arith), run))
      | inr enough ↦
          let (c1, b, run1, spent, (g', i', fewer), held, clean, same_bytes) =
            add_block-holds_block std_hash g c fdes addr source i aligned miss (ground arith)
              (ground arith) in
          let same : c1 ≡ c' = cc (run1, run) in
          (g', subst (IsCache std_hash g') same i', rw (← same) (omega arith), omega arith)
    ]
Reach-IsReached std_hash memory _ _ (evicts {n} {c} fdes addr r) =
    let (g, i, units, free) = Reach-IsReached std_hash memory n c r in
    kept-IsReached std_hash n g c (evict_block std_hash fdes addr c).0 units free
      (evict_block-holds_block std_hash g c fdes addr i).1
Reach-IsReached std_hash memory _ _ (flushes {n} {c} c' flushed r run) =
    let (g, i, units, free) = Reach-IsReached std_hash memory n c r in
    kept-IsReached std_hash n g c c' units free (flush_lru-KeepsFree std_hash g c c' flushed i run)
Reach-IsReached std_hash memory _ _ (harvests {n} {c} c' flushed more r run) =
    let (g, i, units, free) = Reach-IsReached std_hash memory n c r in
    kept-IsReached std_hash n g c c' units free
      (harvest_one-KeepsFree std_hash g c c' flushed more i run)

-- A cache adds 1024 blocks in its life, though it has 2048 and however many were evicted since: for
-- the address of a block that is not cached `addBlock` succeeds before that, and then waits for ever.
pub add_block-Reach :
    (std_hash : ℕ → ℕ) (memory : ℕ → CacheBlock) (n : ℕ) (c : Cache) (fdes addr : ℕ)
    (source : ℕ → ℕ)
    → Reach std_hash memory n c
    → addr % 1024 ≡ 0
    → lookup std_hash fdes addr c ≡ none
    → (n ≤ 1024)
      × (n < 1024 → (c' : Cache) × (add_block std_hash fdes addr source c ≡ done tt c'))
      × (n ≡ 1024 → add_block std_hash fdes addr source c ≡ blocked)
add_block-Reach std_hash memory n c fdes addr source r aligned miss =
    let (g, i, units, free) = Reach-IsReached std_hash memory n c r in
    (
      omega arith,
      λ few.
          (let (c', b, run, spent, kept, held, clean, same) =
              add_block-holds_block std_hash g c fdes addr source i aligned miss (omega arith)
                (omega arith) in
            (c', run)),
      λ all. add_block-blocked std_hash fdes addr source c aligned (omega arith),
    )
