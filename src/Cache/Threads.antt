-- ===== src/Cache/Threads.antt =====
-- The two threads of client/cache.cpp, its destructor, and `evictFile`. A loop takes its rounds as
-- fuel; `none` is a failed assertion, a null pointer, or the end of the fuel.
use pfs.Base.{
  ℕ, zero, suc, Bool, true, false, Option, none, some, List, [], ◌∷◌, ◌==◌, if◌then◌else◌,
}
use pfs.Cache.Links.{remove_lru}
use pfs.Cache.Table.{remove_from_hashmap}
use pfs.Cache.{
  Cache, CacheBlock, reset_dirty, change_block, add_to_recency_list, remove_from_recency_list,
  remove_from_dirty_list, add_to_free_list,
}

-- A flushed block in front of those of the later rounds.
abbrev cons_maybe : CacheBlock → Option (Cache × List CacheBlock) → Option (Cache × List CacheBlock)
cons_maybe b none = none
cons_maybe b (some (c, bs)) = some (c, b ∷ bs)

-- One round of `cacheFlusher`: the least recent dirty block is flushed, and goes to the recency list.
unfoldable pub flush_lru : Cache → Option (Cache × List CacheBlock)
flush_lru c = elim (remove_lru c.dirty_list) [
  | none ↦ none
  | some (none, rest) ↦ some (c, [])
  | some (some node, rest) ↦
      if (c.blocks node).clean
      then none
      else some (
        add_to_recency_list node (change_block node reset_dirty (record c { dirty_list = rest })),
        c.blocks node ∷ [],
      )
]

-- `cacheFlusher` from one sleep to the next: every block that it flushes goes to the recency list.
unfoldable pub cache_flusher : ℕ → Cache → Option (Cache × List CacheBlock)
cache_flusher zero c = none
cache_flusher (suc fuel) c = elim (remove_lru c.dirty_list) [
  | none ↦ none
  | some (none, rest) ↦ some (c, [])
  | some (some node, rest) ↦
      let later = cache_flusher fuel (
        add_to_recency_list node
          (change_block node reset_dirty (record c { dirty_list = rest }))) in
      if (c.blocks node).clean then none else cons_maybe (c.blocks node) later
]

-- `Cache::~Cache`: what is still dirty is flushed.
unfoldable pub flush_all : ℕ → Cache → Option (Cache × List CacheBlock)
flush_all zero c = none
flush_all (suc fuel) c = elim (remove_lru c.dirty_list) [
  | none ↦ none
  | some (none, rest) ↦ some (c, [])
  | some (some node, rest) ↦
      let later = flush_all fuel (record c { dirty_list = rest }) in
      if (c.blocks node).clean then none else cons_maybe (c.blocks node) later
]

-- The node that a round of `cacheHarvester` takes: the least recent clean one, or else the least
-- recent dirty one, and the lists without it.
unfoldable pub take_victim : Cache → Option (ℕ × Cache)
take_victim c = elim (remove_lru c.recency) [
  | none ↦ none
  | some (some node, rest) ↦ some (node, record c { recency = rest })
  | some (none, rest) ↦ elim (remove_lru c.dirty_list) [
    | none ↦ none
    | some (none, rest') ↦ none
    | some (some node, rest') ↦
        if (c.blocks node).clean
        then none
        else if (c.blocks node).valid
        then some (node, record c { dirty_list = rest' })
        else none
  ]
]

-- One round of `cacheHarvester`, and whether it goes on.
unfoldable pub harvest_one : Cache → Option (Cache × List CacheBlock × Bool)
harvest_one c = elim (take_victim c) [
  | none ↦ none
  | some (node, c1) ↦
      let c2 : Cache = record c1 {
        table = remove_from_hashmap (c1.bucket_id node) node c1.table;
      } in
      if (c.blocks node).clean
      then (let (c3, more) = add_to_free_list node c2 in some (c3, [], more))
      else (let (c3, more) = add_to_free_list node (change_block node reset_dirty c2) in
          some (c3, c.blocks node ∷ [], more))
]

-- The loop of `evictFile` over the dirty list, and the one over the recency list. A node stays in the
-- hash table. `none` is the end of the fuel.
unfoldable pub evict_dirty : ℕ → ℕ → Option ℕ → Cache → Option (Cache × List CacheBlock)
evict_dirty zero fdes start c = none
evict_dirty (suc fuel) fdes none c = some (c, [])
evict_dirty (suc fuel) fdes (some node) c =
    let behind = c.dirty_list.next node in
    elim ((c.blocks node).fdes == fdes) [
      | true ↦ cons_maybe (c.blocks node) (
          evict_dirty fuel fdes behind
            (add_to_free_list node
              (remove_from_dirty_list node (change_block node reset_dirty c))).0)
      | false ↦ evict_dirty fuel fdes behind c
    ]

unfoldable pub evict_recent : ℕ → ℕ → Option ℕ → Cache → Option Cache
evict_recent zero fdes start c = none
evict_recent (suc fuel) fdes none c = some c
evict_recent (suc fuel) fdes (some node) c =
    let behind = c.recency.next node in
    elim ((c.blocks node).fdes == fdes) [
      | true ↦
          evict_recent fuel fdes behind (add_to_free_list node (remove_from_recency_list node c)).0
      | false ↦ evict_recent fuel fdes behind c
    ]

-- `evictFile`, with a round for each node there is, and one more for each loop.
unfoldable pub evict_file : ℕ → Cache → Option (Cache × List CacheBlock)
unfolding evict_dirty evict_recent
evict_file fdes c = elim (evict_dirty 2049 fdes c.dirty_list.mru c) [
  | none ↦ none
  | some (c1, flushed) ↦ elim (evict_recent 2049 fdes c1.recency.mru c1) [
    | none ↦ none
    | some c2 ↦ some (c2, flushed)
  ]
]
