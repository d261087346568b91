-- ===== src/Cache.antt =====
-- client/cache.cpp, client/cache_block.cpp and client/cache_block_metadata.cpp: the cache of a
-- client. A `CacheBlockMetadata` and its block are named by a number below `block_count`. Every
-- method holds `cacheLock`, so a method is one step; `addBlock` takes a free node under another lock
-- first, and is one step too. The blocks that a method gives to `PFSClient::flush` are its result,
-- in order. A loop that walks a list takes fuel.
pub mod Order
pub mod Links
pub mod Table
pub mod Threads
pub mod Chains
pub mod Invariant
pub mod Changes
pub mod Methods
pub mod Hits
pub mod Reads
pub mod Resets
pub mod Evictions
pub mod Additions
pub mod Ends
pub mod Flushed
pub mod Flusher
pub mod Harvester
pub mod Start
pub mod Reach
use pfs.Base.{
  ℕ, zero, suc, ◌+◌, ◌-◌, ◌*◌, ◌/◌, ◌%◌, ◌^◌, Bool, true, false, ◌&&◌, Option, none, some, List, [],
  ◌∷◌, ltb, leb, ◌==◌, if◌then◌else◌,
}
use pfs.Config.{pfs_block_size_in_bytes, client_cache_size_in_bytes, hash_pfs}
use pfs.Cache.Links.{LinkedList, assign, add_to, remove_from, remove_lru}
use pfs.Cache.Table.{
  HashTable, FreeList, add_to_hashmap, remove_from_hashmap, add_free, take_free, initial_free,
}

-- `CacheBlock`; the two arrays have `pfs_block_size_in_bytes` entries.
pub record CacheBlock : Type 0 where
  pub fdes : ℕ
  pub addr : ℕ
  pub dirty : ℕ → Bool
  pub clean : Bool
  pub valid : Bool
  pub bytes : ℕ → ℕ

abbrev pub no_dirty : ℕ → Bool
no_dirty i = false

abbrev pub reset : CacheBlock → CacheBlock
reset b = record b { valid = false; dirty = no_dirty; clean = true }

abbrev pub reset_dirty : CacheBlock → CacheBlock
reset_dirty b = record b { dirty = no_dirty; clean = true }

pub record Cache : Type 0 where
  pub blocks : ℕ → CacheBlock
  pub bucket_id : ℕ → ℕ
  pub recency : LinkedList
  pub dirty_list : LinkedList
  pub table : HashTable
  pub free_list : FreeList
  pub free_block_count : ℕ
  pub free_block_semaphore : ℕ
  pub harvester_semaphore : ℕ

abbrev pub block_count : ℕ
block_count = client_cache_size_in_bytes / pfs_block_size_in_bytes

-- `-1` as a `uint32_t`
abbrev pub no_bucket : ℕ
no_bucket = 2 ^ 32 - 1

abbrev pub no_links : LinkedList
no_links = record { mru = none; lru = none; prev = λ a. none; next = λ a. none }

-- The constructor; the memory of the blocks holds what it held.
unfoldable pub new_cache : (ℕ → CacheBlock) → Cache
unfolding initial_free
new_cache memory = record {
  blocks = λ a. reset (memory a);
  bucket_id = λ a. no_bucket;
  recency = no_links;
  dirty_list = no_links;
  table = record { heads = λ b. none; prev = λ a. none; next = λ a. none };
  free_list = initial_free block_count;
  free_block_count = block_count;
  free_block_semaphore = block_count;
  harvester_semaphore = 0;
}

-- The loop of `lookup` along a bucket.
unfoldable pub walk : ℕ → ℕ → ℕ → Cache → Option ℕ → Option ℕ
walk zero fdes addr c start = none
walk (suc fuel) fdes addr c none = none
walk (suc fuel) fdes addr c (some node) =
    let rest = walk fuel fdes addr c (c.table.next node) in
    if (c.blocks node).fdes == fdes && (c.blocks node).addr == addr then some node else rest

-- `addToRecencyList` and its kin, on the cache.
unfoldable pub add_to_recency_list : ℕ → Cache → Cache
unfolding add_to
add_to_recency_list node c = record c { recency = add_to node c.recency }

unfoldable pub remove_from_recency_list : ℕ → Cache → Cache
unfolding remove_from
remove_from_recency_list node c = record c { recency = remove_from node c.recency }

unfoldable pub add_to_dirty_list : ℕ → Cache → Cache
unfolding add_to
add_to_dirty_list node c = record c { dirty_list = add_to node c.dirty_list }

unfoldable pub remove_from_dirty_list : ℕ → Cache → Cache
unfolding remove_from
remove_from_dirty_list node c = record c { dirty_list = remove_from node c.dirty_list }

abbrev pub change_block : ℕ → (CacheBlock → CacheBlock) → Cache → Cache
change_block node g c = record c { blocks = assign node (g (c.blocks node)) c.blocks }

-- `CacheBlockMetadata::reset`
unfoldable pub reset_node : ℕ → Cache → Cache
reset_node node c = record c {
  bucket_id = assign node no_bucket c.bucket_id;
  recency = record (c.recency) {
    prev = assign node none c.recency.prev;
    next = assign node none c.recency.next;
  };
  dirty_list = record (c.dirty_list) {
    prev = assign node none c.dirty_list.prev;
    next = assign node none c.dirty_list.next;
  };
  table = record (c.table) {
    prev = assign node none c.table.prev;
    next = assign node none c.table.next;
  };
  free_list = record (c.free_list) {
    prev = assign node none c.free_list.prev;
    next = assign node none c.free_list.next;
  };
}

-- `addToFreeList`; the result is whether the harvester goes on.
unfoldable pub add_to_free_list : ℕ → Cache → Cache × Bool
unfolding add_free
add_to_free_list node c =
    let count : ℕ = (c.free_block_count + 1) % 2 ^ 32 in
    (record c { free_list = add_free node c.free_list; free_block_count = count }, ltb count 2020)

-- What a call that may wait, or fail, comes to.
pub data Run (A : Type 0) : Type 0 where
  done : A → Cache → Run A
  blocked : Run A
  crashed : Run A

-- `getFreeListEntry`
unfoldable pub get_free_list_entry : Cache → Run ℕ
unfolding take_free
get_free_list_entry c =
    if c.free_block_semaphore == 0 then blocked else (elim (take_free c.free_list) [
      | none ↦ crashed
      | some (node, rest) ↦
          let count : ℕ = (c.free_block_count + 2 ^ 32 - 1) % 2 ^ 32 in
          done node (record c {
            free_block_semaphore = c.free_block_semaphore - 1;
            free_list = rest;
            free_block_count = count;
            harvester_semaphore = c.harvester_semaphore + (if leb count 2000 then 1 else 0);
          })
    ])

-- `memcpy` of `size` bytes to an offset; the client gives a part of one block.
abbrev pub copy_to {ℓ} : {A : Type ℓ} → ℕ → ℕ → (ℕ → A) → (ℕ → A) → ℕ → A
copy_to offset size source target i =
    if leb offset i && ltb i (offset + size) then source (i - offset) else target i

-- The block after a write to it.
abbrev pub written : ℕ → ℕ → (ℕ → ℕ) → CacheBlock → CacheBlock
written offset size source b = record b {
  bytes = copy_to offset size source b.bytes;
  dirty = copy_to offset size (λ i. true) b.dirty;
  clean = false;
}

-- The block that `addBlock` makes of a free one.
abbrev pub loaded : ℕ → ℕ → (ℕ → ℕ) → CacheBlock → CacheBlock
loaded fdes addr source b = record b {
  fdes = fdes;
  addr = addr;
  dirty = no_dirty;
  clean = true;
  valid = true;
  bytes = copy_to 0 pfs_block_size_in_bytes source b.bytes;
}

module _ (std_hash : ℕ → ℕ) where
  -- `lookup`, with a round for each node there is.
  unfoldable pub lookup : ℕ → ℕ → Cache → Option ℕ
  unfolding walk
  lookup fdes addr c = walk block_count fdes addr c (c.table.heads (hash_pfs std_hash fdes addr))

  -- `readBlock`: the bytes, if the block is cached.
  unfoldable pub read_block : ℕ → ℕ → Cache → Cache × Option (ℕ → ℕ)
  read_block fdes addr c = elim (lookup fdes addr c) [
    | none ↦ (c, none)
    | some node ↦ (
      if (c.blocks node).clean
          then add_to_recency_list node (remove_from_recency_list node c)
          else add_to_dirty_list node (remove_from_dirty_list node c),
      some (c.blocks node).bytes,
    )
  ]

  -- `write`: whether the block is cached.
  unfoldable pub write : ℕ → ℕ → ℕ → (ℕ → ℕ) → Cache → Cache × Bool
  write fdes offset size source c =
      elim (lookup fdes (offset / pfs_block_size_in_bytes * pfs_block_size_in_bytes) c) [
        | none ↦ (c, false)
        | some node ↦ (
          add_to_dirty_list node (
              change_block node (written (offset % pfs_block_size_in_bytes) size source) (
                if (c.blocks node).clean
                then remove_from_recency_list node c
                else remove_from_dirty_list node c)),
          true,
        )
      ]

  -- `addBlock` from the free node on.
  unfoldable pub insert_block : ℕ → ℕ → ℕ → (ℕ → ℕ) → Cache → Cache
  unfolding add_to_recency_list add_to_hashmap
  insert_block node fdes addr source c =
      let bucket : ℕ = hash_pfs std_hash fdes addr in
      let filled : Cache = change_block node (loaded fdes addr source) c in
      add_to_recency_list node (record filled {
        bucket_id = assign node bucket c.bucket_id;
        table = add_to_hashmap bucket node c.table;
      })

  -- `addBlock`, which waits for `freeBlockSemaphore` twice.
  unfoldable pub add_block : ℕ → ℕ → (ℕ → ℕ) → Cache → Run (Unit {0})
  unfolding get_free_list_entry insert_block
  add_block fdes addr source c =
      if (addr % pfs_block_size_in_bytes == 0)
      then if c.free_block_semaphore == 0
        then blocked
        else (elim (get_free_list_entry
            (record c { free_block_semaphore = c.free_block_semaphore - 1 })) [
              | blocked ↦ blocked
              | crashed ↦ crashed
              | done node c' ↦ done tt (insert_block node fdes addr source c')
            ])
      else crashed

  -- `evictBlock`
  unfoldable pub evict_block : ℕ → ℕ → Cache → Cache × List CacheBlock
  evict_block fdes addr c = elim (lookup fdes addr c) [
    | none ↦ (c, [])
    | some node ↦
        let c1 : Cache = record c { table = remove_from_hashmap (c.bucket_id node) node c.table } in
        if (c.blocks node).clean
        then ((add_to_free_list node (reset_node node (remove_from_recency_list node c1))).0, [])
        else (
          (add_to_free_list node
              (reset_node node (remove_from_dirty_list node (change_block node reset_dirty c1)))).0,
          c.blocks node ∷ [],
        )
  ]
