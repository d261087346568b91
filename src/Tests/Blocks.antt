-- ===== src/Tests/Blocks.antt =====
-- Runs of the cache of a client, and of its reads and writes over it.
use mathlib.Core.Option
use mathlib.Core.List.{reverse}
use pfs.Base.{
  ℕ, zero, suc, ◌+◌, ◌≤◌, ◌<◌, ◌≡◌, refl, true, false, map, ◌&&◌, ◌==◌, if◌then◌else◌, none, some,
  List, [], ◌∷◌, arith, length,
}
use pfs.Config.{hash_pfs}
use pfs.Cache.Order.{contains, without, last}
use pfs.Cache.Links.{LinkedList, add_to, remove_from, remove_lru}
use pfs.Cache.Links.Refines.{IsList, without_last, add_to-IsList, lists_refine}
use pfs.Cache.Table.{initial_free, take_free, add_to_hashmap}
use pfs.Cache.Invariant.{Shape, IsCache}
use pfs.Cache.Methods.{KeepsFree, holds_block}
use pfs.Cache.Start.{no_links-IsList}
use pfs.Cache.Reads.{read_block-holds_block, is_some, write-holds_block}
use pfs.Cache.Evictions.{to_flush, evict_block-holds_block}
use pfs.Cache.Additions.{add_block-holds_block}
use pfs.Cache.Threads.{cache_flusher, harvest_one}
use pfs.Cache.Flushed.{cleaned}
use pfs.Cache.Flusher.{cache_flusher_lem}
use pfs.Cache.Harvester.{oldest, IsHarvest, harvest_one-holds_block}
use pfs.Client.{PfsClient, revoke, block_of}
use pfs.Client.Revocations.{revoke_file, Occurs, revoke_file-uncached}
use pfs.Cache.Reach.{
  Reach, starts, adds, writes, IsReached, Reach-IsReached, add_block-Reach, dirty-few,
}
use pfs.Cache.{
  Cache, CacheBlock, Run, done, blocked, crashed, new_cache, no_links, no_dirty, walk, lookup,
  read_block, write, evict_block, add_block, get_free_list_entry, insert_block, add_to_recency_list,
}

-- `std::hash` of a number as the number.
abbrev pub same_number : ℕ → ℕ
same_number n = n

abbrev pub memory : ℕ → CacheBlock
memory a = record {
  fdes = 0;
  addr = 0;
  dirty = no_dirty;
  clean = true;
  valid = false;
  bytes = λ i. 0;
}

abbrev fresh : Cache
fresh = new_cache memory

abbrev after_run : Run (Unit {0}) → Cache
after_run (done u c) = c
after_run blocked = fresh
after_run crashed = fresh

-- A file's first block, of ones, is added.
abbrev one_block : Cache
one_block = after_run (add_block same_number 3 0 (λ k. 1) fresh)

lookup-fresh : (addr : ℕ) → lookup same_number 3 addr fresh ≡ none
unfolding lookup walk new_cache
lookup-fresh addr = refl

one_block_run : add_block same_number 3 0 (λ k. 1) fresh ≡ done tt one_block
unfolding add_block new_cache get_free_list_entry initial_free take_free insert_block
one_block_run = refl

one_block-Reach : Reach same_number memory 1 one_block
one_block-Reach = adds one_block 3 0 (λ k. 1) starts refl (lookup-fresh 0) one_block_run

lookup-one_block : lookup same_number 3 1024 one_block ≡ none
unfolding lookup walk hash_pfs add_block new_cache get_free_list_entry initial_free take_free
    insert_block add_to_hashmap add_to_recency_list add_to
lookup-one_block = refl

lists_refine_example :
    (contains 2 (1 ∷ []) ≡ false → IsList (2 ∷ 1 ∷ []) (add_to 2 (add_to 1 no_links)))
    × IsList (without 2 (1 ∷ [])) (remove_from 2 (add_to 1 no_links))
    × ((r : LinkedList) × (remove_lru (add_to 1 no_links) ≡ some (last (1 ∷ []), r))
        × IsList (without_last (1 ∷ [])) r)
lists_refine_example =
    lists_refine 2 (1 ∷ []) (add_to 1 no_links) (add_to-IsList 1 [] no_links refl no_links-IsList)

Reach-IsReached_example : IsReached same_number 1 one_block
Reach-IsReached_example = Reach-IsReached same_number memory 1 one_block one_block-Reach

add_block-Reach_example :
    (1 ≤ 1024)
    × (1 < 1024 → (c' : Cache) × (add_block same_number 3 1024 (λ k. 2) one_block ≡ done tt c'))
    × (suc zero ≡ 1024 → add_block same_number 3 1024 (λ k. 2) one_block ≡ blocked)
add_block-Reach_example =
    add_block-Reach same_number memory 1 one_block 3 1024 (λ k. 2) one_block-Reach refl
      lookup-one_block

one_block-IsReached : IsReached same_number 1 one_block
one_block-IsReached = Reach-IsReached same_number memory 1 one_block one_block-Reach

abbrev one_block_shape : Shape
one_block_shape = one_block-IsReached.0

one_block-IsCache : IsCache same_number one_block_shape one_block
one_block-IsCache = one_block-IsReached.1

read_block-holds_block_example :
    (read_block same_number 3 0 one_block).1
    ≡ Option.map (λ b. b.bytes) (holds_block same_number 3 0 one_block)
read_block-holds_block_example = (read_block-holds_block same_number one_block-IsCache 3 0).0

write-holds_block_example :
    (write same_number 3 5 2 (λ i. 7) one_block).1 ≡ is_some (holds_block same_number 3 0 one_block)
write-holds_block_example = (write-holds_block same_number one_block-IsCache 3 5 2 (λ i. 7)).0

evict_block-holds_block_example :
    (evict_block same_number 3 0 one_block).1 ≡ to_flush (holds_block same_number 3 0 one_block)
evict_block-holds_block_example =
    (evict_block-holds_block same_number one_block_shape one_block 3 0 one_block-IsCache).0

one_block_semaphore : one_block.free_block_semaphore ≡ 2046
unfolding add_block new_cache get_free_list_entry initial_free take_free insert_block
one_block_semaphore = refl

one_block_free : 2047 ≤ length one_block_shape.free
one_block_free = omega (arith, one_block-IsReached.3)

add_block-holds_block_example :
    (c' : Cache) × (b : CacheBlock) × (add_block same_number 3 1024 (λ k. 2) one_block ≡ done tt c')
    × (c'.free_block_semaphore + 2 ≡ one_block.free_block_semaphore)
    × ((g' : Shape) × IsCache same_number g' c'
        × (length g'.free + 1 ≡ length one_block_shape.free))
    × ((f a : ℕ)
        → holds_block same_number f a c'
          ≡ (if f == 3 && a == 1024 then some b else holds_block same_number f a one_block))
    × (b.clean ≡ true)
    × ((k : ℕ) → k < 1024 → b.bytes k ≡ 2)
add_block-holds_block_example =
    add_block-holds_block same_number one_block_shape one_block 3 1024 (λ k. 2) one_block-IsCache
      refl lookup-one_block (omega (arith, one_block_semaphore)) (omega (arith, one_block_free))

-- The block after two of its bytes were written.
abbrev dirty_block : Cache
dirty_block = (write same_number 3 5 2 (λ i. 7) one_block).0

dirty_block-Reach : Reach same_number memory 1 dirty_block
dirty_block-Reach = writes 3 5 2 (λ i. 7) one_block-Reach

dirty_block-IsReached : IsReached same_number 1 dirty_block
dirty_block-IsReached = Reach-IsReached same_number memory 1 dirty_block dirty_block-Reach

abbrev dirty_block_shape : Shape
dirty_block_shape = dirty_block-IsReached.0

cache_flusher_lem_example :
    (c' : Cache) × (cache_flusher 2049 dirty_block
      ≡ some (c', map dirty_block.blocks (reverse dirty_block_shape.dirty)))
    × ((g' : Shape) × IsCache same_number g' c'
        × (g'.dirty ≡ [])
        × KeepsFree dirty_block_shape dirty_block g' c')
    × ((f a : ℕ)
        → holds_block same_number f a c'
          ≡ Option.map cleaned (holds_block same_number f a dirty_block))
cache_flusher_lem_example =
    cache_flusher_lem same_number 2049 dirty_block_shape dirty_block dirty_block-IsReached.1
      (dirty-few same_number dirty_block_shape dirty_block dirty_block-IsReached.1)

harvest_one-holds_block_example :
    ((node : ℕ)
      → oldest dirty_block_shape ≡ some node
      → (c' : Cache) × IsHarvest same_number dirty_block_shape dirty_block node c')
    × (oldest dirty_block_shape ≡ none → harvest_one dirty_block ≡ none)
harvest_one-holds_block_example =
    harvest_one-holds_block same_number dirty_block_shape dirty_block dirty_block-IsReached.1

-- A file server whose blocks are all of threes.
abbrev threes : ℕ → Option.Option (List ℕ)
threes addr = some (3 ∷ 3 ∷ 3 ∷ [])

-- A client that has the file of the block open.
abbrev holder : PfsClient
holder = record {
  stub = true;
  opened_files =
      record {
        info = record {
          name = "f";
          stat = record { pst_mtime = 0; pst_ctime = 0; pst_size = 0 };
          strip_width = 1;
          has_modified = false;
        };
        descriptor = 3;
        permissions = [];
      }
      ∷ [];
  descriptor_count = 3;
}

holder_found : (revoke "f" 5 500 holder).1 ≡ some 0
unfolding revoke
holder_found = refl

revoke_file-uncached_example :
    (c' : Cache) × (flushed : List CacheBlock) × (revoke_file same_number "f" 5 500 holder
        dirty_block
      ≡ some ((revoke "f" 5 500 holder).0, c', flushed))
    × ((g' : Shape) × IsCache same_number g' c')
    × ((x : ℕ) → 5 ≤ x → x ≤ 500 → holds_block same_number 3 (block_of x) c' ≡ none)
    × ((x : ℕ) (b : CacheBlock)
        → 5 ≤ x
        → x ≤ 500
        → holds_block same_number 3 (block_of x) dirty_block ≡ some b
        → b.clean ≡ false
        → Occurs b flushed)
    × ((f a : ℕ)
        → (f == 3) ≡ false
        → holds_block same_number f a c' ≡ holds_block same_number f a dirty_block)
revoke_file-uncached_example =
    revoke_file-uncached same_number "f" 5 500 0 holder dirty_block_shape dirty_block
      dirty_block-IsReached.1 holder_found refl (omega arith)
