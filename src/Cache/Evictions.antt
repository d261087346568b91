-- ===== src/Cache/Evictions.antt =====
-- `evictBlock`: the block is gone, and flushed first if it is dirty.
use mathlib.Core.Option
use pfs.Base.{
  ℕ, ◌+◌, ◌%◌, ◌^◌, ◌≡◌, refl, ap, inl, inr, true, false, ◌&&◌, not, none, some, List, [], ◌∷◌,
  arith, ◌==◌, if◌then◌else◌, Bool-cases, Option-cases,
}
use pfs.Cache.Order.{contains, without, contains-without}
use pfs.Cache.Links.{LinkedList, assign, remove_from}
use pfs.Cache.Links.Refines.{IsList}
use pfs.Cache.Table.{add_free, remove_from_hashmap}
use pfs.Cache.Chains.{remove_from_hashmap-IsChained}
use pfs.Cache.Resets.{
  in_no_bucket, reset_links, removed-IsList, spared-IsList, forget-IsChained, unlinked-IsFree,
}
use pfs.Cache.Invariant.{Shape, cached, IsCache, lookup-some, lookup-none, lookup-cached}
use pfs.Cache.Changes.{drop-IsCache}
use pfs.Cache.Methods.{KeepsFree, holds_block, missing-holds_block}
use pfs.Cache.{
  Cache, CacheBlock, no_bucket, lookup, evict_block, reset_dirty, change_block, reset_node,
  add_to_free_list, remove_from_recency_list, remove_from_dirty_list,
}

module _ (std_hash : ℕ → ℕ) {g : Shape} {c : Cache} (i : IsCache std_hash g c) (node : ℕ) where
  -- The lists without the node, which is free.
  abbrev pub dropped : Shape
  dropped = record {
    recent = without node g.recent;
    dirty = without node g.dirty;
    free = node ∷ g.free;
    buckets = assign (c.bucket_id node) (without node (g.buckets (c.bucket_id node))) g.buckets;
  }

  unhashed : Cache
  unhashed = record c { table = remove_from_hashmap (c.bucket_id node) node c.table }

  -- The parts that are alike for a clean and for a dirty block.
  module _ (m : cached g node ≡ true) (recency' dirty_list' : LinkedList)
      (blocks' : ℕ → CacheBlock) where
    evicted-IsCache :
        IsList (without node g.recent) (reset_links node recency')
        → IsList (without node g.dirty) (reset_links node dirty_list')
        → ((a : ℕ) → (node == a) ≡ false → blocks' a ≡ c.blocks a)
        → IsCache std_hash dropped
            (add_to_free_list node (
              reset_node node (record unhashed {
                recency = recency';
                dirty_list = dirty_list';
                blocks = blocks';
              }))).0
    unfolding add_to_free_list reset_node unhashed
    evicted-IsCache lr ld same =
        let b : ℕ = c.bucket_id node in
        let zs : ℕ → List ℕ = assign b (without node (g.buckets b)) g.buckets in
        let gone : contains node (zs b) ≡ false =
          ground (arith, contains-without (g.buckets b) node node) in
        let free_out : contains node g.free ≡ false = ground (arith, i.unused node) in
        let chained = remove_from_hashmap-IsChained c.bucket_id g.buckets c.table i.chained node in
        let forgotten =
          forget-IsChained c.bucket_id zs (remove_from_hashmap b node c.table) node no_bucket
            chained gone in
        let nowhere : contains node (zs no_bucket) ≡ false =
          in_no_bucket c.bucket_id zs (remove_from_hashmap b node c.table) node no_bucket chained
            gone in
        drop-IsCache std_hash i node (reset_links node recency') (reset_links node dirty_list')
          (record (remove_from_hashmap b node c.table) {
            prev = assign node none (remove_from_hashmap b node c.table).prev;
            next = assign node none (remove_from_hashmap b node c.table).next;
          })
          (add_free node (record (c.free_list) {
            prev = assign node none c.free_list.prev;
            next = assign node none c.free_list.next;
          }))
          blocks' (assign node no_bucket c.bucket_id) ((c.free_block_count + 1) % 2 ^ 32) m lr ld
          forgotten (unlinked-IsFree node g.free c.free_list free_out i.free)
          (ground (arith, nowhere)) (λ a ne. (same a ne, ground arith))

  -- A node that is not the dropped one is cached as before, and the dropped one is not.
  dropped-cached : (a : ℕ) → cached dropped a ≡ (cached g a && not (node == a))
  dropped-cached a =
      ground (arith, contains-without g.recent node a, contains-without g.dirty node a)

  -- What is held once the node has gone.
  pub dropped-holds_block :
      {c' : Cache} (i' : IsCache std_hash dropped c') (fdes addr f a : ℕ)
      → lookup std_hash fdes addr c ≡ some node
      → ((n : ℕ) → (node == n) ≡ false → c'.blocks n ≡ c.blocks n)
      → holds_block std_hash f a c'
        ≡ (if f == fdes && a == addr then none else holds_block std_hash f a c)
  unfolding holds_block
  dropped-holds_block {c'} i' fdes addr f a hit same =
      let (m, named, placed_at) = lookup-some std_hash i fdes addr node hit in
      elim (Option-cases (lookup std_hash f a c')) [
        | inl e ↦ elim (Option-cases (lookup std_hash f a c)) [
          | inl e0 ↦ rw (e, e0, holds_block) (ground arith)
          | inr (n, e0) ↦
              let (m0, f0, a0) = lookup-some std_hash i f a n e0 in
              let miss = λ (k : cached dropped n ≡ true). lookup-none std_hash i' f a n e k in
              elim (Bool-cases (node == n)) [
                | inl eq ↦ rw (e, holds_block) (ground arith)
                | inr ne ↦
                    absurd (ground (arith, miss (ground (arith, dropped-cached n)), same n ne))
              ]
        ]
        | inr (n, e) ↦
            let (m1, f1, a1) = lookup-some std_hash i' f a n e in
            let kept = dropped-cached n in
            let ne : (node == n) ≡ false = ground arith in
            let value = same n ne in
            let before =
              lookup-cached std_hash i f a n (ground arith) (ground arith) (ground arith) in
            let other : (f == fdes && a == addr) ≡ false = ground (arith, i.unique node n m) in
            rw (e, other, before, holds_block) (ap some value)
      ]

  -- `evictBlock` on a node that was found clean, and on one that was found dirty.
  evict_clean-IsCache :
      cached g node ≡ true
      → (c.blocks node).clean ≡ true
      → IsCache std_hash dropped
          (add_to_free_list node (reset_node node (remove_from_recency_list node unhashed))).0
  unfolding remove_from_recency_list unhashed
  evict_clean-IsCache m e =
      let out : contains node g.dirty ≡ false = ground (arith, i.unclean node) in
      evicted-IsCache m (remove_from node c.recency) c.dirty_list c.blocks
        (removed-IsList node g.recent c.recency i.recency)
        (spared-IsList node g.dirty c.dirty_list out i.dirty) (λ a ne. refl)

  evict_dirty-IsCache :
      cached g node ≡ true
      → (c.blocks node).clean ≡ false
      → IsCache std_hash dropped
          (add_to_free_list node (
            reset_node node
              (remove_from_dirty_list node (change_block node reset_dirty unhashed)))).0
  unfolding remove_from_dirty_list unhashed
  evict_dirty-IsCache m e =
      let out : contains node g.recent ≡ false = ground (arith, i.clean node) in
      evicted-IsCache m c.recency (remove_from node c.dirty_list)
        (assign node (reset_dirty (c.blocks node)) c.blocks)
        (spared-IsList node g.recent c.recency out i.recency)
        (removed-IsList node g.dirty c.dirty_list i.dirty) (λ a ne. ground arith)

  evict_clean-semaphore :
      (add_to_free_list node
        (reset_node node (remove_from_recency_list node unhashed))).0.free_block_semaphore
      ≡ c.free_block_semaphore
  unfolding remove_from_recency_list unhashed add_to_free_list reset_node
  evict_clean-semaphore = refl

  evict_dirty-semaphore :
      (add_to_free_list node (
        reset_node node (
          remove_from_dirty_list node
            (change_block node reset_dirty unhashed)))).0.free_block_semaphore
      ≡ c.free_block_semaphore
  unfolding remove_from_dirty_list unhashed add_to_free_list reset_node
  evict_dirty-semaphore = refl

  evict_clean-blocks :
      (n : ℕ)
      → (add_to_free_list node (reset_node node (remove_from_recency_list node unhashed))).0.blocks
          n
        ≡ c.blocks n
  unfolding remove_from_recency_list unhashed add_to_free_list reset_node
  evict_clean-blocks n = refl

  evict_dirty-blocks :
      (n : ℕ)
      → (node == n) ≡ false
      → (add_to_free_list node (
            reset_node node
              (remove_from_dirty_list node (change_block node reset_dirty unhashed)))).0.blocks
          n
        ≡ c.blocks n
  unfolding remove_from_dirty_list unhashed add_to_free_list reset_node
  evict_dirty-blocks n ne = ground arith

-- What has to be flushed when a block goes.
abbrev pub to_flush : Option.Option CacheBlock → List CacheBlock
to_flush none = []
to_flush (some b) = if b.clean then [] else b ∷ []

-- After `evictBlock` nothing is cached under the name and the address, and every other name and
-- address holds what it held. The block was flushed exactly if it was cached and not clean. The
-- invariant is kept.
pub evict_block-holds_block :
    (std_hash : ℕ → ℕ) (g : Shape) (c : Cache) (fdes addr : ℕ)
    → IsCache std_hash g c
    → let (c', flushed) = evict_block std_hash fdes addr c in
      (flushed ≡ to_flush (holds_block std_hash fdes addr c))
      × ((g' : Shape) × IsCache std_hash g' c' × KeepsFree g c g' c')
      × ((f a : ℕ)
          → holds_block std_hash f a c'
            ≡ (if f == fdes && a == addr then none else holds_block std_hash f a c))
unfolding evict_block holds_block unhashed
evict_block-holds_block std_hash g c fdes addr i =
    elim (Option-cases (lookup std_hash fdes addr c)) [
      | inl e ↦ (
        rw (e, evict_block, holds_block) refl,
        rw (e, evict_block) (g, i, (refl, omega arith)),
        λ f a.
            rw (e, evict_block)
              (elim (Bool-cases (f == fdes && a == addr)) [
                | inl eq ↦ rw (eq, missing-holds_block std_hash fdes addr f a c e eq) refl
                | inr ne ↦ rw ne refl
              ]),
      )
      | inr (node, e) ↦
          let (m, _, _) = lookup-some std_hash i fdes addr node e in
          elim (Bool-cases ((c.blocks node).clean)) [
            | inl clean ↦
                let i' = evict_clean-IsCache std_hash i node m clean in
                (
                  rw (e, evict_block, holds_block, clean) refl,
                  rw (e, evict_block, clean)
                      (
                        dropped std_hash i node,
                        i',
                        (evict_clean-semaphore std_hash i node, omega arith),
                      ),
                  λ f a.
                      rw (e, evict_block, clean)
                        (dropped-holds_block std_hash i node i' fdes addr f a e
                          (λ n ne. evict_clean-blocks std_hash i node n)),
                )
            | inr unclean ↦
                let i' = evict_dirty-IsCache std_hash i node m unclean in
                (
                  rw (e, evict_block, holds_block, unclean) refl,
                  rw (e, evict_block, unclean)
                      (
                        dropped std_hash i node,
                        i',
                        (evict_dirty-semaphore std_hash i node, omega arith),
                      ),
                  λ f a.
                      rw (e, evict_block, unclean)
                        (dropped-holds_block std_hash i node i' fdes addr f a e
                          (evict_dirty-blocks std_hash i node)),
                )
          ]
    ]
