-- ===== src/Cache/Changes.antt =====
-- The three ways in which a method changes what the cache holds: the order and the state of its
-- blocks, a block less, a block more. Each keeps the invariant.
use pfs.Base.{
  ℕ, ◌≡◌, sym, subst, ◌∙◌, inl, inr, true, false, ◌&&◌, ◌||◌, List, ◌∷◌, arith, ◌==◌, Bool-cases,
}
use pfs.Config.{hash_pfs}
use pfs.Cache.Order.{contains, IsDistinct, without, contains-without}
use pfs.Cache.Links.{LinkedList, assign}
use pfs.Cache.Links.Refines.{IsList}
use pfs.Cache.Table.{HashTable, FreeList}
use pfs.Cache.Chains.{IsChained, IsFree}
use pfs.Cache.Invariant.{Shape, cached, IsCache}
use pfs.Cache.{Cache, CacheBlock}

module _ (std_hash : ℕ → ℕ) {g : Shape} {c : Cache} (i : IsCache std_hash g c) where
  -- Other orders, and other contents of the same blocks.
  pub relink-IsCache :
      (recent' dirty' : List ℕ) (recency' dirty_list' : LinkedList) (blocks' : ℕ → CacheBlock)
      → IsList recent' recency'
      → IsList dirty' dirty_list'
      → ((a : ℕ) → (contains a recent' || contains a dirty') ≡ cached g a)
      → ((a : ℕ) → contains a recent' ≡ true → (blocks' a).clean ≡ true)
      → ((a : ℕ) → contains a dirty' ≡ true → (blocks' a).clean ≡ false)
      → ((a i : ℕ) → contains a recent' ≡ true → (blocks' a).dirty i ≡ false)
      → ((a : ℕ)
          → ((blocks' a).fdes ≡ (c.blocks a).fdes)
            × ((blocks' a).addr ≡ (c.blocks a).addr)
            × ((blocks' a).valid ≡ (c.blocks a).valid))
      → IsCache std_hash
          (record g { recent = recent'; dirty = dirty' })
          (record c { recency = recency'; dirty_list = dirty_list'; blocks = blocks' })
  relink-IsCache recent' dirty' recency' dirty_list' blocks' lr ld all clean unclean untouched
        same =
      record {
        recency = lr;
        dirty = ld;
        chained = i.chained;
        free = i.free;
        placed = λ a. i.placed a ∙ sym (all a);
        clean = clean;
        unclean = unclean;
        untouched = untouched;
        unused = λ a h. all a ∙ i.unused a h;
        valid = λ a h. ground (arith, all a, i.valid a, same a);
        hashed = λ a h. ground (arith, all a, i.hashed a, same a);
        unique = λ a b h k f d. ground (arith, all a, all b, same a, same b, i.unique a b);
        known = λ a h. ground (arith, all a, i.known a);
      }

  -- A block less, its node free.
  pub drop-IsCache :
      (node : ℕ) (recency' dirty_list' : LinkedList) (table' : HashTable) (free' : FreeList)
      (blocks' : ℕ → CacheBlock) (bucket_id' : ℕ → ℕ) (count : ℕ)
      → let buckets' =
          assign (c.bucket_id node) (without node (g.buckets (c.bucket_id node))) g.buckets in
        cached g node ≡ true
        → IsList (without node g.recent) recency'
        → IsList (without node g.dirty) dirty_list'
        → IsChained bucket_id' buckets' table'
        → IsFree (node ∷ g.free) free'
        → contains node (buckets' (bucket_id' node)) ≡ false
        → ((a : ℕ)
            → (node == a) ≡ false
            → (blocks' a ≡ c.blocks a) × (bucket_id' a ≡ c.bucket_id a))
        → IsCache std_hash
            (record {
              recent = without node g.recent;
              dirty = without node g.dirty;
              free = node ∷ g.free;
              buckets = buckets';
            })
            (record c {
              recency = recency';
              dirty_list = dirty_list';
              table = table';
              free_list = free';
              blocks = blocks';
              bucket_id = bucket_id';
              free_block_count = count;
            })
  drop-IsCache node recency' dirty_list' table' free' blocks' bucket_id' count old lr ld lt lf out
        same =
      let inr' = λ (a : ℕ). contains-without g.recent node a in
      let ind' = λ (a : ℕ). contains-without g.dirty node a in
      record {
        recency = lr;
        dirty = ld;
        chained = lt;
        free = lf;
        placed = λ a. elim (Bool-cases (node == a)) [
          | inl here ↦ ground (arith, inr' a, ind' a)
          | inr there ↦ ground (
            arith,
            inr' a,
            ind' a,
            same a there,
            i.placed a,
            contains-without (g.buckets (c.bucket_id node)) node a,
          )
        ];
        clean = λ a h. ground (arith, inr' a, same a, i.clean a);
        unclean = λ a h. ground (arith, ind' a, same a, i.unclean a);
        untouched = λ a k h. ground (arith, inr' a, same a, i.untouched a k);
        unused = λ a h. ground (arith, inr' a, ind' a, i.unused a);
        valid = λ a h. ground (arith, inr' a, ind' a, same a, i.valid a);
        hashed = λ a h. ground (arith, inr' a, ind' a, same a, i.hashed a);
        unique = λ a b h k f d.
            ground (arith, inr' a, ind' a, inr' b, ind' b, same a, same b, i.unique a b);
        known = λ a h. ground (arith, inr' a, ind' a, i.known a, i.known node);
      }

  -- A block more, in a node that was free.
  pub insert-IsCache :
      (node : ℕ) (free' : List ℕ) (recency' : LinkedList) (table' : HashTable)
      (free_list' : FreeList) (b : CacheBlock) (count spare woken : ℕ)
      → let bucket = hash_pfs std_hash b.fdes b.addr in
        let bucket_id' = assign node bucket c.bucket_id in
        g.free ≡ node ∷ free'
        → (b.clean ≡ true) × (b.valid ≡ true)
        → ((k : ℕ) → b.dirty k ≡ false)
        → ((a : ℕ)
            → cached g a ≡ true
            → ((c.blocks a).fdes == b.fdes && (c.blocks a).addr == b.addr) ≡ false)
        → IsList (node ∷ g.recent) recency'
        → IsChained bucket_id' (assign bucket (node ∷ g.buckets bucket) g.buckets) table'
        → IsFree free' free_list'
        → IsCache std_hash
            (record g {
              recent = node ∷ g.recent;
              free = free';
              buckets = assign bucket (node ∷ g.buckets bucket) g.buckets;
            })
            (record c {
              recency = recency';
              table = table';
              free_list = free_list';
              blocks = assign node b c.blocks;
              bucket_id = bucket_id';
              free_block_count = count;
              free_block_semaphore = spare;
              harvester_semaphore = woken;
            })
  insert-IsCache node free' recency' table' free_list' b count spare woken first_free new bare fresh
        lr lt lf =
      let was_free : contains node g.free ≡ true = rw first_free (ground arith) in
      let out = i.unused node was_free in
      let once : contains node free' ≡ false = (subst IsDistinct first_free i.free.distinct).0 in
      let free_before : (a : ℕ) → contains a free' ≡ true → contains a g.free ≡ true =
        λ a h. rw first_free (ground arith) in
      record {
        recency = lr;
        dirty = i.dirty;
        chained = lt;
        free = lf;
        placed = λ a. elim (Bool-cases (node == a)) [
          | inl here ↦ ground arith
          | inr there ↦ ground (arith, i.placed a)
        ];
        clean = λ a h. ground (arith, i.clean a);
        unclean = λ a h. ground (arith, i.unclean a);
        untouched = λ a k h. ground (arith, bare k, i.untouched a k);
        unused = λ a h. ground (arith, i.unused a (free_before a h), once);
        valid = λ a h. ground (arith, i.valid a);
        hashed = λ a h. ground (arith, i.hashed a);
        unique = λ x y h k f d. ground (arith, i.unique x y, fresh x, fresh y);
        known = λ a h. ground (arith, i.known a, i.known node, free_before a);
      }
