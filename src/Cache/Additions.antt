-- ===== src/Cache/Additions.antt =====
-- `addBlock`: it waits, it fails, or the block is cached.
use pfs.Base.{
  ℕ, ◌+◌, ◌-◌, ◌%◌, ◌^◌, ◌≤◌, ◌<◌, ◌≡◌, refl, ap, subst, ◌∙◌, inl, inr, true, false, ◌&&◌, none,
  some, List, [], ◌∷◌, arith, ◌==◌, if◌then◌else◌, leb, length, Bool-cases, Option-cases,
}
use pfs.Config.{hash_pfs}
use pfs.Cache.Order.{contains}
use pfs.Cache.Links.{assign, add_to}
use pfs.Cache.Links.Refines.{add_to-IsList}
use pfs.Cache.Table.{FreeList, add_to_hashmap, take_free}
use pfs.Cache.Chains.{IsFree, take_free-IsFree, add_to_hashmap-IsChained}
use pfs.Cache.Invariant.{Shape, IsCache, lookup-some, lookup-none, lookup-cached}
use pfs.Cache.Changes.{insert-IsCache}
use pfs.Cache.Methods.{holds_block}
use pfs.Cache.{
  Cache, CacheBlock, done, blocked, lookup, loaded, add_to_recency_list, get_free_list_entry,
  insert_block, add_block,
}

module _ (std_hash : ℕ → ℕ) {g : Shape} {c : Cache} (i : IsCache std_hash g c) where
  module _ (node : ℕ) (fs : List ℕ) (fdes addr : ℕ) (source : ℕ → ℕ) (free' : FreeList)
      (count spare woken : ℕ) where
    -- The cache once the free node has been taken, and the lists after the block is entered.
    abbrev taken : Cache
    taken = record c {
      free_list = free';
      free_block_count = count;
      free_block_semaphore = spare;
      harvester_semaphore = woken;
    }

    abbrev grown : Shape
    grown =
        let bucket : ℕ = hash_pfs std_hash fdes addr in
        record g {
          recent = node ∷ g.recent;
          free = fs;
          buckets = assign bucket (node ∷ g.buckets bucket) g.buckets;
        }

    inserted-IsCache :
        g.free ≡ node ∷ fs
        → IsFree fs free'
        → lookup std_hash fdes addr c ≡ none
        → IsCache std_hash grown (insert_block std_hash node fdes addr source taken)
    unfolding insert_block add_to_recency_list
    inserted-IsCache first_free lf miss =
        let was_free : contains node g.free ≡ true = rw first_free (ground arith) in
        let out = i.unused node was_free in
        let bucket : ℕ = hash_pfs std_hash fdes addr in
        insert-IsCache std_hash i node fs (add_to node c.recency)
          (add_to_hashmap bucket node c.table) free' (loaded fdes addr source (c.blocks node)) count
          spare woken first_free (refl, refl) (λ k. refl)
          (λ a h. lookup-none std_hash i fdes addr a miss h)
          (add_to-IsList node g.recent c.recency (ground arith) i.recency)
          (add_to_hashmap-IsChained c.bucket_id g.buckets c.table i.chained bucket node
            (i.placed node ∙ out))
          lf

    abbrev inserted : Cache
    inserted = insert_block std_hash node fdes addr source taken

    inserted-semaphore :
        (insert_block std_hash node fdes addr source taken).free_block_semaphore + 2 ≡ spare + 2
    unfolding insert_block add_to_recency_list
    inserted-semaphore = refl

    inserted-blocks :
        (n : ℕ)
        → (insert_block std_hash node fdes addr source taken).blocks n
          ≡ assign node (loaded fdes addr source (c.blocks node)) c.blocks n
    unfolding insert_block add_to_recency_list
    inserted-blocks n = refl

    inserted-holds_block :
        (f a : ℕ)
        → g.free ≡ node ∷ fs
        → IsFree fs free'
        → lookup std_hash fdes addr c ≡ none
        → holds_block std_hash f a (insert_block std_hash node fdes addr source taken) ≡ (
            if f == fdes && a == addr
            then some (loaded fdes addr source (c.blocks node))
            else holds_block std_hash f a c)
    unfolding holds_block
    inserted-holds_block f a first_free lf miss =
        let c' : Cache = insert_block std_hash node fdes addr source taken in
        let i' = inserted-IsCache first_free lf miss in
        let b : CacheBlock = loaded fdes addr source (c.blocks node) in
        let was_free : contains node g.free ≡ true = rw first_free (ground arith) in
        let out = i.unused node was_free in
        let value = inserted-blocks in
        elim (Bool-cases (f == fdes && a == addr)) [
          | inl eq ↦
              let found : lookup std_hash f a c' ≡ some node =
                lookup-cached std_hash i' f a node (ground arith) (ground (arith, value node))
                  (ground (arith, value node)) in
              rw (eq, found, holds_block) (ap some (ground (arith, value node)))
          | inr ne ↦ elim (Option-cases (lookup std_hash f a c)) [
            | inr (n, e) ↦
                let (m, named, at) = lookup-some std_hash i f a n e in
                let other : (node == n) ≡ false = ground arith in
                let found : lookup std_hash f a c' ≡ some n =
                  lookup-cached std_hash i' f a n (ground arith) (ground (arith, value n))
                    (ground (arith, value n)) in
                rw (ne, found, e, holds_block) (ap some (ground (arith, value n)))
            | inl e ↦ elim (Option-cases (lookup std_hash f a c')) [
              | inl e' ↦ rw (ne, e', e, holds_block) refl
              | inr (n, e') ↦
                  let (m, named, at) = lookup-some std_hash i' f a n e' in
                  absurd (ground (arith, value n, lookup-none std_hash i f a n e))
            ]
          ]
        ]

  add_block-inserted :
      (node : ℕ) (fs : List ℕ) (fdes addr : ℕ) (source : ℕ → ℕ) (rest : FreeList)
      → addr % 1024 ≡ 0
      → 2 ≤ c.free_block_semaphore
      → take_free c.free_list ≡ some (node, rest)
      → let count = (c.free_block_count + 2 ^ 32 - 1) % 2 ^ 32 in
        add_block std_hash fdes addr source c
        ≡ done tt (
            inserted node fs fdes addr source rest count
              (c.free_block_semaphore - 1 - 1)
              (c.harvester_semaphore + (if leb count 2000 then 1 else 0)))
  unfolding add_block get_free_list_entry
  add_block-inserted node fs fdes addr source rest aligned units took = ground arith

two_or_more :
    (xs : List ℕ) → 2 ≤ length xs → (a : ℕ) × (b : ℕ) × (rest : List ℕ) × (xs ≡ a ∷ b ∷ rest)
two_or_more [] h = absurd (omega arith)
two_or_more (a ∷ []) h = absurd (omega arith)
two_or_more (a ∷ b ∷ rest) h = (a, b, rest, refl)

-- The number of blocks in flight is bounded by the semaphore: `addBlock` waits for two units of it.
pub add_block-blocked :
    (std_hash : ℕ → ℕ) (fdes addr : ℕ) (source : ℕ → ℕ) (c : Cache)
    → addr % 1024 ≡ 0
    → c.free_block_semaphore < 2
    → add_block std_hash fdes addr source c ≡ blocked
unfolding add_block get_free_list_entry
add_block-blocked std_hash fdes addr source c aligned few = ground arith

-- With two units and two free nodes it succeeds, if the block is not cached: the block is cached then,
-- clean and with the given bytes, every other name and address holds what it held, and two units and
-- one node are gone. The invariant is kept.
pub add_block-holds_block :
    (std_hash : ℕ → ℕ) (g : Shape) (c : Cache) (fdes addr : ℕ) (source : ℕ → ℕ)
    → IsCache std_hash g c
    → addr % 1024 ≡ 0
    → lookup std_hash fdes addr c ≡ none
    → 2 ≤ c.free_block_semaphore
    → 2 ≤ length g.free
    → (c' : Cache) × (b : CacheBlock) × (add_block std_hash fdes addr source c ≡ done tt c')
      × (c'.free_block_semaphore + 2 ≡ c.free_block_semaphore)
      × ((g' : Shape) × IsCache std_hash g' c' × (length g'.free + 1 ≡ length g.free))
      × ((f a : ℕ)
          → holds_block std_hash f a c'
            ≡ (if f == fdes && a == addr then some b else holds_block std_hash f a c))
      × (b.clean ≡ true)
      × ((k : ℕ) → k < 1024 → b.bytes k ≡ source k)
unfolding add_block get_free_list_entry
add_block-holds_block std_hash g c fdes addr source i aligned miss units free =
    let (node, x, fs, e) = two_or_more g.free free in
    let (rest, took, lf) =
      take_free-IsFree node (x ∷ fs) c.free_list (subst (λ l. IsFree l c.free_list) e i.free) in
    let count : ℕ = (c.free_block_count + 2 ^ 32 - 1) % 2 ^ 32 in
    let spare : ℕ = c.free_block_semaphore - 1 - 1 in
    let woken : ℕ = c.harvester_semaphore + (if leb count 2000 then 1 else 0) in
    (
      inserted std_hash i node (x ∷ fs) fdes addr source rest count spare woken,
      loaded fdes addr source (c.blocks node),
      add_block-inserted std_hash i node (x ∷ fs) fdes addr source rest aligned units took,
      inserted-semaphore std_hash i node (x ∷ fs) fdes addr source rest count spare woken
          ∙ (omega arith),
      (
        grown std_hash i node (x ∷ fs) fdes addr source rest count spare woken,
        inserted-IsCache std_hash i node (x ∷ fs) fdes addr source rest count spare woken e lf miss,
        omega (arith, ap length e),
      ),
      λ f a.
          inserted-holds_block std_hash i node (x ∷ fs) fdes addr source rest count spare woken f a
            e lf miss,
      refl,
      λ k small. ground arith,
    )
