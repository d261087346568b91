-- ===== src/Cache/Harvester.antt =====
-- `cacheHarvester`: a round of it makes one node free.
use mathlib.Core.Option
use pfs.Base.{
  ℕ, ◌+◌, ◌%◌, ◌^◌, ◌≡◌, refl, sym, ap, subst, ◌∙◌, inl, inr, Bool, true, false, ◌&&◌, none, some,
  List, [], ◌∷◌, arith, ◌==◌, if◌then◌else◌, Bool-cases, Option-cases,
}
use pfs.Cache.Order.{contains, without, last, contains-without, without-absent, last-contains}
use pfs.Cache.Links.{LinkedList, assign, remove_lru}
use pfs.Cache.Links.Refines.{IsList, without_last, remove_lru-IsList}
use pfs.Cache.Table.{add_free, remove_from_hashmap}
use pfs.Cache.Threads.{take_victim, harvest_one}
use pfs.Cache.Chains.{remove_from_hashmap-IsChained, add_free-IsFree}
use pfs.Cache.Invariant.{Shape, cached, IsCache, lookup-cached}
use pfs.Cache.Changes.{drop-IsCache}
use pfs.Cache.Methods.{KeepsFree, holds_block, node-holds_block}
use pfs.Cache.Evictions.{dropped, dropped-holds_block}
use pfs.Cache.{Cache, CacheBlock, reset_dirty, add_to_free_list}

-- The least recent clean node, or else the least recent dirty one.
abbrev pub oldest : Shape → Option.Option ℕ
oldest g = elim (last g.recent) [ some node ↦ some node | none ↦ last g.dirty ]

-- What a round comes to that takes a node: its block is flushed if it is dirty, and nothing is
-- cached under its name and address any more.
abbrev pub IsHarvest : (std_hash : ℕ → ℕ) → Shape → Cache → ℕ → Cache → Type 0
IsHarvest std_hash g c node c' =
    let b : CacheBlock = c.blocks node in
    (more : Bool) × (harvest_one c ≡ some (c', if b.clean then [] else b ∷ [], more))
    × ((g' : Shape) × IsCache std_hash g' c' × KeepsFree g c g' c' × (g'.free ≡ node ∷ g.free))
    × ((f a : ℕ)
        → holds_block std_hash f a c'
          ≡ (if f == b.fdes && a == b.addr then none else holds_block std_hash f a c))

victim_dirty :
    (c : Cache) (node : ℕ) (r0 r : LinkedList)
    → remove_lru c.recency ≡ some (none, r0)
    → remove_lru c.dirty_list ≡ some (some node, r)
    → (c.blocks node).clean ≡ false
    → (c.blocks node).valid ≡ true
    → take_victim c ≡ some (node, record c { dirty_list = r })
unfolding take_victim
victim_dirty c node r0 r took0 took unclean valid =
    rw (take_victim, took0, took, unclean, valid) refl

module _ (std_hash : ℕ → ℕ) {g : Shape} {c : Cache} (i : IsCache std_hash g c) (node : ℕ) where
  module _ (r d : LinkedList) (blocks' : ℕ → CacheBlock) where
    -- The cache without the node, before the node is free.
    abbrev harvested : Cache
    harvested = record c {
      recency = r;
      dirty_list = d;
      table = remove_from_hashmap (c.bucket_id node) node c.table;
      blocks = blocks';
    }

    harvested-IsCache :
        cached g node ≡ true
        → IsList (without node g.recent) r
        → IsList (without node g.dirty) d
        → ((a : ℕ) → (node == a) ≡ false → blocks' a ≡ c.blocks a)
        → IsCache std_hash (dropped std_hash i node) (add_to_free_list node harvested).0
    unfolding add_to_free_list
    harvested-IsCache m lr ld same =
        let b : ℕ = c.bucket_id node in
        let out : contains node g.free ≡ false = elim (Bool-cases (contains node g.free)) [
          | inl h ↦ ground (arith, i.unused node h)
          | inr h ↦ h
        ] in
        drop-IsCache std_hash i node r d (remove_from_hashmap b node c.table)
          (add_free node c.free_list) blocks' c.bucket_id ((c.free_block_count + 1) % 2 ^ 32) m lr
          ld (remove_from_hashmap-IsChained c.bucket_id g.buckets c.table i.chained node)
          (add_free-IsFree node g.free c.free_list out i.free)
          (ground (arith, contains-without (g.buckets b) node node)) (λ a ne. (same a ne, refl))

    harvested-KeepsFree :
        KeepsFree g c (dropped std_hash i node) (add_to_free_list node harvested).0
    unfolding add_to_free_list
    harvested-KeepsFree = (refl, omega arith)

    harvested-blocks : (add_to_free_list node harvested).0.blocks ≡ blocks'
    unfolding add_to_free_list
    harvested-blocks = refl

  made_round :
      (c' : Cache) (more : Bool)
      → cached g node ≡ true
      → harvest_one c ≡ some (c', if (c.blocks node).clean then [] else c.blocks node ∷ [], more)
      → ((g' : Shape) × IsCache std_hash g' c' × KeepsFree g c g' c' × (g'.free ≡ node ∷ g.free))
      → IsCache std_hash (dropped std_hash i node) c'
      → ((n : ℕ) → (node == n) ≡ false → c'.blocks n ≡ c.blocks n)
      → IsHarvest std_hash g c node c'
  made_round c' more inside run kept i' same =
      let b : CacheBlock = c.blocks node in
      (
        more,
        run,
        kept,
        λ f a.
            dropped-holds_block std_hash i node i' b.fdes b.addr f a
              (lookup-cached std_hash i b.fdes b.addr node inside refl refl) same,
      )

  clean_round : last g.recent ≡ some node → (c' : Cache) × IsHarvest std_hash g c node c'
  unfolding harvest_one take_victim
  clean_round e =
      let m = last-contains g.recent node (ground arith) in
      let clean = i.clean node m in
      let (r, took, l) = remove_lru-IsList g.recent c.recency i.recency in
      let out : contains node g.dirty ≡ false = ground (arith, i.unclean node) in
      let lr : IsList (without node g.recent) r =
        subst (λ xs. IsList xs r) (rw (e, without_last) refl) l in
      let ld : IsList (without node g.dirty) c.dirty_list =
        subst (λ xs. IsList xs c.dirty_list) (sym (without-absent g.dirty node out)) i.dirty in
      let took' : remove_lru c.recency ≡ some (some node, r) =
        took ∙ ap (λ (o : Option.Option ℕ). some (o, r)) e in
      let inside : cached g node ≡ true = ground arith in
      (
        (add_to_free_list node (harvested r c.dirty_list c.blocks)).0,
        made_round (add_to_free_list node (harvested r c.dirty_list c.blocks)).0
            (add_to_free_list node (harvested r c.dirty_list c.blocks)).1 inside
            (rw (harvest_one, take_victim, took', clean) refl)
            (
              dropped std_hash i node,
              harvested-IsCache r c.dirty_list c.blocks inside lr ld (λ a ne. refl),
              harvested-KeepsFree r c.dirty_list c.blocks,
              refl,
            )
            (harvested-IsCache r c.dirty_list c.blocks inside lr ld (λ a ne. refl))
            (λ n ne. ap (λ (h : ℕ → CacheBlock). h n) (harvested-blocks r c.dirty_list c.blocks)),
      )

  dirty_round :
      last g.recent ≡ none
      → last g.dirty ≡ some node
      → (c' : Cache) × IsHarvest std_hash g c node c'
  unfolding harvest_one take_victim
  dirty_round none_clean e =
      let m = last-contains g.dirty node (ground arith) in
      let unclean = i.unclean node m in
      let (r0, took0, l0) = remove_lru-IsList g.recent c.recency i.recency in
      let (r, took, l) = remove_lru-IsList g.dirty c.dirty_list i.dirty in
      let out : contains node g.recent ≡ false = ground (arith, i.clean node) in
      let lr : IsList (without node g.recent) c.recency =
        subst (λ xs. IsList xs c.recency) (sym (without-absent g.recent node out)) i.recency in
      let ld : IsList (without node g.dirty) r =
        subst (λ xs. IsList xs r) (rw (e, without_last) refl) l in
      let took0' : remove_lru c.recency ≡ some (none, r0) =
        took0 ∙ ap (λ (o : Option.Option ℕ). some (o, r0)) none_clean in
      let took' : remove_lru c.dirty_list ≡ some (some node, r) =
        took ∙ ap (λ (o : Option.Option ℕ). some (o, r)) e in
      let inside : cached g node ≡ true = ground arith in
      let valid = i.valid node inside in
      let blocks' : ℕ → CacheBlock = assign node (reset_dirty (c.blocks node)) c.blocks in
      let same = λ (a : ℕ) (ne : (node == a) ≡ false).
        ap (λ (t : Bool). if t then reset_dirty (c.blocks node) else c.blocks a) ne in
      (
        (add_to_free_list node (harvested c.recency r blocks')).0,
        made_round (add_to_free_list node (harvested c.recency r blocks')).0
            (add_to_free_list node (harvested c.recency r blocks')).1 inside
            (rw (harvest_one, victim_dirty c node r0 r took0' took' unclean valid, unclean) refl)
            (
              dropped std_hash i node,
              harvested-IsCache c.recency r blocks' inside lr ld (λ a ne. ground arith),
              harvested-KeepsFree c.recency r blocks',
              refl,
            )
            (harvested-IsCache c.recency r blocks' inside lr ld (λ a ne. ground arith))
            (λ n ne.
              ap (λ (h : ℕ → CacheBlock). h n) (harvested-blocks c.recency r blocks') ∙ same n ne),
      )

harvest_none :
    (std_hash : ℕ → ℕ) (g : Shape) (c : Cache)
    → IsCache std_hash g c
    → last g.recent ≡ none
    → last g.dirty ≡ none
    → harvest_one c ≡ none
unfolding harvest_one take_victim
harvest_none std_hash g c i e e' =
    let (r0, took0, l0) = remove_lru-IsList g.recent c.recency i.recency in
    let (r, took, l) = remove_lru-IsList g.dirty c.dirty_list i.dirty in
    let took0' : remove_lru c.recency ≡ some (none, r0) =
      took0 ∙ ap (λ (o : Option.Option ℕ). some (o, r0)) e in
    let took' : remove_lru c.dirty_list ≡ some (none, r) =
      took ∙ ap (λ (o : Option.Option ℕ). some (o, r)) e' in
    rw (harvest_one, take_victim, took0', took') refl

-- A round of the harvester takes the least recent clean block, or else the least recent dirty one,
-- which it flushes. Nothing is cached under that block's name and address afterwards, and every other
-- name and address holds what it held; the node is free, and the invariant is kept. With no block to
-- take, the round fails.
pub harvest_one-holds_block :
    (std_hash : ℕ → ℕ) (g : Shape) (c : Cache)
    → IsCache std_hash g c
    → ((node : ℕ) → oldest g ≡ some node → (c' : Cache) × IsHarvest std_hash g c node c')
      × (oldest g ≡ none → harvest_one c ≡ none)
harvest_one-holds_block std_hash g c i = elim (Option-cases (last g.recent)) [
  | inr (n, e) ↦ (
    λ node h. let same : n ≡ node = ground arith in clean_round std_hash i node (e ∙ ap some same),
    λ h. absurd (ground arith),
  )
  | inl e ↦ (
    λ node h. dirty_round std_hash i node e (ground arith),
    λ h. harvest_none std_hash g c i e (ground arith),
  )
]

-- A round that succeeds keeps the invariant.
pub harvest_one-KeepsFree :
    (std_hash : ℕ → ℕ) (g : Shape) (c c' : Cache) (flushed : List CacheBlock) (more : Bool)
    → IsCache std_hash g c
    → harvest_one c ≡ some (c', flushed, more)
    → (g' : Shape) × IsCache std_hash g' c' × KeepsFree g c g' c'
harvest_one-KeepsFree std_hash g c c' flushed more i run =
    let taken : (node : ℕ)
        → (c1 : Cache) × IsHarvest std_hash g c node c1
        → (g' : Shape) × IsCache std_hash g' c' × KeepsFree g c g' c' =
      λ node (c1, (more1, run1, (g', i', kept, now_free), held)).
        subst (λ c2. (g' : Shape) × IsCache std_hash g' c2 × KeepsFree g c g' c2) (cc (run1, run))
          (g', i', kept) in
    elim (Option-cases (last g.recent)) [
      | inr (node, e) ↦ taken node (clean_round std_hash i node e)
      | inl e ↦ elim (Option-cases (last g.dirty)) [
        | inr (node, e') ↦ taken node (dirty_round std_hash i node e e')
        | inl e' ↦ absurd (cc (harvest_none std_hash g c i e e', run))
      ]
    ]

-- The oldest node holds its block.
pub oldest-holds_block :
    (std_hash : ℕ → ℕ) (g : Shape) (c : Cache) (node : ℕ)
    → IsCache std_hash g c
    → oldest g ≡ some node
    → let b = c.blocks node in holds_block std_hash b.fdes b.addr c ≡ some b
oldest-holds_block std_hash g c node i e =
    let inside : cached g node ≡ true = elim (Option-cases (last g.recent)) [
      | inr (n, e') ↦ ground (arith, last-contains g.recent n)
      | inl e' ↦ ground (arith, last-contains g.dirty node)
    ] in
    node-holds_block std_hash i node inside
