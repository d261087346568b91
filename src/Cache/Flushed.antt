-- ===== src/Cache/Flushed.antt =====
-- One round of `cacheFlusher`: a dirty block is flushed, and stays, all clean.
use mathlib.Core.Option
use pfs.Base.{
  ℕ, ◌≡◌, refl, ap, subst, ◌∙◌, inl, inr, true, false, ◌&&◌, none, some, [], ◌∷◌, arith, ◌==◌,
  if◌then◌else◌, Bool-cases,
}
use pfs.Cache.Order.{contains, without, last, contains-without, last-contains}
use pfs.Cache.Links.{LinkedList, assign, add_to, remove_lru}
use pfs.Cache.Links.Refines.{IsList, add_to-IsList, remove_lru-IsList, without_last}
use pfs.Cache.Invariant.{Shape, cached, IsCache, lookup-cached}
use pfs.Cache.Changes.{relink-IsCache}
use pfs.Cache.Methods.{KeepsFree, holds_block, node-holds_block}
use pfs.Cache.Reads.{written-holds_block}
use pfs.Cache.{Cache, CacheBlock, reset_dirty, change_block, add_to_recency_list, lookup}
use pfs.Cache.Threads.{flush_lru}

-- A block as it is once it has been flushed.
abbrev pub cleaned : CacheBlock → CacheBlock
cleaned b = if b.clean then b else reset_dirty b

module _ (std_hash : ℕ → ℕ) {g : Shape} {c : Cache} (i : IsCache std_hash g c) (node : ℕ)
    (rest : LinkedList) where
  -- The cache after one round, and its lists.
  abbrev pub flushed : Cache
  flushed =
      add_to_recency_list node (change_block node reset_dirty (record c { dirty_list = rest }))

  abbrev pub flushed_shape : Shape
  flushed_shape = record g { recent = node ∷ g.recent; dirty = without node g.dirty }

  module _ (m : contains node g.dirty ≡ true) (l : IsList (without node g.dirty) rest) where
    pub flushed-IsCache : IsCache std_hash flushed_shape flushed
    unfolding add_to_recency_list
    flushed-IsCache =
        let out : contains node g.recent ≡ false = ground (arith, i.clean node, i.unclean node) in
        let others = λ (a : ℕ). contains-without g.dirty node a in
        relink-IsCache std_hash i (node ∷ g.recent) (without node g.dirty) (add_to node c.recency)
          rest (assign node (reset_dirty (c.blocks node)) c.blocks)
          (add_to-IsList node g.recent c.recency out i.recency) l (λ a. ground (arith, others a))
          (λ a h. ground (arith, i.clean a)) (λ a h. ground (arith, others a, i.unclean a))
          (λ a k h. ground (arith, i.untouched a k)) (λ a. ground arith)

    pub flushed-blocks : flushed.blocks ≡ assign node (reset_dirty (c.blocks node)) c.blocks
    unfolding add_to_recency_list
    flushed-blocks = refl

    pub flushed-KeepsFree : KeepsFree g c flushed_shape flushed
    unfolding add_to_recency_list
    flushed-KeepsFree = (refl, omega arith)

    -- Every name and address holds what it held, but for the flushed block, which is all clean.
    held_flushed :
        (f a : ℕ)
        → let b = c.blocks node in
          holds_block std_hash f a flushed ≡ (
            if f == b.fdes && a == b.addr then some (reset_dirty b) else holds_block std_hash f a c)
    unfolding holds_block
    held_flushed f a =
        let b : CacheBlock = c.blocks node in
        let inside : cached g node ≡ true = ground arith in
        let found = lookup-cached std_hash i b.fdes b.addr node inside refl refl in
        let one =
          written-holds_block std_hash i flushed-IsCache b.fdes b.addr node f a reset_dirty found
            (λ n. ground (arith, contains-without g.dirty node n)) flushed-blocks
            (λ b. (refl, refl)) in
        elim (Bool-cases (f == b.fdes && a == b.addr)) [
          | inl eq ↦
              let same : lookup std_hash f a c ≡ some node = ground arith in
              let held : holds_block std_hash f a c ≡ some b = rw (same, holds_block) refl in
              one ∙ (rw (eq, held) refl)
          | inr ne ↦ one ∙ (rw ne refl)
        ]

    pub flushed-holds_block :
        (f a : ℕ)
        → Option.map cleaned (holds_block std_hash f a flushed)
          ≡ Option.map cleaned (holds_block std_hash f a c)
    unfolding holds_block
    flushed-holds_block f a =
        let b : CacheBlock = c.blocks node in
        elim (Bool-cases (f == b.fdes && a == b.addr)) [
          | inl eq ↦
              let inside : cached g node ≡ true = ground arith in
              let found = lookup-cached std_hash i b.fdes b.addr node inside refl refl in
              let same : lookup std_hash f a c ≡ some node = ground arith in
              let held : holds_block std_hash f a c ≡ some b = rw (same, holds_block) refl in
              rw (held_flushed f a, eq, held) (ground (arith, i.unclean node))
          | inr ne ↦ rw (held_flushed f a, ne) refl
        ]

-- What one round comes to that flushes the block of a node: the block stays, all clean.
abbrev pub IsFlushed : (std_hash : ℕ → ℕ) → Shape → Cache → ℕ → Cache → Type 0
IsFlushed std_hash g c node c' =
    let b = c.blocks node in
    (flush_lru c ≡ some (c', b ∷ []))
    × (holds_block std_hash b.fdes b.addr c ≡ some b)
    × (b.clean ≡ false)
    × ((g' : Shape) × IsCache std_hash g' c' × KeepsFree g c g' c')
    × ((f a : ℕ)
        → holds_block std_hash f a c' ≡ (
            if f == b.fdes && a == b.addr
            then some (reset_dirty b)
            else holds_block std_hash f a c))

pub flush_lru-holds_block :
    (std_hash : ℕ → ℕ) (g : Shape) (c : Cache)
    → IsCache std_hash g c
    → ((node : ℕ) → last g.dirty ≡ some node → (c' : Cache) × IsFlushed std_hash g c node c')
      × (last g.dirty ≡ none → flush_lru c ≡ some (c, []))
unfolding flush_lru
flush_lru-holds_block std_hash g c i =
    let (r, took, l) = remove_lru-IsList g.dirty c.dirty_list i.dirty in
    (
      λ node e.
          let m = last-contains g.dirty node (ground arith) in
          let l' : IsList (without node g.dirty) r =
            subst (λ xs. IsList xs r) (rw (e, without_last) refl) l in
          let took' : remove_lru c.dirty_list ≡ some (some node, r) =
            took ∙ ap (λ (o : Option.Option ℕ). some (o, r)) e in
          let unclean = i.unclean node m in
          let inside : cached g node ≡ true = ground arith in
          let b : CacheBlock = c.blocks node in
          let here = node-holds_block std_hash i node inside in
          (
            flushed std_hash i node r,
            (
              rw (flush_lru, took', unclean) refl,
              here,
              unclean,
              (
                flushed_shape std_hash i node r,
                flushed-IsCache std_hash i node r m l',
                flushed-KeepsFree std_hash i node r m l',
              ),
              held_flushed std_hash i node r m l',
            ),
          ),
      λ e.
          let took' : remove_lru c.dirty_list ≡ some (none, r) =
            took ∙ ap (λ (o : Option.Option ℕ). some (o, r)) e in
          rw (flush_lru, took') refl,
    )
