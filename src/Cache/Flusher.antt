-- ===== src/Cache/Flusher.antt =====
-- `cacheFlusher`: one pass leaves no dirty block, and gives each to the file servers once.
use mathlib.Core.Option
use mathlib.Core.List.{reverse}
use pfs.Base.{
  ℕ, zero, suc, ◌<◌, ◌≡◌, refl, sym, ap, subst, ◌∙◌, inl, inr, true, false, some, List, [], ◌∷◌,
  map, arith, length, length-append, Option-cases,
}
use pfs.Cache.Order.{contains, without, last, contains-without, last-contains}
use pfs.Cache.Links.{LinkedList, remove_lru}
use pfs.Cache.Links.Refines.{IsList, remove_lru-IsList, without_last}
use pfs.Cache.Invariant.{Shape, IsCache, lookup-some}
use pfs.Cache.Methods.{KeepsFree, holds_block}
use pfs.Cache.{Cache, CacheBlock, reset_dirty, change_block, add_to_recency_list, lookup}
use pfs.Cache.Threads.{cache_flusher}
use pfs.Cache.Ends.{without-last, reverse-last, last-none, map-same, contains-reverse}
use pfs.Cache.Flushed.{
  cleaned, flushed, flushed_shape, flushed-IsCache, flushed-KeepsFree, flushed-blocks,
  flushed-holds_block,
}

flush_round :
    (fuel : ℕ) (c : Cache) (node : ℕ) (rest : LinkedList) (c' : Cache) (bs : List CacheBlock)
    → remove_lru c.dirty_list ≡ some (some node, rest)
    → (c.blocks node).clean ≡ false
    → cache_flusher fuel
        (add_to_recency_list node (change_block node reset_dirty (record c { dirty_list = rest })))
      ≡ some (c', bs)
    → cache_flusher (suc fuel) c ≡ some (c', c.blocks node ∷ bs)
unfolding cache_flusher
flush_round fuel c node rest c' bs took unclean run = ground arith

-- The blocks of the later rounds are as they were.
flushed-list :
    (std_hash : ℕ → ℕ) {g : Shape} {c : Cache} (i : IsCache std_hash g c) (node : ℕ)
    (rest : LinkedList)
    → contains node g.dirty ≡ true
    → IsList (without node g.dirty) rest
    → last g.dirty ≡ some node
    → c.blocks node ∷ map (flushed std_hash i node rest).blocks (reverse (without node g.dirty))
      ≡ map c.blocks (reverse g.dirty)
flushed-list std_hash {g} {c} i node rest m l e =
    let later =
      map-same (flushed std_hash i node rest).blocks c.blocks (reverse (without node g.dirty))
        (λ a h.
          ap (λ (b : ℕ → CacheBlock). b a) (flushed-blocks std_hash i node rest m l)
          ∙ (ground (
            arith,
            contains-reverse a (without node g.dirty),
            contains-without g.dirty node a,
          ))) in
    ap (◌∷◌ (c.blocks node)) later
    ∙ sym (ap (map c.blocks) (reverse-last g.dirty node i.dirty.distinct e))

-- Where nothing is dirty, nothing is left to clean.
clean-holds_block :
    (std_hash : ℕ → ℕ) {g : Shape} {c : Cache} (i : IsCache std_hash g c) (f a : ℕ)
    → g.dirty ≡ []
    → holds_block std_hash f a c ≡ Option.map cleaned (holds_block std_hash f a c)
unfolding holds_block
clean-holds_block std_hash {g} {c} i f a none_dirty = elim (Option-cases (lookup std_hash f a c)) [
  | inl e ↦ rw (e, holds_block) refl
  | inr (n, e) ↦
      let (m, _, _) = lookup-some std_hash i f a n e in
      let out : contains n g.dirty ≡ false = rw none_dirty refl in
      rw (e, holds_block) (ground (arith, i.clean n))
]

-- With a round for each dirty block and one more, a pass of the flusher ends. It has flushed the dirty
-- blocks, each once, the least recent first; afterwards none is dirty, and every name and address holds
-- the block that it held, clean. The invariant is kept.
pub cache_flusher_lem :
    (std_hash : ℕ → ℕ) (fuel : ℕ) (g : Shape) (c : Cache)
    → IsCache std_hash g c
    → length g.dirty < fuel
    → (c' : Cache) × (cache_flusher fuel c ≡ some (c', map c.blocks (reverse g.dirty)))
      × ((g' : Shape) × IsCache std_hash g' c' × (g'.dirty ≡ []) × KeepsFree g c g' c')
      × ((f a : ℕ) → holds_block std_hash f a c' ≡ Option.map cleaned (holds_block std_hash f a c))
unfolding cache_flusher
cache_flusher_lem std_hash zero g c i enough = absurd (omega arith)
cache_flusher_lem std_hash (suc fuel) g c i enough =
    let (r, took, l) = remove_lru-IsList g.dirty c.dirty_list i.dirty in
    elim (Option-cases (last g.dirty)) [
      | inl e ↦
          let empty = last-none g.dirty e in
          (
            c,
            rw (took ∙ ap (λ (o : Option.Option ℕ). some (o, r)) e, cache_flusher, empty) refl,
            (g, i, empty, (refl, omega arith)),
            λ f a. clean-holds_block std_hash i f a empty,
          )
      | inr (node, e) ↦
          let m = last-contains g.dirty node (ground arith) in
          let l' : IsList (without node g.dirty) r =
            subst (λ xs. IsList xs r) (rw (e, without_last) refl) l in
          let took' : remove_lru c.dirty_list ≡ some (some node, r) =
            took ∙ ap (λ (o : Option.Option ℕ). some (o, r)) e in
          let unclean = i.unclean node m in
          let shorter = ap length (without-last g.dirty node i.dirty.distinct e) in
          let (c', run, (g', i', empty, kept), held) =
            cache_flusher_lem std_hash fuel (flushed_shape std_hash i node r)
              (flushed std_hash i node r) (flushed-IsCache std_hash i node r m l')
              (ground (arith, shorter, length-append (without node g.dirty) (node ∷ []))) in
          let first_kept = flushed-KeepsFree std_hash i node r m l' in
          (
            c',
            flush_round fuel c node r c' _ took' unclean run
                ∙ ap (λ (bs : List CacheBlock). some (c', bs))
                    (flushed-list std_hash i node r m l' e),
            (g', i', empty, (kept.0 ∙ first_kept.0, kept.1)),
            λ f a. held f a ∙ flushed-holds_block std_hash i node r m l' f a,
          )
    ]
