-- ===== src/Cache/Reads.antt =====
-- `readBlock` and `write`: what they return, and what the cache holds afterwards.
use mathlib.Core.Option
use pfs.Base.{
  ℕ, ◌*◌, ◌/◌, ◌%◌, ◌≡◌, refl, ap, ◌∙◌, inl, inr, Bool, true, false, ◌&&◌, none, some, arith, ◌==◌,
  if◌then◌else◌, Bool-cases, Option-cases,
}
use pfs.Config.{pfs_block_size_in_bytes}
use pfs.Cache.Links.{assign}
use pfs.Cache.Invariant.{Shape, cached, IsCache, lookup-some}
use pfs.Cache.Methods.{KeepsFree, holds_block, missing-holds_block, lookup-same}
use pfs.Cache.{Cache, CacheBlock, lookup, read_block, write, written}
use pfs.Cache.Hits.{read_hit, write_hit}

abbrev pub is_some {ℓ} : {A : Type ℓ} → Option.Option A → Bool
is_some none = false
is_some (some a) = true

module _ (std_hash : ℕ → ℕ) {g : Shape} {c : Cache} (i : IsCache std_hash g c) where
  same-holds_block :
      {g' : Shape} {c' : Cache} (i' : IsCache std_hash g' c') (f a : ℕ)
      → ((n : ℕ) → cached g' n ≡ cached g n)
      → c'.blocks ≡ c.blocks
      → holds_block std_hash f a c' ≡ holds_block std_hash f a c
  unfolding holds_block
  same-holds_block {g'} {c'} i' f a all same =
      let at = λ (n : ℕ). ap (λ (b : ℕ → CacheBlock). b n) same in
      let found =
        lookup-same std_hash i i' f a all
          (λ n. (ap (λ (b : CacheBlock). b.fdes) (at n), ap (λ (b : CacheBlock). b.addr) (at n))) in
      elim (Option-cases (lookup std_hash f a c)) [
        | inl e ↦ rw (found ∙ e, holds_block, e) refl
        | inr (n, e) ↦ rw (found ∙ e, holds_block, e) (ap some (at n))
      ]

  -- One block is written to, and what it holds besides its name and address changes.
  pub written-holds_block :
      {g' : Shape} {c' : Cache} (i' : IsCache std_hash g' c') (fdes addr node f a : ℕ)
      (change : CacheBlock → CacheBlock)
      → lookup std_hash fdes addr c ≡ some node
      → ((n : ℕ) → cached g' n ≡ cached g n)
      → c'.blocks ≡ assign node (change (c.blocks node)) c.blocks
      → ((b : CacheBlock) → ((change b).fdes ≡ b.fdes) × ((change b).addr ≡ b.addr))
      → holds_block std_hash f a c' ≡ (
          if f == fdes && a == addr
          then Option.map change (holds_block std_hash f a c)
          else holds_block std_hash f a c)
  unfolding holds_block
  written-holds_block {g'} {c'} i' fdes addr node f a change hit all same keeps =
      let at = λ (n : ℕ). ap (λ (b : ℕ → CacheBlock). b n) same in
      let named = keeps (c.blocks node) in
      let found = lookup-same std_hash i i' f a all (λ n. ground (arith, at n)) in
      let here = lookup-some std_hash i fdes addr node hit in
      elim (Option-cases (lookup std_hash f a c)) [
        | inl e ↦ rw (found ∙ e, holds_block, e) (ground arith)
        | inr (n, e) ↦
            let there = lookup-some std_hash i f a n e in
            let value = at n in
            rw (found ∙ e, holds_block, e)
              (elim (Bool-cases (node == n)) [ inl eq ↦ ground arith | inr ne ↦ ground arith ])
      ]

  none_written :
      (fdes addr f a : ℕ) (change : CacheBlock → CacheBlock)
      → lookup std_hash fdes addr c ≡ none
      → holds_block std_hash f a c ≡ (
          if f == fdes && a == addr
          then Option.map change (holds_block std_hash f a c)
          else holds_block std_hash f a c)
  none_written fdes addr f a change miss = elim (Bool-cases (f == fdes && a == addr)) [
    | inl eq ↦
        let nothing = missing-holds_block std_hash fdes addr f a c miss eq in rw (eq, nothing) refl
    | inr ne ↦ rw ne refl
  ]

  -- `readBlock` returns the bytes of the block that is cached under the name and the address, if there is
  -- one, and keeps the invariant; afterwards each name and address holds the block that it held.
  pub read_block-holds_block :
      (fdes addr : ℕ)
      → let (c', result) = read_block std_hash fdes addr c in
        (result ≡ Option.map (λ b. b.bytes) (holds_block std_hash fdes addr c))
        × ((g' : Shape) × IsCache std_hash g' c' × KeepsFree g c g' c')
        × ((f a : ℕ) → holds_block std_hash f a c' ≡ holds_block std_hash f a c)
  unfolding read_block holds_block
  read_block-holds_block fdes addr = elim (Option-cases (lookup std_hash fdes addr c)) [
    | inl e ↦ (
      rw (e, read_block, holds_block) refl,
      rw (e, read_block) (g, i, (refl, omega arith)),
      λ f a. rw (e, read_block) refl,
    )
    | inr (node, e) ↦
        let (g', i', all, same, kept) =
          read_hit std_hash i node (lookup-some std_hash i fdes addr node e).0 in
        (
          rw (e, read_block, holds_block) refl,
          rw (e, read_block) (g', i', kept),
          λ f a. rw (e, read_block) (same-holds_block i' f a all same),
        )
  ]

  -- `write` says whether the block is cached. If it is, the block then holds the new bytes at their
  -- place, marked dirty, and is not clean; every other name and address holds what it held. The
  -- invariant is kept.
  pub write-holds_block :
      (fdes offset size : ℕ) (source : ℕ → ℕ)
      → let addr = offset / pfs_block_size_in_bytes * pfs_block_size_in_bytes in
        let (c', result) = write std_hash fdes offset size source c in
        (result ≡ is_some (holds_block std_hash fdes addr c))
        × ((g' : Shape) × IsCache std_hash g' c' × KeepsFree g c g' c')
        × ((f a : ℕ)
            → holds_block std_hash f a c' ≡ (
                if f == fdes && a == addr
                then Option.map
                    (written (offset % pfs_block_size_in_bytes) size source)
                    (holds_block std_hash f a c)
                else holds_block std_hash f a c))
  unfolding write holds_block
  write-holds_block fdes offset size source =
      let addr : ℕ = offset / pfs_block_size_in_bytes * pfs_block_size_in_bytes in
      elim (Option-cases (lookup std_hash fdes addr c)) [
        | inl e ↦ (
          rw (e, write, holds_block) refl,
          rw (e, write) (g, i, (refl, omega arith)),
          λ f a.
              rw (e, write)
                (none_written fdes addr f a (written (offset % pfs_block_size_in_bytes) size source)
                  e),
        )
        | inr (node, e) ↦
            let (g', i', all, same, kept) =
              write_hit std_hash i node (offset % pfs_block_size_in_bytes) size source
                (lookup-some std_hash i fdes addr node e).0 in
            (
              rw (e, write, holds_block) refl,
              rw (e, write) (g', i', kept),
              λ f a.
                  rw (e, write)
                    (written-holds_block i' fdes addr node f a
                      (written (offset % pfs_block_size_in_bytes) size source) e all same
                      (λ b. (refl, refl))),
            )
      ]
