-- ===== src/Coherence/Held.antt =====
-- A cached block has the name and the address that it is found under, and is dirty nowhere if it is
-- clean; and what its flush does to the bytes of the file.
use pfs.Base.{
  ℕ, ◌%◌, ◌^◌, ◌<◌, ◌≡◌, refl, sym, ap, subst, ◌∙◌, inl, inr, Bool, true, false, ◌&&◌, some, List,
  [], ◌∷◌, arith, ◌==◌, if◌then◌else◌, get_or, Bool-cases, Option-cases,
}
use pfs.Cache.{Cache, CacheBlock, lookup}
use pfs.Cache.Order.{contains}
use pfs.Cache.Invariant.{Shape, IsCache, lookup-some}
use pfs.Cache.Methods.{holds_block}
use pfs.Cache.Evictions.{to_flush}
use pfs.Client.{PfsClient, find_descriptor}
use pfs.Client.Transfers.{part}
use pfs.Client.Loads.{get_or-part}
use pfs.Placement.{Servers}
use pfs.Placement.Flush.{flush}
use pfs.Placement.Bytes.{IsServed, byte_served, flush-byte_served}
use pfs.Coherence.{flush_blocks}

module _ (std_hash : ℕ → ℕ) {g : Shape} {c : Cache} (i : IsCache std_hash g c) (fdes addr : ℕ) where
  held_node :
      (b : CacheBlock)
      → holds_block std_hash fdes addr c ≡ some b
      → (node : ℕ) × (lookup std_hash fdes addr c ≡ some node) × (c.blocks node ≡ b)
  unfolding holds_block
  held_node b h = elim (Option-cases (lookup std_hash fdes addr c)) [
    | inl e ↦ absurd (ground arith)
    | inr (node, e) ↦ (node, e, ground arith)
  ]

  pub held_name :
      (b : CacheBlock)
      → holds_block std_hash fdes addr c ≡ some b
      → (b.fdes ≡ fdes) × (b.addr ≡ addr)
  held_name b h =
      let (node, e, same) = held_node b h in
      let (m, f, a) = lookup-some std_hash i fdes addr node e in
      (
        ap (λ (x : CacheBlock). x.fdes) (sym same) ∙ f,
        ap (λ (x : CacheBlock). x.addr) (sym same) ∙ a,
      )

  pub held_clean :
      (b : CacheBlock)
      → holds_block std_hash fdes addr c ≡ some b
      → b.clean ≡ true
      → (k : ℕ) → b.dirty k ≡ false
  held_clean b h clean k =
      let (node, e, same) = held_node b h in
      let (m, f, a) = lookup-some std_hash i fdes addr node e in
      let clean' : (c.blocks node).clean ≡ true = ap (λ (x : CacheBlock). x.clean) same ∙ clean in
      let on : contains node g.recent ≡ true = ground (arith, i.unclean node) in
      ap (λ (x : CacheBlock). x.dirty k) (sym same) ∙ i.untouched node k on

module _ (p : PfsClient) (found_at filedes : ℕ) (known : find_descriptor filedes p ≡ some found_at)
    (ss : Servers) (served : IsServed found_at p ss) (addr : ℕ) (aligned : addr % 1024 ≡ 0)
    (fits : addr < 2 ^ 31) (b : CacheBlock) (named : b.fdes ≡ filedes) (at : b.addr ≡ addr) where
  -- The file's bytes once the block was flushed.
  abbrev pub IsFlushedTo : Servers → Type 0
  IsFlushedTo ss' =
      IsServed found_at p ss'
      × ((a k : ℕ)
          → a % 1024 ≡ 0
          → a < 2 ^ 31
          → k < 1024
          → byte_served found_at p ss' a k
            ≡ (if a == addr && b.dirty k then b.bytes k else byte_served found_at p ss a k))

  flush_nothing : flush_blocks p [] ss ≡ some ss
  unfolding flush_blocks
  flush_nothing = refl

  flush_block-IsFlushedTo :
      b.clean ≡ false → (ss' : Servers) × (flush_blocks p (b ∷ []) ss ≡ some ss') × IsFlushedTo ss'
  unfolding flush_blocks
  flush_block-IsFlushedTo unclean =
      let (ss', run, served', bytes) =
        flush-byte_served filedes found_at addr (part b.bytes 0 1024) b.dirty p ss known served
          aligned fits in
      let sent : flush b.fdes b.addr (part b.bytes 0 1024) b.dirty p ss ≡ some ss' =
        rw (named, at) run in
      (
        ss',
        rw (flush_blocks, unclean, sent) refl,
        (
          served',
          λ a k za fa small.
              let byte : get_or (part b.bytes 0 1024) k 0 ≡ b.bytes k =
                get_or-part b.bytes 0 1024 k small ∙ ap b.bytes (omega arith) in
              bytes a k za fa small
              ∙ ap (λ v. if a == addr && b.dirty k then v else byte_served found_at p ss a k) byte,
        ),
      )

  -- What has to be flushed of the block is, without a failed assertion.
  pub to_flush-IsFlushedTo :
      (b.clean ≡ true → (k : ℕ) → b.dirty k ≡ false)
      → (ss' : Servers) × (flush_blocks p (to_flush (some b)) ss ≡ some ss') × IsFlushedTo ss'
  to_flush-IsFlushedTo none_dirty =
      let sent = λ (t : Bool). if t then [] else b ∷ [] in
      let target = λ (bs : List CacheBlock).
        (ss' : Servers) × (flush_blocks p bs ss ≡ some ss') × IsFlushedTo ss' in
      elim (Bool-cases b.clean) [
        | inl clean ↦
            subst target (sym (ap sent clean))
              (ss, flush_nothing, (served, λ a k za fa small. ground (arith, none_dirty clean k)))
        | inr unclean ↦ subst target (sym (ap sent unclean)) (flush_block-IsFlushedTo unclean)
      ]
