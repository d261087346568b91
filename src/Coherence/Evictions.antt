-- ===== src/Coherence/Evictions.antt =====
-- Several blocks are evicted, one after the other: no flush fails, and the servers have their bytes.
use pfs.Base.{
  ℕ, ◌*◌, ◌/◌, ◌%◌, ◌^◌, ◌<◌, ◌≡◌, refl, sym, subst, ◌∙◌, inl, inr, true, none, some, List, [], ◌∷◌,
  ◌++◌, arith, Option-cases, Bool-cases,
}
use pfs.Cache.{Cache, CacheBlock, evict_block}
use pfs.Cache.Order.{contains}
use pfs.Cache.Methods.{holds_block}
use pfs.Client.{PfsClient, find_descriptor}
use pfs.Client.Transfers.{part}
use pfs.Client.Revocations.{evict_blocks, evict_blocks-IsEvicted}
use pfs.Placement.{Servers}
use pfs.Placement.Flush.{flush}
use pfs.Placement.Bytes.{IsServed, byte_served}
use pfs.Coherence.{Store, replay, History, flush_blocks}
use pfs.Coherence.Runs.{
  first_bytes, History-IsConsistent, flush_blocks-History, missing-byte_served,
}

flush_blocks-append :
    (p : PfsClient) (xs ys : List CacheBlock) (ss ss1 ss2 : Servers)
    → flush_blocks p xs ss ≡ some ss1
    → flush_blocks p ys ss1 ≡ some ss2
    → flush_blocks p (xs ++ ys) ss ≡ some ss2
unfolding flush_blocks
flush_blocks-append p [] ys ss ss1 ss2 first later =
    let same : ss ≡ ss1 = cc first in subst (λ s. flush_blocks p ys s ≡ some ss2) (sym same) later
flush_blocks-append p (b ∷ xs) ys ss ss1 ss2 first later =
    let sent = flush b.fdes b.addr (part b.bytes 0 1024) b.dirty p ss in
    elim (Bool-cases b.clean) [
      | inl clean ↦ absurd (ground (arith, clean, first))
      | inr unclean ↦ elim (Option-cases sent) [
        | inl failed ↦ absurd (ground (arith, unclean, failed, first))
        | inr (s, run) ↦
            let rest : flush_blocks p xs s ≡ some ss1 = sym (rw (unclean, run) refl) ∙ first in
            rw (unclean, run) (flush_blocks-append p xs ys s ss1 ss2 rest later)
      ]
    ]

module _ (std_hash : ℕ → ℕ) (p : PfsClient) (found_at filedes : ℕ) (memory : ℕ → CacheBlock)
    (start : Servers) (known : find_descriptor filedes p ≡ some found_at)
    (served : IsServed found_at p start) where
  evict_blocks-History :
      (bs : List ℕ) (ws : List Store) (ss : Servers) (c : Cache)
      → History std_hash p found_at filedes memory start ws ss c
      → let (c', flushed) = evict_blocks std_hash filedes bs c in
        (ss' : Servers) × (flush_blocks p flushed ss ≡ some ss')
        × History std_hash p found_at filedes memory start ws ss' c'
  unfolding evict_blocks flush_blocks
  evict_blocks-History [] ws ss c h = (ss, refl, h)
  evict_blocks-History (a ∷ bs) ws ss c h =
      let (_, _, evicted) =
        flush_blocks-History std_hash p found_at filedes memory start known served ws ss c h in
      let (ss1, run1, h1, _) = evicted a in
      let c1 : Cache = (evict_block std_hash filedes a c).0 in
      let (ss2, run2, h2) = evict_blocks-History bs ws ss1 c1 h1 in
      (
        ss2,
        flush_blocks-append p (evict_block std_hash filedes a c).1
            (evict_blocks std_hash filedes bs c1).1 ss ss1 ss2 run1 run2,
        h2,
      )

  -- Then the servers have the file's bytes of every block of the list.
  pub evict_blocks-replay :
      (bs : List ℕ) (ws : List Store) (ss : Servers) (c : Cache)
      → History std_hash p found_at filedes memory start ws ss c
      → let (c', flushed) = evict_blocks std_hash filedes bs c in
        (ss' : Servers) × (flush_blocks p flushed ss ≡ some ss')
        × History std_hash p found_at filedes memory start ws ss' c'
        × ((x : ℕ)
            → x < 2 ^ 31
            → contains (x / 1024 * 1024) bs ≡ true
            → byte_served found_at p ss' (x / 1024 * 1024) (x % 1024)
              ≡ replay (first_bytes p found_at start) ws x)
  evict_blocks-replay bs ws ss c h =
      let con =
        History-IsConsistent std_hash p found_at filedes memory start known served ws ss c h in
      let (_, held, _) = evict_blocks-IsEvicted std_hash filedes bs con.shape c con.cache in
      let (ss', sent, h') = evict_blocks-History bs ws ss c h in
      let c' : Cache = (evict_blocks std_hash filedes bs c).0 in
      (
        ss',
        sent,
        h',
        λ x lt among.
            let gone : holds_block std_hash filedes (x / 1024 * 1024) c' ≡ none =
              held filedes (x / 1024 * 1024) ∙ (ground (arith, among)) in
            missing-byte_served std_hash p found_at filedes memory start known served ws ss' c' h' x
              lt gone,
      )
