-- ===== src/Coherence/Steps.antt =====
-- The steps that flush a block: what is seen of the file stays.
use mathlib.Core.Option
use pfs.Base.{
  ℕ, ◌%◌, ◌^◌, ◌<◌, ◌≡◌, refl, sym, ap, subst, ◌∙◌, inl, inr, Bool, ◌&&◌, none, some, List, [], ◌∷◌,
  arith, ◌==◌, ==_iff, if◌then◌else◌, Bool-cases, Option-cases,
}
use pfs.Cache.{Cache, CacheBlock, reset_dirty, evict_block}
use pfs.Cache.Order.{last}
use pfs.Cache.Invariant.{Shape, IsCache}
use pfs.Cache.Methods.{KeepsFree, holds_block}
use pfs.Cache.Evictions.{to_flush, evict_block-holds_block}
use pfs.Cache.Threads.{flush_lru, harvest_one}
use pfs.Cache.Flushed.{flush_lru-holds_block}
use pfs.Cache.Harvester.{oldest, harvest_one-holds_block, oldest-holds_block}
use pfs.Client.{PfsClient, find_descriptor}
use pfs.Placement.{Servers}
use pfs.Placement.Bytes.{byte_served}
use pfs.Coherence.{Store, flush_blocks}
use pfs.Coherence.View.{view, IsCoherent, flushed_over-bytes}
use pfs.Coherence.Held.{held_name, held_clean, to_flush-IsFlushedTo}
use pfs.Coherence.Changes.{IsConsistent, contents_at, changed-IsConsistent, same-IsConsistent}

module _ (std_hash : ℕ → ℕ) (p : PfsClient) (found_at filedes : ℕ)
    (known : find_descriptor filedes p ≡ some found_at) (initial : ℕ → ℕ) {ws : List Store}
    {ss : Servers} {c : Cache}
    (con : IsConsistent std_hash p found_at filedes initial ws ss c) where
  -- What a step comes to that leaves the file as it is: no assertion of a flush fails.
  abbrev pub Settles : List CacheBlock → Cache → Type 0
  Settles flushed c' =
      (ss' : Servers) × (flush_blocks p flushed ss ≡ some ss')
      × IsConsistent std_hash p found_at filedes initial ws ss' c'

  module _ (fdes addr : ℕ) (b : CacheBlock) (held : holds_block std_hash fdes addr c ≡ some b) where
    mine_here : (fdes ≡ filedes) × (addr % 1024 ≡ 0) × (addr < 2 ^ 31)
    mine_here = con.mine fdes addr b held

    -- The block is flushed if it is dirty, and then gone, or clean.
    flushed_lem :
        (new : Option.Option CacheBlock) (c' : Cache) (g' : Shape)
        → ((server' : ℕ → ℕ)
            → ((k : ℕ) → k < 1024 → server' k ≡ b.bytes k)
            → IsCoherent new server' × ((k : ℕ) → k < 1024 → view new server' k ≡ b.bytes k))
        → IsCache std_hash g' c'
        → KeepsFree con.shape c g' c'
        → ((f a : ℕ)
            → holds_block std_hash f a c'
              ≡ (if f == fdes && a == addr then new else holds_block std_hash f a c))
        → Settles (to_flush (some b)) c'
    flushed_lem new c' g' fresh i' kept held' =
        let (same, aligned, fits) = mine_here in
        let (named, at) = held_name std_hash con.cache fdes addr b held in
        let here : holds_block std_hash filedes addr c ≡ some b =
          subst (λ f. holds_block std_hash f addr c ≡ some b) same held in
        let good : IsCoherent (some b) (byte_served found_at p ss addr) =
          subst (λ o. IsCoherent o (byte_served found_at p ss addr)) here (con.coherent addr) in
        let (ss', run, (served', bytes)) =
          to_flush-IsFlushedTo p found_at filedes known ss con.served addr aligned fits b
            (named ∙ same) at (held_clean std_hash con.cache fdes addr b held) in
        let at_addr : (k : ℕ) → k < 1024 → byte_served found_at p ss' addr k ≡ b.bytes k =
          λ k small.
            bytes addr k aligned fits small
            ∙ (ground
                (arith, flushed_over-bytes b (byte_served found_at p ss addr) good k small)) in
        let (good', seen) = fresh (byte_served found_at p ss' addr) at_addr in
        (
          ss',
          run,
          changed-IsConsistent std_hash p found_at filedes initial con addr aligned fits ws ss' c'
              g' new i' (omega (arith, con.roomy, kept.0, kept.1)) served'
              (λ f a. held' f a ∙ (rw same refl))
              (λ a k ne za fa small. bytes a k za fa small ∙ (rw ne refl)) good'
              (λ x lt eq.
                seen (x % 1024) (omega arith)
                ∙ contents_at std_hash p found_at filedes initial con addr x (some b) here eq lt)
              (λ x ne. refl),
        )

    gone_lem :
        (c' : Cache) (g' : Shape)
        → IsCache std_hash g' c'
        → KeepsFree con.shape c g' c'
        → ((f a : ℕ)
            → holds_block std_hash f a c'
              ≡ (if f == fdes && a == addr then none else holds_block std_hash f a c))
        → Settles (to_flush (some b)) c'
    gone_lem c' g' = flushed_lem none c' g' (λ server' same. (tt, same))

    cleaned_lem :
        (c' : Cache) (g' : Shape)
        → IsCache std_hash g' c'
        → KeepsFree con.shape c g' c'
        → ((f a : ℕ)
            → holds_block std_hash f a c' ≡ (
                if f == fdes && a == addr
                then some (reset_dirty b)
                else holds_block std_hash f a c))
        → Settles (to_flush (some b)) c'
    cleaned_lem c' g' =
        flushed_lem (some (reset_dirty b)) c' g'
          (λ server' same. (λ k small clean. sym (same k small), λ k small. refl))

  nothing_flushed : flush_blocks p [] ss ≡ some ss
  unfolding flush_blocks
  nothing_flushed = refl

  -- `evictBlock` of a block of the file, cached or not.
  pub evict_block-Settles :
      (addr : ℕ) → let (c', flushed) = evict_block std_hash filedes addr c in Settles flushed c'
  evict_block-Settles addr =
      let (out, (g', i', kept), held') =
        evict_block-holds_block std_hash con.shape c filedes addr con.cache in
      let c' : Cache = (evict_block std_hash filedes addr c).0 in
      elim (Option-cases (holds_block std_hash filedes addr c)) [
        | inr (b, e) ↦
            subst (λ bs. Settles bs c') (sym (out ∙ ap to_flush e))
              (gone_lem filedes addr b e c' g' i' kept held')
        | inl e ↦
            subst (λ bs. Settles bs c') (sym (out ∙ ap to_flush e))
              (
                ss,
                nothing_flushed,
                same-IsConsistent std_hash p found_at filedes initial con c' g' i'
                    (omega (arith, con.roomy, kept.0, kept.1))
                    (λ f a. elim (Bool-cases (f == filedes && a == addr)) [
                      | inr ne ↦ held' f a ∙ (rw ne refl)
                      | inl eq ↦
                          held' f a
                          ∙ (rw eq (
                              sym (
                                subst (λ h. holds_block std_hash h a c ≡ none)
                                  (sym ((==_iff f filedes).0 (ground arith)))
                                  (subst (λ x. holds_block std_hash filedes x c ≡ none)
                                    (sym ((==_iff a addr).0 (ground arith))) e))))
                    ]),
              )
      ]

  -- A round of the flusher.
  pub flush_lru-Settles :
      (c' : Cache) (flushed : List CacheBlock)
      → flush_lru c ≡ some (c', flushed)
      → Settles flushed c'
  flush_lru-Settles c' flushed run =
      let (some_case, none_case) = flush_lru-holds_block std_hash con.shape c con.cache in
      elim (Option-cases (last con.shape.dirty)) [
        | inl e ↦
            let same : (c, []) ≡ (c', flushed) = cc (none_case e, run) in
            subst (λ (r : Cache × List CacheBlock). Settles r.1 r.0) same (ss, nothing_flushed, con)
        | inr (node, e) ↦
            let (c1, (run1, here, unclean, (g1, i1, kept), held1)) = some_case node e in
            let b : CacheBlock = c.blocks node in
            let sent : to_flush (some b) ≡ b ∷ [] =
              ap (λ (t : Bool). if t then [] else b ∷ []) unclean in
            let same : (c1, b ∷ []) ≡ (c', flushed) = cc (run1, run) in
            subst (λ (r : Cache × List CacheBlock). Settles r.1 r.0) same
              (subst (λ bs. Settles bs c1) sent
                (cleaned_lem b.fdes b.addr b here c1 g1 i1 kept held1))
      ]

  -- A round of the harvester.
  pub harvest_one-Settles :
      (c' : Cache) (flushed : List CacheBlock) (more : Bool)
      → harvest_one c ≡ some (c', flushed, more)
      → Settles flushed c'
  harvest_one-Settles c' flushed more run =
      let (some_case, none_case) = harvest_one-holds_block std_hash con.shape c con.cache in
      elim (Option-cases (oldest con.shape)) [
        | inl e ↦ absurd (cc (none_case e, run))
        | inr (node, e) ↦
            let (c1, (more1, run1, (g1, i1, kept, free), held1)) = some_case node e in
            let b : CacheBlock = c.blocks node in
            let here = oldest-holds_block std_hash con.shape c node con.cache e in
            let same : (c1, to_flush (some b), more1) ≡ (c', flushed, more) = cc (run1, run) in
            subst (λ (r : Cache × List CacheBlock × Bool). Settles r.1 r.0) same
              (gone_lem b.fdes b.addr b here c1 g1 i1 kept held1)
      ]
