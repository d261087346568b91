-- ===== src/Coherence/Rounds.antt =====
-- The rounds of `readFile` and `writeFile`: a read sees the file, and a write changes it.
use mathlib.Core.Option
use pfs.Base.{
  ℕ, ◌+◌, ◌*◌, ◌/◌, ◌%◌, ◌^◌, ◌≤◌, ◌<◌, ◌≡◌, ◌⊎◌, refl, ap, subst, ◌∙◌, inl, inr, Bool, true, none,
  some, List, arith, ltb, ◌==◌, length, get_or, Bool-cases, Option-cases,
}
use pfs.Cache.{Cache, CacheBlock, done, lookup, add_block, write, written}
use pfs.Cache
use pfs.Cache.Methods.{holds_block, missing-holds_block}
use pfs.Cache.Reads.{read_block-holds_block}
use pfs.Cache.Additions.{add_block-blocked, add_block-holds_block}
use pfs.Client.{PfsClient}
use pfs.Client.Transfers.{fetch_block, load_block}
use pfs.Client.Rounds.{held_lookup, load_miss, load_hit, missed}
use pfs.Placement.{Servers}
use pfs.Placement.Io.{fetch_of}
use pfs.Placement.Bytes.{zeros, byte_served, get_block-byte_served}
use pfs.Coherence.{Store, replay}
use pfs.Coherence.View.{view}
use pfs.Coherence.Changes.{IsConsistent, contents_at, changed-IsConsistent, same-IsConsistent}

module _ (std_hash : ℕ → ℕ) (p : PfsClient) (found_at filedes : ℕ) (initial : ℕ → ℕ) where
  -- A state of the client with what holds of it.
  abbrev pub IsAt : List Store → Servers → Cache → Type 0
  IsAt = IsConsistent std_hash p found_at filedes initial

  module _ {ws : List Store} {ss : Servers} {c : Cache} (con : IsAt ws ss c) (addr : ℕ)
      (aligned : addr % 1024 ≡ 0) (fits : addr < 2 ^ 31) where
    -- What a block that was not cached comes to.
    abbrev pub IsFetched : Cache → Type 0
    IsFetched c' =
        (bytes : ℕ → ℕ) × (fetch_block std_hash (fetch_of found_at zeros ss p) filedes addr c
          ≡ done bytes c')
        × IsAt ws ss c'
        × ((k : ℕ) → k < 1024 → bytes k ≡ byte_served found_at p ss addr k)
        × ((node : ℕ) × (lookup std_hash filedes addr c' ≡ some node))

    -- A block that is not cached is fetched, which changes nothing of the file, if there is room for it.
    pub fetch_block-IsFetched :
        lookup std_hash filedes addr c ≡ none
        → (fetch_block std_hash (fetch_of found_at zeros ss p) filedes addr c ≡ Cache.blocked)
          ⊎ ((c' : Cache) × IsFetched c')
    unfolding fetch_block
    fetch_block-IsFetched miss =
        let (out, got, value) = get_block-byte_served found_at p ss addr con.served aligned fits in
        let source : ℕ → ℕ = λ k. get_or out k 0 in
        elim (Bool-cases (ltb c.free_block_semaphore 2)) [
          | inl few ↦
              let stuck = add_block-blocked std_hash filedes addr source c aligned (ground arith) in
              inl (rw (fetch_block, got, stuck) refl)
          | inr enough ↦
              let roomy = con.roomy in
              let (c', b, run, spent, (g', i', fewer), held, clean, same) =
                add_block-holds_block std_hash con.shape c filedes addr source con.cache aligned
                  miss (ground arith) (ground arith) in
              let here : holds_block std_hash filedes addr c' ≡ some b =
                held filedes addr ∙ (ground arith) in
              let before : holds_block std_hash filedes addr c ≡ none =
                missing-holds_block std_hash filedes addr filedes addr c miss (ground arith) in
              inr (
                c',
                (
                  source,
                  rw (fetch_block, got, run) refl,
                  changed-IsConsistent std_hash p found_at filedes initial con addr aligned fits ws
                      ss c' g' (some b) i' (ground arith) con.served held
                      (λ a k ne za fa small. refl)
                      (λ k small none_dirty. same k small ∙ value k small)
                      (λ x lt eq.
                        same (x % 1024) (omega arith)
                        ∙ value (x % 1024) (omega arith)
                        ∙ contents_at std_hash p found_at filedes initial con addr x none before eq
                            lt)
                      (λ x ne. refl),
                  value,
                  held_lookup std_hash filedes addr c' b here,
                ),
              )
        ]

    load_blocked :
        lookup std_hash filedes addr c ≡ none
        → fetch_block std_hash (fetch_of found_at zeros ss p) filedes addr c ≡ Cache.blocked
        → load_block std_hash (fetch_of found_at zeros ss p) filedes addr c ≡ Cache.blocked
    unfolding load_block
    load_blocked miss stuck =
        let gone = missed std_hash (fetch_of found_at zeros ss p) filedes addr c miss in
        let result = ap (λ (r : Cache × Option.Option (ℕ → ℕ)). r.1) gone in
        let same = ap (λ (r : Cache × Option.Option (ℕ → ℕ)). r.0) gone in
        rw (load_block, result, same, stuck) refl

    held_replay :
        (k : ℕ)
        → k < 1024
        → (o : Option.Option CacheBlock) → holds_block std_hash filedes addr c ≡ o
        → view o (byte_served found_at p ss addr) k ≡ replay initial ws (addr + k)
    held_replay k small o h =
        let same : (addr + k) % 1024 ≡ k = omega arith in
        let here : ((addr + k) / 1024 * 1024 == addr) ≡ true = ground arith in
        let lt : addr + k < 2 ^ 31 = omega arith in
        subst (λ j. view o (byte_served found_at p ss addr) j ≡ replay initial ws (addr + k)) same
          (contents_at std_hash p found_at filedes initial con addr (addr + k) o h here lt)

    -- What a round of `readFile` comes to: the bytes of the file, and the block is cached.
    abbrev pub IsLoaded : Cache → (ℕ → ℕ) → Type 0
    IsLoaded c' bytes =
        IsAt ws ss c'
        × ((k : ℕ) → k < 1024 → bytes k ≡ replay initial ws (addr + k))
        × ((b : CacheBlock) × (holds_block std_hash filedes addr c' ≡ some b))

    -- A round of `readFile` that returns has the bytes of the file, which stays as it is.
    pub load_block-replay :
        (c' : Cache) (bytes : ℕ → ℕ) (hit : Bool)
        → load_block std_hash (fetch_of found_at zeros ss p) filedes addr c ≡ done (bytes, hit) c'
        → IsLoaded c' bytes
    unfolding holds_block
    load_block-replay c' bytes hit run =
        let fetch = fetch_of found_at zeros ss p in
        elim (Option-cases (lookup std_hash filedes addr c)) [
          | inl miss ↦
              let before : holds_block std_hash filedes addr c ≡ none =
                missing-holds_block std_hash filedes addr filedes addr c miss (ground arith) in
              elim (fetch_block-IsFetched miss) [
                | inl stuck ↦ absurd (cc (load_blocked miss stuck, run))
                | inr (c1, (bytes1, run1, con1, value, (node, found))) ↦
                    let run' = load_miss std_hash fetch filedes addr c c1 bytes1 miss run1 in
                    let same : (c1, bytes1) ≡ (c', bytes) = cc (run', run) in
                    subst (λ (r : Cache × (ℕ → ℕ)). IsLoaded r.0 r.1) same
                      (
                        con1,
                        λ k small. value k small ∙ held_replay k small none before,
                        (c1.blocks node, rw (holds_block, found) refl),
                      )
              ]
          | inr (node, e) ↦
              let held : holds_block std_hash filedes addr c ≡ some (c.blocks node) =
                rw (holds_block, e) refl in
              let (value, (g', i', kept), all) =
                read_block-holds_block std_hash con.cache filedes addr in
              let run' = load_hit std_hash fetch filedes addr c node e in
              let c1 : Cache = (Cache.read_block std_hash filedes addr c).0 in
              let roomy' : 2048 + c1.free_block_semaphore ≤ 2 * length g'.free =
                omega (arith, con.roomy, kept.0, kept.1) in
              let same : (c1, (c.blocks node).bytes) ≡ (c', bytes) = cc (run', run) in
              subst (λ (r : Cache × (ℕ → ℕ)). IsLoaded r.0 r.1) same
                (
                  same-IsConsistent std_hash p found_at filedes initial con c1 g' i' roomy' all,
                  λ k small. held_replay k small (some (c.blocks node)) held,
                  (c.blocks node, all filedes addr ∙ held),
                )
        ]
