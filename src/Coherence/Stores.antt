-- ===== src/Coherence/Stores.antt =====
-- The rounds of `writeFile`: the file changes where it is written, and nowhere else.
use mathlib.Core.Option
use pfs.Base.{
  ℕ, ◌+◌, ◌-◌, ◌*◌, ◌/◌, ◌%◌, ◌^◌, ◌≤◌, ◌<◌, ◌≡◌, refl, ap, subst, ◌∙◌, inl, inr, Bool, true, false,
  ◌&&◌, none, some, List, ◌∷◌, arith, leb, ltb, ◌==◌, ==_iff, if◌then◌else◌, Bool-cases,
  Option-cases,
}
use pfs.Cache.{Cache, CacheBlock, done, lookup, write, written}
use pfs.Cache
use pfs.Cache.Methods.{holds_block}
use pfs.Cache.Reads.{is_some, write-holds_block}
use pfs.Client.{PfsClient}
use pfs.Client.Transfers.{fetch_block, store_block}
use pfs.Client.Writes.{store_miss, store_hit, write_missed}
use pfs.Placement.{Servers}
use pfs.Placement.Io.{fetch_of}
use pfs.Placement.Bytes.{zeros, byte_served}
use pfs.Coherence.{Store, replay}
use pfs.Coherence.View.{IsCoherent, written-IsCoherent}
use pfs.Coherence.Changes.{contents_at, changed-IsConsistent}
use pfs.Coherence.Rounds.{IsAt, fetch_block-IsFetched}

lookup-held :
    (std_hash : ℕ → ℕ) (filedes addr node : ℕ) (c : Cache)
    → lookup std_hash filedes addr c ≡ some node
    → holds_block std_hash filedes addr c ≡ some (c.blocks node)
unfolding holds_block
lookup-held std_hash filedes addr node c e = rw (holds_block, e) refl

module _ (std_hash : ℕ → ℕ) (p : PfsClient) (found_at filedes : ℕ) (initial : ℕ → ℕ) (w : Store)
    (within : w.offset % 1024 + w.size ≤ 1024) (fits : w.offset < 2 ^ 31) (ws : List Store) where
  replay_here :
      (b : CacheBlock) (x : ℕ)
      → (x / 1024 * 1024 == w.offset / 1024 * 1024) ≡ true
      → b.bytes (x % 1024) ≡ replay initial ws x
      → (written (w.offset % 1024) w.size w.source b).bytes (x % 1024) ≡ replay initial (w ∷ ws) x
  replay_here b x eq old =
      let block : x / 1024 * 1024 ≡ w.offset / 1024 * 1024 = ground arith in
      let place : x % 1024 - w.offset % 1024 ≡ x - w.offset = omega arith in
      let covers : (leb (w.offset % 1024) (x % 1024) && ltb (x % 1024) (w.offset % 1024 + w.size))
          ≡ (leb w.offset x && ltb x (w.offset + w.size)) =
        ground arith in
      rw (covers, place, old) refl

  replay_there :
      (x : ℕ)
      → (x / 1024 * 1024 == w.offset / 1024 * 1024) ≡ false
      → replay initial (w ∷ ws) x ≡ replay initial ws x
  replay_there x ne = ground arith

  module _ {ss : Servers} {c : Cache} (con : IsAt std_hash p found_at filedes initial ws ss c) where
    abbrev addr : ℕ
    addr = w.offset / 1024 * 1024

    same_written :
        (b : CacheBlock) (f a : ℕ)
        → holds_block std_hash filedes addr c ≡ some b
        → (if f == filedes && a == addr
            then Option.map (written (w.offset % 1024) w.size w.source) (holds_block std_hash f a c)
            else holds_block std_hash f a c)
          ≡ (if f == filedes && a == addr
              then some (written (w.offset % 1024) w.size w.source b)
              else holds_block std_hash f a c)
    same_written b f a here = elim (Bool-cases (f == filedes && a == addr)) [
      | inr ne ↦ rw ne refl
      | inl eq ↦
          let same_f : f ≡ filedes = (==_iff f filedes).0 (ground arith) in
          let same_a : a ≡ addr = (==_iff a addr).0 (ground arith) in
          let here' : holds_block std_hash f a c ≡ some b = rw (same_f, same_a) here in
          rw (eq, here') refl
    ]

    write-IsAt :
        (b : CacheBlock)
        → holds_block std_hash filedes addr c ≡ some b
        → ((write std_hash filedes w.offset w.size w.source c).1 ≡ true)
          × IsAt std_hash p found_at filedes initial
              (w ∷ ws)
              ss
              (write std_hash filedes w.offset w.size w.source c).0
    write-IsAt b here =
        let (result, (g', i', kept), held) =
          write-holds_block std_hash con.cache filedes w.offset w.size w.source in
        let hit : is_some (holds_block std_hash filedes addr c) ≡ true = rw here refl in
        let good : IsCoherent (some b) (byte_served found_at p ss addr) =
          subst (λ o. IsCoherent o (byte_served found_at p ss addr)) here (con.coherent addr) in
        (
          result ∙ hit,
          changed-IsConsistent std_hash p found_at filedes initial con addr (omega arith)
              (omega arith) (w ∷ ws) ss (write std_hash filedes w.offset w.size w.source c).0 g'
              (some (written (w.offset % 1024) w.size w.source b)) i'
              (omega (arith, con.roomy, kept.0, kept.1)) con.served
              (λ f a. held f a ∙ same_written b f a here) (λ a k ne za fa small. refl)
              (written-IsCoherent b (byte_served found_at p ss addr) good (w.offset % 1024) w.size
                w.source)
              (λ x lt eq.
                replay_here b x eq
                  (contents_at std_hash p found_at filedes initial con addr x (some b) here eq lt))
              (λ x ne. replay_there x ne),
        )

  module _ {ss : Servers} {c : Cache} (con : IsAt std_hash p found_at filedes initial ws ss c) where
    store_blocked :
        lookup std_hash filedes (w.offset / 1024 * 1024) c ≡ none
        → fetch_block std_hash (fetch_of found_at zeros ss p) filedes (w.offset / 1024 * 1024) c
          ≡ Cache.blocked
        → store_block std_hash
            (fetch_of found_at zeros ss p)
            filedes
            (w.offset / 1024 * 1024)
            w.offset
            w.size
            w.source
            c
          ≡ Cache.blocked
    unfolding store_block
    store_blocked miss stuck =
        let gone =
          write_missed std_hash (fetch_of found_at zeros ss p) filedes w.offset w.size w.source c
            miss in
        let result = ap (λ (r : Cache × Bool). r.1) gone in
        let same = ap (λ (r : Cache × Bool). r.0) gone in rw (store_block, result, same, stuck) refl

    -- A round of `writeFile` that returns has written its part of the file.
    pub store_block-replay :
        (c' : Cache) (hit : Bool)
        → store_block std_hash
            (fetch_of found_at zeros ss p)
            filedes
            (w.offset / 1024 * 1024)
            w.offset
            w.size
            w.source
            c
          ≡ done hit c'
        → IsAt std_hash p found_at filedes initial (w ∷ ws) ss c'
    store_block-replay c' hit run =
        let fetch = fetch_of found_at zeros ss p in
        elim (Option-cases (lookup std_hash filedes (w.offset / 1024 * 1024) c)) [
          | inl miss ↦
              elim (fetch_block-IsFetched std_hash p found_at filedes initial con
                (w.offset / 1024 * 1024) (omega arith) (omega arith) miss) [
                  | inl stuck ↦ absurd (cc (store_blocked miss stuck, run))
                  | inr (c1, (bytes1, run1, con1, value, (node, found))) ↦
                      let run' =
                        store_miss std_hash fetch filedes w.offset w.size w.source c c1 bytes1 miss
                          run1 in
                      let same : (write std_hash filedes w.offset w.size w.source c1).0 ≡ c' =
                        cc (run', run) in
                      subst (IsAt std_hash p found_at filedes initial (w ∷ ws) ss) same
                        (write-IsAt con1 (c1.blocks node)
                          (lookup-held std_hash filedes (w.offset / 1024 * 1024) node c1 found)).1
                ]
          | inr (node, e) ↦
              let (found, now) =
                write-IsAt con (c.blocks node)
                  (lookup-held std_hash filedes (w.offset / 1024 * 1024) node c e) in
              let run' = store_hit std_hash fetch filedes w.offset w.size w.source c found in
              let same : (write std_hash filedes w.offset w.size w.source c).0 ≡ c' =
                cc (run', run) in
              subst (IsAt std_hash p found_at filedes initial (w ∷ ws) ss) same now
        ]
