-- ===== src/Client/Rounds.antt =====
-- One round of the loops of `readFile` and `writeFile`: a block that is cached, or fetched and added
-- (client/pfs_client.cpp).
use mathlib.Core.Option
use pfs.Base.{
  ℕ, ◌+◌, ◌*◌, ◌/◌, ◌%◌, ◌≤◌, ◌<◌, ◌≡◌, refl, ap, ◌∙◌, inl, inr, Bool, true, false, ◌&&◌, none,
  some, List, arith, ◌==◌, if◌then◌else◌, length, get_or, Bool-cases, Option-cases,
}
use pfs.Cache.Invariant.{Shape, IsCache}
use pfs.Cache.Methods.{holds_block, missing-holds_block}
use pfs.Cache.Reads.{read_block-holds_block}
use pfs.Cache.Additions.{add_block-holds_block}
use pfs.Cache.{Cache, CacheBlock, done, lookup, add_block}
use pfs.Cache
use pfs.Client.Transfers.{fetch_block, load_block, block_seen}

-- The invariant, and what the rounds of a loop have used: two units of the semaphore and a node each
-- at most.
abbrev pub Spends : (std_hash : ℕ → ℕ) → ℕ → Shape → Cache → Cache → Type 0
Spends std_hash rounds g c c' =
    (g' : Shape) × IsCache std_hash g' c'
    × (c.free_block_semaphore ≤ c'.free_block_semaphore + 2 * rounds)
    × (length g.free ≤ length g'.free + rounds)

pub held_lookup :
    (std_hash : ℕ → ℕ) (fdes addr : ℕ) (c : Cache) (b : CacheBlock)
    → holds_block std_hash fdes addr c ≡ some b
    → (node : ℕ) × (lookup std_hash fdes addr c ≡ some node)
unfolding holds_block
held_lookup std_hash fdes addr c b h = elim (Option-cases (lookup std_hash fdes addr c)) [
  | inl e ↦ absurd (ground arith)
  | inr found ↦ found
]

-- The blocks that a range touches.
abbrev pub rounds : ℕ → ℕ → ℕ
rounds offset nbyte = if nbyte == 0 then 0 else (offset % 1024 + nbyte + 1023) / 1024

module _ (std_hash : ℕ → ℕ) (fetch : ℕ → Option.Option (List ℕ)) (filedes : ℕ) where
  pub fetch_block-done :
      (addr : ℕ) (fetched : List ℕ) (g : Shape) (c : Cache)
      → IsCache std_hash g c
      → addr % 1024 ≡ 0
      → fetch addr ≡ some fetched
      → lookup std_hash filedes addr c ≡ none
      → 2 ≤ c.free_block_semaphore
      → 2 ≤ length g.free
      → (c' : Cache) × (fetch_block std_hash fetch filedes addr c
          ≡ done (λ k. get_or fetched k 0) c')
        × Spends std_hash 1 g c c'
        × ((node : ℕ) × (lookup std_hash filedes addr c' ≡ some node))
        × ((a k : ℕ)
            → k < 1024
            → block_seen std_hash fetch filedes a k c' ≡ block_seen std_hash fetch filedes a k c)
  unfolding fetch_block block_seen
  fetch_block-done addr fetched g c i aligned got miss units free =
      let (c', b, run, spent, (g', i', fewer), held, clean, same) =
        add_block-holds_block std_hash g c filedes addr (λ k. get_or fetched k 0) i aligned miss
          units free in
      (
        c',
        rw (fetch_block, got, run) refl,
        (g', i', omega arith, omega arith),
        held_lookup std_hash filedes addr c' b (held filedes addr ∙ (ground arith)),
        λ a k small. elim (Bool-cases (a == addr)) [
          | inl eq ↦
              let here : (filedes == filedes && a == addr) ≡ true = ground arith in
              let none_held = missing-holds_block std_hash filedes addr filedes a c miss here in
              let now : holds_block std_hash filedes a c' ≡ some b =
                held filedes a ∙ (rw here refl) in
              let at : fetch a ≡ some fetched = ground arith in
              rw (block_seen, now, none_held, at) (ap some (same k small))
          | inr ne ↦
              let now : holds_block std_hash filedes a c' ≡ holds_block std_hash filedes a c =
                held filedes a ∙ (ground arith) in
              rw (block_seen, now) refl
        ],
      )

  pub missed :
      (addr : ℕ) (c : Cache)
      → lookup std_hash filedes addr c ≡ none
      → Cache.read_block std_hash filedes addr c ≡ (c, none)
  unfolding Cache.read_block
  missed addr c miss = rw (Cache.read_block, miss) refl

  pub load_miss :
      (addr : ℕ) (c c' : Cache) (bytes : ℕ → ℕ)
      → lookup std_hash filedes addr c ≡ none
      → fetch_block std_hash fetch filedes addr c ≡ done bytes c'
      → load_block std_hash fetch filedes addr c ≡ done (bytes, false) c'
  unfolding load_block
  load_miss addr c c' bytes miss run =
      let result = ap (λ (r : Cache × Option.Option (ℕ → ℕ)). r.1) (missed addr c miss) in
      let same = ap (λ (r : Cache × Option.Option (ℕ → ℕ)). r.0) (missed addr c miss) in
      rw (load_block, result, same, run) refl

  hit_bytes :
      (addr : ℕ) (c : Cache) (node : ℕ)
      → lookup std_hash filedes addr c ≡ some node
      → (Cache.read_block std_hash filedes addr c).1 ≡ some (c.blocks node).bytes
  unfolding Cache.read_block
  hit_bytes addr c node e = rw (Cache.read_block, e) refl

  pub load_hit :
      (addr : ℕ) (c : Cache) (node : ℕ)
      → lookup std_hash filedes addr c ≡ some node
      → load_block std_hash fetch filedes addr c
        ≡ done ((c.blocks node).bytes, true) (Cache.read_block std_hash filedes addr c).0
  unfolding load_block
  load_hit addr c node e = rw (load_block, hit_bytes addr c node e) refl

  -- A round of `readFile` for a block of which the server has the bytes.
  pub load_block-done :
      (addr : ℕ) (fetched : List ℕ) (g : Shape) (c : Cache)
      → IsCache std_hash g c
      → addr % 1024 ≡ 0
      → fetch addr ≡ some fetched
      → 2 ≤ c.free_block_semaphore
      → 2 ≤ length g.free
      → (c' : Cache) × (bytes : ℕ → ℕ) × (hit : Bool) × (load_block std_hash fetch filedes addr c
          ≡ done (bytes, hit) c')
        × Spends std_hash 1 g c c'
        × ((k : ℕ) → k < 1024 → block_seen std_hash fetch filedes addr k c ≡ some (bytes k))
        × ((a k : ℕ)
            → k < 1024
            → block_seen std_hash fetch filedes a k c' ≡ block_seen std_hash fetch filedes a k c)
  unfolding block_seen holds_block
  load_block-done addr fetched g c i aligned got units free =
      elim (Option-cases (lookup std_hash filedes addr c)) [
        | inl miss ↦
            let (c', run, spent, _, same) =
              fetch_block-done addr fetched g c i aligned got miss units free in
            (
              c',
              λ k. get_or fetched k 0,
              false,
              load_miss addr c c' (λ k. get_or fetched k 0) miss run,
              spent,
              λ k small. rw (block_seen, holds_block, miss, got) refl,
              same,
            )
        | inr (node, e) ↦
            let (value, (g', i', kept), same) = read_block-holds_block std_hash i filedes addr in
            (
              (Cache.read_block std_hash filedes addr c).0,
              (c.blocks node).bytes,
              true,
              load_hit addr c node e,
              (g', i', omega (arith, kept.0), omega (arith, kept.1)),
              λ k small. rw (block_seen, holds_block, e) refl,
              λ a k small. rw (block_seen, same filedes a) refl,
            )
      ]
