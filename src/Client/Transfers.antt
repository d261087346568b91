-- ===== src/Client/Transfers.antt =====
-- The loops of `readFile` and `writeFile` (client/pfs_client.cpp) over the cache. `fetch` is
-- `getBlockFromFileServer` for the file. `blocked` is a call that waits for ever, or a loop whose fuel
-- ends; `crashed` is a failed assertion.
use pfs.Base.{
  ℕ, zero, suc, ◌+◌, ◌-◌, ◌*◌, ◌/◌, ◌%◌, Bool, true, false, ◌&&◌, Option, none, some, List, [], ◌∷◌,
  ◌++◌, ◌==◌, if◌then◌else◌, get_or,
}
use pfs.Cache.{Cache, CacheBlock, Run, done, add_block, write}
use pfs.Cache.Methods.{holds_block}
use pfs.Client.{Chunk, chunk_at}
use pfs.Cache

-- `size` bytes from an offset on.
abbrev pub part : (ℕ → ℕ) → ℕ → ℕ → List ℕ
part bytes at zero = []
part bytes at (suc n) = bytes at ∷ part bytes (suc at) n

module _ (std_hash : ℕ → ℕ) (fetch : ℕ → Option (List ℕ)) (filedes : ℕ) where
  -- A block that was missed is fetched and added.
  unfoldable pub fetch_block : ℕ → Cache → Run (ℕ → ℕ)
  unfolding add_block
  fetch_block addr c = elim (fetch addr) [
    | none ↦ Cache.crashed
    | some fetched ↦ elim (add_block std_hash filedes addr (λ k. get_or fetched k 0) c) [
      | Cache.blocked ↦ Cache.blocked
      | Cache.crashed ↦ Cache.crashed
      | done u c' ↦ done (λ k. get_or fetched k 0) c'
    ]
  ]

  -- The block of one round of `readFile`, and whether it was cached.
  unfoldable pub load_block : ℕ → Cache → Run ((ℕ → ℕ) × Bool)
  load_block addr c =
      let (c1, hit) = Cache.read_block std_hash filedes addr c in
      elim hit [
        | some bytes ↦ done (bytes, true) c1
        | none ↦ elim (fetch_block addr c1) [
          | Cache.blocked ↦ Cache.blocked
          | Cache.crashed ↦ Cache.crashed
          | done bytes c2 ↦ done (bytes, false) c2
        ]
      ]

  -- The loop of `readFile`: the bytes, and `cache_hit`.
  unfoldable pub read_loop : ℕ → ℕ → ℕ → Cache → Run (List ℕ × Bool)
  read_loop zero offset nbyte c = if nbyte == 0 then done ([], true) c else Cache.blocked
  read_loop (suc fuel) offset nbyte c =
      let chunk : Chunk = chunk_at offset nbyte in
      if nbyte == 0 then done ([], true) c else (elim (load_block chunk.block_addr c) [
        | Cache.blocked ↦ Cache.blocked
        | Cache.crashed ↦ Cache.crashed
        | done (bytes, hit) c1 ↦
            elim (read_loop fuel (offset + chunk.size) (nbyte - chunk.size) c1) [
              | Cache.blocked ↦ Cache.blocked
              | Cache.crashed ↦ Cache.crashed
              | done (rest, all_hit) c2 ↦
                  done (part bytes chunk.block_offset chunk.size ++ rest, hit && all_hit) c2
            ]
      ])

  -- One round of `writeFile`, and whether the block was cached. The result of the second write is not
  -- looked at.
  unfoldable pub store_block : ℕ → ℕ → ℕ → (ℕ → ℕ) → Cache → Run Bool
  store_block addr offset size source c =
      let (c1, hit) = write std_hash filedes offset size source c in
      if hit then done true c1 else (elim (fetch_block addr c1) [
        | Cache.blocked ↦ Cache.blocked
        | Cache.crashed ↦ Cache.crashed
        | done bytes c2 ↦ done false (write std_hash filedes offset size source c2).0
      ])

  -- The loop of `writeFile`: `cache_hit`.
  unfoldable pub write_loop : ℕ → ℕ → ℕ → (ℕ → ℕ) → Cache → Run Bool
  write_loop zero offset nbyte source c = if nbyte == 0 then done true c else Cache.blocked
  write_loop (suc fuel) offset nbyte source c =
      let chunk : Chunk = chunk_at offset nbyte in
      if nbyte == 0
      then done true c
      else (elim (store_block chunk.block_addr offset chunk.size source c) [
        | Cache.blocked ↦ Cache.blocked
        | Cache.crashed ↦ Cache.crashed
        | done hit c1 ↦
            elim (write_loop fuel (offset + chunk.size) (nbyte - chunk.size)
              (λ i. source (chunk.size + i)) c1) [
                | Cache.blocked ↦ Cache.blocked
                | Cache.crashed ↦ Cache.crashed
                | done all_hit c2 ↦ done (hit && all_hit) c2
              ]
      ])

  -- What the client sees of the file: the cached bytes, or else those that the server has.
  unfoldable pub block_seen : ℕ → ℕ → Cache → Option ℕ
  unfolding holds_block
  block_seen addr k c = elim (holds_block std_hash filedes addr c) [
    | some b ↦ some (b.bytes k)
    | none ↦ elim (fetch addr) [ none ↦ none | some fetched ↦ some (get_or fetched k 0) ]
  ]

  abbrev pub seen : ℕ → Cache → Option ℕ
  seen x c = block_seen (x / 1024 * 1024) (x % 1024) c
