-- ===== src/Client/Writes.antt =====
-- One round of the loop of `writeFile` (client/pfs_client.cpp).
use mathlib.Core.Option
use pfs.Base.{
  ℕ, ◌+◌, ◌-◌, ◌*◌, ◌/◌, ◌%◌, ◌≤◌, ◌<◌, ◌≡◌, refl, ap, ◌∙◌, inl, inr, Bool, true, false, ◌&&◌, none,
  some, List, arith, ltb, leb, ◌==◌, ==_iff, if◌then◌else◌, length, get_or, Bool-cases,
  Option-cases,
}
use pfs.Cache.Invariant.{Shape, IsCache}
use pfs.Cache.Methods.{holds_block}
use pfs.Cache.Reads.{write-holds_block}
use pfs.Cache.{Cache, done, lookup, write, written}
use pfs.Client.Transfers.{fetch_block, store_block, block_seen}
use pfs.Client.Rounds.{Spends, fetch_block-done}

-- Whether a position of a block lies in the range that is written.
abbrev pub covered : ℕ → ℕ → ℕ → ℕ → Bool
covered offset size a k =
    (a == offset / 1024 * 1024) && (leb (offset % 1024) k && ltb k (offset % 1024 + size))

module _ (std_hash : ℕ → ℕ) (fetch : ℕ → Option.Option (List ℕ)) (filedes : ℕ) where
  write_hit-seen :
      (offset size node : ℕ) (source : ℕ → ℕ) (g : Shape) (c : Cache)
      → IsCache std_hash g c
      → lookup std_hash filedes (offset / 1024 * 1024) c ≡ some node
      → let c' = (write std_hash filedes offset size source c).0 in
        ((write std_hash filedes offset size source c).1 ≡ true)
        × Spends std_hash 0 g c c'
        × ((a k : ℕ)
            → block_seen std_hash fetch filedes a k c' ≡ (
                if covered offset size a k
                then some (source (k - offset % 1024))
                else block_seen std_hash fetch filedes a k c))
  unfolding block_seen holds_block
  write_hit-seen offset size node source g c i e =
      let (result, (g', i', kept), held) =
        write-holds_block std_hash i filedes offset size source in
      let here : holds_block std_hash filedes (offset / 1024 * 1024) c ≡ some (c.blocks node) =
        rw (holds_block, e) refl in
      (
        result ∙ (rw here refl),
        (g', i', omega (arith, kept.0), omega (arith, kept.1)),
        λ a k. elim (Bool-cases (a == offset / 1024 * 1024)) [
          | inl eq ↦
              let twin : holds_block std_hash filedes a c ≡ some (c.blocks node) =
                rw ((==_iff a (offset / 1024 * 1024)).0 eq) here in
              let matched : (filedes == filedes && a == offset / 1024 * 1024) ≡ true =
                ground arith in
              let now : holds_block std_hash filedes a
                    (write std_hash filedes offset size source c).0
                  ≡ some (written (offset % 1024) size source (c.blocks node)) =
                held filedes a ∙ (rw (matched, twin) refl) in
              rw (block_seen, now, twin) (ground arith)
          | inr ne ↦
              let now : holds_block std_hash filedes a
                    (write std_hash filedes offset size source c).0
                  ≡ holds_block std_hash filedes a c =
                held filedes a ∙ (ground arith) in
              rw (block_seen, now) (ground arith)
        ],
      )

  pub write_missed :
      (offset size : ℕ) (source : ℕ → ℕ) (c : Cache)
      → lookup std_hash filedes (offset / 1024 * 1024) c ≡ none
      → write std_hash filedes offset size source c ≡ (c, false)
  unfolding write
  write_missed offset size source c miss = rw (write, miss) refl

  pub store_miss :
      (offset size : ℕ) (source : ℕ → ℕ) (c c1 : Cache) (bytes : ℕ → ℕ)
      → lookup std_hash filedes (offset / 1024 * 1024) c ≡ none
      → fetch_block std_hash fetch filedes (offset / 1024 * 1024) c ≡ done bytes c1
      → store_block std_hash fetch filedes (offset / 1024 * 1024) offset size source c
        ≡ done false (write std_hash filedes offset size source c1).0
  unfolding store_block
  store_miss offset size source c c1 bytes miss run =
      let result = ap (λ (r : Cache × Bool). r.1) (write_missed offset size source c miss) in
      let same = ap (λ (r : Cache × Bool). r.0) (write_missed offset size source c miss) in
      rw (store_block, result, same, run) refl

  pub store_hit :
      (offset size : ℕ) (source : ℕ → ℕ) (c : Cache)
      → (write std_hash filedes offset size source c).1 ≡ true
      → store_block std_hash fetch filedes (offset / 1024 * 1024) offset size source c
        ≡ done true (write std_hash filedes offset size source c).0
  unfolding store_block
  store_hit offset size source c hit = rw (store_block, hit) refl

  -- A round of `writeFile` for a block of which the server has the bytes.
  pub store_block-done :
      (offset size : ℕ) (source : ℕ → ℕ) (fetched : List ℕ) (g : Shape) (c : Cache)
      → let addr = offset / 1024 * 1024 in
        IsCache std_hash g c
        → fetch addr ≡ some fetched
        → 2 ≤ c.free_block_semaphore
        → 2 ≤ length g.free
        → (c' : Cache) × (hit : Bool) × (store_block std_hash fetch filedes addr offset size source
              c
            ≡ done hit c')
          × Spends std_hash 1 g c c'
          × ((a k : ℕ)
              → k < 1024
              → block_seen std_hash fetch filedes a k c' ≡ (
                  if covered offset size a k
                  then some (source (k - offset % 1024))
                  else block_seen std_hash fetch filedes a k c))
  store_block-done offset size source fetched g c i got units free =
      let addr : ℕ = offset / 1024 * 1024 in
      elim (Option-cases (lookup std_hash filedes addr c)) [
        | inr (node, e) ↦
            let (hit, (g', i', u, f), value) = write_hit-seen offset size node source g c i e in
            (
              (write std_hash filedes offset size source c).0,
              true,
              store_hit offset size source c hit,
              (g', i', omega arith, omega arith),
              λ a k small. value a k,
            )
        | inl miss ↦
            let (c1, run, (g1, i1, u1, f1), (node, e), same) =
              fetch_block-done std_hash fetch filedes addr fetched g c i (omega arith) got miss
                units free in
            let (hit, (g', i', u, f), value) = write_hit-seen offset size node source g1 c1 i1 e in
            (
              (write std_hash filedes offset size source c1).0,
              false,
              store_miss offset size source c c1 (λ k. get_or fetched k 0) miss run,
              (g', i', omega arith, omega arith),
              λ a k small.
                  value a k
                  ∙ ap
                      (λ o.
                        if covered offset size a k then some (source (k - offset % 1024)) else o)
                      (same a k small),
            )
      ]
