-- ===== src/Client/Stores.antt =====
-- The loop of `writeFile` (client/pfs_client.cpp) ends, and the client sees what it wrote.
use mathlib.Core.Option
use pfs.Base.{
  ℕ, zero, suc, ◌+◌, ◌-◌, ◌*◌, ◌/◌, ◌%◌, ◌^◌, ◌≤◌, ◌<◌, min, ◌≡◌, refl, sym, ap, ◌∙◌, inl, inr,
  Bool, true, false, ◌&&◌, some, List, arith, ltb, leb, ◌==◌, if◌then◌else◌, length, get_or,
  Bool-cases,
}
use pfs.Cache.Invariant.{Shape, IsCache}
use pfs.Cache.{Cache, done}
use pfs.Client.{chunk_at}
use pfs.Client.Transfers.{store_block, write_loop, read_loop, block_seen, seen}
use pfs.Client.Rounds.{Spends, rounds}
use pfs.Client.Loads.{read_loop-done}
use pfs.Client.Writes.{covered, store_block-done}

-- What is seen at `x` once `size` bytes from `source` are written at an offset.
abbrev pub overlay : ℕ → ℕ → (ℕ → ℕ) → ℕ → Option.Option ℕ → Option.Option ℕ
overlay offset size source x before =
    if leb offset x && ltb x (offset + size) then some (source (x - offset)) else before

module _ (std_hash : ℕ → ℕ) (fetch : ℕ → Option.Option (List ℕ)) (filedes : ℕ) where
  write_step :
      (fuel offset nbyte : ℕ) (source : ℕ → ℕ) (c c1 c2 : Cache) (hit hits : Bool)
      → let chunk = chunk_at offset nbyte in
        (nbyte == 0) ≡ false
        → offset + nbyte < 2 ^ 32
        → store_block std_hash fetch filedes (offset / 1024 * 1024) offset chunk.size source c
          ≡ done hit c1
        → write_loop std_hash fetch filedes fuel
            (offset + chunk.size)
            (nbyte - chunk.size)
            (λ i. source (chunk.size + i))
            c1
          ≡ done hits c2
        → write_loop std_hash fetch filedes (suc fuel) offset nbyte source c ≡ done (hit && hits) c2
  unfolding write_loop
  write_step fuel offset nbyte source c c1 c2 hit hits more fits run run' =
      let addr : offset / 1024 * 1024 % 2 ^ 32 ≡ offset / 1024 * 1024 = omega arith in
      rw (write_loop, more, addr, run, run') refl

  overlay_join :
      (offset nbyte : ℕ) (source : ℕ → ℕ) (x : ℕ) (before : Option.Option ℕ)
      → let size = min (1024 - offset % 1024) nbyte in
        overlay
          (offset + size)
          (nbyte - size)
          (λ j. source (size + j))
          x
          (if covered offset size (x / 1024 * 1024) (x % 1024)
            then some (source (x % 1024 - offset % 1024))
            else before)
        ≡ overlay offset nbyte source x before
  overlay_join offset nbyte source x before =
      let size : ℕ = min (1024 - offset % 1024) nbyte in
      elim (Bool-cases (leb offset x && ltb x (offset + nbyte))) [
        | inr out ↦ ground arith
        | inl within ↦ elim (Bool-cases (ltb x (offset + size))) [
          | inl now ↦ let at : x % 1024 - offset % 1024 ≡ x - offset = ground arith in ground arith
          | inr later ↦
              let at : size + (x - (offset + size)) ≡ x - offset = ground arith in ground arith
        ]
      ]

  later_seen :
      (offset nbyte : ℕ) (source : ℕ → ℕ) (c c1 c2 : Cache)
      → let size = min (1024 - offset % 1024) nbyte in
        (nbyte == 0) ≡ false
        → ((a k : ℕ)
            → k < 1024
            → block_seen std_hash fetch filedes a k c1 ≡ (
                if covered offset size a k
                then some (source (k - offset % 1024))
                else block_seen std_hash fetch filedes a k c))
        → ((x : ℕ)
            → seen std_hash fetch filedes x c2
              ≡ overlay
                  (offset + size)
                  (nbyte - size)
                  (λ j. source (size + j))
                  x
                  (seen std_hash fetch filedes x c1))
        → (x : ℕ)
        → seen std_hash fetch filedes x c2
          ≡ overlay offset nbyte source x (seen std_hash fetch filedes x c)
  later_seen offset nbyte source c c1 c2 more value value' x =
      let size : ℕ = min (1024 - offset % 1024) nbyte in
      value' x
      ∙ ap (overlay (offset + size) (nbyte - size) (λ j. source (size + j)) x)
          (value (x / 1024 * 1024) (x % 1024) (omega arith))
      ∙ overlay_join offset nbyte source x (seen std_hash fetch filedes x c)

  -- With a round for each block, a write ends: then the client sees the new bytes in the range, and
  -- elsewhere in the file what it saw before.
  -- The range ends below `2 ^ 32`, the server has each block of it, and the cache can take two units and
  -- a node for each round.
  pub write_loop-done :
      (fuel offset nbyte : ℕ) (source : ℕ → ℕ) (g : Shape) (c : Cache)
      → IsCache std_hash g c
      → ((a : ℕ)
          → a % 1024 ≡ 0
          → a < offset + nbyte
          → (fetched : List ℕ) × (fetch a ≡ some fetched))
      → offset + nbyte < 2 ^ 32
      → rounds offset nbyte ≤ fuel
      → 2 * fuel ≤ c.free_block_semaphore
      → fuel < length g.free
      → (c' : Cache) × (hit : Bool) × (write_loop std_hash fetch filedes fuel offset nbyte source c
          ≡ done hit c')
        × Spends std_hash fuel g c c'
        × ((x : ℕ)
            → seen std_hash fetch filedes x c'
              ≡ overlay offset nbyte source x (seen std_hash fetch filedes x c))
  unfolding write_loop
  write_loop-done zero offset nbyte source g c i served fits enough units free =
      (c, true, ground arith, (g, i, omega arith, omega arith), λ x. ground arith)
  write_loop-done (suc fuel) offset nbyte source g c i served fits enough units free =
      elim (Bool-cases (nbyte == 0)) [
        | inl none_left ↦
            (c, true, ground arith, (g, i, omega arith, omega arith), λ x. ground arith)
        | inr more ↦
            let size : ℕ = min (1024 - offset % 1024) nbyte in
            let addr : ℕ = offset / 1024 * 1024 in
            let (fetched, got) = served addr (omega arith) (ground arith) in
            let (c1, hit, run, (g1, i1, units1, free1), value) =
              store_block-done std_hash fetch filedes offset size source fetched g c i got
                (omega arith) (omega arith) in
            let (c2, hits, run', (g2, i2, units2, free2), value') =
              write_loop-done fuel (offset + size) (nbyte - size) (λ j. source (size + j)) g1 c1 i1
                (λ a z lt. served a z (ground arith)) (ground arith) (ground arith) (omega arith)
                (omega arith) in
            (
              c2,
              hit && hits,
              write_step fuel offset nbyte source c c1 c2 hit hits more fits run run',
              (g2, i2, omega arith, omega arith),
              later_seen offset nbyte source c c1 c2 more value value',
            )
      ]

  same_byte : (a b : ℕ) → ◌≡◌ {A = Option.Option ℕ} (some a) (some b) → a ≡ b
  same_byte a b h = ground arith

  overlay-inside :
      (offset nbyte : ℕ) (source : ℕ → ℕ) (j : ℕ) (before : Option.Option ℕ)
      → j < nbyte
      → overlay offset nbyte source (offset + j) before ≡ some (source j)
  overlay-inside offset nbyte source j before h =
      let at : offset + j - offset ≡ j = omega arith in ground arith

  -- What is read back is what was written: a read of a range that was just written, each with a round
  -- for each block, returns the bytes that were written.
  pub read_loop-write_loop :
      (fuel offset nbyte : ℕ) (source : ℕ → ℕ) (g : Shape) (c : Cache)
      → IsCache std_hash g c
      → ((a : ℕ)
          → a % 1024 ≡ 0
          → a < offset + nbyte
          → (fetched : List ℕ) × (fetch a ≡ some fetched))
      → offset + nbyte < 2 ^ 32
      → rounds offset nbyte ≤ fuel
      → 4 * fuel ≤ c.free_block_semaphore
      → 2 * fuel < length g.free
      → (c' : Cache) × (c'' : Cache) × (bytes : List ℕ) × (written_hit : Bool) × (read_hit : Bool)
        × (write_loop std_hash fetch filedes fuel offset nbyte source c ≡ done written_hit c')
        × (read_loop std_hash fetch filedes fuel offset nbyte c' ≡ done (bytes, read_hit) c'')
        × (length bytes ≡ nbyte)
        × ((j : ℕ) → j < nbyte → get_or bytes j 0 ≡ source j)
  read_loop-write_loop fuel offset nbyte source g c i served fits enough units free =
      let (c', hit, run, (g', i', units', free'), value) =
        write_loop-done fuel offset nbyte source g c i served fits enough (omega arith)
          (omega arith) in
      let (c'', bytes, hit', run', spent, total, values, same) =
        read_loop-done std_hash fetch filedes fuel offset nbyte g' c' i' served fits enough
          (omega arith) (omega arith) in
      (
        c',
        c'',
        bytes,
        hit,
        hit',
        run,
        run',
        total,
        λ j h. same_byte (get_or bytes j 0) (source j) (
            sym (values j h)
            ∙ value (offset + j)
            ∙ overlay-inside offset nbyte source j (seen std_hash fetch filedes (offset + j) c) h),
      )
