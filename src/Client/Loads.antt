-- ===== src/Client/Loads.antt =====
-- The loop of `readFile` (client/pfs_client.cpp) ends, and returns what the client sees.
use mathlib.Core.Option
use pfs.Base.{
  ℕ, zero, suc, ◌+◌, ◌-◌, ◌*◌, ◌/◌, ◌%◌, ◌^◌, ◌≤◌, ◌<◌, min, ◌≡◌, refl, sym, ap, subst, ◌∙◌, inl,
  inr, Bool, true, false, ◌&&◌, some, List, [], ◌∷◌, ◌++◌, arith, ltb, ◌==◌, if◌then◌else◌, length,
  length-append, get_or, Bool-cases,
}
use pfs.Cache.Invariant.{Shape, IsCache}
use pfs.Cache.{Cache, done}
use pfs.Client.{chunk_at}
use pfs.Client.Transfers.{part, load_block, read_loop, block_seen, seen}
use pfs.Client.Rounds.{Spends, rounds, load_block-done}

pub part-length : (bytes : ℕ → ℕ) (at n : ℕ) → length (part bytes at n) ≡ n
part-length bytes at zero = refl
part-length bytes at (suc n) = ap suc (part-length bytes (suc at) n)

pub get_or-part :
    (bytes : ℕ → ℕ) (at n j : ℕ) → j < n → get_or (part bytes at n) j 0 ≡ bytes (at + j)
get_or-part bytes at zero j h = absurd (omega arith)
get_or-part bytes at (suc n) zero h = ap bytes (omega arith)
get_or-part bytes at (suc n) (suc j) h =
    get_or-part bytes (suc at) n j (omega arith) ∙ ap bytes (omega arith)

get_or-append :
    (xs ys : List ℕ) (j : ℕ)
    → get_or (xs ++ ys) j 0
      ≡ (if ltb j (length xs) then get_or xs j 0 else get_or ys (j - length xs) 0)
get_or-append [] ys j = ground arith
get_or-append (x ∷ xs) ys zero = ground arith
get_or-append (x ∷ xs) ys (suc j) = ground (arith, get_or-append xs ys j)

module _ (std_hash : ℕ → ℕ) (fetch : ℕ → Option.Option (List ℕ)) (filedes : ℕ) where
  read_step :
      (fuel offset nbyte : ℕ) (c c1 c2 : Cache) (bytes : ℕ → ℕ) (rest : List ℕ) (hit hits : Bool)
      → let chunk = chunk_at offset nbyte in
        (nbyte == 0) ≡ false
        → load_block std_hash fetch filedes chunk.block_addr c ≡ done (bytes, hit) c1
        → read_loop std_hash fetch filedes fuel (offset + chunk.size) (nbyte - chunk.size) c1
          ≡ done (rest, hits) c2
        → read_loop std_hash fetch filedes (suc fuel) offset nbyte c
          ≡ done (part bytes chunk.block_offset chunk.size ++ rest, hit && hits) c2
  unfolding read_loop
  read_step fuel offset nbyte c c1 c2 bytes rest hit hits more run run' =
      rw (read_loop, more, run, run') refl

  -- The bytes of a round, with those of the later ones behind them.
  read_values :
      (offset nbyte : ℕ) (c c1 : Cache) (bytes : ℕ → ℕ) (rest : List ℕ)
      → let chunk = chunk_at offset nbyte in
        (nbyte == 0) ≡ false
        → offset + nbyte < 2 ^ 32
        → ((k : ℕ)
            → k < 1024
            → block_seen std_hash fetch filedes chunk.block_addr k c ≡ some (bytes k))
        → ((a k : ℕ)
            → k < 1024
            → block_seen std_hash fetch filedes a k c1 ≡ block_seen std_hash fetch filedes a k c)
        → ((j : ℕ)
            → j < nbyte - chunk.size
            → seen std_hash fetch filedes (offset + chunk.size + j) c1 ≡ some (get_or rest j 0))
        → (j : ℕ) → j < nbyte
        → seen std_hash fetch filedes (offset + j) c
          ≡ some (get_or (part bytes chunk.block_offset chunk.size ++ rest) j 0)
  read_values offset nbyte c c1 bytes rest more fits value same values j h =
      let size : ℕ = min (1024 - offset % 1024) nbyte in
      let front : List ℕ = part bytes (offset % 1024) size in
      let total = part-length bytes (offset % 1024) size in
      let joined = get_or-append front rest j in
      elim (Bool-cases (ltb j size)) [
        | inl here ↦
            let at : (offset + j) / 1024 * 1024 ≡ offset / 1024 * 1024 % 2 ^ 32 = ground arith in
            let off : (offset + j) % 1024 ≡ offset % 1024 + j = ground arith in
            let byte : get_or (front ++ rest) j 0 ≡ bytes (offset % 1024 + j) =
              ground (arith, joined, total, get_or-part bytes (offset % 1024) size j) in
            rw (at, off, byte) (value (offset % 1024 + j) (ground arith))
        | inr there ↦
            let at : offset + size + (j - size) ≡ offset + j = ground arith in
            let byte : get_or (front ++ rest) j 0 ≡ get_or rest (j - size) 0 =
              ground (arith, joined, total) in
            let later = values (j - size) (ground arith) in
            rw byte (
              sym (same ((offset + j) / 1024 * 1024) ((offset + j) % 1024) (omega arith))
              ∙ subst (λ x. seen std_hash fetch filedes x c1 ≡ some (get_or rest (j - size) 0)) at
                  later)
      ]

  seen_still :
      (c c1 c2 : Cache)
      → ((a k : ℕ)
          → k < 1024
          → block_seen std_hash fetch filedes a k c1 ≡ block_seen std_hash fetch filedes a k c)
      → ((x : ℕ) → seen std_hash fetch filedes x c2 ≡ seen std_hash fetch filedes x c1)
      → (x : ℕ) → seen std_hash fetch filedes x c2 ≡ seen std_hash fetch filedes x c
  seen_still c c1 c2 same same' x = same' x ∙ same (x / 1024 * 1024) (x % 1024) (omega arith)

  -- With a round for each block, a read ends: it returns the bytes that the client sees in the range,
  -- and what the client sees is the same afterwards.
  -- The range ends below `2 ^ 32`, the server has each block of it, and the cache can take two units and
  -- a node for each round.
  pub read_loop-done :
      (fuel offset nbyte : ℕ) (g : Shape) (c : Cache)
      → IsCache std_hash g c
      → ((a : ℕ)
          → a % 1024 ≡ 0
          → a < offset + nbyte
          → (fetched : List ℕ) × (fetch a ≡ some fetched))
      → offset + nbyte < 2 ^ 32
      → rounds offset nbyte ≤ fuel
      → 2 * fuel ≤ c.free_block_semaphore
      → fuel < length g.free
      → (c' : Cache) × (bytes : List ℕ) × (hit : Bool) × (read_loop std_hash fetch filedes fuel
            offset nbyte c
          ≡ done (bytes, hit) c')
        × Spends std_hash fuel g c c'
        × (length bytes ≡ nbyte)
        × ((j : ℕ)
            → j < nbyte
            → seen std_hash fetch filedes (offset + j) c ≡ some (get_or bytes j 0))
        × ((x : ℕ) → seen std_hash fetch filedes x c' ≡ seen std_hash fetch filedes x c)
  unfolding read_loop
  read_loop-done zero offset nbyte g c i served fits enough units free = (
    c,
    [],
    true,
    ground arith,
    (g, i, omega arith, omega arith),
    ground arith,
    λ j h. absurd (ground arith),
    λ x. refl,
  )
  read_loop-done (suc fuel) offset nbyte g c i served fits enough units free =
      elim (Bool-cases (nbyte == 0)) [
        | inl none_left ↦ (
          c,
          [],
          true,
          ground arith,
          (g, i, omega arith, omega arith),
          ground arith,
          λ j h. absurd (ground arith),
          λ x. refl,
        )
        | inr more ↦
            let addr : ℕ = (chunk_at offset nbyte).block_addr in
            let size : ℕ = (chunk_at offset nbyte).size in
            let (fetched, got) = served addr (omega arith) (ground arith) in
            let (c1, bytes, hit, run, (g1, i1, units1, free1), value, same) =
              load_block-done std_hash fetch filedes addr fetched g c i (omega arith) got
                (omega arith) (omega arith) in
            let (c2, rest, hits, run', (g2, i2, units2, free2), total, values, same') =
              read_loop-done fuel (offset + size) (nbyte - size) g1 c1 i1
                (λ a z lt. served a z (ground arith)) (ground arith) (ground arith) (omega arith)
                (omega arith) in
            (
              c2,
              part bytes (offset % 1024) size ++ rest,
              hit && hits,
              read_step fuel offset nbyte c c1 c2 bytes rest hit hits more run run',
              (g2, i2, omega arith, omega arith),
              ground (
                arith,
                length-append (part bytes (offset % 1024) size) rest,
                part-length bytes (offset % 1024) size,
              ),
              read_values offset nbyte c c1 bytes rest more fits value same values,
              seen_still c c1 c2 same same',
            )
      ]
