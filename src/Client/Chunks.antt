-- ===== src/Client/Chunks.antt =====
-- The loops of `readFile` and `writeFile` cut a range into parts of blocks.
use pfs.Base.{
  ℕ, zero, suc, ◌+◌, ◌-◌, ◌%◌, ◌<◌, ◌≤◌, ◌^◌, ◌≡◌, subst, inl, inr, false, List, [], ◌∷◌, arith,
  ◌==◌, some, min, Bool-cases,
}
use pfs.Client.{Chunk, chunk_at, chunks}

-- The parts follow one another from `offset` to `end`, none is empty, and each lies in the block that
-- it names.
abbrev pub Tiles : ℕ → List Chunk → ℕ → Type 0
Tiles offset [] end = offset ≡ end
Tiles offset (c ∷ cs) end =
    (c.block_addr % 1024 ≡ 0)
    × (c.block_addr + c.block_offset ≡ offset)
    × (0 < c.size)
    × (c.block_offset + c.size ≤ 1024)
    × Tiles (offset + c.size) cs end

chunks_step :
    (fuel offset nbyte : ℕ) (cs : List Chunk)
    → (nbyte == 0) ≡ false
    → chunks fuel (offset + (chunk_at offset nbyte).size) (nbyte - (chunk_at offset nbyte).size)
      ≡ some cs
    → chunks (suc fuel) offset nbyte ≡ some (chunk_at offset nbyte ∷ cs)
unfolding chunks
chunks_step fuel offset nbyte cs more e = rw (more, e)

-- With a round for each byte, and so always, the loop ends; its parts make up the range exactly. The
-- range lies below `2 ^ 32`.
pub chunks-Tiles :
    (fuel offset nbyte : ℕ)
    → nbyte ≤ fuel
    → offset + nbyte < 2 ^ 32
    → (cs : List Chunk) × (chunks fuel offset nbyte ≡ some cs) × Tiles offset cs (offset + nbyte)
unfolding chunks
chunks-Tiles zero offset nbyte le fits = ([], ground arith, omega arith)
chunks-Tiles (suc fuel) offset nbyte le fits = elim (Bool-cases (nbyte == 0)) [
  | inl done ↦ ([], rw done, ground arith)
  | inr more ↦
      let size : ℕ = min (1024 - offset % 1024) nbyte in
      let (cs, e, t) =
        chunks-Tiles fuel (offset + size) (nbyte - size) (ground arith) (omega arith) in
      let end : offset + size + (nbyte - size) ≡ offset + nbyte = omega arith in
      (
        chunk_at offset nbyte ∷ cs,
        chunks_step fuel offset nbyte cs more e,
        (
          omega arith,
          omega arith,
          ground arith,
          omega arith,
          subst (Tiles (offset + size) cs) end t,
        ),
      )
]
