-- ===== src/Client/Evictions.antt =====
-- The loops that evict the blocks of a range that is given up.
use pfs.Base.{
  ℕ, zero, suc, ◌+◌, ◌*◌, ◌%◌, ◌/◌, ◌<◌, ◌≤◌, ◌^◌, ◌≡◌, refl, inl, inr, true, List, [], ◌∷◌, arith,
  leb, none, some, Bool-cases,
}
use pfs.Cache.Order.{contains}
use pfs.Client.{evictions, block_of}

evictions_step :
    (fuel b end : ℕ) (bs : List ℕ)
    → leb b end ≡ true
    → evictions fuel ((b + 1024) % 2 ^ 32) end ≡ some bs
    → evictions (suc fuel) b end ≡ some (b ∷ bs)
unfolding evictions
evictions_step fuel b end bs inside e = rw (inside, e)

evictions-contains :
    (fuel b end : ℕ)
    → end < b + fuel * 1024
    → b % 1024 ≡ 0
    → end + 1024 < 2 ^ 32
    → (bs : List ℕ) × (evictions (suc fuel) b end ≡ some bs)
      × ((x : ℕ) → b ≤ x → x ≤ end → contains (block_of x) bs ≡ true)
unfolding evictions
evictions-contains zero b end lt z fits = ([], ground arith, λ x lo hi. absurd (omega arith))
evictions-contains (suc fuel) b end lt z fits = elim (Bool-cases (leb b end)) [
  | inl inside ↦
      let (bs, e, all) =
        evictions-contains fuel ((b + 1024) % 2 ^ 32) end (ground arith) (ground arith) fits in
      (b ∷ bs, evictions_step (suc fuel) b end bs inside e, λ x lo hi. ground (arith, all x))
  | inr past ↦ ([], rw past, λ x lo hi. absurd (ground arith))
]

-- The loop over a range that is given up ends, after at most one round for each block up to `end` and
-- one more, and evicts the block of every byte from `start` to `end`. The range ends a block or more
-- below `2 ^ 32`.
pub evictions_cover :
    (start end : ℕ)
    → end + 1024 < 2 ^ 32
    → (bs : List ℕ) × (evictions (end / 1024 + 2) (block_of start) end ≡ some bs)
      × ((x : ℕ) → start ≤ x → x ≤ end → contains (block_of x) bs ≡ true)
evictions_cover start end fits =
    let rounds : end / 1024 + 2 ≡ suc (end / 1024 + 1) = omega arith in
    let (bs, e, all) =
      evictions-contains (end / 1024 + 1) (block_of start) end (omega arith) (omega arith) fits in
    rw rounds (bs, e, λ x lo hi. all x (omega arith) hi)

-- A range that ends in the last block below `2 ^ 32` is never done: the block address wraps to 0 before
-- it passes the end, however many rounds the loop is given.
pub evictions_diverge :
    (fuel b end : ℕ) → b % 1024 ≡ 0 → b < 2 ^ 32 → 2 ^ 32 ≤ end + 1024 → evictions fuel b end ≡ none
unfolding evictions
evictions_diverge zero b end z lt last = refl
evictions_diverge (suc fuel) b end z lt last =
    let inside : leb b end ≡ true = ground arith in
    let rest = evictions_diverge fuel ((b + 1024) % 2 ^ 32) end (omega arith) (omega arith) last in
    rw (inside, rest)
