-- ===== src/Client/Revocations.antt =====
-- The blocks that a client evicts when a range is taken away from it, or a file is closed
-- (client/pfs_client.cpp).
use mathlib.Core.List.{append_assoc}
use pfs.Base.{
  ℕ, ◌+◌, ◌/◌, ◌^◌, ◌≤◌, ◌<◌, ◌≡◌, refl, sym, ap, ◌∙◌, inl, inr, true, false, ◌&&◌, Option, none,
  some, List, [], ◌∷◌, ◌++◌, String, arith, ◌==◌, ==_iff, if◌then◌else◌, Bool-cases,
}
use pfs.Permission.{Permission}
use pfs.Cache.{Cache, CacheBlock, evict_block}
use pfs.Cache.Invariant.{Shape, IsCache}
use pfs.Cache.Methods.{holds_block}
use pfs.Cache.Evictions.{to_flush, evict_block-holds_block}
use pfs.Client.{PfsClient, file_at, evictions, block_of, revoke, CloseRequest}
use pfs.Cache.Order.{contains}
use pfs.Client.Evictions.{evictions_cover}
use pfs.Client.Waits.{all_unlocked, all_unlocked-await_unlocked}
use pfs.File.{await_unlocked}

module _ (std_hash : ℕ → ℕ) where
  -- `evictBlock` for each block of a list, with what is flushed.
  unfoldable pub evict_blocks : ℕ → List ℕ → Cache → Cache × List CacheBlock
  unfolding evict_block
  evict_blocks filedes [] c = (c, [])
  evict_blocks filedes (a ∷ more) c =
      let (c1, flushed) = evict_block std_hash filedes a c in
      let (c2, later) = evict_blocks filedes more c1 in (c2, flushed ++ later)

  -- `revokePermission`; `none` if it waits for a token that is locked, or if its loop does not end. How
  -- often it waits does not depend on the new semaphore, here 0.
  unfoldable pub revoke_file :
      String → ℕ → ℕ → PfsClient → Cache → Option (PfsClient × Cache × List CacheBlock)
  unfolding revoke evictions await_unlocked
  revoke_file filename start end p c =
      let (p', found) = revoke filename start end p in
      elim found [
        | none ↦ some (p', c, [])
        | some found_at ↦
            let bs = evictions (end / 1024 + 2) (block_of start) end in
            if (await_unlocked 0 start end (file_at p found_at).permissions).1 == 0
            then (elim bs [
              | none ↦ none
              | some blocks ↦
                  let (c', flushed) = evict_blocks (file_at p found_at).descriptor blocks c in
                  some (p', c', flushed)
            ])
            else none
      ]

  -- The evictions of `closeFile`, of the file that its request names by index: for each permission the
  -- blocks of its range. `none` if one of the loops does not end.
  unfoldable pub close_blocks : List Permission → Option (List ℕ)
  unfolding evictions
  close_blocks [] = some []
  close_blocks (q ∷ qs) =
      let rest = close_blocks qs in
      elim (evictions (q.end / 1024 + 2) (block_of q.start) q.end) [
        | none ↦ none
        | some bs ↦ elim rest [ none ↦ none | some more ↦ some (bs ++ more) ]
      ]

  unfoldable pub close_evictions :
      CloseRequest → PfsClient → Cache → Option (Cache × List CacheBlock)
  unfolding evict_blocks close_blocks
  close_evictions r p c = elim (close_blocks (file_at p r.found_at).permissions) [
    | none ↦ none
    | some bs ↦ some (evict_blocks (file_at p r.found_at).descriptor bs c)
  ]

-- A block is among those that were flushed.
abbrev pub Occurs : CacheBlock → List CacheBlock → Type 0
Occurs b bs = (before : List CacheBlock) × (after : List CacheBlock) × (bs ≡ before ++ b ∷ after)

Occurs-front : (b : CacheBlock) (xs ys : List CacheBlock) → Occurs b xs → Occurs b (xs ++ ys)
Occurs-front b xs ys (before, after, e) =
    (before, after ++ ys, ap (λ zs. zs ++ ys) e ∙ append_assoc before (b ∷ after) ys)

Occurs-back : (b : CacheBlock) (xs ys : List CacheBlock) → Occurs b ys → Occurs b (xs ++ ys)
Occurs-back b xs ys (before, after, e) =
    (xs ++ before, after, ap (λ zs. xs ++ zs) e ∙ sym (append_assoc xs before (b ∷ after)))

module _ (std_hash : ℕ → ℕ) (filedes : ℕ) where
  -- What evicting a list of blocks comes to.
  abbrev pub IsEvicted : List ℕ → Cache → Cache × List CacheBlock → Type 0
  IsEvicted bs c (c', flushed) =
      ((g' : Shape) × IsCache std_hash g' c')
      × ((f a : ℕ)
          → holds_block std_hash f a c'
            ≡ (if f == filedes && contains a bs then none else holds_block std_hash f a c))
      × ((a : ℕ) (b : CacheBlock)
          → contains a bs ≡ true
          → holds_block std_hash filedes a c ≡ some b
          → b.clean ≡ false
          → Occurs b flushed)

  pub evict_blocks-IsEvicted :
      (bs : List ℕ) (g : Shape) (c : Cache)
      → IsCache std_hash g c
      → IsEvicted bs c (evict_blocks std_hash filedes bs c)
  unfolding evict_blocks
  evict_blocks-IsEvicted [] g c i = ((g, i), λ f a. ground arith, λ a b h. absurd (ground arith))
  evict_blocks-IsEvicted (x ∷ bs) g c i =
      let (out, (g1, i1, kept), held) = evict_block-holds_block std_hash g c filedes x i in
      let c1 : Cache = (evict_block std_hash filedes x c).0 in
      let (inv, held', flushed) = evict_blocks-IsEvicted bs g1 c1 i1 in
      (
        inv,
        λ f a. ground (arith, held f a, held' f a),
        λ a b h was unclean. elim (Bool-cases (a == x)) [
          | inl eq ↦
              let same : holds_block std_hash filedes x c ≡ some b =
                ap (λ n. holds_block std_hash filedes n c) (sym ((==_iff a x).0 eq)) ∙ was in
              let alone : (evict_block std_hash filedes x c).1 ≡ [] ++ b ∷ [] =
                out ∙ ap to_flush same ∙ (rw unclean refl) in
              Occurs-front b (evict_block std_hash filedes x c).1
                (evict_blocks std_hash filedes bs c1).1 ([], [], alone)
          | inr ne ↦
              let still : holds_block std_hash filedes a c1 ≡ some b =
                held filedes a ∙ (ground arith) in
              Occurs-back b (evict_block std_hash filedes x c).1
                (evict_blocks std_hash filedes bs c1).1 (flushed a b (ground arith) still unclean)
        ],
      )

-- A client gives up a range of a file that it has open, and no token of the range is locked: the call
-- returns, no block with a byte of the
-- range is cached for the file any more, those that were dirty have been flushed, and the blocks of
-- the other files are as they were. The range ends a block or more below `2 ^ 32`.
pub revoke_file-uncached :
    (std_hash : ℕ → ℕ) (filename : String) (start end found_at : ℕ) (p : PfsClient) (g : Shape)
    (c : Cache)
    → IsCache std_hash g c
    → (revoke filename start end p).1 ≡ some found_at
    → all_unlocked start end (file_at p found_at).permissions ≡ true
    → end + 1024 < 2 ^ 32
    → let filedes = (file_at p found_at).descriptor in
      (c' : Cache) × (flushed : List CacheBlock) × (revoke_file std_hash filename start end p c
        ≡ some ((revoke filename start end p).0, c', flushed))
      × ((g' : Shape) × IsCache std_hash g' c')
      × ((x : ℕ) → start ≤ x → x ≤ end → holds_block std_hash filedes (block_of x) c' ≡ none)
      × ((x : ℕ) (b : CacheBlock)
          → start ≤ x
          → x ≤ end
          → holds_block std_hash filedes (block_of x) c ≡ some b
          → b.clean ≡ false
          → Occurs b flushed)
      × ((f a : ℕ)
          → (f == filedes) ≡ false
          → holds_block std_hash f a c' ≡ holds_block std_hash f a c)
unfolding revoke_file
revoke_file-uncached std_hash filename start end found_at p g c i found free fits =
    let filedes : ℕ = (file_at p found_at).descriptor in
    let waits = all_unlocked-await_unlocked 0 start end (file_at p found_at).permissions free in
    let (bs, run, covers) = evictions_cover start end fits in
    let (inv, held, flushed) = evict_blocks-IsEvicted std_hash filedes bs g c i in
    (
      (evict_blocks std_hash filedes bs c).0,
      (evict_blocks std_hash filedes bs c).1,
      rw (revoke_file, found, waits, run) refl,
      inv,
      λ x lo hi. held filedes (block_of x) ∙ (ground (arith, covers x lo hi)),
      λ x b lo hi was unclean. flushed (block_of x) b (covers x lo hi) was unclean,
      λ f a other. held f a ∙ (ground arith),
    )
