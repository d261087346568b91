-- ===== src/Coherence/Close.antt =====
-- `closeFile` writes back what the client was granted (client/pfs_client.cpp).
use pfs.Base.{
  ℕ, zero, suc, ◌+◌, ◌*◌, ◌/◌, ◌%◌, ◌^◌, ◌<◌, ◌≡◌, refl, ◌∙◌, inl, inr, true, false, some, List, [],
  ◌∷◌, ◌++◌, arith, Bool-cases,
}
use pfs.Permission.{Permission}
use pfs.File.Cover.{holds, grants}
use pfs.Cache.{Cache, CacheBlock}
use pfs.Cache.Order.{contains}
use pfs.Cache.Ends.{contains-append}
use pfs.Client.{PfsClient, file_at, find_descriptor, block_of, close_request, bool_index}
use pfs.Client.Descriptors.{find_descriptor-file_at}
use pfs.Client.Evictions.{evictions_cover}
use pfs.Client.Revocations.{evict_blocks, close_blocks, close_evictions}
use pfs.Placement.{Servers}
use pfs.Placement.Bytes.{IsServed, byte_served}
use pfs.Coherence.{Store, replay, History, flush_blocks}
use pfs.Coherence.Evictions.{evict_blocks-replay}
use pfs.Coherence.Runs.{first_bytes}

-- Every token ends a block or more below `2 ^ 32`.
abbrev pub AllFit : List Permission → Type 0
AllFit [] = Unit {0}
AllFit (q ∷ qs) = (q.end + 1024 < 2 ^ 32) × AllFit qs

bool_index_small : (i : ℕ) → i < 2 → bool_index (some i) ≡ i
bool_index_small zero few = refl
bool_index_small (suc i) few = omega (arith, few)

-- The loops of `closeFile` end, and visit the block of every byte that is granted.
close_blocks_cover :
    (std_hash : ℕ → ℕ) (qs : List Permission)
    → AllFit qs
    → (bs : List ℕ) × (close_blocks std_hash qs ≡ some bs)
      × ((x : ℕ) → grants false qs x ≡ true → contains (block_of x) bs ≡ true)
unfolding close_blocks grants holds
close_blocks_cover std_hash [] fit = ([], refl, λ x h. absurd (ground arith))
close_blocks_cover std_hash (q ∷ qs) (fits, more_fit) =
    let (bs, run, covers) = evictions_cover q.start q.end fits in
    let (more, run', covers') = close_blocks_cover std_hash qs more_fit in
    (
      bs ++ more,
      rw (close_blocks, run, run') refl,
      λ x h. elim (Bool-cases (holds false q x)) [
        | inl here ↦
            let among = covers x (ground arith) (ground arith) in
            contains-append (block_of x) bs more ∙ (ground (arith, among))
        | inr there ↦
            let among = covers' x (ground arith) in
            contains-append (block_of x) bs more ∙ (ground (arith, among))
      ],
    )

module _ (std_hash : ℕ → ℕ) (p : PfsClient) (found_at filedes : ℕ) (memory : ℕ → CacheBlock)
    (start : Servers) (known : find_descriptor filedes p ≡ some found_at)
    (served : IsServed found_at p start) where
  request_found : found_at < 2 → (close_request filedes p).found_at ≡ found_at
  unfolding close_request
  request_found few = rw (close_request, known) (bool_index_small found_at few)

  -- Before `closeFile` of the first or the second open file sends its request, it returns from its
  -- evictions, no flush fails an assertion, and the servers then have the file: each byte below `2 ^ 31`
  -- that the client is granted is what it wrote there last, or else what they had at first. The tokens end a
  -- block or more below `2 ^ 32`. The client has this one file open, its cache was new at first, the
  -- file's servers were in order, and fresh memory is zero.
  pub close_evictions-replay :
      (ws : List Store) (ss : Servers) (c : Cache)
      → History std_hash p found_at filedes memory start ws ss c
      → found_at < 2
      → AllFit (file_at p found_at).permissions
      → (c' : Cache) × (flushed : List CacheBlock) × (ss' : Servers) × (close_evictions std_hash
            (close_request filedes p)
            p
            c
          ≡ some (c', flushed))
        × (flush_blocks p flushed ss ≡ some ss')
        × ((x : ℕ)
            → x < 2 ^ 31
            → grants false (file_at p found_at).permissions x ≡ true
            → byte_served found_at p ss' (x / 1024 * 1024) (x % 1024)
              ≡ replay (first_bytes p found_at start) ws x)
  unfolding close_evictions
  close_evictions-replay ws ss c h few fit =
      let (bs, run, covers) = close_blocks_cover std_hash (file_at p found_at).permissions fit in
      let named : (file_at p found_at).descriptor ≡ filedes =
        find_descriptor-file_at filedes found_at p known in
      let (ss', sent, _, value) =
        evict_blocks-replay std_hash p found_at filedes memory start known served bs ws ss c h in
      (
        (evict_blocks std_hash filedes bs c).0,
        (evict_blocks std_hash filedes bs c).1,
        ss',
        rw (close_evictions, request_found few, run, request_found few, named) refl,
        sent,
        λ x lt granted. value x lt (covers x granted),
      )
