-- ===== src/Coherence/View.antt =====
-- One block of a file, as a client sees it: the cached block, or else the bytes that the server has.
-- What the changes of the cache and of the servers do to it.
use mathlib.Core.Option
use pfs.Base.{ℕ, ◌<◌, ◌≡◌, false, none, some, arith, if◌then◌else◌}
use pfs.Cache.{CacheBlock, written}

abbrev pub view : Option.Option CacheBlock → (ℕ → ℕ) → ℕ → ℕ
view none server k = server k
view (some b) server k = b.bytes k

-- What is not dirty is as the server has it.
abbrev pub IsCoherent : Option.Option CacheBlock → (ℕ → ℕ) → Type 0
IsCoherent none server = Unit {0}
IsCoherent (some b) server = (k : ℕ) → k < 1024 → b.dirty k ≡ false → b.bytes k ≡ server k

-- The server's bytes after the block was flushed.
abbrev pub flushed_over : CacheBlock → (ℕ → ℕ) → ℕ → ℕ
flushed_over b server k = if b.dirty k then b.bytes k else server k

module _ (b : CacheBlock) (server : ℕ → ℕ) (c : IsCoherent (some b) server) where
  pub flushed_over-bytes : (k : ℕ) → k < 1024 → flushed_over b server k ≡ b.bytes k
  flushed_over-bytes k small = ground (arith, c k small)

  -- The bytes of the block that is written, which stays coherent.
  pub written-IsCoherent :
      (offset size : ℕ) (source : ℕ → ℕ) → IsCoherent (some (written offset size source b)) server
  written-IsCoherent offset size source k small clean = ground (arith, c k small)
