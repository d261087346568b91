-- ===== src/Cache/Start.antt =====
-- The cache that the constructor of client/cache.cpp makes: every node is free, once.
use pfs.Base.{
  ℕ, zero, suc, ◌-◌, ◌<◌, ◌≡◌, refl, sym, ap, none, some, List, [], ◌∷◌, arith, ltb, ◌==◌,
  if◌then◌else◌, length,
}
use pfs.Cache.Order.{contains, IsDistinct, first, succ_in}
use pfs.Cache.Links.Refines.{IsList}
use pfs.Cache.Table.{initial_free}
use pfs.Cache.Chains.{IsFree}
use pfs.Cache.Invariant.{Shape, IsCache}
use pfs.Cache.{CacheBlock, new_cache, no_links, block_count}

-- The numbers below `n`, the greatest first.
unfoldable pub down : ℕ → List ℕ
down zero = []
down (suc n) = n ∷ down n

contains-down : (n a : ℕ) → contains a (down n) ≡ ltb a n
unfolding down
contains-down zero a = ground arith
contains-down (suc n) a = ground (arith, contains-down n a)

down-IsDistinct : (n : ℕ) → IsDistinct (down n)
unfolding down
down-IsDistinct zero = tt
down-IsDistinct (suc n) = (ground (arith, contains-down n n), down-IsDistinct n)

length-down : (n : ℕ) → length (down n) ≡ n
unfolding down
length-down zero = refl
length-down (suc n) = ap suc (length-down n)

first-down : (n : ℕ) → first (down n) ≡ (if n == 0 then none else some (n - 1))
unfolding down
first-down zero = refl
first-down (suc n) = ground arith

succ_in-down : (n a : ℕ) → a < n → succ_in (down n) a ≡ first (down a)
unfolding down
succ_in-down zero a h = absurd (omega arith)
succ_in-down (suc n) a h = ground (arith, succ_in-down n a)

initial_free-IsFree : (n : ℕ) → IsFree (down n) (initial_free n)
unfolding initial_free
initial_free-IsFree n = record {
  distinct = down-IsDistinct n;
  front = sym (first-down n);
  behind = λ a h. ground (arith, contains-down n a, succ_in-down n a, first-down a);
}

-- Nothing is cached.
unfoldable pub new_shape : Shape
new_shape = record { recent = []; dirty = []; free = down block_count; buckets = λ b. [] }

pub no_links-IsList : IsList [] no_links
no_links-IsList = record {
  distinct = tt;
  front = refl;
  back = refl;
  behind = λ a. refl;
  before = λ a. refl;
}

-- In a new cache every node is free and nothing is cached; the invariant holds.
pub new_cache-IsCache :
    (std_hash : ℕ → ℕ) (memory : ℕ → CacheBlock) → IsCache std_hash new_shape (new_cache memory)
unfolding new_cache new_shape
new_cache-IsCache std_hash memory = record {
  recency = no_links-IsList;
  dirty = no_links-IsList;
  chained = record {
    distinct = λ b. tt;
    home = λ b a h. absurd (ground arith);
    front = λ b. refl;
    behind = λ a. refl;
    before = λ a. refl;
  };
  free = initial_free-IsFree block_count;
  placed = λ a. refl;
  clean = λ a h. absurd (ground arith);
  unclean = λ a h. absurd (ground arith);
  untouched = λ a i h. absurd (ground arith);
  unused = λ a h. refl;
  valid = λ a h. absurd (ground arith);
  hashed = λ a h. absurd (ground arith);
  unique = λ a b h k f d. absurd (ground arith);
  known = λ a h. ground (arith, contains-down block_count a);
}

pub new_cache-free :
    (std_hash : ℕ → ℕ) (memory : ℕ → CacheBlock)
    → ((new_cache memory).free_block_semaphore ≡ 2048) × (length new_shape.free ≡ 2048)
unfolding new_cache new_shape
new_cache-free std_hash memory = (refl, length-down block_count)
