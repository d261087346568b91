-- ===== src/Cache/Invariant.antt =====
-- The lists that a state of the cache stands for, and how they fit together.
use pfs.Base.{
  ℕ, zero, suc, ◌≤◌, ◌<◌, ◌≡◌, refl, sym, ◌∙◌, inl, inr, Bool, true, false, ◌&&◌, ◌||◌, Option,
  none, some, List, [], ◌∷◌, arith, ◌==◌, if◌then◌else◌, length, Bool-cases, Option-cases,
}
use pfs.Config.{hash_pfs}
use pfs.Cache.Order.{
  contains, IsDistinct, without, first, succ_in, without-IsDistinct, contains-without,
  without-absent,
}
use pfs.Cache.Links.Refines.{IsList}
use pfs.Cache.Chains.{IsChained, IsFree}
use pfs.Cache.{Cache, walk, lookup}

-- The orders of the clean and of the dirty blocks, of the free nodes and of each bucket.
pub record Shape : Type 0 where
  pub recent : List ℕ
  pub dirty : List ℕ
  pub free : List ℕ
  pub buckets : ℕ → List ℕ

abbrev pub cached : Shape → ℕ → Bool
cached g a = contains a g.recent || contains a g.dirty

module _ (std_hash : ℕ → ℕ) where
  -- The lists are linked as the pointers say. A node is in its bucket exactly when it is on one of the
  -- two lists, the one that its `clean` says, and then under its own hash, and alone with its name and
  -- address. A free node is on neither list. Clean blocks have no dirty byte.
  pub record IsCache (g : Shape) (c : Cache) : Type 0 where
    pub recency : IsList g.recent c.recency
    pub dirty : IsList g.dirty c.dirty_list
    pub chained : IsChained c.bucket_id g.buckets c.table
    pub free : IsFree g.free c.free_list
    pub placed : (a : ℕ) → contains a (g.buckets (c.bucket_id a)) ≡ cached g a
    pub clean : (a : ℕ) → contains a g.recent ≡ true → (c.blocks a).clean ≡ true
    pub unclean : (a : ℕ) → contains a g.dirty ≡ true → (c.blocks a).clean ≡ false
    pub untouched : (a i : ℕ) → contains a g.recent ≡ true → (c.blocks a).dirty i ≡ false
    pub unused : (a : ℕ) → contains a g.free ≡ true → cached g a ≡ false
    pub valid : (a : ℕ) → cached g a ≡ true → (c.blocks a).valid ≡ true
    pub hashed :
        (a : ℕ)
        → cached g a ≡ true
        → c.bucket_id a ≡ hash_pfs std_hash (c.blocks a).fdes (c.blocks a).addr
    pub unique :
        (a b : ℕ)
        → cached g a ≡ true
        → cached g b ≡ true
        → (c.blocks a).fdes ≡ (c.blocks b).fdes
        → (c.blocks a).addr ≡ (c.blocks b).addr
        → a ≡ b
    pub known : (a : ℕ) → (cached g a || contains a g.free) ≡ true → a < 2048

-- Numbers below `n`, each once: there are `n` of them at most.
length-without : (xs : List ℕ) (n : ℕ) → IsDistinct xs → length xs ≤ suc (length (without n xs))
length-without [] n d = omega arith
length-without (x ∷ xs) n d = ground (arith, length-without xs n d.1, without-absent xs n)

pub length-le :
    (n : ℕ) (xs : List ℕ) → IsDistinct xs → ((a : ℕ) → contains a xs ≡ true → a < n) → length xs ≤ n
length-le zero [] d h = omega arith
length-le zero (x ∷ xs) d h = absurd (ground (arith, h x))
length-le (suc n) xs d h =
    let smaller =
      length-le n (without n xs) (without-IsDistinct xs n d)
        (λ a m. ground (arith, contains-without xs n a, h a)) in
    omega (arith, length-without xs n d, smaller)

-- A walk along a linked list finds its first match, with a round for each node.
abbrev pub matches : ℕ → ℕ → Cache → ℕ → Bool
matches fdes addr c a = (c.blocks a).fdes == fdes && (c.blocks a).addr == addr

abbrev pub find : (ℕ → Bool) → List ℕ → Option ℕ
find p [] = none
find p (x ∷ xs) = let rest = find p xs in if p x then some x else rest

walk-find :
    (fuel fdes addr : ℕ) (c : Cache) (xs : List ℕ)
    → IsDistinct xs
    → ((a : ℕ) → contains a xs ≡ true → c.table.next a ≡ succ_in xs a)
    → length xs ≤ fuel
    → walk fuel fdes addr c (first xs) ≡ find (matches fdes addr c) xs
unfolding walk
walk-find zero fdes addr c [] d h le = refl
walk-find zero fdes addr c (x ∷ xs) d h le = absurd (omega arith)
walk-find (suc fuel) fdes addr c [] d h le = refl
walk-find (suc fuel) fdes addr c (x ∷ xs) d h le =
    let rest = walk-find fuel fdes addr c xs d.1 (λ a m. ground (arith, h a, d.0)) (omega arith) in
    ground (arith, rest, h x)

find-some :
    (p : ℕ → Bool) (xs : List ℕ) (a : ℕ)
    → find p xs ≡ some a
    → (p a ≡ true) × (contains a xs ≡ true)
find-some p [] a h = cc
find-some p (x ∷ xs) a h = ground (arith, find-some p xs a)

find-none :
    (p : ℕ → Bool) (xs : List ℕ) (a : ℕ) → find p xs ≡ none → contains a xs ≡ true → p a ≡ false
find-none p [] a h m = cc
find-none p (x ∷ xs) a h m = ground (arith, find-none p xs a)

module _ (std_hash : ℕ → ℕ) {g : Shape} {c : Cache} (i : IsCache std_hash g c) (fdes addr : ℕ) where
  lookup-find :
      lookup std_hash fdes addr c
      ≡ find (matches fdes addr c) (g.buckets (hash_pfs std_hash fdes addr))
  unfolding lookup
  lookup-find =
      let b : ℕ = hash_pfs std_hash fdes addr in
      let l = i.chained in
      let inside : (a : ℕ) → contains a (g.buckets b) ≡ true → a < 2048 =
        λ a m. ground (arith, l.home b a m, i.placed a, i.known a) in
      let linked : (a : ℕ)
          → contains a (g.buckets b) ≡ true
          → c.table.next a ≡ succ_in (g.buckets b) a =
        λ a m. ground (arith, l.home b a m, l.behind a) in
      let steps =
        walk-find 2048 fdes addr c (g.buckets b) (l.distinct b) linked
          (length-le 2048 (g.buckets b) (l.distinct b) inside) in
      rw (l.front b) steps

  -- What `lookup` finds is cached under the name and the address, and what is cached under them is found.
  pub lookup-some :
      (a : ℕ)
      → lookup std_hash fdes addr c ≡ some a
      → (cached g a ≡ true) × ((c.blocks a).fdes ≡ fdes) × ((c.blocks a).addr ≡ addr)
  lookup-some a h =
      let b : ℕ = hash_pfs std_hash fdes addr in
      let (m, inside) = find-some (matches fdes addr c) (g.buckets b) a (sym lookup-find ∙ h) in
      ground (arith, i.chained.home b a inside, i.placed a)

  pub lookup-none :
      (a : ℕ)
      → lookup std_hash fdes addr c ≡ none
      → cached g a ≡ true
      → matches fdes addr c a ≡ false
  lookup-none a h m = elim (Bool-cases (matches fdes addr c a)) [
    | inr ne ↦ ne
    | inl eq ↦
        let b : ℕ = hash_pfs std_hash fdes addr in
        let same : c.bucket_id a ≡ b = ground (arith, i.hashed a m) in
        let inside : contains a (g.buckets b) ≡ true = ground (arith, i.placed a) in
        find-none (matches fdes addr c) (g.buckets b) a (sym lookup-find ∙ h) inside
  ]

  pub lookup-cached :
      (a : ℕ)
      → cached g a ≡ true
      → (c.blocks a).fdes ≡ fdes
      → (c.blocks a).addr ≡ addr
      → lookup std_hash fdes addr c ≡ some a
  lookup-cached a m f d = elim (Option-cases (lookup std_hash fdes addr c)) [
    | inl e ↦ ground (arith, lookup-none a e m)
    | inr (b, e) ↦
        let (m', f', d') = lookup-some b e in
        let same : b ≡ a = i.unique b a m' m (f' ∙ sym f) (d' ∙ sym d) in rw (← same) e
  ]
