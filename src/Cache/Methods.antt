-- ===== src/Cache/Methods.antt =====
-- What the methods of the cache do, block by block: `holds_block` is the cache as a map from names
-- and addresses to blocks, which forgets the order of the lists and the nodes.
use pfs.Base.{
  ℕ, ◌≤◌, ◌≡◌, refl, sym, ◌∙◌, inl, inr, true, ◌&&◌, Option, none, some, List, ◌∷◌, arith, ◌==◌,
  length, Option-cases,
}
use pfs.Cache.Order.{contains, without, contains-without}
use pfs.Cache.Links.{LinkedList, add_to, remove_from}
use pfs.Cache.Links.Refines.{IsList, add_to-IsList, remove_from-IsList}
use pfs.Cache.Invariant.{Shape, cached, IsCache, lookup-some, lookup-none, lookup-cached}
use pfs.Cache.{Cache, CacheBlock, lookup}

-- No free node is taken, and no unit of the semaphore that counts them.
abbrev pub KeepsFree : Shape → Cache → Shape → Cache → Type 0
KeepsFree g c g' c' =
    (c'.free_block_semaphore ≡ c.free_block_semaphore) × (length g.free ≤ length g'.free)

-- A node of a list, taken off and put to the front.
abbrev pub touch : ℕ → List ℕ → List ℕ
touch node xs = node ∷ without node xs

pub contains-touch :
    (node : ℕ) (xs : List ℕ) (a : ℕ)
    → contains node xs ≡ true
    → contains a (touch node xs) ≡ contains a xs
contains-touch node xs a h = ground (arith, contains-without xs node a)

pub touch-IsList :
    (node : ℕ) (xs : List ℕ) (d : LinkedList)
    → IsList xs d
    → IsList (touch node xs) (add_to node (remove_from node d))
touch-IsList node xs d l =
    add_to-IsList node (without node xs) (remove_from node d)
      (ground (arith, contains-without xs node node)) (remove_from-IsList node xs d l)

-- The block that is cached under a name and an address.
unfoldable pub holds_block : (std_hash : ℕ → ℕ) → ℕ → ℕ → Cache → Option CacheBlock
holds_block std_hash fdes addr c = elim (lookup std_hash fdes addr c) [
  | none ↦ none
  | some node ↦ some (c.blocks node)
]

-- Where nothing is cached, nothing is held.
pub missing-holds_block :
    (std_hash : ℕ → ℕ) (fdes addr f a : ℕ) (c : Cache)
    → lookup std_hash fdes addr c ≡ none
    → (f == fdes && a == addr) ≡ true
    → holds_block std_hash f a c ≡ none
unfolding holds_block
missing-holds_block std_hash fdes addr f a c miss eq =
    let same : lookup std_hash f a c ≡ none = ground arith in rw (same, holds_block) refl

module _ (std_hash : ℕ → ℕ) {g : Shape} {c : Cache} (i : IsCache std_hash g c) where
  -- Two states whose cached nodes agree in name and address find the same nodes.
  pub lookup-same :
      {g' : Shape} {c' : Cache} (i' : IsCache std_hash g' c') (fdes addr : ℕ)
      → ((a : ℕ) → cached g' a ≡ cached g a)
      → ((a : ℕ)
          → ((c'.blocks a).fdes ≡ (c.blocks a).fdes) × ((c'.blocks a).addr ≡ (c.blocks a).addr))
      → lookup std_hash fdes addr c' ≡ lookup std_hash fdes addr c
  lookup-same {g'} {c'} i' fdes addr all same = elim (Option-cases (lookup std_hash fdes addr c)) [
    | inr (a, e) ↦
        let (m, f, d) = lookup-some std_hash i fdes addr a e in
        lookup-cached std_hash i' fdes addr a (all a ∙ m) ((same a).0 ∙ f) ((same a).1 ∙ d) ∙ sym e
    | inl e ↦ elim (Option-cases (lookup std_hash fdes addr c')) [
      | inl e' ↦ e' ∙ sym e
      | inr (a, e') ↦
          let (m, f, d) = lookup-some std_hash i' fdes addr a e' in
          let miss = lookup-none std_hash i fdes addr a e (sym (all a) ∙ m) in
          absurd (ground (arith, same a))
    ]
  ]

  -- A cached node holds its block.
  pub node-holds_block :
      (node : ℕ)
      → cached g node ≡ true
      → let b = c.blocks node in holds_block std_hash b.fdes b.addr c ≡ some b
  unfolding holds_block
  node-holds_block node m =
      let b = c.blocks node in
      let found = lookup-cached std_hash i b.fdes b.addr node m refl refl in
      rw (holds_block, found) refl
