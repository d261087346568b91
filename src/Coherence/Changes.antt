-- ===== src/Coherence/Changes.antt =====
-- What holds of a client's file between two steps, and that a change of one block keeps it.
use mathlib.Core.Option
use pfs.Base.{
  ℕ, ◌+◌, ◌*◌, ◌/◌, ◌%◌, ◌^◌, ◌≤◌, ◌<◌, ◌≡◌, refl, sym, subst, ◌∙◌, inl, inr, true, false, ◌&&◌,
  none, some, List, arith, ◌==◌, ==_iff, if◌then◌else◌, length, Bool-cases, Option-cases,
}
use pfs.Cache.{Cache, CacheBlock}
use pfs.Cache.Invariant.{Shape, IsCache}
use pfs.Cache.Methods.{holds_block}
use pfs.Client.{PfsClient}
use pfs.Placement.{Servers}
use pfs.Placement.Bytes.{IsServed, byte_served}
use pfs.Coherence.{Store, replay}
use pfs.Coherence.View.{view, IsCoherent}

same-IsCoherent :
    (o : Option.Option CacheBlock) (server server' : ℕ → ℕ)
    → ((k : ℕ) → k < 1024 → server' k ≡ server k)
    → IsCoherent o server
    → IsCoherent o server'
same-IsCoherent none server server' same h = tt
same-IsCoherent (some b) server server' same h =
    λ k small clean. h k small clean ∙ sym (same k small)

same-view :
    (o : Option.Option CacheBlock) (server server' : ℕ → ℕ)
    → ((k : ℕ) → k < 1024 → server' k ≡ server k)
    → (k : ℕ) → k < 1024
    → view o server' k ≡ view o server k
same-view none server server' same k small = same k small
same-view (some b) server server' same k small = refl

module _ (std_hash : ℕ → ℕ) (p : PfsClient) (found_at filedes : ℕ) (initial : ℕ → ℕ) where
  -- The cache and the servers are in order, there are nodes enough for the units of the semaphore, only
  -- this file's blocks are cached, each coherent, and together they are the file after the writes.
  pub record IsConsistent (ws : List Store) (ss : Servers) (c : Cache) : Type 0 where
    pub shape : Shape
    pub cache : IsCache std_hash shape c
    pub roomy : 2048 + c.free_block_semaphore ≤ 2 * length shape.free
    pub served : IsServed found_at p ss
    pub mine :
        (f a : ℕ) (b : CacheBlock)
        → holds_block std_hash f a c ≡ some b
        → (f ≡ filedes) × (a % 1024 ≡ 0) × (a < 2 ^ 31)
    pub coherent :
        (a : ℕ) → IsCoherent (holds_block std_hash filedes a c) (byte_served found_at p ss a)
    pub contents :
        (x : ℕ)
        → x < 2 ^ 31
        → view
            (holds_block std_hash filedes (x / 1024 * 1024) c)
            (byte_served found_at p ss (x / 1024 * 1024))
            (x % 1024)
          ≡ replay initial ws x

  -- The file's bytes in one block.
  pub contents_at :
      {ws : List Store} {ss : Servers} {c : Cache} (con : IsConsistent ws ss c) (addr x : ℕ)
      (o : Option.Option CacheBlock)
      → holds_block std_hash filedes addr c ≡ o
      → (x / 1024 * 1024 == addr) ≡ true
      → x < 2 ^ 31
      → view o (byte_served found_at p ss addr) (x % 1024) ≡ replay initial ws x
  contents_at {ws} {ss} {c} con addr x o held eq lt =
      subst
        (λ a.
          holds_block std_hash filedes a c ≡ o
          → view o (byte_served found_at p ss a) (x % 1024) ≡ replay initial ws x)
        ((==_iff (x / 1024 * 1024) addr).0 eq)
        (λ h.
          subst
            (λ o'.
              view o' (byte_served found_at p ss (x / 1024 * 1024)) (x % 1024)
              ≡ replay initial ws x)
            h (con.contents x lt))
        held

  module _ {ws : List Store} {ss : Servers} {c : Cache} (con : IsConsistent ws ss c) (addr : ℕ)
      (aligned : addr % 1024 ≡ 0) (fits : addr < 2 ^ 31) where
    -- The block at `addr` changes, in the cache or at its server, and no other; and so does the file.
    pub changed-IsConsistent :
        (ws' : List Store) (ss' : Servers) (c' : Cache) (g' : Shape)
        (new : Option.Option CacheBlock)
        → IsCache std_hash g' c'
        → 2048 + c'.free_block_semaphore ≤ 2 * length g'.free
        → IsServed found_at p ss'
        → ((f a : ℕ)
            → holds_block std_hash f a c'
              ≡ (if f == filedes && a == addr then new else holds_block std_hash f a c))
        → ((a k : ℕ)
            → (a == addr) ≡ false
            → a % 1024 ≡ 0
            → a < 2 ^ 31
            → k < 1024
            → byte_served found_at p ss' a k ≡ byte_served found_at p ss a k)
        → IsCoherent new (byte_served found_at p ss' addr)
        → ((x : ℕ)
            → x < 2 ^ 31
            → (x / 1024 * 1024 == addr) ≡ true
            → view new (byte_served found_at p ss' addr) (x % 1024) ≡ replay initial ws' x)
        → ((x : ℕ) → (x / 1024 * 1024 == addr) ≡ false → replay initial ws' x ≡ replay initial ws x)
        → IsConsistent ws' ss' c'
    changed-IsConsistent ws' ss' c' g' new i' roomy' served' held spared good here there =
        let held_here : (a : ℕ) → (a == addr) ≡ true → holds_block std_hash filedes a c' ≡ new =
          λ a eq. held filedes a ∙ (ground arith) in
        let held_there : (a : ℕ)
            → (a == addr) ≡ false
            → holds_block std_hash filedes a c' ≡ holds_block std_hash filedes a c =
          λ a ne. held filedes a ∙ (ground arith) in
        record {
          shape = g';
          cache = i';
          roomy = roomy';
          served = served';
          mine = λ f a b h. elim (Bool-cases (f == filedes && a == addr)) [
            | inl eq ↦ ground arith
            | inr ne ↦ con.mine f a b (sym (held f a ∙ (ground arith)) ∙ h)
          ];
          coherent = λ a. elim (Bool-cases (a == addr)) [
            | inl eq ↦ rw (held_here a eq, (==_iff a addr).0 eq) good
            | inr ne ↦ elim (Option-cases (holds_block std_hash filedes a c)) [
              | inl e ↦ rw (held_there a ne ∙ e) tt
              | inr (b, e) ↦
                  let (_, za, fa) = con.mine filedes a b e in
                  rw (held_there a ne) (
                    same-IsCoherent (holds_block std_hash filedes a c) (byte_served found_at p ss a)
                      (byte_served found_at p ss' a) (λ k small. spared a k ne za fa small)
                      (con.coherent a))
            ]
          ];
          contents = λ x lt. elim (Bool-cases (x / 1024 * 1024 == addr)) [
            | inl eq ↦
                rw (held_here (x / 1024 * 1024) eq, (==_iff (x / 1024 * 1024) addr).0 eq)
                  (here x lt eq)
            | inr ne ↦
                let a : ℕ = x / 1024 * 1024 in
                rw (held_there a ne) (
                  same-view (holds_block std_hash filedes a c) (byte_served found_at p ss a)
                    (byte_served found_at p ss' a)
                    (λ k small. spared a k ne (omega arith) (omega arith) small) (x % 1024)
                    (omega arith)
                  ∙ con.contents x lt
                  ∙ sym (there x ne))
          ];
        }

  -- Nothing changes but the order of the lists and the free nodes.
  pub same-IsConsistent :
      {ws : List Store} {ss : Servers} {c : Cache} (con : IsConsistent ws ss c) (c' : Cache)
      (g' : Shape)
      → IsCache std_hash g' c'
      → 2048 + c'.free_block_semaphore ≤ 2 * length g'.free
      → ((f a : ℕ) → holds_block std_hash f a c' ≡ holds_block std_hash f a c)
      → IsConsistent ws ss c'
  same-IsConsistent con c' g' i' roomy' held = record {
    shape = g';
    cache = i';
    roomy = roomy';
    served = con.served;
    mine = λ f a b h. con.mine f a b (sym (held f a) ∙ h);
    coherent = λ a. rw (held filedes a) (con.coherent a);
    contents = λ x lt. rw (held filedes (x / 1024 * 1024)) (con.contents x lt);
  }
