-- ===== src/Cache/Chains.antt =====
-- The hash table and the free list stand for lists too.
use pfs.Base.{
  ℕ, ◌≡◌, refl, inl, inr, true, false, none, some, List, [], ◌∷◌, arith, ◌==◌, Bool-cases,
}
use pfs.Cache.Order.{
  contains, IsDistinct, without, first, succ_in, pred_from, pred_from-absent, without-IsDistinct,
  pred_from-change, contains-without, first-without, succ_in-without, pred_from-without,
  pred_from-foreign, succ_in-foreign, first-foreign,
}
use pfs.Cache.Links.{assign}
use pfs.Cache.Table.{HashTable, FreeList, add_to_hashmap, remove_from_hashmap, add_free, take_free}

-- The bucket of a node is the one that it names, and there its nodes are linked as in `IsList`.
pub record IsChained (bucket_id : ℕ → ℕ) (zs : ℕ → List ℕ) (t : HashTable) : Type 0 where
  pub distinct : (b : ℕ) → IsDistinct (zs b)
  pub home : (b a : ℕ) → contains a (zs b) ≡ true → bucket_id a ≡ b
  pub front : (b : ℕ) → t.heads b ≡ first (zs b)
  pub behind : (a : ℕ) → t.next a ≡ succ_in (zs (bucket_id a)) a
  pub before : (a : ℕ) → t.prev a ≡ pred_from none (zs (bucket_id a)) a

module _ (bucket_id : ℕ → ℕ) (zs : ℕ → List ℕ) (t : HashTable) (l : IsChained bucket_id zs t) where
  -- A node is in no bucket but its own.
  pub elsewhere : (b a : ℕ) → (bucket_id a == b) ≡ false → contains a (zs b) ≡ false
  elsewhere b a ne = elim (Bool-cases (contains a (zs b))) [
    | inl yes_in ↦ ground (arith, l.home b a yes_in)
    | inr out ↦ out
  ]

  pub remove_from_hashmap-IsChained :
      (node : ℕ)
      → let b = bucket_id node in
        IsChained bucket_id (assign b (without node (zs b)) zs) (remove_from_hashmap b node t)
  unfolding remove_from_hashmap
  remove_from_hashmap-IsChained node =
      let b : ℕ = bucket_id node in
      let old : List ℕ = zs b in
      let next = l.behind node in
      let prev = l.before node in
      record {
        distinct = λ c. elim (Bool-cases (b == c)) [
          | inl same ↦ rw same (without-IsDistinct old node (l.distinct b))
          | inr other ↦ rw other (l.distinct c)
        ];
        home = λ c a h. ground (arith, contains-without old node a, l.home c a);
        front =
            λ c. ground (arith, first-without old node (l.distinct b), l.front b, l.front c, next);
        behind = λ a. elim (Bool-cases (b == bucket_id a)) [
          | inl same ↦
              ground (arith, succ_in-without none old node a (l.distinct b), l.behind a, next, prev)
          | inr other ↦ ground (
            arith,
            pred_from-foreign none old node a (elsewhere b a (ground arith)),
            l.behind a,
            prev,
          )
        ];
        before = λ a. elim (Bool-cases (b == bucket_id a)) [
          | inl same ↦
              ground
                (arith, pred_from-without none old node a (l.distinct b), l.before a, next, prev)
          | inr other ↦
              ground
                (arith, succ_in-foreign old node a (elsewhere b a (ground arith)), l.before a, next)
        ];
      }

  pub add_to_hashmap-IsChained :
      (b node : ℕ)
      → contains node (zs (bucket_id node)) ≡ false
      → IsChained (assign node b bucket_id) (assign b (node ∷ zs b) zs) (add_to_hashmap b node t)
  unfolding add_to_hashmap
  add_to_hashmap-IsChained b node new =
      let old : List ℕ = zs b in
      let absent : contains node old ≡ false = elim (Bool-cases (bucket_id node == b)) [
        | inl same ↦ ground arith
        | inr other ↦ elsewhere b node other
      ] in
      let front = l.front b in
      record {
        distinct = λ c. elim (Bool-cases (b == c)) [
          | inl same ↦ rw same (absent, l.distinct b)
          | inr other ↦ rw other (l.distinct c)
        ];
        home = λ c a h. ground (arith, l.home c a, l.home b a, absent);
        front = λ c. ground (arith, l.front c);
        behind = λ a. elim (Bool-cases (node == a)) [
          | inl same ↦ ground arith
          | inr other ↦ ground (arith, l.behind a)
        ];
        before = λ a. elim (Bool-cases (node == a)) [
          | inl same ↦ ground (
            arith,
            first-foreign old node absent,
            l.before a,
            pred_from-absent none (zs (bucket_id node)) node new,
          )
          | inr other ↦ elim (Bool-cases (b == bucket_id a)) [
            | inl here ↦ ground (arith, pred_from-change (some node) none old a, l.before a)
            | inr there ↦
                ground (arith, first-foreign old a (elsewhere b a (ground arith)), l.before a)
          ]
        ];
      }

-- The free list, by its head and its `next` pointers: those of other nodes are of no account.
pub record IsFree (fs : List ℕ) (f : FreeList) : Type 0 where
  pub distinct : IsDistinct fs
  pub front : f.head ≡ first fs
  pub behind : (a : ℕ) → contains a fs ≡ true → f.next a ≡ succ_in fs a

pub add_free-IsFree :
    (node : ℕ) (fs : List ℕ) (f : FreeList)
    → contains node fs ≡ false
    → IsFree fs f
    → IsFree (node ∷ fs) (add_free node f)
unfolding add_free
add_free-IsFree node fs f new l = record {
  distinct = (new, l.distinct);
  front = refl;
  behind = λ a h. ground (arith, l.behind a, l.front);
}

-- The first of two free nodes or more can be taken; the last one cannot.
pub take_free-IsFree :
    (node : ℕ) (fs : List ℕ) (f : FreeList)
    → IsFree (node ∷ fs) f
    → elim (first fs) as (λ o. Type 0) [
      | none ↦ take_free f ≡ none
      | some _ ↦ (g : FreeList) × (take_free f ≡ some (node, g)) × IsFree fs g
    ]
unfolding take_free
take_free-IsFree node [] f l = ground (arith, l.behind node, l.front)
take_free-IsFree node (x ∷ fs) f l = (
  record f { head = some x; prev = assign x none f.prev },
  ground (arith, l.behind node, l.front),
  record {
    distinct = l.distinct.1;
    front = refl;
    behind = λ a h. ground (arith, l.behind a, l.distinct.0);
  },
)
