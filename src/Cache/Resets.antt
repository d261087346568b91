-- ===== src/Cache/Resets.antt =====
-- Links that are reset once more, of a node that is on no list.
use pfs.Base.{ℕ, ◌≡◌, inl, inr, false, none, List, ◌∷◌, arith, ◌==◌, Bool-cases}
use pfs.Cache.Order.{
  contains, without, without-absent, contains-without, succ_in-absent, pred_from-absent,
}
use pfs.Cache.Links.{LinkedList, assign, remove_from}
use pfs.Cache.Links.Refines.{IsList, remove_from-IsList}
use pfs.Cache.Table.{HashTable, FreeList, add_free}
use pfs.Cache.Chains.{IsChained, IsFree, elsewhere, add_free-IsFree}

abbrev pub reset_links : ℕ → LinkedList → LinkedList
reset_links node d = record d { prev = assign node none d.prev; next = assign node none d.next }

reset_links-IsList :
    (node : ℕ) (xs : List ℕ) (d : LinkedList)
    → contains node xs ≡ false
    → IsList xs d
    → IsList xs (reset_links node d)
reset_links-IsList node xs d out l = record {
  distinct = l.distinct;
  front = l.front;
  back = l.back;
  behind = λ a. ground (arith, l.behind a, succ_in-absent xs node out);
  before = λ a. ground (arith, l.before a, pred_from-absent none xs node out);
}

-- After a removal, and for a list that the node was never on.
pub removed-IsList :
    (node : ℕ) (xs : List ℕ) (d : LinkedList)
    → IsList xs d
    → IsList (without node xs) (reset_links node (remove_from node d))
removed-IsList node xs d l =
    reset_links-IsList node (without node xs) (remove_from node d)
      (ground (arith, contains-without xs node node)) (remove_from-IsList node xs d l)

pub spared-IsList :
    (node : ℕ) (xs : List ℕ) (d : LinkedList)
    → contains node xs ≡ false
    → IsList xs d
    → IsList (without node xs) (reset_links node d)
spared-IsList node xs d out l = rw (without-absent xs node out) (reset_links-IsList node xs d out l)

-- A node that is not in its own bucket is in none.
pub in_no_bucket :
    (bucket_id : ℕ → ℕ) (zs : ℕ → List ℕ) (t : HashTable) (node b : ℕ)
    → IsChained bucket_id zs t
    → contains node (zs (bucket_id node)) ≡ false
    → contains node (zs b) ≡ false
in_no_bucket bucket_id zs t node b l out = elim (Bool-cases (bucket_id node == b)) [
  | inl same ↦ ground arith
  | inr other ↦ elsewhere bucket_id zs t l b node other
]

-- The bucket of a node that is in none may be forgotten.
pub forget-IsChained :
    (bucket_id : ℕ → ℕ) (zs : ℕ → List ℕ) (t : HashTable) (node v : ℕ)
    → IsChained bucket_id zs t
    → contains node (zs (bucket_id node)) ≡ false
    → IsChained
        (assign node v bucket_id)
        zs
        (record t { prev = assign node none t.prev; next = assign node none t.next })
forget-IsChained bucket_id zs t node v l out =
    let absent : (b : ℕ) → contains node (zs b) ≡ false =
      λ b. in_no_bucket bucket_id zs t node b l out in
    record {
      distinct = l.distinct;
      home = λ b a h. ground (arith, l.home b a h, absent b);
      front = l.front;
      behind = λ a. ground (arith, l.behind a, succ_in-absent (zs v) node (absent v));
      before = λ a. ground (arith, l.before a, pred_from-absent none (zs v) node (absent v));
    }

pub unlinked-IsFree :
    (node : ℕ) (fs : List ℕ) (f : FreeList)
    → contains node fs ≡ false
    → IsFree fs f
    → IsFree (node ∷ fs) (
        add_free node (record f { prev = assign node none f.prev; next = assign node none f.next }))
unlinked-IsFree node fs f out l =
    add_free-IsFree node fs
      (record f { prev = assign node none f.prev; next = assign node none f.next }) out
      (record {
        distinct = l.distinct;
        front = l.front;
        behind = λ a h. ground (arith, l.behind a h);
      })
