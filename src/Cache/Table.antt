-- ===== src/Cache/Table.antt =====
-- The hash table of client/cache.cpp, a linked list for each bucket, and its list of free nodes.
use pfs.Base.{ℕ, suc, ◌-◌, Option, none, some, ◌==◌, if◌then◌else◌}
use pfs.Cache.Order.{is}
use pfs.Cache.Links.{assign, assign_if}

-- `hashTable`, with the `bucketNode` of every node.
pub record HashTable : Type 0 where
  pub heads : ℕ → Option ℕ
  pub prev : ℕ → Option ℕ
  pub next : ℕ → Option ℕ

-- `addToHashmap`, of a node whose `bucketId` is given.
unfoldable pub add_to_hashmap : ℕ → ℕ → HashTable → HashTable
add_to_hashmap bucket node t = record {
  heads = assign bucket (some node) t.heads;
  prev = assign_if (t.heads bucket) (some node) t.prev;
  next = assign node (t.heads bucket) t.next;
}

-- `removeFromHashmap`
unfoldable pub remove_from_hashmap : ℕ → ℕ → HashTable → HashTable
remove_from_hashmap bucket node t = record {
  heads = if is node (t.heads bucket) then assign bucket (t.next node) t.heads else t.heads;
  prev = assign node none (assign_if (t.next node) (t.prev node) t.prev);
  next = assign node none (assign_if (t.prev node) (t.next node) t.next);
}

-- The free list has one end. A node that is taken off it keeps its `next`.
pub record FreeList : Type 0 where
  pub head : Option ℕ
  pub prev : ℕ → Option ℕ
  pub next : ℕ → Option ℕ

-- The links in `addToFreeList`.
unfoldable pub add_free : ℕ → FreeList → FreeList
add_free node f = record {
  head = some node;
  prev = assign_if f.head (some node) f.prev;
  next = assign node f.head f.next;
}

-- The links in `getFreeListEntry`. `none` is the failed assertion on an empty list, and the null
-- pointer behind the last node.
unfoldable pub take_free : FreeList → Option (ℕ × FreeList)
take_free f = elim f.head [
  | none ↦ none
  | some node ↦ elim (f.next node) [
    | none ↦ none
    | some nx ↦ some (node, record f { head = some nx; prev = assign nx none f.prev })
  ]
]

-- The nodes that the constructor makes: each stands before the one that was made before it.
unfoldable pub initial_free : ℕ → FreeList
initial_free count = record {
  head = below count;
  prev = λ i. if suc i == count then none else some (suc i);
  next = below;
}
  where
    below : ℕ → Option ℕ
    below i = if i == 0 then none else some (i - 1)
