-- ===== src/Cache/Links.antt =====
-- The linked lists of client/cache.cpp. A node is named by a number; a list is its two ends and the
-- `prev` and `next` of every node (include/cache_block_metadata.h). The recency list and the dirty
-- list are written out twice in the source, with the same steps.
pub mod Refines
use pfs.Base.{ℕ, Bool, true, false, ◌&&◌, Option, none, some, ◌==◌, if◌then◌else◌}
use pfs.Cache.Order.{is}

-- `p->f = v`, and the same under `if(p)`.
abbrev pub assign {ℓ} : {A : Type ℓ} → ℕ → A → (ℕ → A) → ℕ → A
assign p v f q = if p == q then v else f q

abbrev pub assign_if {ℓ} : {A : Type ℓ} → Option ℕ → A → (ℕ → A) → ℕ → A
assign_if none v f = f
assign_if (some p) v f = assign p v f

pub record LinkedList : Type 0 where
  -- `MRUNode` and `LRUNode`
  pub mru : Option ℕ
  pub lru : Option ℕ
  pub prev : ℕ → Option ℕ
  pub next : ℕ → Option ℕ

-- `addToRecencyList`; the node's `prev` is not written.
unfoldable pub add_to : ℕ → LinkedList → LinkedList
add_to node d = record {
  mru = some node;
  lru = elim d.lru [ none ↦ some node | some old ↦ some old ];
  prev = assign_if d.mru (some node) d.prev;
  next = assign node d.mru d.next;
}

-- `removeFromRecencyList`; the links of a node that stands alone are not reset.
unfoldable pub remove_from : ℕ → LinkedList → LinkedList
remove_from node d =
    if is node d.mru && is node d.lru then record d { mru = none; lru = none } else record {
      mru = if is node d.mru then d.next node else d.mru;
      lru = if is node d.lru then d.prev node else d.lru;
      prev = assign node none (assign_if (d.next node) (d.prev node) d.prev);
      next = assign node none (assign_if (d.prev node) (d.next node) d.next);
    }

-- `removeRecencyListLRU`: the node, if there is one, and the list without it. `none` is a failed
-- assertion.
unfoldable pub remove_lru : LinkedList → Option (Option ℕ × LinkedList)
remove_lru d = elim d.lru [
  | none ↦ some (none, d)
  | some node ↦
      if is node d.mru
      then some (
        some node,
        record {
          mru = none;
          lru = none;
          prev = assign node none d.prev;
          next = assign node none d.next;
        },
      )
      else (elim (d.prev node) [
        | none ↦ none
        | some before ↦ elim (d.next node) [
          | some behind ↦ none
          | none ↦ some (
            some node,
            record d {
              lru = some before;
              prev = assign node none d.prev;
              next = assign node none (assign before none d.next);
            },
          )
        ]
      ])
]
