-- ===== src/Cache/Links/Refines.antt =====
-- The lists of pointers stand for lists, and the three operations do to those what they are for.
use pfs.Base.{
  ℕ, ◌≡◌, refl, sym, ◌∙◌, inl, inr, true, false, ◌&&◌, none, some, List, [], ◌∷◌, arith, Bool-cases,
  Option-cases,
}
use pfs.Cache.Order.{
  contains, IsDistinct, without, first, last, succ_in, pred_from, is, pred_from-absent,
  without-IsDistinct, without-alone, last_from-some, pred_from-last, succ_in-last, pred_from-change,
  first-without, last_from-without, succ_in-without, pred_from-without,
}
use pfs.Cache.Links.{LinkedList, assign, add_to, remove_from, remove_lru}

-- The nodes `xs`, most recent first, are linked both ways between the two ends, each once, and every
-- other node's links are null.
pub record IsList (xs : List ℕ) (d : LinkedList) : Type 0 where
  pub distinct : IsDistinct xs
  pub front : d.mru ≡ first xs
  pub back : d.lru ≡ last xs
  pub behind : (a : ℕ) → d.next a ≡ succ_in xs a
  pub before : (a : ℕ) → d.prev a ≡ pred_from none xs a

pub add_to-IsList :
    (node : ℕ) (xs : List ℕ) (d : LinkedList)
    → contains node xs ≡ false
    → IsList xs d
    → IsList (node ∷ xs) (add_to node d)
unfolding add_to
add_to-IsList node xs d new l = record {
  distinct = (new, l.distinct);
  front = refl;
  back = rw l.back (sym (last_from-some (some node) xs));
  behind = λ a. ground (arith, l.behind a, l.front);
  before = λ a. ground (
    arith,
    l.before a,
    l.front,
    pred_from-change (some node) none xs a,
    pred_from-absent (some node) xs node,
    pred_from-absent none xs node,
  );
}

alone-IsList :
    (node : ℕ) (xs : List ℕ) (d : LinkedList)
    → IsList xs d
    → is node d.mru ≡ true
    → is node d.lru ≡ true
    → (xs ≡ node ∷ []) × ((a : ℕ) → d.next a ≡ none) × ((a : ℕ) → d.prev a ≡ none)
alone-IsList node xs d l f b =
    let one = without-alone xs node l.distinct (rw (← l.front) f) (rw (← l.back) b) in
    (one, λ a. l.behind a ∙ (rw one (ground arith)), λ a. l.before a ∙ (rw one (ground arith)))

module _ (node : ℕ) (xs : List ℕ) (d : LinkedList) (l : IsList xs d) where
  remove_from-alone :
      is node d.mru ≡ true → is node d.lru ≡ true → IsList (without node xs) (remove_from node d)
  unfolding remove_from
  remove_from-alone f b =
      let (one, behind, before) = alone-IsList node xs d l f b in
      let rest : without node xs ≡ [] = rw one (ground arith) in
      rw (f, b, rest)
        (record { distinct = tt; front = refl; back = refl; behind = behind; before = before })

  remove_from-others :
      (is node d.mru && is node d.lru) ≡ false → IsList (without node xs) (remove_from node d)
  unfolding remove_from
  remove_from-others others =
      let next = l.behind node in
      let prev = l.before node in
      rw others (record {
        distinct = without-IsDistinct xs node l.distinct;
        front = ground (arith, l.front, next, first-without xs node l.distinct);
        back = ground (arith, l.back, prev, last_from-without none xs node l.distinct);
        behind =
            λ a. ground (arith, prev, next, l.behind a, succ_in-without none xs node a l.distinct);
        before = λ a.
            ground (arith, prev, next, l.before a, pred_from-without none xs node a l.distinct);
      })

  pub remove_from-IsList : IsList (without node xs) (remove_from node d)
  remove_from-IsList = elim (Bool-cases (is node d.mru && is node d.lru)) [
    | inl alone ↦ remove_from-alone (ground arith) (ground arith)
    | inr others ↦ remove_from-others others
  ]

-- The list without its last node.
abbrev pub without_last : List ℕ → List ℕ
without_last xs = elim (last xs) [ none ↦ xs | some node ↦ without node xs ]

module _ (node : ℕ) (xs : List ℕ) (d : LinkedList) (l : IsList xs d)
    (at_end : d.lru ≡ some node) where
  remove_lru-alone :
      is node d.mru ≡ true
      → (r : LinkedList) × (remove_lru d ≡ some (some node, r)) × IsList (without node xs) r
  unfolding remove_lru
  remove_lru-alone f =
      let (one, behind, before) = alone-IsList node xs d l f (ground arith) in
      let rest : without node xs ≡ [] = rw one (ground arith) in
      let alone : LinkedList = record {
        mru = none;
        lru = none;
        prev = assign node none d.prev;
        next = assign node none d.next;
      } in
      (
        alone,
        ground arith,
        rw rest (record {
          distinct = tt;
          front = refl;
          back = refl;
          behind = λ a. ground (arith, behind a);
          before = λ a. ground (arith, before a);
        }),
      )

  remove_lru-others : is node d.mru ≡ false → remove_lru d ≡ some (some node, remove_from node d)
  unfolding remove_lru remove_from
  remove_lru-others f =
      let final : is node (last xs) ≡ true = ground (arith, l.back) in
      let (z, prev) = pred_from-last xs node final (ground (arith, l.front)) in
      let before : d.prev node ≡ some z = l.before node ∙ prev in
      let behind : d.next node ≡ none = l.behind node ∙ succ_in-last xs node l.distinct final in
      ground arith

pub remove_lru-IsList :
    (xs : List ℕ) (d : LinkedList)
    → IsList xs d
    → (r : LinkedList) × (remove_lru d ≡ some (last xs, r)) × IsList (without_last xs) r
unfolding remove_lru
remove_lru-IsList xs d l = elim (Option-cases (last xs)) [
  | inl e ↦ (d, ground (arith, l.back), rw (e, without_last) l)
  | inr (node, e) ↦ elim (Bool-cases (is node d.mru)) [
    | inl f ↦
        let (r, done, rest) = remove_lru-alone node xs d l (l.back ∙ e) f in
        (r, rw e done, rw (e, without_last) rest)
    | inr f ↦ (
      remove_from node d,
      rw e (remove_lru-others node xs d l (l.back ∙ e) f),
      rw (e, without_last) (remove_from-IsList node xs d l),
    )
  ]
]

-- The methods of a linked list refine those of a list without repetitions: a new node is put to the
-- front; a node is taken out, wherever it stands; and the last node is taken off, where the assertions
-- hold.
pub lists_refine :
    (node : ℕ) (xs : List ℕ) (d : LinkedList)
    → IsList xs d
    → (contains node xs ≡ false → IsList (node ∷ xs) (add_to node d))
      × IsList (without node xs) (remove_from node d)
      × ((r : LinkedList) × (remove_lru d ≡ some (last xs, r)) × IsList (without_last xs) r)
lists_refine node xs d l =
    (λ new. add_to-IsList node xs d new l, remove_from-IsList node xs d l, remove_lru-IsList xs d l)
