-- ===== src/Cache/Order.antt =====
-- Lists of cache nodes, as the order that the pointers of client/cache.cpp stand for: what stands
-- before and behind a node, and what is left without it.
use pfs.Base.{
  ℕ, ◌≡◌, refl, inl, inr, Bool, true, false, ◌&&◌, ◌||◌, not, Option, none, some, List, [], ◌∷◌,
  arith, ◌==◌, if◌then◌else◌, Bool-cases,
}

abbrev pub contains : ℕ → List ℕ → Bool
contains a [] = false
contains a (x ∷ xs) = (x == a) || contains a xs

abbrev pub IsDistinct : List ℕ → Type 0
IsDistinct [] = Unit {0}
IsDistinct (x ∷ xs) = (contains x xs ≡ false) × IsDistinct xs

abbrev pub without : ℕ → List ℕ → List ℕ
without a [] = []
without a (x ∷ xs) = let rest = without a xs in if x == a then rest else x ∷ rest

abbrev pub first : List ℕ → Option ℕ
first [] = none
first (x ∷ xs) = some x

abbrev pub last_from : Option ℕ → List ℕ → Option ℕ
last_from o [] = o
last_from o (x ∷ xs) = last_from (some x) xs

abbrev pub last : List ℕ → Option ℕ
last = last_from none

-- The node behind `a`, none outside the list.
abbrev pub succ_in : List ℕ → ℕ → Option ℕ
succ_in [] a = none
succ_in (x ∷ xs) a = let rest = succ_in xs a in if x == a then first xs else rest

-- The node before `a`, where `o` stands before the list; none outside the list.
abbrev pub pred_from : Option ℕ → List ℕ → ℕ → Option ℕ
pred_from o [] a = none
pred_from o (x ∷ xs) a = let rest = pred_from (some x) xs a in if x == a then o else rest

abbrev pub is : ℕ → Option ℕ → Bool
is a none = false
is a (some b) = b == a

pub succ_in-absent : (xs : List ℕ) (a : ℕ) → contains a xs ≡ false → succ_in xs a ≡ none
succ_in-absent [] a h = refl
succ_in-absent (x ∷ xs) a h = ground (arith, succ_in-absent xs a)

pub pred_from-absent :
    (o : Option ℕ) (xs : List ℕ) (a : ℕ) → contains a xs ≡ false → pred_from o xs a ≡ none
pred_from-absent o [] a h = refl
pred_from-absent o (x ∷ xs) a h = ground (arith, pred_from-absent (some x) xs a)

pub without-absent : (xs : List ℕ) (a : ℕ) → contains a xs ≡ false → without a xs ≡ xs
without-absent [] a h = refl
without-absent (x ∷ xs) a h = ground (arith, without-absent xs a)

pub contains-without :
    (xs : List ℕ) (a b : ℕ) → contains b (without a xs) ≡ (contains b xs && not (a == b))
contains-without [] a b = refl
contains-without (x ∷ xs) a b = ground (arith, contains-without xs a b)

pub without-IsDistinct : (xs : List ℕ) (a : ℕ) → IsDistinct xs → IsDistinct (without a xs)
without-IsDistinct [] a d = tt
without-IsDistinct (x ∷ xs) a d =
    ground (arith, contains-without xs a x, without-IsDistinct xs a d.1)

-- The list without a node of it, by the four functions.
pub first-without :
    (xs : List ℕ) (n : ℕ)
    → IsDistinct xs
    → first (without n xs) ≡ (if is n (first xs) then succ_in xs n else first xs)
first-without [] n d = refl
first-without (x ∷ xs) n d = ground (arith, without-absent xs n)

-- What the two functions name is in the list, or before it.
last_from-foreign :
    (o : Option ℕ) (xs : List ℕ) (n : ℕ)
    → contains n xs ≡ false
    → is n o ≡ false
    → is n (last_from o xs) ≡ false
last_from-foreign o [] n h k = k
last_from-foreign o (x ∷ xs) n h k = last_from-foreign (some x) xs n (ground arith) (ground arith)

pub pred_from-foreign :
    (o : Option ℕ) (xs : List ℕ) (n b : ℕ)
    → contains b xs ≡ false
    → is b o ≡ false
    → is b (pred_from o xs n) ≡ false
pred_from-foreign o [] n b h k = refl
pred_from-foreign o (x ∷ xs) n b h k = ground (arith, pred_from-foreign (some x) xs n b)

pub succ_in-foreign : (xs : List ℕ) (n b : ℕ) → contains b xs ≡ false → is b (succ_in xs n) ≡ false
succ_in-foreign [] n b h = refl
succ_in-foreign (x ∷ []) n b h = ground arith
succ_in-foreign (x ∷ y ∷ ys) n b h = ground (arith, succ_in-foreign (y ∷ ys) n b)

pred_from-swap :
    (o o' : Option ℕ) (xs : List ℕ) (a : ℕ)
    → is a (first xs) ≡ false
    → pred_from o xs a ≡ pred_from o' xs a
pred_from-swap o o' [] a h = refl
pred_from-swap o o' (x ∷ xs) a h = ground arith

pred_first : (o : Option ℕ) (xs : List ℕ) (a : ℕ) → is a (first xs) ≡ true → pred_from o xs a ≡ o
pred_first o [] a h = cc
pred_first o (x ∷ xs) a h = ground arith

-- Only the first node stands right behind what is before the list.
pred_from-first :
    (x : ℕ) (xs : List ℕ) (n : ℕ)
    → contains x xs ≡ false
    → is x (pred_from (some x) xs n) ≡ is n (first xs)
pred_from-first x [] n h = refl
pred_from-first x (y ∷ ys) n h = ground (arith, pred_from-foreign (some y) ys n x)

pub first-foreign : (xs : List ℕ) (n : ℕ) → contains n xs ≡ false → is n (first xs) ≡ false
first-foreign [] n h = refl
first-foreign (x ∷ xs) n h = ground arith

pub last_from-without :
    (o : Option ℕ) (xs : List ℕ) (n : ℕ)
    → IsDistinct xs
    → is n o ≡ false
    → last_from o (without n xs)
      ≡ (if is n (last_from o xs) then pred_from o xs n else last_from o xs)
last_from-without o [] n d h = ground arith
last_from-without o (x ∷ []) n d h = ground arith
last_from-without o (x ∷ y ∷ ys) n d h = elim (Bool-cases (x == n)) [
  | inl here ↦ ground (arith, without-absent (y ∷ ys) n, last_from-foreign (some y) ys n)
  | inr there ↦ ground (arith, last_from-without (some x) (y ∷ ys) n d.1)
]

pub succ_in-without :
    (o : Option ℕ) (xs : List ℕ) (n a : ℕ)
    → IsDistinct xs
    → is a o ≡ false
    → succ_in (without n xs) a
      ≡ (if n == a then none else if is a (pred_from o xs n) then succ_in xs n else succ_in xs a)
succ_in-without o [] n a d h = ground arith
succ_in-without o (x ∷ xs) n a d h = elim (Bool-cases (x == n)) [
  | inl here ↦ ground (arith, without-absent xs n, succ_in-absent xs n)
  | inr there ↦
      ground
        (arith, first-without xs n, pred_from-first x xs n, succ_in-without (some x) xs n a d.1)
]

pub pred_from-without :
    (o : Option ℕ) (xs : List ℕ) (n a : ℕ)
    → IsDistinct xs
    → pred_from o (without n xs) a ≡ (
        if n == a then none else if is a (succ_in xs n) then pred_from o xs n else pred_from o xs a)
pred_from-without o [] n a d = ground arith
pred_from-without o (x ∷ xs) n a d = elim (Bool-cases (x == n)) [
  | inl here ↦ ground (
    arith,
    without-absent xs n,
    pred_from-absent o xs n,
    pred_from-swap o (some x) xs a,
    pred_first o xs a,
  )
  | inr there ↦ ground (arith, succ_in-foreign xs n x, pred_from-without (some x) xs n a d.1)
]

-- The functions at a list with one node more, by those at the list.
pub last_from-some :
    (o : Option ℕ) (xs : List ℕ)
    → last_from o xs ≡ (elim (last_from none xs) as (λ l. Option ℕ) [ none ↦ o | some l ↦ some l ])
last_from-some o [] = refl
last_from-some o (x ∷ []) = refl
last_from-some o (x ∷ y ∷ ys) = last_from-some o (y ∷ ys)

pub pred_from-change :
    (o o' : Option ℕ) (xs : List ℕ) (a : ℕ)
    → pred_from o xs a ≡ (if is a (first xs) then o else pred_from o' xs a)
pred_from-change o o' [] a = refl
pred_from-change o o' (x ∷ xs) a = ground arith

-- A node that is first and last is alone.
pub without-alone :
    (xs : List ℕ) (n : ℕ)
    → IsDistinct xs
    → is n (first xs) ≡ true
    → is n (last xs) ≡ true
    → xs ≡ n ∷ []
without-alone [] n d f l = cc
without-alone (x ∷ []) n d f l = ground arith
without-alone (x ∷ y ∷ ys) n d f l = ground (arith, last_from-foreign (some y) ys n)

-- The last node: nothing behind it, and something before it unless it is first too.
pub last-contains : (xs : List ℕ) (n : ℕ) → is n (last xs) ≡ true → contains n xs ≡ true
last-contains xs n h = elim (Bool-cases (contains n xs)) [
  | inl yes_in ↦ yes_in
  | inr out ↦ ground (arith, last_from-foreign none xs n out refl)
]

pub succ_in-last :
    (xs : List ℕ) (n : ℕ) → IsDistinct xs → is n (last xs) ≡ true → succ_in xs n ≡ none
succ_in-last [] n d h = refl
succ_in-last (x ∷ []) n d h = ground arith
succ_in-last (x ∷ y ∷ ys) n d h =
    ground (arith, succ_in-last (y ∷ ys) n d.1, last-contains (y ∷ ys) n)

pred_from-some :
    (o : ℕ) (xs : List ℕ) (n : ℕ)
    → contains n xs ≡ true
    → (z : ℕ) × (pred_from (some o) xs n ≡ some z)
pred_from-some o [] n h = cc
pred_from-some o (x ∷ xs) n h = elim (Bool-cases (x == n)) [
  | inl here ↦ (o, ground arith)
  | inr there ↦ let (z, e) = pred_from-some x xs n (ground arith) in (z, ground arith)
]

pub pred_from-last :
    (xs : List ℕ) (n : ℕ)
    → is n (last xs) ≡ true
    → is n (first xs) ≡ false
    → (z : ℕ) × (pred_from none xs n ≡ some z)
pred_from-last [] n h f = cc
pred_from-last (x ∷ xs) n h f =
    let inside = last-contains (x ∷ xs) n h in
    let (z, e) = pred_from-some x xs n (ground arith) in (z, ground arith)
