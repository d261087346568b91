-- ===== src/Cache/Ends.antt =====
-- The last node of a list, and a list from its end on.
use mathlib.Core.List.{reverse, reverse-append}
use pfs.Base.{
  ℕ, ◌≡◌, refl, ap, ◌∙◌, true, false, ◌||◌, none, some, List, [], ◌∷◌, ◌++◌, map, arith, ◌==◌,
}
use pfs.Cache.Order.{contains, IsDistinct, without, last, last-contains}
use pfs.Cache.{CacheBlock}

-- A list ends with its last node.
pub without-last :
    (xs : List ℕ) (n : ℕ) → IsDistinct xs → last xs ≡ some n → xs ≡ without n xs ++ n ∷ []
without-last [] n d h = cc
without-last (x ∷ []) n d h = ground arith
without-last (x ∷ y ∷ ys) n d h =
    let rest = without-last (y ∷ ys) n d.1 h in
    let inside = last-contains (y ∷ ys) n (ground arith) in
    let other : (x == n) ≡ false = ground arith in rw other (ap (◌∷◌ x) rest)

pub reverse-last :
    (xs : List ℕ) (n : ℕ)
    → IsDistinct xs
    → last xs ≡ some n
    → reverse xs ≡ n ∷ reverse (without n xs)
reverse-last xs n d h = ap reverse (without-last xs n d h) ∙ reverse-append (without n xs) (n ∷ [])

pub last-none : (xs : List ℕ) → last xs ≡ none → xs ≡ []
last-none [] h = refl
last-none (x ∷ []) h = cc
last-none (x ∷ y ∷ ys) h = cc (last-none (y ∷ ys) h)

pub map-same :
    (f h : ℕ → CacheBlock) (xs : List ℕ)
    → ((a : ℕ) → contains a xs ≡ true → f a ≡ h a)
    → map f xs ≡ map h xs
map-same f h [] same = refl
map-same f h (x ∷ xs) same =
    let here = same x (ground arith) in
    let rest = map-same f h xs (λ a m. same a (ground arith)) in cc

pub contains-append :
    (a : ℕ) (xs ys : List ℕ) → contains a (xs ++ ys) ≡ (contains a xs || contains a ys)
contains-append a [] ys = refl
contains-append a (x ∷ xs) ys = ground (arith, contains-append a xs ys)

pub contains-reverse : (a : ℕ) (xs : List ℕ) → contains a (reverse xs) ≡ contains a xs
contains-reverse a [] = refl
contains-reverse a (x ∷ xs) =
    rw (reverse-append (x ∷ []) xs)
      (ground (arith, contains-append a (reverse xs) (x ∷ []), contains-reverse a xs))
