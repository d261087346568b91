-- ===== src/File/Bare.antt =====
-- The locks of the permissions, and who waits for them, have no say in what `addPermission` and
-- `revokePermission` do to a vector.
pub mod Adds
pub mod Revokes
use pfs.Base.{
  ℕ, zero, suc, ◌≡◌, refl, ap, ◌∙◌, Bool, true, false, Option, none, some, List, [], ◌∷◌, arith,
  ◌+◌, if◌then◌else◌, length, insert_at, take, drop, erase_range, modify_at, find_from,
}
use pfs.Permission.{Permission, permission, set_start, set_end, is_shared, is_inclusive_shared}
use pfs.File.{token_at, find_down}
use pfs.File.Cover.{holds, grants}

-- The token alone.
abbrev pub bare : Permission → Permission
bare p = permission p.start p.end p.write

abbrev pub bare_all : List Permission → List Permission
bare_all [] = []
bare_all (p ∷ ps) = bare p ∷ bare_all ps

pub bare_all-bare_all : (ps : List Permission) → bare_all (bare_all ps) ≡ bare_all ps
bare_all-bare_all [] = refl
bare_all-bare_all (p ∷ ps) = ap (λ qs. bare p ∷ qs) (bare_all-bare_all ps)

-- The locks do not matter to what is granted.
pub grants-bare_all :
    (w : Bool) (ps : List Permission) (x : ℕ) → grants w (bare_all ps) x ≡ grants w ps x
unfolding grants holds
grants-bare_all w [] x = refl
grants-bare_all w (p ∷ ps) x = ground (arith, grants-bare_all w ps x)

pub length-bare_all : (ps : List Permission) → length (bare_all ps) ≡ length ps
length-bare_all [] = refl
length-bare_all (p ∷ ps) = ap suc (length-bare_all ps)

pub token_at-bare_all :
    (ps : List Permission) (i : ℕ) → token_at (bare_all ps) i ≡ bare (token_at ps i)
token_at-bare_all [] i = refl
token_at-bare_all (p ∷ ps) zero = refl
token_at-bare_all (p ∷ ps) (suc i) = token_at-bare_all ps i

pub insert_at-bare_all :
    (i : ℕ) (p : Permission) (ps : List Permission)
    → bare_all (insert_at i p ps) ≡ insert_at i (bare p) (bare_all ps)
insert_at-bare_all zero p ps = refl
insert_at-bare_all (suc i) p [] = refl
insert_at-bare_all (suc i) p (q ∷ ps) = ap (λ qs. bare q ∷ qs) (insert_at-bare_all i p ps)

pub take-bare_all : (n : ℕ) (ps : List Permission) → bare_all (take n ps) ≡ take n (bare_all ps)
take-bare_all zero ps = refl
take-bare_all (suc n) [] = refl
take-bare_all (suc n) (p ∷ ps) = ap (λ qs. bare p ∷ qs) (take-bare_all n ps)

pub drop-bare_all : (n : ℕ) (ps : List Permission) → bare_all (drop n ps) ≡ drop n (bare_all ps)
drop-bare_all zero ps = refl
drop-bare_all (suc n) [] = refl
drop-bare_all (suc n) (p ∷ ps) = drop-bare_all n ps

pub erase_range-bare_all :
    (i n : ℕ) (ps : List Permission) → bare_all (erase_range i n ps) ≡ erase_range i n (bare_all ps)
erase_range-bare_all zero n ps = drop-bare_all n ps
erase_range-bare_all (suc i) n [] = refl
erase_range-bare_all (suc i) n (p ∷ ps) = ap (λ qs. bare p ∷ qs) (erase_range-bare_all i n ps)

-- A change and a test that look at the token alone.
module _ (f : Permission → Permission) (same : (p : Permission) → bare (f p) ≡ f (bare p)) where
  pub modify_at-bare_all :
      (i : ℕ) (ps : List Permission) → bare_all (modify_at i f ps) ≡ modify_at i f (bare_all ps)
  modify_at-bare_all i [] = refl
  modify_at-bare_all zero (p ∷ ps) = ap (λ q. q ∷ bare_all ps) (same p)
  modify_at-bare_all (suc i) (p ∷ ps) = ap (λ qs. bare p ∷ qs) (modify_at-bare_all i ps)

module _ (t : Permission → Bool) (same : (p : Permission) → t (bare p) ≡ t p) where
  pub find_from-bare_all :
      (i : ℕ) (ps : List Permission) → find_from t i (bare_all ps) ≡ find_from t i ps
  find_from-bare_all i [] = refl
  find_from-bare_all i (p ∷ ps) = rw (same p, find_from-bare_all (suc i) ps) refl

  pub find_down-bare_all :
      (n : ℕ) (ps : List Permission) → find_down t n (bare_all ps) ≡ find_down t n ps
  unfolding find_down
  find_down-bare_all zero ps = refl
  find_down-bare_all (suc i) ps =
      rw (token_at-bare_all ps i, same (token_at ps i), find_down-bare_all i ps) refl
