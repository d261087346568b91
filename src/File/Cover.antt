-- ===== src/File/Cover.antt =====
-- What a vector of permissions grants: the bytes of its tokens, and those of its write tokens.
use pfs.Base.{
  ℕ, zero, suc, ◌<◌, ◌≡◌, refl, inl, inr, Bool, true, false, not, ◌&&◌, ◌||◌, List, [], ◌∷◌, arith,
  ltb, leb, length, insert_at, drop, erase_range, Bool-cases,
}
use pfs.Permission.{Permission}
use pfs.File.{token_at}

-- The token grants the byte `x`, for writing if `w` asks for that.
unfoldable pub holds : Bool → Permission → ℕ → Bool
holds w p x = leb p.start x && ltb x p.end && (not w || p.write)

unfoldable pub grants : Bool → List Permission → ℕ → Bool
unfolding holds
grants w [] x = false
grants w (p ∷ ps) x = holds w p x || grants w ps x

-- A permission at a position grants what the vector grants.
pub grants-token_at :
    (w : Bool) (ps : List Permission) (x i : ℕ)
    → holds w (token_at ps i) x ≡ true
    → grants w ps x ≡ true
unfolding grants
grants-token_at w [] x i h = ground arith
grants-token_at w (p ∷ ps) x zero h = ground arith
grants-token_at w (p ∷ ps) x (suc i) h = ground (arith, grants-token_at w ps x i h)

-- What a vector grants is granted at a position.
pub token_at-grants :
    (w : Bool) (ps : List Permission) (x : ℕ)
    → grants w ps x ≡ true
    → (i : ℕ) × (i < length ps) × (holds w (token_at ps i) x ≡ true)
unfolding grants
token_at-grants w [] x h = cc
token_at-grants w (p ∷ ps) x h = elim (Bool-cases (holds w p x)) [
  | inl here ↦ (0, omega arith, here)
  | inr there ↦ let r = token_at-grants w ps x (ground arith) in (suc r.0, omega (arith, r.1), r.2)
]

pub grants-insert_at :
    (w : Bool) (i : ℕ) (p : Permission) (ps : List Permission) (x : ℕ)
    → grants w (insert_at i p ps) x ≡ (holds w p x || grants w ps x)
unfolding grants
grants-insert_at w zero p ps x = refl
grants-insert_at w (suc i) p [] x = refl
grants-insert_at w (suc i) p (q ∷ ps) x = ground (arith, grants-insert_at w i p ps x)

pub grants-drop :
    (w : Bool) (n : ℕ) (ps : List Permission) (x : ℕ)
    → grants w (drop n ps) x ≡ true
    → grants w ps x ≡ true
unfolding grants
grants-drop w zero ps x h = h
grants-drop w (suc n) [] x h = h
grants-drop w (suc n) (p ∷ ps) x h = ground (arith, grants-drop w n ps x h)

pub grants-erase_range :
    (w : Bool) (i n : ℕ) (ps : List Permission) (x : ℕ)
    → grants w (erase_range i n ps) x ≡ true
    → grants w ps x ≡ true
unfolding grants
grants-erase_range w zero n ps x h = grants-drop w n ps x h
grants-erase_range w (suc i) n [] x h = h
grants-erase_range w (suc i) n (p ∷ ps) x h = ground (arith, grants-erase_range w i n ps x)
