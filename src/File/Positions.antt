-- ===== src/File/Positions.antt =====
-- Positions in a vector of permissions: what a changed vector holds at each, and what the search
-- loops find.
use Prim.Native.Nat.add
use pfs.Base.{
  ℕ, zero, suc, ◌+◌, ◌≤◌, ◌<◌, ◌≡◌, refl, inl, inr, Bool, true, false, ◌&&◌, none, some, List, [],
  ◌∷◌, arith, ltb, ◌==◌, if◌then◌else◌, length, drop, erase_range, modify_at, find_from, Bool-cases,
  ==_iff,
}
use pfs.Permission.{Permission, permission}
use pfs.File.{token_at, find_down}

pub token_at-drop : (n i : ℕ) (ps : List Permission) → token_at (drop n ps) i ≡ token_at ps (n + i)
token_at-drop zero i ps = rw (add.zero i)
token_at-drop (suc n) i [] = refl
token_at-drop (suc n) i (p ∷ ps) = rw (add.suc n i) (token_at-drop n i ps)

pub token_at-erase_range :
    (s n i : ℕ) (ps : List Permission)
    → token_at (erase_range s n ps) i ≡ (if ltb i s then token_at ps i else token_at ps (n + i))
token_at-erase_range zero n i ps = ground (arith, token_at-drop n i ps)
token_at-erase_range (suc s) n i [] = ground arith
token_at-erase_range (suc s) n zero (p ∷ ps) = ground arith
token_at-erase_range (suc s) n (suc i) (p ∷ ps) =
    ground (arith, token_at-erase_range s n i ps, add.suc n i)

pub token_at-modify_at :
    (j i : ℕ) (f : Permission → Permission) (ps : List Permission)
    → token_at (modify_at j f ps) i
      ≡ (if i == j && ltb i (length ps) then f (token_at ps i) else token_at ps i)
token_at-modify_at j i f [] = ground arith
token_at-modify_at zero zero f (p ∷ ps) = ground arith
token_at-modify_at zero (suc i) f (p ∷ ps) = ground arith
token_at-modify_at (suc j) zero f (p ∷ ps) = ground arith
token_at-modify_at (suc j) (suc i) f (p ∷ ps) = ground (arith, token_at-modify_at j i f ps)

pub length-modify_at :
    (j : ℕ) (f : Permission → Permission) (ps : List Permission)
    → length (modify_at j f ps) ≡ length ps
length-modify_at j f [] = ground arith
length-modify_at zero f (p ∷ ps) = refl
length-modify_at (suc j) f (p ∷ ps) = omega (arith, length-modify_at j f ps)

-- The first position that passes a test, with what lies before it.
pub record IsFirst (p : Permission → Bool) (ps : List Permission) (s : ℕ) : Type 0 where
  pub inside : s < length ps
  pub passes : p (token_at ps s) ≡ true
  pub before : (i : ℕ) → i < s → p (token_at ps i) ≡ false

pub record IsLast (p : Permission → Bool) (n : ℕ) (ps : List Permission) (e : ℕ) : Type 0 where
  pub inside : e < n
  pub passes : p (token_at ps e) ≡ true
  pub behind : (i : ℕ) → e < i → i < n → p (token_at ps i) ≡ false

IsFirst-cons :
    (p : Permission → Bool) (q : Permission) (ps : List Permission) (s : ℕ)
    → p q ≡ false
    → IsFirst p ps s
    → IsFirst p (q ∷ ps) (suc s)
IsFirst-cons p q ps s miss f = record {
  inside = omega (arith, f.inside);
  passes = f.passes;
  before = earlier;
}
  where
    earlier : (i : ℕ) → i < suc s → p (token_at (q ∷ ps) i) ≡ false
    earlier zero l = miss
    earlier (suc i) l = f.before i (omega arith)

find_from-shift :
    (p : Permission → Bool) (k : ℕ) (ps : List Permission) {s : ℕ}
    → find_from p k ps ≡ some s
    → (j : ℕ) × (s ≡ k + j) × IsFirst p ps j
find_from-shift p k [] h = cc
find_from-shift p k (q ∷ ps) {s} h = elim (Bool-cases (p q)) [
  | inl hit ↦ (
    0,
    ground arith,
    record { inside = omega arith; passes = hit; before = λ i l. absurd (omega arith) },
  )
  | inr miss ↦
      let r = find_from-shift p (suc k) ps {s = s} (ground arith) in
      (suc r.0, omega (arith, r.1), IsFirst-cons p q ps r.0 miss r.2)
]

pub find_from-IsFirst :
    (p : Permission → Bool) (ps : List Permission) {s : ℕ}
    → find_from p 0 ps ≡ some s
    → IsFirst p ps s
find_from-IsFirst p ps {s} h =
    let r = find_from-shift p 0 ps h in let e : s ≡ r.0 = omega (arith, r.1) in rw e r.2

pub find_from-none :
    (p : Permission → Bool) (k : ℕ) (ps : List Permission)
    → find_from p k ps ≡ none
    → (i : ℕ) → i < length ps
    → p (token_at ps i) ≡ false
find_from-none p k [] h i l = absurd (omega arith)
find_from-none p k (q ∷ ps) h zero l = ground arith
find_from-none p k (q ∷ ps) h (suc i) l = find_from-none p (suc k) ps (ground arith) i (omega arith)

IsLast-step :
    {p : Permission → Bool} {n : ℕ} {ps : List Permission} {e : ℕ}
    → p (token_at ps n) ≡ false
    → IsLast p n ps e
    → (i : ℕ) → e < i
    → i < suc n
    → p (token_at ps i) ≡ false
IsLast-step {n} {ps} miss r i g l = elim (Bool-cases (i == n)) [
  | inl top ↦ rw ((==_iff i n).0 top) miss
  | inr less ↦ r.behind i g (ground arith)
]

pub find_down-IsLast :
    (p : Permission → Bool) (n : ℕ) (ps : List Permission) {e : ℕ}
    → find_down p n ps ≡ some e
    → IsLast p n ps e
unfolding find_down
find_down-IsLast p zero ps h = cc
find_down-IsLast p (suc n) ps {e} h = elim (Bool-cases (p (token_at ps n))) [
  | inl hit ↦
      let same : e ≡ n = ground arith in
      rw same
        (record { inside = omega arith; passes = hit; behind = λ i g l. absurd (omega arith) })
  | inr miss ↦
      let r : IsLast p n ps e = find_down-IsLast p n ps (ground arith) in
      record { inside = omega (arith, r.inside); passes = r.passes; behind = IsLast-step miss r }
]

pub find_down-none :
    (p : Permission → Bool) (n : ℕ) (ps : List Permission)
    → find_down p n ps ≡ none
    → (i : ℕ) → i < n
    → p (token_at ps i) ≡ false
unfolding find_down
find_down-none p zero ps h i l = absurd (omega arith)
find_down-none p (suc n) ps h i l = elim (Bool-cases (i == n)) [
  | inl top ↦ rw ((==_iff i n).0 top) (ground arith)
  | inr less ↦ find_down-none p n ps (ground arith) i (ground arith)
]

-- A position past the end holds the token for no byte.
pub token_at_outside :
    (ps : List Permission) (j : ℕ) → length ps ≤ j → token_at ps j ≡ permission 0 0 false
token_at_outside [] j h = refl
token_at_outside (p ∷ ps) zero h = absurd (omega arith)
token_at_outside (p ∷ ps) (suc j) h = token_at_outside ps j (omega arith)
