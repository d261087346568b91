-- ===== src/MmFile/Others.antt =====
-- What `waitAndGetPermissionFor` does to the vectors of the other clients.
use text.Mathlib.TextEquality.{eq_iff}
use pfs.Base.{
  ℕ, ◌≡◌, ◌≢◌, refl, subst, inl, inr, Bool, true, false, ◌||◌, none, some, [], ◌∷◌, String, arith,
  str_eq, if◌then◌else◌, lookup, insert, erase, lookup-insert, lookup-erase, Bool-cases,
}
use pfs.Permission.{is_shared}
use pfs.File.{revoke_permission}
use pfs.File.Cover.{holds, grants}
use pfs.File.Revoke.{within, revoke_permission-Kept}
use pfs.MmFile.{Permits, ClientPermissions, is_empty, conflicts, revoke_others, granted}

-- The permissions of a client, none if it has not opened the file.
unfoldable pub permits_of : String → ClientPermissions → Permits
permits_of peer m = elim (lookup peer m) [ none ↦ [] | some permits ↦ permits ]

abbrev pub IsExclusive : ClientPermissions → Type 0
IsExclusive m =
    (p q : String)
    → p ≢ q
    → (x : ℕ) → grants true (permits_of p m) x ≡ true
    → grants false (permits_of q m) x ≡ false

-- A right to write is a right to read.
pub grants-weaken :
    (w : Bool) (ps : Permits) (x : ℕ) → grants true ps x ≡ true → grants w ps x ≡ true
unfolding grants holds
grants-weaken w [] x h = cc
grants-weaken w (p ∷ ps) x h = ground (arith, grants-weaken w ps x)

-- What the loop does to one other client.
unfoldable pub revoke_if : ℕ → ℕ → Bool → Permits → Permits
revoke_if start end iswrite ps =
    if conflicts start end iswrite ps then revoke_permission start end ps else ps

no_conflicts-within :
    (w : Bool) (start end : ℕ) (iswrite : Bool) (ps : Permits) (x : ℕ)
    → conflicts start end iswrite ps ≡ false
    → (w || iswrite) ≡ true
    → grants w ps x ≡ true
    → within start end x ≡ false
unfolding conflicts grants holds is_shared
no_conflicts-within w start end iswrite [] x n r g = cc
no_conflicts-within w start end iswrite (p ∷ ps) x n r g =
    ground (arith, no_conflicts-within w start end iswrite ps x)

pub revoke_if-within :
    (w : Bool) (start end : ℕ) (iswrite : Bool) (ps : Permits) (x : ℕ)
    → (w || iswrite) ≡ true
    → grants w (revoke_if start end iswrite ps) x ≡ true
    → within start end x ≡ false
unfolding revoke_if
revoke_if-within w start end iswrite ps x r g = elim (Bool-cases (conflicts start end iswrite ps)) [
  | inl c ↦ (revoke_permission-Kept w start end ps x (rw (c, revoke_if) at g)).1
  | inr n ↦ no_conflicts-within w start end iswrite ps x n r (rw (n, revoke_if) at g)
]

pub revoke_if-grants :
    (w : Bool) (start end : ℕ) (iswrite : Bool) (ps : Permits) (x : ℕ)
    → grants w (revoke_if start end iswrite ps) x ≡ true
    → grants w ps x ≡ true
unfolding revoke_if
revoke_if-grants w start end iswrite ps x g = elim (Bool-cases (conflicts start end iswrite ps)) [
  | inl c ↦ (revoke_permission-Kept w start end ps x (rw (c, revoke_if) at g)).0
  | inr n ↦ rw (n, revoke_if) at g
]

pub nothing-grants : (w : Bool) (x : ℕ) → ¬ (grants w [] x ≡ true)
unfolding grants
nothing-grants w x h = cc

pub is_empty-nil : (ps : Permits) → is_empty ps ≡ true → ps ≡ []
is_empty-nil [] h = refl
is_empty-nil (p ∷ ps) h = cc

module _ (peer : String) (start end : ℕ) (iswrite : Bool) where
  -- The vectors after the loop.
  pub revoke_others_self :
      (m : ClientPermissions)
      → lookup peer (revoke_others peer start end iswrite m).0 ≡ lookup peer m
  unfolding revoke_others lookup
  revoke_others_self [] = refl
  revoke_others_self ((other, permits) ∷ m) = ground (arith, revoke_others_self m)

  pub revoke_others-permits :
      (q : String) (m : ClientPermissions)
      → str_eq q peer ≡ false
      → permits_of q (revoke_others peer start end iswrite m).0
        ≡ revoke_if start end iswrite (permits_of q m)
  unfolding revoke_others lookup revoke_if conflicts permits_of
  revoke_others-permits q [] ne = refl
  revoke_others-permits q ((other, permits) ∷ m) ne =
      ground (arith, eq_iff other peer, eq_iff other q, eq_iff q peer, revoke_others-permits q m ne)

  -- A client alone with its permissions is told so.
  pub first-permits :
      (q : String) (m : ClientPermissions)
      → str_eq q peer ≡ false
      → (revoke_others peer start end iswrite m).2 ≡ true
      → permits_of q m ≡ []
  unfolding revoke_others lookup permits_of
  first-permits q [] ne f = refl
  first-permits q ((other, permits) ∷ m) ne f = ground (
    arith,
    eq_iff other peer,
    eq_iff other q,
    eq_iff q peer,
    first-permits q m ne,
    is_empty-nil permits,
  )

  -- The range that is granted is clear of every token of another client that conflicts with it.
  pub granted-clear :
      (w : Bool) (q : String) (m : ClientPermissions) (x : ℕ)
      → str_eq q peer ≡ false
      → (w || iswrite) ≡ true
      → let r = revoke_others peer start end iswrite m in
        grants w (permits_of q r.0) x ≡ true
        → within (granted start end iswrite r.1 r.2).start (granted start end iswrite r.1 r.2).end x
          ≡ false
  unfolding granted
  granted-clear w q m x ne r g =
      let after = revoke_others-permits q m ne in
      let one =
        revoke_if-within w start end iswrite (permits_of q m) x r
          (subst (λ ps. grants w ps x ≡ true) after g) in
      let held =
        revoke_if-grants w start end iswrite (permits_of q m) x
          (subst (λ ps. grants w ps x ≡ true) after g) in
      elim (Bool-cases (revoke_others peer start end iswrite m).2) [
        | inl alone ↦
            let none_held : grants w [] x ≡ true =
              subst (λ ps. grants w ps x ≡ true) (first-permits q m ne alone) held in
            absurd (nothing-grants w x none_held)
        | inr others ↦ ground arith
      ]

pub permits_of-insert :
    (k q : String) (new : Permits) (m : ClientPermissions)
    → permits_of q (insert k new m) ≡ (if str_eq k q then new else permits_of q m)
unfolding permits_of
permits_of-insert k q new m = ground (arith, lookup-insert k q new m)

pub permits_of-erase :
    (k q : String) (m : ClientPermissions)
    → permits_of q (erase k m) ≡ (if str_eq k q then [] else permits_of q m)
unfolding permits_of
permits_of-erase k q m = ground (arith, lookup-erase k q m)
