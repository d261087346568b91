-- ===== src/File/Excess.antt =====
-- `File::addPermission` grants nothing but what was asked for and what was granted before.
use pfs.Base.{
  ℕ, ◌+◌, ◌-◌, ◌≤◌, ◌<◌, ◌≡◌, refl, inl, inr, Bool, true, false, not, ◌&&◌, ◌||◌, List, [], ◌∷◌,
  arith, ltb, leb, if◌then◌else◌, length, insert_at, erase_range, find_from, i32_lt, Bool-cases,
  Option-cases,
}
use pfs.Permission.{Permission, permission, is_inclusive_shared}
use pfs.File.{
  token_at, find_down, lock_if, add_apart, add_write, add_read, fill_gaps, fill_front, read_around,
  add_permission,
}
use pfs.File.Cover.{holds, grants, grants-token_at, grants-insert_at, grants-erase_range}
use pfs.File.Positions.{find_from-IsFirst}
use pfs.File.Run.{IsRun, add-IsRun, All, write_permits-run, holds-lock_if}
use pfs.File.Revoke.{within}

-- The byte `x` was granted for `w`, or it is in the range that is asked for and the right is too.
abbrev pub allowed : Bool → ℕ → ℕ → Bool → List Permission → ℕ → Bool
allowed w start end write ps x = grants w ps x || (within start end x && (not w || write))

module _ (w : Bool) (start end : ℕ) (write lock_new : Bool) (ps : List Permission) (x : ℕ) where
  abbrev Allowed : Type 0
  Allowed = allowed w start end write ps x ≡ true

  insert_if :
      (b : Bool) (s : ℕ) (p : Permission) (qs : List Permission)
      → (b ≡ true → holds w p x ≡ true → Allowed)
      → (grants w qs x ≡ true → Allowed)
      → grants w (if b then insert_at s p qs else qs) x ≡ true
      → Allowed
  insert_if true s p qs hp hq g = ground (arith, grants-insert_at w s p qs x, hp refl)
  insert_if false s p qs hp hq g = hq g

  insert_new :
      (s : ℕ) (p : Permission) (qs : List Permission)
      → (holds w p x ≡ true → Allowed)
      → (grants w qs x ≡ true → Allowed)
      → grants w (insert_at s (lock_if lock_new p) qs) x ≡ true
      → Allowed
  insert_new s p qs hp hq g =
      ground (arith, grants-insert_at w s (lock_if lock_new p) qs x, holds-lock_if w lock_new p x)

  add_apart-Allowed : grants w (add_apart start end write lock_new ps) x ≡ true → Allowed
  unfolding add_apart holds
  add_apart-Allowed g = elim (Option-cases (find_down (λ p. ltb p.end start) (length ps) ps)) [
    | inl e ↦
        insert_new 0 (permission start end write) ps (λ h. ground arith) (λ h. ground arith)
          (rw (e, add_apart) at g)
    | inr (i, e) ↦
        insert_new (i + 1) (permission start end write) ps (λ h. ground arith) (λ h. ground arith)
          (rw (e, add_apart) at g)
  ]

  module _ (s e : ℕ) (first : is_inclusive_shared start end (token_at ps s) ≡ true)
      (last : is_inclusive_shared start end (token_at ps e) ≡ true) where
    at_first : holds w (token_at ps s) x ≡ true → Allowed
    at_first h = ground (arith, grants-token_at w ps x s h)

    at_last : holds w (token_at ps e) x ≡ true → Allowed
    at_last h = ground (arith, grants-token_at w ps x e h)

    others : grants w (erase_range s (e + 1 - s) ps) x ≡ true → Allowed
    others g = ground (arith, grants-erase_range w s (e + 1 - s) ps x g)

    add_write-Allowed :
        write ≡ true → grants w (add_write s e start end lock_new ps) x ≡ true → Allowed
    unfolding add_write holds is_inclusive_shared
    add_write-Allowed wr g =
        insert_if _ s _ _ (λ b h. at_first (ground arith))
          (insert_new s _ _ (λ h. ground (arith, at_first, at_last))
            (insert_if _ s _ _ (λ b h. at_first (ground arith)) others))
          g

  -- The write tokens of the run: each touches the range, and was granted.
  abbrev Good : Permission → Type 0
  Good v = (is_inclusive_shared start end v ≡ true) × (holds w v x ≡ true → Allowed)

  -- What may be granted for reading up to `bound`.
  abbrev Fill : ℕ → Type 0
  Fill bound = w ≡ false → start ≤ x → x < bound → Allowed

  fill_gaps-Allowed :
      (s : ℕ) (vs : List Permission) (bound : ℕ) (qs : List Permission)
      → write ≡ false
      → All Good vs
      → Fill bound
      → (grants w qs x ≡ true → Allowed)
      → (grants w (fill_gaps lock_new s vs bound qs).1 x ≡ true → Allowed)
        × Fill (fill_gaps lock_new s vs bound qs).0
  unfolding fill_gaps holds is_inclusive_shared
  fill_gaps-Allowed s [] bound qs rd good fill hq = (hq, fill)
  fill_gaps-Allowed s (v ∷ vs) bound qs rd good fill hq =
      fill_gaps-Allowed s vs v.start _ rd good.1 (λ r lo hi. ground arith)
        (insert_new s v _ good.0.1 (
          insert_new s (permission v.end bound false) qs
            (λ h. fill (ground arith) (ground arith) (ground arith)) hq))

  fill_front-Allowed :
      (s new_start : ℕ) (r : ℕ × List Permission)
      → Fill r.0
      → (holds w (permission new_start start false) x ≡ true → Allowed)
      → (grants w r.1 x ≡ true → Allowed)
      → grants w (fill_front lock_new s new_start r) x ≡ true
      → Allowed
  unfolding fill_front holds
  fill_front-Allowed s new_start (bound, qs) fill front hq g =
      elim (Bool-cases (i32_lt new_start bound)) [
        | inl gap ↦
            insert_new s (permission new_start bound false) qs
              (λ h. elim (Bool-cases (ltb x start)) [
                | inl low ↦ front (ground arith)
                | inr high ↦ fill (ground arith) (ground arith) (ground arith)
              ])
              hq (rw (gap, fill_front) at g)
        | inr no_gap ↦ hq (rw (no_gap, fill_front) at g)
      ]

  read_around-Allowed :
      (s new_start new_end : ℕ) (vs qs : List Permission)
      → write ≡ false
      → All Good vs
      → Fill new_end
      → (holds w (permission new_start start false) x ≡ true → Allowed)
      → (grants w qs x ≡ true → Allowed)
      → grants w (read_around lock_new s new_start new_end vs qs) x ≡ true
      → Allowed
  unfolding read_around holds is_inclusive_shared
  read_around-Allowed s new_start new_end [] qs rd good fill front hq g =
      insert_new s (permission new_start new_end false) qs
        (λ h. elim (Bool-cases (ltb x start)) [
          | inl low ↦ front (ground arith)
          | inr high ↦ fill (ground arith) (ground arith) (ground arith)
        ])
        hq g
  read_around-Allowed s new_start new_end (v ∷ vs) qs rd good fill front hq g =
      let late =
        fill_gaps-Allowed s vs v.start (insert_at s (lock_if lock_new v) qs) rd good.1
          (λ r lo hi. ground arith) (insert_new s v qs good.0.1 hq) in
      let all = fill_gaps-Allowed s (v ∷ vs) new_end qs rd good fill hq in
      elim (Bool-cases (leb v.start new_end && leb new_end v.end)) [
        | inl inside ↦
            fill_front-Allowed s new_start _ late.1 front late.0 (rw (inside, read_around) at g)
        | inr not_inside ↦
            fill_front-Allowed s new_start _ all.1 front all.0 (rw (not_inside, read_around) at g)
      ]

  add_read-Allowed :
      (s e : ℕ)
      → s ≤ e
      → IsRun (is_inclusive_shared start end) ps s e
      → write ≡ false
      → grants w (add_read s e start end lock_new ps) x ≡ true
      → Allowed
  unfolding add_read holds is_inclusive_shared
  add_read-Allowed s e le run rd g =
      let first : is_inclusive_shared start end (token_at ps s) ≡ true = run s (omega arith) le in
      let last : is_inclusive_shared start end (token_at ps e) ≡ true = run e le (omega arith) in
      read_around-Allowed s _ _ _ _ rd
        (write_permits-run Good ps s e le
          λ k lo hi. (run k lo hi, λ h. at_first k k (run k lo hi) (run k lo hi) h))
        (λ r lo hi. ground (arith, at_last s e first last))
        (λ h. ground (arith, at_first s e first last)) (others s e first last) g

  add-IsRun-Allowed :
      (s e : ℕ)
      → s ≤ e
      → IsRun (is_inclusive_shared start end) ps s e
      → grants w
          (if write
            then add_write s e start end lock_new ps
            else add_read s e start end lock_new ps)
          x
        ≡ true
      → Allowed
  add-IsRun-Allowed s e le run g = elim (Bool-cases write) [
    | inl wr ↦
        add_write-Allowed s e (run s (omega arith) le) (run e le (omega arith)) wr (ground arith)
    | inr rd ↦ add_read-Allowed s e le run rd (ground arith)
  ]

-- Every byte that is granted after `addPermission` was granted before with the same right, or is
-- in the range that is asked for with a right that is asked for. The vector may be in any order.
pub add_permission-excess :
    (w : Bool) (start end : ℕ) (write lock_new : Bool) (ps : List Permission) (x : ℕ)
    → grants w (add_permission start end write lock_new ps) x ≡ true
    → (grants w ps x || (within start end x && (not w || write))) ≡ true
unfolding add_permission
add_permission-excess w start end write lock_new ps x g =
    elim (Option-cases (find_from (is_inclusive_shared start end) 0 ps)) [
      | inl e ↦ add_apart-Allowed w start end write lock_new ps x (rw (e, add_permission) at g)
      | inr (s, e) ↦
          let (le, run) =
            add-IsRun (is_inclusive_shared start end) ps s
              (find_from-IsFirst (is_inclusive_shared start end) ps e) in
          add-IsRun-Allowed w start end write lock_new ps x s _ le run (rw (e, add_permission) at g)
    ]
