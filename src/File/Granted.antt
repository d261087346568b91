-- ===== src/File/Granted.antt =====
-- `File::addPermission` grants the whole range that is asked for.
use pfs.Base.{
  ℕ, ◌+◌, ◌^◌, ◌≤◌, ◌<◌, ◌≡◌, ◌⊎◌, inl, inr, Bool, true, false, ◌&&◌, ◌||◌, List, [], ◌∷◌, arith,
  ltb, leb, if◌then◌else◌, length, insert_at, find_from, i32_lt, i32_lt-eq-ltb, Bool-cases,
  Option-cases,
}
use pfs.Permission.{Permission, permission, is_inclusive_shared}
use pfs.File.{
  find_down, lock_if, add_apart, add_write, add_read, fill_gaps, fill_front, read_around,
  add_permission,
}
use pfs.File.Cover.{holds, grants, grants-insert_at}
use pfs.File.Positions.{find_from-IsFirst}
use pfs.File.Run.{IsRun, add-IsRun, All, write_permits-run, holds-lock_if}

insert_if-keeps :
    (w b : Bool) (s : ℕ) (p : Permission) (qs : List Permission) (x : ℕ)
    → grants w qs x ≡ true
    → grants w (if b then insert_at s p qs else qs) x ≡ true
insert_if-keeps w true s p qs x g = ground (arith, grants-insert_at w s p qs x)
insert_if-keeps w false s p qs x g = g

insert_new-holds :
    (w lock_new : Bool) (s : ℕ) (p : Permission) (qs : List Permission) (x : ℕ)
    → (holds w p x || grants w qs x) ≡ true
    → grants w (insert_at s (lock_if lock_new p) qs) x ≡ true
insert_new-holds w lock_new s p qs x h =
    ground (arith, grants-insert_at w s (lock_if lock_new p) qs x, holds-lock_if w lock_new p x)

module _ (start end : ℕ) (lock_new : Bool) (ps : List Permission) (x : ℕ) (lo : start ≤ x)
    (hi : x < end) where
  add_apart-grants : (write : Bool) → grants write (add_apart start end write lock_new ps) x ≡ true
  unfolding add_apart holds
  add_apart-grants write = elim (Option-cases (find_down (λ p. ltb p.end start) (length ps) ps)) [
    | inl e ↦
        rw (e, add_apart)
          (insert_new-holds write lock_new 0 (permission start end write) ps x (ground arith))
    | inr (i, e) ↦
        rw (e, add_apart)
          (insert_new-holds write lock_new (i + 1) (permission start end write) ps x (ground arith))
  ]

  add_write-grants : (s e : ℕ) → grants true (add_write s e start end lock_new ps) x ≡ true
  unfolding add_write holds
  add_write-grants s e =
      insert_if-keeps true _ s _ _ x (insert_new-holds true lock_new s _ _ x (ground arith))

  -- Filled already, or still below the bound.
  abbrev Filled : List Permission → ℕ → Type 0
  Filled qs bound = (grants false qs x || ltb x bound) ≡ true

  abbrev Touches : Permission → Type 0
  Touches v = is_inclusive_shared start end v ≡ true

  fill_step-Filled :
      (s : ℕ) (v : Permission) (bound : ℕ) (qs : List Permission)
      → Filled qs bound
      → Filled
          (insert_at s
            (lock_if lock_new v)
            (insert_at s (lock_if lock_new (permission v.end bound false)) qs))
          v.start
  unfolding holds
  fill_step-Filled s v bound qs f =
      let gap : Permission = permission v.end bound false in
      ground (
        arith,
        grants-insert_at false s (lock_if lock_new v) (insert_at s (lock_if lock_new gap) qs) x,
        grants-insert_at false s (lock_if lock_new gap) qs x,
        holds-lock_if false lock_new v x,
        holds-lock_if false lock_new gap x,
      )

  fill_gaps-Filled :
      (s : ℕ) (vs : List Permission) (bound : ℕ) (qs : List Permission)
      → All Touches vs
      → bound ≤ end
      → Filled qs bound
      → Filled (fill_gaps lock_new s vs bound qs).1 (fill_gaps lock_new s vs bound qs).0
        × ((fill_gaps lock_new s vs bound qs).0 ≤ end)
  unfolding fill_gaps is_inclusive_shared
  fill_gaps-Filled s [] bound qs t le f = (f, le)
  fill_gaps-Filled s (v ∷ vs) bound qs t le f =
      fill_gaps-Filled s vs v.start _ t.1 (ground (arith, t.0)) (fill_step-Filled s v bound qs f)

  fill_front-grants :
      (s new_start : ℕ) (r : ℕ × List Permission)
      → r.0 ≤ end
      → end < 2 ^ 31
      → new_start ≤ start
      → Filled r.1 r.0
      → grants false (fill_front lock_new s new_start r) x ≡ true
  unfolding fill_front holds
  fill_front-grants s new_start (bound, qs) small fits le f =
      elim (Bool-cases (i32_lt new_start bound)) [
        | inl gap ↦
            rw (gap, fill_front)
              (insert_new-holds false lock_new s (permission new_start bound false) qs x
                (ground arith))
        | inr no_gap ↦ rw (no_gap, fill_front) (ground (arith, i32_lt-eq-ltb new_start bound))
      ]

  read_around-grants :
      (s new_start new_end : ℕ) (vs qs : List Permission)
      → All Touches vs
      → end < 2 ^ 31
      → new_start ≤ start
      → end ≤ new_end
      → grants false (read_around lock_new s new_start new_end vs qs) x ≡ true
  unfolding read_around fill_gaps holds is_inclusive_shared
  read_around-grants s new_start new_end [] qs t fits le ge =
      insert_new-holds false lock_new s (permission new_start new_end false) qs x (ground arith)
  read_around-grants s new_start new_end (v ∷ vs) qs t fits le ge =
      elim (Bool-cases (leb v.start new_end && leb new_end v.end)) [
        | inl inside ↦
            let f =
              fill_gaps-Filled s vs v.start (insert_at s (lock_if lock_new v) qs) t.1
                (ground (arith, t.0))
                (ground (
                  arith,
                  grants-insert_at false s (lock_if lock_new v) qs x,
                  holds-lock_if false lock_new v x,
                )) in
            rw (inside, read_around) (fill_front-grants s new_start _ f.1 fits le f.0)
        | inr not_inside ↦
            let f =
              fill_gaps-Filled s vs v.start _ t.1 (ground (arith, t.0))
                (fill_step-Filled s v new_end qs (ground arith)) in
            rw (not_inside, read_around) (fill_front-grants s new_start _ f.1 fits le f.0)
      ]

  add_read-grants :
      (s e : ℕ)
      → s ≤ e
      → IsRun (is_inclusive_shared start end) ps s e
      → end < 2 ^ 31
      → grants false (add_read s e start end lock_new ps) x ≡ true
  unfolding add_read
  add_read-grants s e le run fits =
      read_around-grants s _ _ _ _ (write_permits-run Touches ps s e le run) fits (ground arith)
        (ground arith)

-- After `addPermission` every byte of the range is granted, for writing if that was asked. For a
-- read the range must end below `2 ^ 31`, since the code compares two bounds as `int`s. The vector
-- may be in any order.
pub add_permission-grants :
    (start end : ℕ) (write lock_new : Bool) (ps : List Permission) (x : ℕ)
    → (write ≡ true) ⊎ (end < 2 ^ 31)
    → start ≤ x
    → x < end
    → grants write (add_permission start end write lock_new ps) x ≡ true
unfolding add_permission
add_permission-grants start end write lock_new ps x fits lo hi =
    elim (Option-cases (find_from (is_inclusive_shared start end) 0 ps)) [
      | inl e ↦ rw (e, add_permission) (add_apart-grants start end lock_new ps x lo hi write)
      | inr (s, e) ↦
          let (le, run) =
            add-IsRun (is_inclusive_shared start end) ps s
              (find_from-IsFirst (is_inclusive_shared start end) ps e) in
          let write_case = add_write-grants start end lock_new ps x lo hi s in
          let read_case = add_read-grants start end lock_new ps x lo hi s in
          rw (e, add_permission)
            (elim (Bool-cases write) [
              | inl wr ↦ rw wr (write_case _)
              | inr rd ↦ rw rd (read_case _ le run (ground arith))
            ])
    ]
