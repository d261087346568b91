-- ===== src/File/Revoke.antt =====
-- `File::revokePermission`: the range is gone, and nothing new is granted.
use pfs.Base.{
  ℕ, suc, ◌+◌, ◌-◌, ◌≤◌, ◌<◌, ◌≡◌, refl, sym, ◌⊎◌, inl, inr, Bool, true, false, ◌&&◌, List, arith,
  ltb, leb, ◌==◌, if◌then◌else◌, length, insert_at, erase_range, modify_at, find_from, Bool-cases,
  Option-cases, ==_iff,
}
use pfs.Permission.{Permission, permission, is_shared, set_start, set_end}
use pfs.File.{
  token_at, find_down, split_at, trim_start, trim_end, trim, revoke_between, revoke_permission,
}
use pfs.File.Cover.{holds, grants, grants-token_at, token_at-grants, grants-insert_at}
use pfs.File.Positions.{
  IsFirst, IsLast, token_at-erase_range, token_at-modify_at, length-modify_at, find_from-IsFirst,
  find_from-none, token_at_outside, find_down-IsLast, find_down-none,
}

-- The byte is in the range.
abbrev pub within : ℕ → ℕ → ℕ → Bool
within start end x = leb start x && ltb x end

-- A token that is not shared with the range holds no byte of it.
not_shared-holds :
    (w : Bool) (start end : ℕ) (p : Permission) (x : ℕ)
    → is_shared start end p ≡ false
    → holds w p x ≡ true
    → within start end x ≡ false
unfolding is_shared holds
not_shared-holds w start end p x n h = ground arith

-- The outcome at one byte: it was granted, and lies outside the range.
abbrev pub Kept : Bool → ℕ → ℕ → List Permission → ℕ → Type 0
Kept w start end ps x = (grants w ps x ≡ true) × (within start end x ≡ false)

unshared-Kept :
    (w : Bool) (start end : ℕ) (ps : List Permission) (x j : ℕ)
    → is_shared start end (token_at ps j) ≡ false
    → holds w (token_at ps j) x ≡ true
    → Kept w start end ps x
unshared-Kept w start end ps x j n h =
    (grants-token_at w ps x j h, not_shared-holds w start end (token_at ps j) x n h)

before-Kept :
    (w : Bool) (start end s : ℕ) (ps : List Permission) (x j : ℕ)
    → IsFirst (is_shared start end) ps s
    → j < s
    → holds w (token_at ps j) x ≡ true
    → Kept w start end ps x
before-Kept w start end s ps x j f l h = unshared-Kept w start end ps x j (f.before j l) h

behind-Kept :
    (w : Bool) (start end e : ℕ) (ps : List Permission) (x j : ℕ)
    → IsLast (is_shared start end) (length ps) ps e
    → e < j
    → holds w (token_at ps j) x ≡ true
    → Kept w start end ps x
unfolding holds
behind-Kept w start end e ps x j b l h = elim (Bool-cases (ltb j (length ps))) [
  | inl inside ↦ unshared-Kept w start end ps x j (b.behind j l (ground arith)) h
  | inr outside ↦ ground (arith, token_at_outside ps j)
]

none-Kept :
    (w : Bool) (start end : ℕ) (ps : List Permission) (x : ℕ)
    → ((i : ℕ) → i < length ps → is_shared start end (token_at ps i) ≡ false)
    → grants w ps x ≡ true
    → Kept w start end ps x
none-Kept w start end ps x n g =
    let (i, l, h) = token_at-grants w ps x g in unshared-Kept w start end ps x i (n i l) h

module _ (w : Bool) (start end s : ℕ) (ps : List Permission) (x : ℕ)
    (f : IsFirst (is_shared start end) ps s) where
  -- What is left of a token on either side of the range.
  piece-Kept :
      (p : Permission) (j : ℕ)
      → p ≡ token_at ps j
      → is_shared start end p ≡ true
      → (holds w (permission p.start start p.write) x ≡ true)
        ⊎ (holds w (permission end p.end p.write) x ≡ true)
      → Kept w start end ps x
  unfolding holds is_shared
  piece-Kept p j e sh h =
      let held : holds w p x ≡ true = ground arith in
      (grants-token_at w ps x j (rw (sym e) held), ground arith)

  erased-Kept :
      IsLast (is_shared start end) (length ps) ps s
      → grants w (erase_range s 1 ps) x ≡ true
      → Kept w start end ps x
  erased-Kept l g =
      let (i, _, h) = token_at-grants w (erase_range s 1 ps) x g in
      elim (Bool-cases (ltb i s)) [
        | inl front ↦
            before-Kept w start end s ps x i f (ground arith)
              (ground (arith, token_at-erase_range s 1 i ps))
        | inr back ↦
            behind-Kept w start end s ps x (1 + i) l (ground arith)
              (ground (arith, token_at-erase_range s 1 i ps))
      ]

  -- One token overlaps the range.
  split_at-Kept :
      IsLast (is_shared start end) (length ps) ps s
      → grants w (split_at s start end ps) x ≡ true
      → Kept w start end ps x
  unfolding split_at
  split_at-Kept l g =
      let p : Permission = token_at ps s in
      let others : List Permission = erase_range s 1 ps in
      let right : Permission = permission end p.end p.write in
      ground (
        arith,
        erased-Kept l,
        f.passes,
        piece-Kept p s refl f.passes,
        grants-insert_at w s right others x,
        grants-insert_at w s (permission p.start start p.write) others x,
        grants-insert_at w s (permission p.start start p.write) (insert_at s right others) x,
      )

  -- The two trims, position by position.
  pub trim_start-token_at :
      (j : ℕ)
      → token_at (trim_start s start ps).1 j ≡ (
          if j == s && ltb (token_at ps s).start start
          then set_end start (token_at ps j)
          else token_at ps j)
  unfolding trim_start
  trim_start-token_at j = ground (arith, token_at-modify_at s j (set_end start) ps, f.inside)

  pub trims-token_at :
      (e j : ℕ)
      → s < e
      → e < length ps
      → token_at (trim_end e end (trim_start s start ps).1).1 j ≡ (
          if j == e && ltb end (token_at ps e).end
          then set_start end (token_at ps j)
          else token_at (trim_start s start ps).1 j)
  unfolding trim_end trim_start
  trims-token_at e j lt inside = ground (
    arith,
    token_at-modify_at e j (set_start end) ps,
    token_at-modify_at e j (set_start end) (modify_at s (set_end start) ps),
    token_at-modify_at s e (set_end start) ps,
    token_at-modify_at s j (set_end start) ps,
    length-modify_at s (set_end start) ps,
  )

  -- Which positions the erasure spares.
  pub trims-bounds :
      (e : ℕ)
      → s < e
      → ((trim_start s start ps).0 ≡ (if ltb (token_at ps s).start start then suc s else s))
        × ((trim_end e end (trim_start s start ps).1).0
            ≡ (if ltb end (token_at ps e).end then e else suc e))
  unfolding trim_end trim_start
  trims-bounds e lt = ground (arith, token_at-modify_at s e (set_end start) ps)

  trimmed-Kept :
      (e j : ℕ)
      → s < e
      → IsLast (is_shared start end) (length ps) ps e
      → (j < (trim_start s start ps).0) ⊎ ((trim_end e end (trim_start s start ps).1).0 ≤ j)
      → holds w (token_at (trim_end e end (trim_start s start ps).1).1 j) x ≡ true
      → Kept w start end ps x
  unfolding holds
  trimmed-Kept e j lt l side h = ground (
    arith,
    trims-bounds e lt,
    trims-token_at e j lt l.inside,
    trim_start-token_at j,
    before-Kept w start end s ps x j f,
    behind-Kept w start end e ps x j l,
    piece-Kept (token_at ps s) s refl f.passes,
    piece-Kept (token_at ps e) e refl l.passes,
  )

  -- Several tokens do.
  trim-Kept :
      (e : ℕ)
      → s < e
      → IsLast (is_shared start end) (length ps) ps e
      → grants w (trim s e start end ps) x ≡ true
      → Kept w start end ps x
  unfolding trim
  trim-Kept e lt l g =
      let front : ℕ = (trim_start s start ps).0 in
      let back : ℕ = (trim_end e end (trim_start s start ps).1).0 in
      let all : List Permission = (trim_end e end (trim_start s start ps).1).1 in
      elim (Bool-cases (ltb front back)) [
        | inl some_erased ↦
            let (i, _, h) =
              token_at-grants w (erase_range front (back - front) all) x (ground arith) in
            elim (Bool-cases (ltb i front)) [
              | inl spared ↦
                  trimmed-Kept e i lt l (inl (ground arith))
                    (ground (arith, token_at-erase_range front (back - front) i all))
              | inr shifted ↦
                  trimmed-Kept e (back - front + i) lt l (inr (ground arith))
                    (ground (arith, token_at-erase_range front (back - front) i all))
            ]
        | inr none_erased ↦
            let (i, _, h) = token_at-grants w all x (ground arith) in
            trimmed-Kept e i lt l (ground arith) h
      ]

pub first-le-last :
    (p : Permission → Bool) (ps : List Permission) (s e : ℕ)
    → IsFirst p ps s
    → IsLast p (length ps) ps e
    → s ≤ e
first-le-last p ps s e f l = elim (Bool-cases (ltb e s)) [
  | inl less ↦ ground (arith, f.before e, l.passes)
  | inr done ↦ ground arith
]

-- After a revocation no byte of the range is granted, and every byte that is granted was granted
-- before, with the same right. The vector may be in any order.
pub revoke_permission-Kept :
    (w : Bool) (start end : ℕ) (ps : List Permission) (x : ℕ)
    → grants w (revoke_permission start end ps) x ≡ true
    → (grants w ps x ≡ true) × (within start end x ≡ false)
unfolding revoke_permission revoke_between
revoke_permission-Kept w start end ps x g =
    elim (Option-cases (find_from (is_shared start end) 0 ps)) [
      | inl e ↦
          let n = find_from-none (is_shared start end) 0 ps e in
          elim (Option-cases (find_down (is_shared start end) (length ps) ps)) [
            | inl e' ↦ none-Kept w start end ps x n (ground arith)
            | inr (j, e') ↦
                let l = find_down-IsLast (is_shared start end) (length ps) ps e' in
                ground (arith, n j l.inside, l.passes)
          ]
      | inr (s, e) ↦
          let f = find_from-IsFirst (is_shared start end) ps e in
          elim (Option-cases (find_down (is_shared start end) (length ps) ps)) [
            | inl e' ↦ ground (
              arith,
              find_down-none (is_shared start end) (length ps) ps e' s,
              f.passes,
              f.inside,
            )
            | inr (j, e') ↦
                let l = find_down-IsLast (is_shared start end) (length ps) ps e' in
                elim (Bool-cases (s == j)) [
                  | inl same ↦
                      split_at-Kept w start end s ps x f (rw ((==_iff s j).0 same) l) (ground arith)
                  | inr differ ↦
                      trim-Kept w start end s ps x f j
                        (ground (arith, first-le-last (is_shared start end) ps s j f l)) l
                        (ground arith)
                ]
          ]
    ]
