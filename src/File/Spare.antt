-- ===== src/File/Spare.antt =====
-- `File::revokePermission` on a vector in order: what lies outside the range stays.
use pfs.Base.{
  ℕ, suc, ◌+◌, ◌-◌, ◌≤◌, ◌<◌, ◌≡◌, ◌⊎◌, inl, inr, Bool, true, false, List, arith, ltb, ◌==◌, length,
  insert_at, erase_range, find_from, Bool-cases, Option-cases,
}
use pfs.Permission.{Permission, permission, is_shared}
use pfs.File.{
  token_at, find_down, split_at, trim_start, trim_end, trim, revoke_between, revoke_permission,
}
use pfs.File.Cover.{holds, grants, grants-token_at, token_at-grants, grants-insert_at}
use pfs.File.Positions.{
  IsFirst, IsLast, token_at-erase_range, find_from-IsFirst, find_from-none, find_down-IsLast,
  find_down-none,
}
use pfs.File.Revoke.{within, trim_start-token_at, trims-token_at, trims-bounds, first-le-last}

-- Each token ends before the next ones start.
abbrev pub IsOrdered : List Permission → Type 0
IsOrdered ps = (i j : ℕ) → i < j → j < length ps → (token_at ps i).end ≤ (token_at ps j).start

-- A position in front of what is erased, or behind it.
erase_range-grants :
    (w : Bool) (front back : ℕ) (ps : List Permission) (x j : ℕ)
    → front < back
    → (j < front) ⊎ (back ≤ j)
    → holds w (token_at ps j) x ≡ true
    → grants w (erase_range front (back - front) ps) x ≡ true
erase_range-grants w front back ps x j lt (inl before) h =
    grants-token_at w (erase_range front (back - front) ps) x j
      (ground (arith, token_at-erase_range front (back - front) j ps))
erase_range-grants w front back ps x j lt (inr behind) h =
    let n : ℕ = back - front in
    let k : ℕ = j - n in
    let same : n + k ≡ j = omega arith in
    let moved : token_at (erase_range front n ps) k ≡ token_at ps (n + k) =
      ground (arith, token_at-erase_range front n k ps) in
    grants-token_at w (erase_range front n ps) x k (rw (moved, same) h)

module _ (w : Bool) (start end s : ℕ) (ps : List Permission) (x : ℕ)
    (f : IsFirst (is_shared start end) ps s) (outside : within start end x ≡ false) where
  split_at-spares :
      (i : ℕ) → holds w (token_at ps i) x ≡ true → grants w (split_at s start end ps) x ≡ true
  unfolding split_at holds
  split_at-spares i h =
      let p : Permission = token_at ps s in
      let others : List Permission = erase_range s 1 ps in
      let right : Permission = permission end p.end p.write in
      let elsewhere = erase_range-grants w s (suc s) ps x i in
      ground (
        arith,
        elsewhere,
        f.passes,
        grants-insert_at w s right others x,
        grants-insert_at w s (permission p.start start p.write) others x,
        grants-insert_at w s (permission p.start start p.write) (insert_at s right others) x,
      )

  -- The byte's token is at `i`: where it stands after the two trims.
  trims-spare :
      (e i : ℕ)
      → s < e
      → IsLast (is_shared start end) (length ps) ps e
      → IsOrdered ps
      → i < length ps
      → holds w (token_at ps i) x ≡ true
      → ((i < (trim_start s start ps).0) ⊎ ((trim_end e end (trim_start s start ps).1).0 ≤ i))
        × (holds w (token_at (trim_end e end (trim_start s start ps).1).1 i) x ≡ true)
  unfolding holds is_shared
  trims-spare e i lt l ordered inside h = ground (
    arith,
    trims-bounds w start end s ps x f e lt,
    trims-token_at w start end s ps x f e i lt l.inside,
    trim_start-token_at w start end s ps x f i,
    f.before i,
    f.passes,
    l.passes,
    ordered s i,
    ordered i e,
    ordered s e,
  )

  trim-spares :
      (e i : ℕ)
      → s < e
      → IsLast (is_shared start end) (length ps) ps e
      → IsOrdered ps
      → i < length ps
      → holds w (token_at ps i) x ≡ true
      → grants w (trim s e start end ps) x ≡ true
  unfolding trim
  trim-spares e i lt l ordered inside h =
      let front : ℕ = (trim_start s start ps).0 in
      let back : ℕ = (trim_end e end (trim_start s start ps).1).0 in
      let all : List Permission = (trim_end e end (trim_start s start ps).1).1 in
      let (side, held) = trims-spare e i lt l ordered inside h in
      elim (Bool-cases (ltb front back)) [
        | inl some_erased ↦
            rw some_erased (erase_range-grants w front back all x i (ground arith) side held)
        | inr none_erased ↦ rw none_erased (grants-token_at w all x i held)
      ]

-- On a vector in order a revocation leaves every byte outside the range granted as it was.
pub revoke_permission-spares :
    (w : Bool) (start end : ℕ) (ps : List Permission) (x : ℕ)
    → IsOrdered ps
    → grants w ps x ≡ true
    → within start end x ≡ false
    → grants w (revoke_permission start end ps) x ≡ true
unfolding revoke_permission revoke_between
revoke_permission-spares w start end ps x ordered g outside =
    let (i, inside, h) = token_at-grants w ps x g in
    elim (Option-cases (find_from (is_shared start end) 0 ps)) [
      | inl e ↦
          let n = find_from-none (is_shared start end) 0 ps e in
          elim (Option-cases (find_down (is_shared start end) (length ps) ps)) [
            | inl e' ↦ ground arith
            | inr (j, e') ↦
                let l = find_down-IsLast (is_shared start end) (length ps) ps e' in
                ground (arith, n j l.inside, l.passes)
          ]
      | inr (s, e) ↦
          let f = find_from-IsFirst (is_shared start end) ps e in
          elim (Option-cases (find_down (is_shared start end) (length ps) ps)) [
            | inl e' ↦ ground (
              arith,
              find_down-none (is_shared start end) (length ps) ps e' s,
              f.passes,
              f.inside,
            )
            | inr (j, e') ↦
                let l = find_down-IsLast (is_shared start end) (length ps) ps e' in
                let le = first-le-last (is_shared start end) ps s j f l in
                elim (Bool-cases (s == j)) [
                  | inl same ↦
                      let one = split_at-spares w start end s ps x f outside i h in ground arith
                  | inr differ ↦
                      let many =
                        trim-spares w start end s ps x f outside j i
                          (ground (arith, first-le-last (is_shared start end) ps s j f l)) l ordered
                          inside h in
                      ground arith
                ]
          ]
    ]
