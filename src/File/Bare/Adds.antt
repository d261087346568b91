-- ===== src/File/Bare/Adds.antt =====
-- `addPermission` without the locks.
use pfs.Base.{
  ℕ, suc, ◌-◌, ◌≡◌, refl, sym, ap, ◌∙◌, Bool, true, false, not, ◌&&◌, inl, inr, List, [], ◌∷◌, ◌+◌,
  if◌then◌else◌, length, insert_at, take, drop, slice, erase_range, find_from, Option-cases, min,
  max, ltb, leb, i32_lt,
}
use pfs.Permission.{Permission, permission, lock, is_inclusive_shared}
use pfs.File.{
  token_at, find_down, lock_if, run_end, add_write, write_permits, fill_gaps, fill_front,
  read_around, add_read, add_apart, add_permission,
}
use pfs.File.Bare.{
  bare, bare_all, length-bare_all, token_at-bare_all, insert_at-bare_all, take-bare_all,
  drop-bare_all, erase_range-bare_all, find_from-bare_all, find_down-bare_all,
}

lock_if-bare : (l : Bool) (p : Permission) → bare (lock_if l p) ≡ lock_if false (bare p)
unfolding lock_if lock
lock_if-bare true p = refl
lock_if-bare false p = refl

-- A token is put in, locked or not.
insert_locked :
    (l : Bool) (s : ℕ) (p : Permission) (ps : List Permission)
    → bare_all (insert_at s (lock_if l p) ps) ≡ insert_at s (lock_if false (bare p)) (bare_all ps)
insert_locked l s p ps = rw (insert_at-bare_all s (lock_if l p) ps, lock_if-bare l p) refl

slice-bare_all :
    (s n : ℕ) (ps : List Permission) → bare_all (slice s n ps) ≡ slice s n (bare_all ps)
slice-bare_all s n ps = take-bare_all n (drop s ps) ∙ ap (take n) (drop-bare_all s ps)

run_end-bare_all :
    (t : Permission → Bool) (s i : ℕ) (ps : List Permission)
    → ((p : Permission) → t (bare p) ≡ t p)
    → run_end t s i (bare_all ps) ≡ run_end t s i ps
unfolding run_end
run_end-bare_all t s i [] same = refl
run_end-bare_all t s i (p ∷ ps) same = rw (same p, run_end-bare_all t s (suc i) ps same) refl

pub bare_all-if :
    (b : Bool) (xs ys : List Permission)
    → bare_all (if b then xs else ys) ≡ (if b then bare_all xs else bare_all ys)
bare_all-if true xs ys = refl
bare_all-if false xs ys = refl

-- A token is put in if a test says so.
pub insert_if :
    (b : Bool) (s : ℕ) (p : Permission) (ps qs : List Permission)
    → bare_all ps ≡ qs
    → bare_all (if b then insert_at s p ps else ps) ≡ (if b then insert_at s (bare p) qs else qs)
insert_if b s p ps qs same =
    bare_all-if b (insert_at s p ps) ps
    ∙ ap (λ xs. if b then xs else bare_all ps) (insert_at-bare_all s p ps)
    ∙ ap (λ xs. if b then insert_at s (bare p) xs else xs) same

write_permits-bare_all :
    (acc ps : List Permission)
    → bare_all (write_permits acc ps) ≡ write_permits (bare_all acc) (bare_all ps)
unfolding write_permits
write_permits-bare_all acc [] = refl
write_permits-bare_all acc (p ∷ ps) =
    write_permits-bare_all (if p.write then p ∷ acc else acc) ps
    ∙ ap (λ xs. write_permits xs (bare_all ps)) (bare_all-if p.write (p ∷ acc) acc)

fill_gaps-bare_all :
    (l : Bool) (s : ℕ) (ws : List Permission) (new_end : ℕ) (ps : List Permission)
    → let r = fill_gaps l s ws new_end ps in
      (r.0, bare_all r.1) ≡ fill_gaps false s (bare_all ws) new_end (bare_all ps)
unfolding fill_gaps
fill_gaps-bare_all l s [] new_end ps = refl
fill_gaps-bare_all l s (w ∷ ws) new_end ps =
    let gap : Permission = permission w.end new_end false in
    let added : List Permission = insert_at s (lock_if l gap) ps in
    fill_gaps-bare_all l s ws w.start (insert_at s (lock_if l w) added)
    ∙ ap (fill_gaps false s (bare_all ws) w.start) (
        insert_locked l s w added
        ∙ ap (insert_at s (lock_if false (bare w))) (insert_locked l s gap ps))

fill_front-bare_all :
    (l : Bool) (s new_start new_end : ℕ) (ps : List Permission)
    → bare_all (fill_front l s new_start (new_end, ps))
      ≡ fill_front false s new_start (new_end, bare_all ps)
unfolding fill_front
fill_front-bare_all l s new_start new_end ps =
    let front : Permission = permission new_start new_end false in
    bare_all-if (i32_lt new_start new_end) (insert_at s (lock_if l front) ps) ps
    ∙ ap (λ xs. if i32_lt new_start new_end then xs else bare_all ps) (insert_locked l s front ps)

filled :
    (l : Bool) (s new_start : ℕ) (ws : List Permission) (new_end : ℕ) (ps qs : List Permission)
    → bare_all ps ≡ qs
    → bare_all (fill_front l s new_start (fill_gaps l s ws new_end ps))
      ≡ fill_front false s new_start (fill_gaps false s (bare_all ws) new_end qs)
filled l s new_start ws new_end ps qs same =
    let r = fill_gaps l s ws new_end ps in
    fill_front-bare_all l s new_start r.0 r.1
    ∙ ap (fill_front false s new_start) (fill_gaps-bare_all l s ws new_end ps)
    ∙ ap (λ xs. fill_front false s new_start (fill_gaps false s (bare_all ws) new_end xs)) same

read_around-bare_all :
    (l : Bool) (s new_start new_end : ℕ) (ws ps : List Permission)
    → bare_all (read_around l s new_start new_end ws ps)
      ≡ read_around false s new_start new_end (bare_all ws) (bare_all ps)
unfolding read_around
read_around-bare_all l s new_start new_end [] ps =
    insert_locked l s (permission new_start new_end false) ps
read_around-bare_all l s new_start new_end (w ∷ ws) ps =
    let inside : Bool = leb w.start new_end && leb new_end w.end in
    bare_all-if inside
      (fill_front l s new_start (fill_gaps l s ws w.start (insert_at s (lock_if l w) ps)))
      (fill_front l s new_start (fill_gaps l s (w ∷ ws) new_end ps))
    ∙ ap
        (λ xs.
          if inside
          then xs
          else bare_all (fill_front l s new_start (fill_gaps l s (w ∷ ws) new_end ps)))
        (filled l s new_start ws w.start (insert_at s (lock_if l w) ps)
          (insert_at s (lock_if false (bare w)) (bare_all ps)) (insert_locked l s w ps))
    ∙ ap
        (λ xs.
          if inside
          then fill_front false s new_start (
              fill_gaps false s (bare_all ws) w.start
                (insert_at s (lock_if false (bare w)) (bare_all ps)))
          else xs)
        (filled l s new_start (w ∷ ws) new_end ps (bare_all ps) refl)

add_read-bare_all :
    (s e start end : ℕ) (l : Bool) (ps : List Permission)
    → bare_all (add_read s e start end l ps) ≡ add_read s e start end false (bare_all ps)
unfolding add_read
add_read-bare_all s e start end l ps =
    let first : Permission = token_at ps s in
    let last : Permission = token_at ps e in
    let new_start : ℕ = if not first.write && ltb first.start start then first.start else start in
    let new_end : ℕ = if not last.write && ltb end last.end then last.end else end in
    let run : List Permission = slice s (e + 1 - s) ps in
    rw (token_at-bare_all ps s, token_at-bare_all ps e)
      (read_around-bare_all l s new_start new_end (write_permits [] run)
          (erase_range s (e + 1 - s) ps)
        ∙ ap
            (λ ws.
              read_around false s new_start new_end ws (bare_all (erase_range s (e + 1 - s) ps)))
            (write_permits-bare_all [] run
              ∙ ap (write_permits []) (slice-bare_all s (e + 1 - s) ps))
        ∙ ap
            (read_around false s new_start new_end
              (write_permits [] (slice s (e + 1 - s) (bare_all ps))))
            (erase_range-bare_all s (e + 1 - s) ps))

add_apart-bare_all :
    (start end : ℕ) (write l : Bool) (ps : List Permission)
    → bare_all (add_apart start end write l ps) ≡ add_apart start end write false (bare_all ps)
unfolding add_apart
add_apart-bare_all start end write l ps =
    let before : Permission → Bool = λ p. ltb p.end start in
    let same : find_down before (length (bare_all ps)) (bare_all ps)
        ≡ find_down before (length ps) ps =
      ap (λ n. find_down before n (bare_all ps)) (length-bare_all ps)
      ∙ find_down-bare_all before (λ p. refl) (length ps) ps in
    let new : Permission = permission start end write in
    elim (Option-cases (find_down before (length ps) ps)) [
      | inl e ↦ rw (add_apart, same, e) (insert_locked l 0 new ps)
      | inr (i, e) ↦ rw (add_apart, same, e) (insert_locked l (i + 1) new ps)
    ]

add_write-bare_all :
    (s e start end : ℕ) (l : Bool) (ps : List Permission)
    → bare_all (add_write s e start end l ps) ≡ add_write s e start end false (bare_all ps)
unfolding add_write
add_write-bare_all s e start end l ps =
    let first : Permission = token_at ps s in
    let last : Permission = token_at ps e in
    let new_start : ℕ = if first.write then min first.start start else start in
    let new_end : ℕ = if last.write then max last.end end else end in
    let others : List Permission = erase_range s (e + 1 - s) ps in
    let past : Bool = not last.write && ltb end last.end in
    let back : Permission = permission end first.end false in
    let behind : List Permission = if past then insert_at s back others else others in
    let bare_others : List Permission = erase_range s (e + 1 - s) (bare_all ps) in
    let new : Permission = permission new_start new_end true in
    rw (token_at-bare_all ps s, token_at-bare_all ps e)
      (insert_if (not first.write && ltb first.start start) s (permission first.start start false)
        (insert_at s (lock_if l new) behind)
        (insert_at s (lock_if false new)
          (if past then insert_at s back bare_others else bare_others))
        (insert_locked l s new behind
          ∙ ap (insert_at s (lock_if false new))
              (insert_if past s back others bare_others (erase_range-bare_all s (e + 1 - s) ps))))

-- `addPermission` with the locks or without them.
pub add_permission-bare_all :
    (start end : ℕ) (write l : Bool) (ps : List Permission)
    → bare_all (add_permission start end write l ps)
      ≡ add_permission start end write false (bare_all ps)
unfolding add_permission is_inclusive_shared
add_permission-bare_all start end write l ps =
    let touches : Permission → Bool = is_inclusive_shared start end in
    let found = find_from-bare_all touches (λ p. refl) 0 ps in
    elim (Option-cases (find_from touches 0 ps)) [
      | inl none_found ↦
          rw (add_permission, found, none_found) (add_apart-bare_all start end write l ps)
      | inr (s, e) ↦
          let r : ℕ = run_end touches s (s + 1) (drop (s + 1) ps) in
          let same : run_end touches s (s + 1) (drop (s + 1) (bare_all ps)) ≡ r =
            ap (run_end touches s (s + 1)) (sym (drop-bare_all (s + 1) ps))
            ∙ run_end-bare_all touches s (s + 1) (drop (s + 1) ps) (λ p. refl) in
          rw (add_permission, found, e, same)
            (bare_all-if write (add_write s r start end l ps) (add_read s r start end l ps)
              ∙ ap (λ xs. if write then xs else bare_all (add_read s r start end l ps))
                  (add_write-bare_all s r start end l ps)
              ∙ ap (λ xs. if write then add_write s r start end false (bare_all ps) else xs)
                  (add_read-bare_all s r start end l ps))
    ]
