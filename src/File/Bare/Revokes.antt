-- ===== src/File/Bare/Revokes.antt =====
-- `revokePermission`, and the calls that only lock and unlock, without the locks.
use pfs.Base.{
  ℕ, suc, ◌-◌, ◌≡◌, refl, sym, ap, ◌∙◌, Bool, Option, none, some, inl, inr, List, [], ◌∷◌, ◌==◌,
  if◌then◌else◌, length, insert_at, erase_range, find_from, Bool-cases, ltb,
}
use pfs.Permission.{Permission, permission, set_start, set_end, is_shared, add_waiting_semaphore}
use pfs.File.{
  token_at, find_down, split_at, trim_start, trim_end, trim, revoke_between, revoke_permission,
  await_unlocked,
}
use pfs.File.Bare.{
  bare, bare_all, length-bare_all, token_at-bare_all, erase_range-bare_all, modify_at-bare_all,
  find_from-bare_all, find_down-bare_all,
}
use pfs.File.Bare.Adds.{bare_all-if, insert_if}

split_at-bare_all :
    (s start end : ℕ) (ps : List Permission)
    → bare_all (split_at s start end ps) ≡ split_at s start end (bare_all ps)
unfolding split_at
split_at-bare_all s start end ps =
    let p : Permission = token_at ps s in
    let others : List Permission = erase_range s 1 ps in
    let back : Permission = permission end p.end p.write in
    let past : Bool = ltb end p.end in
    let bare_others : List Permission = erase_range s 1 (bare_all ps) in
    rw (token_at-bare_all ps s) (
      insert_if (ltb p.start start) s (permission p.start start p.write)
        (if past then insert_at s back others else others)
        (if past then insert_at s back bare_others else bare_others)
        (insert_if past s back others bare_others (erase_range-bare_all s 1 ps)))

trim_start-bare_all :
    (s start : ℕ) (ps : List Permission)
    → let r = trim_start s start ps in trim_start s start (bare_all ps) ≡ (r.0, bare_all r.1)
unfolding trim_start
trim_start-bare_all s start ps = elim (Bool-cases (ltb (token_at ps s).start start)) [
  | inl t ↦
      rw (trim_start, token_at-bare_all ps s, t)
        (ap (λ xs. (suc s, xs)) (sym (modify_at-bare_all (set_end start) (λ p. refl) s ps)))
  | inr t ↦ rw (trim_start, token_at-bare_all ps s, t) refl
]

trim_end-bare_all :
    (e end : ℕ) (ps : List Permission)
    → let r = trim_end e end ps in trim_end e end (bare_all ps) ≡ (r.0, bare_all r.1)
unfolding trim_end
trim_end-bare_all e end ps = elim (Bool-cases (ltb end (token_at ps e).end)) [
  | inl t ↦
      rw (trim_end, token_at-bare_all ps e, t)
        (ap (λ xs. (e, xs)) (sym (modify_at-bare_all (set_start end) (λ p. refl) e ps)))
  | inr t ↦ rw (trim_end, token_at-bare_all ps e, t) refl
]

trim-bare_all :
    (s e start end : ℕ) (ps : List Permission)
    → bare_all (trim s e start end ps) ≡ trim s e start end (bare_all ps)
unfolding trim
trim-bare_all s e start end ps =
    let front = trim_start s start ps in
    let back = trim_end e end front.1 in
    rw (trim_start-bare_all s start ps, trim_end-bare_all e end front.1)
      (bare_all-if (ltb front.0 back.0) (erase_range front.0 (back.0 - front.0) back.1) back.1
        ∙ ap (λ xs. if ltb front.0 back.0 then xs else bare_all back.1)
            (erase_range-bare_all front.0 (back.0 - front.0) back.1))

revoke_between-bare_all :
    (s e : Option ℕ) (start end : ℕ) (ps : List Permission)
    → bare_all (revoke_between s e start end ps) ≡ revoke_between s e start end (bare_all ps)
unfolding revoke_between
revoke_between-bare_all none none start end ps = refl
revoke_between-bare_all none (some e) start end ps =
    sym (ap (λ (r : ℕ × List Permission). r.1) (trim_end-bare_all e end ps))
revoke_between-bare_all (some s) none start end ps =
    sym (ap (λ (r : ℕ × List Permission). r.1) (trim_start-bare_all s start ps))
revoke_between-bare_all (some s) (some e) start end ps =
    bare_all-if (s == e) (split_at s start end ps) (trim s e start end ps)
    ∙ ap (λ xs. if s == e then xs else bare_all (trim s e start end ps))
        (split_at-bare_all s start end ps)
    ∙ ap (λ xs. if s == e then split_at s start end (bare_all ps) else xs)
        (trim-bare_all s e start end ps)

-- `revokePermission` with the locks or without them.
pub revoke_permission-bare_all :
    (start end : ℕ) (ps : List Permission)
    → bare_all (revoke_permission start end ps) ≡ revoke_permission start end (bare_all ps)
unfolding revoke_permission is_shared
revoke_permission-bare_all start end ps =
    let shared : Permission → Bool = is_shared start end in
    let first = find_from-bare_all shared (λ p. refl) 0 ps in
    let last : find_down shared (length (bare_all ps)) (bare_all ps)
        ≡ find_down shared (length ps) ps =
      ap (λ n. find_down shared n (bare_all ps)) (length-bare_all ps)
      ∙ find_down-bare_all shared (λ p. refl) (length ps) ps in
    rw (revoke_permission, first, last)
      (revoke_between-bare_all (find_from shared 0 ps) (find_down shared (length ps) ps) start end
        ps)

-- A caller that queues its semaphore changes no token.
pub await_unlocked-bare_all :
    (sem start end : ℕ) (ps : List Permission)
    → bare_all (await_unlocked sem start end ps).0 ≡ bare_all ps
unfolding await_unlocked add_waiting_semaphore
await_unlocked-bare_all sem start end [] = refl
await_unlocked-bare_all sem start end (p ∷ ps) =
    let rest = await_unlocked-bare_all sem start end ps in
    elim (Bool-cases (is_shared start end p)) [
      | inr t ↦ rw (await_unlocked, t) (ap (λ qs. bare p ∷ qs) rest)
      | inl t ↦ elim (Bool-cases p.locked) [
        | inl l ↦ rw (await_unlocked, t, add_waiting_semaphore, l) (ap (λ qs. bare p ∷ qs) rest)
        | inr l ↦ rw (await_unlocked, t, add_waiting_semaphore, l) (ap (λ qs. bare p ∷ qs) rest)
      ]
    ]
