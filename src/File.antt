-- ===== src/File.antt =====
-- common/file.cpp and include/file.h: the tokens of one file, a vector of permissions, and the
-- three operations on it. Each of them runs under the file's mutex. The metadata manager keeps
-- such a vector for each client of a file, and each client keeps its own.
-- `int` copies of a bound keep the bit pattern, so only the comparison of two of them reads a sign.
pub mod Cover
pub mod Positions
pub mod Has
pub mod Revoke
pub mod Spare
pub mod Overlap
pub mod Run
pub mod Excess
pub mod Granted
pub mod Bare
pub mod Info
use pfs.Base.{
  ℕ, zero, suc, ◌+◌, ◌-◌, min, max, Bool, true, false, not, ◌&&◌, Option, none, some, List, [], ◌∷◌,
  ltb, leb, ◌==◌, if◌then◌else◌, i32_lt, length, get_or, insert_at, drop, erase_range, slice,
  modify_at, find_from,
}
use pfs.Permission.{
  Permission, permission, is_shared, is_inclusive_shared, set_start, set_end, lock,
  add_waiting_semaphore,
}

-- `permissions[i]`. Past the end stands a token for no byte.
abbrev pub token_at : List Permission → ℕ → Permission
token_at ps i = get_or ps i (permission 0 0 false)

-- A downward loop, from position `n - 1` to 0, to the first permission that passes the test.
pub find_down : (Permission → Bool) → ℕ → List Permission → Option ℕ
find_down p zero ps = none
find_down p (suc i) ps = let rest = find_down p i ps in if p (token_at ps i) then some i else rest

-- A loop over `n` positions from `i` on that gives up at the first which fails the test.
pub all_range : ℕ → ℕ → (ℕ → Bool) → Bool
all_range zero i p = true
all_range (suc n) i p = p i && all_range n (suc i) p

-- The position `s`: the last before the first that starts behind `start`, if there is one before it.
pub start_index : ℕ → List Permission → Option ℕ
start_index start ps = elim (find_from (λ p. ltb start p.start) 0 ps) [
  | none ↦ some (length ps - 1)
  | some zero ↦ none
  | some (suc i) ↦ some i
]

-- The position `e`: the first from `s` on that reaches to `end`, or the last of all.
pub end_index : ℕ → ℕ → List Permission → ℕ
end_index end s ps = elim (find_from (λ p. leb end p.end) s (drop s ps)) [
  | none ↦ length ps - 1
  | some e ↦ e
]

-- The tests that follow the two searches.
pub spans : ℕ → ℕ → Bool → ℕ → ℕ → List Permission → Bool
unfolding all_range
spans start end write s e ps =
    if ltb start (token_at ps s).start
    then false
    else if ltb (token_at ps e).end end
    then false
    else if write && not (all_range (e + 1 - s) s (λ i. (token_at ps i).write))
    then false
    else all_range (e - s) s (λ i. (token_at ps i).end == (token_at ps (suc i)).start)

-- `hasPermission`
unfoldable pub has_permission : ℕ → ℕ → Bool → List Permission → Bool
unfolding start_index end_index spans
has_permission start end write [] = false
has_permission start end write (p ∷ ps) = elim (start_index start (p ∷ ps)) [
  | none ↦ false
  | some s ↦ spans start end write s (end_index end s (p ∷ ps)) (p ∷ ps)
]

-- `if(lockNewPermissions) permit->lock()`
pub lock_if : Bool → Permission → Permission
unfolding lock
lock_if lock_new p = if lock_new then lock p else p

-- The loop that looks for the end of the run: it starts behind `s` and stops at the first
-- permission that is not shared. If it meets none, `e` keeps its first value, `s`.
pub run_end : (Permission → Bool) → ℕ → ℕ → List Permission → ℕ
run_end shared s i [] = s
run_end shared s i (p ∷ ps) =
    let rest = run_end shared s (suc i) ps in if shared p then rest else i - 1

-- A write token over the run from `s` to `e`.
pub add_write : ℕ → ℕ → ℕ → ℕ → Bool → List Permission → List Permission
unfolding lock_if
add_write s e start end lock_new ps =
    let first : Permission = token_at ps s in
    let last : Permission = token_at ps e in
    let new_start : ℕ = if first.write then min first.start start else start in
    let new_end : ℕ = if last.write then max last.end end else end in
    let others : List Permission = erase_range s (e + 1 - s) ps in
    let behind : List Permission =
      if not last.write && ltb end last.end
      then insert_at s (permission end first.end false) others
      else others in
    let added : List Permission =
      insert_at s (lock_if lock_new (permission new_start new_end true)) behind in
    if not first.write && ltb first.start start
    then insert_at s (permission first.start start false) added
    else added

-- The write tokens of a run. The head of the list is the back of the vector `writePermits`.
pub write_permits : List Permission → List Permission → List Permission
write_permits acc [] = acc
write_permits acc (p ∷ ps) = write_permits (if p.write then p ∷ acc else acc) ps

-- The loop that empties `writePermits` from the back: a read token up to `newEnd`, and the write
-- token before it. It ends with the last `newEnd` and the vector.
pub fill_gaps : Bool → ℕ → List Permission → ℕ → List Permission → ℕ × List Permission
unfolding lock_if
fill_gaps lock_new s [] new_end ps = (new_end, ps)
fill_gaps lock_new s (w ∷ ws) new_end ps = fill_gaps lock_new s ws w.start (
    insert_at s (lock_if lock_new w)
      (insert_at s (lock_if lock_new (permission w.end new_end false)) ps))

-- The read token before the first write token.
pub fill_front : Bool → ℕ → ℕ → ℕ × List Permission → List Permission
unfolding lock_if i32_lt
fill_front lock_new s new_start (new_end, ps) =
    if i32_lt new_start new_end
    then insert_at s (lock_if lock_new (permission new_start new_end false)) ps
    else ps

-- Read tokens from `new_start` to `new_end`, around the write tokens of the run.
pub read_around : Bool → ℕ → ℕ → ℕ → List Permission → List Permission → List Permission
unfolding lock_if fill_gaps fill_front
read_around lock_new s new_start new_end [] ps =
    insert_at s (lock_if lock_new (permission new_start new_end false)) ps
read_around lock_new s new_start new_end (w ∷ ws) ps =
    if leb w.start new_end && leb new_end w.end
    then fill_front lock_new s new_start
        (fill_gaps lock_new s ws w.start (insert_at s (lock_if lock_new w) ps))
    else fill_front lock_new s new_start (fill_gaps lock_new s (w ∷ ws) new_end ps)

-- A read token over the run from `s` to `e`.
pub add_read : ℕ → ℕ → ℕ → ℕ → Bool → List Permission → List Permission
unfolding write_permits read_around
add_read s e start end lock_new ps =
    let first : Permission = token_at ps s in
    let last : Permission = token_at ps e in
    let new_start : ℕ = if not first.write && ltb first.start start then first.start else start in
    let new_end : ℕ = if not last.write && ltb end last.end then last.end else end in
    read_around lock_new s new_start new_end (write_permits [] (slice s (e + 1 - s) ps))
      (erase_range s (e + 1 - s) ps)

-- A token that touches none of the vector's.
pub add_apart : ℕ → ℕ → Bool → Bool → List Permission → List Permission
unfolding lock_if find_down
add_apart start end write lock_new ps = elim (find_down (λ p. ltb p.end start) (length ps) ps) [
  | none ↦ insert_at 0 (lock_if lock_new (permission start end write)) ps
  | some i ↦ insert_at (i + 1) (lock_if lock_new (permission start end write)) ps
]

-- `addPermission`
unfoldable pub add_permission : ℕ → ℕ → Bool → Bool → List Permission → List Permission
unfolding is_inclusive_shared run_end add_write add_read add_apart
add_permission start end write lock_new ps = elim (find_from (is_inclusive_shared start end) 0 ps) [
  | none ↦ add_apart start end write lock_new ps
  | some s ↦
      let e : ℕ = run_end (is_inclusive_shared start end) s (s + 1) (drop (s + 1) ps) in
      if write then add_write s e start end lock_new ps else add_read s e start end lock_new ps
]

-- One permission overlaps the range: what is left of it on either side.
pub split_at : ℕ → ℕ → ℕ → List Permission → List Permission
split_at s start end ps =
    let p : Permission = token_at ps s in
    let others : List Permission = erase_range s 1 ps in
    let behind : List Permission =
      if ltb end p.end then insert_at s (permission end p.end p.write) others else others in
    if ltb p.start start then insert_at s (permission p.start start p.write) behind else behind

-- `permissions[s]->setEnd(start); s++`, if that permission starts before the range.
pub trim_start : ℕ → ℕ → List Permission → ℕ × List Permission
trim_start s start ps =
    if ltb (token_at ps s).start start then (suc s, modify_at s (set_end start) ps) else (s, ps)

-- `permissions[e]->setStart(end); e--`, if that permission ends behind the range. The number is
-- `e + 1`, the end of what is erased.
pub trim_end : ℕ → ℕ → List Permission → ℕ × List Permission
trim_end e end ps =
    if ltb end (token_at ps e).end then (e, modify_at e (set_start end) ps) else (suc e, ps)

-- Several permissions overlap the range, the first at `s` and the last at `e`.
pub trim : ℕ → ℕ → ℕ → ℕ → List Permission → List Permission
unfolding trim_start trim_end
trim s e start end ps =
    let front : ℕ × List Permission = trim_start s start ps in
    let back : ℕ × List Permission = trim_end e end front.1 in
    if ltb front.0 back.0 then erase_range front.0 (back.0 - front.0) back.1 else back.1

-- What `revokePermission` does with the positions that its two loops found.
pub revoke_between : Option ℕ → Option ℕ → ℕ → ℕ → List Permission → List Permission
unfolding split_at trim
revoke_between none none start end ps = ps
revoke_between none (some e) start end ps = (trim_end e end ps).1
revoke_between (some s) none start end ps = (trim_start s start ps).1
revoke_between (some s) (some e) start end ps =
    if s == e then split_at s start end ps else trim s e start end ps

-- `revokePermission` from its second part on, which is all of it where `lock` is null. Its
-- argument `write` is not read.
unfoldable pub revoke_permission : ℕ → ℕ → List Permission → List Permission
unfolding is_shared find_down revoke_between
revoke_permission start end ps =
    revoke_between (find_from (is_shared start end) 0 ps)
      (find_down (is_shared start end) (length ps) ps) start end ps

-- The first part, where `lock` is the client's: `sem` is queued at each permission of the range
-- that is locked. The number is how often the caller then waits.
unfoldable pub await_unlocked : ℕ → ℕ → ℕ → List Permission → List Permission × ℕ
unfolding is_shared add_waiting_semaphore
await_unlocked sem start end [] = ([], 0)
await_unlocked sem start end (p ∷ ps) =
    let (rest, count) = await_unlocked sem start end ps in
    if is_shared start end p
    then (let (q, res) = add_waiting_semaphore sem p in (q ∷ rest, (if res then 1 else 0) + count))
    else (p ∷ rest, count)
