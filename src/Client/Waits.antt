-- ===== src/Client/Waits.antt =====
-- A revocation waits for the tokens that a read or a write has locked (common/file.cpp,
-- common/permission.cpp, client/client_file.cpp): it queues its semaphore at each, and every unlock
-- posts what is queued.
use pfs.Base.{
  ℕ, ◌+◌, ◌<◌, ◌≤◌, ◌≡◌, refl, ap, ◌∙◌, inl, inr, Bool, true, not, ◌&&◌, ◌||◌, List, [], ◌∷◌, ◌++◌,
  arith, ◌==◌, if◌then◌else◌, Bool-cases,
}
use pfs.Permission.{
  Permission, permission, lock, unlock, is_shared, is_inclusive_shared, add_waiting_semaphore,
}
use pfs.File.{add_permission, await_unlocked}
use pfs.Client.{unlock_permission}

-- How often a semaphore is among those that were posted.
abbrev pub times : ℕ → List ℕ → ℕ
times sem [] = 0
times sem (x ∷ xs) = (if x == sem then 1 else 0) + times sem xs

times-append : (sem : ℕ) (xs ys : List ℕ) → times sem (xs ++ ys) ≡ times sem xs + times sem ys
times-append sem [] ys = omega arith
times-append sem (x ∷ xs) ys = omega (arith, times-append sem xs ys)

-- What the tokens still have to post.
abbrev debt : ℕ → List Permission → ℕ
debt sem [] = 0
debt sem (p ∷ ps) = (if p.locked then times sem p.waiting_semaphores else 0) + debt sem ps

-- A semaphore that is not queued yet, as a new one is not.
abbrev pub is_fresh : ℕ → List Permission → Bool
is_fresh sem [] = true
is_fresh sem (p ∷ ps) = (times sem p.waiting_semaphores == 0) && is_fresh sem ps

-- It is queued at tokens of the range only.
abbrev is_within : ℕ → ℕ → ℕ → List Permission → Bool
is_within sem start end [] = true
is_within sem start end (p ∷ ps) =
    (is_shared start end p || (times sem p.waiting_semaphores == 0)) && is_within sem start end ps

-- No token of the range is locked.
abbrev pub all_unlocked : ℕ → ℕ → List Permission → Bool
all_unlocked start end [] = true
all_unlocked start end (p ∷ ps) =
    not (is_shared start end p && p.locked) && all_unlocked start end ps

-- Then nothing is waited for.
pub all_unlocked-await_unlocked :
    (sem start end : ℕ) (ps : List Permission)
    → all_unlocked start end ps ≡ true
    → (await_unlocked sem start end ps).1 ≡ 0
unfolding await_unlocked add_waiting_semaphore
all_unlocked-await_unlocked sem start end [] h = refl
all_unlocked-await_unlocked sem start end (p ∷ ps) h =
    ground (arith, all_unlocked-await_unlocked sem start end ps)

-- What the client's reads and writes unlock from then on, with what that posts.
pub data Unlocks (ps : List Permission) : List Permission → List ℕ → Type 0 where
  begins : Unlocks ps ps []
  unlocks :
      {qs : List Permission} {posted : List ℕ} (start end : ℕ)
      → Unlocks ps qs posted
      → Unlocks ps (unlock_permission start end qs).0 (posted ++ (unlock_permission start end qs).1)

module _ (sem : ℕ) where
  unlock-debt :
      (start end : ℕ) (ps : List Permission)
      → let (qs, posted) = unlock_permission start end ps in
        debt sem ps ≤ debt sem qs + times sem posted
  unfolding unlock_permission unlock
  unlock-debt start end [] = omega arith
  unlock-debt start end (p ∷ ps) =
      let rest = unlock-debt start end ps in
      let both = times-append sem p.waiting_semaphores (unlock_permission start end ps).1 in
      elim (Bool-cases (is_shared start end p)) [
        | inl t ↦ rw t (ground (arith, rest, both))
        | inr t ↦ rw t (ground (arith, rest))
      ]

  unlock-within :
      (start end start' end' : ℕ) (ps : List Permission)
      → is_within sem start end ps ≡ true
      → is_within sem start end (unlock_permission start' end' ps).0 ≡ true
  unfolding unlock_permission unlock is_shared
  unlock-within start end start' end' [] h = refl
  unlock-within start end start' end' (p ∷ ps) h =
      let rest = unlock-within start end start' end' ps (ground arith) in
      elim (Bool-cases (is_shared start' end' p)) [
        | inl t ↦ rw t (ground (arith, rest))
        | inr t ↦ rw t (ground (arith, rest))
      ]

  await-debt :
      (start end : ℕ) (ps : List Permission)
      → is_fresh sem ps ≡ true
      → let (qs, count) = await_unlocked sem start end ps in
        (count ≤ debt sem qs) × (is_within sem start end qs ≡ true)
  unfolding await_unlocked add_waiting_semaphore is_shared
  await-debt start end [] h = (omega arith, refl)
  await-debt start end (p ∷ ps) h =
      let (owed, within) = await-debt start end ps (ground arith) in
      let more = times-append sem p.waiting_semaphores (sem ∷ []) in
      elim (Bool-cases (is_shared start end p)) [
        | inr t ↦ rw t (ground (arith, owed), ground (arith, within))
        | inl t ↦ elim (Bool-cases p.locked) [
          | inr l ↦
              rw (t, add_waiting_semaphore, l) (ground (arith, owed), ground (arith, within, t))
          | inl l ↦
              rw (t, add_waiting_semaphore, l)
                (ground (arith, owed, more), ground (arith, within, t))
        ]
      ]

  paid :
      (start end : ℕ) (ps : List Permission)
      → is_within sem start end ps ≡ true
      → all_unlocked start end ps ≡ true
      → debt sem ps ≡ 0
  paid start end [] h u = refl
  paid start end (p ∷ ps) h u = ground (arith, paid start end ps)

  Unlocks-debt :
      (start end : ℕ) (ps qs : List Permission) (posted : List ℕ)
      → Unlocks ps qs posted
      → is_within sem start end ps ≡ true
      → (debt sem ps ≤ debt sem qs + times sem posted) × (is_within sem start end qs ≡ true)
  Unlocks-debt start end ps _ _ begins h = (omega arith, h)
  Unlocks-debt start end ps _ _ (unlocks {qs} {posted} s e r) h =
      let (less, within) = Unlocks-debt start end ps qs posted r h in
      let step = unlock-debt s e qs in
      let both = times-append sem posted (unlock_permission s e qs).1 in
      (omega arith, unlock-within start end s e qs within)

-- The part of `revokePermission` that waits does return: the semaphore, which is new, has been posted as
-- often as it waits for it once the client has unlocked every token of the range, in whatever order
-- and however often it unlocks the ranges of its reads and writes.
pub Unlocks-await_unlocked :
    (sem start end : ℕ) (ps qs : List Permission) (posted : List ℕ)
    → is_fresh sem ps ≡ true
    → let (queued, count) = await_unlocked sem start end ps in
      Unlocks queued qs posted → all_unlocked start end qs ≡ true → count ≤ times sem posted
Unlocks-await_unlocked sem start end ps qs posted fresh r free =
    let (owed, within) = await-debt sem start end ps fresh in
    let (less, within') =
      Unlocks-debt sem start end (await_unlocked sem start end ps).0 qs posted r within in
    omega (arith, paid sem start end qs within' free)

-- The locked token with one semaphore in its queue.
abbrev queued_token : ℕ → ℕ → ℕ → Permission
queued_token a b sem = record (lock (permission a b true)) { waiting_semaphores = sem ∷ [] }

await_locked :
    (a b sem : ℕ)
    → a < b
    → await_unlocked sem a b (lock (permission a b true) ∷ []) ≡ (queued_token a b sem ∷ [], 1)
unfolding await_unlocked add_waiting_semaphore lock is_shared
await_locked a b sem lo = ground arith

merged_lem :
    (a b c sem : ℕ)
    → a < b
    → b < c
    → add_permission b c true true (queued_token a b sem ∷ []) ≡ lock (permission a c true) ∷ []
unfolding add_permission lock is_inclusive_shared
merged_lem a b c sem lo hi = ground arith

nothing_posted :
    (a c sem from to : ℕ)
    → times sem (unlock_permission from to (lock (permission a c true) ∷ [])).1 ≡ 0
unfolding unlock_permission lock unlock
nothing_posted a c sem from to = ground arith

-- A client that is granted the next range for writing while a revocation waits for a locked token
-- forgets who waits: the merged token has nobody in its queue, and no unlock posts the semaphore.
pub add_permission-await_unlocked :
    (a b c sem : ℕ)
    → a < b
    → b < c
    → let (queued, count) = await_unlocked sem a b (lock (permission a b true) ∷ []) in
      let merged = add_permission b c true true queued in
      (count ≡ 1)
      × (merged ≡ lock (permission a c true) ∷ [])
      × ((from to : ℕ) → times sem (unlock_permission from to merged).1 ≡ 0)
add_permission-await_unlocked a b c sem lo hi =
    let waits = await_locked a b sem lo in
    let merged : add_permission b c true true
          (await_unlocked sem a b (lock (permission a b true) ∷ [])).0
        ≡ lock (permission a c true) ∷ [] =
      ap (λ (r : List Permission × ℕ). add_permission b c true true r.0) waits
      ∙ merged_lem a b c sem lo hi in
    (
      ap (λ (r : List Permission × ℕ). r.1) waits,
      merged,
      λ from to.
          ap (λ ps. times sem (unlock_permission from to ps).1) merged
          ∙ nothing_posted a c sem from to,
    )
