-- ===== src/File/Run.antt =====
-- The run of permissions that `addPermission` works on, and the write tokens that it takes from it.
use native.Mathlib.Numerals.{add-one}
use pfs.Base.{
  ℕ, zero, suc, ◌+◌, ◌-◌, ◌≤◌, ◌<◌, ◌≡◌, refl, inl, inr, Bool, true, false, List, [], ◌∷◌, arith,
  ◌==◌, if◌then◌else◌, length, take, drop, slice, Bool-cases, ==_iff,
}
use pfs.Permission.{Permission}
use pfs.File.{token_at, run_end, write_permits, lock_if}
use pfs.File.Cover.{holds}
use pfs.File.Positions.{token_at-drop, IsFirst}

-- Every position from `s` to `e` passes the test.
abbrev pub IsRun : (Permission → Bool) → List Permission → ℕ → ℕ → Type 0
IsRun q ps s e = (k : ℕ) → s ≤ k → k ≤ e → q (token_at ps k) ≡ true

IsRun-suc :
    (q : Permission → Bool) (ps : List Permission) (s i : ℕ)
    → IsRun q ps s i
    → q (token_at ps (suc i)) ≡ true
    → IsRun q ps s (suc i)
IsRun-suc q ps s i r h k lo hi = elim (Bool-cases (k == suc i)) [
  | inl top ↦ rw ((==_iff k (suc i)).0 top) h
  | inr below ↦ r k lo (ground arith)
]

run_end-IsRun :
    (q : Permission → Bool) (ps : List Permission) (s i : ℕ) (rest : List Permission)
    → s ≤ i
    → IsRun q ps s i
    → ((k : ℕ) → token_at rest k ≡ token_at ps (suc i + k))
    → (s ≤ run_end q s (suc i) rest) × IsRun q ps s (run_end q s (suc i) rest)
unfolding run_end
run_end-IsRun q ps s i [] le r same = (omega arith, λ k lo hi. r k lo (omega arith))
run_end-IsRun q ps s i (p ∷ rest) le r same = elim (Bool-cases (q p)) [
  | inl hit ↦ rw hit (
      run_end-IsRun q ps s (suc i) rest (omega arith)
        (IsRun-suc q ps s i r (ground (arith, same 0)))
        (λ k. let e : suc (suc i) + k ≡ suc i + suc k = omega arith in rw e (same (suc k))))
  | inr miss ↦ rw miss (omega arith, λ k lo hi. r k lo (omega arith))
]

-- What the three loops at the head of `addPermission` find is such a run.
pub add-IsRun :
    (q : Permission → Bool) (ps : List Permission) (s : ℕ)
    → IsFirst q ps s
    → (s ≤ run_end q s (s + 1) (drop (s + 1) ps))
      × IsRun q ps s (run_end q s (s + 1) (drop (s + 1) ps))
add-IsRun q ps s f = rw (add-one) (
    run_end-IsRun q ps s s (drop (suc s) ps) (omega arith)
      (λ k lo hi. let same : k ≡ s = omega arith in rw same f.passes)
      (λ k. token_at-drop (suc s) k ps))

-- A predicate on each element.
abbrev pub All : (Permission → Type 0) → List Permission → Type 0
All P [] = Unit {0}
All P (p ∷ ps) = P p × All P ps

All-push :
    (P : Permission → Type 0) (b : Bool) (p : Permission) (acc : List Permission)
    → P p
    → All P acc
    → All P (if b then p ∷ acc else acc)
All-push P true p acc h a = (h, a)
All-push P false p acc h a = a

write_permits-All :
    (P : Permission → Type 0) (acc ps : List Permission)
    → All P acc
    → All P ps
    → All P (write_permits acc ps)
unfolding write_permits
write_permits-All P acc [] a b = a
write_permits-All P acc (p ∷ ps) a b =
    write_permits-All P (if p.write then p ∷ acc else acc) ps (All-push P p.write p acc b.0 a) b.1

All-take :
    (P : Permission → Type 0) (n : ℕ) (ps : List Permission)
    → ((k : ℕ) → k < n → k < length ps → P (token_at ps k))
    → All P (take n ps)
All-take P zero ps h = tt
All-take P (suc n) [] h = tt
All-take P (suc n) (p ∷ ps) h = (
  h 0 (omega arith) (omega arith),
  All-take P n ps (λ k l m. h (suc k) (omega arith) (omega arith)),
)

-- What holds at each position of a run holds of its write tokens.
pub write_permits-run :
    (P : Permission → Type 0) (ps : List Permission) (s e : ℕ)
    → s ≤ e
    → ((k : ℕ) → s ≤ k → k ≤ e → P (token_at ps k))
    → All P (write_permits [] (slice s (e + 1 - s) ps))
write_permits-run P ps s e le h = write_permits-All P [] (slice s (e + 1 - s) ps) tt (
    All-take P (e + 1 - s) (drop s ps)
      λ k l _. rw (token_at-drop s k ps) (h (s + k) (omega arith) (omega arith)))

-- A lock does not change what a token holds.
pub holds-lock_if :
    (w lock_new : Bool) (p : Permission) (x : ℕ) → holds w (lock_if lock_new p) x ≡ holds w p x
unfolding holds lock_if
holds-lock_if w true p x = refl
holds-lock_if w false p x = refl
