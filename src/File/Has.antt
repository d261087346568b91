-- ===== src/File/Has.antt =====
-- `File::hasPermission`: a positive answer is right.
use Prim.Native.Nat.add
use pfs.Base.{
  ℕ, zero, suc, ◌+◌, ◌-◌, ◌≤◌, ◌<◌, ◌≡◌, refl, inl, inr, Bool, true, false, not, ◌&&◌, ◌||◌, some,
  List, [], ◌∷◌, arith, ltb, leb, ◌==◌, length, drop, find_from, Bool-cases, Option-cases,
}
use pfs.Permission.{Permission}
use pfs.File.{token_at, all_range, start_index, end_index, spans, has_permission}
use pfs.File.Cover.{holds, grants, grants-token_at}

-- The chain of `n + 1` tokens from `s` on.
chain-grants :
    (w : Bool) (n s : ℕ) (ps : List Permission) (x : ℕ)
    → all_range (suc n) s (λ i. not w || (token_at ps i).write) ≡ true
    → all_range n s (λ i. (token_at ps i).end == (token_at ps (suc i)).start) ≡ true
    → (token_at ps s).start ≤ x
    → x < (token_at ps (n + s)).end
    → grants w ps x ≡ true
unfolding all_range holds
chain-grants w zero s ps x ws c lo hi = grants-token_at w ps x s (ground (arith, add.zero s))
chain-grants w (suc n) s ps x ws c lo hi = elim (Bool-cases (ltb x (token_at ps s).end)) [
  | inl here ↦ grants-token_at w ps x s (ground arith)
  | inr there ↦
      let shifted : n + suc s ≡ suc n + s = omega arith in
      chain-grants w n (suc s) ps x (ground arith) (ground arith) (ground arith) (rw shifted hi)
]

all_range-true : (n s : ℕ) → all_range n s (λ i. true) ≡ true
unfolding all_range
all_range-true zero s = refl
all_range-true (suc n) s = all_range-true n (suc s)

writes :
    (write : Bool) (n s : ℕ) (ps : List Permission)
    → (write && not (all_range n s (λ i. (token_at ps i).write))) ≡ false
    → all_range n s (λ i. not write || (token_at ps i).write) ≡ true
writes true n s ps h = ground arith
writes false n s ps h = all_range-true n s

spans-grants :
    (start end : ℕ) (write : Bool) (s e : ℕ) (ps : List Permission) (x : ℕ)
    → s ≤ e
    → spans start end write s e ps ≡ true
    → start ≤ x
    → x < end
    → grants write ps x ≡ true
unfolding spans
spans-grants start end write s e ps x le h lo hi =
    let count : e + 1 - s ≡ suc (e - s) = omega arith in
    let last : e - s + s ≡ e = omega arith in
    let ws = writes write (e + 1 - s) s ps (ground arith) in
    chain-grants write (e - s) s ps x (rw count at ws) (ground arith) (ground arith)
      (rw last (ground arith))

-- A search from `s` on ends there or behind.
find_from-le :
    (p : Permission → Bool) (k : ℕ) (ps : List Permission) {e : ℕ}
    → find_from p k ps ≡ some e
    → k ≤ e
find_from-le p k [] h = cc
find_from-le p k (q ∷ ps) {e} h = elim (Bool-cases (p q)) [
  | inl hit ↦ ground arith
  | inr miss ↦ omega (arith, find_from-le p (suc k) ps {e = e} (ground arith))
]

find_from-lt :
    (p : Permission → Bool) (k : ℕ) (ps : List Permission) {e : ℕ}
    → find_from p k ps ≡ some e
    → e < k + length ps
find_from-lt p k [] h = cc
find_from-lt p k (q ∷ ps) {e} h = elim (Bool-cases (p q)) [
  | inl hit ↦ ground arith
  | inr miss ↦ omega (arith, find_from-lt p (suc k) ps {e = e} (ground arith))
]

start_index-lt :
    (start : ℕ) (p : Permission) (ps : List Permission) (s : ℕ)
    → start_index start (p ∷ ps) ≡ some s
    → s ≤ length ps
unfolding start_index
start_index-lt start p ps s h =
    elim (Option-cases (find_from (λ q. ltb start q.start) 0 (p ∷ ps))) [
      | inl e ↦ ground arith
      | inr (i, e) ↦
          ground (arith, find_from-lt (λ (q : Permission). ltb start q.start) 0 (p ∷ ps) {e = i} e)
    ]

end_index-le :
    (end s : ℕ) (p : Permission) (ps : List Permission)
    → s ≤ length ps
    → s ≤ end_index end s (p ∷ ps)
unfolding end_index
end_index-le end s p ps h =
    elim (Option-cases (find_from (λ q. leb end q.end) s (drop s (p ∷ ps)))) [
      | inl e ↦ ground arith
      | inr (i, e) ↦
          ground
            (arith, find_from-le (λ (q : Permission). leb end q.end) s (drop s (p ∷ ps)) {e = i} e)
    ]

-- When `hasPermission` says yes, every byte of the range is granted, and is granted for writing
-- if that was asked. The vector may be in any order.
pub has_permission-grants :
    (start end : ℕ) (write : Bool) (ps : List Permission) (x : ℕ)
    → has_permission start end write ps ≡ true
    → start ≤ x
    → x < end
    → grants write ps x ≡ true
unfolding has_permission
has_permission-grants start end write [] x h lo hi = cc
has_permission-grants start end write (p ∷ ps) x h lo hi =
    elim (Option-cases (start_index start (p ∷ ps))) [
      | inl e ↦ ground arith
      | inr (s, e) ↦
          spans-grants start end write s (end_index end s (p ∷ ps)) (p ∷ ps) x
            (end_index-le end s p ps (start_index-lt start p ps s e)) (ground arith) lo hi
    ]
