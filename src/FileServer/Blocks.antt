-- ===== src/FileServer/Blocks.antt =====
-- The bytes of a strip's file under a block write and a block read.
use pfs.Base.{
  ℕ, zero, suc, ◌+◌, ◌-◌, ◌<◌, ◌≤◌, ◌≡◌, refl, ap, inl, inr, Bool, true, ◌&&◌, List, [], ◌∷◌, arith,
  ltb, leb, ◌==◌, if◌then◌else◌, length, get_or, max, Bool-cases,
}
use pfs.FileServer.{put, write_dirty, read_bytes}

pub get_or-put :
    (p b q : ℕ) (f : List ℕ) → get_or (put p b f) q 0 ≡ (if q == p then b else get_or f q 0)
unfolding put
get_or-put zero b zero [] = refl
get_or-put zero b (suc q) [] = ground arith
get_or-put zero b zero (c ∷ cs) = refl
get_or-put zero b (suc q) (c ∷ cs) = ground arith
get_or-put (suc p) b zero [] = ground arith
get_or-put (suc p) b (suc q) [] = ground (arith, get_or-put p b q [])
get_or-put (suc p) b zero (c ∷ cs) = ground arith
get_or-put (suc p) b (suc q) (c ∷ cs) = ground (arith, get_or-put p b q cs)

pub length-put : (p b : ℕ) (f : List ℕ) → length (put p b f) ≡ max (length f) (suc p)
unfolding put
length-put zero b [] = omega arith
length-put zero b (c ∷ cs) = omega arith
length-put (suc p) b [] = omega (arith, length-put p b [])
length-put (suc p) b (c ∷ cs) = omega (arith, length-put p b cs)

-- A file never shrinks, and reaches behind the last byte that is written.
pub length-write_dirty :
    (n at : ℕ) (bytes : List ℕ) (dirty : ℕ → Bool) (i : ℕ) (f : List ℕ)
    → length f ≤ length (write_dirty n at bytes dirty i f)
unfolding write_dirty
length-write_dirty zero at bytes dirty i f = omega arith
length-write_dirty (suc n) at bytes dirty i f =
    let next : List ℕ = if dirty i then put (at + i) (get_or bytes i 0) f else f in
    ground (
      arith,
      length-write_dirty n at bytes dirty (suc i) next,
      length-put (at + i) (get_or bytes i 0) f,
    )

pub dirty-lt-length :
    (n at : ℕ) (bytes : List ℕ) (dirty : ℕ → Bool) (i k : ℕ) (f : List ℕ)
    → i ≤ k
    → k < i + n
    → dirty k ≡ true
    → at + k < length (write_dirty n at bytes dirty i f)
unfolding write_dirty
dirty-lt-length zero at bytes dirty i k f lo hi d = absurd (omega arith)
dirty-lt-length (suc n) at bytes dirty i k f lo hi d =
    let next : List ℕ = if dirty i then put (at + i) (get_or bytes i 0) f else f in
    elim (Bool-cases (i == k)) [
      | inl here ↦ ground (
        arith,
        length-write_dirty n at bytes dirty (suc i) next,
        length-put (at + i) (get_or bytes i 0) f,
      )
      | inr later ↦ dirty-lt-length n at bytes dirty (suc i) k next (ground arith) (omega arith) d
    ]

-- What the loop leaves at each position.
pub get_or-write_dirty :
    (n at : ℕ) (bytes : List ℕ) (dirty : ℕ → Bool) (i q : ℕ) (f : List ℕ)
    → get_or (write_dirty n at bytes dirty i f) q 0 ≡ (
        if leb (at + i) q && ltb q (at + i + n) && dirty (q - at)
        then get_or bytes (q - at) 0
        else get_or f q 0)
unfolding write_dirty
get_or-write_dirty zero at bytes dirty i q f = ground arith
get_or-write_dirty (suc n) at bytes dirty i q f =
    let next : List ℕ = if dirty i then put (at + i) (get_or bytes i 0) f else f in
    let ih = get_or-write_dirty n at bytes dirty (suc i) q next in
    let one = get_or-put (at + i) (get_or bytes i 0) q f in
    elim (Bool-cases (q == at + i)) [
      | inl here ↦
          let e : q - at ≡ i = ground arith in
          let de : dirty (q - at) ≡ dirty i = ap dirty e in
          let be : get_or bytes (q - at) 0 ≡ get_or bytes i 0 = ap (λ j. get_or bytes j 0) e in
          ground arith
      | inr elsewhere ↦ ground arith
    ]

pub get_or-read_bytes :
    (n at : ℕ) (content : List ℕ) (junk : ℕ → ℕ) (i k : ℕ)
    → k < n
    → get_or (read_bytes n at content junk i) k 0 ≡ (
        if ltb (at + (i + k)) (length content)
        then get_or content (at + (i + k)) 0
        else junk (i + k))
unfolding read_bytes
get_or-read_bytes zero at content junk i k h = elim h [ ]
get_or-read_bytes (suc n) at content junk i zero h = let e : i + 0 ≡ i = omega arith in rw e refl
get_or-read_bytes (suc n) at content junk i (suc k) h =
    let e : i + suc k ≡ suc i + k = omega arith in
    rw e (get_or-read_bytes n at content junk (suc i) k (omega arith))
