-- ===== src/Client/Descriptors.antt =====
-- The table of open files: descriptors, and the index that `closeFile` keeps in a `bool`.
use pfs.Base.{
  subst, ℕ, suc, ◌-◌, get_or, Bool-cases, inl, inr, ==_iff, ◌+◌, ◌≤◌, ◌≡◌, refl, ap, ◌∙◌, Bool,
  List, [], ◌∷◌, ◌++◌, arith, ◌==◌, length, find_from, erase_range, some, String,
}
use pfs.Base.Int.{pos}
use pfs.Manager.{FileStatReply}
use pfs.Client.{
  PfsClient, ClientFile, no_file, file_at, find_descriptor, opened, close_request, close_reply,
}

-- Every descriptor has been handed out.
abbrev pub AllIssued : List ClientFile → ℕ → Type 0
AllIssued [] n = Unit {0}
AllIssued (f ∷ fs) n = (f.descriptor ≤ n) × AllIssued fs n

find_from-append :
    (n i : ℕ) (fs : List ClientFile) (f : ClientFile)
    → AllIssued fs n
    → f.descriptor ≡ suc n
    → find_from (λ g. g.descriptor == suc n) i (fs ++ f ∷ []) ≡ some (i + length fs)
find_from-append n i [] f a e = ground arith
find_from-append n i (g ∷ fs) f a e = ground (arith, find_from-append n (suc i) fs f a.1 e)

AllIssued-append :
    (n : ℕ) (fs : List ClientFile) (f : ClientFile)
    → AllIssued fs n
    → f.descriptor ≡ suc n
    → AllIssued (fs ++ f ∷ []) (suc n)
AllIssued-append n [] f a e = (omega arith, tt)
AllIssued-append n (g ∷ fs) f a e = (omega (arith, a.0), AllIssued-append n fs f a.1 e)

-- A file that is opened gets a descriptor that no open file has, and is found under it, behind the
-- others; descriptors stay within those handed out.
pub opened-find_descriptor :
    (name : String) (reply : FileStatReply) (c : PfsClient)
    → AllIssued c.opened_files c.descriptor_count
    → let r = opened name 0 reply c in
      (r.1 ≡ pos r.0.descriptor_count)
      × AllIssued r.0.opened_files r.0.descriptor_count
      × (find_descriptor r.0.descriptor_count r.0 ≡ some (length c.opened_files))
unfolding opened find_descriptor
opened-find_descriptor name reply c a =
    let place : 0 + length c.opened_files ≡ length c.opened_files = omega arith in
    (
      refl,
      AllIssued-append c.descriptor_count c.opened_files _ a refl,
      find_from-append c.descriptor_count 0 c.opened_files _ a refl ∙ ap some place,
    )

find_from-pred :
    (p : ClientFile → Bool) (k m : ℕ) (fs : List ClientFile)
    → find_from p (suc k) fs ≡ some (suc m)
    → find_from p k fs ≡ some m
find_from-pred p k m [] h = cc
find_from-pred p k m (f ∷ fs) h = ground (arith, find_from-pred p (suc k) m fs)

find_from-erase_second :
    (p : ClientFile → Bool) (fs : List ClientFile) (i : ℕ)
    → find_from p 0 fs ≡ some (suc (suc i))
    → find_from p 0 (erase_range 1 1 fs) ≡ some (suc i)
find_from-erase_second p [] i h = cc
find_from-erase_second p (f ∷ []) i h = ground arith
find_from-erase_second p (f ∷ g ∷ fs) i h = ground (arith, find_from-pred p 1 (suc i) fs)

-- Closing the third open file, or a later one, erases the second: the file is still open afterwards,
-- under its descriptor, and the second is gone. The request names the right file, and carries the
-- size of the wrong one.
pub close_reply_wrong :
    (filedes i : ℕ) (c : PfsClient)
    → find_descriptor filedes c ≡ some (suc (suc i))
    → let r = close_request filedes c in
      let c' = (close_reply r 0 c).0 in
      (r.name ≡ (file_at c (suc (suc i))).info.name)
      × (r.size ≡ (file_at c 1).info.pst_size)
      × (c'.opened_files ≡ erase_range 1 1 c.opened_files)
      × (find_descriptor filedes c' ≡ some (suc i))
unfolding close_request close_reply find_descriptor
close_reply_wrong filedes i c h = (
  ground arith,
  ground arith,
  ground arith,
  rw h (find_from-erase_second (λ f. f.descriptor == filedes) c.opened_files i h),
)

find_from-found :
    (n i : ℕ) (fs : List ClientFile) (j : ℕ)
    → find_from (λ f. f.descriptor == n) i fs ≡ some j
    → (i ≤ j) × ((get_or fs (j - i) no_file).descriptor ≡ n)
find_from-found n i [] j h = absurd (ground arith)
find_from-found n i (f ∷ fs) j h = elim (Bool-cases (f.descriptor == n)) [
  | inl eq ↦
      let same : i ≡ j = ground arith in
      let first : j - i ≡ 0 = omega arith in (omega arith, rw first ((==_iff f.descriptor n).0 eq))
  | inr ne ↦
      let rest : find_from (λ g. g.descriptor == n) (suc i) fs ≡ some j = ground arith in
      let (later, found) = find_from-found n (suc i) fs j rest in
      let next : j - i ≡ suc (j - suc i) = omega arith in (omega arith, rw next found)
]

-- A descriptor is the one of the file that it is found at.
pub find_descriptor-file_at :
    (filedes found_at : ℕ) (c : PfsClient)
    → find_descriptor filedes c ≡ some found_at
    → (file_at c found_at).descriptor ≡ filedes
unfolding find_descriptor
find_descriptor-file_at filedes found_at c h =
    let from_first : found_at - 0 ≡ found_at = omega arith in
    subst (λ i. (get_or c.opened_files i no_file).descriptor ≡ filedes) from_first
      (find_from-found filedes 0 c.opened_files found_at h).1
