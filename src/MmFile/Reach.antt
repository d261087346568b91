-- ===== src/MmFile/Reach.antt =====
-- The life of a file at the metadata manager, as steps that the clients choose.
use pfs.Base.{
  ℕ, ◌<◌, ◌≤◌, ◌≡◌, sym, subst, ◌∙◌, inl, inr, Bool, true, false, some, [], String, arith,
  str_eq_refl, lookup, Option-cases,
}
use pfs.File.Cover.{grants}
use pfs.File.Info.{FileInfo}
use pfs.File.Granted.{add_permission-grants}
use pfs.MmFile.{
  MmFile, ClientPermissions, Answer, open_by, close_by, wait_and_get_permission_for, is_opened_by,
  int_max,
}
use pfs.MmFile.Others.{IsExclusive, permits_of, nothing-grants, revoke_others_self}
use pfs.MmFile.Answers.{low, high, others, answer_map, range-covers, answer_found}
use pfs.MmFile.Exclusive.{
  insert_self, wait_and_get-IsExclusive, open_by-IsExclusive, close_by-IsExclusive,
}

pub data Step (f g : MmFile) : Type 0 where
  opens : (peer : String) → g ≡ (open_by peer f).0 → Step f g
  closes : (peer : String) → g ≡ (close_by peer f).0 → Step f g
  -- `CloseFile` writes the time and the size first.
  informs : (info : FileInfo) → g ≡ record f { info = info } → Step f g
  grant :
      (peer : String) (start end : ℕ) (iswrite : Bool) (a : Answer)
      → wait_and_get_permission_for peer start end iswrite f ≡ some a
      → g ≡ a.file
      → Step f g

pub data Reach (f : MmFile) : MmFile → Type 0 where
  here : Reach f f
  next : {g h : MmFile} → Reach f g → Step g h → Reach f h

Step-IsExclusive :
    {f g : MmFile} → Step f g → IsExclusive f.client_permissions → IsExclusive g.client_permissions
Step-IsExclusive {f} (opens peer e) ex =
    subst (λ h. IsExclusive h.client_permissions) (sym e) (open_by-IsExclusive peer f ex)
Step-IsExclusive {f} (closes peer e) ex =
    subst (λ h. IsExclusive h.client_permissions) (sym e) (close_by-IsExclusive peer f ex)
Step-IsExclusive (informs info e) ex = subst (λ h. IsExclusive h.client_permissions) (sym e) ex
Step-IsExclusive {f} (grant peer start end iswrite a answer e) ex =
    subst (λ h. IsExclusive h.client_permissions) (sym e)
      (wait_and_get-IsExclusive peer start end iswrite f a ex answer)

empty-IsExclusive : (m : ClientPermissions) → m ≡ [] → IsExclusive m
unfolding permits_of lookup
empty-IsExclusive m e p q ne x g =
    absurd (nothing-grants true x (subst (λ n. grants true (permits_of p n) x ≡ true) e g))

-- However the clients open and close the file and ask for ranges, from a file that nobody has open:
-- no byte that one client may write is granted to another.
pub Reach-IsExclusive :
    (f g : MmFile) → f.client_permissions ≡ [] → Reach f g → IsExclusive g.client_permissions
Reach-IsExclusive f f' e here = empty-IsExclusive f.client_permissions e
Reach-IsExclusive f h e (next {g} r st) = Step-IsExclusive st (Reach-IsExclusive f g e r)

-- A client that is answered holds every byte of the range that it asked for, for writing if it asked
-- for that, if the range ends at `INT_MAX` or before.
pub wait_and_get-grants :
    (peer : String) (start end : ℕ) (iswrite : Bool) (f : MmFile) (a : Answer) (x : ℕ)
    → wait_and_get_permission_for peer start end iswrite f ≡ some a
    → end ≤ int_max
    → start ≤ x
    → x < end
    → grants iswrite (permits_of peer a.file.client_permissions) x ≡ true
wait_and_get-grants peer start end iswrite f a x h fits lo hi =
    let (permits, e, result) = answer_map peer start end iswrite f a h in
    let m : ClientPermissions = f.client_permissions in
    let range = range-covers peer start end iswrite m x fits lo hi in
    rw (result, insert_self peer _ (others peer start end iswrite m) peer (str_eq_refl peer))
      (add_permission-grants (low peer start end iswrite m) (high peer start end iswrite m) iswrite
        false permits x (inr range.2) range.0 range.1)

-- For a client that has the file open `waitAndGetPermissionFor` does not reach the null pointer.
pub wait_and_get-answers :
    (peer : String) (start end : ℕ) (iswrite : Bool) (f : MmFile)
    → is_opened_by peer f ≡ true
    → (a : Answer) × (wait_and_get_permission_for peer start end iswrite f ≡ some a)
unfolding wait_and_get_permission_for is_opened_by
wait_and_get-answers peer start end iswrite f h =
    elim (Option-cases (lookup peer f.client_permissions)) [
      | inl e ↦ ground arith
      | inr (permits, e) ↦
          let kept = revoke_others_self peer start end iswrite f.client_permissions ∙ e in
          answer_found peer start end iswrite f permits kept
    ]
