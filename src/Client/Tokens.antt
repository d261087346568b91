-- ===== src/Client/Tokens.antt =====
-- A client's tokens: what an acquisition, a reply and a revocation leave it with, and the lock on a
-- token that is not given back.
use pfs.Base.{
  ℕ, zero, suc, ◌<◌, ◌≤◌, ◌^◌, ◌≡◌, refl, inl, inr, ◌⊎◌, Bool, true, false, List, [], ◌∷◌, arith,
  length, get_or, modify_at, Option-cases, i32_lt,
}
use native.Mathlib.Nat.{mod-eq_of_lt}
use pfs.Permission.{permission, lock, unlock, is_shared}
use pfs.File.{add_permission}
use pfs.File.Cover.{grants}
use pfs.File.Has.{has_permission-grants}
use pfs.File.Granted.{add_permission-grants}
use pfs.Client.{
  PfsClient, ClientFile, held, no_file, file_at, find_descriptor, acquire_permission,
  permission_reply, unlock_permission, set_permissions,
}

-- When `acquirePermission` finds that nothing has to be asked for, the client is granted every byte
-- of the range, for writing if that is asked.
pub acquire_permission-held :
    (filedes start end : ℕ) (write : Bool) (c : PfsClient) (i x : ℕ)
    → start < 2 ^ 32
    → end < 2 ^ 32
    → acquire_permission filedes start end write c ≡ held i
    → start ≤ x
    → x < end
    → grants write (file_at c i).permissions x ≡ true
unfolding acquire_permission
acquire_permission-held filedes start end write c i x fs fe h lo hi =
    elim (Option-cases (find_descriptor filedes c)) [
      | inl e ↦ ground arith
      | inr (j, e) ↦
          has_permission-grants start end write (file_at c i).permissions x
            (ground (arith, mod-eq_of_lt fs, mod-eq_of_lt fe)) lo hi
    ]

get_or-modify_at :
    (i : ℕ) (g : ClientFile → ClientFile) (fs : List ClientFile)
    → i < length fs
    → get_or (modify_at i g fs) i no_file ≡ g (get_or fs i no_file)
get_or-modify_at i g [] h = absurd (omega arith)
get_or-modify_at zero g (f ∷ fs) h = refl
get_or-modify_at (suc i) g (f ∷ fs) h = get_or-modify_at i g fs (omega arith)

-- After a grant is entered the client is granted every byte of it. A range for reading ends below
-- `2 ^ 31`.
pub permission_reply-grants :
    (i start end : ℕ) (write : Bool) (c : PfsClient) (x : ℕ)
    → i < length c.opened_files
    → (write ≡ true) ⊎ (end < 2 ^ 31)
    → start ≤ x
    → x < end
    → grants write (file_at (permission_reply i 0 start end write c).0 i).permissions x ≡ true
unfolding permission_reply
permission_reply-grants i start end write c x inside fits lo hi =
    rw
      (get_or-modify_at i
        (λ f. set_permissions (add_permission start end write true f.permissions) f) c.opened_files
        inside)
      (add_permission-grants start end write true (file_at c i).permissions x fits lo hi)

-- A read of the range next to a token for writing leaves that token locked when it is done:
-- `addPermission` locks every token that touches the range, and `unlockPermission` of the same range
-- unlocks those that overlap it. The range ends below `2 ^ 31`.
pub unlock-add_permission_adjacent :
    (a b c : ℕ)
    → a < b
    → b < c
    → c < 2 ^ 31
    → (unlock_permission b c (add_permission b c false true (permission a b true ∷ []))).0
      ≡ lock (permission a b true) ∷ permission b c false ∷ []
unfolding unlock_permission add_permission lock unlock is_shared i32_lt
unlock-add_permission_adjacent a b c lo hi fits = ground arith
