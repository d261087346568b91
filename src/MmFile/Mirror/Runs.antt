-- ===== src/MmFile/Mirror/Runs.antt =====
-- The life of a file, at the metadata manager and at its clients, with the replies on their way.
use pfs.Base.{
  ℕ, ◌<◌, ◌≤◌, ◌≡◌, ◌≢◌, refl, sym, ap, ◌∙◌, inl, inr, Bool, true, false, [], String, lookup,
  Bool-cases,
}
use pfs.File.{has_permission, await_unlocked}
use pfs.File.Cover.{grants}
use pfs.File.Has.{has_permission-grants}
use pfs.File.Bare.{bare_all, grants-bare_all}
use pfs.File.Bare.Revokes.{await_unlocked-bare_all}
use pfs.Client.{unlock_permission}
use pfs.MmFile.{close_by, MmFile, Permits, ClientPermissions}
use pfs.MmFile.Others.{permits_of, grants-weaken}
use pfs.MmFile.Reach.{Step, Reach, here, next, Reach-IsExclusive}
use pfs.MmFile.Mirror.{
  Vectors, Flights, idle, is_idle, Run, starts, opens, closes, drops, informs, asks, enters,
  unlocks, waits,
}
use pfs.MmFile.Mirror.Flights.{
  settled, settle-idle, same-IsMirrored, asks-settled, enters-settled, closes-settled,
  drops-settled, settled-kept,
}
use pfs.MmFile.Mirror.Requests.{IsMap}
use pfs.MmFile.Mirror.Kept.{
  IsMirrored, unlock_permission-bare_all, open_by-IsMirrored, close_by-IsMirrored,
  answer-IsMirrored,
}

module _ (first : MmFile) (closed : first.client_permissions ≡ []) where
  first-IsMirrored :
      (m : ClientPermissions) → m ≡ [] → IsMap m × ((q : String) → [] ≡ bare_all (permits_of q m))
  unfolding permits_of lookup
  first-IsMirrored m e = rw e (tt, λ q. refl)

  -- The vectors are in line once what is on its way has arrived.
  Run-IsMirrored :
      (f : MmFile) (held : Vectors) (flights : Flights)
      → Run first f held flights
      → IsMirrored f (settled flights held)
  Run-IsMirrored _ _ _ starts =
      same-IsMirrored first (λ q. []) (settled (λ q. idle) (λ q. []))
        (λ q. settle-idle idle [] refl) (first-IsMirrored first.client_permissions closed)
  Run-IsMirrored _ _ _ (opens {f} {held} {flights} peer r) =
      open_by-IsMirrored peer f (settled flights held) (Run-IsMirrored f held flights r)
  Run-IsMirrored _ _ _ (closes {f} {held} {flights} peer r opened free) =
      same-IsMirrored (close_by peer f).0 _ _ (closes-settled peer held flights)
        (close_by-IsMirrored peer f (settled flights held) (Run-IsMirrored f held flights r))
  Run-IsMirrored _ _ _ (drops {f} {held} {flights} peer r due) =
      same-IsMirrored f _ _ (drops-settled peer held flights due) (Run-IsMirrored f held flights r)
  Run-IsMirrored _ _ _ (informs {f} {held} {flights} info r) = Run-IsMirrored f held flights r
  Run-IsMirrored _ _ _ (asks {f} {held} {flights} peer start end iswrite a r answer free spared) =
      same-IsMirrored a.file _ _ (asks-settled peer held flights iswrite a free spared) (
        answer-IsMirrored peer start end iswrite f a (settled flights held) answer
          (Run-IsMirrored f held flights r))
  Run-IsMirrored _ _ _ (enters {f} {held} {flights} peer iswrite permit r due) =
      same-IsMirrored f _ _ (enters-settled peer held flights iswrite permit due)
        (Run-IsMirrored f held flights r)
  Run-IsMirrored _ _ _ (unlocks {f} {held} {flights} peer start end r) =
      let (map, same) = Run-IsMirrored f held flights r in
      (
        map,
        λ q.
            settled-kept peer held flights (λ ps. (unlock_permission start end ps).0)
              (unlock_permission-bare_all start end) q
            ∙ same q,
      )
  Run-IsMirrored _ _ _ (waits {f} {held} {flights} peer sem start end r) =
      let (map, same) = Run-IsMirrored f held flights r in
      (
        map,
        λ q.
            settled-kept peer held flights (λ ps. (await_unlocked sem start end ps).0)
              (await_unlocked-bare_all sem start end) q
            ∙ same q,
      )

  Run-Reach :
      (f : MmFile) (held : Vectors) (flights : Flights) → Run first f held flights → Reach first f
  Run-Reach _ _ _ starts = here
  Run-Reach _ _ _ (opens {f} {held} {flights} peer r) =
      next (Run-Reach f held flights r) (Step.opens peer refl)
  Run-Reach _ _ _ (closes {f} {held} {flights} peer r opened free) =
      next (Run-Reach f held flights r) (Step.closes peer refl)
  Run-Reach _ _ _ (drops {f} {held} {flights} peer r due) = Run-Reach f held flights r
  Run-Reach _ _ _ (informs {f} {held} {flights} info r) =
      next (Run-Reach f held flights r) (Step.informs info refl)
  Run-Reach _ _ _ (asks {f} {held} {flights} peer start end iswrite a r answer free spared) =
      next (Run-Reach f held flights r) (Step.grant peer start end iswrite a answer refl)
  Run-Reach _ _ _ (enters {f} {held} {flights} peer iswrite permit r due) =
      Run-Reach f held flights r
  Run-Reach _ _ _ (unlocks {f} {held} {flights} peer start end r) = Run-Reach f held flights r
  Run-Reach _ _ _ (waits {f} {held} {flights} peer sem start end r) = Run-Reach f held flights r

  -- What may be read or written is at least granted.
  reads_too : (w : Bool) (ps : Permits) (x : ℕ) → grants w ps x ≡ true → grants false ps x ≡ true
  reads_too true ps x h = grants-weaken false ps x h
  reads_too false ps x h = h

  -- The clients of a file that nobody had open open and close it, ask for ranges, enter the replies,
  -- unlock and wait, in any order, with steps of the others between the parts of a request; but no reply
  -- to a client is overtaken by another request of its own for the file, or by a revocation that is sent
  -- to it, and each `closeFile` drops this file. Then the vector of each client with no reply on its way to it grants, byte for byte, what the
  -- metadata manager has for it. So when such a client's `hasPermission` says that it may write a range,
  -- no other such client's says of a range with a byte of it that it may read or write there.
  pub Run-grants :
      (f : MmFile) (held : Vectors) (flights : Flights)
      → Run first f held flights
      → ((q : String) (w : Bool) (x : ℕ)
          → is_idle (flights q) ≡ true
          → grants w (held q) x ≡ grants w (permits_of q f.client_permissions) x)
        × ((p q : String) (from to from' to' x : ℕ) (w : Bool)
            → p ≢ q
            → is_idle (flights p) ≡ true
            → is_idle (flights q) ≡ true
            → has_permission from to true (held p) ≡ true
            → from ≤ x
            → x < to
            → from' ≤ x
            → x < to'
            → has_permission from' to' w (held q) ≡ false)
  Run-grants f held flights r =
      let (_, same) = Run-IsMirrored f held flights r in
      let agree : (q : String) (w : Bool) (x : ℕ)
          → is_idle (flights q) ≡ true
          → grants w (held q) x ≡ grants w (permits_of q f.client_permissions) x =
        λ q w x calm.
          sym (grants-bare_all w (held q) x)
          ∙ ap (λ ps. grants w ps x)
              (sym (ap bare_all (settle-idle (flights q) (held q) calm)) ∙ same q)
          ∙ grants-bare_all w (permits_of q f.client_permissions) x in
      (
        agree,
        λ p q from to from' to' x w ne calm calm' may lo hi lo' hi'.
            elim (Bool-cases (has_permission from' to' w (held q))) [
              | inr refused ↦ refused
              | inl may' ↦
                  let m : ClientPermissions = f.client_permissions in
                  let writes : grants true (permits_of p m) x ≡ true =
                    sym (agree p true x calm)
                    ∙ has_permission-grants from to true (held p) x may lo hi in
                  let holds : grants false (permits_of q m) x ≡ true =
                    sym (agree q false x calm')
                    ∙ reads_too w (held q) x
                        (has_permission-grants from' to' w (held q) x may' lo' hi') in
                  absurd (
                    cc (
                      Reach-IsExclusive first f closed (Run-Reach f held flights r) p q ne x writes,
                      holds,
                    ))
            ],
      )
