-- ===== src/MmFile/Answers.antt =====
-- What `waitAndGetPermissionFor` answers, and the range that it grants.
use pfs.Base.{
  ◌≤◌, ◌<◌, ℕ, ◌^◌, ◌≡◌, inl, inr, Bool, false, some, List, String, arith, lookup, insert,
  Option-cases,
}
use pfs.File.{add_permission}
use pfs.MmFile.Others.{permits_of, revoke_others_self}
use pfs.MmFile.{
  int_max, MmFile, Permits, ClientPermissions, Answer, revoke_others, granted,
  wait_and_get_permission_for, revocation, map_requests,
}

module _ (peer : String) (start end : ℕ) (iswrite : Bool) (m : ClientPermissions) where
  -- The range that is granted, and the vectors after the loop.
  unfoldable pub low : ℕ
  low =
      (granted start end iswrite (revoke_others peer start end iswrite m).1
        (revoke_others peer start end iswrite m).2).start

  unfoldable pub high : ℕ
  high =
      (granted start end iswrite (revoke_others peer start end iswrite m).1
        (revoke_others peer start end iswrite m).2).end

  unfoldable pub others : ClientPermissions
  others = (revoke_others peer start end iswrite m).0

  pub others-own :
      (permits : Permits) → lookup peer others ≡ some permits → permits ≡ permits_of peer m
  unfolding others permits_of
  others-own permits e = ground (arith, revoke_others_self peer start end iswrite m)

-- A successful call writes the client's new vector into the map that the loop left.
pub answer_map :
    (peer : String) (start end : ℕ) (iswrite : Bool) (f : MmFile) (a : Answer)
    → wait_and_get_permission_for peer start end iswrite f ≡ some a
    → (permits : Permits) × (lookup peer (others peer start end iswrite f.client_permissions)
        ≡ some permits)
      × (a.file.client_permissions
          ≡ insert peer
              (add_permission
                (low peer start end iswrite f.client_permissions)
                (high peer start end iswrite f.client_permissions)
                iswrite
                false
                permits)
              (others peer start end iswrite f.client_permissions))
unfolding wait_and_get_permission_for others low high
answer_map peer start end iswrite f a h =
    elim (Option-cases
      (lookup peer (revoke_others peer start end iswrite f.client_permissions).0)) [
        | inl e ↦ let none_left = rw (e, wait_and_get_permission_for) at h in cc
        | inr (permits, e) ↦ (permits, e, ground arith)
      ]

-- The reply carries the range that is granted, and a request goes to each client that was asked.
pub answer_requests :
    (peer : String) (start end : ℕ) (iswrite : Bool) (f : MmFile) (a : Answer)
    → wait_and_get_permission_for peer start end iswrite f ≡ some a
    → (a.permit.start ≡ low peer start end iswrite f.client_permissions)
      × (a.permit.end ≡ high peer start end iswrite f.client_permissions)
      × (a.revocations
          ≡ map_requests
              (revocation f start end iswrite)
              (revoke_others peer start end iswrite f.client_permissions).1)
unfolding wait_and_get_permission_for others low high
answer_requests peer start end iswrite f a h =
    elim (Option-cases
      (lookup peer (revoke_others peer start end iswrite f.client_permissions).0)) [
        | inl e ↦ let none_left = rw (e, wait_and_get_permission_for) at h in absurd cc
        | inr (permits, e) ↦ (ground arith, ground arith, ground arith)
      ]

granted-covers :
    (start end : ℕ) (iswrite : Bool) (asked : List String) (first : Bool) (x : ℕ)
    → end ≤ int_max
    → start ≤ x
    → x < end
    → ((granted start end iswrite asked first).start ≤ x)
      × (x < (granted start end iswrite asked first).end)
      × ((granted start end iswrite asked first).end < 2 ^ 31)
unfolding granted
granted-covers start end iswrite asked first x fits lo hi = ground arith

-- The range that is granted holds the one asked for.
pub range-covers :
    (peer : String) (start end : ℕ) (iswrite : Bool) (m : ClientPermissions) (x : ℕ)
    → end ≤ int_max
    → start ≤ x
    → x < end
    → (low peer start end iswrite m ≤ x)
      × (x < high peer start end iswrite m)
      × (high peer start end iswrite m < 2 ^ 31)
unfolding low high
range-covers peer start end iswrite m x fits lo hi =
    let r = revoke_others peer start end iswrite m in
    granted-covers start end iswrite r.1 r.2 x fits lo hi

pub answer_found :
    (peer : String) (start end : ℕ) (iswrite : Bool) (f : MmFile) (permits : Permits)
    → lookup peer (revoke_others peer start end iswrite f.client_permissions).0 ≡ some permits
    → (a : Answer) × (wait_and_get_permission_for peer start end iswrite f ≡ some a)
unfolding wait_and_get_permission_for
answer_found peer start end iswrite f permits e =
    elim (Option-cases (wait_and_get_permission_for peer start end iswrite f)) [
      | inl n ↦ let gone = rw (e, wait_and_get_permission_for) at n in cc
      | inr found ↦ found
    ]
