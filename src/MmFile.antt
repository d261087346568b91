-- ===== src/MmFile.antt =====
-- metadata_manager/mm_file.cpp and include/mm_file.h: a file as the metadata manager keeps it,
-- with a vector of permissions for each client that has it open. A client is named by its peer
-- string. Each method holds the file's mutex from start to end, so a method is one step; the
-- revocations that `waitAndGetPermissionFor` sends are answered before it returns, and are given
-- with its result.
pub mod Others
pub mod Answers
pub mod Exclusive
pub mod Reach
pub mod Mirror
use pfs.Base.{
  ℕ, ◌-◌, ◌^◌, Bool, true, false, not, ◌&&◌, ◌||◌, Option, none, some, List, [], ◌∷◌, String,
  str_eq, if◌then◌else◌, lookup, insert, erase,
}
use pfs.Permission.{Permission, permission, is_shared}
use pfs.File.{add_permission, revoke_permission}
use pfs.File.Info.{FileInfo}

abbrev pub Permits : Type 0
Permits = List Permission

-- `clientPermissions`
abbrev pub ClientPermissions : Type 0
ClientPermissions = List (String × Permits)

pub record MmFile : Type 0 where
  pub info : FileInfo
  pub client_permissions : ClientPermissions

-- A `RevokePermissionRequest`, with the client that it goes to.
pub record RevokeRequest : Type 0 where
  pub peer : String
  pub name : String
  pub start : ℕ
  pub end : ℕ
  pub is_write : Bool

unfoldable pub open_by : String → MmFile → MmFile × Bool
open_by peer f = elim (lookup peer f.client_permissions) [
  | none ↦ (record f { client_permissions = insert peer [] f.client_permissions }, true)
  | some permits ↦ (f, false)
]

unfoldable pub close_by : String → MmFile → MmFile × Bool
close_by peer f = elim (lookup peer f.client_permissions) [
  | none ↦ (f, false)
  | some permits ↦ (record f { client_permissions = erase peer f.client_permissions }, true)
]

abbrev pub is_empty {ℓ} : {A : Type ℓ} → List A → Bool
is_empty [] = true
is_empty (a ∷ rest) = false

unfoldable pub is_open : MmFile → Bool
is_open f = not (is_empty f.client_permissions)

unfoldable pub is_opened_by : String → MmFile → Bool
is_opened_by peer f = elim (lookup peer f.client_permissions) [ none ↦ false | some permits ↦ true ]

-- The inner loop's test: some permission of another client stands in the way.
pub conflicts : ℕ → ℕ → Bool → Permits → Bool
unfolding is_shared
conflicts start end iswrite [] = false
conflicts start end iswrite (p ∷ ps) =
    ((p.write || iswrite) && is_shared start end p) || conflicts start end iswrite ps

-- The loop over the other clients. Beside the map it ends with the clients that are asked to
-- give up the range (`threads`) and with `firstPermit`.
pub revoke_others :
    String → ℕ → ℕ → Bool → ClientPermissions → ClientPermissions × List String × Bool
unfolding conflicts revoke_permission
revoke_others peer start end iswrite [] = ([], [], true)
revoke_others peer start end iswrite ((other, permits) ∷ m) =
    let (rest, asked, first) = revoke_others peer start end iswrite m in
    if str_eq other peer
    then ((other, permits) ∷ rest, asked, first)
    else if conflicts start end iswrite permits
    then ((other, revoke_permission start end permits) ∷ rest, other ∷ asked, false)
    else ((other, permits) ∷ rest, asked, is_empty permits && first)

abbrev pub int_max : ℕ
int_max = 2 ^ 31 - 1

-- The range that is granted: the one asked for, or the whole file for the only holder.
pub granted : ℕ → ℕ → Bool → List String → Bool → Permission
granted start end iswrite asked first =
    if not (is_empty asked) || not first
    then permission start end iswrite
    else permission 0 int_max iswrite

pub record Answer : Type 0 where
  pub permit : Permission
  pub file : MmFile
  pub revocations : List RevokeRequest

pub revocation : MmFile → ℕ → ℕ → Bool → String → RevokeRequest
revocation f start end iswrite peer = record {
  peer = peer;
  name = f.info.name;
  start = start;
  end = end;
  is_write = iswrite;
}

pub map_requests : (String → RevokeRequest) → List String → List RevokeRequest
map_requests f [] = []
map_requests f (p ∷ ps) = f p ∷ map_requests f ps

-- `waitAndGetPermissionFor`. `none` is the use of the null pointer that `clientPermissions[peer]`
-- yields for a client that has not opened the file.
unfoldable pub wait_and_get_permission_for : String → ℕ → ℕ → Bool → MmFile → Option Answer
unfolding revoke_others granted add_permission revocation map_requests
wait_and_get_permission_for peer start end iswrite f =
    let (others, asked, first) = revoke_others peer start end iswrite f.client_permissions in
    let permit : Permission = granted start end iswrite asked first in
    elim (lookup peer others) [
      | none ↦ none
      | some permits ↦ some (record {
        permit = permit;
        file = record f {
          client_permissions =
              insert peer (add_permission permit.start permit.end iswrite false permits) others;
        };
        revocations = map_requests (revocation f start end iswrite) asked;
      })
    ]
