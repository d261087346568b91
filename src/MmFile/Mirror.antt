-- ===== src/MmFile/Mirror.antt =====
-- A file at the metadata manager and at all its clients: `GetPermission`, the `RevokePermission` that
-- it sends, and what the clients enter and give up in their own vectors (metadata_manager/mm_file.cpp,
-- client/pfs_client.cpp, client/client_file.cpp, common/file.cpp).
pub mod Requests
pub mod Kept
pub mod Flights
pub mod Runs
use pfs.Base.{
  ℕ, ◌+◌, ◌≡◌, Bool, true, false, ◌&&◌, some, List, [], ◌∷◌, String, str_eq, if◌then◌else◌,
}
use pfs.Permission.{Permission}
use pfs.File.{add_permission, revoke_permission, await_unlocked}
use pfs.File.Info.{FileInfo}
use pfs.Client.{unlock_permission}
use pfs.MmFile.{
  MmFile, Permits, RevokeRequest, Answer, open_by, close_by, is_opened_by,
  wait_and_get_permission_for,
}

-- The vector that each client keeps for the file; it is empty where the file is not open.
abbrev pub Vectors : Type 0
Vectors = String → Permits

abbrev pub change_of : String → (Permits → Permits) → Vectors → Vectors
change_of peer f held q = if str_eq peer q then f (held q) else held q

-- The clients take the revocations, each its own.
unfoldable pub deliver : List RevokeRequest → Vectors → Vectors
deliver [] held = held
deliver (r ∷ rs) held = deliver rs (change_of r.peer (revoke_permission r.start r.end) held)

-- The client that asked enters the reply.
abbrev pub enter : String → Bool → Permission → Vectors → Vectors
enter peer iswrite permit held =
    change_of peer (add_permission permit.start permit.end iswrite true) held

-- What is on its way to a client for the file: nothing, the reply to a request for a range, or the reply
-- to `CloseFile`.
pub data Flight : Type 0 where
  idle : Flight
  granting : Bool → Permission → Flight
  closing : Flight

abbrev pub Flights : Type 0
Flights = String → Flight

abbrev pub is_idle : Flight → Bool
is_idle idle = true
is_idle (granting iswrite permit) = false
is_idle closing = false

abbrev pub set_flight : String → Flight → Flights → Flights
set_flight peer flight flights q = if str_eq peer q then flight else flights q

-- The revocations go to clients with nothing on its way to them.
abbrev pub all_idle : List RevokeRequest → Flights → Bool
all_idle [] flights = true
all_idle (r ∷ rs) flights = is_idle (flights r.peer) && all_idle rs flights

-- The life of a file. The metadata manager's part of a request and the client's entry of the reply are
-- two steps, with steps of the other clients between them, and so are the two parts of `closeFile`.
-- Left out is what the code does not prevent: that a reply to a client is overtaken by another request
-- of its own for the file, or by a revocation that is sent to it. A `closeFile` is that of a client that
-- has the file open, and drops this file; for the third file that a client has open the code drops another
-- one (Client/Descriptors). A revocation and its answer are part
-- of the request that sends it, over which the metadata manager holds the file's lock.
pub data Run (first : MmFile) : MmFile → Vectors → Flights → Type 0 where
  starts : Run first first (λ q. []) (λ q. idle)
  opens :
      {f : MmFile} {held : Vectors} {flights : Flights} (peer : String)
      → Run first f held flights
      → Run first (open_by peer f).0 held flights
  -- `CloseFile` at the metadata manager.
  closes :
      {f : MmFile} {held : Vectors} {flights : Flights} (peer : String)
      → Run first f held flights
      → is_opened_by peer f ≡ true
      → is_idle (flights peer) ≡ true
      → Run first (close_by peer f).0 held (set_flight peer closing flights)
  -- The client drops the file when the reply is there.
  drops :
      {f : MmFile} {held : Vectors} {flights : Flights} (peer : String)
      → Run first f held flights
      → flights peer ≡ closing
      → Run first f (change_of peer (λ ps. []) held) (set_flight peer idle flights)
  -- `CloseFile` writes the time and the size first.
  informs :
      {f : MmFile} {held : Vectors} {flights : Flights} (info : FileInfo)
      → Run first f held flights
      → Run first (record f { info = info }) held flights
  -- `GetPermission` at the metadata manager, with the revocations that it sends.
  asks :
      {f : MmFile} {held : Vectors} {flights : Flights} (peer : String) (start end : ℕ)
      (iswrite : Bool) (a : Answer)
      → Run first f held flights
      → wait_and_get_permission_for peer start end iswrite f ≡ some a
      → is_idle (flights peer) ≡ true
      → all_idle a.revocations flights ≡ true
      → Run first a.file
          (deliver a.revocations held)
          (set_flight peer (granting iswrite a.permit) flights)
  -- The client enters the reply.
  enters :
      {f : MmFile} {held : Vectors} {flights : Flights} (peer : String) (iswrite : Bool)
      (permit : Permission)
      → Run first f held flights
      → flights peer ≡ granting iswrite permit
      → Run first f (enter peer iswrite permit held) (set_flight peer idle flights)
  -- A read or a write of the client is done.
  unlocks :
      {f : MmFile} {held : Vectors} {flights : Flights} (peer : String) (start end : ℕ)
      → Run first f held flights
      → Run first f (change_of peer (λ ps. (unlock_permission start end ps).0) held) flights
  -- A revocation begins to wait for it.
  waits :
      {f : MmFile} {held : Vectors} {flights : Flights} (peer : String) (sem start end : ℕ)
      → Run first f held flights
      → Run first f (change_of peer (λ ps. (await_unlocked sem start end ps).0) held) flights
