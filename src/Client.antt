-- ===== src/Client.antt =====
-- client/pfs_client.cpp, client/client_file.cpp and client/client_service.cpp: a client's open
-- files and its requests. A call that sends a request is given in two halves, up to the request and
-- from its reply on. What a method does to the cache is in Client/Transfers and Client/Revocations.
pub mod Chunks
pub mod Evictions
pub mod Tokens
pub mod Waits
pub mod Descriptors
pub mod Transfers
pub mod Rounds
pub mod Loads
pub mod Writes
pub mod Stores
pub mod Revocations
pub mod Stats
use pfs.Base.{
  ℕ, zero, suc, ◌+◌, ◌-◌, ◌*◌, ◌/◌, ◌%◌, ◌^◌, min, max, Bool, true, false, Option, none, some, List,
  [], ◌∷◌, ◌++◌, String, str_eq, ltb, leb, ◌==◌, if◌then◌else◌, get_or, find_from, modify_at,
  erase_range,
}
use pfs.Base.Int.{ℤ, pos, negsuc, neg}
use pfs.Config.{pfs_block_size_in_bytes, strip_bytes, num_file_servers, error_close_unopened_file}
use pfs.Permission.{Permission, is_shared, unlock}
use pfs.File.{has_permission, add_permission, revoke_permission, await_unlocked}
use pfs.File.Info.{FileInfo, PfsStat, set_size}
use pfs.Manager.{Status, ok, cancelled, FileStatReply}

pub record ClientFile : Type 0 where
  pub info : FileInfo
  pub descriptor : ℕ
  pub permissions : List Permission

-- `stub` is whether `initialize` has run. `descriptorCount` is shared by all files.
pub record PfsClient : Type 0 where
  pub stub : Bool
  pub opened_files : List ClientFile
  pub descriptor_count : ℕ

-- What stands behind an index past the end of `openedFiles`.
abbrev pub no_file : ClientFile
no_file = record {
  info = record {
    name = "";
    stat = record { pst_mtime = 0; pst_ctime = 0; pst_size = 0 };
    strip_width = 0;
    has_modified = false;
  };
  descriptor = 0;
  permissions = [];
}

abbrev pub file_at : PfsClient → ℕ → ClientFile
file_at c i = get_or c.opened_files i no_file

-- The loop over `openedFiles` for a descriptor.
unfoldable pub find_descriptor : ℕ → PfsClient → Option ℕ
find_descriptor filedes c = find_from (λ f. f.descriptor == filedes) 0 c.opened_files

abbrev pub set_permissions : List Permission → ClientFile → ClientFile
set_permissions ps f = record f { permissions = ps }

abbrev pub change_file : ℕ → (ClientFile → ClientFile) → PfsClient → PfsClient
change_file i g c = record c { opened_files = modify_at i g c.opened_files }

-- `openFile` from the reply on: the result is the descriptor, or the status code.
unfoldable pub opened : String → ℕ → FileStatReply → PfsClient → PfsClient × ℤ
opened filename zero reply c =
    let descriptor : ℕ = suc c.descriptor_count in
    (
      record c {
        descriptor_count = descriptor;
        opened_files =
            c.opened_files
            ++ record {
              info = record {
                name = filename;
                stat = record {
                  pst_mtime = reply.last_modified;
                  pst_ctime = reply.creation_time;
                  pst_size = reply.file_size % 2 ^ 32;
                };
                strip_width = reply.strip_width;
                has_modified = false;
              };
              descriptor = descriptor;
              permissions = [];
            }
              ∷ [];
      },
      pos descriptor,
    )
opened filename (suc code) reply c = (c, pos (suc code))

-- `createFile` and `deleteFile` from the reply on: 0, or minus the status code.
unfoldable pub status_result : ℕ → ℤ
status_result code = neg code

-- `acquirePermission` up to its request.
pub data Acquire : Type 0 where
  -- The file is not open.
  refused : ℤ → Acquire
  -- The client holds the range already; nothing is sent, and nothing is locked.
  held : ℕ → Acquire
  -- A `PermissionRequest` for the file at an index.
  ask : ℕ → (name : String) → (start end : ℕ) → Bool → Acquire

unfoldable pub acquire_permission : ℕ → ℕ → ℕ → Bool → PfsClient → Acquire
unfolding has_permission find_descriptor
acquire_permission filedes start end write c = elim (find_descriptor filedes c) [
  | none ↦ refused error_close_unopened_file
  | some found_at ↦
      if has_permission (start % 2 ^ 32) (end % 2 ^ 32) write (file_at c found_at).permissions
      then held found_at
      else ask found_at (file_at c found_at).info.name (start % 2 ^ 32) (end % 2 ^ 32) write
]

-- From the reply on: the range that was granted is entered, and locked.
unfoldable pub permission_reply : ℕ → ℕ → ℕ → ℕ → Bool → PfsClient → PfsClient × ℤ
unfolding add_permission
permission_reply found_at zero start end write c = (
  change_file found_at (λ f. set_permissions (add_permission start end write true f.permissions) f)
      c,
  pos found_at,
)
permission_reply found_at (suc code) start end write c = (c, neg (suc code))

-- `unlockPermission`, with the semaphores that it posts.
unfoldable pub unlock_permission : ℕ → ℕ → List Permission → List Permission × List ℕ
unfolding is_shared unlock
unlock_permission start end [] = ([], [])
unlock_permission start end (p ∷ ps) =
    let (rest, posted) = unlock_permission start end ps in
    if is_shared start end p
    then (let (q, sems) = unlock p in (q ∷ rest, sems ++ posted))
    else (p ∷ rest, posted)

-- A part of one block, as a read or a write handles it in one round of its loop.
pub record Chunk : Type 0 where
  pub block_addr : ℕ
  pub block_offset : ℕ
  pub size : ℕ

-- The part that begins at an offset, of `nbyte` bytes at most.
abbrev pub chunk_at : ℕ → ℕ → Chunk
chunk_at offset nbyte = record {
  block_addr = offset / pfs_block_size_in_bytes * pfs_block_size_in_bytes % 2 ^ 32;
  block_offset = offset % pfs_block_size_in_bytes;
  size = min (pfs_block_size_in_bytes - offset % pfs_block_size_in_bytes) nbyte;
}

-- The loop of `readFile` and `writeFile`, on fuel; `none` if the fuel runs out.
unfoldable pub chunks : ℕ → ℕ → ℕ → Option (List Chunk)
chunks zero offset nbyte = if nbyte == 0 then some [] else none
chunks (suc fuel) offset nbyte =
    let chunk : Chunk = chunk_at offset nbyte in
    let rest = chunks fuel (offset + chunk.size) (nbyte - chunk.size) in
    if nbyte == 0 then some [] else (elim rest [ none ↦ none | some cs ↦ some (chunk ∷ cs) ])

-- The loop that evicts the blocks of a range, on fuel: `blockAddr` is a `uint32_t`.
unfoldable pub evictions : ℕ → ℕ → ℕ → Option (List ℕ)
evictions zero block_addr end = none
evictions (suc fuel) block_addr end =
    let rest = evictions fuel ((block_addr + pfs_block_size_in_bytes) % 2 ^ 32) end in
    if leb block_addr end
    then (elim rest [ none ↦ none | some more ↦ some (block_addr ∷ more) ])
    else some []

-- Where that loop starts.
abbrev pub block_of : ℕ → ℕ
block_of start = start / pfs_block_size_in_bytes * pfs_block_size_in_bytes

-- `writeFile` before its loop.
unfoldable pub note_write : ℕ → ℕ → ℕ → PfsClient → PfsClient
note_write found_at offset nbyte c =
    change_file found_at
      (λ f. record f {
        info =
            set_size (max f.info.pst_size ((offset + nbyte) % 2 ^ 32))
              (record (f.info) { has_modified = true });
      })
      c

-- `revokePermission` without the wait and the evictions: the first open file of that name.
unfoldable pub revoke : String → ℕ → ℕ → PfsClient → PfsClient × Option ℕ
unfolding revoke_permission
revoke filename start end c = elim (find_from (λ f. str_eq f.info.name filename) 0 c.opened_files) [
  | none ↦ (c, none)
  | some found_at ↦ (
    change_file found_at (λ f. set_permissions (revoke_permission start end f.permissions) f) c,
    some found_at,
  )
]

-- `closeFile` and `getFileStat` keep the index in a `bool`: -1 and every index but 0 turn into 1.
abbrev pub bool_index : Option ℕ → ℕ
bool_index none = 1
bool_index (some zero) = 0
bool_index (some (suc i)) = 1

-- A `CloseFileRequest`, with the index that the rest of `closeFile` works on.
pub record CloseRequest : Type 0 where
  pub name : String
  pub has_modified : Bool
  pub size : ℕ
  pub found_at : ℕ

-- `closeFile` up to its request. The test whether the file was found never fires.
unfoldable pub close_request : ℕ → PfsClient → CloseRequest
unfolding find_descriptor
close_request filedes c =
    let found : Option ℕ = find_descriptor filedes c in
    let file : ClientFile = file_at c (bool_index found) in
    record {
      name = elim found [ none ↦ "" | some i ↦ (file_at c i).info.name ];
      has_modified = file.info.has_modified;
      size = file.info.pst_size;
      found_at = bool_index found;
    }

-- From the reply on.
unfoldable pub close_reply : CloseRequest → ℕ → PfsClient → PfsClient × ℤ
close_reply r zero c = (record c { opened_files = erase_range r.found_at 1 c.opened_files }, pos 0)
close_reply r (suc code) c = (c, neg (suc code))

-- The file server that `flush` and `getBlockFromFileServer` turn to.
unfoldable pub file_server_index : ℕ → ℕ → ℕ
file_server_index block_addr strip_width = block_addr / strip_bytes % strip_width % num_file_servers
