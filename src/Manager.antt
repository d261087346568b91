-- ===== src/Manager.antt =====
-- metadata_manager/metadata_manager.cpp: the metadata manager's requests. `CreateFile`, `OpenFile`,
-- `DeleteFile` and `GetFileDesc` are steps under `filesLock`. `GetPermission` gives it back between its
-- test and the grant, and takes the manager as it is at each of the two. `CloseFile` gives it back after
-- the look-up, and is shown as it runs when no other request comes between. Times are what `time(0)`
-- returns.
pub mod Files
pub mod Grants
use pfs.Base.{
  ℕ, zero, suc, ◌+◌, ◌%◌, max, Bool, true, false, Option, none, some, List, [], ◌∷◌, String,
  if◌then◌else◌, lookup, insert, erase,
}
use pfs.Base.Int.{ℤ}
use pfs.Config.{
  num_file_servers, no_error, error_already_exists, error_does_not_exist, error_delete_open_file,
  error_get_permission_unopened_file,
}
use pfs.Permission.{Permission}
use pfs.File.Info.{FileInfo, PfsStat, set_last_modified_time, set_size}
use pfs.MmFile.{
  MmFile, RevokeRequest, Answer, open_by, close_by, is_open, is_opened_by,
  wait_and_get_permission_for,
}

pub record Manager : Type 0 where
  pub files : List (String × MmFile)
  -- The address at which each peer takes revocations.
  pub client_stubs : List (String × String)

-- `grpc::Status`
pub data Status : Type 0 where
  ok cancelled : Status

-- A `CreateStripeRequest`, with the file server that it goes to.
pub record StripeRequest : Type 0 where
  pub server : ℕ
  pub name : String
  pub stripe_width : ℕ
  pub id : ℕ

-- A `FileStatReply`. A field that a request leaves alone keeps the message's default, 0.
pub record FileStatReply : Type 0 where
  pub error : ℤ
  pub last_modified : ℕ
  pub creation_time : ℕ
  pub file_size : ℕ
  pub strip_width : ℕ

abbrev pub empty_stat_reply : FileStatReply
empty_stat_reply = record {
  error = no_error;
  last_modified = 0;
  creation_time = 0;
  file_size = 0;
  strip_width = 0;
}

-- The parts of a `StatusReply`: the manager after the request, the status and the error.
pub record Reply : Type 0 where
  pub manager : Manager
  pub status : Status
  pub error : ℤ

unfoldable pub client_start : String → String → Manager → Manager × Status
client_start peer ip m = (record m { client_stubs = insert peer ip m.client_stubs }, ok)

-- The file that `CreateFile` enters.
abbrev pub new_file : String → ℕ → ℕ → ℕ → MmFile
new_file name stripe_width created modified = record {
  info = record {
    name = name;
    stat = record { pst_mtime = modified; pst_ctime = created; pst_size = 0 };
    strip_width = stripe_width;
    has_modified = false;
  };
  client_permissions = [];
}

-- The loop over the stripes, `n` of them from `i` on.
unfoldable pub stripe_requests : String → ℕ → ℕ → ℕ → List StripeRequest
stripe_requests name stripe_width zero i = []
stripe_requests name stripe_width (suc n) i =
    record { server = i % num_file_servers; name = name; stripe_width = stripe_width; id = i }
    ∷ stripe_requests name stripe_width n (suc i)

unfoldable pub create_file : String → ℕ → ℕ → ℕ → Manager → Reply × List StripeRequest
unfolding stripe_requests
create_file name stripe_width created modified m = elim (lookup name m.files) [
  | some file ↦ (record { manager = m; status = cancelled; error = error_already_exists }, [])
  | none ↦ (
    record {
      manager = record m {
        files = insert name (new_file name stripe_width created modified) m.files;
      };
      status = ok;
      error = no_error;
    },
    stripe_requests name stripe_width stripe_width 0,
  )
]

-- `OpenFile`. On an error it sets the code on a message of its own, which is not sent.
unfoldable pub open_file : String → String → Manager → Manager × Status × FileStatReply
unfolding open_by
open_file peer name m = elim (lookup name m.files) [
  | none ↦ (m, cancelled, empty_stat_reply)
  | some file ↦
      let (file', opened) = open_by peer file in
      if opened
      then (
        record m { files = insert name file' m.files },
        ok,
        record {
          error = no_error;
          last_modified = file.info.pst_mtime;
          creation_time = file.info.pst_ctime;
          file_size = file.info.pst_size;
          strip_width = file.info.strip_width;
        },
      )
      else (m, cancelled, empty_stat_reply)
]

-- `CloseFile`, with no other request between its look-up, the writing of the size and the time, and the
-- closing, over which `filesLock` is not held. The size and the time are written before the test whether
-- the peer has the file open.
unfoldable pub close_file : String → String → Bool → ℕ → ℕ → Manager → Manager × Status
unfolding close_by
close_file peer name has_modified size now m = elim (lookup name m.files) [
  | none ↦ (m, cancelled)
  | some file ↦
      let info : FileInfo =
        if has_modified
        then set_size (max size file.info.pst_size) (set_last_modified_time now file.info)
        else file.info in
      let (file', closed) = close_by peer (record file { info = info }) in
      (record m { files = insert name file' m.files }, if closed then ok else cancelled)
]

unfoldable pub delete_file : String → Manager → Reply
unfolding is_open
delete_file name m = elim (lookup name m.files) [
  | none ↦ record { manager = m; status = cancelled; error = error_does_not_exist }
  | some file ↦
      if is_open file
      then record { manager = m; status = cancelled; error = error_delete_open_file }
      else record {
        manager = record m { files = erase name m.files };
        status = ok;
        error = no_error;
      }
]

-- A `PermissionReply` beside the state, and the revocations that were sent.
pub record PermissionReply : Type 0 where
  pub manager : Manager
  pub status : Status
  pub error : ℤ
  pub start : ℕ
  pub end : ℕ
  pub revocations : List RevokeRequest

abbrev pub refused : Manager → ℤ → PermissionReply
refused m e = record {
  manager = m;
  status = cancelled;
  error = e;
  start = 0;
  end = 0;
  revocations = [];
}

-- The part of `GetPermission` under `filesLock`: the error that it refuses the request with.
unfoldable pub permission_error : String → String → Manager → Option ℤ
unfolding is_opened_by
permission_error peer name m = elim (lookup name m.files) [
  | none ↦ some error_does_not_exist
  | some file ↦ if is_opened_by peer file then none else some error_get_permission_unopened_file
]

-- The rest of it, under the lock of the file alone; `none` is the null pointer of
-- `waitAndGetPermissionFor`, or a file that has been deleted meanwhile. A file is told by its name.
unfoldable pub permission_grant : String → String → ℕ → ℕ → Bool → Manager → Option PermissionReply
unfolding wait_and_get_permission_for
permission_grant peer name start end iswrite m = elim (lookup name m.files) [
  | none ↦ none
  | some file ↦ elim (wait_and_get_permission_for peer start end iswrite file) [
    | none ↦ none
    | some answer ↦ some (record {
      manager = record m { files = insert name answer.file m.files };
      status = ok;
      error = no_error;
      start = answer.permit.start;
      end = answer.permit.end;
      revocations = answer.revocations;
    })
  ]
]

-- `GetPermission`, of the manager `m` under `filesLock` and the manager `later`, after whatever other
-- requests came between, at the grant.
unfoldable pub get_permission :
    String → String → ℕ → ℕ → Bool → Manager → Manager → Option PermissionReply
unfolding permission_error permission_grant
get_permission peer name start end iswrite m later = elim (permission_error peer name m) [
  | some e ↦ some (refused m e)
  | none ↦ permission_grant peer name start end iswrite later
]

-- `GetFileDesc`
unfoldable pub get_file_desc : String → Manager → Status × FileStatReply
get_file_desc name m = elim (lookup name m.files) [
  | none ↦ (cancelled, record empty_stat_reply { error = error_does_not_exist })
  | some file ↦ (
    ok,
    record empty_stat_reply {
      creation_time = file.info.pst_ctime;
      last_modified = file.info.pst_mtime;
      file_size = file.info.pst_size;
    },
  )
]
