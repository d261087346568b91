-- ===== src/Client/Stats.antt =====
-- `getFileStat` of client/pfs_client.cpp, with the metadata manager's answer.
use pfs.Base.{ℕ, zero, suc, ◌≡◌, refl, ap, ◌∙◌, none, some, String, lookup}
use pfs.Base.Int.{ℤ, pos, neg}
use pfs.File.Info.{PfsStat}
use pfs.MmFile.{MmFile}
use pfs.Manager.{Manager, Status, ok, cancelled, FileStatReply, get_file_desc}
use pfs.Client.{PfsClient, find_descriptor, file_at}

-- The name in the request. The index is kept in a `bool`, which is never -1: for a descriptor that is
-- not open the request goes out with an empty name.
unfoldable pub stat_name : ℕ → PfsClient → String
unfolding find_descriptor
stat_name filedes p = elim (find_descriptor filedes p) [
  | none ↦ ""
  | some found_at ↦ (file_at p found_at).info.name
]

-- From the reply on: what `buf` holds then, and the result.
unfoldable pub stat_reply : ℕ → FileStatReply → PfsStat → PfsStat × ℤ
stat_reply zero reply buf = (
  record {
    pst_ctime = reply.creation_time;
    pst_mtime = reply.last_modified;
    pst_size = reply.file_size;
  },
  pos 0,
)
stat_reply (suc code) reply buf = (buf, neg (suc code))

-- The reply that the client acts on; the code of `Status::CANCELLED` is 1.
unfoldable pub answered : Status × FileStatReply → PfsStat → PfsStat × ℤ
unfolding stat_reply
answered (ok, reply) buf = stat_reply 0 reply buf
answered (cancelled, reply) buf = stat_reply 1 reply buf

-- The call, over the metadata manager.
unfoldable pub get_file_stat : ℕ → PfsClient → Manager → PfsStat → PfsStat × ℤ
unfolding stat_name answered get_file_desc
get_file_stat filedes p m buf = answered (get_file_desc (stat_name filedes p) m) buf

stat_name-opened :
    (filedes found_at : ℕ) (p : PfsClient)
    → find_descriptor filedes p ≡ some found_at
    → stat_name filedes p ≡ (file_at p found_at).info.name
unfolding stat_name
stat_name-opened filedes found_at p opened = rw (stat_name, opened) refl

stat_name_closed :
    (filedes : ℕ) (p : PfsClient) → find_descriptor filedes p ≡ none → stat_name filedes p ≡ ""
unfolding stat_name
stat_name_closed filedes p closed = rw (stat_name, closed) refl

answered_known :
    (name : String) (m : Manager) (file : MmFile) (buf : PfsStat)
    → lookup name m.files ≡ some file
    → answered (get_file_desc name m) buf ≡ (file.info.stat, pos 0)
unfolding answered get_file_desc stat_reply
answered_known name m file buf known = rw (get_file_desc, known) refl

answered_unknown :
    (name : String) (m : Manager) (buf : PfsStat)
    → lookup name m.files ≡ none
    → answered (get_file_desc name m) buf ≡ (buf, neg 1)
unfolding answered get_file_desc stat_reply
answered_unknown name m buf unknown = rw (get_file_desc, unknown) refl

-- For an open file that the metadata manager knows, `buf` is the manager's record of it and the result
-- is 0; for a descriptor that is not open, and where no file has the empty name, it is -1 and `buf`
-- stays.
get_file_stat_lem :
    (filedes : ℕ) (p : PfsClient) (m : Manager) (buf : PfsStat)
    → ((found_at : ℕ) (file : MmFile)
        → find_descriptor filedes p ≡ some found_at
        → lookup (file_at p found_at).info.name m.files ≡ some file
        → get_file_stat filedes p m buf ≡ (file.info.stat, pos 0))
      × (find_descriptor filedes p ≡ none
          → lookup "" m.files ≡ none
          → get_file_stat filedes p m buf ≡ (buf, neg 1))
unfolding get_file_stat
get_file_stat_lem filedes p m buf =
    let at = λ (name : String). answered (get_file_desc name m) buf in
    (
      λ found_at file opened known.
          ap at (stat_name-opened filedes found_at p opened)
          ∙ answered_known (file_at p found_at).info.name m file buf known,
      λ closed nobody. ap at (stat_name_closed filedes p closed) ∙ answered_unknown "" m buf nobody,
    )
