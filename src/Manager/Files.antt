-- ===== src/Manager/Files.antt =====
-- The requests of the metadata manager on whole files: what each leaves of the table of files.
use pfs.Base.{
  ℕ, Bool, subst, str_eq-true, ◌≡◌, refl, inl, inr, ◌⊎◌, true, false, max, none, some, List, [],
  String, arith, str_eq, str_eq_refl, lookup, insert, erase, lookup-insert, lookup-erase,
  Bool-cases, Option-cases, if◌then◌else◌,
}
use pfs.Config.{error_delete_open_file, error_does_not_exist, no_error}
use pfs.Permission.{Permission}
use pfs.File.Info.{FileInfo, set_size, set_last_modified_time}
use pfs.MmFile.{MmFile, is_open, is_opened_by, open_by, close_by}
use pfs.Manager.{
  Manager, Status, ok, cancelled, empty_stat_reply, new_file, create_file, open_file, close_file,
  delete_file,
}

-- A file is deleted exactly when it is known and no client has it open: then its name is free, and
-- every other name stands for what it stood for. Otherwise nothing changes, and the error says which
-- of the two it is.
pub delete_file_lem :
    (name : String) (m : Manager)
    → let r = delete_file name m in
      ((r.status ≡ ok)
        × ((file : MmFile) × (lookup name m.files ≡ some file) × (is_open file ≡ false))
        × ((other : String)
            → lookup other r.manager.files
              ≡ (if str_eq name other then none else lookup other m.files)))
      ⊎ ((r.status ≡ cancelled)
          × (r.manager ≡ m)
          × ((r.error ≡ error_does_not_exist) × (lookup name m.files ≡ none)
              ⊎ (r.error ≡ error_delete_open_file)
                × ((file : MmFile) × (lookup name m.files ≡ some file) × (is_open file ≡ true))))
unfolding delete_file
delete_file_lem name m = elim (Option-cases (lookup name m.files)) [
  | inl e ↦ rw (e, delete_file) (inr (refl, refl, inl (refl, refl)))
  | inr (file, e) ↦ elim (Bool-cases (is_open file)) [
    | inl busy ↦ rw (e, delete_file, busy) (inr (refl, refl, inr (refl, (file, refl, busy))))
    | inr free ↦
        rw (e, delete_file, free)
          (inl (refl, (file, refl, free), λ other. lookup-erase name other m.files))
  ]
]

lookup-insert_same {ℓ} :
    {V : Type ℓ} (k : String) (v : V) (m : List (String × V)) → lookup k (insert k v m) ≡ some v
lookup-insert_same k v m = ground (arith, lookup-insert k k v m, str_eq_refl k)

-- The file after its first opening by a peer.
first_open : String → MmFile → MmFile
first_open peer file = record file { client_permissions = insert peer [] file.client_permissions }

open_file-first :
    (peer name : String) (m : Manager) (file : MmFile)
    → lookup name m.files ≡ some file
    → lookup peer file.client_permissions ≡ none
    → open_file peer name m ≡ (
      record m { files = insert name (first_open peer file) m.files },
      ok,
      record {
        error = no_error;
        last_modified = file.info.pst_mtime;
        creation_time = file.info.pst_ctime;
        file_size = file.info.pst_size;
        strip_width = file.info.strip_width;
      },
    )
unfolding open_file open_by first_open
open_file-first peer name m file known closed = rw (known, open_file, open_by, closed)

open_file-again :
    (peer name : String) (m : Manager) (file : MmFile) {ps : List Permission}
    → lookup name m.files ≡ some file
    → lookup peer file.client_permissions ≡ some ps
    → open_file peer name m ≡ (m, cancelled, empty_stat_reply)
unfolding open_file open_by
open_file-again peer name m file known held = rw (known, open_file, open_by, held)

-- A file that has just been created can be opened by every peer: the reply has its times, the size 0
-- and its width, and a second opening by the same peer is refused and changes nothing.
pub open_file-create_file :
    (name peer : String) (width created modified : ℕ) (m : Manager)
    → lookup name m.files ≡ none
    → let m1 = (create_file name width created modified m).0.manager in
      let (m2, status, reply) = open_file peer name m1 in
      (status ≡ ok)
      × (reply.creation_time ≡ created)
      × (reply.last_modified ≡ modified)
      × (reply.file_size ≡ 0)
      × (reply.strip_width ≡ width)
      × (open_file peer name m2 ≡ (m2, cancelled, empty_stat_reply))
unfolding create_file lookup first_open
open_file-create_file name peer width created modified m fresh =
    let file : MmFile = new_file name width created modified in
    let m1 : Manager = record m { files = insert name file m.files } in
    let file' : MmFile = first_open peer file in
    let m2 : Manager = record m1 { files = insert name file' m1.files } in
    let first = open_file-first peer name m1 file (lookup-insert_same name file m.files) refl in
    let again =
      open_file-again peer name m2 file' (lookup-insert_same name file' m1.files)
        (lookup-insert_same peer [] []) in
    rw (fresh, create_file, first) (refl, refl, refl, refl, refl, again)

-- What `CloseFile` leaves: the manager and the status. A file that is known has the size and the time
-- that the request names, if the client has changed it, and lacks the peer's entry; the request is refused
-- all the same where the peer did not have it open.
abbrev pub IsClosed :
    (peer name : String) (has_modified : Bool) (size now : ℕ) → Manager → Manager → Status → Type 0
IsClosed peer name has_modified size now m m' status =
    (lookup name m.files ≡ none) × (status ≡ cancelled) × (m' ≡ m)
    ⊎ ((file : MmFile) × (file' : MmFile) × (lookup name m.files ≡ some file)
        × (status ≡ (if is_opened_by peer file then ok else cancelled))
        × (file'.info.pst_size
            ≡ (if has_modified then max size file.info.pst_size else file.info.pst_size))
        × (file'.info.pst_mtime ≡ (if has_modified then now else file.info.pst_mtime))
        × ((q : String)
            → lookup q file'.client_permissions
              ≡ (if str_eq peer q then none else lookup q file.client_permissions))
        × ((other : String)
            → lookup other m'.files
              ≡ (if str_eq name other then some file' else lookup other m.files)))

noted_info :
    (has_modified : Bool) (size now : ℕ) (file : MmFile)
    → let info : FileInfo =
        if has_modified
        then set_size (max size file.info.pst_size) (set_last_modified_time now file.info)
        else file.info in
      (info.pst_size ≡ (if has_modified then max size file.info.pst_size else file.info.pst_size))
      × (info.pst_mtime ≡ (if has_modified then now else file.info.pst_mtime))
noted_info true size now file = (refl, refl)
noted_info false size now file = (refl, refl)

absent_peer {ℓ} :
    {V : Type ℓ} (peer q : String) (m : List (String × V))
    → lookup peer m ≡ none
    → lookup q m ≡ (if str_eq peer q then none else lookup q m)
absent_peer peer q m gone = elim (Bool-cases (str_eq peer q)) [
  | inl eq ↦
      let same : lookup q m ≡ none = subst (λ n. lookup n m ≡ none) (str_eq-true peer q eq) gone in
      rw eq same
  | inr ne ↦ rw ne refl
]

-- Every case of a `CloseFile` that no other request comes between: a file that is unknown is refused, and
-- nothing changes. Of a known one the size, if the request's is larger, and the time are written when the
-- client has changed the file, also where the peer does not have it open and the request is refused.
-- Afterwards the peer does not have it open, every other peer is as it was, and every other name stands
-- for what it stood for.
pub close_file_lem :
    (peer name : String) (has_modified : Bool) (size now : ℕ) (m : Manager)
    → let r = close_file peer name has_modified size now m in
      IsClosed peer name has_modified size now m r.0 r.1
unfolding close_file close_by is_opened_by
close_file_lem peer name has_modified size now m = elim (Option-cases (lookup name m.files)) [
  | inl e ↦ rw (e, close_file) (inl (refl, refl, refl))
  | inr (file, e) ↦
      let noted : MmFile = record file {
        info =
            if has_modified
            then set_size (max size file.info.pst_size) (set_last_modified_time now file.info)
            else file.info;
      } in
      let closed : MmFile = record noted {
        client_permissions = erase peer file.client_permissions;
      } in
      let (written, timed) = noted_info has_modified size now file in
      elim (Option-cases (lookup peer file.client_permissions)) [
        | inl gone ↦
            rw (e, close_file, close_by, gone)
              (inr (
                file,
                noted,
                refl,
                rw (is_opened_by, gone) refl,
                written,
                timed,
                λ q. absent_peer peer q file.client_permissions gone,
                λ other. lookup-insert name other noted m.files,
              ))
        | inr (ps, known) ↦
            rw (e, close_file, close_by, known)
              (inr (
                file,
                closed,
                refl,
                rw (is_opened_by, known) refl,
                written,
                timed,
                λ q. lookup-erase peer q file.client_permissions,
                λ other. lookup-insert name other closed m.files,
              ))
      ]
]
