-- ===== src/Manager/Grants.antt =====
-- `GetPermission`: every case of its answer, whatever other requests come between its two parts.
use pfs.Base.{ℕ, ◌≡◌, Bool, true, false, none, some, String, str_eq, lookup, if◌then◌else◌}
use pfs.MmFile.{MmFile, Answer, is_opened_by, wait_and_get_permission_for}
use pfs.Manager.{Manager, ok, PermissionReply}

module _ (peer name : String) where
  -- The file stands under the name, and the peer has it open.
  abbrev pub HasOpen : Manager → Type 0
  HasOpen m = (file : MmFile) × (lookup name m.files ≡ some file) × (is_opened_by peer file ≡ true)

  -- There is no such file.
  abbrev pub IsUnknown : Manager → Type 0
  IsUnknown m = lookup name m.files ≡ none

  -- There is, and the peer does not have it open.
  abbrev pub IsUnopened : Manager → Type 0
  IsUnopened m =
      (file : MmFile) × (lookup name m.files ≡ some file) × (is_opened_by peer file ≡ false)

  module _ (start end : ℕ) (iswrite : Bool) where
    -- The reply grants what `waitAndGetPermissionFor` does, and the table has the file that it leaves.
    abbrev pub IsGranted : Manager → PermissionReply → Type 0
    IsGranted m r =
        (r.status ≡ ok)
        × ((file : MmFile) × (a : Answer) × (lookup name m.files ≡ some file)
            × (wait_and_get_permission_for peer start end iswrite file ≡ some a)
            × (r.start ≡ a.permit.start)
            × (r.end ≡ a.permit.end)
            × ((other : String)
                → lookup other r.manager.files
                  ≡ (if str_eq name other then some a.file else lookup other m.files)))
