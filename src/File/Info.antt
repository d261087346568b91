-- ===== src/File/Info.antt =====
-- The other fields of a file, `name`, `stat`, `stripWidth` and `hasModified` of include/file.h.
use pfs.Base.{ℕ, Bool, String}

-- `pfs_stat` of include/config.h
pub record PfsStat : Type 0 where
  pub pst_mtime : ℕ
  pub pst_ctime : ℕ
  pub pst_size : ℕ

pub record FileInfo : Type 0 where
  pub name : String
  pub stat : PfsStat
  pub open stat use *
  pub strip_width : ℕ
  pub has_modified : Bool

abbrev pub set_last_modified_time : ℕ → FileInfo → FileInfo
set_last_modified_time t f = record f { stat = record (f.stat) { pst_mtime = t } }

-- The argument is a `uint32_t`.
abbrev pub set_size : ℕ → FileInfo → FileInfo
set_size n f = record f { stat = record (f.stat) { pst_size = n } }
