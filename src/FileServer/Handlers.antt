-- ===== src/FileServer/Handlers.antt =====
-- The requests of a file server: what a client reads back, and the lock that is not given back.
use pfs.Base.{
  ℕ, i32_lt, ◌+◌, ◌-◌, ◌%◌, ◌^◌, ◌<◌, ◌≡◌, sym, ◌∙◌, ap, inl, inr, Bool, true, false, List, arith,
  ◌==◌, get_or, Option, some, Option-cases, String, lookup, str_eq_refl, subst,
}
use pfs.Config.{pfs_block_size_in_bytes}
use pfs.Manager.{ok}
use pfs.FileServer.{
  FileServer, FsFile, StripPath, replied, path_eq, write_disk, write_dirty, read_bytes, strip_of,
  strip_index, get_strip_path, max_size, position, read_block, write_block,
}
use pfs.FileServer.Layout.{strip_index-eq}
use pfs.FileServer.Blocks.{dirty-lt-length, get_or-write_dirty, get_or-read_bytes}

-- What a successful block request has found.
pub record Found (name : String) (addr : ℕ) (s : FileServer) (file : FsFile) (path : StripPath)
    (content : List ℕ) : Type 0 where
  pub unlocked : s.lock_held ≡ false
  pub known : lookup name s.files ≡ some file
  pub width : (file.strip_width == 0) ≡ false
  pub strip : get_strip_path (strip_index addr file.strip_width) file ≡ some path
  pub fits : i32_lt (max_size addr) ((addr + pfs_block_size_in_bytes) % 2 ^ 32) ≡ false
  pub stored : s.disk path ≡ some content

module _ {name : String} {addr : ℕ} {s : FileServer} {file : FsFile} {path : StripPath}
    {content : List ℕ} (f : Found name addr s file path content) where
  -- The path is that of one of the server's strips.
  pub Found-kept : (index : ℕ) × (file.strip_paths index ≡ some path)
  Found-kept = elim (Option-cases (strip_index addr file.strip_width)) [
    | inl e ↦ absurd (ground (arith, e, f.strip))
    | inr (index, e) ↦ (index, ground (arith, e, f.strip))
  ]

  pub Found-strip : addr < 2 ^ 31 → file.strip_paths (strip_of addr file.strip_width) ≡ some path
  Found-strip fits = ground (arith, strip_index-eq addr file.strip_width fits, f.strip)

pub write_block-Found :
    (name : String) (addr : ℕ) (bytes : List ℕ) (dirty : ℕ → Bool) (s s' : FileServer)
    → write_block name addr bytes dirty s ≡ replied s' ok tt
    → (file : FsFile) × (path : StripPath) × (content : List ℕ) × Found name addr s file path
        content
      × (s' ≡ record s {
        disk =
            write_disk path
              (write_dirty pfs_block_size_in_bytes
                (position addr file.strip_width)
                bytes
                dirty
                0
                content)
              s.disk;
      })
unfolding write_block
write_block-Found name addr bytes dirty s s' h = elim (Option-cases (lookup name s.files)) [
  | inl e ↦ ground arith
  | inr (file, e) ↦ elim (Option-cases (get_strip_path (strip_index addr file.strip_width) file)) [
    | inl e' ↦ ground arith
    | inr (path, e') ↦ elim (Option-cases (s.disk path)) [
      | inl e'' ↦ ground arith
      | inr (content, e'') ↦ (file, path, content, ground arith, ground arith)
    ]
  ]
]

pub read_block-Found :
    (name : String) (addr : ℕ) (junk : ℕ → ℕ) (s : FileServer) {file : FsFile} {path : StripPath}
    {content : List ℕ}
    → Found name addr s file path content
    → read_block name addr junk s
      ≡ replied s ok
          (read_bytes pfs_block_size_in_bytes (position addr file.strip_width) content junk 0)
unfolding read_block
read_block-Found name addr junk s f = ground arith

path_eq_refl : (p : StripPath) → path_eq p p ≡ true
path_eq_refl (n, i) = ground (arith, str_eq_refl n)

pub write_disk_self :
    (p : StripPath) (c : List ℕ) (d : StripPath → Option (List ℕ)) → write_disk p c d p ≡ some c
unfolding write_disk
write_disk_self p c d = rw (path_eq_refl p)

read_back :
    (n at : ℕ) (content bytes : List ℕ) (dirty : ℕ → Bool) (junk : ℕ → ℕ) (k : ℕ)
    → k < n
    → dirty k ≡ true
    → get_or (read_bytes n at (write_dirty n at bytes dirty 0 content) junk 0) k 0
      ≡ get_or bytes k 0
read_back n at content bytes dirty junk k small d =
    let after : List ℕ = write_dirty n at bytes dirty 0 content in
    let place : at + k - at ≡ k = omega arith in
    let marked : dirty (at + k - at) ≡ true = rw place d in
    let byte : get_or bytes (at + k - at) 0 ≡ get_or bytes k 0 = ap (λ j. get_or bytes j 0) place in
    let shifted : at + (0 + k) ≡ at + k = omega arith in
    let inside = dirty-lt-length n at bytes dirty 0 k content (omega arith) (omega arith) d in
    get_or-read_bytes n at after junk 0 k small
    ∙ rw shifted (ground (arith, get_or-write_dirty n at bytes dirty 0 (at + k) content))

-- After a block write that succeeds, a read of that block succeeds and returns every byte that was
-- marked dirty, whatever the memory of the reply held.
pub read_block-write_block :
    (name : String) (addr : ℕ) (bytes : List ℕ) (dirty : ℕ → Bool) (junk : ℕ → ℕ)
    (s s' : FileServer)
    → write_block name addr bytes dirty s ≡ replied s' ok tt
    → (out : List ℕ) × (read_block name addr junk s' ≡ replied s' ok out)
      × ((k : ℕ) → k < 1024 → dirty k ≡ true → get_or out k 0 ≡ get_or bytes k 0)
read_block-write_block name addr bytes dirty junk s s' h =
    let (file, path, content, f, e) = write_block-Found name addr bytes dirty s s' h in
    let at : ℕ = position addr file.strip_width in
    let after : List ℕ = write_dirty pfs_block_size_in_bytes at bytes dirty 0 content in
    let f' : Found name addr s' file path after =
      subst (λ t. Found name addr t file path after) (sym e)
        (record {
          unlocked = f.unlocked;
          known = f.known;
          width = f.width;
          strip = f.strip;
          fits = f.fits;
          stored = write_disk_self path after s.disk;
        }) in
    (
      read_bytes pfs_block_size_in_bytes at after junk 0,
      read_block-Found name addr junk s' f',
      λ k small d. read_back pfs_block_size_in_bytes at content bytes dirty junk k small d,
    )
