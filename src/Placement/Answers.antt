-- ===== src/Placement/Answers.antt =====
-- The block requests of a client that turns to the server that keeps the strip: they are answered.
use pfs.Base.{
  ℕ, i32_lt, ◌+◌, ◌%◌, ◌^◌, ◌≤◌, ◌<◌, ◌≡◌, refl, Bool, true, false, List, [], arith, ◌==◌, some,
  String,
}
use pfs.Config.{pfs_block_size_in_bytes}
use pfs.Manager.{ok, cancelled}
use pfs.FileServer.{
  FileServer, StripPath, replied, strip_of, max_size, position, read_bytes, write_block, read_block,
  write_dirty, write_disk,
}
use pfs.FileServer.Layout.{max_size-lt, strip_index-eq}
use pfs.FileServer.Invariant.{IsWellFormed}
use pfs.Placement.{Keeps}

-- The test on the range, at the address of a block and elsewhere.
whole_block :
    (addr : ℕ)
    → addr + 1024 ≤ 2 ^ 31
    → addr % 1024 ≡ 0
    → i32_lt (max_size addr) ((addr + 1024) % 2 ^ 32) ≡ false
whole_block addr fits h = ground (arith, max_size-lt addr fits)

broken_block :
    (addr : ℕ)
    → addr + 1024 ≤ 2 ^ 31
    → 0 < addr % 1024
    → i32_lt (max_size addr) ((addr + 1024) % 2 ^ 32) ≡ true
broken_block addr fits h = ground (arith, max_size-lt addr fits)

-- A free, well-formed server that keeps the strip of an address answers: at the address of a block a
-- write and a read succeed, and the write leaves the server free and its files as they were; at every
-- other address both are refused, and nothing changes. The range ends at `2 ^ 31` at most, and the
-- stripe width is not 0.
pub block_requests-answered :
    (name : String) (width addr : ℕ) (bytes : List ℕ) (dirty : ℕ → Bool) (junk : ℕ → ℕ)
    (s : FileServer)
    → IsWellFormed s
    → s.lock_held ≡ false
    → 0 < width
    → addr + 1024 ≤ 2 ^ 31
    → Keeps name width s (strip_of addr width)
    → (addr % 1024 ≡ 0
        → ((s' : FileServer) × (write_block name addr bytes dirty s ≡ replied s' ok tt)
            × (s'.lock_held ≡ false)
            × (s'.files ≡ s.files))
          × ((out : List ℕ) × (read_block name addr junk s ≡ replied s ok out)))
      × (0 < addr % 1024
          → (write_block name addr bytes dirty s ≡ replied s cancelled tt)
            × (read_block name addr junk s ≡ replied s cancelled []))
unfolding write_block read_block
block_requests-answered name width addr bytes dirty junk s wf free some_strips fits
      (file, known, w, strip) =
    let (_, (content, stored)) =
      wf name file known (strip_of addr width) (name, strip_of addr width) strip in
    let nonzero : (file.strip_width == 0) ≡ false = ground arith in
    let strip' : file.strip_paths (strip_of addr file.strip_width)
        ≡ some (name, strip_of addr width) =
      rw w strip in
    let index = strip_index-eq addr file.strip_width (omega arith) in
    let at : ℕ = position addr file.strip_width in
    let path : StripPath = (name, strip_of addr width) in
    let after : FileServer = record s {
      disk = write_disk path (write_dirty pfs_block_size_in_bytes at bytes dirty 0 content) s.disk;
    } in
    (
      λ h.
          let whole = whole_block addr fits h in
          ((after, ground arith, free, refl), (read_bytes 1024 at content junk 0, ground arith)),
      λ h. let broken = broken_block addr fits h in (ground arith, ground arith),
    )
