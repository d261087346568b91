-- ===== src/FileServer/Values.antt =====
-- What a client gets for each byte of a block where fresh memory is zero: the byte of the strip's
-- file, or 0 behind its end.
use pfs.Base.{
  ℕ, zero, suc, ◌+◌, ◌-◌, ◌%◌, ◌<◌, ◌≤◌, ◌^◌, ◌≡◌, refl, sym, ap, ◌∙◌, inl, inr, Bool, false, ◌&&◌,
  List, [], ◌∷◌, arith, ◌==◌, ==_iff, if◌then◌else◌, length, get_or, Bool-cases, none, some,
  Option-cases, String, lookup,
}
use pfs.Manager.{ok}
use pfs.FileServer.{
  FileServer, FsFile, StripPath, Disk, replied, path_eq, write_disk, strip_of, position, read_bytes,
  write_dirty, write_block, read_block,
}
use pfs.FileServer.Blocks.{get_or-write_dirty, get_or-read_bytes}
use pfs.FileServer.Handlers.{Found, Found-strip, write_block-Found, read_block-Found}
use pfs.FileServer.Stored.{path_eq-true, hit-block, hit, Found-aligned}
use pfs.FileServer.Invariant.{IsWellFormed}

disk_value : Disk → StripPath → ℕ → ℕ
disk_value d path at = elim (d path) [ none ↦ 0 | some content ↦ get_or content at 0 ]

-- The `k`-th byte of the block at `addr`.
unfoldable pub block_byte : String → ℕ → ℕ → FileServer → ℕ
unfolding disk_value
block_byte name addr k s = elim (lookup name s.files) [
  | none ↦ 0
  | some file ↦ elim (file.strip_paths (strip_of addr file.strip_width)) [
    | none ↦ 0
    | some path ↦ disk_value s.disk path (position addr file.strip_width + k)
  ]
]

block_byte-at :
    (name : String) (addr k : ℕ) (s : FileServer) {file : FsFile} {path : StripPath}
    → lookup name s.files ≡ some file
    → file.strip_paths (strip_of addr file.strip_width) ≡ some path
    → block_byte name addr k s ≡ disk_value s.disk path (position addr file.strip_width + k)
unfolding block_byte
block_byte-at name addr k s known strip = ground arith

zero_behind : (xs : List ℕ) (q : ℕ) → length xs ≤ q → get_or xs q 0 ≡ 0
zero_behind [] q h = refl
zero_behind (x ∷ xs) zero h = absurd (omega arith)
zero_behind (x ∷ xs) (suc q) h = zero_behind xs q (omega arith)

-- The reply to `ReadBlock`.
pub read_block-block_byte :
    (name : String) (addr : ℕ) (s s' : FileServer) (out : List ℕ) {file : FsFile} {path : StripPath}
    {content : List ℕ}
    → Found name addr s file path content
    → addr < 2 ^ 31
    → read_block name addr (λ i. 0) s ≡ replied s' ok out
    → (k : ℕ) → k < 1024
    → get_or out k 0 ≡ block_byte name addr k s
unfolding disk_value
read_block-block_byte name addr s s' out {file} {path} {content} f fits read k small =
    let at : ℕ = position addr file.strip_width in
    let same : out ≡ read_bytes 1024 at content (λ i. 0) 0 =
      cc (read, read_block-Found name addr (λ i. 0) s f) in
    let value : block_byte name addr k s ≡ get_or content (at + k) 0 =
      block_byte-at name addr k s f.known (Found-strip f fits) ∙ (rw (disk_value, f.stored) refl) in
    rw (same, value)
      (get_or-read_bytes 1024 at content (λ i. 0) 0 k small
        ∙ (ground (arith, zero_behind content (at + k))))

disk_value-write_disk :
    (n at : ℕ) (bytes : List ℕ) (dirty : ℕ → Bool) (path other : StripPath) (f : List ℕ) (d : Disk)
    (q : ℕ)
    → d path ≡ some f
    → disk_value (write_disk path (write_dirty n at bytes dirty 0 f) d) other q ≡ (
        if path_eq path other && hit n at dirty q
        then get_or bytes (q - at) 0
        else disk_value d other q)
unfolding disk_value write_disk
disk_value-write_disk n at bytes dirty path other f d q stored =
    elim (Bool-cases (path_eq path other)) [
      | inl same ↦
          let e : d other ≡ some f = sym (ap d (path_eq-true path other same)) ∙ stored in
          rw (same, e, disk_value) (get_or-write_dirty n at bytes dirty 0 q f)
      | inr differ ↦ rw (differ, disk_value) refl
    ]

no_strip_byte :
    (name : String) (addr k : ℕ) (s : FileServer) {file : FsFile}
    → lookup name s.files ≡ some file
    → file.strip_paths (strip_of addr file.strip_width) ≡ none
    → block_byte name addr k s ≡ 0
unfolding block_byte
no_strip_byte name addr k s known strip = ground arith

-- A block write that succeeds replaces the dirty bytes of its block, and no other byte of the file.
pub write_block-block_byte :
    (name : String) (a : ℕ) (bytes : List ℕ) (dirty : ℕ → Bool) (s s' : FileServer) (b k : ℕ)
    → IsWellFormed s
    → a + 1024 ≤ 2 ^ 31
    → b < 2 ^ 31
    → b % 1024 ≡ 0
    → k < 1024
    → write_block name a bytes dirty s ≡ replied s' ok tt
    → block_byte name b k s'
      ≡ (if b == a && dirty k then get_or bytes k 0 else block_byte name b k s)
write_block-block_byte name a bytes dirty s s' b k wf fa fb zb small h =
    let (file, path, content, f, e) = write_block-Found name a bytes dirty s s' h in
    let w : ℕ = file.strip_width in
    let at : ℕ = position a w in
    let after : FileServer = record s {
      disk = write_disk path (write_dirty 1024 at bytes dirty 0 content) s.disk;
    } in
    let kept = Found-strip f (omega arith) in
    let before : block_byte name b k s' ≡ block_byte name b k after = ap (block_byte name b k) e in
    elim (Option-cases (file.strip_paths (strip_of b w))) [
      | inl no_strip ↦
          let differ : (b == a) ≡ false = elim (Bool-cases (b == a)) [
            | inl same ↦
                let twin : file.strip_paths (strip_of b w) ≡ file.strip_paths (strip_of a w) =
                  ap (λ x. file.strip_paths (strip_of x w)) ((==_iff b a).0 same) in
                absurd (cc (twin, no_strip, kept))
            | inr other ↦ other
          ] in
          before
          ∙ no_strip_byte name b k after f.known no_strip
          ∙ (rw (differ, no_strip_byte name b k s f.known no_strip) refl)
      | inr (other, strip) ↦
          before
          ∙ block_byte-at name b k after f.known strip
          ∙ disk_value-write_disk 1024 at bytes dirty path other content s.disk (position b w + k)
              f.stored
          ∙ hit-block a b w k dirty bytes path other name
              (disk_value s.disk other (position b w + k)) (ground (arith, f.width)) (omega arith)
              fb (Found-aligned f fa) zb small (wf name file f.known (strip_of a w) path kept).0
              (wf name file f.known (strip_of b w) other strip).0
          ∙ (rw (sym (block_byte-at name b k s f.known strip)) refl)
    ]
