-- ===== src/FileServer/Stored.antt =====
-- The bytes that a server stores, as an independent view of its disk, and what a block write does
-- to those of every block of the file.
use text.Mathlib.TextEquality.{eq_iff}
use pfs.Base.{
  ℕ, ◌+◌, ◌-◌, ◌%◌, ◌<◌, ◌≤◌, ◌^◌, ◌≡◌, sym, ap, subst, ◌∙◌, inl, inr, Bool, true, ◌&&◌, List,
  arith, ltb, leb, ◌==◌, ==_iff, if◌then◌else◌, length, get_or, Bool-cases, Option, none, some,
  Option-cases, String, lookup, str_eq-true,
}
use pfs.Manager.{ok}
use pfs.FileServer.{
  FileServer, FsFile, StripPath, Disk, replied, path_eq, write_disk, strip_of, position,
  write_dirty, write_block,
}
use pfs.FileServer.Layout.{position-apart, max_size-lt}
use pfs.FileServer.Blocks.{length-write_dirty, get_or-write_dirty}
use pfs.FileServer.Handlers.{Found, Found-strip, write_block-Found}
use pfs.FileServer.Invariant.{IsWellFormed}

byte_of : List ℕ → ℕ → Option ℕ
byte_of content at = if ltb at (length content) then some (get_or content at 0) else none

disk_byte : Disk → StripPath → ℕ → Option ℕ
unfolding byte_of
disk_byte d path at = elim (d path) [ none ↦ none | some content ↦ byte_of content at ]

-- The `k`-th byte of the block at `addr`, if the server keeps the block's strip and its file has
-- that byte.
unfoldable pub stored_byte : String → ℕ → ℕ → FileServer → Option ℕ
unfolding disk_byte
stored_byte name addr k s = elim (lookup name s.files) [
  | none ↦ none
  | some file ↦ elim (file.strip_paths (strip_of addr file.strip_width)) [
    | none ↦ none
    | some path ↦ disk_byte s.disk path (position addr file.strip_width + k)
  ]
]

pub path_eq-true : (p q : StripPath) → path_eq p q ≡ true → p ≡ q
path_eq-true (n, i) (m, j) h =
    let e : n ≡ m = str_eq-true n m (ground arith) in
    let e' : i ≡ j = (==_iff i j).0 (ground arith) in cc

-- One position of a strip's file under the loop of `WriteBlock`.
byte_of-write_dirty :
    (n at : ℕ) (bytes : List ℕ) (dirty : ℕ → Bool) (f : List ℕ) (q v : ℕ)
    → byte_of f q ≡ some v
    → byte_of (write_dirty n at bytes dirty 0 f) q
      ≡ some (
          if leb (at + 0) q && ltb q (at + 0 + n) && dirty (q - at)
          then get_or bytes (q - at) 0
          else v)
unfolding byte_of
byte_of-write_dirty n at bytes dirty f q v h =
    ground
      (arith, length-write_dirty n at bytes dirty 0 f, get_or-write_dirty n at bytes dirty 0 q f)

-- The position lies in the block that is written, and its byte is dirty.
abbrev pub hit : ℕ → ℕ → (ℕ → Bool) → ℕ → Bool
hit n at dirty q = leb (at + 0) q && ltb q (at + 0 + n) && dirty (q - at)

disk_byte-write_disk :
    (n at : ℕ) (bytes : List ℕ) (dirty : ℕ → Bool) (path other : StripPath) (f : List ℕ) (d : Disk)
    (q v : ℕ)
    → d path ≡ some f
    → disk_byte d other q ≡ some v
    → disk_byte (write_disk path (write_dirty n at bytes dirty 0 f) d) other q
      ≡ some (if path_eq path other && hit n at dirty q then get_or bytes (q - at) 0 else v)
unfolding disk_byte write_disk
disk_byte-write_disk n at bytes dirty path other f d q v stored was =
    elim (Bool-cases (path_eq path other)) [
      | inl same ↦
          let e : d path ≡ d other = ap d (path_eq-true path other same) in
          let before : byte_of f q ≡ some v = ground arith in
          rw (same, disk_byte) (byte_of-write_dirty n at bytes dirty f q v before)
      | inr differ ↦ rw (differ, disk_byte) was
    ]

stored_byte-at :
    (name : String) (addr k : ℕ) (s : FileServer) {file : FsFile} {path : StripPath}
    → lookup name s.files ≡ some file
    → file.strip_paths (strip_of addr file.strip_width) ≡ some path
    → stored_byte name addr k s ≡ disk_byte s.disk path (position addr file.strip_width + k)
unfolding stored_byte
stored_byte-at name addr k s known strip = ground arith

no_strip-stored :
    (name : String) (addr k : ℕ) (s : FileServer) {file : FsFile} {v : ℕ}
    → lookup name s.files ≡ some file
    → file.strip_paths (strip_of addr file.strip_width) ≡ none
    → ¬ (stored_byte name addr k s ≡ some v)
unfolding stored_byte
no_strip-stored name addr k s known strip h = ground arith

-- Which of the bytes it is, told by the two block addresses.
pub hit-block :
    (a b w k : ℕ) (dirty : ℕ → Bool) (bytes : List ℕ) (path other : StripPath) (name : String)
    (v : ℕ)
    → 0 < w
    → a < 2 ^ 31
    → b < 2 ^ 31
    → a % 1024 ≡ 0
    → b % 1024 ≡ 0
    → k < 1024
    → path ≡ (name, strip_of a w)
    → other ≡ (name, strip_of b w)
    → (if path_eq path other && hit 1024 (position a w) dirty (position b w + k)
        then get_or bytes (position b w + k - position a w) 0
        else v)
      ≡ (if b == a && dirty k then get_or bytes k 0 else v)
hit-block a b w k dirty bytes path other name v h fa fb za zb small pa pb =
    elim (Bool-cases (b == a)) [
      | inl same ↦
          let e : b ≡ a = (==_iff b a).0 same in
          let place : position b w + k - position a w ≡ k = rw e (omega arith) in
          let twin : position b w ≡ position a w = ap (λ x. position x w) e in
          let byte : get_or bytes (position b w + k - position a w) 0 ≡ get_or bytes k 0 =
            ap (λ j. get_or bytes j 0) place in
          let mark : dirty (position b w + k - position a w) ≡ dirty k = ap dirty place in
          let strips : strip_of b w ≡ strip_of a w = ap (λ x. strip_of x w) e in
          let paths : path_eq path other ≡ true =
            rw (pa, pb, strips) (ground (arith, eq_iff name name)) in
          ground arith
      | inr differ ↦
          let apart =
            λ (strips : strip_of a w ≡ strip_of b w) (le : position a w ≤ position b w + k)
                (lt : position b w + k < position a w + 1024).
              position-apart a b w (position b w + k - position a w) k h fa fb za zb strips
                (omega arith) small (omega arith) in
          elim (Bool-cases
            (path_eq path other && hit 1024 (position a w) dirty (position b w + k))) [
              | inl both ↦
                  let e : path ≡ other = path_eq-true path other (ground arith) in
                  let strips : strip_of a w ≡ strip_of b w =
                    ap (λ (x : StripPath). x.1) (sym pa ∙ e ∙ pb) in
                  let r = apart strips (ground arith) (ground arith) in ground arith
              | inr miss ↦ rw (miss, differ)
            ]
    ]

pub Found-aligned :
    {name : String} {a : ℕ} {s : FileServer} {file : FsFile} {path : StripPath} {content : List ℕ}
    → Found name a s file path content
    → a + 1024 ≤ 2 ^ 31
    → a % 1024 ≡ 0
Found-aligned {a} f fits = ground (arith, max_size-lt a fits, f.fits)

-- A block write that succeeds replaces the dirty bytes of its block, and leaves every other stored
-- byte of the file as it was: those of the block that are not dirty, and those of every other
-- block. The written block ends at `2 ^ 31` at most, the addresses of the others are below `2 ^ 31`,
-- and the server's strips are at their own paths.
pub write_block-stored_byte :
    (name : String) (a : ℕ) (bytes : List ℕ) (dirty : ℕ → Bool) (s s' : FileServer) (b k v : ℕ)
    → IsWellFormed s
    → a + 1024 ≤ 2 ^ 31
    → b < 2 ^ 31
    → b % 1024 ≡ 0
    → k < 1024
    → write_block name a bytes dirty s ≡ replied s' ok tt
    → stored_byte name b k s ≡ some v
    → stored_byte name b k s' ≡ some (if b == a && dirty k then get_or bytes k 0 else v)
write_block-stored_byte name a bytes dirty s s' b k v wf fa fb zb small h was =
    let (file, path, content, f, e) = write_block-Found name a bytes dirty s s' h in
    let w : ℕ = file.strip_width in
    let at : ℕ = position a w in
    let after : FileServer = record s {
      disk = write_disk path (write_dirty 1024 at bytes dirty 0 content) s.disk;
    } in
    let found = Found-aligned f fa in
    let kept = Found-strip f (omega arith) in
    elim (Option-cases (file.strip_paths (strip_of b w))) [
      | inl no_strip ↦ absurd (no_strip-stored name b k s f.known no_strip was)
      | inr (other, strip) ↦
          let before = sym (stored_byte-at name b k s f.known strip) ∙ was in
          let changed =
            disk_byte-write_disk 1024 at bytes dirty path other content s.disk (position b w + k) v
              f.stored before in
          let width : 0 < w = ground (arith, f.width) in
          let told =
            hit-block a b w k dirty bytes path other name v width (omega arith) fb found zb small
              (wf name file f.known (strip_of a w) path kept).0
              (wf name file f.known (strip_of b w) other strip).0 in
          subst
            (λ t. stored_byte name b k t ≡ some (if b == a && dirty k then get_or bytes k 0 else v))
            (sym e) (stored_byte-at name b k after f.known strip ∙ changed ∙ ap some told)
    ]
