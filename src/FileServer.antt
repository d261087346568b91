-- ===== src/FileServer.antt =====
-- file_server/file_server.cpp and file_server/fs_file.cpp: a file server, which keeps the strips of
-- a file as files of its own disk. A strip's path is the directory, the file's name, `_` and the
-- strip's number; one server has one directory, so the name and the number stand for the path.
-- `lock` is shown where a handler waits for it and where it returns without giving it back.
-- Addresses are `int32`s of the protocol, kept as their 32-bit patterns: a pattern from `2 ^ 31` on
-- stands for a negative number, and an `int` that overflows wraps around. Stripe widths are `int`s
-- too, and not negative.
pub mod Layout
pub mod Blocks
pub mod Handlers
pub mod Locked
pub mod Invariant
pub mod Stored
pub mod Values
use pfs.Base.{
  ℕ, zero, suc, ◌+◌, ◌-◌, ◌*◌, ◌/◌, ◌%◌, ◌^◌, Bool, true, false, ◌&&◌, Option, none, some, List, [],
  ◌∷◌, String, str_eq, ltb, i32_lt, ◌==◌, if◌then◌else◌, lookup, insert, length, get_or,
}
use pfs.Config.{pfs_block_size_in_bytes, strip_bytes}
use pfs.Manager.{Status, ok, cancelled}

abbrev pub StripPath : Type 0
StripPath = String × ℕ

-- `FSFile`: the paths of the strips that this server keeps.
pub record FsFile : Type 0 where
  pub name : String
  pub strip_width : ℕ
  pub strip_paths : ℕ → Option StripPath

-- The native files, by path.
abbrev pub Disk : Type 0
Disk = StripPath → Option (List ℕ)

pub record FileServer : Type 0 where
  pub files : List (String × FsFile)
  pub disk : Disk
  pub lock_held : Bool

-- What comes of a request: it waits for `lock` for ever, the server fails (a division by zero, a
-- null `FILE`), or it answers.
pub data Outcome (A : Type 0) : Type 0 where
  blocked : Outcome A
  crashed : Outcome A
  replied : FileServer → Status → A → Outcome A

abbrev pub path_eq : StripPath → StripPath → Bool
path_eq p q = str_eq p.0 q.0 && (p.1 == q.1)

unfoldable pub write_disk : StripPath → List ℕ → Disk → Disk
write_disk p bytes d q = if path_eq p q then some bytes else d q

abbrev pub no_strips : ℕ → Option StripPath
no_strips index = none

-- `addStrip`; opening the path for writing empties it.
unfoldable pub add_strip : StripPath → ℕ → FsFile → Disk → FsFile × Disk
unfolding write_disk
add_strip path index file d = (
  record file { strip_paths = λ i. if index == i then some path else file.strip_paths i },
  write_disk path [] d,
)

-- `getStripPath`; the empty path is `none`, and so is the path of a negative number, here `none`.
abbrev pub get_strip_path : Option ℕ → FsFile → Option StripPath
get_strip_path index file = elim index [ none ↦ none | some i ↦ file.strip_paths i ]

-- The file that `CreateFile` adds the strip to: the known one, or a new one.
abbrev pub find_or_new : String → ℕ → List (String × FsFile) → FsFile
find_or_new name stripe_width files = elim (lookup name files) [
  | none ↦ record { name = name; strip_width = stripe_width; strip_paths = no_strips }
  | some old ↦ old
]

-- `CreateFile`
unfoldable pub create_file : String → ℕ → ℕ → FileServer → Outcome (Unit {0})
unfolding add_strip
create_file name stripe_width id s =
    if s.lock_held
    then blocked
    else (let (file, disk) =
          add_strip (name, id) id (find_or_new name stripe_width s.files) s.disk in
        replied (record s { files = insert name file s.files; disk = disk }) ok tt)

-- The strip of an address that is not negative, as the client counts.
unfoldable pub strip_of : ℕ → ℕ → ℕ
strip_of addr width = addr / strip_bytes % width

-- An `int` divided by the size of a strip unit, the quotient cut off towards 0.
unfoldable pub units : ℕ → ℕ
units x = if ltb x (2 ^ 31) then x / strip_bytes else (2 ^ 32 - (2 ^ 32 - x) / strip_bytes) % 2 ^ 32

-- `strip`: a negative quotient leaves a remainder that is 0 or negative, which is `none`.
unfoldable pub strip_index : ℕ → ℕ → Option ℕ
unfolding units
strip_index addr width =
    let quotient : ℕ = units addr in
    if ltb quotient (2 ^ 31)
    then some (quotient % width)
    else if (2 ^ 32 - quotient) % width == 0
    then some 0
    else none

-- `maxSize`: the end of the strip unit that the address lies in.
unfoldable pub max_size : ℕ → ℕ
unfolding units
max_size addr = units ((addr + strip_bytes) % 2 ^ 32) * strip_bytes % 2 ^ 32

-- How far the address lies behind its place in the strip's file, a `uint32_t`.
unfoldable pub file_offset : ℕ → ℕ → ℕ
unfolding units
file_offset addr width =
    let stripe_index : ℕ = units addr in
    ((stripe_index - stripe_index % width) / width * (width - 1) * strip_bytes
      + stripe_index % width * strip_bytes)
    % 2 ^ 32

-- `request->addr() - fileOffset`, where `fseek` goes.
unfoldable pub position : ℕ → ℕ → ℕ
unfolding file_offset
position addr width = (addr + 2 ^ 32 - file_offset addr width) % 2 ^ 32

-- `new char[n]` filled by `fread` from a position: what lies behind the end of the file keeps the
-- bytes that the memory held, `junk`.
unfoldable pub read_bytes : ℕ → ℕ → List ℕ → (ℕ → ℕ) → ℕ → List ℕ
read_bytes zero at content junk i = []
read_bytes (suc n) at content junk i =
    (if ltb (at + i) (length content) then get_or content (at + i) 0 else junk i)
    ∷ read_bytes n at content junk (suc i)

-- One byte written at a position; a gap behind the end of the file is filled with 0.
unfoldable pub put : ℕ → ℕ → List ℕ → List ℕ
put zero b [] = b ∷ []
put zero b (c ∷ cs) = b ∷ cs
put (suc n) b [] = 0 ∷ put n b []
put (suc n) b (c ∷ cs) = c ∷ put n b cs

-- The loop of `WriteBlock`: `n` bytes from the `i`-th on, the dirty ones written.
unfoldable pub write_dirty : ℕ → ℕ → List ℕ → (ℕ → Bool) → ℕ → List ℕ → List ℕ
unfolding put
write_dirty zero at bytes dirty i content = content
write_dirty (suc n) at bytes dirty i content =
    write_dirty n at bytes dirty (suc i)
      (if dirty i then put (at + i) (get_or bytes i 0) content else content)

-- What the four requests do with the file that they found, `lock` given back: the tests on its
-- strip and on the range, and then `k` at the path and the position.
abbrev pub at_strip :
    {A : Type 0} → FsFile → ℕ → ℕ → FileServer → A → (StripPath → ℕ → Outcome A) → Outcome A
at_strip file start size s refused k =
    if file.strip_width == 0
    then crashed
    else (elim (get_strip_path (strip_index start file.strip_width) file) [
      | none ↦ replied s cancelled refused
      | some path ↦
          if i32_lt (max_size start) ((start + size) % 2 ^ 32)
          then replied s cancelled refused
          else k path (position start file.strip_width)
    ])

-- A request looks the file up under `lock`; if there is none it returns without giving it back.
abbrev pub with_file : {A : Type 0} → String → FileServer → A → (FsFile → Outcome A) → Outcome A
with_file name s refused k = if s.lock_held then blocked else (elim (lookup name s.files) [
  | none ↦ replied (record s { lock_held = true }) cancelled refused
  | some file ↦ k file
])

-- `ReadFile`
unfoldable pub read_file : String → ℕ → ℕ → (ℕ → ℕ) → FileServer → Outcome (List ℕ)
read_file name start size junk s = with_file name s [] λ file.
    at_strip file start size s [] λ path at. elim (s.disk path) [
      | none ↦ replied s cancelled []
      | some content ↦ replied s ok (read_bytes size at content junk 0)
    ]

abbrev pub all_dirty : ℕ → Bool
all_dirty i = true

-- `WriteFile`; `fwrite` of a range writes each byte of it.
unfoldable pub write_file : String → ℕ → List ℕ → FileServer → Outcome (Unit {0})
write_file name start bytes s = with_file name s tt λ file.
    at_strip file start (length bytes) s tt λ path at. elim (s.disk path) [
      | none ↦ crashed
      | some content ↦
          replied
            (record s {
              disk =
                  write_disk path (write_dirty (length bytes) at bytes all_dirty 0 content) s.disk;
            })
            ok tt
    ]

-- `ReadBlock`
unfoldable pub read_block : String → ℕ → (ℕ → ℕ) → FileServer → Outcome (List ℕ)
read_block name addr junk s = with_file name s [] λ file.
    at_strip file addr pfs_block_size_in_bytes s [] λ path at. elim (s.disk path) [
      | none ↦ replied s cancelled []
      | some content ↦ replied s ok (read_bytes pfs_block_size_in_bytes at content junk 0)
    ]

-- `WriteBlock`
unfoldable pub write_block : String → ℕ → List ℕ → (ℕ → Bool) → FileServer → Outcome (Unit {0})
write_block name addr bytes dirty s = with_file name s tt λ file.
    at_strip file addr pfs_block_size_in_bytes s tt λ path at. elim (s.disk path) [
      | none ↦ crashed
      | some content ↦
          replied
            (record s {
              disk =
                  write_disk path (write_dirty pfs_block_size_in_bytes at bytes dirty 0 content)
                    s.disk;
            })
            ok tt
    ]
