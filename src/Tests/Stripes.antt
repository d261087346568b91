-- ===== src/Tests/Stripes.antt =====
-- A file of two stripes, from its creation to a block that is written and read back.
use pfs.Base.{
  ℕ, ◌%◌, ◌<◌, ◌≡◌, refl, Bool, true, false, List, [], ◌∷◌, arith, ltb, i32_lt, ◌==◌, if◌then◌else◌,
  get_or, none, some, String, lookup, insert,
}
use pfs.Manager
use pfs.Manager.{ok, cancelled}
use pfs.FileServer.{
  FileServer, FsFile, Disk, replied, blocked, write_disk, write_dirty, create_file, read_file,
  write_file, read_block, write_block, strip_of, position, max_size, units, strip_index,
  file_offset,
}
use pfs.FileServer.Locked.{unknown_file-blocked}
use pfs.FileServer.Invariant.{IsWellFormed, create_file-IsWellFormed, write_block-IsWellFormed}
use pfs.FileServer.Stored.{stored_byte, write_block-stored_byte}
use pfs.Client.{PfsClient, find_descriptor, file_server_index}
use pfs.Placement.Flush.{flush, get_block_from_file_server, get_block-flush}
use pfs.Placement.Answers.{block_requests-answered}
use pfs.Placement.{Servers, IsReady, Keeps, place_all, create_file-Keeps}

abbrev pub nothing_stored : Disk
nothing_stored p = none

abbrev pub new_server : FileServer
new_server = record { files = []; disk = nothing_stored; lock_held = false }

abbrev no_files : Manager.Manager
no_files = record { files = []; client_stubs = [] }

abbrev five_servers : Servers
five_servers i = new_server

five_servers-IsReady : IsReady "f" 2 five_servers
unfolding lookup
five_servers-IsReady j = (refl, λ file h. cc)

create_file-Keeps_example :
    let r = Manager.create_file "f" 2 10 10 no_files in
    (r.0.status ≡ ok)
    × ((ss' : Servers) × (place_all r.1 five_servers ≡ some ss')
        × ((addr : ℕ) → Keeps "f" 2 (ss' (file_server_index addr 2)) (strip_of addr 2)))
unfolding lookup
create_file-Keeps_example =
    create_file-Keeps "f" 2 10 10 no_files five_servers (omega arith) refl five_servers-IsReady

pub new_server-IsWellFormed : IsWellFormed new_server
unfolding lookup
new_server-IsWellFormed name file h = cc

abbrev pub strip_file : FsFile
strip_file = record {
  name = "f";
  strip_width = 2;
  strip_paths = λ i. if 0 == i then some ("f", 0) else none;
}

abbrev server1 : FileServer
server1 = record {
  files = ("f", strip_file) ∷ [];
  disk = write_disk ("f", 0) [] nothing_stored;
  lock_held = false;
}

-- A write of the first bytes of the block at 0.
abbrev first_bytes : List ℕ
first_bytes = 7 ∷ 8 ∷ 9 ∷ []

abbrev first_dirty : ℕ → Bool
first_dirty i = ltb i 3

abbrev server2 : FileServer
server2 = record server1 {
  disk = write_disk ("f", 0) (write_dirty 1024 0 first_bytes first_dirty 0 []) server1.disk;
}

-- And one of the second byte alone.
abbrev second_bytes : List ℕ
second_bytes = 1 ∷ 2 ∷ 3 ∷ []

abbrev second_dirty : ℕ → Bool
second_dirty i = i == 1

abbrev server3 : FileServer
server3 = record server2 {
  disk =
      write_disk ("f", 0)
        (write_dirty 1024 0 second_bytes second_dirty 0
          (write_dirty 1024 0 first_bytes first_dirty 0 []))
        server2.disk;
}

creation : create_file "f" 2 0 new_server ≡ replied server1 ok tt
unfolding create_file lookup insert
creation = refl

write1 : write_block "f" 0 first_bytes first_dirty server1 ≡ replied server2 ok tt
unfolding write_block lookup write_disk strip_of strip_index units position file_offset max_size
    i32_lt
write1 = refl

write2 : write_block "f" 0 second_bytes second_dirty server2 ≡ replied server3 ok tt
unfolding write_block lookup write_disk strip_of strip_index units position file_offset max_size
    i32_lt
write2 = refl

server1-IsWellFormed : IsWellFormed server1
server1-IsWellFormed =
    create_file-IsWellFormed "f" 2 0 new_server server1 new_server-IsWellFormed creation

server2-IsWellFormed : IsWellFormed server2
server2-IsWellFormed =
    write_block-IsWellFormed "f" 0 first_bytes first_dirty server1 server2 server1-IsWellFormed
      write1

stored : stored_byte "f" 0 2 server2 ≡ some 9
unfolding stored_byte lookup write_disk strip_of position file_offset units write_dirty
stored = refl

write_block-stored_byte_example : stored_byte "f" 0 2 server3 ≡ some 9
write_block-stored_byte_example =
    write_block-stored_byte "f" 0 second_bytes second_dirty server2 server3 0 2 9
      server2-IsWellFormed (omega arith) (omega arith) refl (omega arith) write2 stored

abbrev block_address : ℕ
block_address = 4096

abbrev byte_index : ℕ
byte_index = 5

unknown_file-blocked_example :
    let s' : FileServer = record server1 { lock_held = true } in
    (read_file "g" 0 10 (λ i. 0) server1 ≡ replied s' cancelled [])
    × (write_file "g" 0 first_bytes server1 ≡ replied s' cancelled tt)
    × (read_block "g" 0 (λ i. 0) server1 ≡ replied s' cancelled [])
    × (write_block "g" 0 first_bytes first_dirty server1 ≡ replied s' cancelled tt)
    × ((other : String) (at : ℕ)
        → (create_file other 10 at s' ≡ blocked)
          × (read_file other at 10 (λ i. 0) s' ≡ blocked)
          × (write_file other at first_bytes s' ≡ blocked)
          × (read_block other at (λ i. 0) s' ≡ blocked)
          × (write_block other at first_bytes first_dirty s' ≡ blocked))
unfolding lookup
unknown_file-blocked_example =
    unknown_file-blocked "g" 0 10 first_bytes first_dirty (λ i. 0) server1 refl refl

server1-Keeps : Keeps "f" 2 server1 (strip_of 0 2)
unfolding lookup strip_of
server1-Keeps = (strip_file, refl, refl, refl)

block_requests-answered_example :
    (0 % 1024 ≡ 0
      → ((s' : FileServer) × (write_block "f" 0 first_bytes first_dirty server1 ≡ replied s' ok tt)
          × (s'.lock_held ≡ false)
          × (s'.files ≡ server1.files))
        × ((out : List ℕ) × (read_block "f" 0 (λ i. 0) server1 ≡ replied server1 ok out)))
    × (0 < 0 % 1024
        → (write_block "f" 0 first_bytes first_dirty server1 ≡ replied server1 cancelled tt)
          × (read_block "f" 0 (λ i. 0) server1 ≡ replied server1 cancelled []))
block_requests-answered_example =
    block_requests-answered "f" 2 0 first_bytes first_dirty (λ i. 0) server1 server1-IsWellFormed
      refl (omega arith) (omega arith) server1-Keeps

-- A client with the file open, and servers that all keep its first strip.
abbrev pub reader : PfsClient
reader = record {
  stub = true;
  opened_files =
      record {
        info = record {
          name = "f";
          stat = record { pst_mtime = 0; pst_ctime = 0; pst_size = 0 };
          strip_width = 2;
          has_modified = false;
        };
        descriptor = 1;
        permissions = [];
      }
      ∷ [];
  descriptor_count = 1;
}

abbrev same_servers : Servers
same_servers i = server1

get_block-flush_example :
    (ss' : Servers) × (flush 1 0 first_bytes first_dirty reader same_servers ≡ some ss')
    × ((out : List ℕ) × (get_block_from_file_server 0 0 (λ i. 0) reader ss' ≡ some out)
        × ((k : ℕ) → k < 1024 → first_dirty k ≡ true → get_or out k 0 ≡ get_or first_bytes k 0))
unfolding find_descriptor
get_block-flush_example =
    get_block-flush 1 0 0 first_bytes first_dirty (λ i. 0) reader same_servers refl (omega arith)
      refl (omega arith) server1-IsWellFormed refl server1-Keeps
