-- ===== src/Tests/Io.antt =====
-- A write and a read of a client over a new cache, and a file with one strip.
use pfs.Base.{
  ℕ, ◌<◌, ◌≡◌, refl, Bool, true, false, List, [], ◌∷◌, lookup, insert, length, get_or, arith,
}
use pfs.Manager.{ok}
use pfs.FileServer.{FileServer, replied, create_file, write_disk, strip_of}
use pfs.FileServer.Invariant.{IsWellFormed, create_file-IsWellFormed}
use pfs.Client.{PfsClient}
use pfs.Cache.{Cache, done, new_cache}
use pfs.Cache.Start.{new_shape, new_cache-IsCache, new_cache-free}
use pfs.Placement.{Servers, Keeps}
use pfs.Placement.Io.{Serves, read_granted, write_granted, read_granted-write_granted}
use pfs.Tests.Stripes.{new_server, nothing_stored, strip_file, new_server-IsWellFormed}
use pfs.Tests.Blocks.{same_number, memory}

abbrev one_strip : FileServer
one_strip = record {
  files = ("f", record strip_file { strip_width = 1 }) ∷ [];
  disk = write_disk ("f", 0) [] nothing_stored;
  lock_held = false;
}

creation : create_file "f" 1 0 new_server ≡ replied one_strip ok tt
unfolding create_file lookup insert
creation = refl

one_strip-Keeps : (a : ℕ) → Keeps "f" 1 one_strip (strip_of a 1)
unfolding lookup strip_of
one_strip-Keeps a =
    let only : strip_of a 1 ≡ 0 = omega arith in
    (record strip_file { strip_width = 1 }, refl, refl, rw only refl)

abbrev pub servers : Servers
servers i = one_strip

one_strip-IsWellFormed : IsWellFormed one_strip
one_strip-IsWellFormed =
    create_file-IsWellFormed "f" 1 0 new_server one_strip new_server-IsWellFormed creation

pub servers_serve : Serves "f" 1 servers
servers_serve = (omega arith, λ a. (one_strip-IsWellFormed, refl, one_strip-Keeps a))

-- A client with the file open.
abbrev pub client : PfsClient
client = record {
  stub = true;
  opened_files =
      record {
        info = record {
          name = "f";
          stat = record { pst_mtime = 0; pst_ctime = 0; pst_size = 0 };
          strip_width = 1;
          has_modified = false;
        };
        descriptor = 1;
        permissions = [];
      }
      ∷ [];
  descriptor_count = 1;
}

read_granted-write_granted_example :
    (p' : PfsClient) × (p'' : PfsClient) × (c' : Cache) × (c'' : Cache) × (bytes : List ℕ)
    × (written_hit : Bool) × (read_hit : Bool) × (write_granted same_number
          (λ i. 0)
          servers
          0
          1
          3
          1020
          2000
          (λ i. i)
          client
          (new_cache memory)
        ≡ done (p', written_hit) c')
    × (read_granted same_number (λ i. 0) servers 0 1 3 1020 2000 p' c'
        ≡ done (p'', bytes, read_hit) c'')
    × (length bytes ≡ 2000)
    × ((j : ℕ) → j < 2000 → get_or bytes j 0 ≡ j)
read_granted-write_granted_example =
    read_granted-write_granted same_number (λ i. 0) servers 0 1 3 1020 2000 (λ i. i) client
      new_shape (new_cache memory) (new_cache-IsCache same_number memory) servers_serve
      (omega arith) (omega arith) (omega (arith, (new_cache-free same_number memory).0))
      (omega (arith, (new_cache-free same_number memory).1))
