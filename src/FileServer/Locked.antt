-- ===== src/FileServer/Locked.antt =====
-- What a request for an unknown file leaves behind: the handlers take `lock` and return without
-- giving it back.
use pfs.Base.{ℕ, ◌≡◌, refl, Bool, true, false, List, [], none, String, lookup}
use pfs.Manager.{cancelled}
use pfs.FileServer.{
  FileServer, blocked, replied, create_file, read_file, write_file, read_block, write_block,
}

-- Each of the four requests on a strip refuses a name that the server does not know, and from then on
-- no request of any kind is answered, for a known name either.
pub unknown_file-blocked :
    (name : String) (addr size : ℕ) (bytes : List ℕ) (dirty : ℕ → Bool) (junk : ℕ → ℕ)
    (s : FileServer)
    → s.lock_held ≡ false
    → lookup name s.files ≡ none
    → let s' : FileServer = record s { lock_held = true } in
      (read_file name addr size junk s ≡ replied s' cancelled [])
      × (write_file name addr bytes s ≡ replied s' cancelled tt)
      × (read_block name addr junk s ≡ replied s' cancelled [])
      × (write_block name addr bytes dirty s ≡ replied s' cancelled tt)
      × ((other : String) (at : ℕ)
          → (create_file other size at s' ≡ blocked)
            × (read_file other at size junk s' ≡ blocked)
            × (write_file other at bytes s' ≡ blocked)
            × (read_block other at junk s' ≡ blocked)
            × (write_block other at bytes dirty s' ≡ blocked))
unfolding create_file read_file write_file read_block write_block
unknown_file-blocked name addr size bytes dirty junk s free unknown = (
  rw (free, read_file, unknown) refl,
  rw (free, write_file, unknown) refl,
  rw (free, read_block, unknown) refl,
  rw (free, write_block, unknown) refl,
  λ other at. (refl, refl, refl, refl, refl),
)
