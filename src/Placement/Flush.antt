-- ===== src/Placement/Flush.antt =====
-- client/pfs_client.cpp: `flush` and `getBlockFromFileServer`, with the file servers that they call.
-- A failed assertion, and a call that is never answered, is `none`.
use pfs.Base.{
  ℕ, ◌+◌, ◌%◌, ◌^◌, ◌≤◌, ◌<◌, ◌≡◌, refl, Bool, true, false, List, arith, ◌==◌, if◌then◌else◌,
  Option, none, some, get_or,
}
use pfs.Manager.{ok, cancelled}
use pfs.FileServer.{
  FileServer, Outcome, blocked, crashed, replied, strip_of, read_block, write_block,
}
use pfs.FileServer.Handlers.{read_block-write_block}
use pfs.FileServer.Invariant.{IsWellFormed}
use pfs.Client.{PfsClient, file_at, find_descriptor, file_server_index}
use pfs.Placement.{Servers, update, Keeps}
use pfs.Placement.Answers.{block_requests-answered}

-- The reply to `WriteBlock`, of the server at an index.
pub after_write : ℕ → Servers → Outcome (Unit {0}) → Option Servers
unfolding update
after_write k servers blocked = none
after_write k servers crashed = none
after_write k servers (replied s ok a) = some (update k s servers)
after_write k servers (replied s cancelled a) = none

-- The reply to `ReadBlock`.
unfoldable pub after_read : Outcome (List ℕ) → Option (List ℕ)
after_read blocked = none
after_read crashed = none
after_read (replied s ok bytes) = some bytes
after_read (replied s cancelled bytes) = none

-- The request's address is an `int32`, which keeps the bits of the client's `uint32_t`; the server
-- reads them as a signed number. A division by a stripe width of 0 ends the client.
unfoldable pub flush : ℕ → ℕ → List ℕ → (ℕ → Bool) → PfsClient → Servers → Option Servers
unfolding after_write
flush filedes addr bytes dirty c servers = elim (find_descriptor filedes c) [
  | none ↦ none
  | some found_at ↦
      let info = (file_at c found_at).info in
      let k : ℕ = file_server_index addr info.strip_width in
      if info.strip_width == 0
      then none
      else after_write k servers (write_block info.name addr bytes dirty (servers k))
]

-- The request's address is an `int32` here too. The server's state after the read is its state before it, but for the lock of a failed one.
unfoldable pub get_block_from_file_server : ℕ → ℕ → (ℕ → ℕ) → PfsClient → Servers → Option (List ℕ)
unfolding after_read
get_block_from_file_server file_index addr junk c servers =
    let info = (file_at c file_index).info in
    if info.strip_width == 0
    then none
    else after_read
        (read_block info.name addr junk (servers (file_server_index addr info.strip_width)))

module _ (addr : ℕ) (c : PfsClient) (ss : Servers) (i : ℕ) where
  index_of : ℕ
  unfolding file_server_index
  index_of = file_server_index addr (file_at c i).info.strip_width

  flush-update :
      (filedes : ℕ) (bytes : List ℕ) (dirty : ℕ → Bool) (s' : FileServer)
      → find_descriptor filedes c ≡ some i
      → 0 < (file_at c i).info.strip_width
      → write_block (file_at c i).info.name addr bytes dirty (ss index_of) ≡ replied s' ok tt
      → flush filedes addr bytes dirty c ss ≡ some (update index_of s' ss)
  unfolding flush index_of
  flush-update filedes bytes dirty s' known wide written =
      let nonzero : ((file_at c i).info.strip_width == 0) ≡ false = ground arith in
      rw (known, flush, nonzero, written) refl

  get_block-update :
      (junk : ℕ → ℕ) (s' t : FileServer) (out : List ℕ)
      → 0 < (file_at c i).info.strip_width
      → read_block (file_at c i).info.name addr junk s' ≡ replied t ok out
      → get_block_from_file_server i addr junk c (update index_of s' ss) ≡ some out
  unfolding get_block_from_file_server update index_of
  get_block-update junk s' t out wide read =
      let nonzero : ((file_at c i).info.strip_width == 0) ≡ false = ground arith in
      let self : (index_of == index_of) ≡ true = ground arith in rw (nonzero, self, read) refl

pub flush-done :
    (filedes i addr : ℕ) (bytes : List ℕ) (dirty : ℕ → Bool) (c : PfsClient) (ss : Servers)
    (s' : FileServer)
    → find_descriptor filedes c ≡ some i
    → let info = (file_at c i).info in
      let k = file_server_index addr info.strip_width in
      0 < info.strip_width
      → write_block info.name addr bytes dirty (ss k) ≡ replied s' ok tt
      → flush filedes addr bytes dirty c ss ≡ some (update k s' ss)
unfolding index_of
flush-done filedes i addr bytes dirty c ss s' known wide written =
    flush-update addr c ss i filedes bytes dirty s' known wide written

-- A block that a client flushes reaches the server that keeps its strip, and every byte that was
-- marked dirty is what the client gets back when it fetches the block. The server is free and
-- well formed and keeps the strip, the client has the file open, its stripe width is not 0, and the
-- address is that of a block that ends at `2 ^ 31` at most.
pub get_block-flush :
    (filedes i addr : ℕ) (bytes : List ℕ) (dirty : ℕ → Bool) (junk : ℕ → ℕ) (c : PfsClient)
    (ss : Servers)
    → find_descriptor filedes c ≡ some i
    → let info = (file_at c i).info in
      let s = ss (file_server_index addr info.strip_width) in
      0 < info.strip_width
      → addr % 1024 ≡ 0
      → addr + 1024 ≤ 2 ^ 31
      → IsWellFormed s
      → s.lock_held ≡ false
      → Keeps info.name info.strip_width s (strip_of addr info.strip_width)
      → (ss' : Servers) × (flush filedes addr bytes dirty c ss ≡ some ss')
        × ((out : List ℕ) × (get_block_from_file_server i addr junk c ss' ≡ some out)
            × ((k : ℕ) → k < 1024 → dirty k ≡ true → get_or out k 0 ≡ get_or bytes k 0))
unfolding index_of
get_block-flush filedes i addr bytes dirty junk c ss known wide aligned fits wf free keeps =
    let info = (file_at c i).info in
    let k : ℕ = file_server_index addr info.strip_width in
    let answered =
      block_requests-answered info.name info.strip_width addr bytes dirty junk (ss k) wf free wide
        fits keeps in
    let ((s', written, _, _), _) = answered.0 aligned in
    let (out, read, same) =
      read_block-write_block info.name addr bytes dirty junk (ss k) s' written in
    (
      update k s' ss,
      flush-update addr c ss i filedes bytes dirty s' known wide written,
      (out, get_block-update addr c ss i junk s' s' out wide read, same),
    )
