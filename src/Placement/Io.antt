-- ===== src/Placement/Io.antt =====
-- `readFile` and `writeFile` of client/pfs_client.cpp once the token is held, over the client's cache
-- and the file servers.
use std.Path.{fun_ext}
use pfs.Base.{
  ℕ, zero, suc, ◌+◌, ◌*◌, ◌%◌, ◌^◌, ◌≤◌, ◌<◌, ◌≡◌, refl, sym, subst, ◌∙◌, Bool, false, Option, some,
  List, [], ◌∷◌, length, get_or, modify_at, String, arith, ◌==◌,
}
use pfs.FileServer.{strip_of}
use pfs.FileServer.Invariant.{IsWellFormed}
use pfs.Cache.{Cache, Run, blocked, crashed, done}
use pfs.Cache.Invariant.{Shape, IsCache}
use pfs.Client.{
  PfsClient, ClientFile, no_file, file_at, change_file, set_permissions, unlock_permission,
  note_write, file_server_index,
}
use pfs.Client.Transfers.{read_loop, write_loop}
use pfs.Client.Rounds.{rounds}
use pfs.Client.Stores.{read_loop-write_loop}
use pfs.Placement.{Servers, Keeps}
use pfs.Placement.Answers.{block_requests-answered}
use pfs.Placement.Flush.{get_block_from_file_server, after_read}

-- `unlockPermission` of the file at an index.
abbrev pub unlock_range : ℕ → ℕ → ℕ → PfsClient → PfsClient
unlock_range found_at offset nbyte p =
    change_file found_at
      (λ f.
        set_permissions
          (unlock_permission (offset % 2 ^ 32) ((offset + nbyte) % 2 ^ 32) f.permissions).0 f)
      p

-- The blocks of a file as the servers have them.
abbrev pub fetch_of : ℕ → (ℕ → ℕ) → Servers → PfsClient → ℕ → Option (List ℕ)
fetch_of found_at junk servers p a = get_block_from_file_server found_at a junk p servers

module _ (std_hash : ℕ → ℕ) (junk : ℕ → ℕ) (servers : Servers)
    (found_at filedes fuel offset nbyte : ℕ) where
  -- `readFile`: the bytes, and `cache_hit`.
  unfoldable pub read_granted : PfsClient → Cache → Run (PfsClient × List ℕ × Bool)
  unfolding get_block_from_file_server unlock_permission
  read_granted p c =
      elim (read_loop std_hash (fetch_of found_at junk servers p) filedes fuel offset nbyte c) [
        | blocked ↦ blocked
        | crashed ↦ crashed
        | done (bytes, hit) c' ↦ done (unlock_range found_at offset nbyte p, bytes, hit) c'
      ]

  -- `writeFile`: `cache_hit`.
  unfoldable pub write_granted : (ℕ → ℕ) → PfsClient → Cache → Run (PfsClient × Bool)
  unfolding get_block_from_file_server unlock_permission note_write
  write_granted source p c =
      let noted : PfsClient = note_write found_at offset nbyte p in
      elim (write_loop std_hash (fetch_of found_at junk servers noted) filedes fuel offset nbyte
        source c) [
          | blocked ↦ blocked
          | crashed ↦ crashed
          | done hit c' ↦ done (unlock_range found_at offset nbyte noted, hit) c'
        ]

-- A change of a file that keeps a part of it.
changed_part :
    {A : Type 0} (part : ClientFile → A) (change : ClientFile → ClientFile) (i : ℕ)
    (fs : List ClientFile)
    → ((f : ClientFile) → part (change f) ≡ part f)
    → part (get_or (modify_at i change fs) i no_file) ≡ part (get_or fs i no_file)
changed_part part change i [] same = refl
changed_part part change zero (f ∷ fs) same = same f
changed_part part change (suc i) (f ∷ fs) same = changed_part part change i fs same

-- Neither the notes of a write nor the unlocking of a range matter to what is fetched.
change_file-get_block :
    (change : ClientFile → ClientFile) (found_at : ℕ) (junk : ℕ → ℕ) (p : PfsClient)
    (servers : Servers)
    → ((f : ClientFile) → (change f).info.name ≡ f.info.name)
    → ((f : ClientFile) → (change f).info.strip_width ≡ f.info.strip_width)
    → fetch_of found_at junk servers (change_file found_at change p)
      ≡ fetch_of found_at junk servers p
unfolding get_block_from_file_server
change_file-get_block change found_at junk p servers name width = fun_ext λ a.
    rw
      (
        changed_part (λ f. f.info.name) change found_at p.opened_files name,
        changed_part (λ f. f.info.strip_width) change found_at p.opened_files width,
      )
      refl

-- Free and well-formed servers that keep every strip of a file answer for each of its blocks.
abbrev pub Serves : String → ℕ → Servers → Type 0
Serves name width servers =
    (0 < width)
    × ((a : ℕ)
        → let s = servers (file_server_index a width) in
          IsWellFormed s × (s.lock_held ≡ false) × Keeps name width s (strip_of a width))

pub block_served :
    (junk : ℕ → ℕ) (servers : Servers) (found_at a : ℕ) (p : PfsClient)
    → let info = (file_at p found_at).info in
      Serves info.name info.strip_width servers
      → a % 1024 ≡ 0
      → a < 2 ^ 31
      → (fetched : List ℕ) × (get_block_from_file_server found_at a junk p servers ≡ some fetched)
unfolding get_block_from_file_server after_read
block_served junk servers found_at a p (wide, serves) aligned fits =
    let info = (file_at p found_at).info in
    let (wf, free, keeps) = serves a in
    let (_, (out, read)) =
      (block_requests-answered info.name info.strip_width a [] (λ i. false) junk
          (servers (file_server_index a info.strip_width)) wf free wide (omega arith) keeps).0
        aligned in
    let nonzero : (info.strip_width == 0) ≡ false = ground arith in (out, rw (nonzero, read) refl)

module _ (std_hash junk : ℕ → ℕ) (servers : Servers) (found_at filedes fuel offset nbyte : ℕ)
    (p : PfsClient) where
  -- The client after a write that returned.
  abbrev after_writing : PfsClient
  after_writing = unlock_range found_at offset nbyte (note_write found_at offset nbyte p)

  noted_fetch :
      fetch_of found_at junk servers (note_write found_at offset nbyte p)
      ≡ fetch_of found_at junk servers p
  unfolding note_write
  noted_fetch = change_file-get_block _ found_at junk p servers (λ f. refl) (λ f. refl)

  after_writing_fetch :
      fetch_of found_at junk servers after_writing ≡ fetch_of found_at junk servers p
  after_writing_fetch =
      change_file-get_block _ found_at junk (note_write found_at offset nbyte p) servers (λ f. refl)
        (λ f. refl)
      ∙ noted_fetch

  write_granted-done :
      (source : ℕ → ℕ) (c c' : Cache) (hit : Bool)
      → write_loop std_hash (fetch_of found_at junk servers p) filedes fuel offset nbyte source c
        ≡ done hit c'
      → write_granted std_hash junk servers found_at filedes fuel offset nbyte source p c
        ≡ done (after_writing, hit) c'
  unfolding write_granted
  write_granted-done source c c' hit run =
      let run' =
        subst (λ h. write_loop std_hash h filedes fuel offset nbyte source c ≡ done hit c')
          (sym noted_fetch) run in
      rw (write_granted, run') refl

  read_granted-done :
      (c c' : Cache) (bytes : List ℕ) (hit : Bool)
      → read_loop std_hash (fetch_of found_at junk servers p) filedes fuel offset nbyte c
        ≡ done (bytes, hit) c'
      → read_granted std_hash junk servers found_at filedes fuel offset nbyte after_writing c
        ≡ done (unlock_range found_at offset nbyte after_writing, bytes, hit) c'
  unfolding read_granted
  read_granted-done c c' bytes hit run =
      let run' =
        subst (λ h. read_loop std_hash h filedes fuel offset nbyte c ≡ done (bytes, hit) c')
          (sym after_writing_fetch) run in
      rw (read_granted, run') refl

-- A client that holds the token writes a range and then reads it: both calls return, and the bytes are
-- those that were written. The range ends at `2 ^ 31` at most, the loops have a round for each of its
-- blocks, the file servers serve the file, and the cache can take two units and a node for each round.
pub read_granted-write_granted :
    (std_hash junk : ℕ → ℕ) (servers : Servers) (found_at filedes fuel offset nbyte : ℕ)
    (source : ℕ → ℕ) (p : PfsClient) (g : Shape) (c : Cache)
    → IsCache std_hash g c
    → Serves (file_at p found_at).info.name (file_at p found_at).info.strip_width servers
    → offset + nbyte ≤ 2 ^ 31
    → rounds offset nbyte ≤ fuel
    → 4 * fuel ≤ c.free_block_semaphore
    → 2 * fuel < length g.free
    → (p' : PfsClient) × (p'' : PfsClient) × (c' : Cache) × (c'' : Cache) × (bytes : List ℕ)
      × (written_hit : Bool) × (read_hit : Bool) × (write_granted std_hash junk servers found_at
            filedes fuel offset nbyte source p c
          ≡ done (p', written_hit) c')
      × (read_granted std_hash junk servers found_at filedes fuel offset nbyte p' c'
          ≡ done (p'', bytes, read_hit) c'')
      × (length bytes ≡ nbyte)
      × ((j : ℕ) → j < nbyte → get_or bytes j 0 ≡ source j)
read_granted-write_granted std_hash junk servers found_at filedes fuel offset nbyte source p g c i
      serves fits enough units free =
    let (c', c'', bytes, hit, hit', run, run', total, same) =
      read_loop-write_loop std_hash (fetch_of found_at junk servers p) filedes fuel offset nbyte
        source g c i (λ a z lt. block_served junk servers found_at a p serves z (omega arith))
        (omega arith) enough units free in
    let p' : PfsClient = after_writing std_hash junk servers found_at filedes fuel offset nbyte p in
    (
      p',
      unlock_range found_at offset nbyte p',
      c',
      c'',
      bytes,
      hit,
      hit',
      write_granted-done std_hash junk servers found_at filedes fuel offset nbyte p source c c' hit
          run,
      read_granted-done std_hash junk servers found_at filedes fuel offset nbyte p c' c'' bytes hit'
          run',
      total,
      same,
    )
