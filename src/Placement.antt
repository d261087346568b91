-- ===== src/Placement.antt =====
-- The stripes of a new file: the metadata manager's requests meet the file servers, and the clients
-- find each block at the server that keeps its strip.
pub mod Answers
pub mod Flush
pub mod Io
pub mod Bytes
pub mod Negative
use pfs.Base.{
  ℕ, zero, suc, ◌+◌, ◌%◌, ◌/◌, ◌<◌, ◌≡◌, refl, ◌∙◌, inl, inr, true, false, List, [], ◌∷◌, arith,
  ◌==◌, ==_iff, if◌then◌else◌, Bool-cases, Option, none, some, Option-cases, String, lookup, insert,
  str_eq_refl, lookup-insert,
}
use native.Mathlib.Nat.{mod-lt}
use pfs.Manager
use pfs.Client.{file_server_index}
use pfs.Manager.{Manager, ok, StripeRequest, stripe_requests}
use pfs.FileServer.{
  FileServer, FsFile, blocked, crashed, replied, create_file, strip_of, add_strip, find_or_new,
}

-- The five servers, by index. Only the first five are used.
abbrev pub Servers : Type 0
Servers = ℕ → FileServer

pub update : ℕ → FileServer → Servers → Servers
update i s ss j = if i == j then s else ss j

-- One request of the loop in `CreateFile`; `none` if it is never answered.
pub place : StripeRequest → Servers → Option Servers
unfolding create_file update
place r ss = elim (create_file r.name r.stripe_width r.id (ss r.server)) [
  | blocked ↦ none
  | crashed ↦ none
  | replied s status a ↦ some (update r.server s ss)
]

pub place_all : List StripeRequest → Servers → Option Servers
unfolding place
place_all [] ss = some ss
place_all (r ∷ rs) ss = elim (place r ss) [ none ↦ none | some ss' ↦ place_all rs ss' ]

module _ (name : String) (width : ℕ) where
  -- Every server is free, and knows the file with this width or not at all.
  abbrev pub IsReady : Servers → Type 0
  IsReady ss =
      (j : ℕ)
      → ((ss j).lock_held ≡ false)
        × ((file : FsFile) → lookup name (ss j).files ≡ some file → file.strip_width ≡ width)

  -- The server at `j` knows the file with its width, and keeps its strip `k`.
  abbrev pub Keeps : FileServer → ℕ → Type 0
  Keeps s k =
      (file : FsFile) × (lookup name s.files ≡ some file)
      × (file.strip_width ≡ width)
      × (file.strip_paths k ≡ some (name, k))

  -- The server after it has taken the request for strip `id`.
  created : ℕ → FileServer → FileServer
  unfolding add_strip
  created id s =
      let (file, disk) = add_strip (name, id) id (find_or_new name width s.files) s.disk in
      record s { files = insert name file s.files; disk = disk }

  create_file-created :
      (id : ℕ) (s : FileServer)
      → s.lock_held ≡ false
      → create_file name width id s ≡ replied (created id s) ok tt
  unfolding create_file created
  create_file-created id s free = ground arith

  find_or_new-width :
      (s : FileServer)
      → ((file : FsFile) → lookup name s.files ≡ some file → file.strip_width ≡ width)
      → (find_or_new name width s.files).strip_width ≡ width
  find_or_new-width s h = elim (Option-cases (lookup name s.files)) [
    | inl e ↦ rw (e, find_or_new)
    | inr (old, e) ↦ rw (e, find_or_new) (h old e)
  ]

  created-file :
      (id : ℕ) (s : FileServer)
      → lookup name (created id s).files
        ≡ some (add_strip (name, id) id (find_or_new name width s.files) s.disk).0
  unfolding created
  created-file id s = ground (
    arith,
    lookup-insert name name (add_strip (name, id) id (find_or_new name width s.files) s.disk).0
        s.files,
    str_eq_refl name,
  )

  created-Keeps :
      (id : ℕ) (s : FileServer)
      → ((file : FsFile) → lookup name s.files ≡ some file → file.strip_width ≡ width)
      → Keeps (created id s) id
  unfolding add_strip
  created-Keeps id s h = (_, created-file id s, find_or_new-width s h, ground arith)

  created-kept :
      (id k : ℕ) (s : FileServer)
      → ((file : FsFile) → lookup name s.files ≡ some file → file.strip_width ≡ width)
      → Keeps s k
      → Keeps (created id s) k
  unfolding add_strip
  created-kept id k s h (file, known, w, strip) =
      (_, created-file id s, find_or_new-width s h, ground arith)

  -- The servers after one request.
  stepped : ℕ → Servers → Servers
  unfolding update
  stepped id ss = update (id % 5) (created id (ss (id % 5))) ss

  request : ℕ → StripeRequest
  request id = record { server = id % 5; name = name; stripe_width = width; id = id }

  place-stepped :
      (id : ℕ) (ss : Servers) → IsReady ss → place (request id) ss ≡ some (stepped id ss)
  unfolding place stepped request
  place-stepped id ss ready =
      ground (arith, create_file-created id (ss (id % 5)) (ready (id % 5)).0)

  -- A property of a server that the request keeps, holds of each server after it.
  stepped_cases :
      (P : FileServer → Type 0) (id j : ℕ) (ss : Servers)
      → ((id % 5 == j) ≡ true → P (created id (ss (id % 5))))
      → P (ss j)
      → P (stepped id ss j)
  unfolding stepped
  stepped_cases P id j ss new old = elim (Bool-cases (id % 5 == j)) [
    | inl here ↦ rw (here, update) (new here)
    | inr elsewhere ↦ rw (elsewhere, update) old
  ]

  created-unlocked : (id : ℕ) (s : FileServer) → (created id s).lock_held ≡ s.lock_held
  unfolding created
  created-unlocked id s = refl

  created-width :
      (id : ℕ) (s : FileServer)
      → ((file : FsFile) → lookup name s.files ≡ some file → file.strip_width ≡ width)
      → (file : FsFile) → lookup name (created id s).files ≡ some file
      → file.strip_width ≡ width
  created-width id s h file known = let (new, same, w, _) = created-Keeps id s h in ground arith

  stepped-IsReady : (id : ℕ) (ss : Servers) → IsReady ss → IsReady (stepped id ss)
  stepped-IsReady id ss ready j =
      stepped_cases
        (λ s.
          (s.lock_held ≡ false)
          × ((file : FsFile) → lookup name s.files ≡ some file → file.strip_width ≡ width))
        id j ss
        (λ _. (
          created-unlocked id (ss (id % 5)) ∙ (ready (id % 5)).0,
          created-width id (ss (id % 5)) (ready (id % 5)).1,
        ))
        (ready j)

  stepped-Keeps : (id : ℕ) (ss : Servers) → IsReady ss → Keeps (stepped id ss (id % 5)) id
  unfolding stepped update
  stepped-Keeps id ss ready =
      let here : (id % 5 == id % 5) ≡ true = ground arith in
      rw here (created-Keeps id (ss (id % 5)) (ready (id % 5)).1)

  stepped-kept :
      (id j k : ℕ) (ss : Servers) → IsReady ss → Keeps (ss j) k → Keeps (stepped id ss j) k
  stepped-kept id j k ss ready kept =
      stepped_cases (λ s. Keeps s k) id j ss
        (λ here.
          let e : id % 5 ≡ j = (==_iff (id % 5) j).0 here in
          rw e (created-kept id k (ss j) (ready j).1 kept))
        kept

  -- The loop from strip `i` on.
  place_all-Keeps :
      (n i : ℕ) (ss : Servers)
      → IsReady ss
      → ((k : ℕ) → k < i → Keeps (ss (k % 5)) k)
      → (ss' : Servers) × (place_all (stripe_requests name width n i) ss ≡ some ss')
        × IsReady ss'
        × ((k : ℕ) → k < i + n → Keeps (ss' (k % 5)) k)
  unfolding place_all stripe_requests request
  place_all-Keeps zero i ss ready kept = (ss, refl, ready, λ k lt. kept k (omega arith))
  place_all-Keeps (suc n) i ss ready kept =
      let ss1 : Servers = stepped i ss in
      let first : place (request i) ss ≡ some ss1 = place-stepped i ss ready in
      let (ss', done, ready', all) =
        place_all-Keeps n (suc i) ss1 (stepped-IsReady i ss ready) (λ k lt.
          elim (Bool-cases (k == i)) [
            | inl e ↦ let same : k ≡ i = (==_iff k i).0 e in rw same (stepped-Keeps i ss ready)
            | inr ne ↦ stepped-kept i (k % 5) k ss ready (kept k (ground arith))
          ]) in
      (ss', rw (first, place_all) done, ready', λ k lt. all k (omega arith))

-- A file that the metadata manager enters anew is answered with `ok`, every one of its stripe
-- requests is answered, and after them the server that a client turns to for an address knows the
-- file with its width and keeps the strip of that address. The stripe width is not 0, the
-- servers are free, and those that know the name know it with this width.
pub create_file-Keeps :
    (name : String) (width created_at modified_at : ℕ) (m : Manager) (ss : Servers)
    → 0 < width
    → lookup name m.files ≡ none
    → IsReady name width ss
    → let r = Manager.create_file name width created_at modified_at m in
      (r.0.status ≡ ok)
      × ((ss' : Servers) × (place_all r.1 ss ≡ some ss')
          × ((addr : ℕ)
              → Keeps name width (ss' (file_server_index addr width)) (strip_of addr width)))
unfolding Manager.create_file file_server_index strip_of
create_file-Keeps name width created_at modified_at m ss pos_width fresh ready =
    let (ss', done, _, all) =
      place_all-Keeps name width width 0 ss ready (λ k lt. absurd (omega arith)) in
    rw (fresh, Manager.create_file)
      (refl, (ss', done, λ addr. all _ (omega (arith, mod-lt (addr / 1024) pos_width))))
