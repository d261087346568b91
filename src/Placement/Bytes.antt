-- ===== src/Placement/Bytes.antt =====
-- The bytes of a file as its servers have them: what a client fetches, where fresh memory is zero, and
-- what a flush does to them.
use pfs.Base.{
  ℕ, ◌%◌, ◌^◌, ◌<◌, ◌≡◌, refl, sym, ap, ◌∙◌, inl, inr, Bool, false, ◌&&◌, some, List, [], get_or,
  String, lookup, arith, ◌==◌, ==_iff, if◌then◌else◌, Bool-cases,
}
use pfs.Manager.{ok}
use pfs.FileServer.{FileServer, replied, write_block}
use pfs.FileServer.Handlers.{write_block-Found}
use pfs.FileServer.Invariant.{write_block-IsWellFormed}
use pfs.FileServer.Values.{block_byte, read_block-block_byte, write_block-block_byte}
use pfs.Client.{PfsClient, file_at, find_descriptor, file_server_index}
use pfs.Placement.{Servers, update}
use pfs.Placement.Answers.{block_requests-answered}
use pfs.Placement.Flush.{flush, flush-done, get_block_from_file_server, after_read}
use pfs.Placement.Io.{Serves}

abbrev pub server_byte : String → ℕ → Servers → ℕ → ℕ → ℕ
server_byte name width ss a k = block_byte name a k (ss (file_server_index a width))

abbrev pub zeros : ℕ → ℕ
zeros i = 0

module _ (found_at : ℕ) (p : PfsClient) (ss : Servers) where
  abbrev pub IsServed : Type 0
  IsServed = Serves (file_at p found_at).info.name (file_at p found_at).info.strip_width ss

  abbrev pub byte_served : ℕ → ℕ → ℕ
  byte_served = server_byte (file_at p found_at).info.name (file_at p found_at).info.strip_width ss

  pub get_block-byte_served :
      (a : ℕ)
      → IsServed
      → a % 1024 ≡ 0
      → a < 2 ^ 31
      → (out : List ℕ) × (get_block_from_file_server found_at a zeros p ss ≡ some out)
        × ((k : ℕ) → k < 1024 → get_or out k 0 ≡ byte_served a k)
  unfolding get_block_from_file_server after_read
  get_block-byte_served a (wide, serves) aligned fits =
      let info = (file_at p found_at).info in
      let s = ss (file_server_index a info.strip_width) in
      let (wf, free, keeps) = serves a in
      let ((s', written, _, _), (out, read)) =
        (block_requests-answered info.name info.strip_width a [] (λ i. false) zeros s wf free wide
            (omega arith) keeps).0
          aligned in
      let (file, path, content, f, e) =
        write_block-Found info.name a [] (λ i. false) s s' written in
      let nonzero : (info.strip_width == 0) ≡ false = ground arith in
      (out, rw (nonzero, read) refl, read_block-block_byte info.name a s s out f fits read)

-- One server of a file takes a write: the servers serve it as before.
update-Serves :
    (name : String) (width a : ℕ) (bytes : List ℕ) (dirty : ℕ → Bool) (ss : Servers)
    (s' : FileServer)
    → Serves name width ss
    → write_block name a bytes dirty (ss (file_server_index a width)) ≡ replied s' ok tt
    → s'.lock_held ≡ false
    → s'.files ≡ (ss (file_server_index a width)).files
    → Serves name width (update (file_server_index a width) s' ss)
unfolding update
update-Serves name width a bytes dirty ss s' (wide, serves) written free same = (
  wide,
  λ b.
      let i : ℕ = file_server_index a width in
      let j : ℕ = file_server_index b width in
      let (wf, free_b, keeps) = serves b in
      elim (Bool-cases (i == j)) [
        | inr other ↦ rw other (wf, free_b, keeps)
        | inl here ↦
            let twin : ss j ≡ ss i = ap ss (sym ((==_iff i j).0 here)) in
            let (file, known, w, strip) = keeps in
            let known' =
              ap (lookup name) (same ∙ ap (λ (s : FileServer). s.files) (sym twin)) ∙ known in
            rw here (
              write_block-IsWellFormed name a bytes dirty (ss i) s' (serves a).0 written,
              free,
              (file, known', w, strip),
            )
      ],
)

-- A flush of a block succeeds, and the file's bytes change where the block is dirty, and nowhere else.
pub flush-byte_served :
    (filedes found_at a : ℕ) (bytes : List ℕ) (dirty : ℕ → Bool) (p : PfsClient) (ss : Servers)
    → find_descriptor filedes p ≡ some found_at
    → IsServed found_at p ss
    → a % 1024 ≡ 0
    → a < 2 ^ 31
    → (ss' : Servers) × (flush filedes a bytes dirty p ss ≡ some ss')
      × IsServed found_at p ss'
      × ((b k : ℕ)
          → b % 1024 ≡ 0
          → b < 2 ^ 31
          → k < 1024
          → byte_served found_at p ss' b k
            ≡ (if b == a && dirty k then get_or bytes k 0 else byte_served found_at p ss b k))
unfolding update
flush-byte_served filedes found_at a bytes dirty p ss known serves aligned fits =
    let info = (file_at p found_at).info in
    let i : ℕ = file_server_index a info.strip_width in
    let (wf, free, keeps) = serves.1 a in
    let ((s', written, free', same), read) =
      (block_requests-answered info.name info.strip_width a bytes dirty zeros (ss i) wf free
          serves.0 (omega arith) keeps).0
        aligned in
    (
      update i s' ss,
      flush-done filedes found_at a bytes dirty p ss s' known serves.0 written,
      update-Serves info.name info.strip_width a bytes dirty ss s' serves written free' same,
      λ b k zb fb small.
          let j : ℕ = file_server_index b info.strip_width in
          let changed =
            write_block-block_byte info.name a bytes dirty (ss i) s' b k wf (omega arith) fb zb
              small written in
          elim (Bool-cases (i == j)) [
            | inl here ↦
                let twin : ss j ≡ ss i = ap ss (sym ((==_iff i j).0 here)) in
                rw (here, twin) changed
            | inr other ↦
                let differ : (b == a) ≡ false = elim (Bool-cases (b == a)) [
                  | inl eq ↦
                      let one : j ≡ i =
                        ap (λ x. file_server_index x info.strip_width) ((==_iff b a).0 eq) in
                      absurd (ground (arith, one))
                  | inr ne ↦ ne
                ] in
                rw (other, differ) refl
          ],
    )
