-- ===== src/FileServer/Invariant.antt =====
-- Each strip that a server knows has its own path, and a file on the disk.
use text.Mathlib.TextEquality.{eq_iff}
use pfs.Base.{
  ℕ, ◌≡◌, sym, ap, subst, ◌∙◌, inl, inr, Bool, List, [], arith, ◌==◌, ==_iff, Bool-cases, some,
  Option-cases, String, lookup, insert, str_eq, str_eq-true, lookup-insert,
}
use pfs.Manager.{ok}
use pfs.FileServer.{
  FileServer, FsFile, StripPath, Disk, replied, path_eq, write_disk, add_strip, find_or_new,
  create_file, write_block,
}
use pfs.FileServer.Handlers.{write_block-Found}

abbrev pub OnDisk : Disk → StripPath → Type 0
OnDisk d p = (c : List ℕ) × (d p ≡ some c)

abbrev pub IsPlaced : String → Disk → FsFile → Type 0
IsPlaced name d file =
    (i : ℕ) (p : StripPath) → file.strip_paths i ≡ some p → (p ≡ (name, i)) × OnDisk d p

abbrev pub IsWellFormed : FileServer → Type 0
IsWellFormed s =
    (name : String) (file : FsFile) → lookup name s.files ≡ some file → IsPlaced name s.disk file

write_disk-OnDisk :
    (q : StripPath) (c : List ℕ) (d : Disk) (p : StripPath)
    → OnDisk d p
    → OnDisk (write_disk q c d) p
unfolding write_disk
write_disk-OnDisk q c d p (c', e) = elim (Bool-cases (path_eq q p)) [
  | inl same ↦ (c, rw same)
  | inr other ↦ (c', rw other e)
]

write_disk-IsPlaced :
    (q : StripPath) (c : List ℕ) (d : Disk) (name : String) (file : FsFile)
    → IsPlaced name d file
    → IsPlaced name (write_disk q c d) file
write_disk-IsPlaced q c d name file h i p e = ((h i p e).0, write_disk-OnDisk q c d p (h i p e).1)

written_OnDisk :
    (n : String) (i : ℕ) (c : List ℕ) (d : Disk) → OnDisk (write_disk (n, i) c d) (n, i)
unfolding write_disk
written_OnDisk n i c d = (c, ground (arith, eq_iff n n))

add_strip-IsPlaced :
    (name : String) (id : ℕ) (file : FsFile) (d : Disk)
    → IsPlaced name d file
    → IsPlaced name (add_strip (name, id) id file d).1 (add_strip (name, id) id file d).0
unfolding add_strip
add_strip-IsPlaced name id file d h i p e = elim (Bool-cases (id == i)) [
  | inl here ↦
      let path : (name, id) ≡ p = ground arith in
      let at : id ≡ i = (==_iff id i).0 here in
      (
        sym path ∙ ap (λ (j : ℕ). let q : StripPath = (name, j) in q) at,
        subst (OnDisk (write_disk (name, id) [] d)) path (written_OnDisk name id [] d),
      )
  | inr elsewhere ↦ write_disk-IsPlaced (name, id) [] d name file h i p (ground arith)
]

find_or_new-IsPlaced :
    (name : String) (stripe_width : ℕ) (s : FileServer)
    → IsWellFormed s
    → IsPlaced name s.disk (find_or_new name stripe_width s.files)
find_or_new-IsPlaced name stripe_width s wf = elim (Option-cases (lookup name s.files)) [
  | inl e ↦ rw (e, find_or_new) (λ i p h. cc)
  | inr (old, e) ↦ rw (e, find_or_new) (wf name old e)
]

insert-IsWellFormed :
    (name : String) (file : FsFile) (d : Disk) (s : FileServer)
    → ((other : String) (old : FsFile) → lookup other s.files ≡ some old → IsPlaced other d old)
    → IsPlaced name d file
    → (other : String) (f : FsFile) → lookup other (insert name file s.files) ≡ some f
    → IsPlaced other d f
insert-IsWellFormed name file d s olds placed other f h = elim (Bool-cases (str_eq name other)) [
  | inl same ↦
      let e : file ≡ f = ground (arith, lookup-insert name other file s.files) in
      subst (λ g. IsPlaced other d g) e
        (subst (λ n. IsPlaced n d file) (str_eq-true name other same) placed)
  | inr differ ↦ olds other f (ground (arith, lookup-insert name other file s.files))
]

-- A stripe request that is answered keeps a server well formed: each strip that it knows has the path of
-- its own name and number, and stands on the disk.
pub create_file-IsWellFormed :
    (name : String) (stripe_width id : ℕ) (s s' : FileServer)
    → IsWellFormed s
    → create_file name stripe_width id s ≡ replied s' ok tt
    → IsWellFormed s'
unfolding create_file
create_file-IsWellFormed name stripe_width id s s' wf h =
    let file : FsFile = find_or_new name stripe_width s.files in
    let (new, disk) = add_strip (name, id) id file s.disk in
    let result : record s { files = insert name new s.files; disk = disk } ≡ s' = ground arith in
    subst IsWellFormed result (
      insert-IsWellFormed name new disk s
        (λ other old known. write_disk-IsPlaced (name, id) [] s.disk other old (wf other old known))
        (add_strip-IsPlaced name id file s.disk (find_or_new-IsPlaced name stripe_width s wf)))

-- A block write that succeeds keeps a server well formed: each strip that it knows has the path of its
-- own name and number, and stands on the disk.
pub write_block-IsWellFormed :
    (name : String) (addr : ℕ) (bytes : List ℕ) (dirty : ℕ → Bool) (s s' : FileServer)
    → IsWellFormed s
    → write_block name addr bytes dirty s ≡ replied s' ok tt
    → IsWellFormed s'
write_block-IsWellFormed name addr bytes dirty s s' wf h =
    let (file, path, content, f, e) = write_block-Found name addr bytes dirty s s' h in
    subst IsWellFormed (sym e)
      (λ other file' known. write_disk-IsPlaced path _ s.disk other file' (wf other file' known))
