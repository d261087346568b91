-- ===== src/Tests/Requests.antt =====
-- A client with three open files.
use pfs.Base.{
  ℕ, ◌≤◌, ◌++◌, ◌-◌, ◌^◌, ◌≡◌, refl, true, false, List, [], ◌∷◌, arith, erase_range, none, some,
}
use pfs.Permission.{Permission, permission, lock}
use pfs.File.{add_permission, await_unlocked}
use pfs.Client.{
  ClientFile, PfsClient, no_file, file_at, find_descriptor, unlock_permission, Chunk, chunks,
  evictions, close_request, close_reply,
}
use pfs.Client.Tokens.{unlock-add_permission_adjacent}
use pfs.Client.Waits.{
  times, is_fresh, all_unlocked, begins, unlocks, Unlocks-await_unlocked,
  add_permission-await_unlocked,
}
use pfs.Client.Chunks.{Tiles, chunks-Tiles}
use pfs.Client.Evictions.{evictions_diverge}
use pfs.Client.Descriptors.{close_reply_wrong}

abbrev file_of : ℕ → ClientFile
file_of d = record no_file { descriptor = d; permissions = permission 0 100 true ∷ [] }

abbrev three_files : PfsClient
three_files = record {
  stub = true;
  opened_files = file_of 1 ∷ file_of 2 ∷ file_of 3 ∷ [];
  descriptor_count = 3;
}

unlock-add_permission_adjacent_example :
    (unlock_permission 20 30 (add_permission 20 30 false true (permission 10 20 true ∷ []))).0
    ≡ lock (permission 10 20 true) ∷ permission 20 30 false ∷ []
unlock-add_permission_adjacent_example =
    unlock-add_permission_adjacent 10 20 30 (omega arith) (omega arith) (omega arith)

-- A token that a read has locked, and one that nobody has.
abbrev busy : List Permission
busy = lock (permission 10 20 true) ∷ permission 20 30 false ∷ []

abbrev queued : List Permission
queued = (await_unlocked 7 15 25 busy).0

abbrev after_unlock : List Permission
after_unlock = (unlock_permission 12 14 queued).0

queued_fresh : is_fresh 7 busy ≡ true
unfolding lock
queued_fresh = refl

after_unlock_free : all_unlocked 15 25 after_unlock ≡ true
unfolding lock await_unlocked unlock_permission
after_unlock_free = refl

Unlocks-await_unlocked_example :
    (await_unlocked 7 15 25 busy).1 ≤ times 7 ([] ++ (unlock_permission 12 14 queued).1)
Unlocks-await_unlocked_example =
    Unlocks-await_unlocked 7 15 25 busy after_unlock ([] ++ (unlock_permission 12 14 queued).1)
      queued_fresh (unlocks 12 14 begins) after_unlock_free

add_permission-await_unlocked_example :
    let (queued, count) = await_unlocked 7 10 20 (lock (permission 10 20 true) ∷ []) in
    let merged = add_permission 20 30 true true queued in
    (count ≡ 1)
    × (merged ≡ lock (permission 10 30 true) ∷ [])
    × ((from to : ℕ) → times 7 (unlock_permission from to merged).1 ≡ 0)
add_permission-await_unlocked_example =
    add_permission-await_unlocked 10 20 30 7 (omega arith) (omega arith)

chunks-Tiles_example : (cs : List Chunk) × (chunks 3000 500 3000 ≡ some cs) × Tiles 500 cs 3500
chunks-Tiles_example = chunks-Tiles 3000 500 3000 (omega arith) (omega arith)

evictions_diverge_example : evictions 3 2048 (2 ^ 32 - 1) ≡ none
evictions_diverge_example = evictions_diverge 3 2048 (2 ^ 32 - 1) refl (omega arith) (omega arith)

close_reply_wrong_example :
    let r = close_request 3 three_files in
    let c' = (close_reply r 0 three_files).0 in
    (r.name ≡ (file_at three_files 2).info.name)
    × (r.size ≡ (file_at three_files 1).info.pst_size)
    × (c'.opened_files ≡ erase_range 1 1 three_files.opened_files)
    × (find_descriptor 3 c' ≡ some 1)
unfolding find_descriptor
close_reply_wrong_example = close_reply_wrong 3 0 three_files refl
