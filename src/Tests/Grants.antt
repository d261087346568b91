-- ===== src/Tests/Grants.antt =====
-- Two clients of one file at the metadata manager.
use pfs.Base.{
  ℕ, ◌≤◌, ◌<◌, ◌≢◌, Bool, ◌≡◌, refl, ◌⊎◌, true, false, none, some, [], ◌∷◌, String, arith, lookup,
  insert, str_eq, if◌then◌else◌,
}
use pfs.Config.{error_delete_open_file, error_does_not_exist}
use pfs.Permission.{permission}
use pfs.File.{has_permission}
use pfs.File.Cover.{grants}
use pfs.MmFile.Mirror
use pfs.MmFile.Mirror.{
  Vectors, Flight, Flights, idle, granting, is_idle, set_flight, deliver, enter, Run, asks, enters,
}
use pfs.MmFile.Mirror.Runs.{Run-grants}
use pfs.MmFile.{MmFile, Answer, int_max, open_by, is_open, wait_and_get_permission_for}
use pfs.MmFile.Others.{IsExclusive, permits_of}
use pfs.MmFile.Reach.{opens, grant, Reach, here, next, Reach-IsExclusive, wait_and_get-grants}
use pfs.Manager.{Manager, ok, cancelled, new_file, close_file, delete_file}
use pfs.Manager.Files.{delete_file_lem, IsClosed, close_file_lem}

abbrev fresh_file : MmFile
fresh_file = new_file "f" 2 10 10

abbrev opened_by_a : MmFile
opened_by_a = record fresh_file { client_permissions = ("a", []) ∷ [] }

abbrev opened_by_both : MmFile
opened_by_both = record fresh_file { client_permissions = ("a", []) ∷ ("b", []) ∷ [] }

-- `a` writes first and is given the whole file.
abbrev answer_a : Answer
answer_a = record {
  permit = permission 0 int_max true;
  file = record fresh_file {
    client_permissions = ("a", permission 0 int_max true ∷ []) ∷ ("b", []) ∷ [];
  };
  revocations = [];
}

-- Then `b` reads a part of it.
abbrev answer_b : Answer
answer_b = record {
  permit = permission 10 20 false;
  file = record fresh_file {
    client_permissions =
        ("a", permission 0 10 true ∷ permission 20 int_max true ∷ [])
        ∷ ("b", permission 10 20 false ∷ [])
        ∷ [];
  };
  revocations = record { peer = "a"; name = "f"; start = 10; end = 20; is_write = false } ∷ [];
}

writes : wait_and_get_permission_for "a" 0 100 true opened_by_both ≡ some answer_a
unfolding wait_and_get_permission_for insert lookup
writes = refl

reads : wait_and_get_permission_for "b" 10 20 false answer_a.file ≡ some answer_b
unfolding wait_and_get_permission_for insert lookup
reads = refl

a-Reach : Reach fresh_file answer_a.file
unfolding open_by lookup insert
a-Reach =
    next (next (next here (opens "a" refl)) (opens "b" refl))
      (grant "a" 0 100 true answer_a writes refl)

a-IsExclusive : IsExclusive answer_a.file.client_permissions
a-IsExclusive = Reach-IsExclusive fresh_file answer_a.file refl a-Reach

Reach-IsExclusive_example : IsExclusive answer_b.file.client_permissions
Reach-IsExclusive_example =
    Reach-IsExclusive fresh_file answer_b.file refl
      (next a-Reach (grant "b" 10 20 false answer_b reads refl))

wait_and_get-grants_example :
    grants false (permits_of "b" answer_b.file.client_permissions) 12 ≡ true
wait_and_get-grants_example =
    wait_and_get-grants "b" 10 20 false answer_a.file answer_b 12 reads (omega arith) (omega arith)
      (omega arith)

abbrev no_files : Manager
no_files = record { files = []; client_stubs = [] }

abbrev busy : Manager
busy = record { files = ("f", answer_a.file) ∷ []; client_stubs = [] }

delete_file_example :
    let r = delete_file "f" busy in
    ((r.status ≡ ok)
      × ((file : MmFile) × (lookup "f" busy.files ≡ some file) × (is_open file ≡ false))
      × ((other : String)
          → lookup other r.manager.files
            ≡ (if str_eq "f" other then none else lookup other busy.files)))
    ⊎ ((r.status ≡ cancelled)
        × (r.manager ≡ busy)
        × ((r.error ≡ error_does_not_exist) × (lookup "f" busy.files ≡ none)
            ⊎ (r.error ≡ error_delete_open_file)
              × ((file : MmFile) × (lookup "f" busy.files ≡ some file) × (is_open file ≡ true))))
delete_file_example = delete_file_lem "f" busy

close_file_example :
    let r = close_file "c" "f" true 50 90 busy in IsClosed "c" "f" true 50 90 busy r.0 r.1
close_file_example = close_file_lem "c" "f" true 50 90 busy

-- The manager once `b` has closed the file.
abbrev left : Manager
left = record {
  files =
      (
        "f",
        record answer_a.file { client_permissions = ("a", permission 0 int_max true ∷ []) ∷ [] },
      )
      ∷ [];
  client_stubs = [];
}

-- The vectors of the clients after both requests, each with the entry of its reply.
abbrev vectors_of_a : Vectors
vectors_of_a = enter "a" true answer_a.permit (deliver answer_a.revocations (λ q. []))

abbrev vectors : Vectors
vectors = enter "b" false answer_b.permit (deliver answer_b.revocations vectors_of_a)

abbrev flight_to : String → Flight → Flights → Flights
flight_to peer flight fl = set_flight peer idle (set_flight peer flight fl)

abbrev flights_of_a : Flights
flights_of_a = flight_to "a" (granting true answer_a.permit) (λ q. idle)

abbrev flights : Flights
flights = flight_to "b" (granting false answer_b.permit) flights_of_a

both_run : Run fresh_file answer_b.file vectors flights
unfolding open_by lookup insert
both_run =
    enters "b" false answer_b.permit
      (asks "b" 10 20 false answer_b
        (enters "a" true answer_a.permit
          (asks "a" 0 100 true answer_a (Mirror.opens "b" (Mirror.opens "a" Mirror.starts)) writes
            refl refl)
          refl)
        reads refl refl)
      refl

Run-grants_example :
    ((q : String) (w : Bool) (x : ℕ)
      → is_idle (flights q) ≡ true
      → grants w (vectors q) x ≡ grants w (permits_of q answer_b.file.client_permissions) x)
    × ((p q : String) (from to from' to' x : ℕ) (w : Bool)
        → p ≢ q
        → is_idle (flights p) ≡ true
        → is_idle (flights q) ≡ true
        → has_permission from to true (vectors p) ≡ true
        → from ≤ x
        → x < to
        → from' ≤ x
        → x < to'
        → has_permission from' to' w (vectors q) ≡ false)
Run-grants_example = Run-grants fresh_file refl answer_b.file vectors flights both_run
