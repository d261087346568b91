-- ===== src/Permission.antt =====
-- include/permission.h and common/permission.cpp: one token, for the bytes from `start` up to but
-- not including `end`. A call of `lock` that waits for `permitLock` is shown as it returns.
use pfs.Base.{ℕ, Bool, true, false, List, [], ◌∷◌, ◌++◌, ltb, leb, if◌then◌else◌}

pub record Permission : Type 0 where
  pub write : Bool
  pub start : ℕ
  pub end : ℕ
  pub locked : Bool
  pub waiting_semaphores : List ℕ

-- `new Permission(start, end, write)`
abbrev pub permission : ℕ → ℕ → Bool → Permission
permission start end write = record {
  write = write;
  start = start;
  end = end;
  locked = false;
  waiting_semaphores = [];
}

-- `setStart` and `setEnd`
abbrev pub set_start : ℕ → Permission → Permission
set_start start p = record p { start = start }

abbrev pub set_end : ℕ → Permission → Permission
set_end end p = record p { end = end }

-- `isShared`
unfoldable pub is_shared : ℕ → ℕ → Permission → Bool
is_shared s e p = if leb e p.start then false else (if leb p.end s then false else true)

-- `isInclusiveShared`
unfoldable pub is_inclusive_shared : ℕ → ℕ → Permission → Bool
is_inclusive_shared s e p = if ltb e p.start then false else (if ltb p.end s then false else true)

-- `addWaitingSemaphore`
unfoldable pub add_waiting_semaphore : ℕ → Permission → Permission × Bool
add_waiting_semaphore sem p =
    if p.locked
    then (record p { waiting_semaphores = p.waiting_semaphores ++ sem ∷ [] }, true)
    else (p, false)

unfoldable pub lock : Permission → Permission
lock p = record p { locked = true }

-- `unlock`, with the semaphores that it posts. The source keeps them in the vector.
unfoldable pub unlock : Permission → Permission × List ℕ
unlock p = (record p { locked = false }, p.waiting_semaphores)
