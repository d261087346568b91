-- ===== src/Placement/Negative.antt =====
-- The block requests of a client for addresses from `2 ^ 31` on, which the file server reads as negative.
use pfs.Base.{ℕ, ◌-◌, ◌/◌, ◌^◌}
use pfs.FileServer.{FileServer}

-- The distance to `2 ^ 32` in strip units.
abbrev below_zero : ℕ → ℕ
below_zero addr = (2 ^ 32 - addr) / 1024
