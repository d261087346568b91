-- ===== src/FileServer/Layout.antt =====
-- Where a byte of a file lies: its strip, and its position in the strip's file.
use native.Mathlib.Nat.{div-add-mod, mul-div_cancel}
use pfs.Base.{
  true, some, refl, ◌≤◌, i32_lt, not, ltb, ◌==◌, ℕ, zero, suc, ◌+◌, ◌-◌, ◌*◌, ◌/◌, ◌%◌, ◌^◌, ◌<◌,
  ◌≡◌, sym, arith, ◌∙◌,
}
use pfs.FileServer.{strip_of, position, file_offset, max_size, units, strip_index}

-- Below `2 ^ 31` the server's signed arithmetic is that of the client.
units-eq : (addr : ℕ) → addr < 2 ^ 31 → units addr ≡ addr / 1024
unfolding units
units-eq addr fits = ground arith

pub strip_index-eq : (addr w : ℕ) → addr < 2 ^ 31 → strip_index addr w ≡ some (strip_of addr w)
unfolding strip_index strip_of
strip_index-eq addr w fits =
    let small : ltb (addr / 1024) (2 ^ 31) ≡ true = ground arith in
    rw (units-eq addr fits, small) refl

offset_units : (i w : ℕ) → 0 < w → i / w * (w - 1) + i % w + i / w ≡ i
offset_units i zero h = elim h [ ]
offset_units i (suc v) h =
    let e : suc v - 1 ≡ v = omega arith in rw e (omega (arith, div-add-mod i (suc v)))

-- Beneath the offset: the units before it go round the strips.
round_robin : (i w : ℕ) → 0 < w → (i - i % w) / w ≡ i / w
round_robin i w h =
    let whole : i - i % w ≡ i / w * w = omega (arith, div-add-mod i w) in
    rw whole (mul-div_cancel (i / w) h)

position-file_offset :
    (addr w : ℕ)
    → 0 < w
    → addr < 2 ^ 31
    → file_offset addr w + (addr / 1024 / w * 1024 + addr % 1024) ≡ addr
unfolding file_offset
position-file_offset addr w h fits =
    rw (units-eq addr fits, round_robin (addr / 1024) w h)
      (omega (arith, offset_units (addr / 1024) w h))

-- The position of an address below `2 ^ 31` in its strip is that of round robin order: a row of 1024
-- bytes for each turn around the strips, and the place in the block. The stripe width is not 0.
pub position-eq :
    (addr w : ℕ) → 0 < w → addr < 2 ^ 31 → position addr w ≡ addr / 1024 / w * 1024 + addr % 1024
unfolding position
position-eq addr w h fits = omega (arith, position-file_offset addr w h fits)

-- If a byte of the block at `a` and one of the block at `b` have the same place in a strip that both
-- blocks belong to, they are the same byte of the same block. Addresses are below `2 ^ 31`.
pub position-apart :
    (a b w i j : ℕ)
    → 0 < w
    → a < 2 ^ 31
    → b < 2 ^ 31
    → a % 1024 ≡ 0
    → b % 1024 ≡ 0
    → strip_of a w ≡ strip_of b w
    → i < 1024
    → j < 1024
    → position a w + i ≡ position b w + j
    → (a ≡ b) × (i ≡ j)
unfolding strip_of
position-apart a b w i j h fa fb za zb strips hi hj same =
    let row : a / 1024 / w ≡ b / 1024 / w =
      omega (arith, position-eq a w h fa, position-eq b w h fb) in
    let unit : a / 1024 ≡ b / 1024 =
      sym (div-add-mod (a / 1024) w) ∙ (rw (row, strips) (div-add-mod (b / 1024) w)) in
    omega (arith, position-eq a w h fa, position-eq b w h fb)

-- A request for one block that ends at `2 ^ 31` at most passes the test on the range exactly when the
-- block's address is a multiple of the block size.
pub max_size-lt :
    (addr : ℕ)
    → addr + 1024 ≤ 2 ^ 31
    → i32_lt (max_size addr) ((addr + 1024) % 2 ^ 32) ≡ not (addr % 1024 == 0)
unfolding max_size i32_lt units
max_size-lt addr fits = ground arith
