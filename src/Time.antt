-- ===== src/Time.antt =====
-- The times of src/common.c: np_difftimespec, np_addtimespec and np_modtimespec on a struct timespec.
-- The clocks give times since the epoch or since boot, so both parts are natural numbers, far below
-- the range of 64 bits; tv_nsec < 0 does not occur.
pub mod Laws
use netopeer.Common.{
  ℕ, suc, ◌+◌, ◌-◌, ◌*◌, ◌/◌, ◌%◌, Bool, true, false, ltb, ◌==◌, Option, none, some, if◌then◌else◌,
}
use netopeer.Common.Ints.{ℤ, pos, negsuc, sub_ℕ, ◌+ℤ◌, scale}

pub record Timespec : Type 0 where
  pub tv_sec : ℕ
  pub tv_nsec : ℕ

-- nsec / 1000000L, toward zero
abbrev pub to_msec : ℤ → ℤ
to_msec (pos n) = pos (n / 1000000)
to_msec (negsuc n) = sub_ℕ 0 (suc n / 1000000)

-- ts2 - ts1 in milliseconds
unfoldable pub np_difftimespec : Timespec → Timespec → ℤ
np_difftimespec ts1 ts2 =
    to_msec
      (pos 0 +ℤ scale 1000000000 (sub_ℕ ts2.tv_sec ts1.tv_sec) +ℤ sub_ℕ ts2.tv_nsec ts1.tv_nsec)

abbrev pub is_normal : Timespec → Bool
is_normal ts = ltb ts.tv_nsec 1000000000

abbrev carry : Timespec → Timespec
carry ts =
    if ltb ts.tv_nsec 1000000000
    then ts
    else record { tv_sec = ts.tv_sec + 1; tv_nsec = ts.tv_nsec - 1000000000 }

-- An assertion: `none` is its failure.
abbrev asserted : Timespec → Option Timespec
asserted ts = if is_normal ts then some ts else none

unfoldable pub np_addtimespec : Timespec → ℕ → Option Timespec
np_addtimespec ts msec =
    if is_normal ts
    then asserted (
        carry (record {
          tv_sec = ts.tv_sec + msec / 1000;
          tv_nsec = ts.tv_nsec + msec % 1000 * 1000000;
        }))
    else none

-- `none` is a division by zero.
unfoldable pub np_modtimespec : Timespec → ℕ → Option Timespec
np_modtimespec ts msec =
    if msec == 0
    then none
    else (let ts_msec = (ts.tv_sec * 1000 + ts.tv_nsec / 1000000) % msec in
        some (record { tv_sec = ts_msec / 1000; tv_nsec = ts_msec % 1000 * 1000000 }))
