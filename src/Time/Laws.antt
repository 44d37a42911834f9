-- ===== src/Time/Laws.antt =====
-- The arithmetic of times of src/common.c is that of nanoseconds.
use netopeer.Common.{
  ◌≡◌, ◌≢◌, ℕ, ◌+◌, ◌-◌, ◌*◌, ◌/◌, ◌%◌, ◌<◌, true, false, ltb, ◌==◌, some, if◌then◌else◌, arith,
  Bool-cases, inl, inr,
}
use native.Mathlib.Nat.{mod-lt, mod-add-div}
use netopeer.Common.Ints.{pos, sub_ℕ, ◌+ℤ◌, scale}
use netopeer.Time.{Timespec, to_msec, np_difftimespec, is_normal, np_addtimespec, np_modtimespec}

abbrev pub nsecs : Timespec → ℕ
nsecs t = t.tv_sec * 1000000000 + t.tv_nsec

sub_nsecs :
    (s m t n : ℕ)
    → pos 0 +ℤ scale 1000000000 (sub_ℕ t s) +ℤ sub_ℕ n m
      ≡ sub_ℕ (t * 1000000000 + n) (s * 1000000000 + m)
unfolding ◌+ℤ◌ scale
sub_nsecs s m t n = ground arith

to_msec-sub :
    (a b : ℕ)
    → to_msec (sub_ℕ a b)
      ≡ (if ltb a b then sub_ℕ 0 ((b - a) / 1000000) else pos ((a - b) / 1000000))
to_msec-sub a b = ground arith

-- The difference is that of the nanoseconds, toward zero.
pub np_difftimespec-eq :
    (a b : Timespec)
    → np_difftimespec a b ≡ (
        if ltb (nsecs b) (nsecs a)
        then sub_ℕ 0 ((nsecs a - nsecs b) / 1000000)
        else pos ((nsecs b - nsecs a) / 1000000))
unfolding np_difftimespec
np_difftimespec-eq a b =
    rw (np_difftimespec, sub_nsecs a.tv_sec a.tv_nsec b.tv_sec b.tv_nsec)
      (to_msec-sub (nsecs b) (nsecs a))

-- Milliseconds are added exactly, and the result is normal: no assertion fails.
pub np_addtimespec-nsecs :
    (t : Timespec) (msec : ℕ)
    → is_normal t ≡ true
    → (u : Timespec) × (np_addtimespec t msec ≡ some u)
      × (is_normal u ≡ true)
      × (nsecs u ≡ nsecs t + msec * 1000000)
unfolding np_addtimespec
np_addtimespec-nsecs t msec h =
    let v : Timespec = record {
      tv_sec = t.tv_sec + msec / 1000;
      tv_nsec = t.tv_nsec + msec % 1000 * 1000000;
    } in
    let w : Timespec = record { tv_sec = v.tv_sec + 1; tv_nsec = v.tv_nsec - 1000000000 } in
    elim (Bool-cases (is_normal v)) [
      | inl n ↦ (v, ground arith, n, ground arith)
      | inr n ↦ (w, ground arith, ground arith, ground arith)
    ]

-- What was added is the difference.
difftimespec-addtimespec :
    (t : Timespec) (msec : ℕ)
    → is_normal t ≡ true
    → (u : Timespec) × (np_addtimespec t msec ≡ some u) × (np_difftimespec t u ≡ pos msec)
difftimespec-addtimespec t msec h =
    let (u, e, n, s) = np_addtimespec-nsecs t msec h in
    (u, e, ground (arith, np_difftimespec-eq t u))

abbrev pub msecs : Timespec → ℕ
msecs t = t.tv_sec * 1000 + t.tv_nsec / 1000000

-- The rest of the milliseconds by a divisor is below it and normal, and the divisor divides what is
-- left; only a divisor 0 divides by zero.
np_modtimespec-msecs :
    (t : Timespec) (msec : ℕ)
    → msec ≢ 0
    → (u : Timespec) × (np_modtimespec t msec ≡ some u)
      × (is_normal u ≡ true)
      × (msecs u < msec)
      × (msecs t ≡ msecs u + msec * (msecs t / msec))
unfolding np_modtimespec
np_modtimespec-msecs t msec h =
    let r = msecs t % msec in
    let below : r < msec = mod-lt (msecs t) (omega (arith, h)) in
    let e : (msec == 0) ≡ false = ground arith in
    (
      record { tv_sec = r / 1000; tv_nsec = r % 1000 * 1000000 },
      rw (np_modtimespec, e),
      ground arith,
      omega (arith, below),
      omega (arith, mod-add-div (msecs t) msec),
    )
