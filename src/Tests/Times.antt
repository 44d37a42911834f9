-- ===== src/Tests/Times.antt =====
-- Times.
use netopeer.Common.{◌≡◌, refl, some}
use netopeer.Common.Ints.{negsuc, ◌+ℤ◌, scale}
use netopeer.Time.{Timespec, np_difftimespec, np_addtimespec}

abbrev noon : Timespec
noon = record { tv_sec = 43200; tv_nsec = 999000000 }

later : np_addtimespec noon 1500 ≡ some (record { tv_sec = 43202; tv_nsec = 499000000 })
unfolding np_addtimespec
later = refl

earlier : np_difftimespec noon (record { tv_sec = 43200; tv_nsec = 0 }) ≡ negsuc 998
unfolding np_difftimespec ◌+ℤ◌ scale
earlier = refl
