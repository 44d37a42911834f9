-- ===== src/Subs/Times.antt =====
-- The checks of times of sub_ntf_rpc_establish_sub in src/subscribed_notifications.c.
use netopeer.Common.{◌≡◌, ℕ, ◌+◌, ◌-◌, ◌/◌, Bool, false, not, ◌&&◌, ◌||◌, ltb, arith, if◌then◌else◌}
use netopeer.Common.Ints.{pos, sub_ℕ, is_negative, is_positive}
use netopeer.Time.{Timespec, np_difftimespec}
use netopeer.Time.Laws.{nsecs, np_difftimespec-eq}
use netopeer.Subs.Rpcs.{is_set}
use netopeer.Subs.Establish.{times_ok}

negative-diff :
    (a b : Timespec) → is_negative (np_difftimespec a b) ≡ not (ltb (nsecs a) (nsecs b + 1000000))
negative-diff a b = rw (np_difftimespec-eq a b) (numbers (nsecs a) (nsecs b))
  where
    numbers :
        (m n : ℕ)
        → is_negative (if ltb n m then sub_ℕ 0 ((m - n) / 1000000) else pos ((n - m) / 1000000))
          ≡ not (ltb m (n + 1000000))
    numbers m n = ground arith

positive-diff :
    (a b : Timespec) → is_positive (np_difftimespec a b) ≡ not (ltb (nsecs b) (nsecs a + 1000000))
positive-diff a b = rw (np_difftimespec-eq a b) (numbers (nsecs a) (nsecs b))
  where
    numbers :
        (m n : ℕ)
        → is_positive (if ltb n m then sub_ℕ 0 ((m - n) / 1000000) else pos ((n - m) / 1000000))
          ≡ not (ltb n (m + 1000000))
    numbers m n = ground arith

-- Times are accepted exactly when a replay starts less than a millisecond in the future, and the stop
-- time, if given, is less than a millisecond before the replay's start or, without a replay, before
-- the current time.
times_ok-eq :
    (start stop now : Timespec)
    → times_ok start stop now ≡ (
        if is_set start
        then ltb (nsecs start) (nsecs now + 1000000)
          && (not (is_set stop) || ltb (nsecs start) (nsecs stop + 1000000))
        else not (is_set stop) || ltb (nsecs now) (nsecs stop + 1000000))
unfolding times_ok
times_ok-eq start stop now =
    rw (times_ok, negative-diff start now, positive-diff stop now, positive-diff stop start)
      (choices (is_set start) (is_set stop) (ltb (nsecs start) (nsecs now + 1000000))
        (ltb (nsecs now) (nsecs stop + 1000000)) (ltb (nsecs start) (nsecs stop + 1000000)))
  where
    choices :
        (s e a b c : Bool)
        → (if s && not a
            then false
            else (if not s && (e && not b) then false else not (s && (e && not c))))
          ≡ (if s then a && (not e || c) else not e || b)
    choices s e a b c = ground arith
