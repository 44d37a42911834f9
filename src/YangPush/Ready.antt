-- ===== src/YangPush/Ready.antt =====
-- Dampening of notifications by yang_push_notif_change_ready of src/yang_push.c.
use netopeer.Common.{
  ◌≡◌, refl, ◌≢◌, ap, ◌∙◌, ℕ, ◌+◌, ◌*◌, ◌-◌, ◌/◌, ◌<◌, ltb, ◌==◌, Bool, true, false, not, Option,
  none, some, arith, if◌then◌else◌,
}
use netopeer.Common.Ints.{pos, sub_ℕ, is_positive}
use netopeer.Time.{Timespec, np_difftimespec, is_normal}
use netopeer.Time.Laws.{nsecs, np_difftimespec-eq, np_addtimespec-nsecs}
use netopeer.YangPush.{OnChange}
use netopeer.YangPush.Change.{to_int32, unset_ready, change_ready}

-- A difference that fits into an int32_t is positive from a millisecond on.
positive-int32 :
    (m n : ℕ)
    → n < m + 2147483648000000
    → m < n + 2147483648000000
    → is_positive
        (to_int32 (if ltb n m then sub_ℕ 0 ((m - n) / 1000000) else pos ((n - m) / 1000000)))
      ≡ not (ltb n (m + 1000000))
positive-int32 m n h k = ground arith

-- With a dampening period and no timer armed, the notification can be sent when less than a millisecond
-- is missing to the period since the last one; otherwise the timer is armed for exactly the end of the
-- period. The current time is less than 2^31 milliseconds from that end.
pub change_ready-eq :
    (now : Timespec) (d : OnChange)
    → d.dampening_period_ms ≢ 0
    → d.damp_timer ≡ none
    → is_normal d.last_notif ≡ true
    → nsecs d.last_notif + d.dampening_period_ms * 1000000 < nsecs now + 2147483648000000
    → nsecs now < nsecs d.last_notif + d.dampening_period_ms * 1000000 + 2147483648000000
    → (u : Timespec) × (nsecs u ≡ nsecs d.last_notif + d.dampening_period_ms * 1000000)
      × (change_ready now d ≡ (
          if ltb (nsecs u) (nsecs now + 1000000)
          then some (true, d)
          else some (false, record d { damp_timer = some u })))
unfolding change_ready unset_ready
change_ready-eq now d z none_set norm h k =
    let (u, e, n, s) = np_addtimespec-nsecs d.last_notif d.dampening_period_ms norm in
    let nz : (d.dampening_period_ms == 0) ≡ false = ground arith in
    let p : is_positive (to_int32 (np_difftimespec now u))
        ≡ not (ltb (nsecs u) (nsecs now + 1000000)) =
      ap (λ t. is_positive (to_int32 t)) (np_difftimespec-eq now u)
      ∙ positive-int32 (nsecs now) (nsecs u) (omega (arith, s, h)) (omega (arith, s, k)) in
    let b = ltb (nsecs u) (nsecs now + 1000000) in
    let step : change_ready now d ≡ unset_ready now d =
      rw (change_ready, nz)
        (no_timer d.damp_timer none_set (unset_ready now d) (some (false, d))) in
    (
      u,
      s,
      step
          ∙ rw (unset_ready, e, p)
              (swapped b (some (true, d)) (some (false, record d { damp_timer = some u }))),
    )
  where
    swapped : {A : Type 0} (b : Bool) (x y : A) → (if not b then y else x) ≡ (if b then x else y)
    swapped true x y = refl
    swapped false x y = refl

    no_timer :
        {A : Type 0} (o : Option Timespec)
        → o ≡ none
        → (x y : A) → elim o as (λ _. A) [ some at ↦ y | none ↦ x ] ≡ x
    no_timer none h x y = refl
    no_timer (some at) h x y = ground (arith, h)
