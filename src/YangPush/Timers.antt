-- ===== src/YangPush/Timers.antt =====
-- The timers of src/yang_push.c: the first update of a periodic subscription and its interval, of
-- yang_push_rpc_establish_sub, the data of an on-change one, and what yang_push_rpc_modify_sub makes
-- of a new dampening period.
use netopeer.Common.{
  ◌≡◌, ap, ◌∙◌, ◌≢◌, ℕ, suc, ◌+◌, ◌-◌, ◌*◌, ◌/◌, ◌%◌, ◌<◌, ◌≤◌, ltb, ◌==◌, Bool, true, false, ◌||◌,
  List, [], ◌∷◌, Option, none, some, CString, arith, if◌then◌else◌, ◌>>=◌,
}
use netopeer.Common.Ints.{ℤ, pos, negsuc, sub_ℕ}
use netopeer.Time.{Timespec, np_difftimespec, is_normal, np_addtimespec, np_modtimespec}
use netopeer.Time.Laws.{nsecs, np_difftimespec-eq, np_addtimespec-nsecs}
use netopeer.Subs.Rpcs.{is_set}
use netopeer.YangPush.{Op, op_create, op_delete, op_insert, op_move, op_replace, OnChange}
use netopeer.YangPush.Names.{yang_push_str2op}
use native.Mathlib.Nat.{mod-lt, mod-add-div}

-- anchor_msec < 0 ? -anchor_msec : anchor_msec
abbrev pub abs : ℤ → ℕ
abs (pos n) = n
abs (negsuc n) = suc n

-- period * 10, of a uint32_t
abbrev pub centis : ℕ → ℕ
centis period = period * 10 % 4294967296

-- The time of the first update, which yang_push_rpc_establish_sub puts into the timer; `none` is a
-- division by zero or a failed assertion.
unfoldable pub first_update : Timespec → Timespec → ℕ → Option Timespec
first_update now anchor period_ms =
    if is_set anchor
    then (if period_ms == 0
        then none
        else np_addtimespec now (abs (np_difftimespec anchor now) % period_ms))
    else some now

-- it_interval
unfoldable pub interval : ℕ → Timespec
interval period_ms = record { tv_sec = period_ms / 1000; tv_nsec = period_ms % 1000 * 1000000 }

-- it_value when yang_push_rpc_modify_sub changes the period
unfoldable pub modified_update : Timespec → Timespec → ℕ → Option Timespec
modified_update now anchor period_ms =
    if is_set anchor then np_modtimespec anchor period_ms else some now

abbrev pub same_op : Op → Op → Bool
same_op op_create op_create = true
same_op op_delete op_delete = true
same_op op_insert op_insert = true
same_op op_move op_move = true
same_op op_replace op_replace = true
same_op a b = false

abbrev pub excluded : List CString → Op → Bool
excluded [] op = false
excluded (s ∷ ss) op = same_op (yang_push_str2op s) op || excluded ss op

-- The data of a new on-change subscription, without its filter.
unfoldable pub on_change_data : ℕ → List CString → OnChange
on_change_data dampening_period excluded_change = record {
  dampening_period_ms = centis dampening_period;
  excluded_change = excluded excluded_change;
  ly_change_ntf = none;
  patch_id = 1;
  edit_id = 0;
  last_notif = record { tv_sec = 0; tv_nsec = 0 };
  damp_timer = none;
  excluded_op_count = 0;
}

-- A new dampening period: the timer, if it is armed, is armed for the end of the new period. It is
-- deleted where dampening ends. The calls of the timer functions succeed.
unfoldable pub modify_dampening : ℕ → OnChange → Option OnChange
modify_dampening dampening_period d =
    let changed = record d { dampening_period_ms = centis dampening_period } in
    if centis dampening_period == d.dampening_period_ms
    then some d
    else (if centis dampening_period == 0
        then some (record changed { damp_timer = none })
        else elim d.damp_timer [
          | none ↦ some changed
          | some at ↦ do
            next_notif ← np_addtimespec d.last_notif (centis dampening_period)
            some (record changed { damp_timer = some next_notif })
        ])

abs_diff :
    (m n : ℕ)
    → abs (if ltb n m then sub_ℕ 0 ((m - n) / 1000000) else pos ((n - m) / 1000000))
      ≡ (if ltb n m then m - n else n - m) / 1000000
abs_diff m n = ground arith

-- With an anchor in the future the first update is a whole number of periods before it, less than a
-- millisecond early.
first_update_future :
    (now anchor : Timespec) (period_ms : ℕ)
    → is_set anchor ≡ true
    → is_normal now ≡ true
    → period_ms ≢ 0
    → nsecs now ≤ nsecs anchor
    → (u : Timespec) × (k : ℕ) × (early : ℕ) × (first_update now anchor period_ms ≡ some u)
      × (early < 1000000)
      × (nsecs u + early + period_ms * k * 1000000 ≡ nsecs anchor)
unfolding first_update
first_update_future now anchor p a w z l =
    let d = (nsecs anchor - nsecs now) / 1000000 in
    let (u, e, n, s) = np_addtimespec-nsecs now (d % p) w in
    let nz : (p == 0) ≡ false = ground arith in
    let m : abs (np_difftimespec anchor now) ≡ d =
      ap abs (np_difftimespec-eq anchor now) ∙ abs_diff (nsecs anchor) (nsecs now) ∙ ground arith in
    let split = mod-add-div d p in
    (
      u,
      d / p,
      (nsecs anchor - nsecs now) % 1000000,
      rw (first_update, a, nz, m, e),
      omega arith,
      omega (arith, s, l, split),
    )

-- With an anchor in the past, r milliseconds and k whole periods ago, the first update is not a whole
-- number of periods behind it but 2 r milliseconds more, up to less than a millisecond.
pub first_update_past :
    (now anchor : Timespec) (period_ms : ℕ)
    → is_set anchor ≡ true
    → is_normal now ≡ true
    → period_ms ≢ 0
    → nsecs anchor ≤ nsecs now
    → (u : Timespec) × (k r late : ℕ) × (first_update now anchor period_ms ≡ some u)
      × (r < period_ms)
      × (late < 1000000)
      × (nsecs now ≡ nsecs anchor + (period_ms * k + r) * 1000000 + late)
      × (nsecs u ≡ nsecs anchor + (period_ms * k + 2 * r) * 1000000 + late)
unfolding first_update
first_update_past now anchor p a w z l =
    let g = nsecs now - nsecs anchor in
    let d = g / 1000000 in
    let (u, e, n, s) = np_addtimespec-nsecs now (d % p) w in
    let nz : (p == 0) ≡ false = ground arith in
    let m : abs (np_difftimespec anchor now) ≡ d =
      ap abs (np_difftimespec-eq anchor now)
      ∙ abs_diff (nsecs anchor) (nsecs now)
      ∙ past (nsecs anchor) (nsecs now) l in
    let split = mod-add-div d p in
    (
      u,
      d / p,
      d % p,
      g % 1000000,
      rw (first_update, a, nz, m, e),
      mod-lt d (omega (arith, z)),
      omega arith,
      omega (arith, l, split),
      omega (arith, s, l, split),
    )
  where
    past : (m n : ℕ) → m ≤ n → (if ltb n m then m - n else n - m) / 1000000 ≡ (n - m) / 1000000
    past m n h = ground arith
