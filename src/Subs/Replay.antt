-- ===== src/Subs/Replay.antt =====
-- np2srv_rpc_establish_sub_ntf_cb of src/subscribed_notifications.c for the end of a replay.
use netopeer.Common.{
  ◌≡◌, refl, ap, ◌∙◌, ℕ, zero, suc, ◌+◌, ◌<◌, ltb, List, [], ◌∷◌, ◌++◌, Option, none, some, arith,
  if◌then◌else◌,
}
use netopeer.Subs.{CbArg, Notif, replay_completed}

-- SR_EV_NOTIF_REPLAY_COMPLETE of one sysrepo subscription: the argument after it, and what is sent.
-- ATOMIC_INC_RELAXED gives the count before.
unfoldable pub replay_complete : CbArg → CbArg × Option Notif
replay_complete arg =
    let counted = record arg { replay_complete_count = arg.replay_complete_count + 1 } in
    if ltb (arg.replay_complete_count + 1) arg.sr_sub_count
    then (counted, none)
    else (counted, some (replay_completed arg.nc_sub_id))

-- What n such callbacks send, in their order.
abbrev pub sent_of : Option Notif → List Notif
sent_of none = []
sent_of (some n) = n ∷ []

abbrev pub replays : ℕ → CbArg → List Notif
replays zero arg = []
replays (suc n) arg = sent_of (replay_complete arg).1 ++ replays n (replay_complete arg).0

waits :
    (arg : CbArg)
    → arg.replay_complete_count + 1 < arg.sr_sub_count
    → replay_complete arg
      ≡ (record arg { replay_complete_count = arg.replay_complete_count + 1 }, none)
unfolding replay_complete
waits arg h = ground arith

waiting :
    (n : ℕ) (arg : CbArg) → arg.replay_complete_count + n < arg.sr_sub_count → replays n arg ≡ []
waiting zero arg h = refl
waiting (suc n) arg h =
    let w = waits arg (omega (arith, h)) in
    let next = record arg { replay_complete_count = arg.replay_complete_count + 1 } in
    rw (w, waiting n next (omega (arith, h)))

last_sends :
    (n : ℕ) (arg : CbArg)
    → arg.replay_complete_count + suc n ≡ arg.sr_sub_count
    → replays (suc n) arg ≡ replay_completed arg.nc_sub_id ∷ []
unfolding replay_complete
last_sends zero arg h = ground (arith, h)
last_sends (suc n) arg h =
    let w = waits arg (omega (arith, h)) in
    let next = record arg { replay_complete_count = arg.replay_complete_count + 1 } in
    ap (λ r. sent_of r.1 ++ replays (suc n) r.0) w ∙ last_sends n next (omega (arith, h))

-- The sysrepo subscriptions of a subscription, n + 1 of them, end their replays one by one, in any
-- order: the first n send nothing, and the last sends the notification once.
pub replay_completed_once :
    (arg : CbArg) (n : ℕ)
    → arg.replay_complete_count ≡ 0
    → arg.sr_sub_count ≡ suc n
    → (replays n arg ≡ []) × (replays (suc n) arg ≡ replay_completed arg.nc_sub_id ∷ [])
replay_completed_once arg n z h =
    (waiting n arg (omega (arith, z, h)), last_sends n arg (omega (arith, z, h)))
