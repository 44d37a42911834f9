-- ===== src/Subs/Terminate.antt =====
-- sub_ntf_terminate_sub of src/netconf_subscribed_notifications.c, the callback of
-- src/subscribed_notifications.c that sysrepo calls at the end of a sysrepo subscription, and the
-- loop over the subscriptions of a session that ends. `none` is an access past the end of an array, of
-- a NULL pointer, or a failed assertion. The lock is let go in the middle: `others` is what the other
-- threads do then.
use netopeer.Common.{
  ℕ, suc, zero, ◌==◌, true, List, [], ◌∷◌, Option, none, some, length, get_elem?, if◌then◌else◌,
  ◌>>=◌,
}
use netopeer.Sysrepo.{Code, sr_ok, is_ok}
use netopeer.Subs.{
  Sub, SubType, type_sub_ntf, type_yang_push, SubData, sub_ntf, CbArg, Info, Server,
  subscription_terminated, dec_notif_status, unsubscribed, yang_push_stopped,
}
use netopeer.Subs.Table.{
  change, called, sub_ntf_find, sub_ntf_cb_lock_pass, sub_ntf_cb_lock_clear, sub_ntf_send_notif,
}
use netopeer.Subs.Locks.{found_usable}
use netopeer.Subs.Subscribe.{is_empty, sub_ntf_del_sr_sub_is_last}

-- memmove over info.subs[i]
abbrev pub erase : ℕ → List Sub → List Sub
erase i [] = []
erase zero (s ∷ subs) = subs
erase (suc i) (s ∷ subs) = s ∷ erase i subs

abbrev pub set_terminating : Sub → Sub
set_terminating s = record s { terminating = true }

abbrev pub set_ids : List ℕ → Sub → Sub
set_ids ids s = record s { sub_ids = ids }

-- sub_ntf_terminate_async or yang_push_terminate_async
abbrev pub terminate_async : SubType → ℕ → Info → Info
terminate_async type_sub_ntf nc_sub_id t = t
terminate_async type_yang_push nc_sub_id t = called (yang_push_stopped nc_sub_id) t

-- rc = r, where r is an error
abbrev pub worse : Code → Code → Code
worse rc r = if is_ok r then rc else r

-- The code of sub_ntf_terminate_sub is not used.
abbrev pub map_snd : Option (Code × Info) → Option Info
map_snd none = none
map_snd (some (r, t)) = some t

abbrev pub cb_arg_of : SubData → Option CbArg
cb_arg_of (sub_ntf d) = some d.cb_arg
cb_arg_of d = none

module _ (server : Server) where
  unfoldable pub send_terminated : Sub → ℕ → Info → Code × Info
  send_terminated s ncs t =
      if server.running ncs
      then sub_ntf_send_notif server ncs s.nc_sub_id
          (subscription_terminated s.nc_sub_id s.term_reason) t
      else (sr_ok, t)

module _ (server : Server) (others : Info → Info) where
  -- from `terminate any asynchronous tasks` to the end
  unfoldable pub finish_sub : ℕ → ℕ → Code → Info → Option (Code × Info)
  finish_sub i ncs rc t = do
    s ← get_elem? t.subs i
    let u = others (change set_terminating i (terminate_async s.type_of s.nc_sub_id t))
    found ← get_elem? u.subs i
    let (r, v) = send_terminated server found ncs u
    let w = called (dec_notif_status ncs) v
    some (worse rc r, record w { subs = erase i w.subs })

  abbrev pub usable_at : ℕ → Info → Option ℕ
  usable_at nc_sub_id t =
      let found = sub_ntf_find nc_sub_id 0 t.subs in if found_usable t found then found else none

  -- np2srv_rpc_establish_sub_ntf_cb for SR_EV_NOTIF_TERMINATED, the lock passed to it. The call of
  -- sub_ntf_terminate_sub there is for a subscription with no sub_ids left, so it only finishes.
  unfoldable pub ntf_terminated : ℕ → CbArg → Info → Option Info
  ntf_terminated sub_id arg t = elim (usable_at arg.nc_sub_id t) [
    | none ↦ some t
    | some i ↦ do
      s ← get_elem? t.subs i
      let (ids, last) = sub_ntf_del_sr_sub_is_last sub_id s.sub_ids
      let u = change (set_ids ids) i t
      if last then map_snd (finish_sub i arg.ncs sr_ok u) else some u
  ]

  -- One round of the loop over sub_ids: the first is always taken.
  unfoldable pub unsubscribe_first : ℕ → Info → Option (Code × Info)
  unsubscribe_first i t = do
    s ← get_elem? t.subs i
    sub_id ← get_elem? s.sub_ids 0
    arg ← cb_arg_of s.sub_data
    let passed = called (unsubscribed sub_id) (sub_ntf_cb_lock_pass sub_id t)
    let (r, calls_back) = server.unsubscribe sub_id
    u ← if calls_back then ntf_terminated sub_id arg passed else some passed
    v ← sub_ntf_cb_lock_clear sub_id u
    some (r, v)

  unfoldable pub unsubscribe_all : ℕ → ℕ → Code → Info → Option (Code × Info)
  unsubscribe_all zero i rc t = some (rc, t)
  unsubscribe_all (suc n) i rc t = do
    (r, u) ← unsubscribe_first i t
    unsubscribe_all n i (worse rc r) u

  -- sr_unsubscribe_sub of a subscription to data calls nothing back.
  unfoldable pub unsubscribe_data : List ℕ → Code → Info → Code × Info
  unsubscribe_data [] rc t = (rc, t)
  unsubscribe_data (sub_id ∷ ids) rc t =
      unsubscribe_data ids (worse rc (server.unsubscribe sub_id).0) (called (unsubscribed sub_id) t)

  unfoldable pub sub_ntf_terminate_sub : ℕ → ℕ → Info → Option (Code × Info)
  sub_ntf_terminate_sub i ncs t = do
    s ← get_elem? t.subs i
    elim s.type_of [
      | type_sub_ntf ↦
          if is_empty s.sub_ids
          then finish_sub i ncs sr_ok t
          else unsubscribe_all (length s.sub_ids) i sr_ok t
      | type_yang_push ↦ let (rc, u) = unsubscribe_data s.sub_ids sr_ok t in finish_sub i ncs rc u
    ]

  -- The loop of np2srv_sub_ntf_session_destroy from index i on, for `rounds` rounds at most.
  unfoldable pub destroy_from : ℕ → ℕ → ℕ → Info → Option Info
  destroy_from zero i ncs t = some t
  destroy_from (suc rounds) i ncs t = elim (get_elem? t.subs i) [
    | none ↦ some t
    | some s ↦
        if s.nc_id == ncs
        then (do (r, u) ← sub_ntf_terminate_sub i ncs t; destroy_from rounds (suc i) ncs u)
        else destroy_from rounds (suc i) ncs t
  ]

  -- Each round raises i, and the table does not grow by it.
  unfoldable pub np2srv_sub_ntf_session_destroy : ℕ → Info → Option Info
  np2srv_sub_ntf_session_destroy ncs t = destroy_from (length t.subs) 0 ncs t
