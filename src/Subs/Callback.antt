-- ===== src/Subs/Callback.antt =====
-- Each event that sysrepo gives the callback of src/subscribed_notifications.c,
-- np2srv_rpc_establish_sub_ntf_cb; the counts of a receiver, and np2srv_sub_ntf_destroy of
-- src/netconf_subscribed_notifications.c.
use netopeer.Common.{ℕ, ◌+◌, ◌%◌, List, [], ◌∷◌, Option, none, some, if◌then◌else◌}
use netopeer.Sysrepo.{
  Code, is_ok, sr_ok, sr_err_internal, sr_err_not_found, sr_err_sys, sr_err_ly, sr_err_inval_arg,
  sr_err_other, assertion,
}
use netopeer.Subs.{Sub, no_data, sub_ntf, yang_push, CbArg, Notif, event, Info, Server}
use netopeer.Subs.Table.{change, sub_ntf_send_notif}
use netopeer.Subs.Replay.{replay_complete}
use netopeer.Subs.Terminate.{terminate_async, ntf_terminated}

-- sr_ev_notif_type_t; the first is SR_EV_NOTIF_REALTIME or SR_EV_NOTIF_REPLAY with the top-level node
-- of the notification.
pub data Event : Type 0 where
  notification : ℕ → Event
  replay_ended sr_terminated sr_modified sr_resumed sr_suspended : Event

-- cb_arg is in the data of its subscription.
abbrev pub set_arg : CbArg → Sub → Sub
set_arg arg s = elim s.sub_data [
  | no_data ↦ s
  | yang_push n ↦ s
  | sub_ntf d ↦ record s { sub_data = sub_ntf (record d { cb_arg = arg }) }
]

module _ (server : Server) (others : Info → Info) where
  abbrev pub send_if : CbArg → Option Notif → Info → Info
  send_if arg none t = t
  send_if arg (some ntf) t = (sub_ntf_send_notif server arg.ncs arg.nc_sub_id ntf t).1

  -- The callback of subscription i, whose argument is `arg`; the lock was passed to it where sysrepo
  -- ends the subscription at the server's request.
  unfoldable pub establish_sub_ntf_cb : ℕ → ℕ → CbArg → Event → Info → Option Info
  establish_sub_ntf_cb i sub_id arg ev t = elim ev [
    | notification n ↦ some (send_if arg (some (event n)) t)
    | replay_ended ↦
        let (counted, sent) = replay_complete arg in
        some (send_if counted sent (change (set_arg counted) i t))
    | sr_terminated ↦ ntf_terminated server others sub_id arg t
    | sr_modified ↦ some t
    | sr_resumed ↦ some t
    | sr_suspended ↦ some t
  ]

-- The numbers of the codes.
abbrev pub code_number : Code → ℕ
code_number sr_ok = 0
code_number sr_err_inval_arg = 1
code_number sr_err_ly = 2
code_number sr_err_sys = 3
code_number sr_err_not_found = 5
code_number sr_err_internal = 7
code_number (sr_err_other n) = n
code_number assertion = 0

module _ (server : Server) where
  -- sub_ntf_oper_receiver_excluded: the sum so far, in 32 bits; an error is returned as a number.
  unfoldable pub receiver_excluded : List ℕ → ℕ → ℕ
  receiver_excluded [] count = count
  receiver_excluded (id ∷ ids) count =
      if is_ok (server.filtered_out id).0
      then receiver_excluded ids ((count + (server.filtered_out id).1) % 4294967296)
      else code_number (server.filtered_out id).0

  -- excluded-event-records of a subscription to notifications
  abbrev pub excluded_records : Sub → ℕ
  excluded_records s = (receiver_excluded s.sub_ids 0 + s.denied_count) % 4294967296

unfoldable pub stop_all : List Sub → Info → Info
stop_all [] t = t
stop_all (s ∷ subs) t = stop_all subs (terminate_async s.type_of s.nc_sub_id t)

unfoldable pub np2srv_sub_ntf_destroy : Info → Info
np2srv_sub_ntf_destroy t = record (stop_all t.subs t) { subs = [] }
