-- ===== src/Subs.antt =====
-- Subscriptions of src/netconf_subscribed_notifications.h: the table `info`, and what the code gets
-- from the server: sessions by their NETCONF ID, NACM, libnetconf2 and sysrepo. A type-specific
-- record is of src/subscribed_notifications.h or, for yang-push, left to sysrepo and timers.
pub mod Table
pub mod Locks
pub mod Subscribe
pub mod Subscribed
pub mod Replay
pub mod Terminate
pub mod Terminated
pub mod Unsubscribed
pub mod Callback
pub mod Rpcs
pub mod Skipped
pub mod Modify
pub mod Modified
pub mod Times
pub mod Establish
pub mod Established
use netopeer.Common.{ℕ, Bool, true, false, List, Option, CString}
use netopeer.Sysrepo.{Code, sr_err_other}
use netopeer.Time.{Timespec}
use netopeer.Filter.{Nodes}
use netopeer.YangPush.{ChangeNtf}

-- enum sub_ntf_type
pub data SubType : Type 0 where
  type_sub_ntf type_yang_push : SubType

-- The filter that a subscription was given: stream-filter-name, stream-subtree-filter or
-- stream-xpath-filter.
pub data GivenFilter : Type 0 where
  no_filter : GivenFilter
  filter_name : CString → GivenFilter
  subtree_filter : Nodes → GivenFilter
  xpath_filter : CString → GivenFilter

-- struct sub_ntf_cb_arg; `ncs` is the ID of the session.
pub record CbArg : Type 0 where
  pub ncs : ℕ
  pub nc_sub_id : ℕ
  pub sr_sub_count : ℕ
  pub replay_complete_count : ℕ

-- struct sub_ntf_data; of its three filters one is set at most.
pub record SubNtfData : Type 0 where
  pub filter : GivenFilter
  pub stream : CString
  pub replay_start_time : Timespec
  pub cb_arg : CbArg

-- `data` of a subscription: NULL, a struct sub_ntf_data, or yang-push data with the name of its
-- selection filter.
pub data SubData : Type 0 where
  no_data : SubData
  sub_ntf : SubNtfData → SubData
  yang_push : Option CString → SubData

-- struct np2srv_sub_ntf; sub_id_count is the length of `sub_ids`. The counters stay far below the
-- range of their type.
pub record Sub : Type 0 where
  pub nc_id : ℕ
  pub nc_sub_id : ℕ
  pub sub_ids : List ℕ
  pub term_reason : CString
  pub stop_time : Timespec
  pub terminating : Bool
  pub sent_count : ℕ
  pub denied_count : ℕ
  pub type_of : SubType
  pub sub_data : SubData

-- A notification that the server makes, or one of sysrepo.
pub data Notif : Type 0 where
  replay_completed : ℕ → Notif
  subscription_terminated : ℕ → CString → Notif
  subscription_modified : ℕ → Option Timespec → GivenFilter → Notif
  push_change_update : ChangeNtf → Notif
  event : ℕ → Notif

-- What the code asks of the outside.
pub data Call : Type 0 where
  inc_notif_status dec_notif_status : ℕ → Call
  notif_sent : ℕ → Notif → Call
  session_notification : ℕ → Call
  unsubscribed : ℕ → Call
  yang_push_stopped : ℕ → Call
  xpath_modified : ℕ → Option CString → Call
  stop_time_modified : ℕ → Option Timespec → Call

-- struct np2srv_sub_ntf_info without its read-write lock, new_nc_sub_id, and the calls so far, the
-- last first; `count` is the length of `subs`.
pub record Info : Type 0 where
  pub sub_id_lock : ℕ
  pub subs : List Sub
  pub new_nc_sub_id : ℕ
  pub calls : List Call

-- NC_MSG_ERROR, NC_MSG_WOULDBLOCK and the rest.
pub data Message : Type 0 where
  message_error message_wouldblock message_sent : Message

-- ncac_check_operation for the user of a session, nc_server_notif_send, whether a session is running,
-- sr_unsubscribe_sub: its code, and whether it calls back with SR_EV_NOTIF_TERMINATED;
-- np_get_nc_sess_by_id, sr_event_notif_sub_modify_xpath, sr_notif_sub_modify_stop_time, what
-- sr_notif_sub_get_info gives: the XPath and the stop time, or the number of the notifications
-- filtered out.
pub record Server : Type 0 where
  pub denied : ℕ → Notif → Bool
  pub send : ℕ → Notif → Message
  pub running : ℕ → Bool
  pub unsubscribe : ℕ → Code × Bool
  pub session : ℕ → Code
  pub modify_xpath : ℕ → Option CString → Code
  pub modify_stop_time : ℕ → Option Timespec → Code
  pub sub_info : ℕ → Code × Option CString × Timespec
  pub filtered_out : ℕ → Code × ℕ

abbrev pub sr_err_operation_failed : Code
sr_err_operation_failed = sr_err_other 10

abbrev pub sr_err_time_out : Code
sr_err_time_out = sr_err_other 13

abbrev pub sr_err_no_memory : Code
sr_err_no_memory = sr_err_other 4
