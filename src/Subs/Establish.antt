-- ===== src/Subs/Establish.antt =====
-- Establishing a subscription: np2srv_rpc_establish_sub_cb of src/netconf_subscribed_notifications.c,
-- sub_ntf_rpc_establish_sub and sub_ntf_rpc_filter2xpath of src/subscribed_notifications.c.
use netopeer.Common.{
  ℕ, ◌+◌, ◌%◌, ◌&&◌, not, Bool, false, List, [], ◌∷◌, ◌++◌, Option, none, some, CString, lit,
  if◌then◌else◌, ◌>>=◌,
}
use netopeer.Common.Ints.{is_negative, is_positive}
use netopeer.Sysrepo.{Code, sr_ok, sr_err_inval_arg, sr_err_internal, sr_err_ly, assertion, is_ok}
use netopeer.Time.{Timespec, np_difftimespec}
use netopeer.Filter.{Module, op_filter_filter2xpath}
use netopeer.Filter.Subtree.{op_filter_subtree2xpath}
use netopeer.Subs.{
  Sub, SubType, type_sub_ntf, type_yang_push, GivenFilter, no_filter, filter_name, subtree_filter,
  xpath_filter, sub_ntf, CbArg, Info, inc_notif_status, dec_notif_status, unsubscribed,
}
use netopeer.Subs.Table.{called, new_sub, sub_ntf_new}
use netopeer.Subs.Subscribe.{Answers, ContextModule, sub_ntf_sr_subscribe}
use netopeer.Subs.Rpcs.{is_set}

-- ly_ctx_get_module_implemented_ns, and the filter that sr_get_subtree finds for a stream filter's
-- name: its code, and the node behind the name.
module _ (get_module : CString → Option Module)
    (get_filter : CString → Code × Option GivenFilter) where
  -- The end of sub_ntf_rpc_filter2xpath, for the node that defines the filter. An anydata node that
  -- is no data tree has no nodes.
  abbrev pub defined_xpath : GivenFilter → Option (Code × Option CString)
  defined_xpath no_filter = some (sr_ok, none)
  defined_xpath (filter_name n) = some (assertion, none)
  defined_xpath (subtree_filter top) = do
    fs ← op_filter_subtree2xpath get_module top []
    some (op_filter_filter2xpath fs)
  defined_xpath (xpath_filter []) = some (sr_ok, none)
  defined_xpath (xpath_filter (c ∷ s)) = some (sr_ok, some (c ∷ s))

  abbrev pub named_xpath : Code × Option GivenFilter → Option (Code × Option CString)
  named_xpath (r, none) = some (if is_ok r then sr_err_inval_arg else r, none)
  named_xpath (r, some f) = if is_ok r then defined_xpath f else some (r, none)

  unfoldable pub sub_ntf_rpc_filter2xpath : GivenFilter → Option (Code × Option CString)
  sub_ntf_rpc_filter2xpath (filter_name n) = named_xpath (get_filter n)
  sub_ntf_rpc_filter2xpath no_filter = defined_xpath no_filter
  sub_ntf_rpc_filter2xpath (subtree_filter top) = defined_xpath (subtree_filter top)
  sub_ntf_rpc_filter2xpath (xpath_filter s) = defined_xpath (xpath_filter s)

-- The parameter checks of sub_ntf_rpc_establish_sub; a time that is not given is 0.
unfoldable pub times_ok : Timespec → Timespec → Timespec → Bool
times_ok start stop now =
    if is_set start && is_negative (np_difftimespec start now)
    then false
    else (if not (is_set start) && (is_set stop && is_positive (np_difftimespec stop now))
        then false
        else not (is_set start && (is_set stop && is_positive (np_difftimespec stop start))))

-- What the RPC gives, and what is around it: the time, the modules of the context and what sysrepo
-- answers to each subscription; `xpath` is what sub_ntf_rpc_filter2xpath gives for the filter.
pub record Request : Type 0 where
  pub user_sess : Code
  pub ncs : ℕ
  pub filter : GivenFilter
  pub xpath : Code × Option CString
  pub stream : CString
  pub start : Timespec
  pub now : Timespec
  pub modules : List ContextModule
  pub answers : Option CString → Answers

-- The code, the subscription, and the sysrepo subscriptions that were made and ended.
abbrev pub Outcome : Type 0
Outcome = Code × Sub × List ℕ

abbrev pub with_sr_subs : Request → Sub → Outcome
with_sr_subs q s =
    let arg : CbArg = record {
      ncs = q.ncs;
      nc_sub_id = s.nc_sub_id;
      sr_sub_count = 0;
      replay_complete_count = 0;
    } in
    let (r, counted) = sub_ntf_sr_subscribe q.modules (q.answers q.xpath.1) q.stream arg in
    (
      r.code,
      record s {
        sub_ids = r.sub_ids;
        sub_data = sub_ntf (record {
          filter = q.filter;
          stream = q.stream;
          replay_start_time = q.start;
          cb_arg = counted;
        });
      },
      r.dropped,
    )

unfoldable pub sub_ntf_rpc_establish_sub : Request → Sub → Outcome
sub_ntf_rpc_establish_sub q s =
    if is_ok q.user_sess
    then (if is_ok q.xpath.0
        then (if times_ok q.start s.stop_time q.now
            then with_sr_subs q s
            else (sr_err_inval_arg, s, []))
        else (q.xpath.0, s, []))
    else (q.user_sess, s, [])

-- --info.count; `none` where it wraps around.
abbrev pub drop_last : List Sub → Option (List Sub)
drop_last [] = none
drop_last (s ∷ []) = some []
drop_last (s ∷ r ∷ subs) = drop_last (r ∷ subs) >>= λ rest. some (s ∷ rest)

abbrev pub all_unsubscribed : List ℕ → Info → Info
all_unsubscribed [] t = t
all_unsubscribed (id ∷ ids) t = all_unsubscribed ids (called (unsubscribed id) t)

-- The label `error_unlock`, with the notification status set.
abbrev pub error_unlock : Code → ℕ → Info → Option (Code × Info)
error_unlock r nc_id t = do
  rest ← drop_last t.subs
  some (r, called (dec_notif_status nc_id) (record t { subs = rest }))

-- The callback's input and surroundings: NP_IGNORE_RPC, the caller's session, whether the encoding
-- is supported, the type if there is one, whether realloc gives memory, and whether libyang makes the
-- output. Establishing yang-push data is `yang_push`.
pub record EstablishCall : Type 0 where
  pub ignored : Bool
  pub nc_id : ℕ
  pub stop : Timespec
  pub encoding_ok : Bool
  pub type_of : Option SubType
  pub allocated : Bool
  pub output_ok : Bool
  pub request : Request
  pub yang_push : Sub → Outcome

abbrev pub no_such_subscription : CString
no_such_subscription = lit "ietf-subscribed-notifications:no-such-subscription"

abbrev pub establish_data : EstablishCall → SubType → Sub → Outcome
establish_data c type_sub_ntf s = sub_ntf_rpc_establish_sub c.request s
establish_data c type_yang_push s = c.yang_push s

-- nc_sub_id is a uint32_t.
abbrev pub next_id : Info → ℕ
next_id t = t.new_nc_sub_id % 4294967296

-- The subscription's slot is the last.
abbrev pub established : EstablishCall → List Sub → Outcome → Info → Option (Code × Info)
established c before (r, s, dropped) t =
    let u = all_unsubscribed dropped (record t { subs = before ++ s ∷ [] }) in
    if is_ok r
    then some (if c.output_ok then (sr_ok, u) else (sr_err_ly, called (dec_notif_status c.nc_id) u))
    else error_unlock r c.nc_id u

-- from `set ongoing notifications flag` on
abbrev pub establish_typed : EstablishCall → SubType → Info → Option (Code × Info)
establish_typed c k t =
    let s = new_sub c.nc_id (next_id t) no_such_subscription c.stop k in
    let u = record (called (inc_notif_status c.nc_id) t) { new_nc_sub_id = t.new_nc_sub_id + 1 } in
    elim (sub_ntf_new c.allocated s u) [
      | none ↦ error_unlock sr_err_internal c.nc_id u
      | some v ↦ established c t.subs (establish_data c k s) v
    ]

unfoldable pub np2srv_rpc_establish_sub_cb : EstablishCall → Info → Option (Code × Info)
np2srv_rpc_establish_sub_cb c t =
    if c.ignored
    then some (sr_ok, t)
    else (if is_ok c.request.user_sess
        then (if c.encoding_ok
            then elim c.type_of [
              | none ↦ some (sr_err_inval_arg, t)
              | some k ↦ establish_typed c k t
            ]
            else some (sr_err_internal, t))
        else some (c.request.user_sess, t))
