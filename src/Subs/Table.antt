-- ===== src/Subs/Table.antt =====
-- The table of subscriptions of src/netconf_subscribed_notifications.c: finding, adding and sending.
-- A pointer to a subscription is its index.
use netopeer.Common.{
  ℕ, suc, zero, ◌+◌, ◌==◌, ◌&&◌, ◌||◌, Bool, true, false, List, [], ◌∷◌, ◌++◌, Option, none, some,
  CString, if◌then◌else◌,
}
use netopeer.Sysrepo.{Code, sr_ok, sr_err_internal}
use netopeer.Time.{Timespec}
use netopeer.Subs.{
  Sub, SubType, no_data, Info, Call, notif_sent, session_notification, Notif, Message,
  message_error, message_wouldblock, message_sent, Server, sr_err_operation_failed, sr_err_time_out,
}

-- A subscription with this ID, of this session unless nc_id is 0.
abbrev pub matches : ℕ → ℕ → Sub → Bool
matches nc_sub_id nc_id s = (nc_id == 0 || s.nc_id == nc_id) && s.nc_sub_id == nc_sub_id

-- The first index of an item that passes a test.
abbrev pub first_at {ℓ} : {A : Type ℓ} → (A → Bool) → List A → Option ℕ
first_at p [] = none
first_at p (x ∷ xs) =
    if p x then some 0 else elim (first_at p xs) [ none ↦ none | some i ↦ some (suc i) ]

unfoldable pub sub_ntf_find : ℕ → ℕ → List Sub → Option ℕ
sub_ntf_find nc_sub_id nc_id subs = first_at (matches nc_sub_id nc_id) subs

-- The search of sub_ntf_find_next behind index `last`.
unfoldable pub sub_ntf_find_next : Option ℕ → (Sub → Bool) → List Sub → Option ℕ
sub_ntf_find_next none match_cb subs = first_at match_cb subs
sub_ntf_find_next (some last) match_cb [] = none
sub_ntf_find_next (some zero) match_cb (s ∷ subs) = elim (first_at match_cb subs) [
  | none ↦ none
  | some i ↦ some (suc i)
]
sub_ntf_find_next (some (suc last)) match_cb (s ∷ subs) =
    elim (sub_ntf_find_next (some last) match_cb subs) [ none ↦ none | some i ↦ some (suc i) ]

-- A change of info.subs[i]; nothing is there past the end.
abbrev pub change_sub : (Sub → Sub) → ℕ → List Sub → List Sub
change_sub f i [] = []
change_sub f zero (s ∷ subs) = f s ∷ subs
change_sub f (suc i) (s ∷ subs) = s ∷ change_sub f i subs

abbrev pub change : (Sub → Sub) → ℕ → Info → Info
change f i t = record t { subs = change_sub f i t.subs }

abbrev pub called : Call → Info → Info
called c t = record t { calls = c ∷ t.calls }

abbrev pub count_denied : Sub → Sub
count_denied s = record s { denied_count = s.denied_count + 1 }

abbrev pub count_sent : Sub → Sub
count_sent s = record s { sent_count = s.sent_count + 1 }

unfoldable pub sub_ntf_inc_denied : ℕ → Info → Info
sub_ntf_inc_denied nc_sub_id t = elim (sub_ntf_find nc_sub_id 0 t.subs) [
  | none ↦ t
  | some i ↦ change count_denied i t
]

unfoldable pub sub_ntf_cb_lock_pass : ℕ → Info → Info
sub_ntf_cb_lock_pass sub_id t = record t { sub_id_lock = sub_id }

-- `none` is the failure of its assertion.
unfoldable pub sub_ntf_cb_lock_clear : ℕ → Info → Option Info
sub_ntf_cb_lock_clear sub_id t =
    if t.sub_id_lock == sub_id then some (record t { sub_id_lock = 0 }) else none

abbrev pub message_result : ℕ → Notif → ℕ → Info → Message → Code × Info
message_result ncs ntf i t message_error = (sr_err_operation_failed, t)
message_result ncs ntf i t message_wouldblock = (sr_err_time_out, t)
message_result ncs ntf i t message_sent =
    (sr_ok, change count_sent i (called (session_notification ncs) (called (notif_sent ncs ntf) t)))

module _ (server : Server) where
  unfoldable pub sub_ntf_send_notif : ℕ → ℕ → Notif → Info → Code × Info
  sub_ntf_send_notif ncs nc_sub_id ntf t = elim (sub_ntf_find nc_sub_id ncs t.subs) [
    | none ↦ (sr_err_internal, t)
    | some i ↦
        if server.denied ncs ntf
        then (sr_ok, change count_denied i t)
        else message_result ncs ntf i t (server.send ncs ntf)
  ]

-- sub_ntf_new: the new subscription is the last; `allocated` is false where realloc fails.
abbrev pub new_sub : ℕ → ℕ → CString → Timespec → SubType → Sub
new_sub nc_id nc_sub_id term_reason stop_time type_of = record {
  nc_id = nc_id;
  nc_sub_id = nc_sub_id;
  sub_ids = [];
  term_reason = term_reason;
  stop_time = stop_time;
  terminating = false;
  sent_count = 0;
  denied_count = 0;
  type_of = type_of;
  sub_data = no_data;
}

unfoldable pub sub_ntf_new : Bool → Sub → Info → Option Info
sub_ntf_new false s t = none
sub_ntf_new true s t = some (record t { subs = t.subs ++ s ∷ [] })
