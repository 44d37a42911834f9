-- ===== src/Monitoring.antt =====
-- src/netconf_monitoring.c: the statistics of the monitored sessions. Allocation is taken to succeed.
-- `none` is an access past the end of the arrays.
pub mod Counted
use netopeer.Common.{
  ℕ, zero, suc, ◌==◌, Bool, true, false, List, [], ◌∷◌, ◌++◌, Option, none, some, incr32,
  if◌then◌else◌,
}

-- struct ncm_session_stats
pub record Stats : Type 0 where
  pub in_rpcs : ℕ
  pub in_bad_rpcs : ℕ
  pub out_rpc_errors : ℕ
  pub out_notifications : ℕ

-- What is read of a struct nc_session: `is_monitored` is ncm_is_monitored, an SSH or TLS transport,
-- `is_closed` says that the reason of its end is NC_SESSION_TERM_CLOSED.
pub record Session : Type 0 where
  pub id : ℕ
  pub is_monitored : Bool
  pub is_closed : Bool

-- struct ncm; session_count is the length of both arrays.
pub record Ncm : Type 0 where
  pub sessions : List Session
  pub session_stats : List Stats
  pub in_bad_hellos : ℕ
  pub in_sessions : ℕ
  pub dropped_sessions : ℕ
  pub global_stats : Stats

abbrev pub no_stats : Stats
no_stats = record { in_rpcs = 0; in_bad_rpcs = 0; out_rpc_errors = 0; out_notifications = 0 }

-- nc_session_get_id(stats.sessions[i]) == nc_session_get_id(session)
unfoldable pub index_of : ℕ → List Session → Option ℕ
index_of id [] = none
index_of id (s ∷ ss) =
    let rest = index_of id ss in
    if s.id == id then some 0 else elim rest [ none ↦ none | some i ↦ some (suc i) ]

-- The index, or 0 if the session is not there.
abbrev pub or_zero : Option ℕ → ℕ
or_zero none = 0
or_zero (some i) = i

unfoldable pub find_session_idx : Session → List Session → ℕ
unfolding index_of
find_session_idx session ss = or_zero (index_of session.id ss)

-- session_stats[i] is changed.
unfoldable pub change_at : (Stats → Stats) → ℕ → List Stats → Option (List Stats)
change_at f i [] = none
change_at f zero (t ∷ ts) = some (f t ∷ ts)
change_at f (suc i) (t ∷ ts) = elim (change_at f i ts) [ none ↦ none | some us ↦ some (t ∷ us) ]

-- A counter goes up for the session and for all.
unfoldable pub count : (Stats → Stats) → Session → Ncm → Option Ncm
unfolding find_session_idx change_at
count up session n =
    if session.is_monitored
    then (elim (change_at up (find_session_idx session n.sessions) n.session_stats) [
      | none ↦ none
      | some ts ↦ some (record n { session_stats = ts; global_stats = up n.global_stats })
    ])
    else some n

abbrev pub up_in_rpcs : Stats → Stats
up_in_rpcs t = record t { in_rpcs = incr32 t.in_rpcs }

abbrev pub up_in_bad_rpcs : Stats → Stats
up_in_bad_rpcs t = record t { in_bad_rpcs = incr32 t.in_bad_rpcs }

abbrev pub up_out_rpc_errors : Stats → Stats
up_out_rpc_errors t = record t { out_rpc_errors = incr32 t.out_rpc_errors }

abbrev pub up_out_notifications : Stats → Stats
up_out_notifications t = record t { out_notifications = incr32 t.out_notifications }

abbrev pub session_rpc : Session → Ncm → Option Ncm
session_rpc = count up_in_rpcs

abbrev pub session_bad_rpc : Session → Ncm → Option Ncm
session_bad_rpc = count up_in_bad_rpcs

abbrev pub session_rpc_reply_error : Session → Ncm → Option Ncm
session_rpc_reply_error = count up_out_rpc_errors

abbrev pub session_notification : Session → Ncm → Option Ncm
session_notification = count up_out_notifications

unfoldable pub session_add : Session → Ncm → Ncm
session_add session n =
    if session.is_monitored
    then record n {
      in_sessions = incr32 n.in_sessions;
      sessions = n.sessions ++ session ∷ [];
      session_stats = n.session_stats ++ no_stats ∷ [];
    }
    else n

-- The array without its item i; `none` if there is no such item.
unfoldable pub remove_at {ℓ} : {A : Type ℓ} → ℕ → List A → Option (List A)
remove_at i [] = none
remove_at zero (x ∷ xs) = some xs
remove_at (suc i) (x ∷ xs) = elim (remove_at i xs) [ none ↦ none | some ys ↦ some (x ∷ ys) ]

abbrev pub count_dropped : Session → Ncm → Ncm
count_dropped session n =
    if session.is_closed then n else record n { dropped_sessions = incr32 n.dropped_sessions }

unfoldable pub session_del : Session → Ncm → Option Ncm
unfolding find_session_idx remove_at
session_del session n =
    let i = find_session_idx session n.sessions in
    let m = count_dropped session n in
    if session.is_monitored
    then (elim (remove_at i n.sessions) [
      | none ↦ none
      | some ss ↦ elim (remove_at i n.session_stats) [
        | none ↦ none
        | some ts ↦ some (record m { sessions = ss; session_stats = ts })
      ]
    ])
    else some n

unfoldable pub bad_hello : Session → Ncm → Ncm
bad_hello session n =
    if session.is_monitored then record n { in_bad_hellos = incr32 n.in_bad_hellos } else n

abbrev pub stats_at : ℕ → List Stats → Option Stats
stats_at i [] = none
stats_at zero (t ∷ ts) = some t
stats_at (suc i) (t ∷ ts) = stats_at i ts

-- The notifications sent to the session.
unfoldable pub session_get_notification : Session → Ncm → Option ℕ
unfolding find_session_idx
session_get_notification session n =
    if session.is_monitored
    then (elim (stats_at (find_session_idx session n.sessions) n.session_stats) [
      | none ↦ none
      | some t ↦ some t.out_notifications
    ])
    else some 0
