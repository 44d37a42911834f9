-- ===== src/Subs/Subscribe.antt =====
-- Sysrepo subscriptions of one subscription, of src/subscribed_notifications.c: sub_ntf_sr_subscribe
-- makes them, sub_ntf_del_sr_sub_is_last removes one.
use netopeer.Common.{
  ℕ, ◌==◌, Bool, true, false, List, [], ◌∷◌, ◌++◌, Option, none, some, CString, lit, length, str_eq,
  if◌then◌else◌,
}
use netopeer.Sysrepo.{Code, sr_ok, is_ok}
use netopeer.Subs.{CbArg}

-- What sr_notif_subscribe_tree answers for a module, and the ID of the new subscription.
abbrev pub Answers : Type 0
Answers = CString → Code × ℕ

-- What sub_ntf_sr_subscribe gives: the code, sub_ids, and the IDs that it unsubscribed.
pub record Subscribed : Type 0 where
  pub code : Code
  pub sub_ids : List ℕ
  pub dropped : List ℕ

-- The label `error`: all that was subscribed is unsubscribed in its order.
abbrev pub subscribe_failed : Code → List ℕ → Subscribed
subscribe_failed code ids = record { code = code; sub_ids = []; dropped = ids }

-- The loop over the modules, with the IDs so far.
unfoldable pub subscribe_all : Answers → List CString → List ℕ → Subscribed
subscribe_all answer [] ids = record { code = sr_ok; sub_ids = ids; dropped = [] }
subscribe_all answer (m ∷ ms) ids =
    if is_ok (answer m).0
    then subscribe_all answer ms (ids ++ (answer m).1 ∷ [])
    else subscribe_failed (answer m).0 ids

-- A module of the context, whether it is implemented, and np_ly_mod_has_notif of it.
pub record ContextModule : Type 0 where
  pub name : CString
  pub implemented : Bool
  pub has_notif : Bool

abbrev pub with_notifs : List ContextModule → List CString
with_notifs [] = []
with_notifs (m ∷ ms) =
    if m.implemented
    then (if m.has_notif then m.name ∷ with_notifs ms else with_notifs ms)
    else with_notifs ms

-- The modules of a stream; their number is sr_sub_count.
unfoldable pub stream_modules : List ContextModule → CString → List CString
stream_modules ms stream = if str_eq stream (lit "NETCONF") then with_notifs ms else stream ∷ []

unfoldable pub sub_ntf_sr_subscribe :
    List ContextModule → Answers → CString → CbArg → Subscribed × CbArg
sub_ntf_sr_subscribe ms answer stream arg = (
  subscribe_all answer (stream_modules ms stream) [],
  record arg { sr_sub_count = length (stream_modules ms stream) },
)

-- The list without its first item x.
abbrev pub without : ℕ → List ℕ → Option (List ℕ)
without x [] = none
without x (y ∷ ys) =
    if y == x then some ys else elim (without x ys) [ none ↦ none | some zs ↦ some (y ∷ zs) ]

abbrev pub is_empty : List ℕ → Bool
is_empty [] = true
is_empty (x ∷ xs) = false

-- The IDs that are left, and whether the last one was removed.
unfoldable pub sub_ntf_del_sr_sub_is_last : ℕ → List ℕ → List ℕ × Bool
sub_ntf_del_sr_sub_is_last sub_id ids = elim (without sub_id ids) [
  | none ↦ (ids, false)
  | some rest ↦ (rest, is_empty rest)
]
