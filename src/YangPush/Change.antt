-- ===== src/YangPush/Change.antt =====
-- Changes of src/yang_push.c on their way into a notification: yang_push_op_sr2yp,
-- yang_push_notif_change_edit_append, _ready and _send, the timer's callback and
-- np2srv_change_yang_push_cb.
use netopeer.Common.{
  suc, ℕ, ◌+◌, ◌-◌, ◌%◌, ltb, ◌==◌, ◌&&◌, ◌||◌, Bool, true, false, List, [], ◌∷◌, ◌++◌, Option,
  none, some, CString, lit, str_eq, if◌then◌else◌, ◌>>=◌,
}
use netopeer.Common.Ints.{ℤ, pos, negsuc, is_positive}
use netopeer.Sysrepo.{
  assertion, Code, sr_ok, sr_err_ly, is_ok, ChangeOp, created, modified, deleted, moved,
}
use netopeer.Time.{Timespec, np_difftimespec, np_addtimespec}
use netopeer.Filter.Quoted.{read_literal}
use netopeer.YangPush.{
  Op, op_create, op_delete, op_insert, op_move, op_replace, Edit, ChangeNtf, OnChange, ChangedNode,
}
use netopeer.Subs.{Info, Server, push_change_update}
use netopeer.Subs.Table.{sub_ntf_send_notif, sub_ntf_inc_denied, sub_ntf_find}
use netopeer.Subs.Locks.{found_usable}

abbrev pub yang_push_op_sr2yp : ChangeOp → ChangedNode → Op
yang_push_op_sr2yp created n = if n.is_userordered then op_insert else op_create
yang_push_op_sr2yp modified n = op_replace
yang_push_op_sr2yp deleted n = op_delete
yang_push_op_sr2yp moved n = op_move

-- set->count
abbrev pub selected : (CString → Bool) → List Edit → ℕ
selected chosen [] = 0
selected chosen (e ∷ es) = if chosen e.target then suc (selected chosen es) else selected chosen es

abbrev pub without_target : (CString → Bool) → List Edit → List Edit
without_target chosen [] = []
without_target chosen (e ∷ es) =
    if chosen e.target then without_target chosen es else e ∷ without_target chosen es

abbrev pub is_ordering : Op → Bool
is_ordering op_insert = true
is_ordering op_move = true
is_ordering op = false

-- What libyang makes of an expression that is no comparison with one literal: an error, or which targets
-- it selects.
abbrev pub Other : Type 0
Other = CString → Option (CString → Bool)

-- edit[target='path']: where an XPath parser reads one literal up to the last apostrophe, the edits with
-- that target are selected; the path that makes any other expression is given to `other`.
abbrev pub sought_target : Other → CString → Option (CString → Bool)
sought_target other path = elim (read_literal (b'\'' ∷ (path ++ (b'\'' ∷ b']' ∷ [])))) [
  | none ↦ other path
  | some (target, rest) ↦
      if str_eq rest (b']' ∷ []) then some (λ t. str_eq t target) else other path
]

abbrev pub point_of : ChangedNode → Option CString
point_of n = elim n.prev [
  | [] ↦ none
  | c ∷ s ↦
      some
        (if n.is_leaflist then n.path ++ (lit "[.='" ++ (n.prev ++ lit "']")) else n.path ++ n.prev)
]

abbrev pub is_none : {A : Type 0} → List A → Bool
is_none [] = true
is_none (x ∷ xs) = false

abbrev pub is_first : ChangedNode → Bool
is_first n = is_none n.prev && (n.is_leaflist || n.is_list)

abbrev pub new_edit : ℕ → Op → ChangedNode → Edit
new_edit id op n = record {
  edit_id = id;
  operation = op;
  target = n.path;
  point = if is_ordering op then point_of n else none;
  first = if is_ordering op then some (is_first n) else none;
}

-- Selecting more than one edit fails an assertion.
unfoldable pub edit_append :
    Other → Op → ChangedNode → ChangeNtf → OnChange → Code × ChangeNtf × OnChange
edit_append other op n ntf d = elim (sought_target other n.path) [
  | none ↦ (sr_err_ly, ntf, d)
  | some chosen ↦ if ltb 1 (selected chosen ntf.edits) then (assertion, ntf, d) else (
    sr_ok,
    record ntf { edits = without_target chosen ntf.edits ++ new_edit d.edit_id op n ∷ [] },
    record d { edit_id = d.edit_id + 1 },
  )
]

-- A number of milliseconds put into an int32_t.
abbrev pub to_int32 : ℤ → ℤ
to_int32 (pos n) =
    let m = n % 4294967296 in if ltb m 2147483648 then pos m else negsuc (4294967295 - m)
to_int32 (negsuc n) =
    let m = n % 4294967296 in if ltb m 2147483648 then negsuc m else pos (4294967295 - m)

-- from `learn when the next notification is due` on
unfoldable pub unset_ready : Timespec → OnChange → Option (Bool × OnChange)
unset_ready now d = do
  next_notif ← np_addtimespec d.last_notif d.dampening_period_ms
  if is_positive (to_int32 (np_difftimespec now next_notif))
      then some (false, record d { damp_timer = some next_notif })
      else some (true, d)

-- Whether the notification can be sent now; otherwise the timer is armed. The time is given by
-- np_gettimespec, and timer_gettime and timer_settime succeed. An assertion fails for a last_notif
-- that is not normal.
unfoldable pub change_ready : Timespec → OnChange → Option (Bool × OnChange)
change_ready now d =
    if d.dampening_period_ms == 0
    then some (true, d)
    else elim d.damp_timer [ some at ↦ some (false, d) | none ↦ unset_ready now d ]

abbrev pub started_ntf : ℕ → OnChange → ChangeNtf × OnChange
started_ntf nc_sub_id d = elim d.ly_change_ntf [
  | some ntf ↦ (ntf, d)
  | none ↦ (
    record { sub_id = nc_sub_id; patch_id = d.patch_id; edits = [] },
    record d { patch_id = d.patch_id + 1; edit_id = 1 },
  )
]

abbrev pub appended : Code × ChangeNtf × OnChange → Code × OnChange
appended (r, ntf, d) = (r, record d { ly_change_ntf = some ntf })

-- One change of the loop.
unfoldable pub change_step : Other → ℕ → ChangeOp × ChangedNode → OnChange → Code × OnChange
change_step other nc_sub_id (op, n) d =
    let yp_op = yang_push_op_sr2yp op n in
    if d.excluded_change yp_op
    then (sr_ok, record d { excluded_op_count = d.excluded_op_count + 1 })
    else (let (ntf, e) = started_ntf nc_sub_id d in appended (edit_append other yp_op n ntf e))

-- The code that the loop ends with, SR_ERR_OK at its end, and the data after it.
unfoldable pub change_loop : Other → ℕ → List (ChangeOp × ChangedNode) → OnChange → Code × OnChange
change_loop other nc_sub_id [] d = (sr_ok, d)
change_loop other nc_sub_id (c ∷ cs) d =
    let (r, e) = change_step other nc_sub_id c d in
    let rest = change_loop other nc_sub_id cs e in if is_ok r then rest else (r, e)

abbrev pub is_assertion : Code → Bool
is_assertion assertion = true
is_assertion r = false

-- What ncac_check_yang_push_update_notif leaves of the edits; none at all is all_removed.
module _ (server : Server) (readable : List Edit → List Edit) where
  -- yang_push_notif_change_send, of a notification; `now` is the time behind the sending.
  unfoldable pub change_send :
      ℕ → ℕ → Timespec → ChangeNtf → OnChange → Info → Code × OnChange × Info
  change_send ncs nc_sub_id now ntf d t =
      let gone = record d { ly_change_ntf = none } in
      if is_none (readable ntf.edits)
      then (sr_ok, gone, sub_ntf_inc_denied nc_sub_id t)
      else (let (r, u) =
            sub_ntf_send_notif server ncs nc_sub_id
              (push_change_update (record ntf { edits = readable ntf.edits })) t in
          (r, if is_ok r then record gone { last_notif = now } else gone, u))

  -- yang_push_damp_timer_cb; `none` is the assertion that there is a notification. A timer that has
  -- fired is not armed any more.
  unfoldable pub damp_timer_cb : ℕ → ℕ → Timespec → OnChange → Info → Option (OnChange × Info)
  damp_timer_cb ncs nc_sub_id now d t =
      let fired = record d { damp_timer = none } in
      if found_usable t (sub_ntf_find nc_sub_id 0 t.subs)
      then elim d.ly_change_ntf [
        | none ↦ none
        | some ntf ↦ let (r, e, u) = change_send ncs nc_sub_id now ntf fired t in some (e, u)
      ]
      else some (fired, t)

  -- np2srv_change_yang_push_cb, where sr_get_changes_iter succeeds: its times are those of the
  -- check and of the sending. An error of the loop is dropped; a failed assertion is `none`.
  unfoldable pub change_cb :
      Other
      → ℕ
      → ℕ
      → Timespec
      → Timespec
      → List (ChangeOp × ChangedNode)
      → OnChange
      → Info
      → Option (OnChange × Info)
  change_cb other ncs nc_sub_id now sent cs d t =
      let (r, e) = change_loop other nc_sub_id cs d in
      elim (is_ok r) [
        | false ↦ if is_assertion r then none else some (e, t)
        | true ↦ elim e.ly_change_ntf [
          | none ↦ some (e, t)
          | some ntf ↦ do
            (ready, f) ← change_ready now e
            elim ready [
              | false ↦ some (f, t)
              | true ↦ let (r, g, u) = change_send ncs nc_sub_id sent ntf f t in some (g, u)
            ]
        ]
      ]
