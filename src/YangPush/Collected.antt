-- ===== src/YangPush/Collected.antt =====
-- The loop over the changes of np2srv_change_yang_push_cb in src/yang_push.c collects the last change
-- of each target.
use netopeer.Common.{
  ◌≡◌, refl, ap, sym, ◌∙◌, ℕ, ◌+◌, Bool, false, List, [], ◌∷◌, Option, none, some, CString, str_eq,
  All, inl, inr, Bool-cases, Option-cases, subst, if◌then◌else◌,
}
use netopeer.Common.StringLaws.{str_eq_iff}
use netopeer.Sysrepo.{sr_ok, ChangeOp}
use netopeer.Filter.Buffer.{has_char}
use netopeer.YangPush.{Op, Edit, ChangeNtf, OnChange, ChangedNode}
use netopeer.YangPush.Change.{
  Other, yang_push_op_sr2yp, new_edit, edit_append, started_ntf, appended, change_step, change_loop,
}
use netopeer.YangPush.Edits.{lookup, Unique, edit_append_latest}

abbrev pub edits_of : Option ChangeNtf → List Edit
edits_of none = []
edits_of (some ntf) = ntf.edits

-- The edits that wait to be sent.
abbrev pub pending_edits : OnChange → List Edit
pending_edits d = edits_of d.ly_change_ntf

abbrev pub op_of : Option Edit → Option Op
op_of none = none
op_of (some e) = some e.operation

abbrev pub op_at : CString → List Edit → Option Op
op_at q es = op_of (lookup q es)

-- The operation of the last change of a target that is not excluded, or what was there before.
abbrev pub last_op : CString → (Op → Bool) → List (ChangeOp × ChangedNode) → Option Op → Option Op
last_op q excluded [] before = before
last_op q excluded ((op, n) ∷ cs) before = last_op q excluded cs (
    if excluded (yang_push_op_sr2yp op n)
    then before
    else (if str_eq n.path q then some (yang_push_op_sr2yp op n) else before))

-- No path has an apostrophe.
abbrev pub Plain : List (ChangeOp × ChangedNode) → Type 0
Plain cs = All (λ c. has_char b'\'' c.1.path ≡ false) cs

-- What the loop keeps.
abbrev pub Kept : OnChange → OnChange → Type 0
Kept d e =
    (e.excluded_change ≡ d.excluded_change)
    × (e.last_notif ≡ d.last_notif)
    × (e.damp_timer ≡ d.damp_timer)
    × Unique (pending_edits e)

started_ntf_keeps :
    (id : ℕ) (d : OnChange)
    → ((started_ntf id d).0.edits ≡ pending_edits d)
      × ((started_ntf id d).1.excluded_change ≡ d.excluded_change)
      × ((started_ntf id d).1.last_notif ≡ d.last_notif)
      × ((started_ntf id d).1.damp_timer ≡ d.damp_timer)
started_ntf_keeps id d = elim (Option-cases d.ly_change_ntf) [
  | inl k ↦ rw k (refl, refl, refl, refl)
  | inr (ntf, k) ↦ rw k (refl, refl, refl, refl)
]

not_excluded :
    (other : Other) (id : ℕ) (op : ChangeOp) (n : ChangedNode) (d : OnChange)
    → d.excluded_change (yang_push_op_sr2yp op n) ≡ false
    → change_step other id (op, n) d
      ≡ appended
          (edit_append other (yang_push_op_sr2yp op n) n (started_ntf id d).0 (started_ntf id d).1)
unfolding change_step
not_excluded other id op n d k = rw (change_step, k)

op_after :
    (q : CString) (op : Op) (n : ChangedNode) (es us : List Edit) (i : ℕ)
    → lookup n.path us ≡ some (new_edit i op n)
    → ((r : CString) → str_eq n.path r ≡ false → lookup r us ≡ lookup r es)
    → op_at q us ≡ (if str_eq n.path q then some op else op_at q es)
op_after q op n es us i h o = elim (Bool-cases (str_eq n.path q)) [
  | inr k ↦ rw k (ap op_of (o q k))
  | inl k ↦
      let same : n.path ≡ q = (str_eq_iff n.path q).0 k in
      let g : lookup q us ≡ some (new_edit i op n) = ap (λ t. lookup t us) (sym same) ∙ h in
      rw k (ap op_of g)
]

-- Of one change.
change_step-Kept :
    (other : Other) (id : ℕ) (op : ChangeOp) (n : ChangedNode) (d : OnChange)
    → has_char b'\'' n.path ≡ false
    → Unique (pending_edits d)
    → (e : OnChange) × (change_step other id (op, n) d ≡ (sr_ok, e))
      × Kept d e
      × ((q : CString)
          → op_at q (pending_edits e)
            ≡ last_op q d.excluded_change ((op, n) ∷ []) (op_at q (pending_edits d)))
unfolding change_step
change_step-Kept other id op n d h w =
    let yp_op = yang_push_op_sr2yp op n in
    let (ntf, f) = started_ntf id d in
    let (edits, excl, last, timer) = started_ntf_keeps id d in
    elim (Bool-cases (d.excluded_change yp_op)) [
      | inl k ↦ (
        record d { excluded_op_count = d.excluded_op_count + 1 },
        rw (change_step, k),
        (refl, refl, refl, w),
        λ q. rw k,
      )
      | inr k ↦
          let (u, a, unique, new, kept) =
            edit_append_latest other yp_op n ntf f h (subst Unique (sym edits) w) in
          (
            record f { edit_id = f.edit_id + 1; ly_change_ntf = some u },
            not_excluded other id op n d k ∙ ap appended a,
            (excl, last, timer, unique),
            λ q. op_after q yp_op n ntf.edits u.edits f.edit_id new kept ∙ rw (k, edits),
          )
    ]

-- The loop over changes of nodes whose paths have no apostrophe comes to its end. Of each target the
-- edits then have the operation of its last change that is not excluded, and what they had before if
-- there is none; no two edits have one target, and neither the timer nor the time of the last
-- notification changes.
pub change_loop-last_op :
    (other : Other) (id : ℕ) (cs : List (ChangeOp × ChangedNode)) (d : OnChange)
    → Plain cs
    → Unique (pending_edits d)
    → (e : OnChange) × (change_loop other id cs d ≡ (sr_ok, e))
      × Kept d e
      × ((q : CString)
          → op_at q (pending_edits e) ≡ last_op q d.excluded_change cs (op_at q (pending_edits d)))
unfolding change_loop
change_loop-last_op other id [] d h w = (d, refl, (refl, refl, refl, w), λ q. refl)
change_loop-last_op other id ((op, n) ∷ cs) d h w =
    let (m, a, (excl, last, timer, unique), ops) = change_step-Kept other id op n d h.0 w in
    let (e, b, (excl_rest, last_rest, timer_rest, unique_rest), ops_rest) =
      change_loop-last_op other id cs m h.1 unique in
    (
      e,
      rw (change_loop, a) b,
      (excl_rest ∙ excl, last_rest ∙ last, timer_rest ∙ timer, unique_rest),
      λ q.
          ops_rest q
          ∙ ap (λ x. last_op q x cs (op_at q (pending_edits m))) excl
          ∙ ap (last_op q d.excluded_change cs) (ops q),
    )
